-- ===== src/Decode/OneShot/Outcomes.antt =====
-- native/src/jflac_jni.c: how the native methods of the one-shot decodes end.
use java_kotlin_flac.Prelude.{
  ℕ, Bool, true, false, Option, some, List, ◌≡◌, refl, ◌<◌, ◌+◌, subst, sym, arith, if_cases,
  if◌then◌else◌, not,
}
use java_kotlin_flac.Prelude.Int.{ℤ, pos, pos_part, eqb_ℤ}
use java_kotlin_flac.Jni.{Java, Vm, Event}
use java_kotlin_flac.Flac.{Flac}
use java_kotlin_flac.Entry.{Loading, container_ogg}
use java_kotlin_flac.Decode.Context.{prepare_decode_context}
use java_kotlin_flac.Decode.Context.Channel.{all_methods}
use java_kotlin_flac.Decode.Range.{configure_decode_range, validate_decode_request}
use java_kotlin_flac.Decode.Range.Request.{validate_decode_request_iff}
use java_kotlin_flac.Decode.Write.Crop.{frames_heard}
use java_kotlin_flac.Decode.Callbacks.Balance.{run-IsKept}
use java_kotlin_flac.Decode.Callbacks.Bounded.{IsWord, IsBounded, run-IsBounded}
use java_kotlin_flac.Decode.Read.Continuity.{Progress, Finishes}
use java_kotlin_flac.Decode.Coder.{
  init_file_decoder_for_container, init_stream_decoder_for_container,
}
use java_kotlin_flac.Decode.Session.Outcomes.{full_consumer, configure-IsMetered}
use java_kotlin_flac.Decode.OneShot.{validate_range_request}
use java_kotlin_flac.Decode.OneShot.Guide.{IsReported}
use java_kotlin_flac.Decode.OneShot.Guides.{
  HasWords, AtMost, Anything, kept-IsWhole, range_guide, whole_guide,
}
use java_kotlin_flac.Decode.OneShot.Inputs.{whole}
use java_kotlin_flac.Decode.OneShot.Inputs.Reports.{begun}
use java_kotlin_flac.Decode.OneShot.Inputs.Files.{decode_file_internal-Reported}
use java_kotlin_flac.Decode.OneShot.Inputs.Channels.{decode_channel_internal-Reported}
use java_kotlin_flac.Decode.OneShot.Inputs.Balance.{
  HoldsVm, decode_file_internal-Holds, decode_channel_internal-Holds,
}
use java_kotlin_flac.Decode.OneShot.Bindings.{
  from, bounded, decode_file, decode_file_from, decode_file_range, decode_channel,
  decode_channel_range,
}

-- A decode returns, and not in silence, and the bridge holds afterwards what it held before.
pub record IsSettled {W : Type 0} (vm : Vm W) (Fits : List Event → Type 0) (o : Option (Vm W))
    : Type 0 where
  pub reported : IsReported Fits o
  pub same_holdings : reported.result.holdings ≡ vm.holdings

settle :
    {W : Type 0} (vm : Vm W) (Fits : List Event → Type 0) (o : Option (Vm W))
    → IsReported Fits o
    → HoldsVm vm.holdings o
    → IsSettled vm Fits o
settle vm Fits o r h = record {
  reported = r;
  same_holdings = subst (HoldsVm vm.holdings) r.returns h;
}

init_file-IsWord :
    {D : Type 0} (flac : Flac D) (container : ℤ) (path : List ℕ) (d : D)
    → HasWords flac
    → IsWord (init_file_decoder_for_container flac container path d)
unfolding init_file_decoder_for_container
init_file-IsWord flac container path d words =
    if_cases IsWord {b = eqb_ℤ container container_ogg} (λ _. words.init_ogg_file path d)
      (λ _. words.init_file path d)

init_stream-IsWord :
    {D : Type 0} (flac : Flac D) (container : ℤ) (seekable : Bool) (d : D)
    → HasWords flac
    → IsWord (init_stream_decoder_for_container flac container seekable d)
unfolding init_stream_decoder_for_container
init_stream-IsWord flac container seekable d words =
    if_cases IsWord {b = eqb_ℤ container container_ogg} (λ _. words.init_ogg_stream seekable d)
      (λ _. words.init_stream seekable d)

still_valid :
    {A : Type 0} (b : Bool) (x y : A)
    → (if◌then◌else◌ {A = Bool × A} (not b) (false, x) (true, y)).0 ≡ true
    → b ≡ true
still_valid true x y e = refl
still_valid false x y e = absurd cc

-- A range that is accepted begins as a bounded decode.
begun-IsBounded :
    {W : Type 0} (container first max : ℤ) (vm : Vm W)
    → (validate_range_request (bounded container first max) vm).0 ≡ true
    → IsBounded (frames_heard vm.heard) (pos_part max) (begun (bounded container first max) vm)
unfolding prepare_decode_context validate_range_request
begun-IsBounded container first max vm valid =
    let accepted : (validate_decode_request first true max vm).0 ≡ true = still_valid _ _ _ valid in
    let (a, b, ea, eb, fits) = (validate_decode_request_iff first max vm).0 accepted in
    subst
      (λ f. IsBounded (frames_heard vm.heard) (pos_part max) (begun (bounded container f max) vm))
      (sym ea)
      (subst
        (λ m.
          IsBounded (frames_heard vm.heard) (pos_part m) (begun (bounded container (pos a) m) vm))
        (sym eb) (record { push = refl; metered = configure-IsMetered a b vm fits }))

module _ {W D : Type 0} (java : Java W) (flac : Flac D) (loading : Loading) (fuel : ℕ)
    (created : Option D) where
  -- `decodeFileRange` for a consumer with the three methods, with enough fuel and a decoder whose finish
  -- succeeds: it returns, it does not return in silence, whatever range is asked for, the consumer is
  -- given at most that many frames, and the decoder is deleted.
  pub decode_file_range-IsSettled :
      (left : D → ℕ) (lookups : Bool) (path : Option (List ℕ)) (container first max : ℤ) (vm : Vm W)
      → HasWords flac
      → Progress flac left
      → ((d : D) → left d < fuel)
      → ((d : D) → Finishes (λ ok _. ok ≡ true) (flac.finish d))
      → IsSettled vm (AtMost (frames_heard vm.heard + pos_part max)) (
          decode_file_range java flac loading fuel created lookups path container first max
            full_consumer vm)
  unfolding decode_file_range
  decode_file_range-IsSettled left lookups path container first max vm words progress enough
        finish_ok =
      let base = frames_heard vm.heard in
      let limit = pos_part max in
      settle vm _ _
        (decode_file_internal-Reported java flac loading fuel created
          (range_guide java flac base limit left fuel words progress enough)
          (bounded container first max) lookups path vm
          (λ path' d t.
            run-IsBounded java base limit (init_file_decoder_for_container flac container path' d) t
              (init_file-IsWord flac container path' d words))
          (λ _. finish_ok) (omega arith) (begun-IsBounded container first max vm))
        (decode_file_internal-Holds java flac loading fuel created (bounded container first max)
          lookups path full_consumer vm)

  -- `decodeFile` of a single stream, with or without a check of the checksum, for a consumer with the
  -- three methods: it returns, without need of fuel, it does not return in silence, and the decoder is
  -- deleted.
  pub decode_file-IsSettled :
      (lookups : Bool) (path : Option (List ℕ)) (container : ℤ) (check_md5 : Bool) (vm : Vm W)
      → IsSettled vm Anything (
          decode_file java flac loading fuel created lookups path container check_md5 false
            full_consumer vm)
  unfolding decode_file prepare_decode_context configure_decode_range
  decode_file-IsSettled lookups path container check_md5 vm =
      settle vm _ _
        (decode_file_internal-Reported java flac loading fuel created (whole_guide java flac fuel)
          (whole container check_md5 false) lookups path vm
          (λ path' d t.
            kept-IsWhole t _
              (run-IsKept java (init_file_decoder_for_container flac container path' d) t))
          (λ e. absurd cc) tt (λ _. record { unlimited = refl; unchained = refl }))
        (decode_file_internal-Holds java flac loading fuel created (whole container check_md5 false)
          lookups path full_consumer vm)

  -- `decodeFileFrom` for a consumer with the three methods, with a decoder whose finish succeeds: it
  -- returns, it does not return in silence, and the decoder is deleted.
  pub decode_file_from-IsSettled :
      (lookups : Bool) (path : Option (List ℕ)) (container first : ℤ) (vm : Vm W)
      → ((d : D) → Finishes (λ ok _. ok ≡ true) (flac.finish d))
      → IsSettled vm Anything (
          decode_file_from java flac loading fuel created lookups path container first full_consumer
            vm)
  unfolding decode_file_from prepare_decode_context configure_decode_range
  decode_file_from-IsSettled lookups path container first vm finish_ok =
      settle vm _ _
        (decode_file_internal-Reported java flac loading fuel created (whole_guide java flac fuel)
          (from container first) lookups path vm
          (λ path' d t.
            kept-IsWhole t _
              (run-IsKept java (init_file_decoder_for_container flac container path' d) t))
          (λ _. finish_ok) tt (λ _. record { unlimited = refl; unchained = refl }))
        (decode_file_internal-Holds java flac loading fuel created (from container first) lookups
          path full_consumer vm)

  -- `decodeChannelRange` for a consumer with the three methods and a channel with the four, where global
  -- references can be made, with enough fuel and a decoder whose finish succeeds: it returns, it does not
  -- return in silence, whatever range is asked for, the consumer is given at most that many frames, and
  -- the decoder and the reference to the channel are deleted.
  pub decode_channel_range-IsSettled :
      (left : D → ℕ) (container first max : ℤ) (vm : Vm W)
      → ((w : W) → (java.new_global_ref w).1 ≡ true)
      → HasWords flac
      → Progress flac left
      → ((d : D) → left d < fuel)
      → ((d : D) → Finishes (λ ok _. ok ≡ true) (flac.finish d))
      → IsSettled vm (AtMost (frames_heard vm.heard + pos_part max)) (
          decode_channel_range java flac loading fuel created
            (some all_methods)
            container
            first
            max
            full_consumer
            vm)
  unfolding decode_channel_range
  decode_channel_range-IsSettled left container first max vm refs words progress enough finish_ok =
      let base = frames_heard vm.heard in
      let limit = pos_part max in
      settle vm _ _
        (decode_channel_internal-Reported java flac loading fuel created
          (range_guide java flac base limit left fuel words progress enough)
          (bounded container first max) vm refs
          (λ d t.
            run-IsBounded java base limit (init_stream_decoder_for_container flac container true d)
              t (init_stream-IsWord flac container true d words))
          (λ _. finish_ok) (omega arith)
          (λ source valid.
            let b = begun-IsBounded container first max vm valid in
            record { push = b.push; metered = b.metered }))
        (decode_channel_internal-Holds java flac loading fuel created (bounded container first max)
          (some all_methods) full_consumer vm)

  -- `decodeChannel` of a single stream, for a consumer with the three methods and a channel with the four,
  -- where global references can be made: it returns, without need of fuel, it does not return in silence,
  -- and the decoder and the reference to the channel are deleted.
  pub decode_channel-IsSettled :
      (container : ℤ) (check_md5 : Bool) (vm : Vm W)
      → ((w : W) → (java.new_global_ref w).1 ≡ true)
      → IsSettled vm Anything (
          decode_channel java flac loading fuel created
            (some all_methods)
            container
            check_md5
            false
            full_consumer
            vm)
  unfolding decode_channel prepare_decode_context configure_decode_range
  decode_channel-IsSettled container check_md5 vm refs =
      settle vm _ _
        (decode_channel_internal-Reported java flac loading fuel created
          (whole_guide java flac fuel) (whole container check_md5 false) vm refs
          (λ d t.
            kept-IsWhole t _
              (run-IsKept java (init_stream_decoder_for_container flac container true d) t))
          (λ e. absurd cc) tt (λ source _. record { unlimited = refl; unchained = refl }))
        (decode_channel_internal-Holds java flac loading fuel created
          (whole container check_md5 false) (some all_methods) full_consumer vm)
