-- ===== src/Decode/OneShot/Inputs/Balance.antt =====
-- native/src/jflac_jni.c: the one-shot decodes of a file, a stream and a channel, and what the bridge
-- holds.
use java_kotlin_flac.Prelude.{
  ℕ, Bool, true, false, Option, none, some, List, ◌≡◌, refl, ◌∙◌, ap, ◌-◌, ◌&&◌, not, if_cases,
  arith, is_some, String, subst,
}
use java_kotlin_flac.Prelude.Int.{ℤ}
use java_kotlin_flac.Jni.{
  Java, Vm, Holdings, exception_check, throw_decode_exception, throw_illegal_argument_exception,
}
use java_kotlin_flac.Flac.{Flac}
use java_kotlin_flac.Text.{jstring_to_utf8, c_string}
use java_kotlin_flac.Text.Utf8.{jstring_to_utf8-IsQuieter}
use java_kotlin_flac.Entry.{Loading, check_entry, flac_api_ready, validate_container}
use java_kotlin_flac.Decode.Context.{
  Source, prepare_decode_context, clear_decode_seekable_channel, prepare_decode_seekable_channel,
  prepare_decode_input_stream,
}
use java_kotlin_flac.Decode.Context.Channel.{
  prepare_decode_seekable_channel-IsPrepared, without_reference,
}
use java_kotlin_flac.Decode.Range.{validate_decode_request}
use java_kotlin_flac.Decode.Write.{State}
use java_kotlin_flac.Decode.Coder.{
  init_file_decoder_for_container, init_stream_decoder_for_container,
}
use java_kotlin_flac.Decode.OneShot.{Request, validate_range_request}
use java_kotlin_flac.Decode.OneShot.Inputs.{
  decode_path, decode_utf8_path, whole, fresh_context, last_vm, file_wording, stream_wording,
  channel_wording, keep_input, fresh_state, with_range, class_of, Consumer, clear_channel,
  decode_file_internal, decode_stream_internal, decode_channel_internal,
}
use java_kotlin_flac.Decode.OneShot.Steps.{Holds}
use java_kotlin_flac.Decode.OneShot.Balance.{decode_with_decoder-Holds}

module _ {W : Type 0} where
  pub check_entry-holdings :
      (loading : Loading) (container : ℤ) (given : Bool) (message : String) (vm : Vm W)
      → (check_entry loading container given message vm).1.holdings ≡ vm.holdings
  unfolding check_entry flac_api_ready validate_container
  check_entry-holdings none container given message vm = ground arith
  check_entry-holdings (some e) container given message vm = refl

  validate_range_request-holdings :
      (q : Request) (vm : Vm W) → (validate_range_request q vm).1.holdings ≡ vm.holdings
  unfolding validate_range_request validate_decode_request
  validate_range_request-holdings q vm = ground arith

  clear_channel-holdings :
      (t : State W)
      → t.context.source.seekable_channel ≡ true
      → (clear_channel t).vm.holdings
        ≡ record t.vm.holdings { global_refs = t.vm.holdings.global_refs - 1 }
  unfolding clear_channel clear_decode_seekable_channel
  clear_channel-holdings t e = ground arith

  clear_channel-nothing :
      (t : State W) → t.context.source.seekable_channel ≡ false → clear_channel t ≡ t
  unfolding clear_channel clear_decode_seekable_channel
  clear_channel-nothing t e = ground arith

module _ {W : Type 0} where
  abbrev pub HoldsVm : Holdings → Option (Vm W) → Type 0
  HoldsVm held none = Unit {0}
  HoldsVm held (some vm) = vm.holdings ≡ held

  last-Holds : (held : Holdings) (o : Option (State W)) → Holds held o → HoldsVm held (last_vm o)
  last-Holds held none h = tt
  last-Holds held (some s) h = h

  prepare_decode_input_stream-holdings :
      (stream : Bool) (class : Option Bool) (s : Source) (vm : Vm W)
      → (prepare_decode_input_stream stream class s vm).2.holdings ≡ vm.holdings
  unfolding prepare_decode_input_stream throw_illegal_argument_exception
  prepare_decode_input_stream-holdings false class s vm = refl
  prepare_decode_input_stream-holdings true none s vm = refl
  prepare_decode_input_stream-holdings true (some found) s vm = refl

fresh_context-channel :
    (chained : Bool) (consumer : Consumer)
    → (fresh_context chained consumer).0.source.seekable_channel ≡ false
unfolding prepare_decode_context
fresh_context-channel chained none = refl
fresh_context-channel chained (some none) = refl
fresh_context-channel chained (some (some methods)) = refl

module _ {W D : Type 0} (java : Java W) (flac : Flac D) (loading : Loading) (fuel : ℕ)
    (created : Option D) where
  decode_path-Holds :
      (q : Request) (utf8_path : List ℕ) (consumer : Consumer) (vm : Vm W)
      → HoldsVm vm.holdings (decode_path java flac loading fuel created q utf8_path consumer vm)
  unfolding decode_path
  decode_path-Holds q utf8_path consumer vm =
      let c = fresh_context q.decode_chained_ogg consumer in
      if_cases (HoldsVm vm.holdings) {b = not c.1} (λ _. refl)
        λ _. last-Holds vm.holdings _ (
          decode_with_decoder-Holds java flac fuel file_wording q keep_input
            (init_file_decoder_for_container flac q.container (c_string utf8_path)) created
            (fresh_state (with_range q c.0) vm) vm.holdings (λ t _ h. h))

  decode_utf8_path-Holds :
      (q : Request) (consumer : Consumer) (r : Option (List ℕ) × Vm W)
      → HoldsVm r.1.holdings (decode_utf8_path java flac loading fuel created q consumer r)
  unfolding decode_utf8_path throw_decode_exception
  decode_utf8_path-Holds q consumer (none, vm) =
      if_cases (λ (t : Vm W). t.holdings ≡ vm.holdings) {b = exception_check vm} (λ _. refl)
        (λ _. refl)
  decode_utf8_path-Holds q consumer (some path, vm) = decode_path-Holds q path consumer vm

  -- However a one-shot decode of a file ends, the bridge holds what it held before: the decoder that it
  -- created is deleted.
  pub decode_file_internal-Holds :
      (q : Request) (lookups : Bool) (path : Option (List ℕ)) (consumer : Consumer) (vm : Vm W)
      → HoldsVm vm.holdings
          (decode_file_internal java flac loading fuel created q lookups path consumer vm)
  unfolding decode_file_internal
  decode_file_internal-Holds q lookups path consumer vm =
      let message : String = "Decoder path and consumer must not be null." in
      let given = is_some path && is_some consumer in
      let a = check_entry loading q.container given message vm in
      let ea = check_entry-holdings loading q.container given message vm in
      let v = validate_range_request q a.1 in
      let ev = validate_range_request-holdings q a.1 ∙ ea in
      let u = jstring_to_utf8 java lookups path v.1 in
      let eu = (jstring_to_utf8-IsQuieter java lookups path v.1).same_holdings ∙ ev in
      if_cases (HoldsVm vm.holdings) {b = not a.0} (λ _. ea)
        λ _.
          if_cases (HoldsVm vm.holdings) {b = not v.0} (λ _. ev)
            λ _.
              subst (λ h. HoldsVm h (decode_utf8_path java flac loading fuel created q consumer u))
                eu (decode_utf8_path-Holds q consumer u)

  -- The same of a stream.
  pub decode_stream_internal-Holds :
      (container : ℤ) (check_md5 chained : Bool) (input_stream : Option (Option Bool))
      (consumer : Consumer) (vm : Vm W)
      → HoldsVm vm.holdings (
          decode_stream_internal java flac loading fuel created container check_md5 chained
            input_stream consumer vm)
  unfolding decode_stream_internal
  decode_stream_internal-Holds container check_md5 chained input_stream consumer vm =
      let message : String = "Decoder input stream and consumer must not be null." in
      let given = is_some input_stream && is_some consumer in
      let a = check_entry loading container given message vm in
      let ea = check_entry-holdings loading container given message vm in
      let c = fresh_context chained consumer in
      let i =
        prepare_decode_input_stream (is_some input_stream) (class_of input_stream) c.0.source a.1 in
      let ei =
        prepare_decode_input_stream-holdings (is_some input_stream) (class_of input_stream)
          c.0.source a.1
        ∙ ea in
      if_cases (HoldsVm vm.holdings) {b = not a.0} (λ _. ea)
        λ _.
          if_cases (HoldsVm vm.holdings) {b = not c.1} (λ _. ea)
            λ _.
              if_cases (HoldsVm vm.holdings) {b = not i.0} (λ _. ei)
                λ _. last-Holds vm.holdings _ (
                  decode_with_decoder-Holds java flac fuel stream_wording
                    (whole container check_md5 chained) keep_input
                    (init_stream_decoder_for_container flac container false) created
                    (fresh_state (record c.0 { source = i.1 }) i.2) vm.holdings (λ t _ h. h ∙ ei))

  -- The same of a channel, of which the global reference is deleted, too.
  pub decode_channel_internal-Holds :
      (q : Request) (channel : Option (Option (Bool × Bool × Bool × Bool))) (consumer : Consumer)
      (vm : Vm W)
      → HoldsVm vm.holdings
          (decode_channel_internal java flac loading fuel created q channel consumer vm)
  unfolding decode_channel_internal
  decode_channel_internal-Holds q channel consumer vm =
      let message : String = "Decoder seekable channel and consumer must not be null." in
      let given = is_some channel && is_some consumer in
      let a = check_entry loading q.container given message vm in
      let ea = check_entry-holdings loading q.container given message vm in
      let v = validate_range_request q a.1 in
      let ev = validate_range_request-holdings q a.1 ∙ ea in
      let c = fresh_context q.decode_chained_ogg consumer in
      let no_channel = fresh_context-channel q.decode_chained_ogg consumer in
      let i =
        prepare_decode_seekable_channel java (is_some channel) (class_of channel) c.0.source v.1 in
      let p =
        prepare_decode_seekable_channel-IsPrepared java (is_some channel) (class_of channel)
          c.0.source v.1 no_channel in
      if_cases (HoldsVm vm.holdings) {b = not a.0} (λ _. ea)
        λ _.
          if_cases (HoldsVm vm.holdings) {b = not v.0} (λ _. ev)
            λ _.
              if_cases (HoldsVm vm.holdings) {b = not c.1}
                (λ _.
                  ap (λ t. t.vm.holdings) (clear_channel-nothing (fresh_state c.0 v.1) no_channel)
                  ∙ ev)
                λ _.
                  if_cases (HoldsVm vm.holdings) {b = not i.0}
                    (λ refused.
                      ap (λ t. t.vm.holdings)
                        (clear_channel-nothing (fresh_state (record c.0 { source = i.1 }) i.2)
                          (p.channel ∙ ground (arith, refused)))
                      ∙ p.refused (ground (arith, refused))
                      ∙ ev)
                    (λ opened. last-Holds vm.holdings _ (
                      decode_with_decoder-Holds java flac fuel channel_wording q clear_channel
                        (init_stream_decoder_for_container flac q.container true) created
                        (fresh_state (with_range q (record c.0 { source = i.1 })) i.2) vm.holdings
                        (λ t source held.
                          clear_channel-holdings t (
                            ap (λ x. x.seekable_channel) source
                            ∙ p.channel
                            ∙ ground (arith, opened))
                          ∙ ap {A = Holdings} (λ h. record h { global_refs = h.global_refs - 1 })
                              (held ∙ p.taken (ground (arith, opened)))
                          ∙ without_reference v.1.holdings
                          ∙ ev)))
