-- ===== src/Decode/OneShot/Inputs/Channels.antt =====
-- native/src/jflac_jni.c: how the one-shot decode of a channel ends, as Java sees it.
use java_kotlin_flac.Prelude.{
  ℕ, true, Option, some, ◌≡◌, refl, ◌∙◌, ap, ◌||◌, not, if_cases, arith, String, sym,
}
use java_kotlin_flac.Jni.{Java, Vm, exception_check}
use java_kotlin_flac.Flac.{Flac}
use java_kotlin_flac.Entry.{Loading, check_entry}
use java_kotlin_flac.Decode.Context.{prepare_decode_context}
use java_kotlin_flac.Decode.Write.{State}
use java_kotlin_flac.Decode.Callbacks.{run}
use java_kotlin_flac.Decode.Read.Continuity.{Finishes}
use java_kotlin_flac.Decode.Coder.{init_stream_decoder_for_container}
use java_kotlin_flac.Decode.Session.Outcomes.{full_consumer}
use java_kotlin_flac.Decode.OneShot.{Request, validate_range_request}
use java_kotlin_flac.Decode.OneShot.Guide.{Guide, IsReported, IsSilent}
use java_kotlin_flac.Decode.OneShot.Reports.Decoder.{decode_with_decoder-Reported}
use java_kotlin_flac.Decode.OneShot.Inputs.{
  decode_channel_internal, fresh_context, fresh_state, channel_wording,
}
use java_kotlin_flac.Decode.Context.Channel.{
  all_methods, prepare_decode_seekable_channel-raises, prepare_decode_seekable_channel-IsPrepared,
}
use java_kotlin_flac.Decode.OneShot.Inputs.{clear_channel}
use java_kotlin_flac.Decode.Context.{
  Source, clear_decode_seekable_channel, prepare_decode_seekable_channel,
}
use java_kotlin_flac.Decode.OneShot.Inputs.Reports.{
  negated_true, negated_false, check_entry-IsChecked, validate_range_request-IsChecked, begun,
  last-Reported, refused-Reported,
}

-- The context of a decode that reads the prepared channel.
abbrev pub begun_with : {W : Type 0} → Source → Request → Vm W → State W
begun_with source q vm =
    let s = begun q vm in record s { context = record s.context { source = source } }

module _ {W D : Type 0} (java : Java W) (flac : Flac D) (loading : Loading) (fuel : ℕ)
    (created : Option D) (guide : Guide java flac fuel) where
  clear_channel-IsSilent : IsSilent {W = W} clear_channel
  unfolding clear_channel clear_decode_seekable_channel
  clear_channel-IsSilent = record {
    same_pending = λ t. ground arith;
    same_heard = λ t. ground arith;
  }

  -- A one-shot decode of a channel whose class has the four methods returns, and not in silence, if the
  -- consumer has the three methods and a global reference can be made.
  pub decode_channel_internal-Reported :
      (q : Request) (vm : Vm W)
      → ((w : W) → (java.new_global_ref w).1 ≡ true)
      → ((d : D) (t : State W)
          → guide.Inv t
          → guide.Inv (run java (init_stream_decoder_for_container flac q.container true d) t).2)
      → ((q.seek_before_decode || q.range_limited) ≡ true
          → (d' : D) → Finishes (λ ok _. ok ≡ true) (flac.finish d'))
      → guide.Fits vm.heard
      → ((source : Source)
          → (validate_range_request q vm).0 ≡ true
          → guide.Inv (begun_with source q vm))
      → IsReported guide.Fits (
          decode_channel_internal java flac loading fuel created q
            (some all_methods)
            full_consumer
            vm)
  unfolding decode_channel_internal prepare_decode_context
  decode_channel_internal-Reported q vm refs init_ok finish_ok fit inv =
      let message : String = "Decoder seekable channel and consumer must not be null." in
      let a = check_entry loading q.container true message vm in
      let ca = check_entry-IsChecked loading q.container true message vm in
      let v = validate_range_request q a.1 in
      let cv = validate_range_request-IsChecked q a.1 in
      let c = fresh_context q.decode_chained_ogg full_consumer in
      let i = prepare_decode_seekable_channel java true all_methods c.0.source v.1 in
      let (raises, heard) = prepare_decode_seekable_channel-raises java c.0.source v.1 refs in
      let p =
        prepare_decode_seekable_channel-IsPrepared java true all_methods c.0.source v.1 refl in
      let silent = clear_channel-IsSilent in
      let unopened = fresh_state (record c.0 { source = i.1 }) i.2 in
      let cleared = clear_channel unopened in
      let P = IsReported guide.Fits in
      if_cases P {b = not a.0}
        (λ e.
          refused-Reported java flac loading fuel created guide vm a.1
            (ca.refuses (negated_true _ e)) ca.same_heard fit)
        λ ready.
          if_cases P {b = not v.0}
            (λ e.
              refused-Reported java flac loading fuel created guide vm v.1
                (cv.refuses (negated_true _ e)) (cv.same_heard ∙ ca.same_heard) fit)
            λ valid.
              let ea = ca.same (negated_false _ ready) in
              let ev = cv.same (negated_false _ valid) ∙ ea in
              let accepted : (validate_range_request q vm).0 ≡ true =
                ap (λ w. (validate_range_request q w).0) (sym ea) ∙ negated_false _ valid in
              let same : i.2.heard ≡ vm.heard = heard ∙ ap (λ w. w.heard) ev in
              if_cases P {b = not i.0}
                (λ e.
                  refused-Reported java flac loading fuel created guide vm cleared.vm
                    (silent.same_pending unopened ∙ raises (negated_true _ e))
                    (silent.same_heard unopened ∙ same) fit)
                (λ _. last-Reported java flac loading fuel created guide _ (
                  decode_with_decoder-Reported java flac fuel guide channel_wording q clear_channel
                    (init_stream_decoder_for_container flac q.container true) created
                    (begun_with i.1 q i.2) init_ok finish_ok silent
                    (guide.machine (begun_with i.1 q vm) i.2 (inv i.1 accepted) same
                      (λ h. ap exception_check (sym ev) ∙ p.still h))))
