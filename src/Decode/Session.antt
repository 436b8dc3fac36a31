-- ===== src/Decode/Session.antt =====
-- native/src/jflac_jni.c: the operations on an open decoder session, between the moment at which
-- the session has been acquired and the one at which it is released. Sessions.antt has the registry.
pub mod Outcomes
use java_kotlin_flac.Prelude.{
  ℕ, Bool, true, false, Option, none, some, if◌then◌else◌, ◌||◌, ◌&&◌, not, String,
}
use java_kotlin_flac.Prelude.Int.{ℤ, pos, ltb_ℤ, to_u64}
use java_kotlin_flac.Jni.{
  Vm, Java, complete, text, decoder_failed, exception_check, throw_decode_exception,
  throw_illegal_argument_exception, throw_illegal_state_exception,
}
use java_kotlin_flac.Flac.{Flac}
use java_kotlin_flac.Decode.Context.{DecodeContext, ConsumerMethods, prepare_decode_context}
use java_kotlin_flac.Decode.Range.{
  configure_decode_range, validate_decode_request, decode_range_starts_after_stream,
  decode_range_starts_at_stream_end,
}
use java_kotlin_flac.Decode.Write.{State, consumer_call}
use java_kotlin_flac.Decode.Callbacks.{run, decoder_error_status_name}
use java_kotlin_flac.Decode.Process.{process_decode_stream}

-- The name of the first error status, where the error callback was called.
abbrev pub error_name : DecodeContext → Option String
error_name c =
    if c.saw_error
    then (elim c.first_error_status [ none ↦ none | some e ↦ some (decoder_error_status_name e) ])
    else none

module _ {W : Type 0} where
  unfoldable pub throw_range_after_stream_exception : Vm W → Vm W
  unfolding throw_decode_exception
  throw_range_after_stream_exception vm =
      throw_decode_exception
        (text "Requested decode range starts after the end of the FLAC stream.") vm

  -- `session->context.consumer = NULL`
  abbrev pub forget_consumer : State W → State W
  forget_consumer s = record s { context = record s.context { consumer = false } }

  -- `env` and `consumer` have been passed; a failed lookup leaves its exception pending.
  abbrev with_context : State W → DecodeContext → State W
  with_context s c = record s { context = c }

module _ {W D : Type 0} (java : Java W) (flac : Flac D) where
  abbrev pub fail_decode : String → D → State W → State W
  fail_decode operation d s =
      let message =
        decoder_failed operation (flac.get_resolved_state_string d) (error_name s.context) in
      record (forget_consumer s) { vm = throw_decode_exception message s.vm }

  abbrev pub complete_call : State W → State W
  complete_call s = record s { vm = consumer_call complete java s.vm }

  -- After `process_decode_stream`: the failure is reported, or the consumer is told of the end.
  unfoldable pub conclude_decode : Bool → D → State W → D × State W
  unfolding throw_decode_exception
  conclude_decode failed d s =
      if not (exception_check s.vm) && failed
      then (d, fail_decode "FLAC decoder session failed" d s)
      else if not (exception_check s.vm)
      then (d, forget_consumer (complete_call s))
      else (d, forget_consumer s)

  -- After the seek: the session is decoded, and `failed` says which results are failures.
  seek_and_process : ℕ → (Bool → DecodeContext → Bool) → ℤ → D → State W → Option (D × State W)
  unfolding conclude_decode throw_decode_exception
  seek_and_process fuel failed first_sample d s =
      let (seek_success, d₁, s₁) = run java (flac.seek_absolute (to_u64 first_sample) d) s in
      if not (exception_check s₁.vm) && (not seek_success || s₁.context.saw_error)
      then some (d₁, fail_decode "FLAC decoder session failed while seeking" d₁ s₁)
      else elim (process_decode_stream java flac fuel d₁ s₁) [
        | none ↦ none
        | some (success, d₂, s₂) ↦ some (conclude_decode (failed success s₂.context) d₂ s₂)
      ]

  -- `decodeDecoderFrom` once the session is acquired; `none` as consumer is a NULL reference, `some`
  -- of an option what the lookups in its class find.
  unfoldable pub decode_decoder_from :
      ℕ → ℤ → Option (Option ConsumerMethods) → D → State W → Option (D × State W)
  unfolding seek_and_process prepare_decode_context throw_illegal_argument_exception
      throw_illegal_state_exception
  decode_decoder_from fuel first_sample consumer d s =
      if s.context.pull.pull_mode
      then some (
        d,
        record s {
          vm =
              throw_illegal_state_exception
                "A pull decoder handle cannot be used for callback-driven decoding." s.vm;
        },
      )
      else if ltb_ℤ first_sample (pos 0)
      then some (
        d,
        record s {
          vm = throw_illegal_argument_exception "First sample must be non-negative." s.vm;
        },
      )
      else elim consumer [
        | none ↦ some (
          d,
          record s {
            vm = throw_illegal_argument_exception "Decoder consumer must not be null." s.vm;
          },
        )
        | some class ↦
            let (c, prepared) = prepare_decode_context class s.context in
            if not prepared
            then some (d, with_context s c)
            else seek_and_process fuel (λ success c'. not success || c'.saw_error) first_sample d
                (with_context s (record c {
                  stream = record c.stream { suppress_metadata = true };
                  range = record c.range { first_sample = to_u64 first_sample };
                }))
      ]

  -- A prepared range: it is past the end, empty, or decoded.
  decode_prepared_range : ℕ → ℤ → D → State W → Option (D × State W)
  unfolding seek_and_process throw_range_after_stream_exception decode_range_starts_after_stream
      decode_range_starts_at_stream_end
  decode_prepared_range fuel first_sample d s =
      if decode_range_starts_after_stream s.context.stream first_sample
      then some (d, record (forget_consumer s) { vm = throw_range_after_stream_exception s.vm })
      else if s.context.range.range_complete
          || decode_range_starts_at_stream_end s.context.stream first_sample
      then some
          (d, if exception_check s.vm then forget_consumer s else forget_consumer (complete_call s))
      else seek_and_process fuel (λ success c. not success) first_sample d s

  unfoldable pub decode_decoder_range :
      ℕ → ℤ → ℤ → Option (Option ConsumerMethods) → D → State W → Option (D × State W)
  unfolding decode_prepared_range prepare_decode_context configure_decode_range
      validate_decode_request throw_illegal_argument_exception throw_illegal_state_exception
  decode_decoder_range fuel first_sample max_frames consumer d s =
      if s.context.pull.pull_mode
      then some (
        d,
        record s {
          vm =
              throw_illegal_state_exception
                "A pull decoder handle cannot be used for callback-driven decoding." s.vm;
        },
      )
      else (let (valid, vm') = validate_decode_request first_sample true max_frames s.vm in
          if not valid then some (d, record s { vm = vm' }) else elim consumer [
            | none ↦ some (
              d,
              record s {
                vm = throw_illegal_argument_exception "Decoder consumer must not be null." s.vm;
              },
            )
            | some class ↦
                let (c, prepared) = prepare_decode_context class s.context in
                if not prepared
                then some (d, with_context s c)
                else decode_prepared_range fuel first_sample d (
                    with_context s (record c {
                      stream = record c.stream { suppress_metadata = true };
                      range = configure_decode_range first_sample true max_frames;
                    }))
          ])
