-- ===== src/Decode/OneShot.antt =====
-- native/src/jflac_jni.c: the one-shot decodes, which create a decoder, decode and delete it. This file
-- has the parts that the file, the stream and the channel decode share.
pub mod Inputs
pub mod Bindings
pub mod Conclusion
pub mod Steps
pub mod Balance
pub mod Guide
pub mod Reports
pub mod Guides
pub mod Outcomes
use java_kotlin_flac.Prelude.{
  ℕ, Bool, true, false, Option, none, some, String, if◌then◌else◌, ◌||◌, ◌&&◌, not, replicate,
  is_some,
}
use java_kotlin_flac.Prelude.Int.{ℤ, pos, eqb_ℤ, to_u64}
use java_kotlin_flac.Jni.{
  Vm, Java, text, decoder_failed, exception_check, throw_decode_exception,
  throw_illegal_argument_exception,
}
use java_kotlin_flac.Flac.{Flac, Process}
use java_kotlin_flac.Decode.Range.{
  validate_decode_request, decode_range_starts_after_stream, decode_range_starts_at_stream_end,
}
use java_kotlin_flac.Decode.Write.{State}
use java_kotlin_flac.Decode.Callbacks.{run}
use java_kotlin_flac.Decode.Process.{process_decode_stream}
use java_kotlin_flac.Decode.Coder.{count_decoder, delete_decoder, configure_decoder}
use java_kotlin_flac.Decode.Session.{error_name, complete_call, throw_range_after_stream_exception}

-- The messages in which the three decodes differ.
pub record Wording : Type 0 where
  pub failed : String
  pub reading_metadata : String
  pub seeking : String
  pub finishing : String
  pub allocating : String
  pub initializing : String

-- The arguments of a decode besides its input and its consumer.
pub record Request : Type 0 where
  pub container : ℤ
  pub check_md5 : Bool
  pub decode_chained_ogg : Bool
  pub first_sample : ℤ
  pub max_frames : ℤ
  pub seek_before_decode : Bool
  pub range_limited : Bool

module _ {W : Type 0} where
  unfoldable pub validate_range_request : Request → Vm W → Bool × Vm W
  unfolding validate_decode_request throw_illegal_argument_exception
  validate_range_request q vm =
      let seeks = q.seek_before_decode || q.range_limited in
      let (valid, vm₁) =
        if seeks
        then validate_decode_request q.first_sample q.range_limited q.max_frames vm
        else (true, vm) in
      if not valid
      then (false, vm₁)
      else if q.decode_chained_ogg && seeks
      then (
        false,
        throw_illegal_argument_exception
            "Chained Ogg decoding is only available for whole-stream decode." vm₁,
      )
      else (true, vm₁)

-- The state's text for a message, where an empty one counts as none.
unfoldable pub copy_resolved_decoder_state : Option String → Option String
copy_resolved_decoder_state none = none
copy_resolved_decoder_state (some String.[]) = none
copy_resolved_decoder_state (some (String.◌∷◌ c state)) = some (String.◌∷◌ c state)

module _ {W D : Type 0} (java : Java W) (flac : Flac D) where
  -- `throw_decode_exception` with the decoder's state and the first error.
  abbrev report : String → D → State W → State W
  report operation d s =
      let message =
        decoder_failed operation (flac.get_resolved_state_string d) (error_name s.context) in
      record s { vm = throw_decode_exception message s.vm }

  -- `stream_decoder_finish`, whose result is not looked at.
  abbrev finish_decoder : D → State W → State W
  finish_decoder d s = (run java (flac.finish d) s).2

  -- A state of the machine in which an exception is set, unless one is pending or `bad` does not hold.
  abbrev throw_if : Bool → State W → State W → State W
  throw_if bad thrown s = if not (exception_check s.vm) && bad then thrown else s

  abbrev with_message : String → Option String → Option String → State W → State W
  with_message operation state error s = record s {
    vm = throw_decode_exception (decoder_failed operation state error) s.vm;
  }

  -- What is reported once the decoder is finished: `success` is the result of the decode,
  -- `finish_success` that of `stream_decoder_finish`.
  unfoldable pub conclude_one_shot :
      Wording → Bool → Bool → Bool → Option String → State W → State W
  unfolding throw_decode_exception
  conclude_one_shot words check_md5 success finish_success state s =
      let s₁ =
        throw_if (s.context.stream.chained_link_md5_failed && check_md5)
          (record s {
            vm =
                throw_decode_exception
                  (text
                    "FLAC MD5 verification failed in a non-final chained Ogg link: decoded PCM does not match the STREAMINFO signature.")
                  s.vm;
          })
          s in
      let s₂ =
        throw_if (not success) (with_message words.failed state (error_name s₁.context) s₁) s₁ in
      let s₃ =
        throw_if (success && not finish_success && check_md5)
          (record s₂ {
            vm =
                throw_decode_exception
                  (text
                    "FLAC MD5 verification failed: decoded PCM does not match the STREAMINFO signature.")
                  s₂.vm;
          })
          s₂ in
      let s₄ =
        throw_if (success && not finish_success) (with_message words.finishing state none s₃) s₃ in
      throw_if (success && finish_success) (complete_call java flac s₄) s₄

  -- The decoder is finished, and the decode concluded; the state is copied before that.
  finish_one_shot : Wording → Bool → Option (Bool × D × State W) → Option (State W)
  unfolding conclude_one_shot copy_resolved_decoder_state
  finish_one_shot words check_md5 none = none
  finish_one_shot words check_md5 (some (success, d, s)) =
      let state = copy_resolved_decoder_state (flac.get_resolved_state_string d) in
      let (finish_success, d₁, s₁) = run java (flac.finish d) s in
      some (conclude_one_shot words check_md5 success finish_success state s₁)

  -- The decode proper, up to the deletion of the decoder.
  unfoldable pub process_one_shot : ℕ → Wording → Bool → D → State W → Option (State W)
  unfolding finish_one_shot
  process_one_shot fuel words check_md5 d s =
      finish_one_shot words check_md5 (process_decode_stream java flac fuel d s)

  -- There is no call where the decode starts at the first sample.
  seek_first : ℤ → D → State W → Bool × D × State W
  seek_first first_sample d s =
      if eqb_ℤ first_sample (pos 0)
      then (true, d, s)
      else run java (flac.seek_absolute (to_u64 first_sample) d) s

  abbrev cleaned_up : (State W → State W) → Option (State W) → Option (State W)
  cleaned_up clean_up none = none
  cleaned_up clean_up (some s) = some (clean_up s)

  -- The decode after the seek. `clean_up` deletes the decoder, and what belongs to the input.
  after_seek : ℕ → Wording → Bool → (State W → State W) → Bool × D × State W → Option (State W)
  unfolding process_one_shot throw_decode_exception
  after_seek fuel words check_md5 clean_up (seek_success, d₁, s₁) =
      let s₂ =
        throw_if (not seek_success || s₁.context.saw_error) (report words.seeking d₁ s₁) s₁ in
      if exception_check s₂.vm || not seek_success || s₂.context.saw_error
      then some (clean_up (finish_decoder d₁ s₂))
      else cleaned_up clean_up (process_one_shot fuel words check_md5 d₁ s₂)

  seek_one_shot : ℕ → Wording → Bool → ℤ → (State W → State W) → D → State W → Option (State W)
  unfolding after_seek seek_first
  seek_one_shot fuel words check_md5 first_sample clean_up d s =
      after_seek fuel words check_md5 clean_up (seek_first first_sample d s)

  -- A decode that starts at a sample: the range is past the end, empty, or decoded.
  range_one_shot : ℕ → Wording → Bool → ℤ → (State W → State W) → D → State W → Option (State W)
  unfolding seek_one_shot throw_decode_exception throw_range_after_stream_exception
      decode_range_starts_after_stream decode_range_starts_at_stream_end
  range_one_shot fuel words check_md5 first_sample clean_up d s =
      let (metadata_success, d₁, s₁) = run java (flac.process_until_end_of_metadata d) s in
      let s₂ =
        throw_if (not metadata_success || s₁.context.saw_error)
          (report words.reading_metadata d₁ s₁) s₁ in
      if exception_check s₂.vm || not metadata_success || s₂.context.saw_error
      then some (clean_up (finish_decoder d₁ s₂))
      else if decode_range_starts_after_stream s₂.context.stream first_sample
      then (let s₃ = clean_up (finish_decoder d₁ s₂) in
          some (record s₃ { vm = throw_range_after_stream_exception s₃.vm }))
      else if s₂.context.range.range_complete
          || decode_range_starts_at_stream_end s₂.context.stream first_sample
      then (let (finish_success, d₃, s₃) = run java (flac.finish d₁) s₂ in
          some (clean_up (throw_if finish_success (complete_call java flac s₃) s₃)))
      else seek_one_shot fuel words check_md5 first_sample clean_up d₁ s₂

  -- What is done with a decoder that has been initialised.
  unfoldable pub decode_one_shot :
      ℕ → Wording → Request → (State W → State W) → D → State W → Option (State W)
  unfolding range_one_shot process_one_shot
  decode_one_shot fuel words q clean_up d s =
      if q.seek_before_decode || q.range_limited
      then range_one_shot fuel words q.check_md5 q.first_sample clean_up d s
      else cleaned_up clean_up (process_one_shot fuel words q.check_md5 d s)

module _ {W : Type 0} where
  -- `stream_decoder_delete`, and what belongs to the input.
  abbrev pub delete_with : (State W → State W) → State W → State W
  delete_with clean_input s = clean_input (record s { vm = delete_decoder s.vm })

  abbrev pub throw_after : String → State W → State W
  throw_after message s = record s { vm = throw_decode_exception (text message) s.vm }

module _ {W D : Type 0} (java : Java W) (flac : Flac D) where
  -- A decode once its context is prepared. `created` is what `stream_decoder_new` gives, `none` for
  -- NULL.
  unfoldable pub decode_with_decoder :
      ℕ
      → Wording
      → Request
      → (State W → State W)
      → (D → Process D)
      → Option D
      → State W
      → Option (State W)
  unfolding decode_one_shot configure_decoder throw_decode_exception
  decode_with_decoder fuel words q clean_input init none s =
      some (throw_after words.allocating (clean_input s))
  decode_with_decoder fuel words q clean_input init (some d) s =
      let (configured, d₁, vm₁) =
        configure_decoder flac q.container q.decode_chained_ogg q.check_md5 d
          (count_decoder s.vm) in
      let s₁ = record s { vm = vm₁ } in
      if not configured
      then some (delete_with clean_input s₁)
      else (let (initialized, d₂, s₂) = run java (init d₁) s₁ in
          if not initialized
          then some (throw_after words.initializing (delete_with clean_input s₂))
          else decode_one_shot java flac fuel words q (delete_with clean_input) d₂ s₂)
