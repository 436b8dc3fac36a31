-- ===== src/Decode/Range.antt =====
-- native/src/jflac_jni.c: the arguments of a decode request, the range that the write callback is
-- held to, and the checks of how many frames were emitted.
pub mod Request
use java_kotlin_flac.Prelude.{
  ℕ, Bool, true, false, ◌-◌, ◌+◌, ◌^◌, ◌==◌, leb, ltb, if◌then◌else◌, ◌&&◌, ◌||◌, not, u64,
  llong_max,
}
use java_kotlin_flac.Prelude.Int.{ℤ, pos, ltb_ℤ, eqb_ℤ, to_u64, ◌-ℤ◌}
use java_kotlin_flac.Jni.{
  Vm, exception_check, throw_decode_exception, throw_illegal_argument_exception, chained_link_ended,
  physical_eof,
}
use java_kotlin_flac.Decode.Context.{Range, Stream}

unfoldable pub configure_decode_range : ℤ → Bool → ℤ → Range
configure_decode_range first_sample range_limited max_frames = record {
  range_limited = range_limited;
  max_frames = if range_limited then to_u64 max_frames else 0;
  first_sample = to_u64 first_sample;
  emitted_frames = 0;
  range_complete = range_limited && eqb_ℤ max_frames (pos 0);
}

module _ {W : Type 0} where
  unfoldable pub validate_decode_request : ℤ → Bool → ℤ → Vm W → Bool × Vm W
  unfolding throw_illegal_argument_exception
  validate_decode_request first_sample range_limited max_frames vm =
      if ltb_ℤ first_sample (pos 0)
      then (false, throw_illegal_argument_exception "First sample must be non-negative." vm)
      else if range_limited && ltb_ℤ max_frames (pos 0)
      then (false, throw_illegal_argument_exception "Max frames must be non-negative." vm)
      else if range_limited && ltb_ℤ (pos llong_max -ℤ first_sample) max_frames
      then (false, throw_illegal_argument_exception "Decode range end must not overflow Long." vm)
      else (true, vm)

unfoldable pub decode_range_starts_after_stream : Stream → ℤ → Bool
decode_range_starts_after_stream s first_sample =
    s.saw_stream_info
    && ltb 0 s.stream_total_samples
    && ltb s.stream_total_samples (to_u64 first_sample)

unfoldable pub decode_range_starts_at_stream_end : Stream → ℤ → Bool
decode_range_starts_at_stream_end s first_sample =
    s.saw_stream_info
    && ltb 0 s.stream_total_samples
    && (to_u64 first_sample == s.stream_total_samples)

module _ {W : Type 0} where
  unfoldable pub validate_chained_link_sample_count : Stream → Range → Vm W → Bool × Vm W
  unfolding throw_decode_exception
  validate_chained_link_sample_count s r vm =
      if s.current_link_total_samples == 0
      then (true, vm)
      else (let emitted_for_link =
            u64 (r.emitted_frames + 2 ^ 64 - s.current_link_start_emitted_frames) in
          if emitted_for_link == s.current_link_total_samples then (true, vm) else (
            false,
            throw_decode_exception
                (chained_link_ended emitted_for_link s.current_link_total_samples) vm,
          ))

  unfoldable pub validate_physical_eof_sample_count : Stream → Range → Vm W → Bool × Vm W
  unfolding throw_decode_exception
  validate_physical_eof_sample_count s r vm =
      if exception_check vm
      then (false, vm)
      else if not s.saw_stream_info
          || s.stream_total_samples == 0
          || leb s.stream_total_samples r.first_sample
          || leb (s.stream_total_samples - r.first_sample) r.emitted_frames
      then (true, vm)
      else (
        false,
        throw_decode_exception (physical_eof r.emitted_frames r.first_sample s.stream_total_samples)
            vm,
      )
