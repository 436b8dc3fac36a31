-- ===== src/Decode/Range/Request.antt =====
-- native/src/jflac_jni.c: which decode requests are accepted, and what a refusal leaves pending.
use java_kotlin_flac.Prelude.{
  ℕ, Bool, true, false, ◌+◌, ◌-◌, ◌≤◌, ◌≡◌, ◌↔◌, refl, arith, llong_max, if_cases, not, ◌||◌, ◌&&◌,
  leb, ◌==◌,
}
use java_kotlin_flac.Prelude.Int.{ℤ, pos, negsuc, ltb_ℤ, ◌-ℤ◌}
use java_kotlin_flac.Jni.{Vm, exception_check}
use java_kotlin_flac.Decode.Context.{Stream, Range}
use java_kotlin_flac.Decode.Range.{validate_decode_request, validate_physical_eof_sample_count}

module _ {W : Type 0} where
  -- A request for a range is accepted exactly where its first sample and its length are not negative
  -- and its end does not exceed the largest `jlong`.
  pub validate_decode_request_iff :
      (first max : ℤ) (vm : Vm W)
      → ((validate_decode_request first true max vm).0 ≡ true)
        ↔ ((a : ℕ) × (b : ℕ) × (first ≡ pos a) × (max ≡ pos b) × (a + b ≤ llong_max))
  unfolding validate_decode_request
  validate_decode_request_iff (pos a) (pos b) vm =
      ((λ h. (a, b, refl, refl, ground arith)), λ (x, y, e, f, le). ground arith)
  validate_decode_request_iff (pos a) (negsuc b) vm =
      ((λ h. absurd (ground arith)), λ (x, y, e, f, le). absurd (ground arith))
  validate_decode_request_iff (negsuc a) b vm =
      ((λ h. absurd (ground arith)), λ (x, y, e, f, le). absurd (ground arith))

  -- A request is refused only with an exception.
  pub validate_decode_request_refuses :
      (first max : ℤ) (vm : Vm W)
      → (validate_decode_request first true max vm).0 ≡ false
      → exception_check (validate_decode_request first true max vm).1 ≡ true
  unfolding validate_decode_request
  validate_decode_request_refuses first max vm =
      let P = λ (c : Bool × Vm W). c.0 ≡ false → exception_check c.1 ≡ true in
      if_cases P {b = ltb_ℤ first (pos 0)} (λ _ _. refl)
        λ _.
          if_cases P {b = true && ltb_ℤ max (pos 0)} (λ _ _. refl)
            λ _.
              if_cases P {b = true && ltb_ℤ (pos llong_max -ℤ first) max} {y = (true, vm)}
                (λ _ _. refl) (λ _ e. cc)

  -- The check at the end of the stream refuses only with an exception.
  pub validate_physical_eof_sample_count_throws :
      (s : Stream) (r : Range) (vm : Vm W)
      → (validate_physical_eof_sample_count s r vm).0 ≡ false
      → exception_check (validate_physical_eof_sample_count s r vm).1 ≡ true
  unfolding validate_physical_eof_sample_count
  validate_physical_eof_sample_count_throws s r vm =
      let P = λ (c : Bool × Vm W). c.0 ≡ false → exception_check c.1 ≡ true in
      if_cases P {b = exception_check vm} (λ pending _. pending)
        (λ quiet.
          if_cases P
            {b = not s.saw_stream_info
              || s.stream_total_samples == 0
              || leb s.stream_total_samples r.first_sample
              || leb (s.stream_total_samples - r.first_sample) r.emitted_frames}
            {x = (true, vm)} (λ fine e. cc) (λ short e. refl))
