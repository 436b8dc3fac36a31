-- ===== src/Decode/Process/Ranges.antt =====
-- native/src/jflac_jni.c: the loop of `process_decode_stream` over a bounded range.
use java_kotlin_flac.Prelude.{
  ℕ, zero, suc, Bool, true, false, Option, some, ◌≡◌, ◌≢◌, refl, arith, ◌<◌, ◌+◌, ◌⊎◌, inl, inr,
  if_cases, not, ◌||◌, ◌==◌, ◌-◌, leb,
}
use java_kotlin_flac.Jni.{Java, exception_check}
use java_kotlin_flac.Flac.{Flac, end_of_stream, aborted}
use java_kotlin_flac.Decode.Range.{validate_physical_eof_sample_count}
use java_kotlin_flac.Decode.Write.{State}
use java_kotlin_flac.Decode.Write.Crop.{frames_heard}
use java_kotlin_flac.Decode.Callbacks.{run}
use java_kotlin_flac.Decode.Callbacks.Bounded.{IsWord, IsBounded, Told, untouched, run-IsBounded}
use java_kotlin_flac.Decode.Read.Continuity.{Progress, run-Finishes, state_cases}
use java_kotlin_flac.Decode.Process.{process_range, check_eof}

-- The end of a bounded decode: no frame beyond the range was given to the consumer, and a success
-- without an exception means that the whole range was given to it or that the stream has ended.
pub record RangeEnded {W D : Type 0} (flac : Flac D) (base limit : ℕ) (r : Bool × D × State W)
    : Type 0 where
  pub bounded : IsBounded base limit r.2
  pub whole :
      r.0 ≡ true
      → exception_check r.2.vm ≡ false
      → (frames_heard r.2.vm.heard ≡ base + limit) ⊎ (flac.get_state r.1 ≡ end_of_stream)

check_eof-Told : {W : Type 0} (s : State W) → Told s.vm (check_eof s).1
unfolding validate_physical_eof_sample_count
check_eof-Told s =
    if_cases (λ (c : Bool × _). Told s.vm c.1) {b = exception_check s.vm}
      (λ _. record { frames = refl; still = λ h. h })
      λ _.
        if_cases (λ (c : Bool × _). Told s.vm c.1)
          {b = not s.context.stream.saw_stream_info
            || s.context.stream.stream_total_samples == 0
            || leb s.context.stream.stream_total_samples s.context.range.first_sample
            || leb (s.context.stream.stream_total_samples - s.context.range.first_sample)
                s.context.range.emitted_frames}
          (λ _. record { frames = refl; still = λ h. h })
          (λ _. record { frames = refl; still = λ h. cc })

module _ {W D : Type 0} (java : Java W) (flac : Flac D) (base limit : ℕ) (left : D → ℕ)
    (words : (d : D) → IsWord (flac.process_single d)) (progress : Progress flac left) where
  Ends : Option (Bool × D × State W) → Type 0
  Ends o = (r : Bool × D × State W) × (o ≡ some r) × RangeEnded flac base limit r

  failed-Ends : (d : D) (s : State W) → IsBounded base limit s → Ends (some (false, d, s))
  unfolding Ends
  failed-Ends d s b = (_, refl, record { bounded = b; whole = λ e. absurd cc })

  -- With enough fuel a bounded decode ends. It gives the consumer no frame beyond the range; where it
  -- succeeds with no exception, it has given it the whole range, or the stream has ended.
  pub process_range-RangeEnded :
      (fuel : ℕ) (d : D) (s : State W)
      → left d < fuel
      → IsBounded base limit s
      → (r : Bool × D × State W) × (process_range java flac fuel d s ≡ some r)
        × RangeEnded flac base limit r
  unfolding process_range Ends
  process_range-RangeEnded zero d s enough b = elim enough [ ]
  process_range-RangeEnded (suc fuel) d s enough b =
      let step = run java (flac.process_single d) s in
      let b₁ = run-IsBounded java base limit (flac.process_single d) s (words d) b in
      if_cases Ends {b = s.context.range.range_complete}
        (λ full. (
          _,
          refl,
          record {
            bounded = b;
            whole = λ _ quiet.
                inl (
                  omega (arith, b.metered.heard_eq quiet, b.metered.full full, b.metered.limit_eq));
          },
        ))
        λ _.
          if_cases Ends {b = exception_check s.vm} (λ _. failed-Ends d s b)
            λ _.
              if_cases Ends
                {b = not step.0 || step.2.context.saw_error || exception_check step.2.vm}
                (λ _. failed-Ends step.1 step.2 b₁)
                λ fine.
                  state_cases Ends (flac.get_state step.1)
                    (λ ended. (
                      _,
                      refl,
                      record {
                        bounded = untouched java step.2 _ b₁ refl refl (check_eof-Told step.2);
                        whole = λ _ _. inr ended;
                      },
                    ))
                    (λ _. failed-Ends step.1 step.2 b₁)
                    (λ ok ok'.
                      process_range-RangeEnded fuel step.1 step.2
                        (still_left fuel step.0 step.1 (fine_success step.0 _ _ fine) ok ok'
                          (run-Finishes java _ (flac.process_single d) s (progress.advances d))
                          enough)
                        b₁)
    where
      fine_success : (a b c : Bool) → (not a || b || c) ≡ false → a ≡ true
      fine_success a b c h = ground arith

      still_left :
          (k : ℕ) (success : Bool) (d' : D)
          → success ≡ true
          → flac.get_state d' ≢ end_of_stream
          → flac.get_state d' ≢ aborted
          → (left d' < left d)
            ⊎ (success ≡ false)
            ⊎ (flac.get_state d' ≡ end_of_stream)
            ⊎ (flac.get_state d' ≡ aborted)
          → left d < suc k
          → left d' < k
      still_left k success d' e ok ok' (inl less) h = omega arith
      still_left k success d' e ok ok' (inr (inl failed)) h = cc
      still_left k success d' e ok ok' (inr (inr (inl ended))) h = absurd (ok ended)
      still_left k success d' e ok ok' (inr (inr (inr bad))) h = absurd (ok' bad)
