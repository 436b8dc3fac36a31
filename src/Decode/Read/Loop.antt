-- ===== src/Decode/Read/Loop.antt =====
-- native/src/jflac_jni.c: the loop of a pull read on fuel, whatever channel counts libFLAC hands over.
use java_kotlin_flac.Prelude.{
  if_true, if_false, Bool-cases, ℕ, zero, suc, Bool, true, false, Option, some, ◌<◌, ◌≡◌, ◌≢◌, refl,
  arith, ◌∙◌, ◌⊎◌, inl, inr, if_cases, not, ◌||◌, ltb,
}
use java_kotlin_flac.Prelude.Int.{pos}
use java_kotlin_flac.Jni.{Java, Vm, exception_check}
use java_kotlin_flac.Flac.{Flac, end_of_stream, aborted}
use java_kotlin_flac.Decode.Write.{State}
use java_kotlin_flac.Decode.Callbacks.{run}
use java_kotlin_flac.Decode.Callbacks.Pulls.{IsMixed, Pulled, Pulled-trans, run-Pulled}
use java_kotlin_flac.Decode.Range.Request.{validate_physical_eof_sample_count_throws}
use java_kotlin_flac.Decode.Process.{check_eof}
use java_kotlin_flac.Decode.Read.{PullResult, pull_loop, end_pull, give_back}
use java_kotlin_flac.Decode.Read.Continuity.{
  run-Finishes, Progress, Continued, give_back-Continued, read_result-Continued, ended-Continued,
  state_cases, not_failed,
}

-- The loop of a read makes no further call: the request is met, or the stream has ended.
abbrev stops : {W : Type 0} → State W → Bool
stops t =
    not (ltb t.context.pull.pull_written_frames t.context.pull.pull_requested_frames)
    || t.context.pull.pull_end_of_stream

-- After a call the loop goes on: no exception, no failure and no final state.
pub record GoesOn {W D : Type 0} (flac : Flac D) (r : Bool × D × State W) : Type 0 where
  pub quiet : exception_check r.2.vm ≡ false
  pub fine : (not r.0 || r.2.context.saw_error) ≡ false
  pub not_ended : flac.get_state r.1 ≢ end_of_stream
  pub not_aborted : flac.get_state r.1 ≢ aborted

-- In the loop of a read, from the decoder `d` and the state `t` on, libFLAC hands over a block of another
-- channel count than `n`: in the next call, or in one that the loop makes after it.
pub data MixedRead {W D : Type 0} (java : Java W) (flac : Flac D) (n : ℕ)
    : D → State W → Type 0 where
  now :
      {d : D} {t : State W}
      → stops t ≡ false
      → IsMixed java n (flac.process_single d) t
      → MixedRead java flac n d t
  later :
      {d : D} {t : State W}
      → stops t ≡ false
      → GoesOn flac (run java (flac.process_single d) t)
      → MixedRead java flac n
          (run java (flac.process_single d) t).1
          (run java (flac.process_single d) t).2
      → MixedRead java flac n d t

module _ {W D : Type 0} (java : Java W) (flac : Flac D) (n : ℕ) (left : D → ℕ)
    (progress : Progress flac left) where
  end_pull-Continued :
      (s t : State W) (d : D)
      → s.context.pull.pull_channels ≡ n
      → Pulled s t
      → Continued n s (end_pull java flac d t)
  unfolding end_pull
  end_pull-Continued s t d same p =
      if_cases (Continued n s) {b = (check_eof t).0}
        (λ counted. ended-Continued t _ _ d d _ true whole (λ quiet. ground arith))
        (λ short.
          ended-Continued t _ (pos 0) d d _ t.context.pull.pull_end_of_stream whole (λ quiet. cc (
            validate_physical_eof_sample_count_throws t.context.stream t.context.range t.vm short)))
    where
      whole : Continued n s (give_back (pos t.context.pull.pull_written_frames) d t)
      whole = give_back-Continued (pos t.context.pull.pull_written_frames) d same p (λ quiet. refl)

  -- A failure: the exception is thrown, and the array dropped.
  failed-Continued :
      (s t : State W) (d : D) (vm : Vm W)
      → s.context.pull.pull_channels ≡ n
      → Pulled s t
      → exception_check vm ≡ true
      → Continued n s (give_back (pos 0) d (record t { vm = vm }))
  failed-Continued s t d vm same q raised =
      ended-Continued t _ (pos 0) d d vm t.context.pull.pull_end_of_stream
        (give_back-Continued (pos t.context.pull.pull_written_frames) d same q (λ calm. refl))
        (λ calm. cc)

  Ends : Option (PullResult W D) → Type 0
  Ends o = (r : PullResult W D) × (o ≡ some r)

  still_left :
      {success : Bool} {d' : D} {k m : ℕ}
      → success ≡ true
      → flac.get_state d' ≢ end_of_stream
      → flac.get_state d' ≢ aborted
      → (left d' < m)
        ⊎ (success ≡ false)
        ⊎ (flac.get_state d' ≡ end_of_stream)
        ⊎ (flac.get_state d' ≡ aborted)
      → m < suc k
      → left d' < k
  still_left e ok ok' (inl less) h = omega arith
  still_left e ok ok' (inr (inl failed)) h = cc
  still_left e ok ok' (inr (inr (inl ended))) h = absurd (ok ended)
  still_left e ok ok' (inr (inr (inr bad))) h = absurd (ok' bad)

  -- With enough fuel the loop ends.
  pull_loop-Ends :
      (fuel : ℕ) (d : D) (t : State W) → left d < fuel → Ends (pull_loop java flac fuel d t)
  unfolding pull_loop Ends
  pull_loop-Ends zero d t enough = elim enough [ ]
  pull_loop-Ends (suc fuel) d t enough =
      let step = run java (flac.process_single d) t in
      if_cases Ends {b = stops t} (λ _. (_, refl))
        λ _.
          if_cases Ends {b = exception_check step.2.vm} (λ _. (_, refl))
            λ _.
              if_cases Ends {b = not step.0 || step.2.context.saw_error} (λ _. (_, refl))
                λ fine.
                  state_cases Ends (flac.get_state step.1) (λ _. (_, refl)) (λ _. (_, refl))
                    (λ ok ok'. pull_loop-Ends fuel step.1 step.2 (
                      still_left (not_failed _ _ fine) ok ok'
                        (run-Finishes java _ (flac.process_single d) t (progress.advances d))
                        enough))

  -- The end of the loop from `t`, where what came before goes back to `s`.
  EndsWell : State W → D → State W → Option (PullResult W D) → Type 0
  EndsWell s d t o =
      (r : PullResult W D) × (o ≡ some r) × (MixedRead java flac n d t ⊎ Continued n s r)

  -- With enough fuel the loop ends. Either libFLAC hands over a block of another channel count, or the loop
  -- continues what came before.
  pub pull_loop-Continued :
      (fuel : ℕ) (d : D) (s t : State W)
      → left d < fuel
      → s.context.pull.pull_mode ≡ true
      → s.context.pull.pull_channels ≡ n
      → Pulled s t
      → (r : PullResult W D) × (pull_loop java flac fuel d t ≡ some r)
        × (MixedRead java flac n d t ⊎ Continued n s r)
  unfolding pull_loop Ends EndsWell
  pull_loop-Continued zero d s t enough mode same p = elim enough [ ]
  pull_loop-Continued (suc fuel) d s t enough mode same p =
      let step = run java (flac.process_single d) t in
      elim (Bool-cases (stops t)) [
        | inl done ↦
            if_true (EndsWell s d t) {b = stops t} _ done
              (_, refl, inr (read_result-Continued d same p))
        | inr going ↦
            elim (run-Pulled java n (flac.process_single d) t (p.same_request.same_mode ∙ mode)
              (p.same_request.same_channels ∙ same) p.reading) [
                | inl mixed ↦
                    let (r, e) = pull_loop-Ends (suc fuel) d t enough in
                    (r, e, inl (now going mixed))
                | inr pulled ↦
                    let q = Pulled-trans p pulled in
                    if_false (EndsWell s d t) {b = stops t} _ going (
                      if_cases (EndsWell s d t) {b = exception_check step.2.vm}
                        (λ pending.
                          (_, refl, inr (give_back-Continued (pos 0) step.1 same q (λ quiet. cc))))
                        λ quiet.
                          if_cases (EndsWell s d t) {b = not step.0 || step.2.context.saw_error}
                            (λ failed.
                              (_, refl, inr (failed-Continued s step.2 step.1 _ same q refl)))
                            λ fine.
                              state_cases (EndsWell s d t) (flac.get_state step.1)
                                (λ ended.
                                  (_, refl, inr (end_pull-Continued s step.2 step.1 same q)))
                                (λ bad.
                                  (_, refl, inr (failed-Continued s step.2 step.1 _ same q refl)))
                                (λ ok ok'.
                                  later_on going
                                    (record {
                                      quiet = quiet;
                                      fine = fine;
                                      not_ended = ok;
                                      not_aborted = ok';
                                    })
                                    (pull_loop-Continued fuel step.1 s step.2
                                      (still_left (not_failed _ _ fine) ok ok'
                                        (run-Finishes java _ (flac.process_single d) t
                                          (progress.advances d))
                                        enough)
                                      mode same q)))
              ]
      ]
    where
      later_on :
          {o : Option (PullResult W D)}
          → stops t ≡ false
          → GoesOn flac (run java (flac.process_single d) t)
          → EndsWell s
              (run java (flac.process_single d) t).1
              (run java (flac.process_single d) t).2
              o
          → EndsWell s d t o
      later_on going on (r, e, inl m) = (r, e, inl (later going on m))
      later_on going on (r, e, inr c) = (r, e, inr c)
