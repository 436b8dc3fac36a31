-- ===== src/Decode/OneShot/Steps.antt =====
-- native/src/jflac_jni.c: the steps of a one-shot decode with an initialised decoder, and what the
-- bridge holds.
use java_kotlin_flac.Prelude.{ℕ, Bool, Option, none, some, ◌≡◌, refl, ap, ◌||◌, ◌&&◌, not, if_cases}
use java_kotlin_flac.Prelude.Int.{ℤ, pos, eqb_ℤ, to_u64}
use java_kotlin_flac.Jni.{Java, Holdings, exception_check, complete, throw_decode_exception}
use java_kotlin_flac.Flac.{Flac}
use java_kotlin_flac.Decode.Balance.{raised-IsBalanced}
use java_kotlin_flac.Decode.Source.Machine.{call-IsQuieter}
use java_kotlin_flac.Decode.Range.{
  decode_range_starts_after_stream, decode_range_starts_at_stream_end,
}
use java_kotlin_flac.Decode.Write.{State}
use java_kotlin_flac.Decode.Callbacks.{run}
use java_kotlin_flac.Decode.Callbacks.Balance.{
  IsKept, IsKept-refl, IsKept-trans, machine-IsKept, run-IsKept,
}
use java_kotlin_flac.Decode.Process.{process_decode_stream}
use java_kotlin_flac.Decode.Process.Balance.{IsKeptWhere, process_decode_stream-IsKept}
use java_kotlin_flac.Decode.Session.{complete_call, throw_range_after_stream_exception}
use java_kotlin_flac.Decode.OneShot.{
  Wording, Request, conclude_one_shot, finish_one_shot, seek_first, after_seek, cleaned_up,
  process_one_shot, seek_one_shot, range_one_shot, decode_one_shot, throw_if, report,
  finish_decoder,
}
use java_kotlin_flac.Decode.OneShot.Conclusion.{conclude_one_shot-IsConcluded}

-- A decode that has returned holds `held`.
abbrev pub Holds : {W : Type 0} → Holdings → Option (State W) → Type 0
Holds held none = Unit {0}
Holds held (some t) = t.vm.holdings ≡ held

abbrev pub IsKeptBy : {W : Type 0} → State W → Option (State W) → Type 0
IsKeptBy s none = Unit {0}
IsKeptBy s (some t) = IsKept s t

module _ {W D : Type 0} (java : Java W) (flac : Flac D) where
  -- A message is thrown, or not.
  report-IsKept :
      (bad : Bool) (operation : _) (d : D) (s : State W)
      → IsKept s (throw_if java flac bad (report java flac operation d s) s)
  unfolding throw_decode_exception
  report-IsKept bad operation d s =
      if_cases (IsKept s) {b = not (exception_check s.vm) && bad}
        (λ _. machine-IsKept s _ (raised-IsBalanced _ refl refl)) (λ _. IsKept-refl s)

  told-IsKept :
      (ok : Bool) (s : State W) → IsKept s (throw_if java flac ok (complete_call java flac s) s)
  told-IsKept ok s =
      let q = call-IsQuieter tt (java.consume complete) s.vm in
      if_cases (IsKept s) {b = not (exception_check s.vm) && ok}
        (λ _. machine-IsKept s _ (record { same_holdings = q.same_holdings; still = q.still }))
        (λ _. IsKept-refl s)

  conclude-IsKept :
      (words : Wording) (check_md5 success finish_success : Bool) (state : _) (s : State W)
      → IsKept s (conclude_one_shot java flac words check_md5 success finish_success state s)
  conclude-IsKept words check_md5 success finish_success state s =
      let c =
        conclude_one_shot-IsConcluded java flac words state check_md5 success finish_success s in
      record {
        balanced = c.balanced;
        same_source = ap (λ x. x.source) c.same_context;
        same_chained = ap (λ x. x.stream.decode_chained_ogg) c.same_context;
        same_limited = ap (λ x. x.range.range_limited) c.same_context;
        same_mode = ap (λ x. x.pull.pull_mode) c.same_context;
      }

  process_one_shot-IsKept :
      (fuel : ℕ) (words : Wording) (check_md5 : Bool) (d : D) (s : State W)
      → IsKeptBy s (process_one_shot java flac fuel words check_md5 d s)
  unfolding process_one_shot finish_one_shot
  process_one_shot-IsKept fuel words check_md5 d s =
      finished (process_decode_stream java flac fuel d s)
        (process_decode_stream-IsKept java flac fuel d s)
    where
      finished :
          (o : Option (Bool × D × State W))
          → IsKeptWhere s o
          → IsKeptBy s (finish_one_shot java flac words check_md5 o)
      finished none k = tt
      finished (some (success, d₁, s₁)) k =
          IsKept-trans k
            (IsKept-trans (run-IsKept java (flac.finish d₁) s₁) (conclude-IsKept words _ _ _ _ _))

module _ {W D : Type 0} (java : Java W) (flac : Flac D) (fuel : ℕ) (words : Wording)
    (check_md5 : Bool) (first_sample : ℤ) (clean_up : State W → State W) (start : State W)
    (held : Holdings)
    (cleans : (t : State W) → IsKept start t → (clean_up t).vm.holdings ≡ held) where
  cleaned-Holds :
      (o : Option (State W)) (s : State W)
      → IsKept start s
      → IsKeptBy s o
      → Holds held (cleaned_up java flac clean_up o)
  cleaned-Holds none s k h = tt
  cleaned-Holds (some t) s k h = cleans t (IsKept-trans k h)

  finish_decoder-Holds :
      (d : D) (s : State W)
      → IsKept start s
      → Holds held (some (clean_up (finish_decoder java flac d s)))
  finish_decoder-Holds d s k = cleans _ (IsKept-trans k (run-IsKept java (flac.finish d) s))

  seek_first-IsKept : (d : D) (s : State W) → IsKept s (seek_first java flac first_sample d s).2
  unfolding seek_first
  seek_first-IsKept d s =
      if_cases (λ (r : Bool × D × State W). IsKept s r.2) {b = eqb_ℤ first_sample (pos 0)}
        (λ _. IsKept-refl s) (λ _. run-IsKept java (flac.seek_absolute (to_u64 first_sample) d) s)

  after_seek-Holds :
      (r : Bool × D × State W)
      → IsKept start r.2
      → Holds held (after_seek java flac fuel words check_md5 clean_up r)
  unfolding after_seek
  after_seek-Holds (ok, d, s) k =
      let s₂ =
        throw_if java flac (not ok || s.context.saw_error) (report java flac words.seeking d s) s in
      let k₂ =
        IsKept-trans k
          (report-IsKept java flac (not ok || s.context.saw_error) words.seeking d s) in
      if_cases (Holds held) {b = exception_check s₂.vm || not ok || s₂.context.saw_error}
        (λ _. finish_decoder-Holds d s₂ k₂)
        (λ _. cleaned-Holds _ s₂ k₂ (process_one_shot-IsKept java flac fuel words check_md5 d s₂))

  range_one_shot-Holds :
      (d : D) (s : State W)
      → IsKept start s
      → Holds held (range_one_shot java flac fuel words check_md5 first_sample clean_up d s)
  unfolding range_one_shot seek_one_shot throw_range_after_stream_exception
  range_one_shot-Holds d s k =
      let step = run java (flac.process_until_end_of_metadata d) s in
      let bad = not step.0 || step.2.context.saw_error in
      let s₂ =
        throw_if java flac bad (report java flac words.reading_metadata step.1 step.2) step.2 in
      let k₂ = IsKept-trans k (
        IsKept-trans (run-IsKept java (flac.process_until_end_of_metadata d) s)
          (report-IsKept java flac bad words.reading_metadata step.1 step.2)) in
      let last = run java (flac.finish step.1) s₂ in
      let k₃ = IsKept-trans k₂ (run-IsKept java (flac.finish step.1) s₂) in
      if_cases (Holds held) {b = exception_check s₂.vm || not step.0 || s₂.context.saw_error}
        (λ _. finish_decoder-Holds step.1 s₂ k₂)
        λ _.
          if_cases (Holds held)
            {b = decode_range_starts_after_stream s₂.context.stream first_sample}
            (λ _. finish_decoder-Holds step.1 s₂ k₂)
            λ _.
              if_cases (Holds held)
                {b = s₂.context.range.range_complete
                  || decode_range_starts_at_stream_end s₂.context.stream first_sample}
                (λ _. cleans _ (IsKept-trans k₃ (told-IsKept java flac last.0 last.2)))
                (λ _. after_seek-Holds _ (IsKept-trans k₂ (seek_first-IsKept step.1 s₂)))

module _ {W D : Type 0} (java : Java W) (flac : Flac D) where
  -- A decoder that has been initialised is finished and cleaned up however the decode goes.
  pub decode_one_shot-Holds :
      (fuel : ℕ) (words : Wording) (q : Request) (clean_up : State W → State W) (d : D)
      (s : State W) (held : Holdings)
      → ((t : State W) → IsKept s t → (clean_up t).vm.holdings ≡ held)
      → Holds held (decode_one_shot java flac fuel words q clean_up d s)
  unfolding decode_one_shot
  decode_one_shot-Holds fuel words q clean_up d s held cleans =
      if_cases (Holds held) {b = q.seek_before_decode || q.range_limited}
        (λ _.
          range_one_shot-Holds java flac fuel words q.check_md5 q.first_sample clean_up s held
            cleans d s (IsKept-refl s))
        (λ _.
          cleaned-Holds java flac fuel words q.check_md5 q.first_sample clean_up s held cleans _ s
            (IsKept-refl s) (process_one_shot-IsKept java flac fuel words q.check_md5 d s))
