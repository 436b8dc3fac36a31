-- ===== src/Decode/OneShot/Reports.antt =====
-- native/src/jflac_jni.c: how a one-shot decode with an initialised decoder ends, as Java sees it.
pub mod Decoder
use java_kotlin_flac.Prelude.{
  ℕ, Bool, true, false, Option, none, some, List, [], ◌∷◌, ◌++◌, ◌≡◌, refl, ◌∙◌, ap, sym, subst,
  ◌||◌, ◌&&◌, not, inl, inr, if_cases, Bool-cases, arith, String,
}
use java_kotlin_flac.Prelude.Int.{ℤ, pos, eqb_ℤ, to_u64}
use java_kotlin_flac.Jni.{
  Java, Vm, Event, complete, exception_check, call, throw_decode_exception,
  throw_illegal_argument_exception,
}
use java_kotlin_flac.Flac.{Flac, Process}
use java_kotlin_flac.Decode.Range.{
  decode_range_starts_after_stream, decode_range_starts_at_stream_end,
}
use java_kotlin_flac.Decode.Source.Machine.{call-IsQuieter}
use java_kotlin_flac.Decode.Write.{State}
use java_kotlin_flac.Decode.Callbacks.{run}
use java_kotlin_flac.Decode.Callbacks.Balance.{run-IsKept}
use java_kotlin_flac.Decode.Process.{process_decode_stream}
use java_kotlin_flac.Decode.Read.Continuity.{Finishes, run-Finishes}
use java_kotlin_flac.Decode.Coder.{
  count_decoder, configure_decoder, configure_decoder_chaining, configure_decoder_md5_checking,
}
use java_kotlin_flac.Decode.Session.{complete_call, throw_range_after_stream_exception}
use java_kotlin_flac.Decode.Session.Outcomes.{IsAnswered}
use java_kotlin_flac.Decode.OneShot.{
  Wording, Request, conclude_one_shot, finish_one_shot, process_one_shot, seek_first, after_seek,
  range_one_shot, seek_one_shot, decode_one_shot, decode_with_decoder, cleaned_up, throw_if, report,
  finish_decoder, delete_with,
}
use java_kotlin_flac.Decode.OneShot.Conclusion.{
  went_well, IsConcluded, conclude_one_shot-IsConcluded,
}
use java_kotlin_flac.Decode.OneShot.Guide.{Guide, IsReported, IsSilent, silent-IsAnswered, stays}

-- The machine that a decode leaves.
abbrev pub vm_of : {W : Type 0} → Option (State W) → Option (Vm W)
vm_of none = none
vm_of (some s) = some s.vm

module _ {W D : Type 0} (java : Java W) (flac : Flac D) (fuel : ℕ)
    (guide : Guide java flac fuel) where
  abbrev Inv : State W → Type 0
  Inv = guide.Inv

  abbrev Reported : Option (State W) → Type 0
  Reported o = IsReported guide.Fits (vm_of o)

  -- A decode whose last state is the cleaned-up `s`.
  pub ended :
      (clean_up : State W → State W) (s : State W)
      → IsSilent clean_up
      → IsAnswered s.vm
      → guide.Fits s.vm.heard
      → Reported (some (clean_up s))
  ended clean_up s silent answer fit = record {
    result = (clean_up s).vm;
    returns = refl;
    answered =
        silent-IsAnswered s.vm (clean_up s).vm (silent.same_pending s) (silent.same_heard s) answer;
    fits = subst guide.Fits (sym (silent.same_heard s)) fit;
  }

  report-Inv :
      (bad : Bool) (operation : String) (d : D) (s : State W)
      → Inv s
      → Inv (throw_if java flac bad (report java flac operation d s) s)
  unfolding throw_decode_exception
  report-Inv bad operation d s inv =
      if_cases Inv {b = not (exception_check s.vm) && bad}
        (λ _. guide.machine s _ inv refl (λ e. cc)) (λ _. inv)

  -- A failure that is looked for again after the report is one with an exception.
  report-raises :
      (ok : Bool) (operation : String) (d : D) (s : State W)
      → let t =
          throw_if java flac (not ok || s.context.saw_error) (report java flac operation d s) s in
        (exception_check t.vm || not ok || t.context.saw_error) ≡ true → exception_check t.vm ≡ true
  unfolding throw_decode_exception
  report-raises ok operation d s =
      if_cases
        (λ (t : State W).
          (exception_check t.vm || not ok || t.context.saw_error) ≡ true
          → exception_check t.vm ≡ true)
        {b = not (exception_check s.vm) && (not ok || s.context.saw_error)} (λ _ _. refl)
        (λ calm bad. ground (arith, calm, bad))

  -- An operation failed with an exception, and the decoder is finished.
  abandoned :
      (clean_up : State W → State W) (d : D) (s : State W)
      → IsSilent clean_up
      → Inv s
      → exception_check s.vm ≡ true
      → Reported (some (clean_up (finish_decoder java flac d s)))
  abandoned clean_up d s silent inv pending =
      ended clean_up (finish_decoder java flac d s) silent
        (inl (stays (run-IsKept java (flac.finish d) s).balanced pending))
        (guide.fits _ (guide.finishes d s inv))

  conclude-answers :
      (well : Bool) (s t : State W)
      → IsConcluded well s t
      → Inv s
      → IsAnswered t.vm × guide.Fits t.vm.heard
  conclude-answers true s t c inv = (
    inr (s.vm.heard, c.told refl),
    subst guide.Fits (sym (c.told refl)) (guide.fits_complete s.vm.heard (guide.fits s inv)),
  )
  conclude-answers false s t c inv =
      (inl (c.raised refl), subst guide.Fits (sym (c.silent refl)) (guide.fits s inv))

  process_one_shot-Reported :
      (words : Wording) (check_md5 : Bool) (clean_up : State W → State W) (d : D) (s : State W)
      → IsSilent clean_up
      → Inv s
      → Reported
          (cleaned_up java flac clean_up (process_one_shot java flac fuel words check_md5 d s))
  unfolding process_one_shot finish_one_shot
  process_one_shot-Reported words check_md5 clean_up d s silent inv =
      let ((success, d₁, s₁), e, inv₁) = guide.processes d s inv in
      let last = run java (flac.finish d₁) s₁ in
      let (answer, fit) =
        conclude-answers _ last.2 _
          (conclude_one_shot-IsConcluded java flac words _ check_md5 success last.0 last.2)
          (guide.finishes d₁ s₁ inv₁) in
      subst
        (λ o.
          Reported (cleaned_up java flac clean_up (finish_one_shot java flac words check_md5 o)))
        (sym e) (ended clean_up _ silent answer fit)

  seek_first-Inv :
      (first_sample : ℤ) (d : D) (s : State W)
      → Inv s
      → Inv (seek_first java flac first_sample d s).2
  unfolding seek_first
  seek_first-Inv first_sample d s inv =
      if_cases (λ (r : Bool × D × State W). Inv r.2) {b = eqb_ℤ first_sample (pos 0)} (λ _. inv)
        (λ _. guide.seeks (to_u64 first_sample) d s inv)

  after_seek-Reported :
      (words : Wording) (check_md5 : Bool) (clean_up : State W → State W) (r : Bool × D × State W)
      → IsSilent clean_up
      → Inv r.2
      → Reported (after_seek java flac fuel words check_md5 clean_up r)
  unfolding after_seek
  after_seek-Reported words check_md5 clean_up (ok, d, s) silent inv =
      let s₂ =
        throw_if java flac (not ok || s.context.saw_error) (report java flac words.seeking d s) s in
      let inv₂ = report-Inv (not ok || s.context.saw_error) words.seeking d s inv in
      if_cases Reported {b = exception_check s₂.vm || not ok || s₂.context.saw_error}
        (λ bad. abandoned clean_up d s₂ silent inv₂ (report-raises ok words.seeking d s bad))
        (λ _. process_one_shot-Reported words check_md5 clean_up d s₂ silent inv₂)

  -- The end of an empty range, whose finish succeeds.
  told-Reported :
      (clean_up : State W → State W) (ok : Bool) (s : State W)
      → IsSilent clean_up
      → ok ≡ true
      → Inv s
      → Reported (some (clean_up (throw_if java flac ok (complete_call java flac s) s)))
  told-Reported clean_up ok s silent good inv =
      if_cases (λ (t : State W). Reported (some (clean_up t)))
        {b = not (exception_check s.vm) && ok}
        (λ _.
          ended clean_up (complete_call java flac s) silent (inr (s.vm.heard, refl))
            (guide.fits_complete s.vm.heard (guide.fits s inv)))
        (λ refused.
          ended clean_up s silent (inl (ground (arith, refused, good))) (guide.fits s inv))

  -- The decoder checks no checksum, so that `stream_decoder_finish` succeeds.
  range_one_shot-Reported :
      (words : Wording) (check_md5 : Bool) (first_sample : ℤ) (clean_up : State W → State W) (d : D)
      (s : State W)
      → ((d' : D) → Finishes (λ ok _. ok ≡ true) (flac.finish d'))
      → IsSilent clean_up
      → Inv s
      → Reported (range_one_shot java flac fuel words check_md5 first_sample clean_up d s)
  unfolding range_one_shot seek_one_shot throw_range_after_stream_exception
  range_one_shot-Reported words check_md5 first_sample clean_up d s finish_ok silent inv =
      let step = run java (flac.process_until_end_of_metadata d) s in
      let bad = not step.0 || step.2.context.saw_error in
      let s₂ =
        throw_if java flac bad (report java flac words.reading_metadata step.1 step.2) step.2 in
      let inv₁ = guide.describes d s inv in
      let inv₂ = report-Inv bad words.reading_metadata step.1 step.2 inv₁ in
      let last = run java (flac.finish step.1) s₂ in
      let inv₃ = guide.finishes step.1 s₂ inv₂ in
      if_cases Reported {b = exception_check s₂.vm || not step.0 || s₂.context.saw_error}
        (λ failed.
          abandoned clean_up step.1 s₂ silent inv₂
            (report-raises step.0 words.reading_metadata step.1 step.2 failed))
        λ _.
          if_cases Reported {b = decode_range_starts_after_stream s₂.context.stream first_sample}
            (λ _. record {
              result = _;
              returns = refl;
              answered = inl refl;
              fits = subst guide.Fits (sym (silent.same_heard last.2)) (guide.fits last.2 inv₃);
            })
            λ _.
              if_cases Reported
                {b = s₂.context.range.range_complete
                  || decode_range_starts_at_stream_end s₂.context.stream first_sample}
                (λ _.
                  told-Reported clean_up last.0 last.2 silent
                    (run-Finishes java _ (flac.finish step.1) s₂ (finish_ok step.1)) inv₃)
                (λ _.
                  after_seek-Reported words check_md5 clean_up _ silent
                    (seek_first-Inv first_sample step.1 s₂ inv₂))

  abbrev seeks : Request → Bool
  seeks q = q.seek_before_decode || q.range_limited

  pub decode_one_shot-Reported :
      (words : Wording) (q : Request) (clean_up : State W → State W) (d : D) (s : State W)
      → (seeks q ≡ true → (d' : D) → Finishes (λ ok _. ok ≡ true) (flac.finish d'))
      → IsSilent clean_up
      → Inv s
      → Reported (decode_one_shot java flac fuel words q clean_up d s)
  unfolding decode_one_shot
  decode_one_shot-Reported words q clean_up d s finish_ok silent inv =
      if_cases Reported {b = seeks q}
        (λ e.
          range_one_shot-Reported words q.check_md5 q.first_sample clean_up d s (finish_ok e) silent
            inv)
        (λ _. process_one_shot-Reported words q.check_md5 clean_up d s silent inv)
