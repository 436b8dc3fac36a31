-- ===== src/Decode/Process/Balance.antt =====
-- native/src/jflac_jni.c: the loops of `process_decode_stream` and what the bridge holds.
use java_kotlin_flac.Prelude.{
  ℕ, zero, suc, Bool, true, Option, none, some, refl, if_cases, not, ◌||◌, ◌==◌, leb, ◌-◌, ◌+◌, ◌^◌,
  u64,
}
use java_kotlin_flac.Jni.{Java, Vm, exception_check}
use java_kotlin_flac.Flac.{Flac, DecoderState, end_of_stream, end_of_link}
use java_kotlin_flac.Decode.Range.{
  validate_physical_eof_sample_count, validate_chained_link_sample_count,
}
use java_kotlin_flac.Decode.Balance.{IsBalanced, IsBalanced-refl, raised-IsBalanced}
use java_kotlin_flac.Decode.Write.{State}
use java_kotlin_flac.Decode.Callbacks.{run}
use java_kotlin_flac.Decode.Callbacks.Balance.{
  IsKept, IsKept-refl, IsKept-trans, machine-IsKept, run-IsKept,
}
use java_kotlin_flac.Decode.Read.Continuity.{state_cases}
use java_kotlin_flac.Decode.Process.{
  process_decode_stream, process_range, process_chain, process_whole, finish_chained_link,
  check_eof, check_link,
}

module _ {W : Type 0} where
  check_eof-IsKept : (s : State W) → IsKept s (record s { vm = (check_eof s).1 })
  unfolding validate_physical_eof_sample_count
  check_eof-IsKept s = machine-IsKept s _ (
      if_cases (λ (c : Bool × Vm W). IsBalanced s.vm c.1) {b = exception_check s.vm}
        (λ _. IsBalanced-refl s.vm)
        λ _.
          if_cases (λ (c : Bool × Vm W). IsBalanced s.vm c.1)
            {b = not s.context.stream.saw_stream_info
              || s.context.stream.stream_total_samples == 0
              || leb s.context.stream.stream_total_samples s.context.range.first_sample
              || leb (s.context.stream.stream_total_samples - s.context.range.first_sample)
                  s.context.range.emitted_frames}
            (λ _. IsBalanced-refl s.vm) (λ _. raised-IsBalanced _ refl refl))

  check_link-IsKept : (s : State W) → IsKept s (record s { vm = (check_link s).1 })
  unfolding validate_chained_link_sample_count
  check_link-IsKept s =
      let P = λ (c : Bool × Vm W). IsBalanced s.vm c.1 in
      machine-IsKept s _ (
        if_cases P {b = s.context.stream.current_link_total_samples == 0}
          (λ _. IsBalanced-refl s.vm)
          λ _.
            if_cases P
              {b = u64 (
                  s.context.range.emitted_frames
                  + 2 ^ 64
                  - s.context.stream.current_link_start_emitted_frames)
                == s.context.stream.current_link_total_samples}
              (λ _. IsBalanced-refl s.vm) (λ _. raised-IsBalanced _ refl refl))

-- The state of a decode that has returned is kept.
abbrev pub IsKeptWhere : {W D : Type 0} → State W → Option (Bool × D × State W) → Type 0
IsKeptWhere s none = Unit {0}
IsKeptWhere s (some r) = IsKept s r.2

-- The decoder's state, in the loop over links.
link_cases {κ} :
    {A : Type 0} (P : A → Type κ) (state : DecoderState) {x y z : A}
    → P x
    → P y
    → P z
    → P (elim state [ end_of_stream ↦ x | end_of_link ↦ y | _ ↦ z ])
link_cases P DecoderState.searching x y z = z
link_cases P DecoderState.end_of_stream x y z = x
link_cases P DecoderState.end_of_link x y z = y
link_cases P DecoderState.aborted x y z = z
link_cases P DecoderState.other x y z = z

module _ {W D : Type 0} (java : Java W) (flac : Flac D) where
  after-IsKept :
      {a b : State W} (o : Option (Bool × D × State W))
      → IsKept a b
      → IsKeptWhere b o
      → IsKeptWhere a o
  after-IsKept none k h = tt
  after-IsKept (some r) k h = IsKept-trans k h

  failed-IsKept :
      {a b : State W}
      → IsKept a b
      → IsKept a (record b {
        context = record b.context {
          stream = record b.context.stream { chained_link_md5_failed = true };
        };
      })
  failed-IsKept k = record {
    balanced = k.balanced;
    same_source = k.same_source;
    same_chained = k.same_chained;
    same_limited = k.same_limited;
    same_mode = k.same_mode;
  }

  process_chain-IsKept :
      (fuel : ℕ) (d : D) (s : State W) → IsKeptWhere s (process_chain java flac fuel d s)
  unfolding process_chain finish_chained_link
  process_chain-IsKept zero d s = tt
  process_chain-IsKept (suc fuel) d s =
      let step = run java (flac.process_until_end_of_link d) s in
      let k₁ = run-IsKept java (flac.process_until_end_of_link d) s in
      let s₂ = record step.2 { vm = (check_link step.2).1 } in
      let k₂ = IsKept-trans k₁ (check_link-IsKept step.2) in
      let last = run java (flac.finish_link step.1) s₂ in
      let k₃ = IsKept-trans k₂ (run-IsKept java (flac.finish_link step.1) s₂) in
      let P = IsKeptWhere {D = D} s in
      if_cases P {b = not step.0 || step.2.context.saw_error || exception_check step.2.vm} (λ _. k₁)
        (λ _.
          link_cases P (flac.get_state step.1) k₂
            (if_cases P {b = not (check_link step.2).0} (λ _. k₂)
              λ _.
                if_cases P {b = last.2.context.saw_error} (λ _. k₃)
                  λ _.
                    if_cases P {b = not last.0} (λ _. failed-IsKept k₃)
                      (λ _. after-IsKept _ k₃ (process_chain-IsKept fuel last.1 last.2)))
            k₁)

  process_whole-IsKept : (d : D) (s : State W) → IsKept s (process_whole java flac d s).2
  unfolding process_whole
  process_whole-IsKept d s =
      let step = run java (flac.process_until_end_of_stream d) s in
      let k₁ = run-IsKept java (flac.process_until_end_of_stream d) s in
      let P = λ (r : Bool × D × State W). IsKept s r.2 in
      if_cases P {b = not step.0 || step.2.context.saw_error || exception_check step.2.vm} (λ _. k₁)
        (λ _.
          state_cases P (flac.get_state step.1) (λ _. IsKept-trans k₁ (check_eof-IsKept step.2))
            (λ _. k₁) (λ _ _. k₁))

  process_range-IsKept :
      (fuel : ℕ) (d : D) (s : State W) → IsKeptWhere s (process_range java flac fuel d s)
  unfolding process_range
  process_range-IsKept zero d s = tt
  process_range-IsKept (suc fuel) d s =
      let step = run java (flac.process_single d) s in
      let k₁ = run-IsKept java (flac.process_single d) s in
      let P = IsKeptWhere {D = D} s in
      if_cases P {b = s.context.range.range_complete} (λ _. IsKept-refl s)
        λ _.
          if_cases P {b = exception_check s.vm} (λ _. IsKept-refl s)
            λ _.
              if_cases P {b = not step.0 || step.2.context.saw_error || exception_check step.2.vm}
                (λ _. k₁)
                λ _.
                  state_cases P (flac.get_state step.1)
                    (λ _. IsKept-trans k₁ (check_eof-IsKept step.2)) (λ _. k₁)
                    (λ _ _. after-IsKept _ k₁ (process_range-IsKept fuel step.1 step.2))

  pub process_decode_stream-IsKept :
      (fuel : ℕ) (d : D) (s : State W) → IsKeptWhere s (process_decode_stream java flac fuel d s)
  unfolding process_decode_stream
  process_decode_stream-IsKept fuel d s =
      let P = IsKeptWhere {D = D} s in
      if_cases P {b = not s.context.range.range_limited}
        (λ _.
          if_cases P {b = s.context.stream.decode_chained_ogg} (λ _. process_chain-IsKept fuel d s)
            (λ _. process_whole-IsKept d s))
        (λ _. process_range-IsKept fuel d s)
