-- ===== src/Decode/Process.antt =====
-- native/src/jflac_jni.c: `process_decode_stream`, the loops that drive libFLAC. Each loop has fuel,
-- and `none` says that it ran out.
pub mod Ranges
pub mod Balance
use java_kotlin_flac.Prelude.{
  ℕ, zero, suc, Bool, true, false, Option, none, some, if◌then◌else◌, ◌||◌, not,
}
use java_kotlin_flac.Jni.{Vm, Java, exception_check}
use java_kotlin_flac.Flac.{Flac, end_of_stream, end_of_link, aborted}
use java_kotlin_flac.Decode.Range.{
  validate_chained_link_sample_count, validate_physical_eof_sample_count,
}
use java_kotlin_flac.Decode.Write.{State}
use java_kotlin_flac.Decode.Callbacks.{run}

module _ {W : Type 0} where
  -- A check of the context that may throw.
  abbrev pub checked : {D : Type 0} → D → State W → Bool × Vm W → Bool × D × State W
  checked d s (ok, vm) = (ok, d, record s { vm = vm })

  abbrev pub check_link : State W → Bool × Vm W
  check_link s = validate_chained_link_sample_count s.context.stream s.context.range s.vm

  abbrev pub check_eof : State W → Bool × Vm W
  check_eof s = validate_physical_eof_sample_count s.context.stream s.context.range s.vm

module _ {W D : Type 0} (java : Java W) (flac : Flac D) where
  abbrev pub Ended : Type 0
  Ended = Bool × D × State W

  -- `finish_link` at the end of a link: `some` is the return value of the decode.
  finish_chained_link : Ended → Option (Bool × D × State W) → Option (Bool × D × State W)
  finish_chained_link (success, d, s) rest =
      if s.context.saw_error
      then some (false, d, s)
      else if not success
      then some (
        false,
        d,
        record s {
          context = record s.context {
            stream = record s.context.stream { chained_link_md5_failed = true };
          };
        },
      )
      else rest

  unfoldable pub process_chain : ℕ → D → State W → Option (Bool × D × State W)
  unfolding finish_chained_link
  process_chain zero d s = none
  process_chain (suc fuel) d s =
      let (link_success, d₁, s₁) = run java (flac.process_until_end_of_link d) s in
      if not link_success || s₁.context.saw_error || exception_check s₁.vm
      then some (false, d₁, s₁)
      else (let checked₁ = check_link s₁ in
          let s₂ = record s₁ { vm = checked₁.1 } in
          let finished = run java (flac.finish_link d₁) s₂ in
          let rest = process_chain fuel finished.1 finished.2 in
          elim (flac.get_state d₁) [
            | end_of_stream ↦ some (checked₁.0, d₁, s₂)
            | end_of_link ↦
                if not checked₁.0 then some (false, d₁, s₂) else finish_chained_link finished rest
            | _ ↦ some (false, d₁, s₁)
          ])

  unfoldable pub process_whole : D → State W → Bool × D × State W
  process_whole d s =
      let (success, d₁, s₁) = run java (flac.process_until_end_of_stream d) s in
      if not success || s₁.context.saw_error || exception_check s₁.vm
      then (false, d₁, s₁)
      else elim (flac.get_state d₁) [
        | end_of_stream ↦ checked d₁ s₁ (check_eof s₁)
        | _ ↦ (true, d₁, s₁)
      ]

  unfoldable pub process_range : ℕ → D → State W → Option (Bool × D × State W)
  process_range zero d s = none
  process_range (suc fuel) d s =
      if s.context.range.range_complete
      then some (true, d, s)
      else if exception_check s.vm
      then some (false, d, s)
      else (let (success, d₁, s₁) = run java (flac.process_single d) s in
          let rest = process_range fuel d₁ s₁ in
          if not success || s₁.context.saw_error || exception_check s₁.vm
          then some (false, d₁, s₁)
          else elim (flac.get_state d₁) [
            | end_of_stream ↦ some (checked d₁ s₁ (check_eof s₁))
            | aborted ↦ some (false, d₁, s₁)
            | _ ↦ rest
          ])

  unfoldable pub process_decode_stream : ℕ → D → State W → Option (Bool × D × State W)
  unfolding process_chain process_whole process_range
  process_decode_stream fuel d s =
      if not s.context.range.range_limited
      then (if s.context.stream.decode_chained_ogg
          then process_chain fuel d s
          else some (process_whole d s))
      else process_range fuel d s
