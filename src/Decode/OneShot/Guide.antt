-- ===== src/Decode/OneShot/Guide.antt =====
-- native/src/jflac_jni.c: what a proof about the end of a one-shot decode needs to know of libFLAC's calls
-- in it. A `Guide` has an invariant of the decode, and what it says of the calls on the consumer.
use java_kotlin_flac.Prelude.{
  ℕ, Bool, true, false, Option, some, List, [], ◌∷◌, ◌++◌, ◌≡◌, ◌∙◌, inl, inr, Bool-cases,
}
use java_kotlin_flac.Jni.{Java, Vm, Event, complete, exception_check}
use java_kotlin_flac.Flac.{Flac}
use java_kotlin_flac.Decode.Balance.{IsBalanced}
use java_kotlin_flac.Decode.Write.{State}
use java_kotlin_flac.Decode.Callbacks.{run}
use java_kotlin_flac.Decode.Process.{process_decode_stream}
use java_kotlin_flac.Decode.Session.Outcomes.{IsAnswered}

pub record Guide {W D : Type 0} (java : Java W) (flac : Flac D) (fuel : ℕ) : Type 1 where
  pub Inv : State W → Type 0
  pub Fits : List Event → Type 0
  pub fits : (s : State W) → Inv s → Fits s.vm.heard
  pub fits_complete : (heard : List Event) → Fits heard → Fits (heard ++ complete ∷ [])
  pub machine :
      (s : State W) (vm : Vm W)
      → Inv s
      → vm.heard ≡ s.vm.heard
      → (exception_check vm ≡ false → exception_check s.vm ≡ false)
      → Inv (record s { vm = vm })
  pub seeks : (n : ℕ) (d : D) (s : State W) → Inv s → Inv (run java (flac.seek_absolute n d) s).2
  pub describes :
      (d : D) (s : State W) → Inv s → Inv (run java (flac.process_until_end_of_metadata d) s).2
  pub finishes : (d : D) (s : State W) → Inv s → Inv (run java (flac.finish d) s).2
  pub processes :
      (d : D) (s : State W)
      → Inv s
      → (r : Bool × D × State W) × (process_decode_stream java flac fuel d s ≡ some r) × Inv r.2

-- A decode returns, does not return in silence, and its calls on the consumer are as they should be.
pub record IsReported {W : Type 0} (Fits : List Event → Type 0) (o : Option (Vm W)) : Type 0 where
  pub result : Vm W
  pub returns : o ≡ some result
  pub answered : IsAnswered result
  pub fits : Fits result.heard

-- Cleaning up changes neither the exception nor what the consumer has heard.
pub record IsSilent {W : Type 0} (clean_up : State W → State W) : Type 0 where
  pub same_pending : (t : State W) → exception_check (clean_up t).vm ≡ exception_check t.vm
  pub same_heard : (t : State W) → (clean_up t).vm.heard ≡ t.vm.heard

module _ {W : Type 0} where
  pub silent-IsAnswered :
      (vm vm' : Vm W)
      → exception_check vm' ≡ exception_check vm
      → vm'.heard ≡ vm.heard
      → IsAnswered vm
      → IsAnswered vm'
  silent-IsAnswered vm vm' same heard (inl pending) = inl (same ∙ pending)
  silent-IsAnswered vm vm' same heard (inr (before, e)) = inr (before, heard ∙ e)

  -- An exception stays.
  pub stays :
      {vm vm' : Vm W} → IsBalanced vm vm' → exception_check vm ≡ true → exception_check vm' ≡ true
  stays {vm' = vm'} b pending = elim (Bool-cases (exception_check vm')) [
    | inl same ↦ same
    | inr none_left ↦ let quiet = b.still none_left in cc
  ]
