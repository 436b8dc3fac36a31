-- ===== src/Decode/OneShot/Conclusion.antt =====
-- native/src/jflac_jni.c: what a one-shot decode reports once its decoder is finished.
use java_kotlin_flac.Prelude.{
  Bool, true, false, Option, none, some, String, [], ◌∷◌, ◌++◌, ◌≡◌, refl, ◌&&◌, not,
}
use java_kotlin_flac.Jni.{Java, Throwable, complete, exception_check}
use java_kotlin_flac.Flac.{Flac}
use java_kotlin_flac.Decode.Balance.{IsBalanced, raised-IsBalanced}
use java_kotlin_flac.Decode.Source.Machine.{call-IsQuieter}
use java_kotlin_flac.Decode.Write.{State}
use java_kotlin_flac.Decode.Session.{complete_call}
use java_kotlin_flac.Decode.OneShot.{Wording, conclude_one_shot}

-- Everything went well: no exception, no link with a wrong checksum that is to be reported, and both
-- the decode and the finish succeeded.
abbrev pub went_well : {W : Type 0} → Bool → Bool → Bool → State W → Bool
went_well check_md5 success finish_success s =
    not (exception_check s.vm)
    && not (s.context.stream.chained_link_md5_failed && check_md5)
    && success
    && finish_success

-- The consumer is told of the end if everything went well; otherwise it hears nothing and an exception
-- is pending.
pub record IsConcluded {W : Type 0} (well : Bool) (s t : State W) : Type 0 where
  pub told : well ≡ true → t.vm.heard ≡ s.vm.heard ++ complete ∷ []
  pub silent : well ≡ false → t.vm.heard ≡ s.vm.heard
  pub raised : well ≡ false → exception_check t.vm ≡ true
  pub balanced : IsBalanced s.vm t.vm
  pub same_context : t.context ≡ s.context

failed-IsConcluded :
    {W : Type 0} (s t : State W)
    → t.vm.holdings ≡ s.vm.holdings
    → t.vm.heard ≡ s.vm.heard
    → exception_check t.vm ≡ true
    → t.context ≡ s.context
    → IsConcluded false s t
failed-IsConcluded s t same heard pending context = record {
  told = λ e. absurd cc;
  silent = λ _. heard;
  raised = λ _. pending;
  balanced = raised-IsBalanced t.vm same pending;
  same_context = context;
}

complete-IsConcluded :
    {W D : Type 0} (java : Java W) (flac : Flac D) (s : State W)
    → IsConcluded true s (complete_call java flac s)
complete-IsConcluded java flac s =
    let q = call-IsQuieter tt (java.consume complete) s.vm in
    record {
      told = λ _. refl;
      silent = λ e. absurd cc;
      raised = λ e. absurd cc;
      balanced = record { same_holdings = q.same_holdings; still = q.still };
      same_context = refl;
    }

module _ {W D : Type 0} (java : Java W) (flac : Flac D) (words : Wording)
    (state : Option String) where
  -- With the exception and the flags in view, every case computes.
  conclude_cases :
      (s : State W) (pending : Option Throwable) (failed check_md5 success finish_success : Bool)
      → let t = record s {
        vm = record s.vm { pending = pending };
        context = record s.context {
          stream = record s.context.stream { chained_link_md5_failed = failed };
        };
      } in
        IsConcluded
          (went_well check_md5 success finish_success t)
          t
          (conclude_one_shot java flac words check_md5 success finish_success state t)
  unfolding conclude_one_shot
  conclude_cases s (some e) failed check_md5 success finish_success =
      failed-IsConcluded _ _ refl refl refl refl
  conclude_cases s none true true success finish_success =
      failed-IsConcluded _ _ refl refl refl refl
  conclude_cases s none true false false finish_success = failed-IsConcluded _ _ refl refl refl refl
  conclude_cases s none true false true false = failed-IsConcluded _ _ refl refl refl refl
  conclude_cases s none true false true true = complete-IsConcluded java flac _
  conclude_cases s none false check_md5 false finish_success =
      failed-IsConcluded _ _ refl refl refl refl
  conclude_cases s none false false true false = failed-IsConcluded _ _ refl refl refl refl
  conclude_cases s none false true true false = failed-IsConcluded _ _ refl refl refl refl
  conclude_cases s none false check_md5 true true = complete-IsConcluded java flac _

  -- After a one-shot decode and the finish of its decoder, `onComplete` is called exactly if there is no
  -- exception, no checksum failure that is to be reported, and both succeeded; in every other case an
  -- exception is pending and the consumer hears nothing.
  pub conclude_one_shot-IsConcluded :
      (check_md5 success finish_success : Bool) (s : State W)
      → IsConcluded
          (went_well check_md5 success finish_success s)
          s
          (conclude_one_shot java flac words check_md5 success finish_success state s)
  conclude_one_shot-IsConcluded check_md5 success finish_success s =
      conclude_cases s s.vm.pending s.context.stream.chained_link_md5_failed check_md5 success
        finish_success
