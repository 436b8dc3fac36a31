-- ===== src/Decode/OneShot/Inputs/Reports.antt =====
-- native/src/jflac_jni.c: the checks and the common states of the one-shot decodes.
use java_kotlin_flac.Prelude.{
  ℕ, Bool, true, false, Option, none, some, ◌≡◌, refl, not, inl, arith, String, subst, sym,
}
use java_kotlin_flac.Prelude.Int.{ℤ}
use java_kotlin_flac.Jni.{Java, Vm, exception_check, throw_illegal_argument_exception}
use java_kotlin_flac.Flac.{Flac}
use java_kotlin_flac.Entry.{Loading, check_entry, flac_api_ready, validate_container}
use java_kotlin_flac.Decode.Context.{prepare_decode_context}
use java_kotlin_flac.Decode.Range.{validate_decode_request}
use java_kotlin_flac.Decode.Write.{State}
use java_kotlin_flac.Decode.Session.Outcomes.{full_consumer}
use java_kotlin_flac.Decode.OneShot.{Request, validate_range_request}
use java_kotlin_flac.Decode.OneShot.Guide.{Guide, IsReported, IsSilent}
use java_kotlin_flac.Decode.OneShot.Reports.{vm_of}
use java_kotlin_flac.Decode.OneShot.Inputs.{
  fresh_context, fresh_state, with_range, last_vm, keep_input,
}

pub negated_true : (b : Bool) → not b ≡ true → b ≡ false
negated_true b h = ground arith

pub negated_false : (b : Bool) → not b ≡ false → b ≡ true
negated_false b h = ground arith

-- A check that refuses with an exception, of which the consumer does not hear.
pub record IsChecked {W : Type 0} (vm : Vm W) (r : Bool × Vm W) : Type 0 where
  pub refuses : r.0 ≡ false → exception_check r.1 ≡ true
  pub same_heard : r.1.heard ≡ vm.heard
  pub same : r.0 ≡ true → r.1 ≡ vm

module _ {W : Type 0} where
  pub check_entry-IsChecked :
      (loading : Loading) (container : ℤ) (given : Bool) (message : String) (vm : Vm W)
      → IsChecked vm (check_entry loading container given message vm)
  unfolding check_entry flac_api_ready validate_container throw_illegal_argument_exception
  check_entry-IsChecked none container given message vm = record {
    refuses = λ e. ground (arith, e);
    same_heard = ground arith;
    same = λ e. ground (arith, e);
  }
  check_entry-IsChecked (some error) container given message vm = record {
    refuses = λ _. refl;
    same_heard = refl;
    same = λ e. absurd cc;
  }

  pub validate_range_request-IsChecked :
      (q : Request) (vm : Vm W) → IsChecked vm (validate_range_request q vm)
  unfolding validate_range_request validate_decode_request throw_illegal_argument_exception
  validate_range_request-IsChecked q vm = record {
    refuses = λ e. ground (arith, e);
    same_heard = ground arith;
    same = λ e. ground (arith, e);
  }

-- The context of a decode whose consumer has the three methods.
abbrev pub begun : {W : Type 0} → Request → Vm W → State W
begun q vm = fresh_state (with_range q (fresh_context q.decode_chained_ogg full_consumer).0) vm

module _ {W D : Type 0} (java : Java W) (flac : Flac D) (loading : Loading) (fuel : ℕ)
    (created : Option D) (guide : Guide java flac fuel) where
  pub keep_input-IsSilent : IsSilent {W = W} keep_input
  keep_input-IsSilent = record { same_pending = λ t. refl; same_heard = λ t. refl }

  pub last-Reported :
      (o : Option (State W)) → IsReported guide.Fits (vm_of o) → IsReported guide.Fits (last_vm o)
  last-Reported none h = h
  last-Reported (some s) h = h

  -- The machine goes on before the decode begins.
  pub later-Inv :
      (q : Request) (vm vm' : Vm W)
      → vm'.heard ≡ vm.heard
      → (exception_check vm' ≡ false → exception_check vm ≡ false)
      → guide.Inv (begun q vm)
      → guide.Inv (begun q vm')
  unfolding prepare_decode_context
  later-Inv q vm vm' same still inv = guide.machine (begun q vm) vm' inv same still

  -- A decode ended before it began.
  pub refused-Reported :
      (vm vm' : Vm W)
      → exception_check vm' ≡ true
      → vm'.heard ≡ vm.heard
      → guide.Fits vm.heard
      → IsReported guide.Fits (some vm')
  refused-Reported vm vm' pending same fit = record {
    result = vm';
    returns = refl;
    answered = inl pending;
    fits = subst guide.Fits (sym same) fit;
  }
