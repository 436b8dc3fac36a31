-- ===== src/Decode/Balance.antt =====
-- native/src/jflac_jni.c: what the bridge holds, its global references and libFLAC's decoders and
-- encoders, across a piece of code.
use java_kotlin_flac.Prelude.{true, false, ◌≡◌, refl, ◌∙◌}
use java_kotlin_flac.Jni.{Vm, exception_check}
use java_kotlin_flac.Decode.Source.Machine.{IsQuieter}

-- Nothing was taken or given back, and no exception was cleared.
pub record IsBalanced {W : Type 0} (vm vm' : Vm W) : Type 0 where
  pub same_holdings : vm'.holdings ≡ vm.holdings
  pub still : exception_check vm' ≡ false → exception_check vm ≡ false

module _ {W : Type 0} where
  pub IsBalanced-refl : (vm : Vm W) → IsBalanced vm vm
  IsBalanced-refl vm = record { same_holdings = refl; still = λ h. h }

  pub IsBalanced-trans : {a b c : Vm W} → IsBalanced a b → IsBalanced b c → IsBalanced a c
  IsBalanced-trans p q = record {
    same_holdings = q.same_holdings ∙ p.same_holdings;
    still = λ h. p.still (q.still h);
  }

  -- The next state has an exception, and holds the same.
  pub raised-IsBalanced :
      {vm : Vm W} (vm' : Vm W)
      → vm'.holdings ≡ vm.holdings
      → exception_check vm' ≡ true
      → IsBalanced vm vm'
  raised-IsBalanced vm' e h = record { same_holdings = e; still = λ q. cc }

  pub quieter-IsBalanced : {vm vm' : Vm W} → IsQuieter vm vm' → IsBalanced vm vm'
  quieter-IsBalanced q = record { same_holdings = q.same_holdings; still = q.still }
