-- ===== src/Text/Utf8.antt =====
-- native/src/jflac_jni.c: `jstring_to_utf8` and the machine.
use java_kotlin_flac.Prelude.{
  ℕ, Bool, Option, none, some, List, refl, ◌+◌, ltb, not, ◌&&◌, if_cases, length,
}
use java_kotlin_flac.Jni.{Java, Vm, call, in_world, exception_check}
use java_kotlin_flac.Text.{jstring_to_utf8, copied_bytes}
use java_kotlin_flac.Decode.Source.Machine.{
  IsQuieter, IsQuieter-refl, IsQuieter-trans, call-IsQuieter,
}

module _ {W : Type 0} (java : Java W) where
  copied_bytes-IsQuieter :
      (bytes : Option (List ℕ)) (vm : Vm W) → IsQuieter vm (copied_bytes java bytes vm).1
  unfolding copied_bytes
  copied_bytes-IsQuieter none vm = IsQuieter-refl vm
  copied_bytes-IsQuieter (some bytes) vm =
      let P = λ (r : Option (List ℕ) × Vm W). IsQuieter vm r.1 in
      let m = in_world (java.malloc (length bytes + 1)) vm in
      let q : IsQuieter vm m.1 = record { heard = refl; same_holdings = refl; still = λ h. h } in
      if_cases P {b = exception_check vm} (λ _. IsQuieter-refl vm)
        λ _.
          if_cases P {b = not m.0} (λ _. q)
            λ _. if_cases P {b = ltb 0 (length bytes) && exception_check m.1} (λ _. q) (λ _. q)

  pub jstring_to_utf8-IsQuieter :
      (lookups : Bool) (value : Option (List ℕ)) (vm : Vm W)
      → IsQuieter vm (jstring_to_utf8 java lookups value vm).1
  unfolding jstring_to_utf8
  jstring_to_utf8-IsQuieter lookups none vm = IsQuieter-refl vm
  jstring_to_utf8-IsQuieter lookups (some value) vm =
      let c = call none (java.get_bytes_utf8 value) vm in
      if_cases (λ (r : Option (List ℕ) × Vm W). IsQuieter vm r.1) {b = not lookups}
        (λ _. IsQuieter-refl vm)
        (λ _.
          IsQuieter-trans (call-IsQuieter none (java.get_bytes_utf8 value) vm)
            (copied_bytes-IsQuieter c.0 c.1))
