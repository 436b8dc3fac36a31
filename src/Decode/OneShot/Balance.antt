-- ===== src/Decode/OneShot/Balance.antt =====
-- native/src/jflac_jni.c: the one-shot decodes and what the bridge holds.
use java_kotlin_flac.Prelude.{
  ℕ, Bool, Option, none, some, ◌≡◌, refl, ◌∙◌, ap, ◌+◌, ◌-◌, not, if_cases, arith,
}
use java_kotlin_flac.Prelude.Int.{ℤ}
use java_kotlin_flac.Jni.{Java, Vm, Holdings, throw_decode_exception}
use java_kotlin_flac.Flac.{Flac, Process}
use java_kotlin_flac.Decode.Write.{State}
use java_kotlin_flac.Decode.Callbacks.{run}
use java_kotlin_flac.Decode.Callbacks.Balance.{IsKept, IsKept-refl, IsKept-trans, run-IsKept}
use java_kotlin_flac.Decode.Coder.{
  count_decoder, delete_decoder, configure_decoder, configure_decoder_chaining,
  configure_decoder_md5_checking,
}
use java_kotlin_flac.Decode.OneShot.{Wording, Request, decode_with_decoder, delete_with}
use java_kotlin_flac.Decode.OneShot.Steps.{Holds, decode_one_shot-Holds}

deleted : (held : Holdings) → record held { decoders = held.decoders + 1 - 1 } ≡ held
deleted held = ap (λ n. record held { decoders = n }) (omega arith)

module _ {W D : Type 0} (flac : Flac D) where
  configure_decoder-holdings :
      (container : ℤ) (chained check_md5 : Bool) (d : D) (vm : Vm W)
      → (configure_decoder flac container chained check_md5 d vm).2.holdings ≡ vm.holdings
  unfolding configure_decoder configure_decoder_chaining configure_decoder_md5_checking
  configure_decoder-holdings container chained check_md5 d vm = ground arith

module _ {W D : Type 0} (java : Java W) (flac : Flac D) where
  -- A decode with a new decoder: if the input is given back when it is cleaned, all is.
  pub decode_with_decoder-Holds :
      (fuel : ℕ) (words : Wording) (q : Request) (clean_input : State W → State W)
      (init : D → Process D) (created : Option D) (s : State W) (held : Holdings)
      → ((t : State W)
          → t.context.source ≡ s.context.source
          → t.vm.holdings ≡ s.vm.holdings
          → (clean_input t).vm.holdings ≡ held)
      → Holds held (decode_with_decoder java flac fuel words q clean_input init created s)
  unfolding decode_with_decoder throw_decode_exception
  decode_with_decoder-Holds fuel words q clean_input init none s held cleans = cleans s refl refl
  decode_with_decoder-Holds fuel words q clean_input init (some d) s held cleans =
      let counted = count_decoder s.vm in
      let c = configure_decoder flac q.container q.decode_chained_ogg q.check_md5 d counted in
      let s₁ = record s { vm = c.2 } in
      let e₁ =
        configure_decoder-holdings flac q.container q.decode_chained_ogg q.check_md5 d counted in
      let step = run java (init c.1) s₁ in
      let k₂ = run-IsKept java (init c.1) s₁ in
      let clean : (t : State W) → IsKept s₁ t → (delete_with clean_input t).vm.holdings ≡ held =
        λ t k.
          cleans (record t { vm = delete_decoder t.vm }) k.same_source
            (ap {A = Holdings} (λ h. record h { decoders = h.decoders - 1 })
                (k.balanced.same_holdings ∙ e₁)
              ∙ deleted s.vm.holdings) in
      if_cases (Holds held) {b = not c.0} (λ _. clean s₁ (IsKept-refl s₁))
        λ _.
          if_cases (Holds held) {b = not step.0} (λ _. clean step.2 k₂)
            λ _.
              decode_one_shot-Holds java flac fuel words q (delete_with clean_input) step.1 step.2
                held (λ t k. clean t (IsKept-trans k₂ k))
