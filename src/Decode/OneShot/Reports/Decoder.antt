-- ===== src/Decode/OneShot/Reports/Decoder.antt =====
-- native/src/jflac_jni.c: how a one-shot decode with a new decoder ends, as Java sees it.
use java_kotlin_flac.Prelude.{
  ℕ, Bool, true, false, Option, none, some, ◌≡◌, refl, sym, subst, ◌||◌, not, inl, if_cases, arith,
}
use java_kotlin_flac.Prelude.Int.{ℤ}
use java_kotlin_flac.Jni.{
  Java, Vm, exception_check, throw_decode_exception, throw_illegal_argument_exception,
}
use java_kotlin_flac.Flac.{Flac, Process}
use java_kotlin_flac.Decode.Write.{State}
use java_kotlin_flac.Decode.Callbacks.{run}
use java_kotlin_flac.Decode.Read.Continuity.{Finishes}
use java_kotlin_flac.Decode.Coder.{
  count_decoder, configure_decoder, configure_decoder_chaining, configure_decoder_md5_checking,
}
use java_kotlin_flac.Decode.OneShot.{Wording, Request, decode_with_decoder, delete_with}
use java_kotlin_flac.Decode.OneShot.Guide.{Guide, IsReported, IsSilent}
use java_kotlin_flac.Decode.OneShot.Reports.{vm_of, ended, decode_one_shot-Reported}

module _ {W D : Type 0} (flac : Flac D) where
  -- A setting that is refused is refused with an exception, and the consumer hears of neither.
  configure_decoder-raises :
      (container : ℤ) (chained check_md5 : Bool) (d : D) (vm : Vm W)
      → let c = configure_decoder flac container chained check_md5 d vm in
        (c.0 ≡ false → exception_check c.2 ≡ true)
        × (c.2.heard ≡ vm.heard)
        × (exception_check c.2 ≡ false → exception_check vm ≡ false)
  unfolding configure_decoder configure_decoder_chaining configure_decoder_md5_checking
      throw_decode_exception throw_illegal_argument_exception
  configure_decoder-raises container chained check_md5 d vm =
      ((λ e. ground (arith, e)), ground arith, λ e. ground (arith, e))

module _ {W D : Type 0} (java : Java W) (flac : Flac D) (fuel : ℕ)
    (guide : Guide java flac fuel) where
  pub decode_with_decoder-Reported :
      (words : Wording) (q : Request) (clean_input : State W → State W) (init : D → Process D)
      (created : Option D) (s : State W)
      → ((d : D) (t : State W) → guide.Inv t → guide.Inv (run java (init d) t).2)
      → ((q.seek_before_decode || q.range_limited) ≡ true
          → (d' : D) → Finishes (λ ok _. ok ≡ true) (flac.finish d'))
      → IsSilent clean_input
      → guide.Inv s
      → IsReported guide.Fits
          (vm_of (decode_with_decoder java flac fuel words q clean_input init created s))
  unfolding decode_with_decoder throw_decode_exception
  decode_with_decoder-Reported words q clean_input init none s init_ok finish_ok silent inv =
      record {
        result = _;
        returns = refl;
        answered = inl refl;
        fits = subst guide.Fits (sym (silent.same_heard s)) (guide.fits s inv);
      }
  decode_with_decoder-Reported words q clean_input init (some d) s init_ok finish_ok silent inv =
      let c =
        configure_decoder flac q.container q.decode_chained_ogg q.check_md5 d
          (count_decoder s.vm) in
      let (raises, heard, still) =
        configure_decoder-raises flac q.container q.decode_chained_ogg q.check_md5 d
          (count_decoder s.vm) in
      let s₁ = record s { vm = c.2 } in
      let inv₁ = guide.machine s c.2 inv heard still in
      let step = run java (init c.1) s₁ in
      let inv₂ = init_ok c.1 s₁ inv₁ in
      let deleting : IsSilent (delete_with clean_input) = record {
        same_pending = λ t. silent.same_pending _;
        same_heard = λ t. silent.same_heard _;
      } in
      let P = λ (o : Option (State W)). IsReported guide.Fits (vm_of o) in
      if_cases P {b = not c.0}
        (λ failed.
          ended java flac fuel guide (delete_with clean_input) s₁ deleting
            (inl (raises (ground (arith, failed)))) (guide.fits s₁ inv₁))
        λ _.
          if_cases P {b = not step.0}
            (λ _. record {
              result = _;
              returns = refl;
              answered = inl refl;
              fits = subst guide.Fits (sym (deleting.same_heard step.2)) (guide.fits step.2 inv₂);
            })
            (λ _.
              decode_one_shot-Reported java flac fuel guide words q (delete_with clean_input) step.1
                step.2 finish_ok deleting inv₂)
