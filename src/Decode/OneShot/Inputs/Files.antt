-- ===== src/Decode/OneShot/Inputs/Files.antt =====
-- native/src/jflac_jni.c: how the one-shot decode of a file ends, as Java sees it.
use java_kotlin_flac.Prelude.{
  ℕ, Bool, true, Option, none, some, List, ◌≡◌, refl, ◌∙◌, ap, ◌||◌, ◌&&◌, not, if_cases, String,
  is_some, subst, sym,
}
use java_kotlin_flac.Jni.{Java, Vm, exception_check, throw_decode_exception}
use java_kotlin_flac.Flac.{Flac}
use java_kotlin_flac.Text.{c_string, jstring_to_utf8}
use java_kotlin_flac.Text.Utf8.{jstring_to_utf8-IsQuieter}
use java_kotlin_flac.Entry.{Loading, check_entry}
use java_kotlin_flac.Decode.Context.{prepare_decode_context}
use java_kotlin_flac.Decode.Write.{State}
use java_kotlin_flac.Decode.Callbacks.{run}
use java_kotlin_flac.Decode.Read.Continuity.{Finishes}
use java_kotlin_flac.Decode.Coder.{init_file_decoder_for_container}
use java_kotlin_flac.Decode.Session.Outcomes.{full_consumer}
use java_kotlin_flac.Decode.OneShot.{Request, validate_range_request}
use java_kotlin_flac.Decode.OneShot.Guide.{Guide, IsReported}
use java_kotlin_flac.Decode.OneShot.Reports.Decoder.{decode_with_decoder-Reported}
use java_kotlin_flac.Decode.OneShot.Inputs.{
  decode_path, decode_utf8_path, decode_file_internal, file_wording, keep_input,
}
use java_kotlin_flac.Decode.OneShot.Inputs.Reports.{
  negated_true, negated_false, check_entry-IsChecked, validate_range_request-IsChecked, begun,
  keep_input-IsSilent, last-Reported, later-Inv, refused-Reported,
}

module _ {W D : Type 0} (java : Java W) (flac : Flac D) (loading : Loading) (fuel : ℕ)
    (created : Option D) (guide : Guide java flac fuel) where
  decode_path-Reported :
      (q : Request) (utf8_path : List ℕ) (vm : Vm W)
      → ((d : D) (t : State W)
          → guide.Inv t
          → guide.Inv
              (run java
                (init_file_decoder_for_container flac q.container (c_string utf8_path) d)
                t).2)
      → ((q.seek_before_decode || q.range_limited) ≡ true
          → (d' : D) → Finishes (λ ok _. ok ≡ true) (flac.finish d'))
      → guide.Inv (begun q vm)
      → IsReported guide.Fits
          (decode_path java flac loading fuel created q utf8_path full_consumer vm)
  unfolding decode_path prepare_decode_context
  decode_path-Reported q utf8_path vm init_ok finish_ok inv =
      last-Reported java flac loading fuel created guide _ (
        decode_with_decoder-Reported java flac fuel guide file_wording q keep_input
          (init_file_decoder_for_container flac q.container (c_string utf8_path)) created
          (begun q vm) init_ok finish_ok (keep_input-IsSilent java flac loading fuel created guide)
          inv)

  decode_utf8_path-Reported :
      (q : Request) (r : Option (List ℕ) × Vm W)
      → ((path : List ℕ) (d : D) (t : State W)
          → guide.Inv t
          → guide.Inv (run java (init_file_decoder_for_container flac q.container path d) t).2)
      → ((q.seek_before_decode || q.range_limited) ≡ true
          → (d' : D) → Finishes (λ ok _. ok ≡ true) (flac.finish d'))
      → guide.Fits r.1.heard
      → guide.Inv (begun q r.1)
      → IsReported guide.Fits (decode_utf8_path java flac loading fuel created q full_consumer r)
  unfolding decode_utf8_path throw_decode_exception
  decode_utf8_path-Reported q (none, vm) init_ok finish_ok fit inv =
      if_cases (λ (t : Vm W). IsReported guide.Fits (some t)) {b = exception_check vm}
        (λ pending. refused-Reported java flac loading fuel created guide vm vm pending refl fit)
        (λ _. refused-Reported java flac loading fuel created guide vm _ refl refl fit)
  decode_utf8_path-Reported q (some path, vm) init_ok finish_ok fit inv =
      decode_path-Reported q path vm (init_ok (c_string path)) finish_ok inv

  -- A one-shot decode of a file whose consumer has the three methods returns, and not in silence.
  pub decode_file_internal-Reported :
      (q : Request) (lookups : Bool) (path : Option (List ℕ)) (vm : Vm W)
      → ((path' : List ℕ) (d : D) (t : State W)
          → guide.Inv t
          → guide.Inv (run java (init_file_decoder_for_container flac q.container path' d) t).2)
      → ((q.seek_before_decode || q.range_limited) ≡ true
          → (d' : D) → Finishes (λ ok _. ok ≡ true) (flac.finish d'))
      → guide.Fits vm.heard
      → ((validate_range_request q vm).0 ≡ true → guide.Inv (begun q vm))
      → IsReported guide.Fits
          (decode_file_internal java flac loading fuel created q lookups path full_consumer vm)
  unfolding decode_file_internal
  decode_file_internal-Reported q lookups path vm init_ok finish_ok fit inv =
      let message : String = "Decoder path and consumer must not be null." in
      let given = is_some path && is_some full_consumer in
      let a = check_entry loading q.container given message vm in
      let ca = check_entry-IsChecked loading q.container given message vm in
      let v = validate_range_request q a.1 in
      let cv = validate_range_request-IsChecked q a.1 in
      let u = jstring_to_utf8 java lookups path v.1 in
      let qu = jstring_to_utf8-IsQuieter java lookups path v.1 in
      let P = IsReported guide.Fits in
      if_cases P {b = not a.0}
        (λ e.
          refused-Reported java flac loading fuel created guide vm a.1
            (ca.refuses (negated_true _ e)) ca.same_heard fit)
        λ ready.
          if_cases P {b = not v.0}
            (λ e.
              refused-Reported java flac loading fuel created guide vm v.1
                (cv.refuses (negated_true _ e)) (cv.same_heard ∙ ca.same_heard) fit)
            λ valid.
              let ea = ca.same (negated_false _ ready) in
              let ev = cv.same (negated_false _ valid) ∙ ea in
              let accepted : (validate_range_request q vm).0 ≡ true =
                ap (λ w. (validate_range_request q w).0) (sym ea) ∙ negated_false _ valid in
              decode_utf8_path-Reported q u init_ok finish_ok
                (subst guide.Fits (sym (qu.heard ∙ ap (λ w. w.heard) ev)) fit)
                (later-Inv java flac loading fuel created guide q vm u.1
                  (qu.heard ∙ ap (λ w. w.heard) ev) (λ h. ap exception_check (sym ev) ∙ qu.still h)
                  (inv accepted))
