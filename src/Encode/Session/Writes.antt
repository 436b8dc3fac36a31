-- ===== src/Encode/Session/Writes.antt =====
-- native/src/jflac_jni.c: `writeEncoderInterleaved` and the file that the encoder writes.
use java_kotlin_flac.Prelude.{
  ℕ, suc, append_assoc, ◌%◌, if◌then◌else◌, Bool, true, false, Option, none, some, List, ◌++◌, ◌≡◌,
  refl, ◌∙◌, ap, sym, subst, arith, ◌==◌, ◌*◌, ◌^◌, ◌<◌, ◌&&◌, not, u64, length, append-nil,
  if_false,
}
use java_kotlin_flac.Prelude.Int.{ℤ, pos, ltb_ℤ, eqb_ℤ, to_u64}
use java_kotlin_flac.Jni.{Java, Vm, Throwable, exception_check}
use java_kotlin_flac.Encode.Output.{EncodeStatus, ok, fatal_error}
use java_kotlin_flac.Encode.Sinks.{Sink, file, IsAppended, encode_write_callback-Appends}
use java_kotlin_flac.Encode.Process.{
  EncodeProcess, finished, writes, reads, seeks, tells, FlacEncoder, EncodeState, accept,
  run_encoder,
}
use java_kotlin_flac.Encode.Session.{
  EncodeContext, encode_frames, process_elements, report_failure, fresh,
}

-- What libFLAC does after a refused write: the call fails.
abbrev pub Fails : {E : Type 0} → EncodeProcess E → Type 0
Fails (finished success e) = success ≡ false
Fails (writes bytes k) = (status : EncodeStatus) → Fails (k status)
Fails (reads n k) = ⊥
Fails (seeks n k) = ⊥
Fails (tells k) = ⊥

-- A call that only writes, and fails if a write is refused.
abbrev pub IsCareful : {E : Type 0} → EncodeProcess E → Type 0
IsCareful (finished success e) = Unit {0}
IsCareful (writes bytes k) = IsCareful (k ok) × Fails (k fatal_error)
IsCareful (reads n k) = ⊥
IsCareful (seeks n k) = ⊥
IsCareful (tells k) = ⊥

module _ {W E : Type 0} (java : Java W) (sink : Sink java) (c : EncodeContext)
    (start : List ℕ) where
  -- The run of a write callback's answer.
  abbrev continue_with :
      List ℕ
      → (EncodeStatus → EncodeProcess E)
      → EncodeState W
      → Option (EncodeStatus × Vm W)
      → Option (Bool × E × EncodeState W)
  continue_with bytes k s x = elim x [
    | none ↦ none
    | some v ↦ run_encoder java c.output (k v.0) (accept bytes s v)
  ]

  run-Fails :
      (p : EncodeProcess E) (s : EncodeState W)
      → Fails p
      → (r : Bool × E × EncodeState W) × (run_encoder java c.output p s ≡ some r) × (r.0 ≡ false)
  unfolding run_encoder
  run-Fails (finished success e) s f = (_, refl, f)
  run-Fails (writes bytes k) s f =
      let (w, e, appended) =
        encode_write_callback-Appends java sink (suc (length bytes)) bytes c.output s.vm
          (omega arith) in
      let (r, eq, failed) = run-Fails (k w.0) (accept bytes s w) (f w.0) in
      (r, subst (λ x. continue_with bytes k s x ≡ some r) (sym e) eq, failed)
  run-Fails (reads n k) s f = elim f [ ]
  run-Fails (seeks n k) s f = elim f [ ]
  run-Fails (tells k) s f = elim f [ ]

  abbrev Careful : EncodeProcess E → EncodeState W → Type 0
  Careful p s =
      (r : Bool × E × EncodeState W) × (run_encoder java c.output p s ≡ some r)
      × (r.0 ≡ true → file java sink r.2.vm ≡ start ++ r.2.accepted)

  -- The call after a write that was answered.
  answered :
      (bytes : List ℕ) (k : EncodeStatus → EncodeProcess E) (s : EncodeState W)
      → Fails (k fatal_error)
      → file java sink s.vm ≡ start ++ s.accepted
      → ((vm : Vm W)
          → file java sink vm ≡ start ++ s.accepted ++ bytes
          → Careful (k ok) (accept bytes s (ok, vm)))
      → (w : EncodeStatus × Vm W) → IsAppended java sink bytes s.vm w
      → Careful (k w.0) (accept bytes s w)
  answered bytes k s fails written going (ok, vm) appended =
      going vm (appended refl ∙ ap (λ xs. xs ++ bytes) written)
  answered bytes k s fails written going (fatal_error, vm) appended =
      let (r, eq, failed) = run-Fails (k fatal_error) (accept bytes s (fatal_error, vm)) fails in
      (r, eq, λ good. absurd cc)

  run-Careful :
      (p : EncodeProcess E) (s : EncodeState W)
      → IsCareful p
      → file java sink s.vm ≡ start ++ s.accepted
      → Careful p s
  unfolding run_encoder
  run-Careful (finished success e) s h written = (_, refl, λ _. written)
  run-Careful (writes bytes k) s h written =
      let (w, e, appended) =
        encode_write_callback-Appends java sink (suc (length bytes)) bytes c.output s.vm
          (omega arith) in
      let (r, eq, done) =
        answered bytes k s h.1 written
          (λ vm f.
            run-Careful (k ok) (accept bytes s (ok, vm)) h.0
              (f ∙ append_assoc start s.accepted bytes))
          w appended in
      (r, subst (λ x. continue_with bytes k s x ≡ some r) (sym e) eq, done)
  run-Careful (reads n k) s h written = elim h [ ]
  run-Careful (seeks n k) s h written = elim h [ ]
  run-Careful (tells k) s h written = elim h [ ]

no_message :
    (success pending : Bool) (x : Throwable)
    → (if not success && not pending then some x else none) ≡ none
    → pending ≡ false
    → success ≡ true
no_message true pending x quiet calm = refl
no_message false false x quiet calm = absurd cc
no_message false true x quiet calm = absurd cc

module _ {W E : Type 0} (java : Java W) (sink : Sink java) (flac : FlacEncoder E) where
  -- How `writeEncoderInterleaved` ends for samples that it hands to libFLAC.
  pub record IsEncoded (c : EncodeContext) (vm : Vm W) (p : EncodeProcess E)
      (o : Option (E × Vm W × Option Throwable)) : Type 0 where
    pub result : E × Vm W × Option Throwable
    pub returns : o ≡ some result
    pub call : Bool × E × EncodeState W
    pub called : run_encoder java c.output p (fresh java flac vm) ≡ some call
    pub nothing_lost :
        result.2 ≡ none
        → exception_check result.1 ≡ false
        → file java sink result.1 ≡ file java sink vm ++ call.2.accepted

  -- A write of as many samples as there are frames times channels returns, if libFLAC only writes and
  -- fails when a write is refused; and if it ends with no exception, every byte that libFLAC wrote in it
  -- is in the file, behind what was there.
  pub encode_frames-IsEncoded :
      (elements : List ℤ) (frames : ℕ) (e : E) (c : EncodeContext) (vm : Vm W)
      → 0 < frames
      → length elements ≡ u64 (frames % 2 ^ 64 * c.channels)
      → IsCareful (flac.process_interleaved elements frames e)
      → IsEncoded c vm
          (flac.process_interleaved elements frames e)
          (encode_frames java flac (some elements) (pos frames) true e c vm)
  unfolding encode_frames process_elements
  encode_frames-IsEncoded elements frames e c vm positive same careful =
      let p = flac.process_interleaved elements frames e in
      let P = IsEncoded c vm p in
      let (r, eq, whole) =
        run-Careful java sink c (file java sink vm) p (fresh java flac vm) careful
          (sym (append-nil (file java sink vm))) in
      if_false P {b = ltb_ℤ (pos frames) (pos 0)} _ (ground (arith, positive)) (
        if_false P {b = eqb_ℤ (pos frames) (pos 0)} _ (ground (arith, positive)) (
          if_false P {b = not (length elements == u64 (to_u64 (pos frames) * c.channels))} _
            (ground (arith, same))
            (record {
              result = report_failure java flac r.0 r.1 r.2;
              returns =
                  subst
                    (λ x.
                      ◌≡◌ {A = Option (E × Vm W × Option Throwable)}
                        (elim x [
                          | none ↦ none
                          | some (success, e', s) ↦ some (report_failure java flac success e' s)
                        ])
                        (some (report_failure java flac r.0 r.1 r.2)))
                    (sym eq) refl;
              call = r;
              called = eq;
              nothing_lost =
                  λ quiet calm. whole (no_message r.0 (exception_check r.2.vm) _ quiet calm);
            })))
