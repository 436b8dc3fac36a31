-- ===== src/Encode/Streams.antt =====
-- native/src/jflac_jni.c: an encoder on an output that is only written to, as an `OutputStream` is.
use java_kotlin_flac.Prelude.{
  ℕ, suc, Bool, false, Option, none, some, List, ◌++◌, ◌≡◌, refl, ◌∙◌, ap, sym, subst, arith,
  append_assoc, length,
}
use java_kotlin_flac.Jni.{Java, Vm}
use java_kotlin_flac.Encode.Output.{EncodeStatus, ok, fatal_error, Output}
use java_kotlin_flac.Encode.Sinks.{Sink, file, IsAppended, encode_write_callback-Appends}
use java_kotlin_flac.Encode.Process.{
  EncodeProcess, finished, writes, reads, seeks, tells, EncodeState, accept, run_encoder,
}

-- libFLAC is given no read, seek and tell callbacks.
abbrev pub IsSequential : {E : Type 0} → EncodeProcess E → Type 0
IsSequential (finished success e) = Unit {0}
IsSequential (writes bytes k) = (status : EncodeStatus) → IsSequential (k status)
IsSequential (reads n k) = ⊥
IsSequential (seeks n k) = ⊥
IsSequential (tells k) = ⊥

module _ {W : Type 0} (java : Java W) (sink : Sink java) (start : List ℕ) where
  -- Until a write is refused, the file is what it was at the start, followed by the accepted bytes.
  abbrev pub IsWritten : EncodeState W → Type 0
  IsWritten s = s.refused ≡ false → file java sink s.vm ≡ start ++ s.accepted

  accept-IsWritten :
      (bytes : List ℕ) (s : EncodeState W) (r : EncodeStatus × Vm W)
      → IsWritten s
      → IsAppended java sink bytes s.vm r
      → IsWritten (accept bytes s r)
  accept-IsWritten bytes s (ok, vm) written appended = λ fine.
      appended refl ∙ ap (λ xs. xs ++ bytes) (written fine) ∙ append_assoc start s.accepted bytes
  accept-IsWritten bytes s (fatal_error, vm) written appended = λ fine. absurd cc

module _ {W E : Type 0} (java : Java W) (sink : Sink java) (o : Output) (start : List ℕ) where
  -- A call of libFLAC on an output that is only written to always returns, and as long as no write was
  -- refused, the file is what it was at the start, followed by all bytes that libFLAC wrote, in order.
  pub run_encoder-IsWritten :
      (p : EncodeProcess E) (s : EncodeState W)
      → IsSequential p
      → IsWritten java sink start s
      → (r : Bool × E × EncodeState W) × (run_encoder java o p s ≡ some r)
        × IsWritten java sink start r.2
  unfolding run_encoder
  run_encoder-IsWritten (finished success e) s h written = (_, refl, written)
  run_encoder-IsWritten (writes bytes k) s h written =
      let (w, e, appended) =
        encode_write_callback-Appends java sink (suc (length bytes)) bytes o s.vm (omega arith) in
      let (r, eq, done) =
        run_encoder-IsWritten (k w.0) (accept bytes s w) (h w.0)
          (accept-IsWritten java sink start bytes s w written appended) in
      (
        r,
        subst
            (λ x.
              ◌≡◌ {A = Option (Bool × E × EncodeState W)}
                (elim x [ none ↦ none | some v ↦ run_encoder java o (k v.0) (accept bytes s v) ])
                (some r))
            (sym e) eq,
        done,
      )
  run_encoder-IsWritten (reads n k) s h written = elim h [ ]
  run_encoder-IsWritten (seeks n k) s h written = elim h [ ]
  run_encoder-IsWritten (tells k) s h written = elim h [ ]
