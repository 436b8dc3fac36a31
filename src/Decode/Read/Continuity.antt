-- ===== src/Decode/Read/Continuity.antt =====
-- native/src/jflac_jni.c: the end of a pull read, and the samples that it hands out.
use java_kotlin_flac.Prelude.{
  ℕ, Bool, true, false, List, ◌++◌, ◌*◌, ◌≤◌, ◌<◌, ◌≡◌, ◌≢◌, refl, ap, sym, arith, ◌∙◌, ◌⊎◌, subst,
  length, take, not, ◌||◌,
}
use java_kotlin_flac.Prelude.Int.{ℤ, pos_part}
use java_kotlin_flac.Jni.{Java, Vm, exception_check}
use java_kotlin_flac.Flac.{
  Flac, Frame, Process, finished, writes, describes, reports, reads, seeks, tells, measures,
  asks_eof, DecoderState, searching, end_of_stream, end_of_link, aborted, other, WriteStatus,
  ReadResult, SeekStatus, OffsetStatus,
}
use java_kotlin_flac.Decode.Pull.{output_of}
use java_kotlin_flac.Decode.Pull.View.{filled, undelivered, HoldsFrames}
use java_kotlin_flac.Decode.Write.{State}
use java_kotlin_flac.Decode.Callbacks.{run}
use java_kotlin_flac.Decode.Callbacks.Pulls.{samples_of, Pulled}
use java_kotlin_flac.Decode.Read.{PullResult, give_back, read_result, with_pull}

-- What holds of the result of a libFLAC call, whatever its callbacks answer.
abbrev pub Finishes {κ} : {D : Type 0} → (Bool → D → Type κ) → Process D → Type κ
Finishes P (finished success d) = P success d
Finishes P (writes frame k) = (status : WriteStatus) → Finishes P (k status)
Finishes P (describes m k) = Finishes P k
Finishes P (reports e k) = Finishes P k
Finishes P (reads n k) = (r : ReadResult) → Finishes P (k r)
Finishes P (seeks n k) = (r : SeekStatus) → Finishes P (k r)
Finishes P (tells k) = (r : OffsetStatus) → Finishes P (k r)
Finishes P (measures k) = (r : OffsetStatus) → Finishes P (k r)
Finishes P (asks_eof k) = (r : Bool) → Finishes P (k r)

module _ {W : Type 0} (java : Java W) where
  pub run-Finishes {κ} :
      {D : Type 0} (P : Bool → D → Type κ) (p : Process D) (s : State W)
      → Finishes P p
      → P (run java p s).0 (run java p s).1
  unfolding run
  run-Finishes P (finished success d) s h = h
  run-Finishes P (writes frame k) s h = run-Finishes P (k _) _ (h _)
  run-Finishes P (describes m k) s h = run-Finishes P k _ h
  run-Finishes P (reports e k) s h = run-Finishes P k _ h
  run-Finishes P (reads n k) s h = run-Finishes P (k _) _ (h _)
  run-Finishes P (seeks n k) s h = run-Finishes P (k _) _ (h _)
  run-Finishes P (tells k) s h = run-Finishes P (k _) _ (h _)
  run-Finishes P (measures k) s h = run-Finishes P (k _) _ (h _)
  run-Finishes P (asks_eof k) s h = run-Finishes P (k _) _ (h _)

-- Documented behaviour of `process_single`: it consumes input, or fails, or reports a final state.
pub record Progress {D : Type 0} (flac : Flac D) (left : D → ℕ) : Type 0 where
  pub advances :
      (d : D)
      → Finishes
          (λ success d'.
            (left d' < left d)
            ⊎ (success ≡ false)
            ⊎ (flac.get_state d' ≡ end_of_stream)
            ⊎ (flac.get_state d' ≡ aborted))
          (flac.process_single d)

-- The end of a read that began at `s`: the array's front and the samples still held are those that
-- were there before, followed by those of the blocks that libFLAC delivered.
pub record Continued {W D : Type 0} (n : ℕ) (s : State W) (r : PullResult W D) : Type 0 where
  pub news : List Frame
  pub delivered_eq : r.state.delivered ≡ s.delivered ++ news
  pub samples :
      take (r.state.context.pull.pull_written_frames * n) r.output
        ++ undelivered r.state.context.pull
      ≡ filled s.context.pull ++ undelivered s.context.pull ++ samples_of news
  pub holds : HoldsFrames n r.state.context.pull
  pub same_length : length r.output ≡ length (output_of s.context.pull)
  pub written_le : r.state.context.pull.pull_written_frames ≤ s.context.pull.pull_requested_frames
  pub returned :
      exception_check r.state.vm ≡ false
      → pos_part r.frames ≡ r.state.context.pull.pull_written_frames

module _ {W D : Type 0} where
  -- Dropping the array keeps what was read into it.
  pub give_back-Continued :
      {n : ℕ} {s t : State W} (frames : ℤ) (d : D)
      → s.context.pull.pull_channels ≡ n
      → Pulled s t
      → (exception_check t.vm ≡ false → pos_part frames ≡ t.context.pull.pull_written_frames)
      → Continued n s (give_back frames d t)
  give_back-Continued {n} {s} {t} frames d same p h = record {
    news = p.news;
    delivered_eq = p.delivered_eq;
    samples =
        ap
          (λ m.
            take (t.context.pull.pull_written_frames * m) (output_of t.context.pull)
            ++ undelivered t.context.pull)
          (sym (p.same_request.same_channels ∙ same))
        ∙ p.same_samples;
    holds =
        subst (λ m. HoldsFrames m t.context.pull) (p.same_request.same_channels ∙ same)
          p.reading.pending;
    same_length = p.same_request.same_capacity;
    written_le = omega (arith, p.reading.written_le, p.same_request.same_requested);
    returned = h;
  }

  pub read_result-Continued :
      {n : ℕ} {s t : State W} (d : D)
      → s.context.pull.pull_channels ≡ n
      → Pulled s t
      → Continued n s (read_result d t)
  read_result-Continued d same p = give_back-Continued _ d same p (λ quiet. ground arith)

  -- Neither the end flag nor the machine's state matters to the samples.
  pub ended-Continued :
      {n : ℕ} {s : State W} (t : State W) (frames frames' : ℤ) (d d' : D) (vm : Vm W) (ended : Bool)
      → Continued n s (give_back frames d t)
      → (exception_check vm ≡ false → pos_part frames' ≡ t.context.pull.pull_written_frames)
      → Continued n s (
          give_back frames' d'
            (record (with_pull t (record t.context.pull { pull_end_of_stream = ended })) {
              vm = vm;
            }))
  ended-Continued t frames frames' d d' vm ended c h = record {
    news = c.news;
    delivered_eq = c.delivered_eq;
    samples = c.samples;
    holds = c.holds;
    same_length = c.same_length;
    written_le = c.written_le;
    returned = h;
  }

pub state_cases {κ ℓ} :
    {A : Type κ} (P : A → Type ℓ) (st : DecoderState) {x y z : A}
    → (st ≡ end_of_stream → P x)
    → (st ≡ aborted → P y)
    → (st ≢ end_of_stream → st ≢ aborted → P z)
    → P (elim st [ end_of_stream ↦ x | aborted ↦ y | _ ↦ z ])
state_cases P searching f g h = h (λ e. cc) (λ e. cc)
state_cases P end_of_stream f g h = f refl
state_cases P end_of_link f g h = h (λ e. cc) (λ e. cc)
state_cases P aborted f g h = g refl
state_cases P other f g h = h (λ e. cc) (λ e. cc)

pub not_failed : (a b : Bool) → (not a || b) ≡ false → a ≡ true
not_failed a b h = ground arith
