-- ===== src/Decode/Pull/Block.antt =====
-- native/src/jflac_jni.c: `decode_pull_write_callback` as a whole.
use java_kotlin_flac.Prelude.{
  true, false, Option, none, some, List, ◌++◌, ◌+◌, ◌*◌, ◌-◌, ◌≤◌, ◌≡◌, refl, ap, sym, arith,
  length, take, int_max, uint32_max, ◌∙◌, ltb, ◌==◌, if◌then◌else◌, u64, inl, inr, subst,
  Bool-cases, append-nil, ◌||◌, is_some,
}
use java_kotlin_flac.Prelude.Int.{ℤ}
use java_kotlin_flac.Jni.{Java, Vm, exception_check}
use java_kotlin_flac.Flac.{Frame, WriteStatus}
use java_kotlin_flac.Decode.Pull.{
  PullState, output_of, hold_block, interleaved_block, decode_pull_write_callback,
  drain_decode_pull_pending,
}
use java_kotlin_flac.Decode.Pull.Interleave.{length-interleave}
use java_kotlin_flac.Decode.Pull.View.{filled, undelivered, samples_from, IsReading, SameRequest}
use java_kotlin_flac.Decode.Pull.Drain.{drain_decode_pull_pending-Drained}

-- How a pull write ends. A block is accepted whole, behind the samples before it; or it is refused
-- with an exception, and the buffers and counters are left alone.
pub data PullWritten {W : Type 0} (frame : Frame) (s : PullState W)
    : WriteStatus × PullState W → Type 0 where
  accepted :
      (s' : PullState W)
      → IsReading s'.pull
      → SameRequest s.pull s'.pull
      → filled s'.pull ++ undelivered s'.pull
        ≡ filled s.pull ++ undelivered s.pull ++ interleaved_block frame
      → s.pull.pull_written_frames ≤ s'.pull.pull_written_frames
      → u64 s'.range.emitted_frames
        ≡ u64 (s.range.emitted_frames + (s'.pull.pull_written_frames - s.pull.pull_written_frames))
      → exception_check s'.vm ≡ false
      → PullWritten frame s (WriteStatus.continue, s')
  refused :
      (s' : PullState W)
      → exception_check s'.vm ≡ true
      → s'.pull ≡ s.pull
      → s'.range ≡ s.range
      → PullWritten frame s (WriteStatus.abort, s')

module _ {W : Type 0} (java : Java W) (frame : Frame) (s : PullState W) (r : IsReading s.pull)
    (uniform : frame.channels ≡ s.pull.pull_channels) (quiet : exception_check s.vm ≡ false) where
  hold_block-IsReading :
      frame.channels * frame.blocksize ≤ int_max → IsReading (hold_block frame s.pull)
  unfolding hold_block
  hold_block-IsReading fits = record {
    has_output = r.has_output;
    capacity_eq = r.capacity_eq;
    capacity_le = r.capacity_le;
    some_channels = omega (arith, r.some_channels, uniform);
    room =
        subst (λ n. s.pull.pull_requested_frames * n ≤ length (output_of s.pull)) (sym uniform)
          r.room;
    written_le = r.written_le;
    pending = record {
      counted = omega (arith, length-interleave frame.buffer frame.channels 0 frame.blocksize);
      gone = 0;
      left = frame.blocksize;
      offset_eq = omega arith;
      count_eq = omega arith;
      count_le = omega arith;
    };
  }

  -- A block that arrives at an empty buffer stands behind all that is delivered.
  behind :
      s.pull.pull_pending_samples ≡ none
      → filled (hold_block frame s.pull) ++ undelivered (hold_block frame s.pull)
        ≡ filled s.pull ++ undelivered s.pull ++ interleaved_block frame
  unfolding hold_block
  behind free =
      ap (λ n. take (s.pull.pull_written_frames * n) (output_of s.pull) ++ interleaved_block frame)
        uniform
      ∙ ap (λ u. u ++ interleaved_block frame)
          (sym (append-nil (filled s.pull))
            ∙ ap (λ u. filled s.pull ++ samples_from s.pull.pull_pending_sample_offset u)
                (sym free))

  is_some-none : (o : Option (List ℤ)) → is_some o ≡ false → o ≡ none
  is_some-none none h = refl
  is_some-none (some xs) h = cc

  -- The drain that follows the block's arrival.
  held_block :
      (vm : Vm W)
      → exception_check vm ≡ false
      → frame.channels * frame.blocksize ≤ int_max
      → s.pull.pull_pending_samples ≡ none
      → PullWritten frame s (
          let (drained, s') =
            drain_decode_pull_pending (record s { vm = vm; pull = hold_block frame s.pull }) in
          (if drained then WriteStatus.continue else WriteStatus.abort, s'))
  unfolding hold_block
  held_block vm calm fits free =
      let s₀ = record s { vm = vm; pull = hold_block frame s.pull } in
      let (s', e, d) = drain_decode_pull_pending-Drained s₀ (hold_block-IsReading fits) calm in
      rw e (
        accepted s' d.reading
          (record {
            same_mode = d.same_request.same_mode;
            same_end = d.same_request.same_end;
            same_channels = d.same_request.same_channels ∙ uniform;
            same_requested = d.same_request.same_requested;
            same_capacity = d.same_request.same_capacity;
          })
          (d.same_samples ∙ behind free) d.advanced d.emitted (ap exception_check d.same_vm ∙ calm))

  -- In a read whose channel count the block has, with no exception pending, the pull write callback
  -- either accepts the block, whose samples then stand behind those that were there, or answers ABORT
  -- with an exception pending and the read's samples as they were.
  pub decode_pull_write_callback-PullWritten :
      PullWritten frame s (decode_pull_write_callback java frame s)
  unfolding decode_pull_write_callback
  decode_pull_write_callback-PullWritten =
      elim (Bool-cases (
        frame.channels == 0
        || frame.blocksize == 0
        || ltb uint32_max (frame.channels * frame.blocksize)
        || ltb int_max (frame.channels * frame.blocksize))) [
          | inl big ↦ rw big (refused _ refl refl refl)
          | inr small ↦ rw small (elim (Bool-cases (is_some s.pull.pull_pending_samples)) [
            | inl held ↦ rw held (refused _ refl refl refl)
            | inr free ↦
                rw free
                  (elim (Bool-cases (java.malloc (frame.channels * frame.blocksize) s.vm.world).1) [
                    | inl ok ↦ rw ok (held_block _ quiet (ground arith) (is_some-none _ free))
                    | inr failed ↦ rw failed (refused _ refl refl refl)
                  ])
          ])
        ]
