-- ===== src/Decode/Pull.antt =====
-- native/src/jflac_jni.c: pull decoding. libFLAC delivers whole blocks; what one Java read does not
-- take stays in the pending buffer, and the next read continues there.
pub mod Balance
pub mod Interleave
pub mod View
pub mod Copy
pub mod Drain
pub mod Block
use java_kotlin_flac.Prelude.{
  ℕ, zero, suc, Bool, true, false, Option, none, some, List, [], ◌∷◌, ◌++◌, ◌-◌, ◌+◌, ◌*◌, ◌/◌, ◌^◌,
  ◌==◌, ltb, leb, if◌then◌else◌, ◌||◌, not, is_some, int_max, uint32_max, take, drop, length, u32,
  u64,
}
use java_kotlin_flac.Prelude.Int.{ℤ}
use java_kotlin_flac.Jni.{
  Vm, Java, raised, text, throw, in_world, exception_check, throw_decode_exception,
  throw_illegal_argument_exception,
}
use java_kotlin_flac.Flac.{Frame, WriteStatus, continue, abort}
use java_kotlin_flac.Decode.Context.{Range, Pull, clear_decode_pull_pending}

-- The samples of frames `i`, `i + 1`, … in turn, `channel_row` the `n` last channels of one frame.
channel_row : (ℕ → ℕ → ℤ) → ℕ → ℕ → ℕ → List ℤ
channel_row buffer i c zero = []
channel_row buffer i c (suc n) = buffer c i ∷ channel_row buffer i (c + 1) n

unfoldable pub interleave : (ℕ → ℕ → ℤ) → ℕ → ℕ → ℕ → List ℤ
unfolding channel_row
interleave buffer channels i zero = []
interleave buffer channels i (suc n) =
    channel_row buffer i 0 channels ++ interleave buffer channels (i + 1) n

-- All the samples of a block, in the order of the two loops of the write callbacks.
abbrev pub interleaved_block : Frame → List ℤ
interleaved_block f = interleave f.buffer f.channels 0 f.blocksize

-- What a drain works on: the machine, the range's counters and the pull fields.
pub record PullState (W : Type 0) : Type 0 where
  pub vm : Vm W
  pub range : Range
  pub pull : Pull

-- `SetIntArrayRegion`: `none` where the region does not lie in the array, and it then throws.
unfoldable pub set_int_array_region : List ℤ → ℕ → List ℤ → Option (List ℤ)
set_int_array_region array start samples =
    if ltb (length array) (start + length samples)
    then none
    else some (take start array ++ samples ++ drop (start + length samples) array)

-- A pull read has set the output array before it drains; `[]` stands for none.
abbrev pub output_of : Pull → List ℤ
output_of p = elim p.pull_output [ none ↦ [] | some output ↦ output ]

-- Stores a block as the pending buffer.
unfoldable pub hold_block : Frame → Pull → Pull
hold_block frame p = record p {
  pull_channels = frame.channels;
  pull_pending_samples = some (interleaved_block frame);
  pull_pending_sample_count = u32 (frame.channels * frame.blocksize);
  pull_pending_sample_offset = 0;
}

module _ {W : Type 0} where
  -- The state after the copy, with an emptied buffer given back.
  after_copy : PullState W → List ℤ → ℕ → ℕ → PullState W
  unfolding clear_decode_pull_pending
  after_copy s output copy_samples copy_frames =
      let p = record s.pull {
        pull_output = some output;
        pull_pending_sample_offset = u32 (s.pull.pull_pending_sample_offset + copy_samples);
        pull_written_frames = u32 (s.pull.pull_written_frames + copy_frames);
      } in
      record s {
        range = record s.range { emitted_frames = u64 (s.range.emitted_frames + copy_frames) };
        pull =
            if leb p.pull_pending_sample_count p.pull_pending_sample_offset
            then clear_decode_pull_pending p
            else p;
      }

  copy_region : PullState W → Option (List ℤ) → ℕ → ℕ → Bool × PullState W
  unfolding after_copy
  copy_region s none copy_samples copy_frames = (false, record s { vm = throw (raised 0) s.vm })
  copy_region s (some output) copy_samples copy_frames =
      if exception_check s.vm
      then (false, record s { pull = record s.pull { pull_output = some output } })
      else (true, after_copy s output copy_samples copy_frames)

  -- The copy of a drain, once there is something to copy and room for it.
  pub drain_pending : PullState W → List ℤ → List ℤ → ℕ → Bool × PullState W
  unfolding copy_region set_int_array_region throw_illegal_argument_exception
  drain_pending s output samples remaining_request =
      let p = s.pull in
      let available_samples =
        u32 (p.pull_pending_sample_count + 2 ^ 32 - p.pull_pending_sample_offset) in
      let available_frames = available_samples / p.pull_channels in
      let copy_frames =
        if ltb available_frames remaining_request then available_frames else remaining_request in
      let copy_samples = u32 (copy_frames * p.pull_channels) in
      let output_offset_samples = u32 (p.pull_written_frames * p.pull_channels) in
      if ltb p.pull_output_capacity_samples (output_offset_samples + copy_samples)
      then (
        false,
        record s {
          vm =
              throw_illegal_argument_exception
                "Interleaved sample buffer must fit maxFrames * channels." s.vm;
        },
      )
      else copy_region s
          (set_int_array_region output output_offset_samples
            (take copy_samples (drop p.pull_pending_sample_offset samples)))
          copy_samples copy_frames

  drain_samples : PullState W → Option (List ℤ) → Bool × PullState W
  unfolding drain_pending clear_decode_pull_pending throw_decode_exception
  drain_samples s none = (true, record s { pull = clear_decode_pull_pending s.pull })
  drain_samples s (some samples) =
      let p = s.pull in
      if leb p.pull_pending_sample_count p.pull_pending_sample_offset
      then (true, record s { pull = clear_decode_pull_pending p })
      else if p.pull_channels == 0
      then (
        false,
        record s { vm = throw_decode_exception (text "Pull decoder has no channel count.") s.vm },
      )
      else (let remaining_request =
            u32 (p.pull_requested_frames + 2 ^ 32 - p.pull_written_frames) in
          if remaining_request == 0
          then (true, s)
          else drain_pending s (output_of p) samples remaining_request)

  unfoldable pub drain_decode_pull_pending : PullState W → Bool × PullState W
  unfolding drain_samples
  drain_decode_pull_pending s = drain_samples s s.pull.pull_pending_samples

module _ {W : Type 0} (java : Java W) where
  unfoldable pub decode_pull_write_callback : Frame → PullState W → WriteStatus × PullState W
  unfolding throw_decode_exception
  decode_pull_write_callback frame s =
      let sample_count = frame.channels * frame.blocksize in
      if frame.channels == 0
        || frame.blocksize == 0
        || ltb uint32_max sample_count
        || ltb int_max sample_count
      then (
        WriteStatus.abort,
        record s {
          vm =
              throw_decode_exception
                (text "Decoded PCM frame is too large for one native pull buffer.") s.vm;
        },
      )
      else if is_some s.pull.pull_pending_samples
      then (
        WriteStatus.abort,
        record s {
          vm =
              throw_decode_exception
                (text "Pull decoder still has pending PCM before receiving a new block.") s.vm;
        },
      )
      else (let (allocated, vm') = in_world (java.malloc sample_count) s.vm in
          if not allocated
          then (
            WriteStatus.abort,
            record s {
              vm = throw_decode_exception (text "Failed to allocate pull PCM buffer.") vm';
            },
          )
          else (let (drained, s') =
                drain_decode_pull_pending (record s { vm = vm'; pull = hold_block frame s.pull }) in
              (if drained then WriteStatus.continue else WriteStatus.abort, s')))
