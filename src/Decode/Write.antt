-- ===== src/Decode/Write.antt =====
-- native/src/jflac_jni.c: the write callback, which hands decoded blocks to the consumer or, in a
-- pull session, to the pending buffer.
pub mod Crop
pub mod Balance
use java_kotlin_flac.Prelude.{
  ℕ, true, false, Option, none, some, List, [], ◌∷◌, ◌++◌, ◌-◌, ◌+◌, ◌*◌, ◌^◌, ◌==◌, ltb, leb,
  if◌then◌else◌, ◌||◌, ◌&&◌, not, int_max, u32, u64,
}
use java_kotlin_flac.Jni.{
  Vm, Java, Event, pcm_interleaved, text, call, in_world, exception_check, throw_decode_exception,
}
use java_kotlin_flac.Flac.{Frame, WriteStatus}
use java_kotlin_flac.Decode.Context.{DecodeContext, Range}
use java_kotlin_flac.Decode.Pull.{interleave, decode_pull_write_callback}

-- The state that the callbacks of one libFLAC call share. `delivered` lists the blocks for which the
-- write callback answered CONTINUE, the oldest first; the program keeps no such list.
pub record State (W : Type 0) : Type 0 where
  pub vm : Vm W
  pub context : DecodeContext
  pub delivered : List Frame

-- The number of frames of a block that belong to the range, or `none` where it is full.
unfoldable pub cropped_frames : Range → ℕ → Option ℕ
cropped_frames r frames =
    if not r.range_limited
    then some frames
    else (let remaining = u64 (r.max_frames + 2 ^ 64 - r.emitted_frames) in
        if remaining == 0
        then none
        else some (if ltb remaining frames then u32 remaining else frames))

-- The counters after a delivery of `output_frames` frames.
unfoldable pub count_emitted : ℕ → Range → Range
count_emitted output_frames r =
    let emitted = u64 (r.emitted_frames + output_frames) in
    record r {
      emitted_frames = emitted;
      range_complete =
          if r.range_limited && leb r.max_frames emitted then true else r.range_complete;
    }

module _ {W : Type 0} where
  abbrev pub consumer_call : Event → Java W → Vm W → Vm W
  consumer_call e java vm =
      let vm' = (call tt (java.consume e) vm).1 in record vm' { heard = vm.heard ++ e ∷ [] }

module _ {W : Type 0} (java : Java W) where
  -- Copies the first `output_frames` frames to a Java array and hands it to the consumer.
  deliver_frames : Frame → ℕ → State W → WriteStatus × State W
  unfolding count_emitted throw_decode_exception
  deliver_frames frame output_frames s =
      let sample_count = frame.channels * output_frames in
      if frame.channels == 0 || output_frames == 0 || ltb int_max sample_count
      then (
        WriteStatus.abort,
        record s {
          vm =
              throw_decode_exception (text "Decoded PCM frame is too large for one JVM IntArray.")
                s.vm;
        },
      )
      else (let (samples, vm₁) = call false (java.new_array sample_count) s.vm in
          if not samples
          then (WriteStatus.abort, record s { vm = vm₁ })
          else (let (allocated, vm₂) = in_world (java.malloc sample_count) vm₁ in
              if not allocated
              then (
                WriteStatus.abort,
                record s {
                  vm = throw_decode_exception (text "Failed to allocate PCM buffer.") vm₂;
                },
              )
              else if exception_check vm₂
              then (WriteStatus.abort, record s { vm = vm₂ })
              else (let vm₃ =
                    consumer_call
                      (pcm_interleaved (interleave frame.buffer frame.channels 0 output_frames)
                        output_frames)
                      java vm₂ in
                  if exception_check vm₃ then (WriteStatus.abort, record s { vm = vm₃ }) else (
                    WriteStatus.continue,
                    record s {
                      vm = vm₃;
                      context = record s.context {
                        range = count_emitted output_frames s.context.range;
                      };
                    },
                  ))))

  -- The push path of the write callback: nothing is delivered once the range is full.
  write_cropped : Frame → Option ℕ → State W → WriteStatus × State W
  unfolding deliver_frames
  write_cropped frame none s = (
    WriteStatus.continue,
    record s {
      context = record s.context { range = record s.context.range { range_complete = true } };
    },
  )
  write_cropped frame (some output_frames) s = deliver_frames frame output_frames s

  pub pull_write : Frame → State W → WriteStatus × State W
  pull_write frame s =
      let (status, p) =
        decode_pull_write_callback java frame
          (record { vm = s.vm; range = s.context.range; pull = s.context.pull }) in
      (
        status,
        record s { vm = p.vm; context = record s.context { range = p.range; pull = p.pull } },
      )

  unfoldable pub decode_write_callback : Frame → State W → WriteStatus × State W
  unfolding write_cropped pull_write cropped_frames
  decode_write_callback frame s =
      if exception_check s.vm
      then (WriteStatus.abort, s)
      else if s.context.saw_error
      then (WriteStatus.abort, s)
      else if s.context.pull.pull_mode
      then pull_write frame s
      else write_cropped frame (cropped_frames s.context.range frame.blocksize) s
