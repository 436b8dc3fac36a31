-- ===== src/Decode/Callbacks.antt =====
-- native/src/jflac_jni.c: the metadata and error callbacks, and `run`, which carries out the
-- callbacks of a libFLAC call on the state that they share.
pub mod Pulls
pub mod Bounded
pub mod Balance
use java_kotlin_flac.Prelude.{
  ℕ, Bool, true, false, Option, none, some, List, [], ◌∷◌, ◌++◌, ◌-◌, ◌+◌, ◌*◌, ◌^◌, ◌==◌, ltb, leb,
  if◌then◌else◌, ◌||◌, ◌&&◌, not, int_max, u32, u64, String, replicate,
}
use java_kotlin_flac.Jni.{
  Vm, Java, Event, pcm_interleaved, stream_info, StreamInfo, text, call, in_world, exception_check,
  throw_decode_exception,
}
use java_kotlin_flac.Flac.{
  Frame, Metadata, streaminfo, other, ErrorStatus, lost_sync, bad_header, frame_crc_mismatch,
  unparseable_stream, bad_metadata, out_of_bounds, missing_frame, WriteStatus, continue, abort,
  ReadResult, SeekStatus, OffsetStatus, Process, finished, writes, describes, reports, reads, seeks,
  tells, measures, asks_eof,
}
use java_kotlin_flac.Decode.Context.{DecodeContext, Stream, Range}
use java_kotlin_flac.Decode.Source.{
  decode_read_callback, decode_channel_seek_callback, decode_channel_tell_callback,
  decode_channel_length_callback, decode_channel_eof_callback,
}
use java_kotlin_flac.Decode.Pull.{
  interleave, interleaved_block, decode_pull_write_callback, PullState,
}
use java_kotlin_flac.Decode.Write.{State, consumer_call, decode_write_callback}

-- STREAMINFO as it is shown to Java: of a chain only the PCM shape is kept.
unfoldable pub public_stream_info : Bool → StreamInfo → StreamInfo
public_stream_info chained i =
    if chained
    then record i {
      total_samples = 0;
      min_blocksize = 0;
      max_blocksize = 0;
      min_framesize = 0;
      max_framesize = 0;
      md5sum = replicate 16 0;
    }
    else i

abbrev pub same_pcm_shape : StreamInfo → StreamInfo → Bool
same_pcm_shape i first =
    i.sample_rate == first.sample_rate
    && i.channels == first.channels
    && i.bits_per_sample == first.bits_per_sample

-- The start of a link of a chain.
abbrev start_link : StreamInfo → ℕ → Stream → Stream
start_link i emitted_frames s = record s {
  current_link_total_samples = i.total_samples;
  current_link_start_emitted_frames = emitted_frames;
}

-- The stream's own STREAMINFO, as it is kept for later operations.
abbrev keep_stream_info : StreamInfo → Stream → Stream
keep_stream_info i s = record s {
  saw_stream_info = true;
  stream_total_samples = i.total_samples;
  stream_info = i;
}

module _ {W : Type 0} (java : Java W) where
  -- Forwards STREAMINFO to the consumer, unless there is none or it is not to hear of it.
  forward_stream_info : StreamInfo → State W → State W
  forward_stream_info i s =
      if not s.context.consumer || s.context.stream.suppress_metadata
      then s
      else (let (made, vm₁) = call false (java.new_stream_info i) s.vm in
          if not made
          then record s { vm = vm₁ }
          else record s { vm = consumer_call (stream_info i) java vm₁ })

  -- The STREAMINFO of a later link of a chain.
  next_link : StreamInfo → State W → State W
  unfolding throw_decode_exception
  next_link i s =
      if not (same_pcm_shape i s.context.stream.stream_info)
      then record s {
        vm =
            throw_decode_exception
              (text
                "Chained Ogg FLAC links must use the same sample rate, channel count, and bits per sample.")
              s.vm;
      }
      else record s {
        context = record s.context {
          stream = record s.context.stream {
            chained_link_count = u32 (s.context.stream.chained_link_count + 1);
          };
        };
      }

  abbrev with_stream : State W → Stream → State W
  with_stream s stream = record s { context = record s.context { stream = stream } }

  unfoldable pub decode_metadata_callback : Metadata → State W → State W
  unfolding next_link forward_stream_info public_stream_info
  decode_metadata_callback other s = s
  decode_metadata_callback (streaminfo i) s =
      if s.context.stream.decode_chained_ogg
      then (let link = start_link i s.context.range.emitted_frames s.context.stream in
          if ltb 0 link.chained_link_count
          then next_link i (with_stream s link)
          else forward_stream_info (public_stream_info true i)
              (with_stream s (keep_stream_info i (record link { chained_link_count = 1 }))))
      else forward_stream_info (public_stream_info false i)
          (with_stream s (keep_stream_info i s.context.stream))

unfoldable pub decoder_error_status_name : ErrorStatus → String
decoder_error_status_name lost_sync = "LOST_SYNC"
decoder_error_status_name bad_header = "BAD_HEADER"
decoder_error_status_name frame_crc_mismatch = "FRAME_CRC_MISMATCH"
decoder_error_status_name unparseable_stream = "UNPARSEABLE_STREAM"
decoder_error_status_name bad_metadata = "BAD_METADATA"
decoder_error_status_name out_of_bounds = "OUT_OF_BOUNDS"
decoder_error_status_name missing_frame = "MISSING_FRAME"

unfoldable pub decode_error_callback : ErrorStatus → DecodeContext → DecodeContext
decode_error_callback status c = record c {
  first_error_status = if c.saw_error then c.first_error_status else some status;
  saw_error = true;
}

module _ {W : Type 0} (java : Java W) where
  -- A block joins `delivered` if its callback answered CONTINUE.
  abbrev pub deliver : Frame → WriteStatus × State W → State W
  deliver frame (WriteStatus.continue, s) = record s { delivered = s.delivered ++ frame ∷ [] }
  deliver frame (WriteStatus.abort, s) = s

  abbrev pub with_vm : {A : Type 0} → State W → A × Vm W → State W
  with_vm s (a, vm) = record s { vm = vm }

  -- Carries out the callbacks of one libFLAC call, on the calling thread and in their order.
  unfoldable pub run : {D : Type 0} → Process D → State W → Bool × D × State W
  run (finished success d) s = (success, d, s)
  run (writes frame k) s =
      let r = decode_write_callback java frame s in run (k r.0) (deliver frame r)
  run (describes m k) s = run k (decode_metadata_callback java m s)
  run (reports e k) s = run k (record s { context = decode_error_callback e s.context })
  run (reads n k) s =
      let r = decode_read_callback java (some n) s.context.source s.vm in run (k r.0) (with_vm s r)
  run (seeks n k) s =
      let r = decode_channel_seek_callback java n s.context.source s.vm in run (k r.0) (with_vm s r)
  run (tells k) s =
      let r = decode_channel_tell_callback java true s.context.source s.vm in
      run (k r.0) (with_vm s r)
  run (measures k) s =
      let r = decode_channel_length_callback java true s.context.source s.vm in
      run (k r.0) (with_vm s r)
  run (asks_eof k) s =
      let r = decode_channel_eof_callback java s.context.source s.vm in run (k r.0) (with_vm s r)
