-- ===== src/Tests.antt =====
-- Concrete runs of the decoder's model: a Java machine that answers every call, a stream of blocks of
-- three stereo frames, and the theorems applied to them.
mod Pulls
mod Inputs
mod Registry
mod Ranges
mod OneShot
mod Opening
mod Encoder
use java_kotlin_flac.Prelude.{
  ℕ, zero, suc, Bool, true, false, Option, none, some, List, [], ◌∷◌, ◌+◌, ◌*◌, ◌≡◌, refl, inl, inr,
  ◌<◌, ◌⊎◌, arith,
}
use java_kotlin_flac.Prelude.Int.{ℤ, pos, negsuc}
use java_kotlin_flac.Jni.{Java, Vm, Holdings, StreamInfo, Outcome, returned}
use java_kotlin_flac.Flac.{
  Flac, Frame, Process, finished, writes, describes, streaminfo, DecoderState, WriteStatus,
}
use java_kotlin_flac.Decode.Context.{Source, Stream, Range, Pull, DecodeContext}
use java_kotlin_flac.Decode.Write.{State}
use java_kotlin_flac.Decode.Read.Continuity.{Progress, Finishes}

abbrev if_any : ℕ → ℤ
if_any zero = pos 0
if_any (suc n) = pos 1

abbrev position_of : ℤ → ℕ → ℕ
position_of (pos n) w = n
position_of (negsuc n) w = w

-- The world is the position of the channel.
abbrev pub java : Java ℕ
java = record {
  stream_read = λ n w. (w, returned (pos 1, 7 ∷ []));
  channel_read = λ n w. (w, returned (if_any n, 7 ∷ []));
  channel_position = λ w. (w, returned (pos w));
  channel_seek = λ z w. (position_of z w, returned tt);
  channel_size = λ w. (w, returned (pos 100));
  channel_write = λ bytes w. (w, returned (pos 1, 1));
  stream_write = λ bytes w. (w, returned tt);
  stream_flush = λ w. (w, returned tt);
  consume = λ e w. (w, returned tt);
  new_array = λ n w. (w, returned true);
  new_stream_info = λ i w. (w, returned true);
  get_bytes_utf8 = λ units w. (w, returned (some units));
  new_string = λ bytes w. (w, returned true);
  new_global_ref = λ w. (w, true);
  malloc = λ n w. (w, true);
}

abbrev pub info : StreamInfo
info = record {
  min_blocksize = 3;
  max_blocksize = 3;
  min_framesize = 0;
  max_framesize = 0;
  sample_rate = 44100;
  channels = 2;
  bits_per_sample = 16;
  total_samples = 0;
  md5sum = [];
}

abbrev pub block : Frame
block = record { channels = 2; blocksize = 3; buffer = λ c i. pos (10 * i + c) }

abbrev pub single : ℕ → Process ℕ
single zero = finished true 0
single (suc d) = writes block (λ status. finished true d)

abbrev state_of : ℕ → DecoderState
state_of zero = DecoderState.end_of_stream
state_of (suc d) = DecoderState.searching

-- A decoder whose state is the number of blocks that are left.
abbrev pub flac : Flac ℕ
flac = record {
  process_single = single;
  process_until_end_of_stream = λ d. finished true 0;
  process_until_end_of_link = λ d. finished true 0;
  seek_absolute = λ n d. finished true d;
  finish_link = λ d. finished true d;
  get_state = state_of;
  get_resolved_state_string = λ d. none;
  set_md5_checking = λ d. (true, d);
  set_decode_chained_stream = λ d. (true, d);
  init_file = λ path d. finished true d;
  init_ogg_file = λ path d. finished true d;
  init_stream = λ seekable d. finished true d;
  init_ogg_stream = λ seekable d. finished true d;
  process_until_end_of_metadata = λ d. describes (streaminfo info) (finished true d);
  finish = λ d. finished true d;
}

flac-advances :
    (d : ℕ)
    → Finishes
        (λ success d'.
          (d' < d)
          ⊎ (success ≡ false)
          ⊎ (flac.get_state d' ≡ DecoderState.end_of_stream)
          ⊎ (flac.get_state d' ≡ DecoderState.aborted))
        (flac.process_single d)
flac-advances zero = inr (inr (inl refl))
flac-advances (suc d) = λ status. inl (omega arith)

pub flac-Progress : Progress flac (λ d. d)
flac-Progress = record { advances = flac-advances }

abbrev pub none_held : Holdings
none_held = record { global_refs = 0; decoders = 0; encoders = 0; metadata_blocks = 0 }

abbrev pub vm : Vm ℕ
vm = record { world = 0; pending = none; heard = []; holdings = none_held }

abbrev pub channel_source : Source
channel_source = record {
  input_stream = false;
  input_read = false;
  input_stream_is_global = false;
  seekable_channel = true;
  channel_read = true;
  channel_position = true;
  channel_seek = true;
  channel_size = true;
  channel_base_offset = pos 5;
}

abbrev pub stream : Stream
stream = record {
  suppress_metadata = false;
  saw_stream_info = true;
  stream_total_samples = 0;
  stream_info = info;
  decode_chained_ogg = false;
  chained_link_count = 0;
  chained_link_md5_failed = false;
  current_link_total_samples = 0;
  current_link_start_emitted_frames = 0;
}

abbrev pub range : Range
range = record {
  range_limited = false;
  max_frames = 0;
  first_sample = 0;
  emitted_frames = 0;
  range_complete = false;
}

-- A pull session that holds the samples `samples`, from `offset` on.
abbrev pub pull : Option (List ℤ) → ℕ → ℕ → Option (List ℤ) → ℕ → Pull
pull samples count offset output capacity = record {
  pull_mode = true;
  pull_output = output;
  pull_output_capacity_samples = capacity;
  pull_channels = 2;
  pull_requested_frames = 4;
  pull_written_frames = 0;
  pull_end_of_stream = false;
  pull_pending_samples = samples;
  pull_pending_sample_count = count;
  pull_pending_sample_offset = offset;
}

abbrev pub context : Pull → DecodeContext
context p = record {
  consumer = false;
  on_stream_info = false;
  on_pcm_interleaved = false;
  on_complete = false;
  source = channel_source;
  saw_error = false;
  first_error_status = none;
  stream = stream;
  range = range;
  pull = p;
}

abbrev pub state : Pull → State ℕ
state p = record { vm = vm; context = context p; delivered = [] }

abbrev pub eight : List ℤ
eight = pos 0 ∷ pos 0 ∷ pos 0 ∷ pos 0 ∷ pos 0 ∷ pos 0 ∷ pos 0 ∷ pos 0 ∷ []

-- Between two reads: one frame of a block is left.
abbrev pub left_over : Pull
left_over = pull (some (pos 1 ∷ pos 2 ∷ pos 3 ∷ pos 4 ∷ [])) 4 2 none 0

-- In a read of four frames.
abbrev pub reading : Pull
reading = pull (some (pos 1 ∷ pos 2 ∷ pos 3 ∷ pos 4 ∷ [])) 4 2 (some eight) 8

abbrev pub reading_empty : Pull
reading_empty = pull none 0 0 (some eight) 8
