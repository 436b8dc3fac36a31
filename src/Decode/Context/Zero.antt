-- ===== src/Decode/Context/Zero.antt =====
-- native/src/jflac_jni.c: a `DecodeContext` that `memset` or `calloc` has cleared.
use java_kotlin_flac.Prelude.{false, none, replicate}
use java_kotlin_flac.Prelude.Int.{pos}
use java_kotlin_flac.Jni.{StreamInfo}
use java_kotlin_flac.Decode.Context.{Source, DecodeContext}

abbrev pub zero_stream_info : StreamInfo
zero_stream_info = record {
  min_blocksize = 0;
  max_blocksize = 0;
  min_framesize = 0;
  max_framesize = 0;
  sample_rate = 0;
  channels = 0;
  bits_per_sample = 0;
  total_samples = 0;
  md5sum = replicate 16 0;
}

abbrev pub zero_source : Source
zero_source = record {
  input_stream = false;
  input_read = false;
  input_stream_is_global = false;
  seekable_channel = false;
  channel_read = false;
  channel_position = false;
  channel_seek = false;
  channel_size = false;
  channel_base_offset = pos 0;
}

abbrev pub zero_context : DecodeContext
zero_context = record {
  consumer = false;
  on_stream_info = false;
  on_pcm_interleaved = false;
  on_complete = false;
  source = zero_source;
  saw_error = false;
  first_error_status = none;
  stream = record {
    suppress_metadata = false;
    saw_stream_info = false;
    stream_total_samples = 0;
    stream_info = zero_stream_info;
    decode_chained_ogg = false;
    chained_link_count = 0;
    chained_link_md5_failed = false;
    current_link_total_samples = 0;
    current_link_start_emitted_frames = 0;
  };
  range = record {
    range_limited = false;
    max_frames = 0;
    first_sample = 0;
    emitted_frames = 0;
    range_complete = false;
  };
  pull = record {
    pull_mode = false;
    pull_output = none;
    pull_output_capacity_samples = 0;
    pull_channels = 0;
    pull_requested_frames = 0;
    pull_written_frames = 0;
    pull_end_of_stream = false;
    pull_pending_samples = none;
    pull_pending_sample_count = 0;
    pull_pending_sample_offset = 0;
  };
}
