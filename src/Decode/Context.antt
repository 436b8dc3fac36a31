-- ===== src/Decode/Context.antt =====
-- native/src/jflac_jni.c: `struct DecodeContext` and the helpers that prepare and clear it. The
-- struct's groups of fields are records of their own. A Java reference is a flag that says whether
-- it is non-NULL, a method ID one that says whether it was resolved.
pub mod Zero
pub mod Channel
use java_kotlin_flac.Prelude.{
  ℕ, Bool, true, false, Option, none, some, List, ◌-◌, ◌+◌, if◌then◌else◌, ◌&&◌, ◌||◌, not,
}
use java_kotlin_flac.Prelude.Int.{ℤ, pos, ltb_ℤ}
use java_kotlin_flac.Jni.{
  Vm, Java, text, StreamInfo, call, exception_check, in_world, throw_decode_exception,
  throw_illegal_argument_exception,
}
use java_kotlin_flac.Flac.{ErrorStatus}

-- The input: an `InputStream`, or a `SeekableByteChannel` read from `channel_base_offset` on.
pub record Source : Type 0 where
  pub input_stream : Bool
  pub input_read : Bool
  pub input_stream_is_global : Bool
  pub seekable_channel : Bool
  pub channel_read : Bool
  pub channel_position : Bool
  pub channel_seek : Bool
  pub channel_size : Bool
  pub channel_base_offset : ℤ

-- What the metadata callback has learned, and the state of a chained Ogg decode.
pub record Stream : Type 0 where
  pub suppress_metadata : Bool
  pub saw_stream_info : Bool
  pub stream_total_samples : ℕ
  pub stream_info : StreamInfo
  pub decode_chained_ogg : Bool
  pub chained_link_count : ℕ
  pub chained_link_md5_failed : Bool
  pub current_link_total_samples : ℕ
  pub current_link_start_emitted_frames : ℕ

-- The range of the current operation, in frames.
pub record Range : Type 0 where
  pub range_limited : Bool
  pub max_frames : ℕ
  pub first_sample : ℕ
  pub emitted_frames : ℕ
  pub range_complete : Bool

-- `pull_output` is the Java array of the current read, and `pull_pending_samples` the native buffer.
pub record Pull : Type 0 where
  pub pull_mode : Bool
  pub pull_output : Option (List ℤ)
  pub pull_output_capacity_samples : ℕ
  pub pull_channels : ℕ
  pub pull_requested_frames : ℕ
  pub pull_written_frames : ℕ
  pub pull_end_of_stream : Bool
  pub pull_pending_samples : Option (List ℤ)
  pub pull_pending_sample_count : ℕ
  pub pull_pending_sample_offset : ℕ

pub record DecodeContext : Type 0 where
  pub consumer : Bool
  pub on_stream_info : Bool
  pub on_pcm_interleaved : Bool
  pub on_complete : Bool
  pub source : Source
  pub saw_error : Bool
  pub first_error_status : Option ErrorStatus
  pub stream : Stream
  pub range : Range
  pub pull : Pull

-- The methods that a consumer's class turned out to have.
pub record ConsumerMethods : Type 0 where
  pub has_stream_info : Bool
  pub has_pcm_interleaved : Bool
  pub has_complete : Bool

-- Resets the fields of the current operation; the result says whether every method was resolved.
-- The first argument is what `GetObjectClass` and the three `GetMethodID` calls find.
unfoldable pub prepare_decode_context :
    Option ConsumerMethods → DecodeContext → DecodeContext × Bool
prepare_decode_context none c = (c, false)
prepare_decode_context (some m) c = (
  record c {
    consumer = true;
    on_stream_info = m.has_stream_info;
    on_pcm_interleaved = m.has_pcm_interleaved;
    on_complete = m.has_complete;
    saw_error = false;
    stream = record c.stream { suppress_metadata = false };
    range = record {
      range_limited = false;
      max_frames = 0;
      first_sample = 0;
      emitted_frames = 0;
      range_complete = false;
    };
  },
  m.has_stream_info && m.has_pcm_interleaved && m.has_complete,
)

-- The pull fields after `free(context->pull_pending_samples)`.
unfoldable pub clear_decode_pull_pending : Pull → Pull
clear_decode_pull_pending p = record p {
  pull_pending_samples = none;
  pull_pending_sample_count = 0;
  pull_pending_sample_offset = 0;
}

module _ {W : Type 0} where
  abbrev delete_global_ref : Vm W → Vm W
  delete_global_ref vm = record vm {
    holdings = record vm.holdings { global_refs = vm.holdings.global_refs - 1 };
  }

  unfoldable pub clear_decode_seekable_channel : Source → Vm W → Source × Vm W
  clear_decode_seekable_channel s vm =
      if s.seekable_channel
      then (record s { seekable_channel = false }, delete_global_ref vm)
      else (s, vm)

  unfoldable pub clear_decode_input_stream : Source → Vm W → Source × Vm W
  clear_decode_input_stream s vm =
      if not s.input_stream_is_global || not s.input_stream
      then (s, vm)
      else (record s { input_stream = false; input_stream_is_global = false }, delete_global_ref vm)

  -- `GetObjectClass` and `GetMethodID` find the method `read` or fail, as the flag says.
  unfoldable pub prepare_decode_input_stream :
      Bool → Option Bool → Source → Vm W → Bool × Source × Vm W
  prepare_decode_input_stream false class s vm =
      (false, s, throw_illegal_argument_exception "Decoder input stream must not be null." vm)
  prepare_decode_input_stream true none s vm = (false, s, vm)
  prepare_decode_input_stream true (some has_read) s vm =
      (has_read, record s { input_stream = true; input_read = has_read }, vm)

module _ {W : Type 0} (java : Java W) where
  open java use {new_global_ref, channel_position as java_channel_position}

  -- `NewGlobalRef`: the flag says whether a reference was made.
  unfoldable pub add_global_ref : Vm W → Bool × Vm W
  add_global_ref vm =
      let (ok, vm') = in_world new_global_ref vm in
      (
        ok,
        if ok
            then record vm' {
              holdings = record vm'.holdings { global_refs = vm'.holdings.global_refs + 1 };
            }
            else vm',
      )

  unfoldable pub prepare_decode_input_stream_global :
      Bool → Option Bool → Source → Vm W → Bool × Source × Vm W
  unfolding prepare_decode_input_stream add_global_ref
  prepare_decode_input_stream_global stream class s vm =
      let (ok, s', vm') = prepare_decode_input_stream stream class s vm in
      if not ok
      then (false, s', vm')
      else (let (made, vm'') = add_global_ref vm' in
          if made
          then (true, record s' { input_stream = true; input_stream_is_global = true }, vm'')
          else (false, s', vm''))

  -- `class` says which of the four channel methods were found, or that a class was not.
  unfoldable pub prepare_decode_seekable_channel :
      Bool → Option (Bool × Bool × Bool × Bool) → Source → Vm W → Bool × Source × Vm W
  unfolding add_global_ref clear_decode_seekable_channel
  prepare_decode_seekable_channel false class s vm =
      (false, s, throw_illegal_argument_exception "Decoder seekable channel must not be null." vm)
  prepare_decode_seekable_channel true none s vm = (false, s, vm)
  prepare_decode_seekable_channel true (some (r, p, k, z)) s vm =
      let s₁ = record s {
        channel_read = r;
        channel_position = p;
        channel_seek = k;
        channel_size = z;
      } in
      if not (r && p && k && z)
      then (false, s₁, vm)
      else (let (made, vm₁) = add_global_ref vm in
          if not made
          then (false, record s₁ { seekable_channel = false }, vm₁)
          else (let (base, vm₂) = call (pos 0) java_channel_position vm₁ in
              let s₂ = record s₁ { seekable_channel = true; channel_base_offset = base } in
              let (s₃, vm₃) = clear_decode_seekable_channel s₂ vm₂ in
              if exception_check vm₂
              then (false, s₃, vm₃)
              else if ltb_ℤ base (pos 0)
              then (
                false,
                s₃,
                throw_decode_exception (text "SeekableByteChannel returned a negative position.")
                    vm₃,
              )
              else (true, s₂, vm₂)))
