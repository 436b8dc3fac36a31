-- ===== src/Decode/OneShot/Inputs.antt =====
-- native/src/jflac_jni.c: the one-shot decodes of a file, a stream and a channel.
pub mod Balance
pub mod Reports
pub mod Files
pub mod Channels
use java_kotlin_flac.Prelude.{
  ℕ, Bool, true, false, Option, none, some, List, [], if◌then◌else◌, ◌&&◌, not, is_some,
}
use java_kotlin_flac.Prelude.Int.{ℤ, pos}
use java_kotlin_flac.Jni.{Vm, Java, text, exception_check, throw_decode_exception}
use java_kotlin_flac.Flac.{Flac, Process}
use java_kotlin_flac.Text.{c_string, jstring_to_utf8}
use java_kotlin_flac.Entry.{Loading, check_entry}
use java_kotlin_flac.Decode.Context.{
  DecodeContext, ConsumerMethods, prepare_decode_context, prepare_decode_input_stream,
  prepare_decode_seekable_channel, clear_decode_seekable_channel,
}
use java_kotlin_flac.Decode.Context.Zero.{zero_context}
use java_kotlin_flac.Decode.Range.{configure_decode_range}
use java_kotlin_flac.Decode.Write.{State}
use java_kotlin_flac.Decode.Callbacks.{run}
use java_kotlin_flac.Decode.Coder.{
  init_file_decoder_for_container, init_stream_decoder_for_container,
}
use java_kotlin_flac.Decode.OneShot.{Wording, Request, validate_range_request, decode_with_decoder}

abbrev file_wording : Wording
file_wording = record {
  failed = "FLAC decoding failed";
  reading_metadata = "FLAC decoding failed while reading metadata";
  seeking = "FLAC decoding failed while seeking";
  finishing = "FLAC decoding failed while finishing";
  allocating = "Failed to allocate FLAC decoder.";
  initializing = "Failed to initialize FLAC decoder.";
}

abbrev stream_wording : Wording
stream_wording = record {
  failed = "FLAC stream decoding failed";
  -- a stream is decoded from its start
  reading_metadata = "";
  seeking = "";
  finishing = "FLAC stream decoding failed while finishing";
  allocating = "Failed to allocate FLAC stream decoder.";
  initializing = "Failed to initialize FLAC stream decoder.";
}

abbrev channel_wording : Wording
channel_wording = record {
  failed = "FLAC channel decoding failed";
  reading_metadata = "FLAC channel decoding failed while reading metadata";
  seeking = "FLAC channel decoding failed while seeking";
  finishing = "FLAC channel decoding failed while finishing";
  allocating = "Failed to allocate FLAC channel decoder.";
  initializing = "Failed to initialize FLAC channel decoder.";
}

-- The request of a whole decode.
abbrev pub whole : ℤ → Bool → Bool → Request
whole container check_md5 decode_chained_ogg = record {
  container = container;
  check_md5 = check_md5;
  decode_chained_ogg = decode_chained_ogg;
  first_sample = pos 0;
  max_frames = pos 0;
  seek_before_decode = false;
  range_limited = false;
}

abbrev pub Consumer : Type 0
Consumer = Option (Option ConsumerMethods)

-- What the lookups in the class of a reference find; a NULL reference has no class.
abbrev pub class_of : {A : Type 0} → Option (Option A) → Option A
class_of none = none
class_of (some found) = found

-- A cleared context, with the consumer; the flag says whether its methods were found.
abbrev pub fresh_context : Bool → Consumer → DecodeContext × Bool
fresh_context decode_chained_ogg consumer =
    prepare_decode_context (class_of consumer) (record zero_context {
      stream = record zero_context.stream { decode_chained_ogg = decode_chained_ogg };
    })

abbrev with_range : Request → DecodeContext → DecodeContext
with_range q c = record c {
  range = configure_decode_range q.first_sample q.range_limited q.max_frames;
}

module _ {W : Type 0} where
  abbrev keep_input : State W → State W
  keep_input s = s

  -- `clear_decode_seekable_channel`
  unfoldable pub clear_channel : State W → State W
  unfolding clear_decode_seekable_channel
  clear_channel s =
      let (source, vm) = clear_decode_seekable_channel s.context.source s.vm in
      record s { vm = vm; context = record s.context { source = source } }

  abbrev fresh_state : DecodeContext → Vm W → State W
  fresh_state c vm = record { vm = vm; context = c; delivered = [] }

  abbrev last_vm : Option (State W) → Option (Vm W)
  last_vm none = none
  last_vm (some s) = some s.vm

module _ {W D : Type 0} (java : Java W) (flac : Flac D) (loading : Loading) (fuel : ℕ)
    (created : Option D) where
  decode_path : Request → List ℕ → Consumer → Vm W → Option (Vm W)
  unfolding decode_with_decoder init_file_decoder_for_container prepare_decode_context
      configure_decode_range c_string
  decode_path q utf8_path consumer vm =
      let (c, prepared) = fresh_context q.decode_chained_ogg consumer in
      if not prepared
      then some vm
      else last_vm (
          decode_with_decoder java flac fuel file_wording q keep_input
            (init_file_decoder_for_container flac q.container (c_string utf8_path)) created
            (fresh_state (with_range q c) vm))

  -- The decode of a path that was converted, or the exception where it could not be.
  decode_utf8_path : Request → Consumer → Option (List ℕ) × Vm W → Option (Vm W)
  unfolding decode_path throw_decode_exception
  decode_utf8_path q consumer (none, vm) = some (
      if exception_check vm
      then vm
      else throw_decode_exception (text "Failed to encode file path to UTF-8.") vm)
  decode_utf8_path q consumer (some utf8_path, vm) = decode_path q utf8_path consumer vm

  unfoldable pub decode_file_internal :
      Request → Bool → Option (List ℕ) → Consumer → Vm W → Option (Vm W)
  unfolding decode_utf8_path check_entry validate_range_request jstring_to_utf8
  decode_file_internal q lookups path consumer vm =
      let (ready, vm₁) =
        check_entry loading q.container (is_some path && is_some consumer)
          "Decoder path and consumer must not be null." vm in
      if not ready
      then some vm₁
      else (let (valid, vm₂) = validate_range_request q vm₁ in
          if not valid
          then some vm₂
          else decode_utf8_path q consumer (jstring_to_utf8 java lookups path vm₂))

  -- `has_read` says whether the stream's class and its method `read` are found; `none` is a NULL stream.
  unfoldable pub decode_stream_internal :
      ℤ → Bool → Bool → Option (Option Bool) → Consumer → Vm W → Option (Vm W)
  unfolding decode_with_decoder init_stream_decoder_for_container prepare_decode_context
      prepare_decode_input_stream check_entry
  decode_stream_internal container check_md5 decode_chained_ogg input_stream consumer vm =
      let (ready, vm₁) =
        check_entry loading container (is_some input_stream && is_some consumer)
          "Decoder input stream and consumer must not be null." vm in
      if not ready
      then some vm₁
      else (let (c, prepared) = fresh_context decode_chained_ogg consumer in
          if not prepared
          then some vm₁
          else (let (opened, source, vm₂) =
                prepare_decode_input_stream (is_some input_stream) (class_of input_stream) c.source
                  vm₁ in
              if not opened
              then some vm₂
              else last_vm (
                  decode_with_decoder java flac fuel stream_wording
                    (whole container check_md5 decode_chained_ogg) keep_input
                    (init_stream_decoder_for_container flac container false) created
                    (fresh_state (record c { source = source }) vm₂))))

  -- `channel` is what the lookups in the channel's class find; `none` is a NULL channel.
  unfoldable pub decode_channel_internal :
      Request → Option (Option (Bool × Bool × Bool × Bool)) → Consumer → Vm W → Option (Vm W)
  unfolding decode_with_decoder init_stream_decoder_for_container prepare_decode_context
      prepare_decode_seekable_channel check_entry validate_range_request clear_channel
      configure_decode_range
  decode_channel_internal q channel consumer vm =
      let (ready, vm₁) =
        check_entry loading q.container (is_some channel && is_some consumer)
          "Decoder seekable channel and consumer must not be null." vm in
      if not ready
      then some vm₁
      else (let (valid, vm₂) = validate_range_request q vm₁ in
          if not valid
          then some vm₂
          else (let (c, prepared) = fresh_context q.decode_chained_ogg consumer in
              if not prepared
              then some (clear_channel (fresh_state c vm₂)).vm
              else (let (opened, source, vm₃) =
                    prepare_decode_seekable_channel java (is_some channel) (class_of channel)
                      c.source vm₂ in
                  if not opened
                  then some (clear_channel (fresh_state (record c { source = source }) vm₃)).vm
                  else last_vm (
                      decode_with_decoder java flac fuel channel_wording q clear_channel
                        (init_stream_decoder_for_container flac q.container true) created
                        (fresh_state (with_range q (record c { source = source })) vm₃)))))
