-- ===== src/Encode/Output.antt =====
-- native/src/jflac_jni.c: the output of an encoder, an `OutputStream` or a `SeekableByteChannel`, and
-- libFLAC's callbacks on it. A Java reference is a flag that says whether it is non-NULL.
pub mod Balance
use java_kotlin_flac.Prelude.{
  ℕ, zero, suc, Bool, true, false, Option, none, some, List, ◌+◌, ◌==◌, ltb, leb, if◌then◌else◌,
  ◌||◌, ◌&&◌, not, int_max, llong_max, length, drop, take,
}
use java_kotlin_flac.Prelude.Int.{ℤ, pos, ltb_ℤ, to_u64, ◌-ℤ◌, ◌+ℤ◌, pos_part}
use java_kotlin_flac.Jni.{
  Vm, Java, text, call, exception_check, throw_encode_exception, throw_illegal_argument_exception,
}
use java_kotlin_flac.Flac.{SeekStatus, OffsetStatus, ReadResult, ReadStatus}
use java_kotlin_flac.Decode.Context.{add_global_ref}
use java_kotlin_flac.Decode.Source.{no_bytes, zero_read_of}

pub data EncodeStatus : Type 0 where
  ok fatal_error : EncodeStatus

-- `jvm` is the pointer, and `attached` says whether `GetEnv` finds the calling thread attached.
pub record Output : Type 0 where
  pub jvm : Bool
  pub attached : Bool
  pub output_stream : Bool
  pub output_write : Bool
  pub output_flush : Bool
  pub output_channel : Bool
  pub channel_read : Bool
  pub channel_write : Bool
  pub channel_position : Bool
  pub channel_seek : Bool
  pub channel_base_offset : ℤ

-- Whether there is a `JNIEnv` for the callback.
unfoldable pub encode_context_env : Output → Bool
encode_context_env o = o.jvm && o.attached

module _ {W : Type 0} (java : Java W) where
  open java use {
    new_array, stream_write as java_stream_write, channel_write as java_channel_write,
    channel_read as java_channel_read, channel_position as java_position, channel_seek as java_seek,
  }

  -- One `write` of what the buffer has left: the result, and by how much its position has advanced.
  abbrev pub write_rest : List ℕ → Vm W → (ℤ × ℕ) × Vm W
  write_rest rest vm = call (pos 0, 0) (java_channel_write rest) vm

  -- The loop over partial writes, on fuel: `rest` is what the buffer has left. The sum stays below
  -- twice `INT_MAX`, so that no `size_t` wraps around.
  unfoldable pub write_loop : ℕ → ℕ → ℕ → List ℕ → Vm W → Option (EncodeStatus × Vm W)
  unfolding throw_encode_exception
  write_loop zero written_total bytes rest vm = none
  write_loop (suc fuel) written_total bytes rest vm =
      let ((written, advance), vm₁) = write_rest rest vm in
      let again =
        write_loop fuel (written_total + pos_part written) bytes (drop advance rest) vm₁ in
      if leb bytes written_total
      then some (ok, vm)
      else if exception_check vm₁
      then some (fatal_error, vm₁)
      else if not (ltb_ℤ (pos 0) written)
      then some (
        fatal_error,
        throw_encode_exception
            (text "SeekableByteChannel returned zero bytes for a non-empty write request.") vm₁,
      )
      else again

  unfoldable pub encode_channel_write_callback :
      ℕ → List ℕ → Output → Vm W → Option (EncodeStatus × Vm W)
  unfolding write_loop encode_context_env throw_encode_exception
  encode_channel_write_callback fuel buffer o vm =
      if not (encode_context_env o) || not o.output_channel || not o.channel_write
      then some (fatal_error, vm)
      else if exception_check vm
      then some (fatal_error, vm)
      else if ltb int_max (length buffer)
      then some (
        fatal_error,
        throw_encode_exception (text "Encoded FLAC chunk is too large for one ByteBuffer.") vm,
      )
      else (let (byte_buffer, vm₁) = call false (new_array (length buffer)) vm in
          if not byte_buffer
          then some (fatal_error, vm₁)
          else write_loop fuel 0 (length buffer) buffer vm₁)

  -- The status that a check of the exception gives.
  abbrev status_of : Vm W → EncodeStatus × Vm W
  status_of vm = (if exception_check vm then fatal_error else ok, vm)

  unfoldable pub encode_stream_write : List ℕ → Output → Vm W → EncodeStatus × Vm W
  unfolding encode_context_env throw_encode_exception
  encode_stream_write buffer o vm =
      if not (encode_context_env o) || not o.output_stream || not o.output_write
      then (fatal_error, vm)
      else if exception_check vm
      then (fatal_error, vm)
      else if ltb int_max (length buffer)
      then (
        fatal_error,
        throw_encode_exception (text "Encoded FLAC chunk is too large for one JVM ByteArray.") vm,
      )
      else (let (chunk, vm₁) = call false (new_array (length buffer)) vm in
          if not chunk
          then (fatal_error, vm₁)
          else if exception_check vm₁
          then (fatal_error, vm₁)
          else status_of (call tt (java_stream_write buffer) vm₁).1)

  unfoldable pub encode_write_callback : ℕ → List ℕ → Output → Vm W → Option (EncodeStatus × Vm W)
  unfolding encode_channel_write_callback encode_stream_write
  encode_write_callback fuel buffer o vm =
      if o.output_channel
      then encode_channel_write_callback fuel buffer o vm
      else some (encode_stream_write buffer o vm)

  -- What the channel's `read` returned.
  read_back_result : ℤ × List ℕ → Vm W → ReadResult × Vm W
  read_back_result (read, filled) vm =
      if ltb_ℤ (pos 0) read
      then (
        record {
          count = pos_part read;
          bytes = take (pos_part read) filled;
          status = ReadStatus.continue;
        },
        vm,
      )
      else (no_bytes ReadStatus.end_of_stream, vm)

  -- `none` is a NULL buffer or count.
  unfoldable pub encode_channel_read_callback : Option ℕ → Output → Vm W → ReadResult × Vm W
  unfolding read_back_result encode_context_env throw_encode_exception
  encode_channel_read_callback none o vm = (no_bytes ReadStatus.abort, vm)
  encode_channel_read_callback (some bytes) o vm =
      if not (encode_context_env o) || not o.output_channel || not o.channel_read
      then (no_bytes ReadStatus.abort, vm)
      else if exception_check vm
      then (no_bytes ReadStatus.abort, vm)
      else if bytes == 0
      then (no_bytes ReadStatus.abort, vm)
      else if ltb int_max bytes
      then (
        no_bytes ReadStatus.abort,
        throw_encode_exception
            (text "SeekableByteChannel read-back request is too large for one ByteBuffer.") vm,
      )
      else (let (byte_buffer, vm₁) = call false (new_array bytes) vm in
          if not byte_buffer
          then (no_bytes ReadStatus.abort, vm₁)
          else (let (read, vm₂) = call zero_read_of (java_channel_read bytes) vm₁ in
              if exception_check vm₂
              then (no_bytes ReadStatus.abort, vm₂)
              else read_back_result read vm₂))

  unfoldable pub encode_channel_seek_callback : ℕ → Output → Vm W → SeekStatus × Vm W
  unfolding encode_context_env
  encode_channel_seek_callback absolute_byte_offset o vm =
      if not (encode_context_env o)
        || not o.output_channel
        || not o.channel_seek
        || ltb (to_u64 (pos llong_max -ℤ o.channel_base_offset)) absolute_byte_offset
      then (SeekStatus.error, vm)
      else (let vm' =
            (call tt (java_seek (o.channel_base_offset +ℤ pos absolute_byte_offset)) vm).1 in
          (if exception_check vm' then SeekStatus.error else SeekStatus.ok, vm'))

  -- `wanted` says that the pointer for the answer is not NULL.
  unfoldable pub encode_channel_tell_callback : Bool → Output → Vm W → OffsetStatus × Vm W
  unfolding encode_context_env
  encode_channel_tell_callback wanted o vm =
      if not (encode_context_env o) || not o.output_channel || not o.channel_position || not wanted
      then (OffsetStatus.error, vm)
      else (let (position, vm') = call (pos 0) java_position vm in
          if exception_check vm' || ltb_ℤ position o.channel_base_offset
          then (OffsetStatus.error, vm')
          else (OffsetStatus.offset (to_u64 (position -ℤ o.channel_base_offset)), vm'))

module _ {W : Type 0} where
  -- `class` says which of the two methods were found, or that the class was not; `accessed` is the result
  -- of `GetJavaVM`.
  unfoldable pub prepare_encode_output_stream :
      Java W → Bool → Option (Bool × Bool) → Bool → Output → Vm W → Bool × Output × Vm W
  unfolding add_global_ref throw_illegal_argument_exception throw_encode_exception
  prepare_encode_output_stream java false class accessed o vm =
      (false, o, throw_illegal_argument_exception "Encoder output stream must not be null." vm)
  prepare_encode_output_stream java true none accessed o vm = (false, o, vm)
  prepare_encode_output_stream java true (some (w, f)) accessed o vm =
      let o₁ = record o { output_write = w; output_flush = f } in
      if not (w && f)
      then (false, o₁, vm)
      else if not accessed
      then (
        false,
        o₁,
        throw_encode_exception (text "Failed to access JVM for stream encoder callbacks.") vm,
      )
      else (let (made, vm₁) = add_global_ref java vm in
          (made, record o₁ { jvm = true; output_stream = made }, vm₁))

  unfoldable pub prepare_encode_output_channel :
      Java W
      → Bool
      → Option (Bool × Bool × Bool × Bool)
      → Bool
      → Output
      → Vm W
      → Bool × Output × Vm W
  unfolding add_global_ref throw_illegal_argument_exception throw_encode_exception
  prepare_encode_output_channel java false class accessed o vm =
      (false, o, throw_illegal_argument_exception "Encoder output channel must not be null." vm)
  prepare_encode_output_channel java true none accessed o vm = (false, o, vm)
  prepare_encode_output_channel java true (some (r, w, p, k)) accessed o vm =
      let o₁ = record o {
        channel_read = r;
        channel_write = w;
        channel_position = p;
        channel_seek = k;
      } in
      if not (r && w && p && k)
      then (false, o₁, vm)
      else if not accessed
      then (
        false,
        o₁,
        throw_encode_exception (text "Failed to access JVM for channel encoder callbacks.") vm,
      )
      else (let (made, vm₁) = add_global_ref java vm in
          if not made
          then (false, record o₁ { jvm = true; output_channel = false }, vm₁)
          else (let (base, vm₂) = call (pos 0) java.channel_position vm₁ in
              let o₂ = record o₁ {
                jvm = true;
                output_channel = true;
                channel_base_offset = base;
              } in
              if exception_check vm₂
              then (false, o₂, vm₂)
              else if ltb_ℤ base (pos 0)
              then (
                false,
                o₂,
                throw_encode_exception (text "SeekableByteChannel returned a negative position.")
                    vm₂,
              )
              else (true, o₂, vm₂)))
