-- ===== src/Decode/Source.antt =====
-- native/src/jflac_jni.c: the callbacks by which libFLAC reads, seeks and measures the input. They
-- are given a context whose `env` is set, as every decode call gives them. A pointer argument of
-- libFLAC's is `none`, or a flag that is `false`, where it is NULL.
pub mod Bounds
pub mod Offsets
pub mod Machine
use java_kotlin_flac.Prelude.{
  ℕ, Bool, true, false, Option, none, some, List, [], ◌-◌, ◌+◌, ◌==◌, ltb, leb, if◌then◌else◌, ◌||◌,
  not, int_max, llong_max, take,
}
use java_kotlin_flac.Prelude.Int.{ℤ, pos, negsuc, ltb_ℤ, to_u64, ◌+ℤ◌, ◌-ℤ◌, pos_part}
use java_kotlin_flac.Jni.{
  Vm, Java, Outcome, returned, threw, raised, text, call, throw, exception_check,
  throw_decode_exception,
}
use java_kotlin_flac.Flac.{
  ReadStatus, ReadResult, SeekStatus, OffsetStatus, continue, end_of_stream, abort,
}
use java_kotlin_flac.Decode.Context.{Source}

-- `*bytes = 0u` and the status.
abbrev pub no_bytes : ReadStatus → ReadResult
no_bytes s = record { count = 0; bytes = []; status = s }

abbrev pub zero_read_of : ℤ × List ℕ
zero_read_of = (pos 0, [])

module _ {W : Type 0} (java : Java W) where
  open java use {
    new_array, stream_read, channel_read as java_read, channel_position as java_position,
    channel_seek as java_seek, channel_size as java_size,
  }

  -- What the channel's `read` returned: the bytes, the end of the stream or no progress.
  channel_read_result : ℤ × List ℕ → Vm W → ReadResult × Vm W
  unfolding throw_decode_exception
  channel_read_result (negsuc n, filled) vm = (no_bytes ReadStatus.end_of_stream, vm)
  channel_read_result (pos n, filled) vm =
      if n == 0
      then (
        no_bytes ReadStatus.abort,
        throw_decode_exception
            (text "SeekableByteChannel returned zero bytes for a non-empty read request.") vm,
      )
      else (record { count = n; bytes = take n filled; status = ReadStatus.continue }, vm)

  unfoldable pub decode_channel_read_callback : Option ℕ → Source → Vm W → ReadResult × Vm W
  unfolding channel_read_result throw_decode_exception
  decode_channel_read_callback none s vm = (no_bytes ReadStatus.abort, vm)
  decode_channel_read_callback (some bytes) s vm =
      if exception_check vm
      then (no_bytes ReadStatus.abort, vm)
      else if not s.seekable_channel || not s.channel_read || bytes == 0
      then (no_bytes ReadStatus.abort, vm)
      else if ltb int_max bytes
      then (
        no_bytes ReadStatus.abort,
        throw_decode_exception
            (text "SeekableByteChannel read request is too large for one ByteBuffer.") vm,
      )
      else (let (byte_buffer, vm₁) = call false (new_array bytes) vm in
          if not byte_buffer
          then (no_bytes ReadStatus.abort, vm₁)
          else (let (read, vm₂) = call zero_read_of (java_read bytes) vm₁ in
              if exception_check vm₂
              then (no_bytes ReadStatus.abort, vm₂)
              else channel_read_result read vm₂))

  -- `GetByteArrayRegion(env, chunk, 0, read, buffer)`: it throws where `read` exceeds the array.
  copy_chunk : ℕ → ℕ → List ℕ → Vm W → ReadResult × Vm W
  copy_chunk requested read chunk vm =
      if ltb requested read
      then (no_bytes ReadStatus.abort, throw (raised 0) vm)
      else (record { count = read; bytes = take read chunk; status = ReadStatus.continue }, vm)

  stream_read_result : ℕ → ℤ × List ℕ → Vm W → ReadResult × Vm W
  unfolding throw_decode_exception copy_chunk
  stream_read_result requested (negsuc n, chunk) vm = (no_bytes ReadStatus.end_of_stream, vm)
  stream_read_result requested (pos n, chunk) vm =
      if n == 0
      then (
        no_bytes ReadStatus.abort,
        throw_decode_exception
            (text "InputStream returned zero bytes for a non-empty read request.") vm,
      )
      else copy_chunk requested n chunk vm

  unfoldable pub decode_read_callback : Option ℕ → Source → Vm W → ReadResult × Vm W
  unfolding stream_read_result throw_decode_exception
  decode_read_callback none s vm =
      if s.seekable_channel
      then decode_channel_read_callback none s vm
      else (no_bytes ReadStatus.abort, vm)
  decode_read_callback (some bytes) s vm =
      if s.seekable_channel
      then decode_channel_read_callback (some bytes) s vm
      else if exception_check vm
      then (no_bytes ReadStatus.abort, vm)
      else if not s.input_stream || not s.input_read || bytes == 0
      then (no_bytes ReadStatus.abort, vm)
      else if ltb int_max bytes
      then (
        no_bytes ReadStatus.abort,
        throw_decode_exception (text "InputStream read request is too large for one JVM ByteArray.")
            vm,
      )
      else (let (chunk, vm₁) = call false (new_array bytes) vm in
          if not chunk
          then (no_bytes ReadStatus.abort, vm₁)
          else (let (read, vm₂) = call zero_read_of (stream_read bytes) vm₁ in
              if exception_check vm₂
              then (no_bytes ReadStatus.abort, vm₂)
              else stream_read_result bytes read vm₂))

  unfoldable pub decode_channel_seek_callback : ℕ → Source → Vm W → SeekStatus × Vm W
  decode_channel_seek_callback absolute_byte_offset s vm =
      if not s.seekable_channel
        || not s.channel_seek
        || ltb (to_u64 (pos llong_max -ℤ s.channel_base_offset)) absolute_byte_offset
      then (SeekStatus.error, vm)
      else (let (ignored, vm₁) =
            call tt (java_seek (s.channel_base_offset +ℤ pos absolute_byte_offset)) vm in
          (if exception_check vm₁ then SeekStatus.error else SeekStatus.ok, vm₁))

  unfoldable pub decode_channel_tell_callback : Bool → Source → Vm W → OffsetStatus × Vm W
  decode_channel_tell_callback absolute_byte_offset s vm =
      if not s.seekable_channel || not s.channel_position || not absolute_byte_offset
      then (OffsetStatus.error, vm)
      else (let (position, vm₁) = call (pos 0) java_position vm in
          if exception_check vm₁ || ltb_ℤ position s.channel_base_offset
          then (OffsetStatus.error, vm₁)
          else (OffsetStatus.offset (to_u64 (position -ℤ s.channel_base_offset)), vm₁))

  unfoldable pub decode_channel_length_callback : Bool → Source → Vm W → OffsetStatus × Vm W
  decode_channel_length_callback stream_length s vm =
      if not s.seekable_channel || not s.channel_size || not stream_length
      then (OffsetStatus.error, vm)
      else (let (size, vm₁) = call (pos 0) java_size vm in
          if exception_check vm₁ || ltb_ℤ size s.channel_base_offset
          then (OffsetStatus.error, vm₁)
          else (OffsetStatus.offset (to_u64 (size -ℤ s.channel_base_offset)), vm₁))

  unfoldable pub decode_channel_eof_callback : Source → Vm W → Bool × Vm W
  decode_channel_eof_callback s vm =
      if not s.seekable_channel || not s.channel_position || not s.channel_size
      then (true, vm)
      else (let (position, vm₁) = call (pos 0) java_position vm in
          if exception_check vm₁
          then (true, vm₁)
          else (let (size, vm₂) = call (pos 0) java_size vm₁ in
              if exception_check vm₂ then (true, vm₂) else (not (ltb_ℤ position size), vm₂)))
