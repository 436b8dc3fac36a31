-- ===== src/Decode/Source/Bounds.antt =====
-- native/src/jflac_jni.c: what the read callback tells libFLAC about its buffer.
use java_kotlin_flac.Prelude.{
  ℕ, false, some, List, ◌≤◌, ◌<◌, ◌≡◌, ◌≢◌, refl, arith, if_cases, not, ◌||◌, ◌==◌, ltb, int_max,
}
use java_kotlin_flac.Prelude.Int.{ℤ, pos, negsuc, pos_part}
use java_kotlin_flac.Jni.{Java, Vm, call, exception_check}
use java_kotlin_flac.Flac.{ReadStatus, ReadResult}
use java_kotlin_flac.Decode.Context.{Source}
use java_kotlin_flac.Decode.Source.{
  decode_read_callback, decode_channel_read_callback, channel_read_result, stream_read_result,
  no_bytes, zero_read_of,
}

-- CONTINUE comes with at least one byte and no more than the buffer holds; any other status with none.
pub record FitsBuffer {W : Type 0} (bytes : ℕ) (r : ReadResult × Vm W) : Type 0 where
  pub some_bytes : r.0.status ≡ ReadStatus.continue → 0 < r.0.count
  pub at_most : r.0.count ≤ bytes
  pub else_none : r.0.status ≢ ReadStatus.continue → r.0.count ≡ 0

module _ {W : Type 0} (java : Java W) where
  -- The contract of `ReadableByteChannel.read`: it returns at most the number of bytes that are left.
  abbrev pub ReadsWithin : Type 0
  ReadsWithin =
      (bytes : ℕ) (vm : Vm W)
      → pos_part (call zero_read_of (java.channel_read bytes) vm).0.0 ≤ bytes

  none-FitsBuffer :
      (bytes : ℕ) (st : ReadStatus) (vm : Vm W)
      → st ≢ ReadStatus.continue
      → FitsBuffer bytes (no_bytes st, vm)
  none-FitsBuffer bytes st vm h = record {
    some_bytes = λ e. absurd (h e);
    at_most = omega arith;
    else_none = λ _. refl;
  }

  abort-FitsBuffer : (bytes : ℕ) (vm : Vm W) → FitsBuffer bytes (no_bytes ReadStatus.abort, vm)
  abort-FitsBuffer bytes vm = none-FitsBuffer bytes ReadStatus.abort vm (λ e. cc)

  stream_read_result-FitsBuffer :
      (bytes : ℕ) (read : ℤ × List ℕ) (vm : Vm W)
      → FitsBuffer bytes (stream_read_result java bytes read vm)
  unfolding stream_read_result
  stream_read_result-FitsBuffer bytes (negsuc n, chunk) vm =
      none-FitsBuffer bytes ReadStatus.end_of_stream vm (λ e. cc)
  stream_read_result-FitsBuffer bytes (pos n, chunk) vm =
      if_cases (FitsBuffer bytes) {b = n == 0} (λ z. abort-FitsBuffer bytes _)
        (λ p.
          if_cases (FitsBuffer bytes) {b = ltb bytes n} (λ big. abort-FitsBuffer bytes _)
            (λ fits. record {
              some_bytes = λ _. ground arith;
              at_most = ground arith;
              else_none = λ h. absurd (h refl);
            }))

  channel_read_result-FitsBuffer :
      (bytes : ℕ) (read : ℤ × List ℕ) (vm : Vm W)
      → pos_part read.0 ≤ bytes
      → FitsBuffer bytes (channel_read_result java read vm)
  unfolding channel_read_result
  channel_read_result-FitsBuffer bytes (negsuc n, chunk) vm h =
      none-FitsBuffer bytes ReadStatus.end_of_stream vm (λ e. cc)
  channel_read_result-FitsBuffer bytes (pos n, chunk) vm h =
      if_cases (FitsBuffer bytes) {b = n == 0} (λ z. abort-FitsBuffer bytes _)
        (λ p. record {
          some_bytes = λ _. ground arith;
          at_most = h;
          else_none = λ h. absurd (h refl);
        })

  channel-FitsBuffer :
      ReadsWithin
      → (bytes : ℕ) (s : Source) (vm : Vm W)
      → FitsBuffer bytes (decode_channel_read_callback java (some bytes) s vm)
  unfolding decode_channel_read_callback
  channel-FitsBuffer within bytes s vm =
      if_cases (FitsBuffer bytes) {b = exception_check vm} (λ _. abort-FitsBuffer bytes _)
        λ _.
          if_cases (FitsBuffer bytes)
            {b = not s.seekable_channel || not s.channel_read || bytes == 0}
            (λ _. abort-FitsBuffer bytes _)
            λ _.
              if_cases (FitsBuffer bytes) {b = ltb int_max bytes} (λ _. abort-FitsBuffer bytes _)
                λ _.
                  if_cases (FitsBuffer bytes) {b = not (call false (java.new_array bytes) vm).0}
                    (λ _. abort-FitsBuffer bytes _)
                    λ _.
                      if_cases (FitsBuffer bytes)
                        {b = exception_check
                          (call zero_read_of (java.channel_read bytes)
                            (call false (java.new_array bytes) vm).1).1}
                        (λ _. abort-FitsBuffer bytes _)
                        λ _.
                          channel_read_result-FitsBuffer bytes
                            (call zero_read_of (java.channel_read bytes)
                              (call false (java.new_array bytes) vm).1).0
                            (call zero_read_of (java.channel_read bytes)
                              (call false (java.new_array bytes) vm).1).1
                            (within bytes (call false (java.new_array bytes) vm).1)

  -- The read callback never claims more bytes than libFLAC's buffer holds, on any branch and for either
  -- kind of source: an `InputStream` that breaks its contract is caught, a channel has to keep to it.
  -- CONTINUE means progress.
  pub decode_read_callback-FitsBuffer :
      ReadsWithin
      → (bytes : ℕ) (s : Source) (vm : Vm W)
      → FitsBuffer bytes (decode_read_callback java (some bytes) s vm)
  unfolding decode_read_callback
  decode_read_callback-FitsBuffer within bytes s vm =
      if_cases (FitsBuffer bytes) {b = s.seekable_channel}
        (λ _. channel-FitsBuffer within bytes s vm)
        λ _.
          if_cases (FitsBuffer bytes) {b = exception_check vm} (λ _. abort-FitsBuffer bytes _)
            λ _.
              if_cases (FitsBuffer bytes) {b = not s.input_stream || not s.input_read || bytes == 0}
                (λ _. abort-FitsBuffer bytes _)
                λ _.
                  if_cases (FitsBuffer bytes) {b = ltb int_max bytes}
                    (λ _. abort-FitsBuffer bytes _)
                    λ _.
                      if_cases (FitsBuffer bytes) {b = not (call false (java.new_array bytes) vm).0}
                        (λ _. abort-FitsBuffer bytes _)
                        λ _.
                          if_cases (FitsBuffer bytes)
                            {b = exception_check
                              (call zero_read_of (java.stream_read bytes)
                                (call false (java.new_array bytes) vm).1).1}
                            (λ _. abort-FitsBuffer bytes _)
                            λ _.
                              stream_read_result-FitsBuffer bytes
                                (call zero_read_of (java.stream_read bytes)
                                  (call false (java.new_array bytes) vm).1).0
                                (call zero_read_of (java.stream_read bytes)
                                  (call false (java.new_array bytes) vm).1).1
