-- ===== src/Decode/Source/Machine.antt =====
-- native/src/jflac_jni.c: the input callbacks and the machine: what the consumer hears, and the pending
-- exception.
use java_kotlin_flac.Prelude.{
  ℕ, true, false, some, List, ◌≡◌, refl, arith, if_cases, not, ◌||◌, ◌==◌, ltb, int_max, ◌∙◌,
}
use java_kotlin_flac.Prelude.Int.{ℤ, pos, negsuc, ltb_ℤ}
use java_kotlin_flac.Jni.{Java, Vm, Outcome, call, exception_check}
use java_kotlin_flac.Decode.Context.{Source}
use java_kotlin_flac.Decode.Source.{
  channel_read_result, stream_read_result, copy_chunk, decode_channel_read_callback,
  decode_read_callback, decode_channel_seek_callback, decode_channel_tell_callback,
  decode_channel_length_callback, decode_channel_eof_callback, zero_read_of,
}

pub record IsQuieter {W : Type 0} (vm vm' : Vm W) : Type 0 where
  pub heard : vm'.heard ≡ vm.heard
  pub same_holdings : vm'.holdings ≡ vm.holdings
  pub still : exception_check vm' ≡ false → exception_check vm ≡ false

module _ {W : Type 0} where
  pub call-IsQuieter :
      {A : Type 0} (d : A) (f : W → W × Outcome A) (vm : Vm W) → IsQuieter vm (call d f vm).1
  call-IsQuieter d f vm = record {
    heard = ground arith;
    same_holdings = ground arith;
    still = λ h. ground arith;
  }

  pub IsQuieter-trans : {a b c : Vm W} → IsQuieter a b → IsQuieter b c → IsQuieter a c
  IsQuieter-trans p q = record {
    heard = q.heard ∙ p.heard;
    same_holdings = q.same_holdings ∙ p.same_holdings;
    still = λ h. p.still (q.still h);
  }

  pub IsQuieter-refl : (vm : Vm W) → IsQuieter vm vm
  IsQuieter-refl vm = record { heard = refl; same_holdings = refl; still = λ h. h }

  channel_read_result-IsQuieter :
      (java : Java W) (r : ℤ × List ℕ) (vm : Vm W) → IsQuieter vm (channel_read_result java r vm).1
  unfolding channel_read_result
  channel_read_result-IsQuieter java (negsuc n, xs) vm = IsQuieter-refl vm
  channel_read_result-IsQuieter java (pos n, xs) vm = record {
    heard = ground arith;
    same_holdings = ground arith;
    still = λ h. ground arith;
  }

  stream_read_result-IsQuieter :
      (java : Java W) (k : ℕ) (r : ℤ × List ℕ) (vm : Vm W)
      → IsQuieter vm (stream_read_result java k r vm).1
  unfolding stream_read_result copy_chunk
  stream_read_result-IsQuieter java k (negsuc n, xs) vm = IsQuieter-refl vm
  stream_read_result-IsQuieter java k (pos n, xs) vm = record {
    heard = ground arith;
    same_holdings = ground arith;
    still = λ h. ground arith;
  }

module _ {W : Type 0} (java : Java W) (s : Source) (vm : Vm W) where
  abbrev Q {ℓ} : {A : Type ℓ} → A × Vm W → Type 0
  Q w = IsQuieter vm w.1

  decode_channel_read_callback-IsQuieter :
      (n : ℕ) → IsQuieter vm (decode_channel_read_callback java (some n) s vm).1
  unfolding decode_channel_read_callback
  decode_channel_read_callback-IsQuieter n =
      let a = call false (java.new_array n) vm in
      let b = call zero_read_of (java.channel_read n) a.1 in
      let qa = call-IsQuieter false (java.new_array n) vm in
      let qb = IsQuieter-trans qa (call-IsQuieter zero_read_of (java.channel_read n) a.1) in
      if_cases Q {b = exception_check vm} (λ _. IsQuieter-refl vm)
        λ _.
          if_cases Q {b = not s.seekable_channel || not s.channel_read || n == 0}
            (λ _. IsQuieter-refl vm)
            λ _.
              if_cases Q {b = ltb int_max n}
                (λ _. record { heard = refl; same_holdings = refl; still = λ h. cc })
                λ _.
                  if_cases Q {b = not a.0} (λ _. qa)
                    λ _.
                      if_cases Q {b = exception_check b.1} (λ _. qb)
                        λ _. IsQuieter-trans qb (channel_read_result-IsQuieter java b.0 b.1)

  pub decode_read_callback-IsQuieter :
      (n : ℕ) → IsQuieter vm (decode_read_callback java (some n) s vm).1
  unfolding decode_read_callback
  decode_read_callback-IsQuieter n =
      let a = call false (java.new_array n) vm in
      let b = call zero_read_of (java.stream_read n) a.1 in
      let qa = call-IsQuieter false (java.new_array n) vm in
      let qb = IsQuieter-trans qa (call-IsQuieter zero_read_of (java.stream_read n) a.1) in
      if_cases Q {b = s.seekable_channel} (λ _. decode_channel_read_callback-IsQuieter n)
        λ _.
          if_cases Q {b = exception_check vm} (λ _. IsQuieter-refl vm)
            λ _.
              if_cases Q {b = not s.input_stream || not s.input_read || n == 0}
                (λ _. IsQuieter-refl vm)
                λ _.
                  if_cases Q {b = ltb int_max n}
                    (λ _. record { heard = refl; same_holdings = refl; still = λ h. cc })
                    λ _.
                      if_cases Q {b = not a.0} (λ _. qa)
                        λ _.
                          if_cases Q {b = exception_check b.1} (λ _. qb)
                            λ _. IsQuieter-trans qb (stream_read_result-IsQuieter java n b.0 b.1)

  pub decode_channel_seek_callback-IsQuieter :
      (n : ℕ) → IsQuieter vm (decode_channel_seek_callback java n s vm).1
  unfolding decode_channel_seek_callback
  decode_channel_seek_callback-IsQuieter n = record {
    heard = ground arith;
    same_holdings = ground arith;
    still = λ h. ground arith;
  }

  pub decode_channel_tell_callback-IsQuieter :
      IsQuieter vm (decode_channel_tell_callback java true s vm).1
  unfolding decode_channel_tell_callback
  decode_channel_tell_callback-IsQuieter =
      let a = call-IsQuieter (pos 0) java.channel_position vm in
      if_cases Q {b = not s.seekable_channel || not s.channel_position || not true}
        (λ _. IsQuieter-refl vm)
        λ _.
          if_cases Q
            {b = exception_check (call (pos 0) java.channel_position vm).1
              || ltb_ℤ (call (pos 0) java.channel_position vm).0 s.channel_base_offset}
            (λ _. a) (λ _. a)

  pub decode_channel_length_callback-IsQuieter :
      IsQuieter vm (decode_channel_length_callback java true s vm).1
  unfolding decode_channel_length_callback
  decode_channel_length_callback-IsQuieter =
      let a = call-IsQuieter (pos 0) java.channel_size vm in
      if_cases Q {b = not s.seekable_channel || not s.channel_size || not true}
        (λ _. IsQuieter-refl vm)
        λ _.
          if_cases Q
            {b = exception_check (call (pos 0) java.channel_size vm).1
              || ltb_ℤ (call (pos 0) java.channel_size vm).0 s.channel_base_offset}
            (λ _. a) (λ _. a)

  pub decode_channel_eof_callback-IsQuieter : IsQuieter vm (decode_channel_eof_callback java s vm).1
  unfolding decode_channel_eof_callback
  decode_channel_eof_callback-IsQuieter =
      let p = call (pos 0) java.channel_position vm in
      let a = call-IsQuieter (pos 0) java.channel_position vm in
      let z = call (pos 0) java.channel_size p.1 in
      let b = IsQuieter-trans a (call-IsQuieter (pos 0) java.channel_size p.1) in
      if_cases Q {b = not s.seekable_channel || not s.channel_position || not s.channel_size}
        (λ _. IsQuieter-refl vm)
        λ _.
          if_cases Q {b = exception_check p.1} (λ _. a)
            λ _. if_cases Q {b = exception_check z.1} (λ _. b) (λ _. b)
