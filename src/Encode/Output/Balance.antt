-- ===== src/Encode/Output/Balance.antt =====
-- native/src/jflac_jni.c: the encoder's callbacks and what the bridge holds.
use java_kotlin_flac.Prelude.{
  ℕ, zero, suc, Bool, true, Option, none, some, List, length, drop, ◌≡◌, refl, ◌∙◌, ap, sym, ◌+◌,
  ◌||◌, not, ltb, leb, if_cases, arith, int_max,
}
use java_kotlin_flac.Prelude.Int.{pos, ltb_ℤ, pos_part}
use java_kotlin_flac.Jni.{Java, Vm, call, exception_check, throw_encode_exception}
use java_kotlin_flac.Decode.Source.Machine.{call-IsQuieter}
use java_kotlin_flac.Encode.Output.{
  EncodeStatus, ok, fatal_error, Output, write_rest, write_loop, encode_channel_write_callback,
  encode_stream_write, encode_write_callback, encode_channel_read_callback, read_back_result,
  encode_channel_seek_callback, encode_channel_tell_callback, encode_context_env,
}
use java_kotlin_flac.Sessions.Entries.{some-injective}
use java_kotlin_flac.Encode.Process.{
  EncodeProcess, finished, writes, reads, seeks, tells, EncodeState, run_encoder, accept,
}

module _ {W : Type 0} where
  -- A write, if it returned, holds what was held.
  abbrev WriteHolds : Vm W → Option (EncodeStatus × Vm W) → Type 0
  WriteHolds vm none = Unit {0}
  WriteHolds vm (some r) = r.1.holdings ≡ vm.holdings

  WriteHolds-trans :
      (vm vm' : Vm W) (o : Option (EncodeStatus × Vm W))
      → vm'.holdings ≡ vm.holdings
      → WriteHolds vm' o
      → WriteHolds vm o
  WriteHolds-trans vm vm' none e h = tt
  WriteHolds-trans vm vm' (some r) e h = h ∙ e

module _ {W : Type 0} (java : Java W) where
  write_loop-holdings :
      (fuel total bytes : ℕ) (rest : List ℕ) (vm : Vm W)
      → WriteHolds vm (write_loop java fuel total bytes rest vm)
  unfolding write_loop throw_encode_exception
  write_loop-holdings zero total bytes rest vm = tt
  write_loop-holdings (suc fuel) total bytes rest vm =
      let w = write_rest java rest vm in
      let q = (call-IsQuieter (pos 0, 0) (java.channel_write rest) vm).same_holdings in
      if_cases (WriteHolds vm) {b = leb bytes total} (λ _. refl)
        λ _.
          if_cases (WriteHolds vm) {b = exception_check w.1} (λ _. q)
            λ _.
              if_cases (WriteHolds vm) {b = not (ltb_ℤ (pos 0) w.0.0)} (λ _. q)
                λ _.
                  WriteHolds-trans vm w.1 _ q
                    (write_loop-holdings fuel (total + pos_part w.0.0) bytes (drop w.0.1 rest) w.1)

  encode_channel_write-holdings :
      (fuel : ℕ) (buffer : List ℕ) (o : Output) (vm : Vm W)
      → WriteHolds vm (encode_channel_write_callback java fuel buffer o vm)
  unfolding encode_channel_write_callback throw_encode_exception
  encode_channel_write-holdings fuel buffer o vm =
      let b = call _ (java.new_array (length buffer)) vm in
      let q = (call-IsQuieter _ (java.new_array (length buffer)) vm).same_holdings in
      if_cases (WriteHolds vm)
        {b = not (encode_context_env o) || not o.output_channel || not o.channel_write} (λ _. refl)
        λ _.
          if_cases (WriteHolds vm) {b = exception_check vm} (λ _. refl)
            λ _.
              if_cases (WriteHolds vm) {b = ltb int_max (length buffer)} (λ _. refl)
                λ _.
                  if_cases (WriteHolds vm) {b = not b.0} (λ _. q)
                    (λ _.
                      WriteHolds-trans vm b.1 _ q
                        (write_loop-holdings fuel 0 (length buffer) buffer b.1))

  encode_stream_write-holdings :
      (buffer : List ℕ) (o : Output) (vm : Vm W)
      → (encode_stream_write java buffer o vm).1.holdings ≡ vm.holdings
  unfolding encode_stream_write throw_encode_exception
  encode_stream_write-holdings buffer o vm = ground arith

  encode_write-holdings :
      (fuel : ℕ) (buffer : List ℕ) (o : Output) (vm : Vm W)
      → WriteHolds vm (encode_write_callback java fuel buffer o vm)
  unfolding encode_write_callback
  encode_write-holdings fuel buffer o vm =
      if_cases (WriteHolds vm) {b = o.output_channel}
        (λ _. encode_channel_write-holdings fuel buffer o vm)
        (λ _. encode_stream_write-holdings buffer o vm)

  encode_channel_read-holdings :
      (n : Option ℕ) (o : Output) (vm : Vm W)
      → (encode_channel_read_callback java n o vm).1.holdings ≡ vm.holdings
  unfolding encode_channel_read_callback read_back_result throw_encode_exception
  encode_channel_read-holdings none o vm = refl
  encode_channel_read-holdings (some n) o vm = ground arith

  encode_channel_seek-holdings :
      (n : ℕ) (o : Output) (vm : Vm W)
      → (encode_channel_seek_callback java n o vm).1.holdings ≡ vm.holdings
  unfolding encode_channel_seek_callback
  encode_channel_seek-holdings n o vm = ground arith

  encode_channel_tell-holdings :
      (wanted : Bool) (o : Output) (vm : Vm W)
      → (encode_channel_tell_callback java wanted o vm).1.holdings ≡ vm.holdings
  unfolding encode_channel_tell_callback
  encode_channel_tell-holdings wanted o vm = ground arith

  -- A call of libFLAC, whatever callbacks it makes, takes and gives back nothing.
  pub run_encoder-holdings :
      {E : Type 0} (o : Output) (p : EncodeProcess E) (s s' : EncodeState W) (success : Bool)
      (e : E)
      → run_encoder java o p s ≡ some (success, e, s')
      → s'.vm.holdings ≡ s.vm.holdings
  unfolding run_encoder
  run_encoder-holdings {E} o (finished success e) s s' success' e' eq =
      ap (λ x. x.2.vm.holdings) (some-injective {A = Bool × E × EncodeState W} _ _ (sym eq))
  run_encoder-holdings {E} o (writes bytes k) s s' success e eq =
      wrote (encode_write_callback java (suc (length bytes)) bytes o s.vm)
        (encode_write-holdings (suc (length bytes)) bytes o s.vm)
        (λ r. run_encoder-holdings o (k r.0) (accept bytes s r) s' success e) eq
    where
      accepted : (r : EncodeStatus × Vm W) → (accept bytes s r).vm ≡ r.1
      accepted (ok, vm) = refl
      accepted (fatal_error, vm) = refl

      wrote :
          (r : Option (EncodeStatus × Vm W))
          → WriteHolds s.vm r
          → ((x : EncodeStatus × Vm W)
              → run_encoder java o (k x.0) (accept bytes s x) ≡ some (success, e, s')
              → s'.vm.holdings ≡ (accept bytes s x).vm.holdings)
          → (elim r [ none ↦ none | some x ↦ run_encoder java o (k x.0) (accept bytes s x) ])
            ≡ some (success, e, s')
          → s'.vm.holdings ≡ s.vm.holdings
      wrote none h rest q = absurd cc
      wrote (some x) h rest q = rest x q ∙ ap (λ v. v.holdings) (accepted x) ∙ h
  run_encoder-holdings o (reads n k) s s' success e eq =
      run_encoder-holdings o (k _) _ s' success e eq ∙ encode_channel_read-holdings (some n) o s.vm
  run_encoder-holdings o (seeks n k) s s' success e eq =
      run_encoder-holdings o (k _) _ s' success e eq ∙ encode_channel_seek-holdings n o s.vm
  run_encoder-holdings o (tells k) s s' success e eq =
      run_encoder-holdings o (k _) _ s' success e eq ∙ encode_channel_tell-holdings true o s.vm
