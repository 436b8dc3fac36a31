-- ===== src/Encode/Sinks.antt =====
-- native/src/jflac_jni.c: the write callbacks of an encoder and the bytes that its output has received.
use java_kotlin_flac.Prelude.{
  ℕ, zero, suc, Bool, false, Option, some, List, [], ◌∷◌, ◌++◌, ◌≡◌, refl, ◌∙◌, ap, sym, ◌<◌, ◌≤◌,
  ◌-◌, ◌+◌, arith, leb, ltb, not, ◌||◌, if_cases, length, take, drop, int_max, append-nil,
  append_assoc, take-append-drop, length-drop,
}
use java_kotlin_flac.Prelude.Int.{ℤ, pos, negsuc, ltb_ℤ, pos_part}
use java_kotlin_flac.Jni.{Java, Vm, Outcome, returned, threw, call, settle, exception_check}
use java_kotlin_flac.Encode.Output.{
  EncodeStatus, ok, Output, write_loop, write_rest, encode_channel_write_callback,
  encode_write_callback, encode_stream_write, encode_context_env,
}

-- An output as an append-only file: `received` is what is in it. A `write` of a channel puts a front of
-- what the buffer has left into it, advances the buffer by as much and returns the length of it; one of
-- a stream puts all of it there. Allocations do not write.
pub record Sink {W : Type 0} (java : Java W) : Type 0 where
  pub received : W → List ℕ
  pub channel_front :
      (rest : List ℕ) (w : W) (n : ℤ) (k : ℕ)
      → (java.channel_write rest w).1 ≡ returned (n, k)
      → (n ≡ pos k)
        × (k ≤ length rest)
        × (received (java.channel_write rest w).0 ≡ received w ++ take k rest)
  pub stream_all :
      (bytes : List ℕ) (w : W)
      → (java.stream_write bytes w).1 ≡ returned tt
      → received (java.stream_write bytes w).0 ≡ received w ++ bytes
  pub allocation : (n : ℕ) (w : W) → received (java.new_array n w).0 ≡ received w

-- A write has made progress.
less :
    (total bytes fuel : ℕ) (n : ℤ)
    → leb bytes total ≡ false
    → not (ltb_ℤ (pos 0) n) ≡ false
    → bytes - total < suc fuel
    → bytes - (total + pos_part n) < fuel
less total bytes fuel (pos n) u p h = ground (arith, u, p, h)
less total bytes fuel (negsuc n) u p h = ground (arith, u, p, h)

-- The loop ends: a write makes progress or the loop is left, whatever the channel answers.
pub write_loop-ends :
    {W : Type 0} (java : Java W) (fuel written_total bytes : ℕ) (rest : List ℕ) (vm : Vm W)
    → bytes - written_total < fuel
    → (r : EncodeStatus × Vm W) × (write_loop java fuel written_total bytes rest vm ≡ some r)
unfolding write_loop
write_loop-ends java zero total bytes rest vm enough = elim enough [ ]
write_loop-ends {W} java (suc fuel) total bytes rest vm enough =
    let P = λ (o : Option (EncodeStatus × Vm W)). (r : EncodeStatus × Vm W) × (o ≡ some r) in
    let step = write_rest java rest vm in
    if_cases P {b = leb bytes total} (λ _. (_, refl))
      λ unfinished.
        if_cases P {b = exception_check step.1} (λ _. (_, refl))
          λ _.
            if_cases P {b = not (ltb_ℤ (pos 0) step.0.0)} (λ _. (_, refl))
              λ positive.
                write_loop-ends java fuel (total + pos_part step.0.0) bytes (drop step.0.1 rest)
                  step.1 (less total bytes fuel step.0.0 unfinished positive enough)

module _ {W : Type 0} where
  settled_cases :
      {A : Type 0} (d : A) (vm : Vm W) (x : W × Outcome A)
      → exception_check (settle d vm x).1 ≡ false
      → (x.1 ≡ returned (settle d vm x).0) × ((settle d vm x).1.world ≡ x.0)
  settled_cases d vm (w, returned a) h = (refl, refl)
  settled_cases d vm (w, threw n) h = absurd cc

  -- A call after which no exception is pending has returned.
  settled :
      {A : Type 0} (d : A) (f : W → W × Outcome A) (vm : Vm W)
      → exception_check (call d f vm).1 ≡ false
      → ((f vm.world).1 ≡ returned (call d f vm).0) × ((call d f vm).1.world ≡ (f vm.world).0)
  settled d f vm h = settled_cases d vm (f vm.world) h

length-nil : (xs : List ℕ) → length xs ≡ 0 → xs ≡ []
length-nil [] h = refl
length-nil (x ∷ xs) h = absurd cc

module _ {W : Type 0} (java : Java W) (sink : Sink java) where
  abbrev pub file : Vm W → List ℕ
  file vm = sink.received vm.world

  -- The status OK says that the bytes are in the file, behind what was there.
  abbrev pub IsAppended : List ℕ → Vm W → EncodeStatus × Vm W → Type 0
  IsAppended bytes vm r = r.0 ≡ ok → file r.1 ≡ file vm ++ bytes

  abbrev pub Appends : List ℕ → Vm W → Option (EncodeStatus × Vm W) → Type 0
  Appends bytes vm o = (r : EncodeStatus × Vm W) × (o ≡ some r) × IsAppended bytes vm r

  -- A write that did not throw has put a front of the rest into the file.
  write_rest-front :
      (rest : List ℕ) (vm : Vm W)
      → let step = write_rest java rest vm in
        exception_check step.1 ≡ false
        → (step.0.0 ≡ pos step.0.1)
          × (step.0.1 ≤ length rest)
          × (file step.1 ≡ file vm ++ take step.0.1 rest)
  write_rest-front rest vm h =
      let step = write_rest java rest vm in
      let (e, w) = settled (pos 0, 0) (java.channel_write rest) vm h in
      let (n, k, f) = sink.channel_front rest vm.world step.0.0 step.0.1 e in
      (n, k, ap sink.received w ∙ f)

  write_loop-Appends :
      (fuel total bytes : ℕ) (rest : List ℕ) (vm : Vm W)
      → total + length rest ≡ bytes
      → bytes - total < fuel
      → Appends rest vm (write_loop java fuel total bytes rest vm)
  unfolding write_loop
  write_loop-Appends zero total bytes rest vm e enough = elim enough [ ]
  write_loop-Appends (suc fuel) total bytes rest vm e enough =
      let step = write_rest java rest vm in
      let P = Appends rest vm in
      if_cases P {b = leb bytes total}
        (λ finished. (
          _,
          refl,
          λ _.
              sym (append-nil (file vm))
              ∙ ap (λ xs. file vm ++ xs) (sym (length-nil rest (ground (arith, finished, e)))),
        ))
        λ unfinished.
          if_cases P {b = exception_check step.1} (λ _. (_, refl, λ bad. absurd cc))
            λ calm.
              if_cases P {b = not (ltb_ℤ (pos 0) step.0.0)} (λ _. (_, refl, λ bad. absurd cc))
                λ positive.
                  let (n, k, f) = write_rest-front rest vm calm in
                  let (r, eq, appended) =
                    write_loop-Appends fuel (total + pos_part step.0.0) bytes (drop step.0.1 rest)
                      step.1 (omega (arith, ap pos_part n, k, e, length-drop step.0.1 rest))
                      (less total bytes fuel step.0.0 unfinished positive enough) in
                  (
                    r,
                    eq,
                    λ good.
                        appended good
                        ∙ ap (λ xs. xs ++ drop step.0.1 rest) f
                        ∙ append_assoc (file vm) (take step.0.1 rest) (drop step.0.1 rest)
                        ∙ ap (λ xs. file vm ++ xs) (take-append-drop step.0.1 rest),
                  )

  -- An allocation leaves the file alone.
  allocated : (n : ℕ) (vm : Vm W) → file (call false (java.new_array n) vm).1 ≡ file vm
  allocated n vm = allocated_cases (java.new_array n vm.world) (sink.allocation n vm.world)
    where
      allocated_cases :
          (x : W × Outcome Bool)
          → sink.received x.0 ≡ sink.received vm.world
          → file (settle false vm x).1 ≡ file vm
      allocated_cases (w, returned a) h = h
      allocated_cases (w, threw k) h = h

  encode_channel_write_callback-Appends :
      (fuel : ℕ) (buffer : List ℕ) (o : Output) (vm : Vm W)
      → length buffer < fuel
      → Appends buffer vm (encode_channel_write_callback java fuel buffer o vm)
  unfolding encode_channel_write_callback
  encode_channel_write_callback-Appends fuel buffer o vm enough =
      let a = call false (java.new_array (length buffer)) vm in
      let P = Appends buffer vm in
      if_cases P {b = not (encode_context_env o) || not o.output_channel || not o.channel_write}
        (λ _. (_, refl, λ bad. absurd cc))
        λ _.
          if_cases P {b = exception_check vm} (λ _. (_, refl, λ bad. absurd cc))
            λ _.
              if_cases P {b = ltb int_max (length buffer)} (λ _. (_, refl, λ bad. absurd cc))
                λ _.
                  if_cases P {b = not a.0} (λ _. (_, refl, λ bad. absurd cc))
                    λ _.
                      let (r, eq, appended) =
                        write_loop-Appends fuel 0 (length buffer) buffer a.1 (omega arith)
                          (omega (arith, enough)) in
                      (
                        r,
                        eq,
                        λ good.
                            appended good ∙ ap (λ xs. xs ++ buffer) (allocated (length buffer) vm),
                      )

  encode_stream_write-IsAppended :
      (buffer : List ℕ) (o : Output) (vm : Vm W)
      → IsAppended buffer vm (encode_stream_write java buffer o vm)
  unfolding encode_stream_write
  encode_stream_write-IsAppended buffer o vm =
      let a = call false (java.new_array (length buffer)) vm in
      let b = call tt (java.stream_write buffer) a.1 in
      let P = IsAppended buffer vm in
      if_cases P {b = not (encode_context_env o) || not o.output_stream || not o.output_write}
        (λ _ bad. absurd cc)
        λ _.
          if_cases P {b = exception_check vm} (λ _ bad. absurd cc)
            λ _.
              if_cases P {b = ltb int_max (length buffer)} (λ _ bad. absurd cc)
                λ _.
                  if_cases P {b = not a.0} (λ _ bad. absurd cc)
                    λ _.
                      if_cases P {b = exception_check a.1} (λ _ bad. absurd cc)
                        λ _.
                          if_cases (λ (s : EncodeStatus). IsAppended buffer vm (s, b.1))
                            {b = exception_check b.1} (λ _ bad. absurd cc)
                            λ calm _.
                              let (e, w) = settled tt (java.stream_write buffer) a.1 calm in
                              ap sink.received w
                              ∙ sink.stream_all buffer a.1.world e
                              ∙ ap (λ xs. xs ++ buffer) (allocated (length buffer) vm)

  -- The write callback of either kind of output refines an append to a file: with more fuel than there
  -- are bytes it returns, and if it answers OK, the file is what it was, followed by all of the bytes.
  pub encode_write_callback-Appends :
      (fuel : ℕ) (buffer : List ℕ) (o : Output) (vm : Vm W)
      → length buffer < fuel
      → Appends buffer vm (encode_write_callback java fuel buffer o vm)
  unfolding encode_write_callback
  encode_write_callback-Appends fuel buffer o vm enough =
      if_cases (Appends buffer vm) {b = o.output_channel}
        (λ _. encode_channel_write_callback-Appends fuel buffer o vm enough)
        (λ _. (_, refl, encode_stream_write-IsAppended buffer o vm))
