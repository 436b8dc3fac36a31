-- ===== src/Decode/Write/Crop.antt =====
-- native/src/jflac_jni.c: the write callback of a bounded decode, and the frames that the consumer is
-- given.
use java_kotlin_flac.Prelude.{
  ℕ, true, false, Option, none, some, List, [], ◌∷◌, ◌++◌, ◌+◌, ◌-◌, ◌*◌, ◌^◌, ◌≤◌, ◌<◌, ◌≡◌, refl,
  ap, sym, arith, ◌∙◌, ◌⊎◌, inl, inr, subst, if_cases, if_false, not, ◌||◌, ◌&&◌, leb, ltb, ◌==◌,
  u64, int_max, llong_max,
}
use java_kotlin_flac.Jni.{
  Java, Vm, Outcome, Event, pcm_interleaved, stream_info, complete, call, in_world, exception_check,
}
use java_kotlin_flac.Flac.{Frame, WriteStatus}
use java_kotlin_flac.Decode.Context.{Range}
use java_kotlin_flac.Decode.Pull.{interleave}
use java_kotlin_flac.Decode.Write.{
  State, cropped_frames, count_emitted, consumer_call, deliver_frames, write_cropped,
  decode_write_callback,
}

abbrev pub frames_of : Event → ℕ
frames_of (stream_info i) = 0
frames_of (pcm_interleaved samples n) = n
frames_of complete = 0

-- The number of frames that the consumer has been given.
abbrev pub frames_heard : List Event → ℕ
frames_heard [] = 0
frames_heard (e ∷ es) = frames_of e + frames_heard es

pub frames_heard-append :
    (es : List Event) (e : Event) → frames_heard (es ++ e ∷ []) ≡ frames_heard es + frames_of e
frames_heard-append [] e = omega arith
frames_heard-append (d ∷ es) e = omega (arith, frames_heard-append es e)

-- A bounded decode under way, when the consumer had been given `base` frames before it: the counter
-- stays in the range, the frames that were given in it do not exceed the range, they are those that
-- were counted unless an exception is pending, and the range is complete only when it is full.
pub record IsMetered {W : Type 0} (base limit : ℕ) (vm : Vm W) (r : Range) : Type 0 where
  pub limited : r.range_limited ≡ true
  pub limit_eq : r.max_frames ≡ limit
  pub max_le : r.max_frames ≤ llong_max
  pub emitted_le : r.emitted_frames ≤ r.max_frames
  pub heard_le : frames_heard vm.heard ≤ base + r.max_frames
  pub heard_eq : exception_check vm ≡ false → frames_heard vm.heard ≡ base + r.emitted_frames
  pub full : r.range_complete ≡ true → r.emitted_frames ≡ r.max_frames

-- How many frames of a block are cropped to.
cropped_frames-cases :
    (r : Range) (n : ℕ)
    → r.range_limited ≡ true
    → r.max_frames ≤ llong_max
    → r.emitted_frames ≤ r.max_frames
    → n < 2 ^ 32
    → ((cropped_frames r n ≡ none) × (r.emitted_frames ≡ r.max_frames))
      ⊎ ((k : ℕ) × (cropped_frames r n ≡ some k) × (r.emitted_frames + k ≤ r.max_frames))
unfolding cropped_frames
cropped_frames-cases r n l m e h =
    let C = λ (o : Option ℕ).
      ((o ≡ none) × (r.emitted_frames ≡ r.max_frames))
      ⊎ ((k : ℕ) × (o ≡ some k) × (r.emitted_frames + k ≤ r.max_frames)) in
    let remaining = u64 (r.max_frames + 2 ^ 64 - r.emitted_frames) in
    let exact : remaining ≡ r.max_frames - r.emitted_frames = omega arith in
    if_false C {b = not r.range_limited} (some n) (ground (arith, l)) (
      if_cases C {b = remaining == 0} (λ z. inl (refl, ground (arith, exact, z)))
        (λ nz. inr (_, refl, ground (arith, exact))))

module _ {W : Type 0} (base limit : ℕ) where
  -- The machine goes on without a delivery.
  pub quietly :
      {vm : Vm W} {r : Range} (vm' : Vm W)
      → IsMetered base limit vm r
      → frames_heard vm'.heard ≡ frames_heard vm.heard
      → (exception_check vm' ≡ false → exception_check vm ≡ false)
      → IsMetered base limit vm' r
  quietly vm' m same still = record {
    limited = m.limited;
    limit_eq = m.limit_eq;
    max_le = m.max_le;
    emitted_le = m.emitted_le;
    heard_le = omega (arith, same, m.heard_le);
    heard_eq = λ q. same ∙ m.heard_eq (still q);
    full = m.full;
  }

  -- `k` more frames of the range were given to the consumer, which threw.
  refused_by_consumer :
      {vm : Vm W} {r : Range} (vm' : Vm W) (k : ℕ)
      → IsMetered base limit vm r
      → exception_check vm ≡ false
      → frames_heard vm'.heard ≡ frames_heard vm.heard + k
      → r.emitted_frames + k ≤ r.max_frames
      → exception_check vm' ≡ true
      → IsMetered base limit vm' r
  refused_by_consumer vm' k m quiet more fits pending = record {
    limited = m.limited;
    limit_eq = m.limit_eq;
    max_le = m.max_le;
    emitted_le = m.emitted_le;
    heard_le = omega (arith, more, m.heard_eq quiet, fits);
    heard_eq = λ q. cc;
    full = m.full;
  }

  -- They were given to it, and are counted.
  counted-IsMetered :
      {vm : Vm W} {r : Range} (vm' : Vm W) (k : ℕ)
      → IsMetered base limit vm r
      → exception_check vm ≡ false
      → frames_heard vm'.heard ≡ frames_heard vm.heard + k
      → r.emitted_frames + k ≤ r.max_frames
      → 0 < k
      → IsMetered base limit vm' (count_emitted k r)
  unfolding count_emitted
  counted-IsMetered {r = r} vm' k m quiet more fits positive =
      let exact : u64 (r.emitted_frames + k) ≡ r.emitted_frames + k =
        omega (arith, m.max_le, fits) in
      record {
        limited = m.limited;
        limit_eq = m.limit_eq;
        max_le = m.max_le;
        emitted_le = omega (arith, exact, fits);
        heard_le = omega (arith, more, m.heard_eq quiet, fits);
        heard_eq = λ q. omega (arith, exact, more, m.heard_eq quiet);
        full =
            if_cases (λ b. b ≡ true → u64 (r.emitted_frames + k) ≡ r.max_frames)
              {b = r.range_limited && leb r.max_frames (u64 (r.emitted_frames + k))} {x = true}
              {y = r.range_complete} (λ reached _. ground (arith, exact, fits))
              (λ _ old. omega (arith, m.full old, fits, positive));
      }

  call-heard :
      {A : Type 0} (d : A) (f : W → W × Outcome A) (vm : Vm W) → (call d f vm).1.heard ≡ vm.heard
  call-heard d f vm = ground arith

  call-quiet :
      {A : Type 0} (d : A) (f : W → W × Outcome A) (vm : Vm W)
      → exception_check (call d f vm).1 ≡ false
      → exception_check vm ≡ false
  call-quiet d f vm h = ground arith

module _ {W : Type 0} (java : Java W) (base limit : ℕ) (frame : Frame) (s : State W) where
  abbrev Metered : WriteStatus × State W → Type 0
  Metered w = IsMetered base limit w.1.vm w.1.context.range

  deliver_frames-IsMetered :
      (k : ℕ)
      → IsMetered base limit s.vm s.context.range
      → exception_check s.vm ≡ false
      → s.context.range.emitted_frames + k ≤ s.context.range.max_frames
      → Metered (deliver_frames java frame k s)
  unfolding deliver_frames
  deliver_frames-IsMetered k m quiet fits =
      let n = frame.channels * k in
      let vm₁ = (call false (java.new_array n) s.vm).1 in
      let vm₂ = (in_world (java.malloc n) vm₁).1 in
      let e = pcm_interleaved (interleave frame.buffer frame.channels 0 k) k in
      let vm₃ = consumer_call e java vm₂ in
      let heard : frames_heard vm₂.heard ≡ frames_heard s.vm.heard =
        ap frames_heard (call-heard base limit false (java.new_array n) s.vm) in
      let m₂ =
        quietly base limit vm₂ m heard (call-quiet base limit false (java.new_array n) s.vm) in
      let more : frames_heard vm₃.heard ≡ frames_heard vm₂.heard + k =
        frames_heard-append vm₂.heard e in
      if_cases Metered {b = frame.channels == 0 || k == 0 || ltb int_max n}
        (λ _. quietly base limit _ m refl (λ q. quiet))
        λ small.
          if_cases Metered {b = not (call false (java.new_array n) s.vm).0}
            (λ _. quietly base limit vm₁ m heard (λ q. quiet))
            λ _.
              if_cases Metered {b = not (in_world (java.malloc n) vm₁).0}
                (λ _. quietly base limit _ m heard (λ q. quiet))
                λ _.
                  if_cases Metered {b = exception_check vm₂}
                    (λ _. quietly base limit vm₂ m heard (λ q. quiet))
                    λ calm.
                      if_cases Metered {b = exception_check vm₃}
                        (λ bad. refused_by_consumer base limit vm₃ k m₂ calm more fits bad)
                        λ _. counted-IsMetered base limit vm₃ k m₂ calm more fits (ground arith)

  -- The write callback of a bounded decode, on any branch: the consumer is given no frame beyond the
  -- range, the counter is the number of frames that it was given, and the range is marked complete only
  -- when it is full.
  pub decode_write_callback-IsMetered :
      s.context.pull.pull_mode ≡ false
      → frame.blocksize < 2 ^ 32
      → IsMetered base limit s.vm s.context.range
      → IsMetered base limit
          (decode_write_callback java frame s).1.vm
          (decode_write_callback java frame s).1.context.range
  unfolding decode_write_callback write_cropped
  decode_write_callback-IsMetered push word m =
      if_cases Metered {b = exception_check s.vm} (λ _. m)
        λ quiet.
          if_cases Metered {b = s.context.saw_error} (λ _. m)
            λ _. if_false Metered {b = s.context.pull.pull_mode} _ push (cropped quiet)
    where
      cropped :
          exception_check s.vm ≡ false
          → Metered (write_cropped java frame (cropped_frames s.context.range frame.blocksize) s)
      cropped quiet =
          elim (cropped_frames-cases s.context.range frame.blocksize m.limited m.max_le m.emitted_le
            word) [
              | inl (e, full) ↦
                  subst (λ o. Metered (write_cropped java frame o s)) (sym e)
                    (record {
                      limited = m.limited;
                      limit_eq = m.limit_eq;
                      max_le = m.max_le;
                      emitted_le = m.emitted_le;
                      heard_le = m.heard_le;
                      heard_eq = m.heard_eq;
                      full = λ _. full;
                    })
              | inr (k, e, fits) ↦
                  subst (λ o. Metered (write_cropped java frame o s)) (sym e)
                    (deliver_frames-IsMetered k m quiet fits)
            ]

  -- The push path leaves the pull fields alone.
  pub decode_write_callback-pull :
      s.context.pull.pull_mode ≡ false
      → (decode_write_callback java frame s).1.context.pull ≡ s.context.pull
  unfolding decode_write_callback write_cropped deliver_frames
  decode_write_callback-pull push =
      let P = λ (w : WriteStatus × State W). w.1.context.pull ≡ s.context.pull in
      if_cases P {b = exception_check s.vm} (λ _. refl)
        λ _.
          if_cases P {b = s.context.saw_error} (λ _. refl)
            λ _.
              if_false P {b = s.context.pull.pull_mode} _ push
                (cropped (cropped_frames s.context.range frame.blocksize))
    where
      cropped : (o : Option ℕ) → (write_cropped java frame o s).1.context.pull ≡ s.context.pull
      cropped none = refl
      cropped (some k) = ground arith
