-- ===== src/Decode/Pull/Copy.antt =====
-- native/src/jflac_jni.c: the copy that `drain_decode_pull_pending` makes once there is something to
-- copy, the request is not met and the array has room.
use native.Mathlib.Nat.{mul-div_cancel, mul-le-mul_right, mul-lt-mul_of_pos_right}
use java_kotlin_flac.Prelude.{
  ℕ, true, false, none, some, List, ◌++◌, ◌+◌, ◌*◌, ◌-◌, ◌/◌, ◌%◌, ◌^◌, ◌≤◌, ◌<◌, ◌≡◌, refl, ap,
  sym, arith, length, take, drop, int_max, length-take, length-drop, append_assoc, append-nil,
  dec_lt, ◌∙◌, ltb, leb, if◌then◌else◌, u64, drop-drop, take-append-drop, take-eq_of_le, ◌⊎◌, inl,
  inr, subst,
}
use java_kotlin_flac.Prelude.Int.{ℤ}
use java_kotlin_flac.Decode.Context.{Range, Pull, clear_decode_pull_pending}
use java_kotlin_flac.Decode.Pull.{PullState, output_of, drain_pending, copy_region, after_copy}
use java_kotlin_flac.Decode.Pull.View.{
  filled, undelivered, samples_from, IsAligned, IsPending, IsReading, take-overwritten,
  length-overwritten, SameRequest,
}
use java_kotlin_flac.Jni.{exception_check}

-- The number of frames that a drain copies.
abbrev copied : ℕ → ℕ → ℕ
copied left wanted = if ltb left wanted then left else wanted

copied-le : (left wanted : ℕ) → (copied left wanted ≤ left) × (copied left wanted ≤ wanted)
copied-le left wanted = ground arith

-- What a drain does: the samples stay in order, and either the request is met or nothing is pending.
pub record Drained {W : Type 0} (s s' : PullState W) : Type 0 where
  pub reading : IsReading s'.pull
  pub same_samples : filled s'.pull ++ undelivered s'.pull ≡ filled s.pull ++ undelivered s.pull
  pub same_vm : s'.vm ≡ s.vm
  pub same_request : SameRequest s.pull s'.pull
  pub advanced : s.pull.pull_written_frames ≤ s'.pull.pull_written_frames
  pub emitted :
      u64 s'.range.emitted_frames
      ≡ u64 (s.range.emitted_frames + (s'.pull.pull_written_frames - s.pull.pull_written_frames))
  pub met :
      (s'.pull.pull_written_frames ≡ s'.pull.pull_requested_frames)
      ⊎ (s'.pull.pull_pending_samples ≡ none)

copied-wanted : (left wanted : ℕ) → copied left wanted < left → copied left wanted ≡ wanted
copied-wanted left wanted h = ground arith

-- A drain with something to copy and room for it.
module _ {W : Type 0} (s : PullState W) (xs : List ℤ) (r : IsReading s.pull)
    (al : IsAligned s.pull.pull_channels s.pull.pull_pending_sample_count
      s.pull.pull_pending_sample_offset xs)
    (more : s.pull.pull_pending_sample_offset < s.pull.pull_pending_sample_count)
    (wants : s.pull.pull_written_frames < s.pull.pull_requested_frames)
    (quiet : exception_check s.vm ≡ false) (held : s.pull.pull_pending_samples ≡ some xs) where
  abbrev ch : ℕ
  ch = s.pull.pull_channels

  abbrev w : ℕ
  w = s.pull.pull_written_frames

  abbrev wanted : ℕ
  wanted = s.pull.pull_requested_frames - w

  abbrev c : ℕ
  c = copied al.left wanted

  abbrev out : List ℤ
  out = output_of s.pull

  abbrev piece : List ℤ
  piece = take (c * ch) (drop s.pull.pull_pending_sample_offset xs)

  abbrev out' : List ℤ
  out' = take (w * ch) out ++ piece ++ drop (w * ch + length piece) out

  c-left : c * ch ≤ al.left * ch
  c-left = mul-le-mul_right ch (copied-le al.left wanted).0

  c-room : w * ch + c * ch ≤ length out
  c-room = omega (
    arith,
    r.room,
    mul-le-mul_right {m = w + c} {n = s.pull.pull_requested_frames} ch
        (omega (arith, (copied-le al.left wanted).1)),
  )

  length-piece : length piece ≡ c * ch
  length-piece = omega (
    arith,
    length-take (c * ch) (drop s.pull.pull_pending_sample_offset xs),
    length-drop s.pull.pull_pending_sample_offset xs,
    al.counted,
    al.offset_eq,
    al.count_eq,
    c-left,
  )

  available :
      (s.pull.pull_pending_sample_count + 2 ^ 32 - s.pull.pull_pending_sample_offset) % 2 ^ 32
      ≡ al.left * ch
  available = omega (arith, al.offset_eq, al.count_eq, al.count_le)

  available_frames :
      (s.pull.pull_pending_sample_count + 2 ^ 32 - s.pull.pull_pending_sample_offset) % 2 ^ 32 / ch
      ≡ al.left
  available_frames = ap (λ t. t / ch) available ∙ mul-div_cancel al.left r.some_channels

  copy_small : (c * ch) % 2 ^ 32 ≡ c * ch
  copy_small = omega (arith, c-room, r.capacity_le)

  start_small : (w * ch) % 2 ^ 32 ≡ w * ch
  start_small = omega (arith, c-room, r.capacity_le)

  fits : ltb s.pull.pull_output_capacity_samples (w * ch + c * ch) ≡ false
  fits = ground (arith, c-room, r.capacity_eq)

  region_fits : ltb (length out) (w * ch + length piece) ≡ false
  region_fits = ground (arith, length-piece, c-room)

  drain_pending_lem : drain_pending s out xs wanted ≡ (true, after_copy s out' (c * ch) c)
  unfolding drain_pending copy_region
  drain_pending_lem =
      rw (available_frames, copy_small, start_small, fits, region_fits, copy_region, quiet)

  pub wanted_eq : (s.pull.pull_requested_frames + 2 ^ 32 - w) % 2 ^ 32 ≡ wanted
  wanted_eq = omega (arith, wants, requested-small)
    where
      requested-small : s.pull.pull_requested_frames < 2 ^ 32
      requested-small = grind (arith, r.room, r.capacity_le, r.some_channels)

  abbrev moved : Pull
  moved = record s.pull {
    pull_output = some out';
    pull_pending_sample_offset = s.pull.pull_pending_sample_offset + c * ch;
    pull_written_frames = w + c;
  }

  offset_small :
      (s.pull.pull_pending_sample_offset + c * ch) % 2 ^ 32
      ≡ s.pull.pull_pending_sample_offset + c * ch
  offset_small = omega (arith, al.offset_eq, al.count_eq, al.count_le, c-left)

  written_small : (w + c) % 2 ^ 32 ≡ w + c
  written_small =
      grind (arith, r.room, r.capacity_le, r.some_channels, (copied-le al.left wanted).1)

  -- The samples that the copy adds to the array.
  filled-moved : take ((w + c) * ch) out' ≡ filled s.pull ++ piece
  filled-moved =
      ap (λ t. take t out') {x = (w + c) * ch} (omega (arith, length-piece))
      ∙ take-overwritten (w * ch) piece out (omega (arith, length-piece, c-room))

  piece-rest :
      piece ++ drop (s.pull.pull_pending_sample_offset + c * ch) xs
      ≡ drop s.pull.pull_pending_sample_offset xs
  piece-rest =
      ap (◌++◌ piece) (sym (drop-drop (c * ch) s.pull.pull_pending_sample_offset xs))
      ∙ take-append-drop (c * ch) (drop s.pull.pull_pending_sample_offset xs)

  moved-samples :
      take ((w + c) * ch) out' ++ drop (s.pull.pull_pending_sample_offset + c * ch) xs
      ≡ filled s.pull ++ drop s.pull.pull_pending_sample_offset xs
  moved-samples = rw filled-moved (
      append_assoc (filled s.pull) piece (drop (s.pull.pull_pending_sample_offset + c * ch) xs)
      ∙ ap (◌++◌ (filled s.pull)) piece-rest)

  moved-request : SameRequest s.pull moved
  moved-request = record {
    same_mode = refl;
    same_end = refl;
    same_channels = refl;
    same_requested = refl;
    same_capacity = length-overwritten (w * ch) piece out (omega (arith, length-piece, c-room));
  }

  advanced_range : Range
  advanced_range = record s.range { emitted_frames = u64 (s.range.emitted_frames + c) }

  emitted-moved :
      u64 (u64 (s.range.emitted_frames + c)) ≡ u64 (s.range.emitted_frames + (w + c - w))
  emitted-moved = omega arith

  moved-length : length out' ≡ length out
  moved-length = moved-request.same_capacity

  moved-written : w + c ≤ s.pull.pull_requested_frames
  moved-written = omega (arith, (copied-le al.left wanted).1, wants)

  undelivered-held : undelivered s.pull ≡ drop s.pull.pull_pending_sample_offset xs
  undelivered-held = ap (samples_from s.pull.pull_pending_sample_offset) held

  piece-all : c ≡ al.left → piece ≡ drop s.pull.pull_pending_sample_offset xs
  piece-all e = take-eq_of_le (c * ch) (drop s.pull.pull_pending_sample_offset xs) (
      omega (
        arith,
        length-drop s.pull.pull_pending_sample_offset xs,
        al.counted,
        al.offset_eq,
        al.count_eq,
        ap (λ t. t * ch) e,
      ))

  -- The buffer is emptied: all that was left has been copied.
  emptied :
      c ≡ al.left
      → Drained s (record s {
        range = record s.range { emitted_frames = u64 (s.range.emitted_frames + c) };
        pull = clear_decode_pull_pending moved;
      })
  unfolding clear_decode_pull_pending
  emptied e = record {
    reading = record {
      has_output = refl;
      capacity_eq = r.capacity_eq ∙ sym moved-length;
      capacity_le = subst (λ t. t ≤ int_max) (sym moved-length) r.capacity_le;
      some_channels = r.some_channels;
      room = subst (λ t. s.pull.pull_requested_frames * ch ≤ t) (sym moved-length) r.room;
      written_le = moved-written;
      pending = (refl, refl);
    };
    same_samples =
        append-nil (take ((w + c) * ch) out')
        ∙ filled-moved
        ∙ ap (◌++◌ (filled s.pull)) (piece-all e ∙ sym undelivered-held);
    same_vm = refl;
    same_request = record {
      same_mode = refl;
      same_end = refl;
      same_channels = refl;
      same_requested = refl;
      same_capacity = moved-length;
    };
    advanced = omega arith;
    emitted = emitted-moved;
    met = inr refl;
  }

  rest-IsAligned :
      c < al.left
      → IsAligned ch s.pull.pull_pending_sample_count
          (s.pull.pull_pending_sample_offset + c * ch)
          xs
  rest-IsAligned h = record {
    counted = al.counted;
    gone = al.gone + c;
    left = al.left - c;
    offset_eq = omega (arith, al.offset_eq);
    count_eq = al.count_eq ∙ ap (λ t. t * ch) (omega arith);
    count_le = al.count_le;
  }

  -- Samples stay in the buffer: the request is met.
  kept :
      c < al.left
      → Drained s (record s {
        range = record s.range { emitted_frames = u64 (s.range.emitted_frames + c) };
        pull = moved;
      })
  kept h = record {
    reading = record {
      has_output = refl;
      capacity_eq = r.capacity_eq ∙ sym moved-length;
      capacity_le = subst (λ t. t ≤ int_max) (sym moved-length) r.capacity_le;
      some_channels = r.some_channels;
      room = subst (λ t. s.pull.pull_requested_frames * ch ≤ t) (sym moved-length) r.room;
      written_le = moved-written;
      pending =
          subst
            (IsPending ch s.pull.pull_pending_sample_count
              (s.pull.pull_pending_sample_offset + c * ch))
            (sym held) (rest-IsAligned h);
    };
    same_samples =
        ap
          (λ t.
            take ((w + c) * ch) out' ++ samples_from (s.pull.pull_pending_sample_offset + c * ch) t)
          held
        ∙ moved-samples
        ∙ ap (◌++◌ (filled s.pull)) (sym undelivered-held);
    same_vm = refl;
    same_request = moved-request;
    advanced = omega arith;
    emitted = emitted-moved;
    met = inl (omega (arith, copied-wanted al.left wanted h, wants));
  }

  unfinished :
      c < al.left
      → leb s.pull.pull_pending_sample_count (s.pull.pull_pending_sample_offset + c * ch) ≡ false
  unfinished h =
      lt→leb-false
        (omega (arith, al.offset_eq, al.count_eq, mul-lt-mul_of_pos_right h r.some_channels))
    where
      lt→leb-false : {a b : ℕ} → b < a → leb a b ≡ false
      lt→leb-false p = ground arith

  finished :
      c ≡ al.left
      → leb s.pull.pull_pending_sample_count (s.pull.pull_pending_sample_offset + c * ch) ≡ true
  finished e = ground (arith, al.offset_eq, al.count_eq, ap (λ t. t * ch) e)

  after_copy-kept :
      c < al.left
      → after_copy s out' (c * ch) c ≡ record s {
        range = record s.range { emitted_frames = u64 (s.range.emitted_frames + c) };
        pull = moved;
      }
  unfolding after_copy
  after_copy-kept h = rw (offset_small, written_small, unfinished h)

  after_copy-emptied :
      c ≡ al.left
      → after_copy s out' (c * ch) c ≡ record s {
        range = record s.range { emitted_frames = u64 (s.range.emitted_frames + c) };
        pull = clear_decode_pull_pending moved;
      }
  unfolding after_copy
  after_copy-emptied e = rw (offset_small, written_small, finished e)

  -- The copy of a drain succeeds, on either branch of its last test.
  pub drain_pending-Drained :
      (s' : PullState W) × (drain_pending s out xs wanted ≡ (true, s')) × Drained s s'
  drain_pending-Drained = elim (dec_lt c al.left) [
    | yes h ↦ (_, drain_pending_lem ∙ ap (λ t. (true, t)) (after_copy-kept h), kept h)
    | no h ↦
        (_, drain_pending_lem ∙ ap (λ t. (true, t)) (after_copy-emptied (all h)), emptied (all h))
  ]
    where
      all : ¬ (c < al.left) → c ≡ al.left
      all h = omega (arith, (copied-le al.left wanted).0)
