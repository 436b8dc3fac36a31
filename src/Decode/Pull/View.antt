-- ===== src/Decode/Pull/View.antt =====
-- native/src/jflac_jni.c: what a pull decoder has delivered to the current read and what it still
-- holds, and the invariant of its buffers.
use java_kotlin_flac.Prelude.{
  ℕ, Option, none, some, List, [], ◌++◌, ◌+◌, ◌*◌, ◌≤◌, ◌<◌, ◌≡◌, refl, ap, arith, length, take,
  drop, int_max, length-append, length-take, length-drop, zero, suc, ◌∷◌,
}
use java_kotlin_flac.Prelude.Int.{ℤ}
use java_kotlin_flac.Decode.Context.{Pull}
use java_kotlin_flac.Decode.Pull.{output_of}

-- The samples at the front of the Java array that the current read has filled in.
abbrev pub filled : Pull → List ℤ
filled p = take (p.pull_written_frames * p.pull_channels) (output_of p)

abbrev pub samples_from : ℕ → Option (List ℤ) → List ℤ
samples_from offset none = []
samples_from offset (some samples) = drop offset samples

-- The samples of the pending buffer that no read has taken yet.
abbrev pub undelivered : Pull → List ℤ
undelivered p = samples_from p.pull_pending_sample_offset p.pull_pending_samples

-- A pending buffer of whole frames, with `left` frames to go.
pub record IsAligned (channels count offset : ℕ) (samples : List ℤ) : Type 0 where
  pub counted : count ≡ length samples
  pub gone : ℕ
  pub left : ℕ
  pub offset_eq : offset ≡ gone * channels
  pub count_eq : count ≡ (gone + left) * channels
  pub count_le : count ≤ int_max

abbrev pub IsPending : ℕ → ℕ → ℕ → Option (List ℤ) → Type 0
IsPending channels count offset none = (count ≡ 0) × (offset ≡ 0)
IsPending channels count offset (some samples) = IsAligned channels count offset samples

-- Between reads: what is pending is whole frames.
abbrev pub HoldsFrames : ℕ → Pull → Type 0
HoldsFrames channels p =
    IsPending channels p.pull_pending_sample_count p.pull_pending_sample_offset
      p.pull_pending_samples

-- During a read: the array has room for the frames that were asked for.
pub record IsReading (p : Pull) : Type 0 where
  pub has_output : p.pull_output ≡ some (output_of p)
  pub capacity_eq : p.pull_output_capacity_samples ≡ length (output_of p)
  pub capacity_le : length (output_of p) ≤ int_max
  pub some_channels : 0 < p.pull_channels
  pub room : p.pull_requested_frames * p.pull_channels ≤ length (output_of p)
  pub written_le : p.pull_written_frames ≤ p.pull_requested_frames
  pub pending : HoldsFrames p.pull_channels p

-- The region `start`, `start + 1`, … of an array, overwritten.
module _ {A : Type 0} where
  take_all : (xs ys : List A) (n : ℕ) → n ≡ length xs → take n (xs ++ ys) ≡ xs
  take_all [] ys zero h = refl
  take_all [] ys (suc n) h = absurd (omega arith)
  take_all (x ∷ xs) ys zero h = absurd (omega arith)
  take_all (x ∷ xs) ys (suc n) h = ap (◌∷◌ x) (take_all xs ys n (omega arith))

  pub take-overwritten :
      (start : ℕ) (xs out : List A)
      → start + length xs ≤ length out
      → take (start + length xs) (take start out ++ xs ++ drop (start + length xs) out)
        ≡ take start out ++ xs
  take-overwritten start xs out h =
      take_all (take start out ++ xs) (drop (start + length xs) out) (start + length xs)
        (omega (arith, length-append (take start out) xs, length-take start out))

  pub length-overwritten :
      (start : ℕ) (xs out : List A)
      → start + length xs ≤ length out
      → length (take start out ++ xs ++ drop (start + length xs) out) ≡ length out
  length-overwritten start xs out h = omega (
    arith,
    length-append (take start out ++ xs) (drop (start + length xs) out),
    length-append (take start out) xs,
    length-take start out,
    length-drop (start + length xs) out,
  )

-- The pull fields that a drain leaves alone.
pub record SameRequest (p q : Pull) : Type 0 where
  pub same_mode : q.pull_mode ≡ p.pull_mode
  pub same_end : q.pull_end_of_stream ≡ p.pull_end_of_stream
  pub same_channels : q.pull_channels ≡ p.pull_channels
  pub same_requested : q.pull_requested_frames ≡ p.pull_requested_frames
  pub same_capacity : length (output_of q) ≡ length (output_of p)
