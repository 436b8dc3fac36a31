-- ===== src/Decode/Pull/Interleave.antt =====
-- native/src/jflac_jni.c: the interleaved order of the samples of a block.
use mathlib.Core.Path.{ap₂}
use java_kotlin_flac.Prelude.{
  ℕ, zero, suc, List, [], ◌∷◌, ◌++◌, some, ◌+◌, ◌*◌, ◌<◌, ◌≡◌, refl, ap, arith, length,
  length-append, get_elem?, ◌∙◌,
}
use java_kotlin_flac.Prelude.Int.{ℤ}
use java_kotlin_flac.Decode.Pull.{interleave, channel_row}

length-channel_row : (b : ℕ → ℕ → ℤ) (i c n : ℕ) → length (channel_row b i c n) ≡ n
unfolding channel_row
length-channel_row b i c zero = refl
length-channel_row b i c (suc n) = omega (arith, length-channel_row b i (c + 1) n)

pub length-interleave :
    (b : ℕ → ℕ → ℤ) (channels i n : ℕ) → length (interleave b channels i n) ≡ n * channels
unfolding interleave
length-interleave b channels i zero = omega arith
length-interleave b channels i (suc n) = omega (
  arith,
  length-append (channel_row b i 0 channels) (interleave b channels (i + 1) n),
  length-channel_row b i 0 channels,
  length-interleave b channels (i + 1) n,
)

get_elem?-append_lt :
    (xs ys : List ℤ) (k : ℕ) → k < length xs → get_elem? (xs ++ ys) k ≡ get_elem? xs k
get_elem?-append_lt [] ys k h = elim h [ ]
get_elem?-append_lt (x ∷ xs) ys zero h = refl
get_elem?-append_lt (x ∷ xs) ys (suc k) h = get_elem?-append_lt xs ys k (omega arith)

get_elem?-append_add :
    (xs ys : List ℤ) (n k : ℕ) → length xs ≡ n → get_elem? (xs ++ ys) (n + k) ≡ get_elem? ys k
get_elem?-append_add [] ys n k h = ap (get_elem? ys) (omega arith)
get_elem?-append_add (x ∷ xs) ys zero k h = absurd (omega arith)
get_elem?-append_add (x ∷ xs) ys (suc n) k h =
    let e : suc n + k ≡ suc (n + k) = omega arith in
    rw e (get_elem?-append_add xs ys n k (omega arith))

get_elem?-channel_row :
    (b : ℕ → ℕ → ℤ) (i c n k : ℕ) → k < n → get_elem? (channel_row b i c n) k ≡ some (b (c + k) i)
unfolding channel_row
get_elem?-channel_row b i c zero k h = elim h [ ]
get_elem?-channel_row b i c (suc n) zero h = ap (λ t. some (b t i)) (omega arith)
get_elem?-channel_row b i c (suc n) (suc k) h =
    get_elem?-channel_row b i (c + 1) n k (omega arith) ∙ ap (λ t. some (b t i)) (omega arith)

get_elem?-interleave_from :
    (b : ℕ → ℕ → ℤ) (channels i n f c : ℕ)
    → f < n
    → c < channels
    → get_elem? (interleave b channels i n) (f * channels + c) ≡ some (b c (i + f))
unfolding interleave
get_elem?-interleave_from b channels i zero f c h k = elim h [ ]
get_elem?-interleave_from b channels i (suc n) zero c h k =
    let e : 0 * channels + c ≡ c = omega arith in
    rw e (
      get_elem?-append_lt (channel_row b i 0 channels) (interleave b channels (i + 1) n) c
        (omega (arith, length-channel_row b i 0 channels))
      ∙ get_elem?-channel_row b i 0 channels c k
      ∙ ap₂ (λ s t. some (b s t)) (omega arith) (omega arith))
get_elem?-interleave_from b channels i (suc n) (suc f) c h k =
    let e : suc f * channels + c ≡ channels + (f * channels + c) = omega arith in
    rw e (
      get_elem?-append_add (channel_row b i 0 channels) (interleave b channels (i + 1) n) channels
        (f * channels + c) (length-channel_row b i 0 channels)
      ∙ get_elem?-interleave_from b channels (i + 1) n f c (omega arith) k
      ∙ ap (λ t. some (b c t)) (omega arith))

-- Sample `c` of frame `f` of a block stands at index `f * channels + c` of its interleaved samples.
pub get_elem?-interleave :
    (b : ℕ → ℕ → ℤ) (channels n f c : ℕ)
    → f < n
    → c < channels
    → get_elem? (interleave b channels 0 n) (f * channels + c) ≡ some (b c f)
get_elem?-interleave b channels n f c h k =
    get_elem?-interleave_from b channels 0 n f c h k ∙ ap (λ t. some (b c t)) (omega arith)
