-- ===== src/Text/Fields.antt =====
-- native/src/jflac_jni.c: fixed-width ASCII fields, as CUESHEET blocks have them.
use java_kotlin_flac.Prelude.{
  ℕ, zero, suc, none, some, List, [], ◌∷◌, ◌++◌, ◌-◌, ◌+◌, ◌==◌, leb, ◌≡◌, refl, ap, ◌<◌, length,
  replicate, take, arith, length-append, length-replicate, if_false, ◌∙◌,
}
use java_kotlin_flac.Text.{c_string, fixed_ascii_length, copy_fixed_ascii_field}

-- No byte is NUL.
abbrev pub IsNulFree : List ℕ → Type 0
IsNulFree [] = Unit {0}
IsNulFree (b ∷ bytes) = (0 < b) × IsNulFree bytes

pub c_string-eq : (bytes rest : List ℕ) → IsNulFree bytes → c_string (bytes ++ 0 ∷ rest) ≡ bytes
unfolding c_string
c_string-eq [] rest h = refl
c_string-eq (b ∷ bytes) rest h =
    if_false (λ x. x ≡ b ∷ bytes) {b = b == 0} _ (ground (arith, h.0))
      (ap (◌∷◌ b) (c_string-eq bytes rest h.1))

fixed_ascii_length-padded :
    (bytes : List ℕ) (n capacity : ℕ)
    → IsNulFree bytes
    → capacity ≡ length bytes + n
    → fixed_ascii_length (bytes ++ replicate n 0) capacity ≡ length bytes
unfolding fixed_ascii_length
fixed_ascii_length-padded bytes n zero h e = omega (arith, e)
fixed_ascii_length-padded [] zero (suc capacity) h e = refl
fixed_ascii_length-padded [] (suc n) (suc capacity) h e = refl
fixed_ascii_length-padded (b ∷ bytes) n (suc capacity) h e =
    if_false (λ x. x ≡ suc (length bytes)) {b = b == 0} _ (ground (arith, h.0))
      (ap suc (fixed_ascii_length-padded bytes n capacity h.1 (omega (arith, e))))

take-append : (xs ys : List ℕ) → take (length xs) (xs ++ ys) ≡ xs
take-append [] ys = refl
take-append (x ∷ xs) ys = ap (◌∷◌ x) (take-append xs ys)

-- A text of a C string is copied to a field exactly where it is shorter than the field. The field
-- then has its full width, and reading the field up to its first NUL gives the text back.
pub fixed_ascii_length-copy_fixed_ascii_field :
    (size : ℕ) (bytes : List ℕ)
    → IsNulFree bytes
    → length bytes < size
    → (field : List ℕ) × (copy_fixed_ascii_field size (bytes ++ 0 ∷ []) ≡ some field)
      × (length field ≡ size)
      × (take (fixed_ascii_length field size) field ≡ bytes)
unfolding copy_fixed_ascii_field
fixed_ascii_length-copy_fixed_ascii_field size bytes h fits =
    let text = c_string-eq bytes [] h in
    let n = size - length bytes in
    let padded = bytes ++ replicate n 0 in
    (
      padded,
      rw text (
          if_false (λ o. o ≡ some padded) {b = leb size (length bytes)} none (ground (arith, fits))
            refl),
      omega (arith, length-append bytes (replicate n 0), length-replicate {A = ℕ} n 0, fits),
      ap (λ k. take k padded) (fixed_ascii_length-padded bytes n size h (omega (arith, fits)))
          ∙ take-append bytes (replicate n 0),
    )
