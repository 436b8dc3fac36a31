-- ===== src/Text.antt =====
-- native/src/jflac_jni.c: strings between Java, C and libFLAC. A Java string is its UTF-16 units, a C
-- buffer its bytes; a C string is read up to its first NUL.
pub mod Fields
pub mod Utf8
use java_kotlin_flac.Prelude.{
  ℕ, zero, suc, Bool, true, false, Option, none, some, List, [], ◌∷◌, ◌++◌, ◌-◌, ◌+◌, ◌==◌, ltb,
  leb, if◌then◌else◌, ◌&&◌, ◌||◌, not, int_max, length, replicate,
}
use java_kotlin_flac.Jni.{Vm, Java, text, call, in_world, exception_check, throw_decode_exception}

-- What a reader of a C string sees of the buffer.
unfoldable pub c_string : List ℕ → List ℕ
c_string [] = []
c_string (b ∷ bytes) = if b == 0 then [] else b ∷ c_string bytes

-- The index at which the loop stops: the first NUL, or the capacity.
unfoldable pub fixed_ascii_length : List ℕ → ℕ → ℕ
fixed_ascii_length value zero = 0
fixed_ascii_length [] (suc capacity) = 0
fixed_ascii_length (b ∷ value) (suc capacity) =
    if b == 0 then 0 else suc (fixed_ascii_length value capacity)

-- The destination after the copy, or `none` where the source does not fit.
unfoldable pub copy_fixed_ascii_field : ℕ → List ℕ → Option (List ℕ)
unfolding c_string
copy_fixed_ascii_field destination_size source =
    let source_length = length (c_string source) in
    if leb destination_size source_length
    then none
    else some (c_string source ++ replicate (destination_size - source_length) 0)

module _ {W : Type 0} (java : Java W) where
  copied_bytes : Option (List ℕ) → Vm W → Option (List ℕ) × Vm W
  copied_bytes none vm = (none, vm)
  copied_bytes (some bytes) vm =
      if exception_check vm
      then (none, vm)
      else (let (allocated, vm') = in_world (java.malloc (length bytes + 1)) vm in
          if not allocated
          then (none, vm')
          else if ltb 0 (length bytes) && exception_check vm'
          then (none, vm')
          else (some (bytes ++ 0 ∷ []), vm'))

  -- The buffer, NUL included. `lookups` says whether the local frame, the classes, the method and the
  -- charset were obtained.
  unfoldable pub jstring_to_utf8 : Bool → Option (List ℕ) → Vm W → Option (List ℕ) × Vm W
  unfolding copied_bytes
  jstring_to_utf8 lookups none vm = (none, vm)
  jstring_to_utf8 lookups (some value) vm =
      if not lookups
      then (none, vm)
      else (let (bytes, vm') = call none (java.get_bytes_utf8 value) vm in copied_bytes bytes vm')

  -- The flag says whether a string was made.
  unfoldable pub new_utf8_string : Bool → List ℕ → Vm W → Bool × Vm W
  unfolding throw_decode_exception
  new_utf8_string lookups bytes vm =
      if ltb int_max (length bytes)
      then (
        false,
        throw_decode_exception (text "UTF-8 metadata text is too large for one JVM byte array.") vm,
      )
      else if not lookups
      then (false, vm)
      else (let (array, vm₁) = call false (java.new_array (length bytes)) vm in
          if not array
          then (false, vm₁)
          else if ltb 0 (length bytes) && exception_check vm₁
          then (false, vm₁)
          else (let (made, vm₂) = call false (java.new_string bytes) vm₁ in
              if exception_check vm₂ then (false, vm₂) else (made, vm₂)))
