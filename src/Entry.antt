-- ===== src/Entry.antt =====
-- native/src/jflac_jni.c: what the entry points check before they do anything else.
use java_kotlin_flac.Prelude.{
  Bool, true, false, Option, none, some, String, if◌then◌else◌, ◌||◌, not,
}
use java_kotlin_flac.Prelude.Int.{ℤ, pos, eqb_ℤ}
use java_kotlin_flac.Jni.{Vm, Message, text, native_load, throw, throw_illegal_argument_exception}

-- How the loading of libFLAC ended: `none` is success, `some` the text that it left, empty for none.
abbrev pub Loading : Type 0
Loading = Option (Option String)

abbrev load_message : Option String → Message
load_message none = text "Failed to initialize FLAC API."
load_message (some error) = text error

abbrev pub container_native : ℤ
container_native = pos 0

abbrev pub container_ogg : ℤ
container_ogg = pos 1

unfoldable pub is_valid_container : ℤ → Bool
is_valid_container container = eqb_ℤ container container_native || eqb_ℤ container container_ogg

module _ {W : Type 0} where
  unfoldable pub flac_api_ready : Loading → Vm W → Bool × Vm W
  flac_api_ready none vm = (true, vm)
  flac_api_ready (some error) vm = (false, throw (native_load (load_message error)) vm)

  unfoldable pub validate_container : ℤ → Vm W → Bool × Vm W
  unfolding is_valid_container throw_illegal_argument_exception
  validate_container container vm =
      if not (is_valid_container container)
      then (false, throw_illegal_argument_exception "FLAC container code must be native or Ogg." vm)
      else (true, vm)

  -- The first checks of an entry point; `given` says that no required reference is NULL, and `message`
  -- is thrown if one is.
  unfoldable pub check_entry : Loading → ℤ → Bool → String → Vm W → Bool × Vm W
  unfolding flac_api_ready validate_container throw_illegal_argument_exception
  check_entry loading container given message vm =
      let (ready, vm₁) = flac_api_ready loading vm in
      if not ready
      then (false, vm₁)
      else (let (valid, vm₂) = validate_container container vm₁ in
          if not valid
          then (false, vm₂)
          else if not given
          then (false, throw_illegal_argument_exception message vm₂)
          else (true, vm₂))
