-- ===== src/Decode/Coder.antt =====
-- native/src/jflac_jni.c: a libFLAC decoder from `stream_decoder_new` to `stream_decoder_delete`, and its
-- configuration.
use java_kotlin_flac.Prelude.{ℕ, Bool, true, false, List, ◌+◌, ◌-◌, if◌then◌else◌, not}
use java_kotlin_flac.Prelude.Int.{ℤ, eqb_ℤ}
use java_kotlin_flac.Jni.{Vm, text, throw_decode_exception, throw_illegal_argument_exception}
use java_kotlin_flac.Flac.{Flac, Process}
use java_kotlin_flac.Entry.{container_ogg}

module _ {W : Type 0} where
  -- `stream_decoder_new` gave a decoder.
  abbrev pub count_decoder : Vm W → Vm W
  count_decoder vm = record vm {
    holdings = record vm.holdings { decoders = vm.holdings.decoders + 1 };
  }

  -- `stream_decoder_delete`
  abbrev pub delete_decoder : Vm W → Vm W
  delete_decoder vm = record vm {
    holdings = record vm.holdings { decoders = vm.holdings.decoders - 1 };
  }

module _ {W D : Type 0} (flac : Flac D) where
  unfoldable pub configure_decoder_md5_checking : Bool → D → Vm W → Bool × D × Vm W
  unfolding throw_decode_exception
  configure_decoder_md5_checking check_md5 d vm =
      if not check_md5
      then (true, d, vm)
      else (let (enabled, d') = flac.set_md5_checking d in
          if not enabled
          then (
            false,
            d',
            throw_decode_exception
                (text "Failed to enable FLAC MD5 checking before decoder initialisation.") vm,
          )
          else (true, d', vm))

  unfoldable pub configure_decoder_chaining : ℤ → Bool → D → Vm W → Bool × D × Vm W
  unfolding throw_decode_exception throw_illegal_argument_exception
  configure_decoder_chaining container decode_chained_ogg d vm =
      if not decode_chained_ogg
      then (true, d, vm)
      else if not (eqb_ℤ container container_ogg)
      then (
        false,
        d,
        throw_illegal_argument_exception "Chained decoding requires an Ogg FLAC source." vm,
      )
      else (let (enabled, d') = flac.set_decode_chained_stream d in
          if not enabled
          then (
            false,
            d',
            throw_decode_exception
                (text "Failed to enable chained Ogg FLAC decoding before decoder initialisation.")
                vm,
          )
          else (true, d', vm))

  -- Both settings, the second only if the first succeeds.
  unfoldable pub configure_decoder : ℤ → Bool → Bool → D → Vm W → Bool × D × Vm W
  unfolding configure_decoder_chaining configure_decoder_md5_checking
  configure_decoder container decode_chained_ogg check_md5 d vm =
      let (chaining, d₁, vm₁) = configure_decoder_chaining container decode_chained_ogg d vm in
      if not chaining then (false, d₁, vm₁) else configure_decoder_md5_checking check_md5 d₁ vm₁

module _ {D : Type 0} (flac : Flac D) where
  unfoldable pub init_file_decoder_for_container : ℤ → List ℕ → D → Process D
  init_file_decoder_for_container container path d =
      if eqb_ℤ container container_ogg then flac.init_ogg_file path d else flac.init_file path d

  unfoldable pub init_stream_decoder_for_container : ℤ → Bool → D → Process D
  init_stream_decoder_for_container container seekable d =
      if eqb_ℤ container container_ogg
      then flac.init_ogg_stream seekable d
      else flac.init_stream seekable d
