-- ===== src/Tests/Opening.antt =====
-- The opening of a session over a file and over a channel, on an empty registry.
use java_kotlin_flac.Prelude.{ℕ, true, some, none, List, [], ◌∷◌, refl, arith}
use java_kotlin_flac.Prelude.Int.{pos}
use java_kotlin_flac.Sessions.{Registry}
use java_kotlin_flac.Sessions.System.{init}
use java_kotlin_flac.Decode.Context.{DecodeContext}
use java_kotlin_flac.Decode.Context.Channel.{all_methods, with_reference}
use java_kotlin_flac.Decode.Open.{open_decoder_file, open_decoder_channel}
use java_kotlin_flac.Decode.Open.Restored.{
  IsRestored, then_release, release_decoder-open_decoder_file, release_decoder-open_decoder_channel,
}
use java_kotlin_flac.Decode.Open.Balance.{IsOpened}
use java_kotlin_flac.Decode.Open.Outcomes.{
  with_decoder, open_decoder_file-IsOpened, open_decoder_channel-IsOpened,
}
use java_kotlin_flac.Tests.{java, flac, vm, none_held}

abbrev nothing_open : Registry (ℕ × DecodeContext)
nothing_open = (init (ℕ × DecodeContext)).registry

abbrev file_path : List ℕ
file_path = 47 ∷ 97 ∷ []

open_decoder_file-IsOpened_example :
    IsOpened java flac nothing_open none_held (with_decoder none_held) (some 7) (
      open_decoder_file java flac none 1
        (some 7)
        (some 2)
        true
        nothing_open
        true
        (some file_path)
        (pos 0)
        vm)
open_decoder_file-IsOpened_example =
    open_decoder_file-IsOpened java flac none (some 7) (some 2) true nothing_open 1 (omega arith)
      refl (omega arith) true (some file_path) (pos 0) vm

open_decoder_channel-IsOpened_example :
    IsOpened java flac nothing_open none_held (with_reference (with_decoder none_held)) (some 7) (
      open_decoder_channel java flac none 1
        (some 7)
        (some 2)
        true
        nothing_open
        (some all_methods)
        (pos 1)
        vm)
open_decoder_channel-IsOpened_example =
    open_decoder_channel-IsOpened java flac none (some 7) (some 2) true nothing_open 1 (omega arith)
      refl (omega arith) (pos 1) vm (λ w. refl)

release_decoder-open_decoder_file_example : IsRestored nothing_open none_held (
    then_release java flac (
      open_decoder_file java flac none 1
        (some 7)
        (some 2)
        true
        nothing_open
        true
        (some file_path)
        (pos 0)
        vm))
release_decoder-open_decoder_file_example =
    release_decoder-open_decoder_file java flac none (some 7) (some 2) true nothing_open 1
      (omega arith) refl (omega arith) (λ p e. refl) true (some file_path) (pos 0) vm

release_decoder-open_decoder_channel_example : IsRestored nothing_open none_held (
    then_release java flac (
      open_decoder_channel java flac none 1
        (some 7)
        (some 2)
        true
        nothing_open
        (some all_methods)
        (pos 1)
        vm))
release_decoder-open_decoder_channel_example =
    release_decoder-open_decoder_channel java flac none (some 7) (some 2) true nothing_open 1
      (omega arith) refl (omega arith) (λ p e. refl) (pos 1) vm (λ w. refl)
