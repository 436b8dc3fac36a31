-- ===== src/Tests/OneShot.antt =====
-- The one-shot decodes of a file and of a channel, of a stream of one block.
use java_kotlin_flac.Prelude.{
  ℕ, true, false, refl, some, none, List, [], ◌∷◌, ◌≡◌, arith, length, take,
}
use java_kotlin_flac.Prelude.Int.{pos}
use java_kotlin_flac.Text.{copy_fixed_ascii_field, fixed_ascii_length}
use java_kotlin_flac.Text.Fields.{fixed_ascii_length-copy_fixed_ascii_field}
use java_kotlin_flac.Decode.Session.Outcomes.{full_consumer}
use java_kotlin_flac.Decode.Context.Channel.{all_methods}
use java_kotlin_flac.Decode.OneShot.{Wording, conclude_one_shot}
use java_kotlin_flac.Decode.OneShot.Conclusion.{IsConcluded, conclude_one_shot-IsConcluded}
use java_kotlin_flac.Decode.OneShot.Guides.{HasWords, AtMost, Anything}
use java_kotlin_flac.Decode.OneShot.Bindings.{
  decode_file, decode_file_range, decode_channel, decode_channel_range,
}
use java_kotlin_flac.Decode.OneShot.Outcomes.{
  IsSettled, decode_file-IsSettled, decode_file_range-IsSettled, decode_channel-IsSettled,
  decode_channel_range-IsSettled,
}
use java_kotlin_flac.Tests.{java, vm}
use java_kotlin_flac.Tests.Ranges.{
  short, blocks_left, one_block-IsWord, short-Progress, fuel-enough, bounded,
}

abbrev path : List ℕ
path = 47 ∷ 97 ∷ []

short-HasWords : HasWords short
short-HasWords = record {
  process_single = one_block-IsWord;
  seek_absolute = λ n d. tt;
  init_file = λ p d. tt;
  init_ogg_file = λ p d. tt;
  init_stream = λ seekable d. tt;
  init_ogg_stream = λ seekable d. tt;
  process_until_end_of_metadata = λ d. tt;
  finish = λ d. tt;
}

decode_file_range-IsSettled_example : IsSettled vm (AtMost 2) (
    decode_file_range java short none 2
      (some true)
      true
      (some path)
      (pos 0)
      (pos 0)
      (pos 2)
      full_consumer
      vm)
decode_file_range-IsSettled_example =
    decode_file_range-IsSettled java short none 2 (some true) blocks_left true (some path) (pos 0)
      (pos 0) (pos 2) vm short-HasWords short-Progress fuel-enough (λ d. refl)

decode_file-IsSettled_example :
    IsSettled vm Anything (
      decode_file java short none 0
        (some true)
        true
        (some path)
        (pos 1)
        true
        false
        full_consumer
        vm)
decode_file-IsSettled_example =
    decode_file-IsSettled java short none 0 (some true) true (some path) (pos 1) true vm

decode_channel_range-IsSettled_example : IsSettled vm (AtMost 2) (
    decode_channel_range java short none 2
      (some true)
      (some all_methods)
      (pos 0)
      (pos 0)
      (pos 2)
      full_consumer
      vm)
decode_channel_range-IsSettled_example =
    decode_channel_range-IsSettled java short none 2 (some true) blocks_left (pos 0) (pos 0) (pos 2)
      vm (λ w. refl) short-HasWords short-Progress fuel-enough (λ d. refl)

decode_channel-IsSettled_example : IsSettled vm Anything (
    decode_channel java short none 0
      (some true)
      (some all_methods)
      (pos 0)
      true
      false
      full_consumer
      vm)
decode_channel-IsSettled_example =
    decode_channel-IsSettled java short none 0 (some true) (pos 0) true vm (λ w. refl)

abbrev words : Wording
words = record {
  failed = "failed";
  reading_metadata = "metadata";
  seeking = "seeking";
  finishing = "finishing";
  allocating = "allocating";
  initializing = "initializing";
}

-- The checksum of the stream is wrong.
conclude_one_shot-IsConcluded_example :
    IsConcluded false bounded (conclude_one_shot java short words true true false none bounded)
conclude_one_shot-IsConcluded_example =
    conclude_one_shot-IsConcluded java short words none true true false bounded

-- An ISRC of three characters in a field of six bytes.
abbrev isrc : List ℕ
isrc = 85 ∷ 83 ∷ 65 ∷ []

fixed_ascii_length-copy_fixed_ascii_field_example :
    (field : List ℕ) × (copy_fixed_ascii_field 6 (85 ∷ 83 ∷ 65 ∷ 0 ∷ []) ≡ some field)
    × (length field ≡ 6)
    × (take (fixed_ascii_length field 6) field ≡ isrc)
fixed_ascii_length-copy_fixed_ascii_field_example =
    fixed_ascii_length-copy_fixed_ascii_field 6 isrc (omega arith, (omega arith, (omega arith, tt)))
      (omega arith)
