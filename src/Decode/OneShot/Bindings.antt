-- ===== src/Decode/OneShot/Bindings.antt =====
-- native/src/jflac_jni.c: the native methods of the one-shot decodes.
use java_kotlin_flac.Prelude.{ℕ, Bool, true, false, Option, List}
use java_kotlin_flac.Prelude.Int.{ℤ, pos}
use java_kotlin_flac.Jni.{Vm, Java}
use java_kotlin_flac.Flac.{Flac}
use java_kotlin_flac.Entry.{Loading}
use java_kotlin_flac.Decode.OneShot.{Request}
use java_kotlin_flac.Decode.OneShot.Inputs.{
  Consumer, whole, decode_file_internal, decode_stream_internal, decode_channel_internal,
}

-- A decode from a sample on, and a decode of a range.
abbrev pub from : ℤ → ℤ → Request
from container first_sample = record {
  container = container;
  check_md5 = false;
  decode_chained_ogg = false;
  first_sample = first_sample;
  max_frames = pos 0;
  seek_before_decode = true;
  range_limited = false;
}

abbrev pub bounded : ℤ → ℤ → ℤ → Request
bounded container first_sample max_frames = record {
  container = container;
  check_md5 = false;
  decode_chained_ogg = false;
  first_sample = first_sample;
  max_frames = max_frames;
  seek_before_decode = true;
  range_limited = true;
}

module _ {W D : Type 0} (java : Java W) (flac : Flac D) (loading : Loading) (fuel : ℕ)
    (created : Option D) where
  abbrev pub Channel : Type 0
  Channel = Option (Option (Bool × Bool × Bool × Bool))

  unfoldable pub decode_file :
      Bool → Option (List ℕ) → ℤ → Bool → Bool → Consumer → Vm W → Option (Vm W)
  decode_file lookups path container check_md5 decode_chained_ogg consumer vm =
      decode_file_internal java flac loading fuel created
        (whole container check_md5 decode_chained_ogg) lookups path consumer vm

  unfoldable pub decode_stream :
      Option (Option Bool) → ℤ → Bool → Bool → Consumer → Vm W → Option (Vm W)
  decode_stream input_stream container check_md5 decode_chained_ogg consumer vm =
      decode_stream_internal java flac loading fuel created container check_md5 decode_chained_ogg
        input_stream consumer vm

  unfoldable pub decode_channel : Channel → ℤ → Bool → Bool → Consumer → Vm W → Option (Vm W)
  decode_channel channel container check_md5 decode_chained_ogg consumer vm =
      decode_channel_internal java flac loading fuel created
        (whole container check_md5 decode_chained_ogg) channel consumer vm

  unfoldable pub decode_file_from : Bool → Option (List ℕ) → ℤ → ℤ → Consumer → Vm W → Option (Vm W)
  decode_file_from lookups path container first_sample consumer vm =
      decode_file_internal java flac loading fuel created (from container first_sample) lookups path
        consumer vm

  unfoldable pub decode_channel_from : Channel → ℤ → ℤ → Consumer → Vm W → Option (Vm W)
  decode_channel_from channel container first_sample consumer vm =
      decode_channel_internal java flac loading fuel created (from container first_sample) channel
        consumer vm

  unfoldable pub decode_file_range :
      Bool → Option (List ℕ) → ℤ → ℤ → ℤ → Consumer → Vm W → Option (Vm W)
  decode_file_range lookups path container first_sample max_frames consumer vm =
      decode_file_internal java flac loading fuel created
        (bounded container first_sample max_frames) lookups path consumer vm

  unfoldable pub decode_channel_range : Channel → ℤ → ℤ → ℤ → Consumer → Vm W → Option (Vm W)
  decode_channel_range channel container first_sample max_frames consumer vm =
      decode_channel_internal java flac loading fuel created
        (bounded container first_sample max_frames) channel consumer vm
