-- ===== src/Tests/Inputs.antt =====
-- The theorems on requests and on the callbacks that read and seek, applied to a channel.
use java_kotlin_flac.Prelude.{
  ℕ, zero, suc, true, some, ◌+◌, ◌≡◌, ◌≤◌, ◌<◌, ◌↔◌, refl, arith, llong_max,
}
use java_kotlin_flac.Prelude.Int.{pos}
use java_kotlin_flac.Decode.Range.{validate_decode_request}
use java_kotlin_flac.Decode.Range.Request.{validate_decode_request_iff}
use java_kotlin_flac.Decode.Source.{decode_read_callback}
use java_kotlin_flac.Decode.Source.Bounds.{FitsBuffer, decode_read_callback-FitsBuffer, ReadsWithin}
use java_kotlin_flac.Flac.{SeekStatus, OffsetStatus}
use java_kotlin_flac.Decode.Source.{decode_channel_seek_callback, decode_channel_tell_callback}
use java_kotlin_flac.Decode.Source.Offsets.{
  IsOpen, sought, decode_channel_seek_callback_lem, decode_channel_tell_callback-seek,
}
use java_kotlin_flac.Tests.{java, channel_source, vm}

validate_decode_request_iff_example :
    ((validate_decode_request (pos 3) true (pos 4) vm).0 ≡ true)
    ↔ ((a : ℕ) × (b : ℕ) × (pos 3 ≡ pos a) × (pos 4 ≡ pos b) × (a + b ≤ llong_max))
validate_decode_request_iff_example = validate_decode_request_iff (pos 3) (pos 4) vm

java-ReadsWithin : ReadsWithin java
java-ReadsWithin zero v = omega arith
java-ReadsWithin (suc n) v = omega arith

decode_read_callback-FitsBuffer_example :
    FitsBuffer 16 (decode_read_callback java (some 16) channel_source vm)
decode_read_callback-FitsBuffer_example =
    decode_read_callback-FitsBuffer java java-ReadsWithin 16 channel_source vm

channel_source-IsOpen : IsOpen 5 channel_source
channel_source-IsOpen = record {
  channel = refl;
  position = refl;
  seek = refl;
  size = refl;
  base_eq = refl;
  base_le = omega arith;
}

decode_channel_seek_callback_example :
    (llong_max < 5 + 10
      → decode_channel_seek_callback java 10 channel_source vm ≡ (SeekStatus.error, vm))
    × (5 + 10 ≤ llong_max
        → decode_channel_seek_callback java 10 channel_source vm
          ≡ sought java 5 channel_source channel_source-IsOpen vm (pos 15))
decode_channel_seek_callback_example =
    decode_channel_seek_callback_lem java 5 channel_source channel_source-IsOpen vm 10

decode_channel_tell_callback-seek_example :
    (decode_channel_seek_callback java 10 channel_source vm
      ≡ (SeekStatus.ok, record vm { world = 15 }))
    × (decode_channel_tell_callback java true channel_source (record vm { world = 15 })
        ≡ (OffsetStatus.offset 10, record vm { world = 15 }))
decode_channel_tell_callback-seek_example =
    decode_channel_tell_callback-seek java 5 channel_source channel_source-IsOpen vm 10
      (omega arith) refl 15 15 refl refl
