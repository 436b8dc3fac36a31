-- ===== src/Tests/Ranges.antt =====
-- The theorems on bounded decodes, applied to a range of four frames of a stream of three-frame blocks.
use java_kotlin_flac.Prelude.{
  ℕ, zero, suc, Bool, true, false, none, some, ◌≡◌, refl, arith, ◌<◌, ◌⊎◌, inl, inr,
}
use java_kotlin_flac.Prelude.Int.{pos}
use java_kotlin_flac.Flac.{Flac, Process, writes, finished, DecoderState}
use java_kotlin_flac.Decode.Read.Continuity.{Progress, Finishes}
use java_kotlin_flac.Decode.Session.{decode_decoder_range}
use java_kotlin_flac.Decode.Session.Outcomes.{
  IsDecoded, full_consumer, decode_decoder_range-IsDecoded,
}
use java_kotlin_flac.Decode.Context.{Range}
use java_kotlin_flac.Decode.Write.{State, decode_write_callback}
use java_kotlin_flac.Decode.Write.Crop.{IsMetered, decode_write_callback-IsMetered}
use java_kotlin_flac.Decode.Callbacks.{run}
use java_kotlin_flac.Decode.Callbacks.Bounded.{IsWord, IsBounded, run-IsBounded}
use java_kotlin_flac.Decode.Process.{process_range}
use java_kotlin_flac.Decode.Process.Ranges.{RangeEnded, process_range-RangeEnded}
use java_kotlin_flac.Tests.{java, flac, single, flac-Progress, block, state, left_over, vm, range}

abbrev pub four : Range
four = record range { range_limited = true; max_frames = 4 }

abbrev pub bounded : State ℕ
bounded =
    let s = state left_over in
    record s {
      context = record s.context {
        range = four;
        pull = record s.context.pull { pull_mode = false };
      };
    }

four-IsMetered : IsMetered 0 4 vm four
four-IsMetered = record {
  limited = refl;
  limit_eq = refl;
  max_le = omega arith;
  emitted_le = omega arith;
  heard_le = omega arith;
  heard_eq = λ _. refl;
  full = λ e. absurd cc;
}

bounded-IsBounded : IsBounded 0 4 bounded
bounded-IsBounded = record { push = refl; metered = four-IsMetered }

single-IsWord : (d : ℕ) → IsWord (flac.process_single d)
single-IsWord zero = tt
single-IsWord (suc d) = (omega arith, λ status. tt)

decode_write_callback-IsMetered_example :
    IsMetered 0 4
      (decode_write_callback java block bounded).1.vm
      (decode_write_callback java block bounded).1.context.range
decode_write_callback-IsMetered_example =
    decode_write_callback-IsMetered java 0 4 block bounded refl (omega arith) four-IsMetered

run-IsBounded_example : IsBounded 0 4 (run java (single 3) bounded).2
run-IsBounded_example =
    run-IsBounded java 0 4 (single 3) bounded (single-IsWord 3) bounded-IsBounded

process_range-RangeEnded_example :
    (r : Bool × ℕ × State ℕ) × (process_range java flac 4 3 bounded ≡ some r)
    × RangeEnded flac 0 4 r
process_range-RangeEnded_example =
    process_range-RangeEnded java flac 0 4 (λ d. d) single-IsWord flac-Progress 4 3 bounded
      (omega arith) bounded-IsBounded

-- A decoder of a single block; its state says whether the block is left.
abbrev pub one_block : Bool → Process Bool
one_block true = writes block (λ status. finished true false)
one_block false = finished true false

abbrev pub one_state : Bool → DecoderState
one_state true = DecoderState.searching
one_state false = DecoderState.end_of_stream

abbrev pub short : Flac Bool
short = record {
  process_single = one_block;
  process_until_end_of_stream = λ d. finished true false;
  process_until_end_of_link = λ d. finished true false;
  seek_absolute = λ n d. finished true true;
  finish_link = λ d. finished true d;
  get_state = one_state;
  get_resolved_state_string = λ d. none;
  set_md5_checking = λ d. (true, d);
  set_decode_chained_stream = λ d. (true, d);
  init_file = λ path d. finished true d;
  init_ogg_file = λ path d. finished true d;
  init_stream = λ seekable d. finished true d;
  init_ogg_stream = λ seekable d. finished true d;
  process_until_end_of_metadata = λ d. finished true d;
  finish = λ d. finished true d;
}

abbrev pub blocks_left : Bool → ℕ
blocks_left true = 1
blocks_left false = 0

short-advances :
    (d : Bool)
    → Finishes
        (λ success d'.
          (blocks_left d' < blocks_left d)
          ⊎ (success ≡ false)
          ⊎ (short.get_state d' ≡ DecoderState.end_of_stream)
          ⊎ (short.get_state d' ≡ DecoderState.aborted))
        (short.process_single d)
short-advances true = λ status. inl (omega arith)
short-advances false = inr (inr (inl refl))

pub short-Progress : Progress short blocks_left
short-Progress = record { advances = short-advances }

pub one_block-IsWord : (d : Bool) → IsWord (short.process_single d)
one_block-IsWord true = (omega arith, λ status. tt)
one_block-IsWord false = tt

pub fuel-enough : (d : Bool) → blocks_left d < 2
fuel-enough true = omega arith
fuel-enough false = omega arith

decode_decoder_range-IsDecoded_example :
    IsDecoded 0 2 (decode_decoder_range java short 2 (pos 0) (pos 2) full_consumer true bounded)
decode_decoder_range-IsDecoded_example =
    decode_decoder_range-IsDecoded java short blocks_left 2 one_block-IsWord (λ n d. tt)
      short-Progress fuel-enough 0 2 true bounded (omega arith) refl
