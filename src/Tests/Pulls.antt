-- ===== src/Tests/Pulls.antt =====
-- The pull decoder's theorems, applied to a stream of blocks of three stereo frames.
use java_kotlin_flac.Prelude.{
  ℕ, zero, suc, ◌⊎◌, inl, inr, true, some, ◌+◌, ◌*◌, ◌≡◌, refl, arith, get_elem?,
}
use java_kotlin_flac.Prelude.Int.{pos}
use java_kotlin_flac.Decode.Pull.{
  interleave, PullState, decode_pull_write_callback, drain_decode_pull_pending,
}
use java_kotlin_flac.Decode.Pull.View.{IsReading}
use java_kotlin_flac.Decode.Pull.Interleave.{get_elem?-interleave}
use java_kotlin_flac.Decode.Pull.Copy.{Drained}
use java_kotlin_flac.Decode.Pull.Drain.{drain_decode_pull_pending-Drained}
use java_kotlin_flac.Decode.Pull.Block.{PullWritten, decode_pull_write_callback-PullWritten}
use java_kotlin_flac.Decode.Callbacks.{run}
use java_kotlin_flac.Decode.Callbacks.Pulls.{IsMixed, Pulled, run-Pulled}
use java_kotlin_flac.Decode.Read.Loop.{MixedRead, now, later}
use java_kotlin_flac.Decode.Write.{State}
use java_kotlin_flac.Decode.Read.{read_pull_decoder_interleaved, PullResult, pull_state}
use java_kotlin_flac.Decode.Read.Results.{
  IsPullSession, ReadOn, pulls_from, read_pull_decoder_interleaved-ReadOn,
}
use java_kotlin_flac.Tests.{
  java, flac, single, flac-Progress, block, state, left_over, reading, reading_empty, eight,
}

left_over-IsPullSession : IsPullSession 2 (state left_over)
left_over-IsPullSession = record {
  mode = refl;
  described = refl;
  channels_eq = refl;
  some_channels = omega arith;
  holds = record {
    counted = refl;
    gone = 1;
    left = 1;
    offset_eq = refl;
    count_eq = refl;
    count_le = omega arith;
  };
  quiet = refl;
}

reading-IsReading : IsReading reading
reading-IsReading = record {
  has_output = refl;
  capacity_eq = refl;
  capacity_le = omega arith;
  some_channels = omega arith;
  room = omega arith;
  written_le = omega arith;
  pending = left_over-IsPullSession.holds;
}

reading_empty-IsReading : IsReading reading_empty
reading_empty-IsReading = record {
  has_output = refl;
  capacity_eq = refl;
  capacity_le = omega arith;
  some_channels = omega arith;
  room = omega arith;
  written_le = omega arith;
  pending = (refl, refl);
}

read_pull_decoder_interleaved-ReadOn_example :
    (r : PullResult ℕ ℕ) × (read_pull_decoder_interleaved java flac 4
        (some eight)
        (pos 4)
        3
        (state left_over)
      ≡ some r)
    × (MixedRead java flac 2 3 (pulls_from 4 2 eight (state left_over))
        ⊎ ReadOn 2 4 eight (state left_over) r)
read_pull_decoder_interleaved-ReadOn_example =
    read_pull_decoder_interleaved-ReadOn java flac 2 (λ d. d) flac-Progress 4 3 eight 3
      (state left_over) left_over-IsPullSession (omega arith) (omega arith) (omega arith)

-- Every block of the stream has two channels, so the read goes on where the one before it ended.
single-uniform : (d : ℕ) (t : State ℕ) → ¬ IsMixed java 2 (single d) t
single-uniform zero t m = m
single-uniform (suc d) t (inl differs) = differs refl
single-uniform (suc d) t (inr m) = m

flac-uniform : {d : ℕ} {t : State ℕ} → ¬ MixedRead java flac 2 d t
flac-uniform {d} {t} (now going m) = single-uniform d t m
flac-uniform (later going on m) = flac-uniform m

left_over-ReadOn :
    (r : PullResult ℕ ℕ) × (read_pull_decoder_interleaved java flac 4
        (some eight)
        (pos 4)
        3
        (state left_over)
      ≡ some r)
    × ReadOn 2 4 eight (state left_over) r
left_over-ReadOn = unmixed (
    read_pull_decoder_interleaved-ReadOn java flac 2 (λ d. d) flac-Progress 4 3 eight 3
      (state left_over) left_over-IsPullSession (omega arith) (omega arith) (omega arith))
  where
    unmixed :
        (r : PullResult ℕ ℕ) × (read_pull_decoder_interleaved java flac 4
              (some eight)
              (pos 4)
              3
              (state left_over)
            ≡ some r)
          × (MixedRead java flac 2 3 (pulls_from 4 2 eight (state left_over))
              ⊎ ReadOn 2 4 eight (state left_over) r)
        → (r : PullResult ℕ ℕ) × (read_pull_decoder_interleaved java flac 4
              (some eight)
              (pos 4)
              3
              (state left_over)
            ≡ some r)
          × ReadOn 2 4 eight (state left_over) r
    unmixed (r, e, inl m) = absurd (flac-uniform m)
    unmixed (r, e, inr h) = (r, e, h)

run-Pulled_example :
    IsMixed java 2 (single 3) (state reading_empty)
    ⊎ Pulled (state reading_empty) (run java (single 3) (state reading_empty)).2
run-Pulled_example =
    run-Pulled java 2 (single 3) (state reading_empty) refl refl reading_empty-IsReading

decode_pull_write_callback-PullWritten_example :
    PullWritten block
      (pull_state (state reading_empty))
      (decode_pull_write_callback java block (pull_state (state reading_empty)))
decode_pull_write_callback-PullWritten_example =
    decode_pull_write_callback-PullWritten java block (pull_state (state reading_empty))
      reading_empty-IsReading refl refl

drain_decode_pull_pending-Drained_example :
    (s' : PullState ℕ) × (drain_decode_pull_pending (pull_state (state reading)) ≡ (true, s'))
    × Drained (pull_state (state reading)) s'
drain_decode_pull_pending-Drained_example =
    drain_decode_pull_pending-Drained (pull_state (state reading)) reading-IsReading refl

get_elem?-interleave_example : get_elem? (interleave block.buffer 2 0 3) (2 * 2 + 1) ≡ some (pos 21)
get_elem?-interleave_example = get_elem?-interleave block.buffer 2 3 2 1 (omega arith) (omega arith)
