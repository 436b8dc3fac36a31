-- ===== src/Decode/Read/Results.antt =====
-- native/src/jflac_jni.c: `readPullDecoderInterleaved` as a whole, from one read to the next.
use java_kotlin_flac.Prelude.{
  ◌⊎◌, inl, inr, ℕ, suc, true, false, Option, some, List, [], ◌++◌, ◌*◌, ◌≤◌, ◌<◌, ◌≡◌, refl, ap,
  sym, arith, ◌∙◌, subst, if_false, length, take, not, ◌||◌, ◌==◌, ltb, int_max, append-nil,
}
use java_kotlin_flac.Prelude.Int.{ℤ, pos, pos_part}
use java_kotlin_flac.Jni.{Java, exception_check}
use java_kotlin_flac.Flac.{Flac, Frame}
use java_kotlin_flac.Decode.Pull.{PullState, drain_decode_pull_pending}
use java_kotlin_flac.Decode.Pull.View.{filled, undelivered, IsReading, HoldsFrames}
use java_kotlin_flac.Decode.Pull.Copy.{Drained}
use java_kotlin_flac.Decode.Pull.Drain.{drain_decode_pull_pending-Drained}
use java_kotlin_flac.Decode.Write.{State}
use java_kotlin_flac.Decode.Callbacks.Pulls.{samples_of, Pulled}
use java_kotlin_flac.Decode.Read.{
  PullResult, read_pull_decoder_interleaved, read_frames, begin_pull, drain_and_pull, pull_state,
  with_pull_state,
}
use java_kotlin_flac.Decode.Read.Continuity.{Progress, Continued}
use java_kotlin_flac.Decode.Read.Loop.{MixedRead, pull_loop-Continued}

-- An open pull session between two reads, of a stream with `n` channels.
pub record IsPullSession {W : Type 0} (n : ℕ) (s : State W) : Type 0 where
  pub mode : s.context.pull.pull_mode ≡ true
  pub described : s.context.stream.saw_stream_info ≡ true
  pub channels_eq : s.context.stream.stream_info.channels ≡ n
  pub some_channels : 0 < n
  pub holds : HoldsFrames n s.context.pull
  pub quiet : exception_check s.vm ≡ false

-- What a read of at most `m` frames into `samples` leaves.
pub record ReadOn {W D : Type 0} (n m : ℕ) (samples : List ℤ) (s : State W) (r : PullResult W D)
    : Type 0 where
  pub news : List Frame
  pub written : ℕ
  pub delivered_eq : r.state.delivered ≡ s.delivered ++ news
  pub continues :
      take (written * n) r.output ++ undelivered r.state.context.pull
      ≡ undelivered s.context.pull ++ samples_of news
  pub written_le : written ≤ m
  pub holds : HoldsFrames n r.state.context.pull
  pub same_length : length r.output ≡ length samples
  pub returned : exception_check r.state.vm ≡ false → pos_part r.frames ≡ written

-- The state after the first drain of a read.
abbrev drained : {W : Type 0} → State W → State W
drained s = with_pull_state s (drain_decode_pull_pending (pull_state s)).1

-- The state in which a read of `m` frames into `samples` starts to call libFLAC.
abbrev pub pulls_from : {W : Type 0} → ℕ → ℕ → List ℤ → State W → State W
pulls_from m n samples s = drained (record s { context = begin_pull m n samples s.context })

module _ {W D : Type 0} (java : Java W) (flac : Flac D) (n : ℕ) (left : D → ℕ)
    (progress : Progress flac left) where
  -- The state of a read that has just begun.
  begin_pull-IsReading :
      (m : ℕ) (samples : List ℤ) (s : State W)
      → IsPullSession n s
      → m * n ≤ length samples
      → length samples ≤ int_max
      → IsReading (begin_pull m n samples s.context).pull
  unfolding begin_pull
  begin_pull-IsReading m samples s v fits small = record {
    has_output = refl;
    capacity_eq = refl;
    capacity_le = small;
    some_channels = v.some_channels;
    room = fits;
    written_le = omega arith;
    pending = v.holds;
  }

  -- The first drain is a step of the read in which libFLAC delivers nothing.
  Drained-Pulled :
      (s : State W) (p : PullState W) → Drained (pull_state s) p → Pulled s (with_pull_state s p)
  Drained-Pulled s p d = record {
    news = [];
    delivered_eq = sym (append-nil s.delivered);
    same_samples =
        d.same_samples ∙ sym (append-nil (filled s.context.pull ++ undelivered s.context.pull));
    reading = d.reading;
    same_request = d.same_request;
    advanced = d.advanced;
    emitted = d.emitted;
  }

  drain_and_pull-Continued :
      (fuel : ℕ) (d : D) (s : State W)
      → left d < fuel
      → s.context.pull.pull_mode ≡ true
      → s.context.pull.pull_channels ≡ n
      → IsReading s.context.pull
      → exception_check s.vm ≡ false
      → (r : PullResult W D) × (drain_and_pull java flac fuel d s ≡ some r)
        × (MixedRead java flac n d (drained s) ⊎ Continued n s r)
  unfolding drain_and_pull
  drain_and_pull-Continued fuel d s enough mode same reading quiet =
      let (p, e, done) = drain_decode_pull_pending-Drained (pull_state s) reading quiet in
      rw e (
        pull_loop-Continued java flac n left progress fuel d s (with_pull_state s p) enough mode
          same (Drained-Pulled s p done))

  -- The guards pass.
  read_frames-lem :
      (fuel m : ℕ) (samples : List ℤ) (d : D) (s : State W)
      → IsPullSession n s
      → suc m * n ≤ length samples
      → length samples ≤ int_max
      → read_frames java flac fuel samples (suc m) d s
        ≡ drain_and_pull java flac fuel d
            (record s { context = begin_pull (suc m) n samples s.context })
  unfolding read_frames
  read_frames-lem fuel m samples d s v fits small =
      let channels = s.context.stream.stream_info.channels in
      let P = λ (o : Option (PullResult W D)).
        o
        ≡ drain_and_pull java flac fuel d
            (record s { context = begin_pull (suc m) n samples s.context }) in
      if_false P {b = not s.context.pull.pull_mode || not s.context.stream.saw_stream_info} _
        (ground (arith, v.mode, v.described))
        (if_false P
          {b = channels == 0
            || ltb int_max (suc m * channels)
            || ltb (length samples) (suc m * channels)}
          _ (fit channels v.channels_eq)
          (ap
            (λ c.
              drain_and_pull java flac fuel d
                (record s { context = begin_pull (suc m) c samples s.context }))
            v.channels_eq))
    where
      fit :
          (c : ℕ)
          → c ≡ n
          → (c == 0 || ltb int_max (suc m * c) || ltb (length samples) (suc m * c)) ≡ false
      fit c e =
          subst
            (λ t. (t == 0 || ltb int_max (suc m * t) || ltb (length samples) (suc m * t)) ≡ false)
            (sym e) (ground (arith, v.some_channels))

  Continued-ReadOn :
      (m : ℕ) (samples : List ℤ) (s : State W) (r : PullResult W D)
      → Continued n (record s { context = begin_pull (suc m) n samples s.context }) r
      → ReadOn n (suc m) samples s r
  unfolding begin_pull
  Continued-ReadOn m samples s r c = record {
    news = c.news;
    written = r.state.context.pull.pull_written_frames;
    delivered_eq = c.delivered_eq;
    continues =
        c.samples
        ∙ ap (λ k. take k samples ++ undelivered s.context.pull ++ samples_of c.news) {x = 0 * n}
            {y = 0} (omega arith);
    written_le = c.written_le;
    holds = c.holds;
    same_length = c.same_length;
    returned = c.returned;
  }

  -- With enough fuel a read of a positive number of frames into an array with room for them ends. Either
  -- libFLAC hands over in it a block whose channel count is not STREAMINFO's. Or what the read has put at
  -- the front of the array and what the decoder still holds are the samples that were held before it,
  -- followed by those of the blocks that libFLAC delivered: whole, in order, none lost and none twice,
  -- whether the blocks are larger or smaller than the request; and if no exception is pending, the return
  -- value counts the frames at the front.
  pub read_pull_decoder_interleaved-ReadOn :
      (fuel m : ℕ) (samples : List ℤ) (d : D) (s : State W)
      → IsPullSession n s
      → left d < fuel
      → suc m * n ≤ length samples
      → length samples ≤ int_max
      → (r : PullResult W D) × (read_pull_decoder_interleaved java flac fuel
            (some samples)
            (pos (suc m))
            d
            s
          ≡ some r)
        × (MixedRead java flac n d (pulls_from (suc m) n samples s) ⊎ ReadOn n (suc m) samples s r)
  unfolding read_pull_decoder_interleaved begin_pull
  read_pull_decoder_interleaved-ReadOn fuel m samples d s v enough fits small =
      let s₀ = record s { context = begin_pull (suc m) n samples s.context } in
      let (r, e, c) =
        drain_and_pull-Continued fuel d s₀ enough v.mode refl
          (begin_pull-IsReading (suc m) samples s v fits small) v.quiet in
      (
        r,
        read_frames-lem fuel m samples d s v fits small ∙ e,
        elim c [ inl mixed ↦ inl mixed | inr q ↦ inr (Continued-ReadOn m samples s r q) ],
      )
