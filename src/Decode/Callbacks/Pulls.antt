-- ===== src/Decode/Callbacks/Pulls.antt =====
-- native/src/jflac_jni.c: what one call of libFLAC does to a pull session, whatever callbacks it makes.
use java_kotlin_flac.Prelude.{
  ◌≢◌, ◌⊎◌, inl, inr, some, ℕ_discrete, ℕ, true, List, [], ◌∷◌, ◌++◌, ◌+◌, ◌-◌, ◌≤◌, ◌≡◌, refl, ap,
  sym, arith, ◌∙◌, u64, subst, if_cases, if_true, ltb, append-nil, append_assoc,
}
use java_kotlin_flac.Prelude.Int.{ℤ}
use java_kotlin_flac.Jni.{Java, StreamInfo, exception_check}
use java_kotlin_flac.Flac.{
  Frame, ErrorStatus, WriteStatus, Metadata, streaminfo, other, Process, finished, writes,
  describes, reports, reads, seeks, tells, measures, asks_eof,
}
use java_kotlin_flac.Decode.Context.{Pull, Stream, DecodeContext}
use java_kotlin_flac.Decode.Pull.{interleaved_block, PullState}
use java_kotlin_flac.Decode.Pull.View.{filled, undelivered, IsReading, SameRequest}
use java_kotlin_flac.Decode.Pull.Block.{
  PullWritten, accepted, refused, decode_pull_write_callback-PullWritten,
}
use java_kotlin_flac.Decode.Source.{
  decode_read_callback, decode_channel_seek_callback, decode_channel_tell_callback,
  decode_channel_length_callback, decode_channel_eof_callback,
}
use java_kotlin_flac.Decode.Write.{State, decode_write_callback}
use java_kotlin_flac.Decode.Callbacks.{
  decode_metadata_callback, decode_error_callback, next_link, forward_stream_info, deliver, run,
}

-- The samples of a list of blocks, in order.
abbrev pub samples_of : List Frame → List ℤ
samples_of [] = []
samples_of (f ∷ fs) = interleaved_block f ++ samples_of fs

-- Some block that a call of libFLAC hands over, run from `s`, has another channel count than `n`.
abbrev pub IsMixed : {W D : Type 0} → Java W → ℕ → Process D → State W → Type 0
IsMixed java n (finished success d) s = ⊥
IsMixed java n (writes frame k) s =
    (frame.channels ≢ n)
    ⊎ IsMixed java n (k (decode_write_callback java frame s).0)
        (deliver java frame (decode_write_callback java frame s))
IsMixed java n (describes m k) s = IsMixed java n k (decode_metadata_callback java m s)
IsMixed java n (reports e k) s =
    IsMixed java n k (record s { context = decode_error_callback e s.context })
IsMixed java n (reads m k) s =
    let r = decode_read_callback java (some m) s.context.source s.vm in
    IsMixed java n (k r.0) (record s { vm = r.1 })
IsMixed java n (seeks m k) s =
    let r = decode_channel_seek_callback java m s.context.source s.vm in
    IsMixed java n (k r.0) (record s { vm = r.1 })
IsMixed java n (tells k) s =
    let r = decode_channel_tell_callback java true s.context.source s.vm in
    IsMixed java n (k r.0) (record s { vm = r.1 })
IsMixed java n (measures k) s =
    let r = decode_channel_length_callback java true s.context.source s.vm in
    IsMixed java n (k r.0) (record s { vm = r.1 })
IsMixed java n (asks_eof k) s =
    let r = decode_channel_eof_callback java s.context.source s.vm in
    IsMixed java n (k r.0) (record s { vm = r.1 })

-- From `s` to `s'` the blocks `news` were delivered: their samples stand behind those before them.
pub record Pulled {W : Type 0} (s s' : State W) : Type 0 where
  pub news : List Frame
  pub delivered_eq : s'.delivered ≡ s.delivered ++ news
  pub same_samples :
      filled s'.context.pull ++ undelivered s'.context.pull
      ≡ filled s.context.pull ++ undelivered s.context.pull ++ samples_of news
  pub reading : IsReading s'.context.pull
  pub same_request : SameRequest s.context.pull s'.context.pull
  pub advanced : s.context.pull.pull_written_frames ≤ s'.context.pull.pull_written_frames
  pub emitted :
      u64 s'.context.range.emitted_frames
      ≡ u64 (
          s.context.range.emitted_frames
          + (s'.context.pull.pull_written_frames - s.context.pull.pull_written_frames))

SameRequest-trans : {p q r : Pull} → SameRequest p q → SameRequest q r → SameRequest p r
SameRequest-trans a b = record {
  same_mode = b.same_mode ∙ a.same_mode;
  same_end = b.same_end ∙ a.same_end;
  same_channels = b.same_channels ∙ a.same_channels;
  same_requested = b.same_requested ∙ a.same_requested;
  same_capacity = b.same_capacity ∙ a.same_capacity;
}

samples_of-append : (fs gs : List Frame) → samples_of (fs ++ gs) ≡ samples_of fs ++ samples_of gs
samples_of-append [] gs = refl
samples_of-append (f ∷ fs) gs =
    ap (◌++◌ (interleaved_block f)) (samples_of-append fs gs)
    ∙ sym (append_assoc (interleaved_block f) (samples_of fs) (samples_of gs))

module _ {W : Type 0} where
  -- A callback that leaves the pull fields, the count and the deliveries alone.
  pub Pulled-still :
      (s s' : State W)
      → IsReading s.context.pull
      → s'.delivered ≡ s.delivered
      → s'.context.pull ≡ s.context.pull
      → s'.context.range ≡ s.context.range
      → Pulled s s'
  Pulled-still s s' r d p e = record {
    news = [];
    delivered_eq = d ∙ sym (append-nil s.delivered);
    same_samples =
        ap (λ q. filled q ++ undelivered q) p
        ∙ sym (append-nil (filled s.context.pull ++ undelivered s.context.pull));
    reading = subst IsReading (sym p) r;
    same_request = subst (SameRequest s.context.pull) (sym p) (record {
      same_mode = refl;
      same_end = refl;
      same_channels = refl;
      same_requested = refl;
      same_capacity = refl;
    });
    advanced = omega (arith, ap (λ q. q.pull_written_frames) p);
    emitted = omega (arith, ap (λ q. q.emitted_frames) e, ap (λ q. q.pull_written_frames) p);
  }

  pub Pulled-trans : {s t u : State W} → Pulled s t → Pulled t u → Pulled s u
  Pulled-trans {s} {t} {u} a b = record {
    news = a.news ++ b.news;
    delivered_eq =
        b.delivered_eq
        ∙ ap (λ l. l ++ b.news) a.delivered_eq
        ∙ append_assoc s.delivered a.news b.news;
    same_samples =
        b.same_samples
        ∙ ap (λ l. l ++ samples_of b.news) a.same_samples
        ∙ append_assoc (filled s.context.pull ++ undelivered s.context.pull) (samples_of a.news)
            (samples_of b.news)
        ∙ ap (◌++◌ (filled s.context.pull ++ undelivered s.context.pull))
            (sym (samples_of-append a.news b.news));
    reading = b.reading;
    same_request = SameRequest-trans a.same_request b.same_request;
    advanced = omega (arith, a.advanced, b.advanced);
    emitted = omega (arith, a.emitted, b.emitted, a.advanced, b.advanced);
  }

pub error-pull : (e : ErrorStatus) (c : DecodeContext) → (decode_error_callback e c).pull ≡ c.pull
unfolding decode_error_callback
error-pull e c = refl

pub error-range :
    (e : ErrorStatus) (c : DecodeContext) → (decode_error_callback e c).range ≡ c.range
unfolding decode_error_callback
error-range e c = refl

-- A callback that changes neither the deliveries nor the pull fields nor the counters.
pub record Still {W : Type 0} (s s' : State W) : Type 0 where
  pub same_delivered : s'.delivered ≡ s.delivered
  pub same_pull : s'.context.pull ≡ s.context.pull
  pub same_range : s'.context.range ≡ s.context.range

module _ {W : Type 0} (java : Java W) where
  abbrev with_link : State W → Stream → State W
  with_link s stream = record s { context = record s.context { stream = stream } }

  -- A change of the stream fields does not count.
  retarget : {s t : State W} {stream : Stream} → Still (with_link s stream) t → Still s t
  retarget e = record {
    same_delivered = e.same_delivered;
    same_pull = e.same_pull;
    same_range = e.same_range;
  }

  forward_stream_info-Still :
      (i : StreamInfo) (s : State W) → Still s (forward_stream_info java i s)
  unfolding forward_stream_info
  forward_stream_info-Still i s = ground arith

  next_link-Still : (i : StreamInfo) (s : State W) → Still s (next_link java i s)
  unfolding next_link
  next_link-Still i s = ground arith

  pub decode_metadata_callback-Still :
      (m : Metadata) (s : State W) → Still s (decode_metadata_callback java m s)
  unfolding decode_metadata_callback
  decode_metadata_callback-Still other s = record {
    same_delivered = refl;
    same_pull = refl;
    same_range = refl;
  }
  decode_metadata_callback-Still (streaminfo i) s =
      if_cases (Still s) {b = s.context.stream.decode_chained_ogg}
        (λ chained.
          if_cases (Still s) {b = ltb 0 s.context.stream.chained_link_count}
            (λ later. retarget (next_link-Still i (with_link s _)))
            (λ first. retarget (forward_stream_info-Still _ (with_link s _))))
        (λ single. retarget (forward_stream_info-Still _ (with_link s _)))

  -- The two ends of a pull write, as the interpreter records them.
  PullWritten-Pulled :
      (frame : Frame) (s : State W)
      → IsReading s.context.pull
      → (w : WriteStatus × PullState W)
      → PullWritten frame (record { vm = s.vm; range = s.context.range; pull = s.context.pull }) w
      → Pulled s (
          deliver java frame (
            w.0,
            record s {
              vm = w.1.vm;
              context = record s.context { range = w.1.range; pull = w.1.pull };
            },
          ))
  PullWritten-Pulled frame s r w (accepted s' reading request same advanced emitted calm) = record {
    news = frame ∷ [];
    delivered_eq = refl;
    same_samples =
        same
        ∙ ap (◌++◌ (filled s.context.pull ++ undelivered s.context.pull))
            (sym (append-nil (interleaved_block frame)));
    reading = reading;
    same_request = request;
    advanced = advanced;
    emitted = emitted;
  }
  PullWritten-Pulled frame s r w (refused s' pending pull range) =
      Pulled-still s _ r refl pull range

  write-Pulled :
      (frame : Frame) (s : State W)
      → s.context.pull.pull_mode ≡ true
      → IsReading s.context.pull
      → frame.channels ≡ s.context.pull.pull_channels
      → Pulled s (deliver java frame (decode_write_callback java frame s))
  unfolding decode_write_callback
  write-Pulled frame s mode r uniform =
      let P = λ (w : WriteStatus × State W). Pulled s (deliver java frame w) in
      if_cases P {b = exception_check s.vm} (λ pending. Pulled-still s s r refl refl refl)
        λ quiet.
          if_cases P {b = s.context.saw_error} (λ bad. Pulled-still s s r refl refl refl)
            λ fine. if_true P {b = s.context.pull.pull_mode} _ mode (
              PullWritten-Pulled frame s r _
                (decode_pull_write_callback-PullWritten java frame _ r uniform quiet))

  still : (s s' : State W) → IsReading s.context.pull → Still s s' → Pulled s s'
  still s s' r e = Pulled-still s s' r e.same_delivered e.same_pull e.same_range

  -- After a callback the rest of the call goes on with the state that it left.
  and_then :
      {M : Type 0} {s t u : State W} (n : ℕ)
      → s.context.pull.pull_mode ≡ true
      → s.context.pull.pull_channels ≡ n
      → Pulled s t
      → (t.context.pull.pull_mode ≡ true
          → t.context.pull.pull_channels ≡ n
          → IsReading t.context.pull
          → M ⊎ Pulled t u)
      → M ⊎ Pulled s u
  and_then n mode same a rest =
      elim (rest (a.same_request.same_mode ∙ mode) (a.same_request.same_channels ∙ same)
        a.reading) [ inl m ↦ inl m | inr b ↦ inr (Pulled-trans a b) ]

  -- A call of libFLAC on a pull session, with any callbacks in any order: either it hands over a block whose
  -- channel count is not that of the read, or the blocks that it delivers are added behind the samples
  -- there, in order and whole, and the read's invariant is kept.
  pub run-Pulled :
      {D : Type 0} (n : ℕ) (p : Process D) (s : State W)
      → s.context.pull.pull_mode ≡ true
      → s.context.pull.pull_channels ≡ n
      → IsReading s.context.pull
      → IsMixed java n p s ⊎ Pulled s (run java p s).2
  unfolding run
  run-Pulled n (finished success d) s mode same r = inr (Pulled-still s s r refl refl refl)
  run-Pulled n (writes frame k) s mode same r =
      let w = decode_write_callback java frame s in
      elim (ℕ_discrete frame.channels n) [
        | no differs ↦ inl (inl differs)
        | yes uniform ↦ or_later (
            and_then n mode same (write-Pulled frame s mode r (uniform ∙ sym same))
              (run-Pulled n (k w.0) (deliver java frame w)))
      ]
    where
      or_later : {M N R : Type 0} → M ⊎ R → (N ⊎ M) ⊎ R
      or_later (inl m) = inl (inr m)
      or_later (inr x) = inr x
  run-Pulled n (describes m k) s mode same r =
      and_then n mode same (still s _ r (decode_metadata_callback-Still m s))
        (run-Pulled n k (decode_metadata_callback java m s))
  run-Pulled n (reports e k) s mode same r =
      and_then n mode same
        (Pulled-still s _ r refl (error-pull e s.context) (error-range e s.context))
        (run-Pulled n k (record s { context = decode_error_callback e s.context }))
  run-Pulled n (reads m k) s mode same r =
      and_then n mode same (Pulled-still s _ r refl refl refl) (run-Pulled n (k _) _)
  run-Pulled n (seeks m k) s mode same r =
      and_then n mode same (Pulled-still s _ r refl refl refl) (run-Pulled n (k _) _)
  run-Pulled n (tells k) s mode same r =
      and_then n mode same (Pulled-still s _ r refl refl refl) (run-Pulled n (k _) _)
  run-Pulled n (measures k) s mode same r =
      and_then n mode same (Pulled-still s _ r refl refl refl) (run-Pulled n (k _) _)
  run-Pulled n (asks_eof k) s mode same r =
      and_then n mode same (Pulled-still s _ r refl refl refl) (run-Pulled n (k _) _)
