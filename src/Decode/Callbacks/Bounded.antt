-- ===== src/Decode/Callbacks/Bounded.antt =====
-- native/src/jflac_jni.c: what one call of libFLAC does to a bounded decode, whatever callbacks it makes.
use java_kotlin_flac.Prelude.{
  ℕ, Bool, true, false, ◌≡◌, refl, ap, sym, arith, ◌∙◌, ◌<◌, ◌^◌, subst, if_cases, ltb, not, ◌||◌,
}
use java_kotlin_flac.Jni.{Java, Vm, StreamInfo, stream_info, call, exception_check}
use java_kotlin_flac.Flac.{
  Frame, WriteStatus, Metadata, streaminfo, other, Process, finished, writes, describes, reports,
  reads, seeks, tells, measures, asks_eof, ReadResult, SeekStatus, OffsetStatus,
}
use java_kotlin_flac.Decode.Context.{Stream}
use java_kotlin_flac.Decode.Source.Machine.{
  IsQuieter, call-IsQuieter, decode_read_callback-IsQuieter, decode_channel_seek_callback-IsQuieter,
  decode_channel_tell_callback-IsQuieter, decode_channel_length_callback-IsQuieter,
  decode_channel_eof_callback-IsQuieter,
}
use java_kotlin_flac.Decode.Write.{State, decode_write_callback}
use java_kotlin_flac.Decode.Write.Crop.{
  IsMetered, quietly, frames_heard, frames_heard-append, decode_write_callback-IsMetered,
  decode_write_callback-pull,
}
use java_kotlin_flac.Decode.Callbacks.{
  decode_metadata_callback, next_link, same_pcm_shape, start_link, keep_stream_info,
  public_stream_info, forward_stream_info, deliver, run, decode_error_callback,
}
use java_kotlin_flac.Decode.Callbacks.Pulls.{
  decode_metadata_callback-Still, error-pull, error-range,
}

-- The number of samples of a block is a `uint32_t`.
abbrev pub IsWord : {D : Type 0} → Process D → Type 0
IsWord (finished success d) = Unit {0}
IsWord (writes frame k) = (frame.blocksize < 2 ^ 32) × ((status : WriteStatus) → IsWord (k status))
IsWord (describes m k) = IsWord k
IsWord (reports e k) = IsWord k
IsWord (reads n k) = (r : ReadResult) → IsWord (k r)
IsWord (seeks n k) = (r : SeekStatus) → IsWord (k r)
IsWord (tells k) = (r : OffsetStatus) → IsWord (k r)
IsWord (measures k) = (r : OffsetStatus) → IsWord (k r)
IsWord (asks_eof k) = (r : Bool) → IsWord (k r)

-- A bounded decode that is not a pull read.
pub record IsBounded {W : Type 0} (base limit : ℕ) (s : State W) : Type 0 where
  pub push : s.context.pull.pull_mode ≡ false
  pub metered : IsMetered base limit s.vm s.context.range

pub record Told {W : Type 0} (vm vm' : Vm W) : Type 0 where
  pub frames : frames_heard vm'.heard ≡ frames_heard vm.heard
  pub still : exception_check vm' ≡ false → exception_check vm ≡ false

module _ {W : Type 0} (java : Java W) where
  deliver-vm :
      (frame : Frame) (w : WriteStatus × State W)
      → ((deliver java frame w).vm ≡ w.1.vm) × ((deliver java frame w).context ≡ w.1.context)
  deliver-vm frame (WriteStatus.continue, s) = (refl, refl)
  deliver-vm frame (WriteStatus.abort, s) = (refl, refl)

  abbrev on : State W → Stream → State W
  on s stream = record s { context = record s.context { stream = stream } }

  -- STREAMINFO counts for no frames, and an exception is not cleared.
  forward_stream_info-Told :
      (i : StreamInfo) (s : State W) → Told s.vm (forward_stream_info java i s).vm
  unfolding forward_stream_info
  forward_stream_info-Told i s =
      let P = λ (t : State W). Told s.vm t.vm in
      let made = call false (java.new_stream_info i) s.vm in
      let q = call-IsQuieter false (java.new_stream_info i) s.vm in
      let t = call-IsQuieter tt (java.consume (stream_info i)) made.1 in
      if_cases P {b = not s.context.consumer || s.context.stream.suppress_metadata}
        (λ _. record { frames = refl; still = λ h. h })
        λ _.
          if_cases P {b = not made.0}
            (λ _. record { frames = ap frames_heard q.heard; still = q.still })
            λ _. record {
              frames =
                  frames_heard-append made.1.heard (stream_info i)
                  ∙ omega (arith, ap frames_heard q.heard);
              still = λ h. q.still (t.still h);
            }

  next_link-Told : (i : StreamInfo) (s : State W) → Told s.vm (next_link java i s).vm
  unfolding next_link
  next_link-Told i s =
      if_cases (λ (t : State W). Told s.vm t.vm)
        {b = not (same_pcm_shape i s.context.stream.stream_info)}
        (λ _. record { frames = refl; still = λ h. cc })
        (λ _. record { frames = refl; still = λ h. h })

  decode_metadata_callback-Told :
      (m : Metadata) (s : State W) → Told s.vm (decode_metadata_callback java m s).vm
  unfolding decode_metadata_callback
  decode_metadata_callback-Told other s = record { frames = refl; still = λ h. h }
  decode_metadata_callback-Told (streaminfo i) s =
      let link = start_link i s.context.range.emitted_frames s.context.stream in
      if_cases (λ (t : State W). Told s.vm t.vm) {b = s.context.stream.decode_chained_ogg}
        (λ _.
          if_cases (λ (t : State W). Told s.vm t.vm) {b = ltb 0 s.context.stream.chained_link_count}
            (λ _. next_link-Told i (on s link))
            (λ _.
              forward_stream_info-Told (public_stream_info true i)
                (on s (keep_stream_info i (record link { chained_link_count = 1 })))))
        (λ _.
          forward_stream_info-Told (public_stream_info false i)
            (on s (keep_stream_info i s.context.stream)))

  -- What the callbacks other than the write callback keep.
  pub untouched :
      {base limit : ℕ} (s t : State W)
      → IsBounded base limit s
      → t.context.pull ≡ s.context.pull
      → t.context.range ≡ s.context.range
      → Told s.vm t.vm
      → IsBounded base limit t
  untouched {base} {limit} s t b p r h = record {
    push = ap (λ q. q.pull_mode) p ∙ b.push;
    metered =
        subst (IsMetered base limit t.vm) (sym r)
          (quietly base limit t.vm b.metered h.frames h.still);
  }

  quiet-Told : {vm vm' : Vm W} → IsQuieter vm vm' → Told vm vm'
  quiet-Told q = record { frames = ap frames_heard q.heard; still = q.still }

  -- A call of libFLAC in a bounded decode, with any callbacks in any order, never takes the consumer
  -- beyond the range, and keeps the count of what it was given.
  pub run-IsBounded :
      {D : Type 0} (base limit : ℕ) (p : Process D) (s : State W)
      → IsWord p
      → IsBounded base limit s
      → IsBounded base limit (run java p s).2
  unfolding run
  run-IsBounded base limit (finished success d) s w b = b
  run-IsBounded base limit (writes frame k) s w b =
      let r = decode_write_callback java frame s in
      let (e, c) = deliver-vm frame r in
      run-IsBounded base limit (k r.0) (deliver java frame r) (w.1 r.0) (record {
        push =
            ap (λ x. x.pull.pull_mode) c
            ∙ ap (λ q. q.pull_mode) (decode_write_callback-pull java base limit frame s b.push)
            ∙ b.push;
        metered =
            subst (λ v. IsMetered base limit v (deliver java frame r).context.range) (sym e)
              (subst (λ x. IsMetered base limit r.1.vm x.range) (sym c)
                (decode_write_callback-IsMetered java base limit frame s b.push w.0 b.metered));
      })
  run-IsBounded base limit (describes m k) s w b =
      let e = decode_metadata_callback-Still java m s in
      run-IsBounded base limit k (decode_metadata_callback java m s) w
        (untouched s _ b e.same_pull e.same_range (decode_metadata_callback-Told m s))
  run-IsBounded base limit (reports e k) s w b =
      run-IsBounded base limit k (record s { context = decode_error_callback e s.context }) w
        (untouched s _ b (error-pull e s.context) (error-range e s.context)
          (record { frames = refl; still = λ h. h }))
  run-IsBounded base limit (reads n k) s w b = run-IsBounded base limit (k _) _ (w _) (
      untouched s _ b refl refl
        (quiet-Told (decode_read_callback-IsQuieter java s.context.source s.vm n)))
  run-IsBounded base limit (seeks n k) s w b = run-IsBounded base limit (k _) _ (w _) (
      untouched s _ b refl refl
        (quiet-Told (decode_channel_seek_callback-IsQuieter java s.context.source s.vm n)))
  run-IsBounded base limit (tells k) s w b = run-IsBounded base limit (k _) _ (w _) (
      untouched s _ b refl refl
        (quiet-Told (decode_channel_tell_callback-IsQuieter java s.context.source s.vm)))
  run-IsBounded base limit (measures k) s w b = run-IsBounded base limit (k _) _ (w _) (
      untouched s _ b refl refl
        (quiet-Told (decode_channel_length_callback-IsQuieter java s.context.source s.vm)))
  run-IsBounded base limit (asks_eof k) s w b = run-IsBounded base limit (k _) _ (w _) (
      untouched s _ b refl refl
        (quiet-Told (decode_channel_eof_callback-IsQuieter java s.context.source s.vm)))
