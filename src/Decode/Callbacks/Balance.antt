-- ===== src/Decode/Callbacks/Balance.antt =====
-- native/src/jflac_jni.c: a call of libFLAC, with its callbacks, and what the bridge holds.
use java_kotlin_flac.Prelude.{true, false, refl, ◌≡◌, ◌∙◌, ap, arith, if_cases, not, ◌||◌, ltb}
use java_kotlin_flac.Jni.{Java, Vm, StreamInfo, stream_info, call}
use java_kotlin_flac.Flac.{
  Frame, WriteStatus, Metadata, streaminfo, other, Process, finished, writes, describes, reports,
  reads, seeks, tells, measures, asks_eof, ErrorStatus,
}
use java_kotlin_flac.Decode.Context.{Stream}
use java_kotlin_flac.Decode.Source.Machine.{
  call-IsQuieter, decode_read_callback-IsQuieter, decode_channel_seek_callback-IsQuieter,
  decode_channel_tell_callback-IsQuieter, decode_channel_length_callback-IsQuieter,
  decode_channel_eof_callback-IsQuieter,
}
use java_kotlin_flac.Decode.Write.{State, decode_write_callback}
use java_kotlin_flac.Decode.Callbacks.{
  decode_metadata_callback, next_link, same_pcm_shape, start_link, keep_stream_info,
  public_stream_info, forward_stream_info, deliver, run, decode_error_callback,
}
use java_kotlin_flac.Decode.Balance.{
  IsBalanced, IsBalanced-refl, IsBalanced-trans, raised-IsBalanced, quieter-IsBalanced,
}
use java_kotlin_flac.Decode.Write.Balance.{
  decode_write_callback-IsBalanced, decode_write_callback-IsSameInput,
}

module _ {W : Type 0} (java : Java W) where
  forward_stream_info-IsBalanced :
      (i : StreamInfo) (s : State W) → IsBalanced s.vm (forward_stream_info java i s).vm
  unfolding forward_stream_info
  forward_stream_info-IsBalanced i s =
      let P = λ (t : State W). IsBalanced s.vm t.vm in
      let made = call false (java.new_stream_info i) s.vm in
      let q = quieter-IsBalanced (call-IsQuieter false (java.new_stream_info i) s.vm) in
      let t =
        IsBalanced-trans q
          (quieter-IsBalanced (call-IsQuieter tt (java.consume (stream_info i)) made.1)) in
      if_cases P {b = not s.context.consumer || s.context.stream.suppress_metadata}
        (λ _. IsBalanced-refl s.vm)
        λ _.
          if_cases P {b = not made.0} (λ _. q)
            λ _. record { same_holdings = t.same_holdings; still = t.still }

  next_link-IsBalanced : (i : StreamInfo) (s : State W) → IsBalanced s.vm (next_link java i s).vm
  unfolding next_link
  next_link-IsBalanced i s =
      if_cases (λ (t : State W). IsBalanced s.vm t.vm)
        {b = not (same_pcm_shape i s.context.stream.stream_info)}
        (λ _. raised-IsBalanced _ refl refl) (λ _. IsBalanced-refl s.vm)

  abbrev on : State W → Stream → State W
  on s stream = record s { context = record s.context { stream = stream } }

  decode_metadata_callback-IsBalanced :
      (m : Metadata) (s : State W) → IsBalanced s.vm (decode_metadata_callback java m s).vm
  unfolding decode_metadata_callback
  decode_metadata_callback-IsBalanced other s = IsBalanced-refl s.vm
  decode_metadata_callback-IsBalanced (streaminfo i) s =
      let link = start_link i s.context.range.emitted_frames s.context.stream in
      let P = λ (t : State W). IsBalanced s.vm t.vm in
      if_cases P {b = s.context.stream.decode_chained_ogg}
        (λ _.
          if_cases P {b = ltb 0 s.context.stream.chained_link_count}
            (λ _. next_link-IsBalanced i (on s link))
            (λ _.
              forward_stream_info-IsBalanced (public_stream_info true i)
                (on s (keep_stream_info i (record link { chained_link_count = 1 })))))
        (λ _.
          forward_stream_info-IsBalanced (public_stream_info false i)
            (on s (keep_stream_info i s.context.stream)))

-- A call of libFLAC, or a loop of them: nothing was taken or given back, no exception was cleared, and
-- the input and the kind of decode are what they were.
pub record IsKept {W : Type 0} (s t : State W) : Type 0 where
  pub balanced : IsBalanced s.vm t.vm
  pub same_source : t.context.source ≡ s.context.source
  pub same_chained : t.context.stream.decode_chained_ogg ≡ s.context.stream.decode_chained_ogg
  pub same_limited : t.context.range.range_limited ≡ s.context.range.range_limited
  pub same_mode : t.context.pull.pull_mode ≡ s.context.pull.pull_mode

module _ {W : Type 0} where
  pub IsKept-refl : (s : State W) → IsKept s s
  IsKept-refl s = record {
    balanced = IsBalanced-refl s.vm;
    same_source = refl;
    same_chained = refl;
    same_limited = refl;
    same_mode = refl;
  }

  pub IsKept-trans : {a b c : State W} → IsKept a b → IsKept b c → IsKept a c
  IsKept-trans p q = record {
    balanced = IsBalanced-trans p.balanced q.balanced;
    same_source = q.same_source ∙ p.same_source;
    same_chained = q.same_chained ∙ p.same_chained;
    same_limited = q.same_limited ∙ p.same_limited;
    same_mode = q.same_mode ∙ p.same_mode;
  }

  -- Only the machine has changed.
  pub machine-IsKept :
      (s : State W) (vm : Vm W) → IsBalanced s.vm vm → IsKept s (record s { vm = vm })
  machine-IsKept s vm b = record {
    balanced = b;
    same_source = refl;
    same_chained = refl;
    same_limited = refl;
    same_mode = refl;
  }

module _ {W : Type 0} (java : Java W) where
  deliver-IsKept :
      {s : State W} (frame : Frame) (w : WriteStatus × State W)
      → IsKept s w.1
      → IsKept s (deliver java frame w)
  deliver-IsKept frame (WriteStatus.continue, t) k = record {
    balanced = k.balanced;
    same_source = k.same_source;
    same_chained = k.same_chained;
    same_limited = k.same_limited;
    same_mode = k.same_mode;
  }
  deliver-IsKept frame (WriteStatus.abort, t) k = k

  decode_write_callback-IsKept :
      (frame : Frame) (s : State W) → IsKept s (decode_write_callback java frame s).1
  decode_write_callback-IsKept frame s =
      let same = decode_write_callback-IsSameInput java frame s in
      record {
        balanced = decode_write_callback-IsBalanced java frame s;
        same_source = same.same_source;
        same_chained = ap (λ x. x.decode_chained_ogg) same.same_stream;
        same_limited = same.same_limited;
        same_mode = same.same_mode;
      }

  decode_metadata_callback-IsKept :
      (m : Metadata) (s : State W) → IsKept s (decode_metadata_callback java m s)
  unfolding decode_metadata_callback forward_stream_info next_link
  decode_metadata_callback-IsKept other s = IsKept-refl s
  decode_metadata_callback-IsKept (streaminfo i) s = record {
    balanced = decode_metadata_callback-IsBalanced java (streaminfo i) s;
    same_source = ground arith;
    same_chained = ground arith;
    same_limited = ground arith;
    same_mode = ground arith;
  }

  error-IsKept :
      (e : ErrorStatus) (s : State W)
      → IsKept s (record s { context = decode_error_callback e s.context })
  unfolding decode_error_callback
  error-IsKept e s = record {
    balanced = IsBalanced-refl s.vm;
    same_source = refl;
    same_chained = refl;
    same_limited = refl;
    same_mode = refl;
  }

  -- A call of libFLAC, whatever callbacks it makes, leaves the bridge with the references and coders that
  -- it had, clears no exception, and keeps the input and the kind of decode.
  pub run-IsKept : {D : Type 0} (p : Process D) (s : State W) → IsKept s (run java p s).2
  unfolding run
  run-IsKept (finished success d) s = IsKept-refl s
  run-IsKept (writes frame k) s =
      let r = decode_write_callback java frame s in
      IsKept-trans (deliver-IsKept frame r (decode_write_callback-IsKept frame s))
        (run-IsKept (k r.0) (deliver java frame r))
  run-IsKept (describes m k) s = IsKept-trans (decode_metadata_callback-IsKept m s) (run-IsKept k _)
  run-IsKept (reports e k) s = IsKept-trans (error-IsKept e s) (run-IsKept k _)
  run-IsKept (reads n k) s =
      IsKept-trans
        (machine-IsKept s _
          (quieter-IsBalanced (decode_read_callback-IsQuieter java s.context.source s.vm n)))
        (run-IsKept (k _) _)
  run-IsKept (seeks n k) s =
      IsKept-trans
        (machine-IsKept s _ (
          quieter-IsBalanced (decode_channel_seek_callback-IsQuieter java s.context.source s.vm n)))
        (run-IsKept (k _) _)
  run-IsKept (tells k) s =
      IsKept-trans
        (machine-IsKept s _
          (quieter-IsBalanced (decode_channel_tell_callback-IsQuieter java s.context.source s.vm)))
        (run-IsKept (k _) _)
  run-IsKept (measures k) s =
      IsKept-trans
        (machine-IsKept s _ (
          quieter-IsBalanced (decode_channel_length_callback-IsQuieter java s.context.source s.vm)))
        (run-IsKept (k _) _)
  run-IsKept (asks_eof k) s =
      IsKept-trans
        (machine-IsKept s _
          (quieter-IsBalanced (decode_channel_eof_callback-IsQuieter java s.context.source s.vm)))
        (run-IsKept (k _) _)
