-- ===== src/Decode/Write/Balance.antt =====
-- native/src/jflac_jni.c: the write callback and what the bridge holds.
use java_kotlin_flac.Prelude.{
  ℕ, false, Option, none, some, ◌≡◌, refl, arith, ◌*◌, ◌==◌, ltb, if_cases, not, ◌||◌, int_max,
}
use java_kotlin_flac.Jni.{Java, pcm_interleaved, call, in_world, exception_check}
use java_kotlin_flac.Flac.{Frame, WriteStatus}
use java_kotlin_flac.Decode.Source.Machine.{call-IsQuieter}
use java_kotlin_flac.Decode.Write.{
  State, count_emitted, decode_write_callback, deliver_frames, write_cropped, cropped_frames,
  consumer_call, pull_write,
}
use java_kotlin_flac.Decode.Pull.{interleave}
use java_kotlin_flac.Decode.Pull.Balance.{
  decode_pull_write_callback-IsBalanced, decode_pull_write_callback-IsSameKind,
}
use java_kotlin_flac.Decode.Context.{DecodeContext}
use java_kotlin_flac.Decode.Balance.{
  IsBalanced, IsBalanced-refl, IsBalanced-trans, raised-IsBalanced, quieter-IsBalanced,
}

module _ {W : Type 0} (java : Java W) where
  deliver_frames-IsBalanced :
      (frame : Frame) (k : ℕ) (s : State W) → IsBalanced s.vm (deliver_frames java frame k s).1.vm
  unfolding deliver_frames
  deliver_frames-IsBalanced frame k s =
      let P = λ (r : WriteStatus × State W). IsBalanced s.vm r.1.vm in
      let n = frame.channels * k in
      let a = call false (java.new_array n) s.vm in
      let qa = quieter-IsBalanced (call-IsQuieter false (java.new_array n) s.vm) in
      let m = in_world (java.malloc n) a.1 in
      let e = pcm_interleaved (interleave frame.buffer frame.channels 0 k) k in
      let vm₃ = consumer_call e java m.1 in
      let q₃ =
        IsBalanced-trans {a = s.vm} (record { same_holdings = qa.same_holdings; still = qa.still })
          (quieter-IsBalanced (call-IsQuieter tt (java.consume e) m.1)) in
      let q₄ : IsBalanced s.vm vm₃ = record {
        same_holdings = q₃.same_holdings;
        still = q₃.still;
      } in
      if_cases P {b = frame.channels == 0 || k == 0 || ltb int_max n}
        (λ _. raised-IsBalanced _ refl refl)
        λ _.
          if_cases P {b = not a.0} (λ _. qa)
            λ _.
              if_cases P {b = not m.0} (λ _. raised-IsBalanced _ qa.same_holdings refl)
                λ _.
                  if_cases P {b = exception_check m.1}
                    (λ _. record { same_holdings = qa.same_holdings; still = qa.still })
                    λ _. if_cases P {b = exception_check vm₃} (λ _. q₄) (λ _. q₄)

  pub decode_write_callback-IsBalanced :
      (frame : Frame) (s : State W) → IsBalanced s.vm (decode_write_callback java frame s).1.vm
  unfolding decode_write_callback write_cropped pull_write
  decode_write_callback-IsBalanced frame s =
      let P = λ (r : WriteStatus × State W). IsBalanced s.vm r.1.vm in
      if_cases P {b = exception_check s.vm} (λ _. IsBalanced-refl s.vm)
        λ _.
          if_cases P {b = s.context.saw_error} (λ _. IsBalanced-refl s.vm)
            λ _.
              if_cases P {b = s.context.pull.pull_mode}
                (λ _.
                  decode_pull_write_callback-IsBalanced java frame
                    (record { vm = s.vm; range = s.context.range; pull = s.context.pull }))
                (λ _. cropped (cropped_frames s.context.range frame.blocksize))
    where
      cropped : (o : Option ℕ) → IsBalanced s.vm (write_cropped java frame o s).1.vm
      cropped none = IsBalanced-refl s.vm
      cropped (some k) = deliver_frames-IsBalanced frame k s

-- What the write callback leaves alone.
pub record IsSameInput (c c' : DecodeContext) : Type 0 where
  pub same_source : c'.source ≡ c.source
  pub same_stream : c'.stream ≡ c.stream
  pub same_limited : c'.range.range_limited ≡ c.range.range_limited
  pub same_mode : c'.pull.pull_mode ≡ c.pull.pull_mode

module _ {W : Type 0} (java : Java W) where
  deliver_frames-IsSameInput :
      (frame : Frame) (k : ℕ) (s : State W)
      → IsSameInput s.context (deliver_frames java frame k s).1.context
  unfolding deliver_frames count_emitted
  deliver_frames-IsSameInput frame k s = record {
    same_source = ground arith;
    same_stream = ground arith;
    same_limited = ground arith;
    same_mode = ground arith;
  }

  pub decode_write_callback-IsSameInput :
      (frame : Frame) (s : State W)
      → IsSameInput s.context (decode_write_callback java frame s).1.context
  unfolding decode_write_callback write_cropped pull_write
  decode_write_callback-IsSameInput frame s =
      let P = λ (r : WriteStatus × State W). IsSameInput s.context r.1.context in
      let same : IsSameInput s.context s.context = record {
        same_source = refl;
        same_stream = refl;
        same_limited = refl;
        same_mode = refl;
      } in
      if_cases P {b = exception_check s.vm} (λ _. same)
        λ _.
          if_cases P {b = s.context.saw_error} (λ _. same)
            λ _.
              if_cases P {b = s.context.pull.pull_mode}
                (λ _.
                  let d =
                    decode_pull_write_callback-IsSameKind java frame
                      (record { vm = s.vm; range = s.context.range; pull = s.context.pull }) in
                  record {
                    same_source = refl;
                    same_stream = refl;
                    same_limited = d.same_limited;
                    same_mode = d.same_mode;
                  })
                (λ _. cropped (cropped_frames s.context.range frame.blocksize))
    where
      cropped : (o : Option ℕ) → IsSameInput s.context (write_cropped java frame o s).1.context
      cropped none = record {
        same_source = refl;
        same_stream = refl;
        same_limited = refl;
        same_mode = refl;
      }
      cropped (some k) = deliver_frames-IsSameInput frame k s
