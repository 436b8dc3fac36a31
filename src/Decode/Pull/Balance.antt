-- ===== src/Decode/Pull/Balance.antt =====
-- native/src/jflac_jni.c: the pull buffer and what the bridge holds.
use java_kotlin_flac.Prelude.{
  ℕ, Bool, Option, none, some, List, ◌≡◌, refl, arith, ◌*◌, ◌+◌, ◌/◌, ◌-◌, ◌^◌, ◌==◌, ltb, leb,
  if_cases, not, ◌||◌, is_some, int_max, uint32_max, u32, if◌then◌else◌,
}
use java_kotlin_flac.Prelude.Int.{ℤ}
use java_kotlin_flac.Jni.{Java, in_world, exception_check}
use java_kotlin_flac.Flac.{Frame, WriteStatus}
use java_kotlin_flac.Decode.Pull.{
  PullState, decode_pull_write_callback, drain_decode_pull_pending, drain_samples, drain_pending,
  copy_region, hold_block, output_of, after_copy,
}
use java_kotlin_flac.Decode.Context.{clear_decode_pull_pending}
use java_kotlin_flac.Decode.Balance.{
  IsBalanced, IsBalanced-refl, IsBalanced-trans, raised-IsBalanced,
}

module _ {W : Type 0} where
  copy_region-IsBalanced :
      (s : PullState W) (o : Option (List ℤ)) (k n : ℕ) → IsBalanced s.vm (copy_region s o k n).1.vm
  unfolding copy_region
  copy_region-IsBalanced s none k n = raised-IsBalanced _ refl refl
  copy_region-IsBalanced s (some output) k n =
      if_cases (λ (r : Bool × PullState W). IsBalanced s.vm r.1.vm) {b = exception_check s.vm}
        (λ _. IsBalanced-refl s.vm) (λ _. IsBalanced-refl s.vm)

  abbrev Balances : PullState W → Bool × PullState W → Type 0
  Balances s r = IsBalanced s.vm r.1.vm

  drain_decode_pull_pending-IsBalanced :
      (s : PullState W) → IsBalanced s.vm (drain_decode_pull_pending s).1.vm
  unfolding drain_decode_pull_pending drain_samples drain_pending
  drain_decode_pull_pending-IsBalanced s = from s.pull.pull_pending_samples
    where
      copied : (output samples : List ℤ) (n : ℕ) → Balances s (drain_pending s output samples n)
      copied output samples n =
          let p = s.pull in
          let available =
            u32 (p.pull_pending_sample_count + 2 ^ 32 - p.pull_pending_sample_offset)
            / p.pull_channels in
          let frames = if ltb available n then available else n in
          let k = u32 (frames * p.pull_channels) in
          let start = u32 (p.pull_written_frames * p.pull_channels) in
          if_cases (Balances s) {b = ltb p.pull_output_capacity_samples (start + k)}
            (λ _. raised-IsBalanced _ refl refl) (λ _. copy_region-IsBalanced s _ k frames)

      from : (o : Option (List ℤ)) → Balances s (drain_samples s o)
      from none = IsBalanced-refl s.vm
      from (some samples) =
          if_cases (Balances s)
            {b = leb s.pull.pull_pending_sample_count s.pull.pull_pending_sample_offset}
            (λ _. IsBalanced-refl s.vm)
            λ _.
              if_cases (Balances s) {b = s.pull.pull_channels == 0}
                (λ _. raised-IsBalanced _ refl refl)
                λ _.
                  if_cases (Balances s)
                    {b = u32 (s.pull.pull_requested_frames + 2 ^ 32 - s.pull.pull_written_frames)
                      == 0}
                    (λ _. IsBalanced-refl s.vm) (λ _. copied (output_of s.pull) samples _)

module _ {W : Type 0} (java : Java W) where
  pub decode_pull_write_callback-IsBalanced :
      (frame : Frame) (s : PullState W)
      → IsBalanced s.vm (decode_pull_write_callback java frame s).1.vm
  unfolding decode_pull_write_callback
  decode_pull_write_callback-IsBalanced frame s =
      let P = λ (r : WriteStatus × PullState W). IsBalanced s.vm r.1.vm in
      let n = frame.channels * frame.blocksize in
      let m = in_world (java.malloc n) s.vm in
      if_cases P
        {b = frame.channels == 0 || frame.blocksize == 0 || ltb uint32_max n || ltb int_max n}
        (λ _. raised-IsBalanced _ refl refl)
        λ _.
          if_cases P {b = is_some s.pull.pull_pending_samples} (λ _. raised-IsBalanced _ refl refl)
            λ _.
              if_cases P {b = not m.0} (λ _. raised-IsBalanced _ refl refl)
                λ _.
                  IsBalanced-trans (record { same_holdings = refl; still = λ h. h })
                    (drain_decode_pull_pending-IsBalanced
                      (record s { vm = m.1; pull = hold_block frame s.pull }))

-- What the pull buffer leaves alone.
pub record IsSameKind {W : Type 0} (s t : PullState W) : Type 0 where
  pub same_limited : t.range.range_limited ≡ s.range.range_limited
  pub same_mode : t.pull.pull_mode ≡ s.pull.pull_mode

module _ {W : Type 0} where
  drain_decode_pull_pending-IsSameKind :
      (s : PullState W) → IsSameKind s (drain_decode_pull_pending s).1
  unfolding drain_decode_pull_pending drain_samples drain_pending copy_region after_copy
      clear_decode_pull_pending
  drain_decode_pull_pending-IsSameKind s = record {
    same_limited = ground arith;
    same_mode = ground arith;
  }

module _ {W : Type 0} (java : Java W) where
  pub decode_pull_write_callback-IsSameKind :
      (frame : Frame) (s : PullState W) → IsSameKind s (decode_pull_write_callback java frame s).1
  unfolding decode_pull_write_callback hold_block
  decode_pull_write_callback-IsSameKind frame s =
      let m = in_world (java.malloc (frame.channels * frame.blocksize)) s.vm in
      let d =
        drain_decode_pull_pending-IsSameKind
          (record s { vm = m.1; pull = hold_block frame s.pull }) in
      record {
        same_limited = ground (arith, d.same_limited);
        same_mode = ground (arith, d.same_mode);
      }
