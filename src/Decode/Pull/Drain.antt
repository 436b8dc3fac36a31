-- ===== src/Decode/Pull/Drain.antt =====
-- native/src/jflac_jni.c: `drain_decode_pull_pending` as a whole.
use java_kotlin_flac.Prelude.{
  true, false, Option, none, some, List, [], ◌++◌, ◌+◌, ◌-◌, ◌%◌, ◌^◌, ◌<◌, ◌≡◌, refl, ap, sym,
  arith, ◌∙◌, leb, ◌==◌, inl, inr, subst, Bool-cases, dec_lt, drop-eq-nil, leb→le,
}
use java_kotlin_flac.Prelude.Int.{ℤ}
use java_kotlin_flac.Decode.Context.{clear_decode_pull_pending}
use java_kotlin_flac.Decode.Pull.{PullState, drain_samples, drain_decode_pull_pending}
use java_kotlin_flac.Decode.Pull.View.{
  filled, undelivered, samples_from, IsAligned, IsPending, IsReading,
}
use java_kotlin_flac.Decode.Pull.Copy.{Drained, drain_pending-Drained, wanted_eq}
use java_kotlin_flac.Jni.{exception_check}

module _ {W : Type 0} (s : PullState W) (r : IsReading s.pull) where
  -- Nothing is left: the buffer is freed.
  cleared-Drained :
      undelivered s.pull ≡ [] → Drained s (record s { pull = clear_decode_pull_pending s.pull })
  unfolding clear_decode_pull_pending
  cleared-Drained e = record {
    reading = record {
      has_output = r.has_output;
      capacity_eq = r.capacity_eq;
      capacity_le = r.capacity_le;
      some_channels = r.some_channels;
      room = r.room;
      written_le = r.written_le;
      pending = (refl, refl);
    };
    same_samples = ap (◌++◌ (filled s.pull)) (sym e);
    same_vm = refl;
    same_request = record {
      same_mode = refl;
      same_end = refl;
      same_channels = refl;
      same_requested = refl;
      same_capacity = refl;
    };
    advanced = omega arith;
    emitted = omega arith;
    met = inr refl;
  }

  -- The request was already met: nothing changes.
  unchanged-Drained : s.pull.pull_written_frames ≡ s.pull.pull_requested_frames → Drained s s
  unchanged-Drained e = record {
    reading = r;
    same_samples = refl;
    same_vm = refl;
    same_request = record {
      same_mode = refl;
      same_end = refl;
      same_channels = refl;
      same_requested = refl;
      same_capacity = refl;
    };
    advanced = omega arith;
    emitted = omega arith;
    met = inl e;
  }

  has_channels : (s.pull.pull_channels == 0) ≡ false
  has_channels = ground (arith, r.some_channels)

  none_wanted :
      s.pull.pull_written_frames ≡ s.pull.pull_requested_frames
      → (s.pull.pull_requested_frames + 2 ^ 32 - s.pull.pull_written_frames) % 2 ^ 32 ≡ 0
  none_wanted e = omega arith

  some_wanted :
      s.pull.pull_written_frames < s.pull.pull_requested_frames
      → (s.pull.pull_requested_frames - s.pull.pull_written_frames == 0) ≡ false
  some_wanted h = ground arith

  module _ (quiet : exception_check s.vm ≡ false) where
    drain_samples-Drained :
        (pending : Option (List ℤ))
        → s.pull.pull_pending_samples ≡ pending
        → (s' : PullState W) × (drain_samples s pending ≡ (true, s')) × Drained s s'
    unfolding drain_samples
    drain_samples-Drained none e =
        (_, refl, cleared-Drained (ap (samples_from s.pull.pull_pending_sample_offset) e))
    drain_samples-Drained (some xs) e =
        elim (Bool-cases (leb s.pull.pull_pending_sample_count s.pull.pull_pending_sample_offset)) [
          | inl over ↦ (_, rw over, cleared-Drained (nothing_left over))
          | inr more ↦ elim (dec_lt s.pull.pull_written_frames s.pull.pull_requested_frames) [
            | yes wants ↦
                let (s', same, d) = drain_pending-Drained s xs r al (has_more more) wants quiet e in
                (
                  s',
                  rw
                      (
                        more,
                        has_channels,
                        wanted_eq s xs r al (has_more more) wants quiet e,
                        some_wanted wants,
                      )
                      same,
                  d,
                )
            | no met ↦ (
              s,
              rw (more, has_channels, none_wanted (all_written met)),
              unchanged-Drained (all_written met),
            )
          ]
        ]
      where
        al :
            IsAligned s.pull.pull_channels s.pull.pull_pending_sample_count
              s.pull.pull_pending_sample_offset xs
        al =
            subst
              (IsPending s.pull.pull_channels s.pull.pull_pending_sample_count
                s.pull.pull_pending_sample_offset)
              e r.pending

        has_more :
            leb s.pull.pull_pending_sample_count s.pull.pull_pending_sample_offset ≡ false
            → s.pull.pull_pending_sample_offset < s.pull.pull_pending_sample_count
        has_more h = ground arith

        all_written :
            ¬ (s.pull.pull_written_frames < s.pull.pull_requested_frames)
            → s.pull.pull_written_frames ≡ s.pull.pull_requested_frames
        all_written h = omega (arith, r.written_le)

        nothing_left :
            leb s.pull.pull_pending_sample_count s.pull.pull_pending_sample_offset ≡ true
            → undelivered s.pull ≡ []
        nothing_left over =
            ap (samples_from s.pull.pull_pending_sample_offset) e
            ∙ drop-eq-nil s.pull.pull_pending_sample_offset xs
                (omega (arith, al.counted, leb→le _ _ over))

    -- A drain during a read succeeds with no exception. It adds pending samples to the front of the
    -- array in order, none lost and none twice, until the request is met or nothing is pending.
    pub drain_decode_pull_pending-Drained :
        (s' : PullState W) × (drain_decode_pull_pending s ≡ (true, s')) × Drained s s'
    unfolding drain_decode_pull_pending
    drain_decode_pull_pending-Drained = drain_samples-Drained s.pull.pull_pending_samples refl
