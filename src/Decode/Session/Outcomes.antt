-- ===== src/Decode/Session/Outcomes.antt =====
-- native/src/jflac_jni.c: how `decodeDecoderRange` ends, as Java sees it.
use java_kotlin_flac.Prelude.{
  ℕ, Bool, true, false, Option, some, List, [], ◌∷◌, ◌++◌, ◌≡◌, refl, ◌⊎◌, inl, inr, if_cases,
  if_false, ◌+◌, ◌≤◌, ◌<◌, ◌∙◌, ap, llong_max, not, ◌||◌, ◌&&◌, arith,
}
use java_kotlin_flac.Prelude.Int.{ℤ, pos, to_u64}
use java_kotlin_flac.Jni.{Java, Vm, Event, complete, exception_check}
use java_kotlin_flac.Flac.{Flac}
use java_kotlin_flac.Decode.Context.{ConsumerMethods, DecodeContext, prepare_decode_context}
use java_kotlin_flac.Decode.Range.{
  configure_decode_range, validate_decode_request, decode_range_starts_after_stream,
  decode_range_starts_at_stream_end,
}
use java_kotlin_flac.Decode.Range.Request.{validate_decode_request_iff}
use java_kotlin_flac.Decode.Write.Crop.{IsMetered, frames_heard, frames_heard-append}
use java_kotlin_flac.Decode.Callbacks.Bounded.{IsWord, IsBounded, run-IsBounded}
use java_kotlin_flac.Decode.Read.Continuity.{Progress}
use java_kotlin_flac.Decode.Process.Ranges.{RangeEnded, process_range-RangeEnded}
use java_kotlin_flac.Decode.Write.{State}
use java_kotlin_flac.Decode.Callbacks.{run}
use java_kotlin_flac.Decode.Process.{process_decode_stream}
use java_kotlin_flac.Decode.Session.{
  conclude_decode, seek_and_process, decode_decoder_range, decode_prepared_range,
  throw_range_after_stream_exception,
}

-- Java hears of the end: an exception is pending, or the consumer's last call was `onComplete`.
abbrev pub IsAnswered : {W : Type 0} → Vm W → Type 0
IsAnswered vm =
    (exception_check vm ≡ true) ⊎ ((before : List Event) × (vm.heard ≡ before ++ complete ∷ []))

-- A decode that began when the consumer had been given `base` frames returns, does not return in
-- silence, and gives the consumer at most `limit` frames.
pub record IsDecoded {W D : Type 0} (base limit : ℕ) (o : Option (D × State W)) : Type 0 where
  pub result : D × State W
  pub returns : o ≡ some result
  pub answered : IsAnswered result.1.vm
  pub frames_le : frames_heard result.1.vm.heard ≤ base + limit

-- A consumer whose class has the three methods.
abbrev pub full_consumer : Option (Option ConsumerMethods)
full_consumer =
    some (some (record { has_stream_info = true; has_pcm_interleaved = true; has_complete = true }))

negated : (b : Bool) → not b ≡ true → b ≡ false
negated b h = ground arith

-- The range that a valid request configures.
pub configure-IsMetered :
    {W : Type 0} (a b : ℕ) (vm : Vm W)
    → a + b ≤ llong_max
    → IsMetered (frames_heard vm.heard) b vm (configure_decode_range (pos a) true (pos b))
unfolding configure_decode_range
configure-IsMetered a b vm h = record {
  limited = refl;
  limit_eq = omega arith;
  max_le = omega arith;
  emitted_le = omega arith;
  heard_le = omega arith;
  heard_eq = λ _. omega arith;
  full = λ e. ground arith;
}

module _ {W D : Type 0} (java : Java W) (flac : Flac D) where
  conclude_decode-IsAnswered :
      (failed : Bool) (d : D) (s : State W)
      → IsAnswered (conclude_decode java flac failed d s).1.vm
        × (frames_heard (conclude_decode java flac failed d s).1.vm.heard ≡ frames_heard s.vm.heard)
  unfolding conclude_decode
  conclude_decode-IsAnswered failed d s =
      let P = λ (r : D × State W).
        IsAnswered r.1.vm × (frames_heard r.1.vm.heard ≡ frames_heard s.vm.heard) in
      if_cases P {b = not (exception_check s.vm) && failed} (λ _. (inl refl, refl))
        λ going.
          if_cases P {b = not (exception_check s.vm)}
            (λ _. (inr (s.vm.heard, refl), frames_heard-append s.vm.heard complete ∙ omega arith))
            (λ pending. (inl (ground arith), refl))

module _ {W D : Type 0} (java : Java W) (flac : Flac D) (base limit : ℕ) (left : D → ℕ) (fuel : ℕ)
    (words : (d : D) → IsWord (flac.process_single d))
    (seek_words : (n : ℕ) (d : D) → IsWord (flac.seek_absolute n d)) (progress : Progress flac left)
    (enough : (d : D) → left d < fuel) where
  within : (s : State W) → IsBounded base limit s → frames_heard s.vm.heard ≤ base + limit
  within s b = omega (arith, b.metered.heard_le, b.metered.limit_eq)

  -- In a bounded decode the loop over the range is the one that runs.
  pub process_decode_stream-RangeEnded :
      (d : D) (s : State W)
      → IsBounded base limit s
      → (r : Bool × D × State W) × (process_decode_stream java flac fuel d s ≡ some r)
        × RangeEnded flac base limit r
  unfolding process_decode_stream
  process_decode_stream-RangeEnded d s b =
      let (r, e, ended) =
        process_range-RangeEnded java flac base limit left words progress fuel d s (enough d) b in
      (
        r,
        if_false (λ o. o ≡ some r) {b = not s.context.range.range_limited} _
            (ground (arith, b.metered.limited)) e,
        ended,
      )

  seek_and_process-IsDecoded :
      (failed : Bool → DecodeContext → Bool) (first_sample : ℤ) (d : D) (s : State W)
      → IsBounded base limit s
      → IsDecoded base limit (seek_and_process java flac fuel failed first_sample d s)
  unfolding seek_and_process
  seek_and_process-IsDecoded failed first_sample d s b =
      let step = run java (flac.seek_absolute (to_u64 first_sample) d) s in
      let b₁ =
        run-IsBounded java base limit (flac.seek_absolute (to_u64 first_sample) d) s
          (seek_words (to_u64 first_sample) d) b in
      if_cases (IsDecoded base limit)
        {b = not (exception_check step.2.vm) && (not step.0 || step.2.context.saw_error)}
        (λ _. record {
          result = _;
          returns = refl;
          answered = inl refl;
          frames_le = within step.2 b₁;
        })
        (λ _.
          let (r, e, ended) = process_decode_stream-RangeEnded step.1 step.2 b₁ in
          let (answer, same) =
            conclude_decode-IsAnswered java flac (failed r.0 r.2.context) r.1 r.2 in
          record {
            result = conclude_decode java flac (failed r.0 r.2.context) r.1 r.2;
            returns = rw e refl;
            answered = answer;
            frames_le = omega (arith, same, within r.2 ended.bounded);
          })

  decode_prepared_range-IsDecoded :
      (first_sample : ℤ) (d : D) (s : State W)
      → IsBounded base limit s
      → IsDecoded base limit (decode_prepared_range java flac fuel first_sample d s)
  unfolding decode_prepared_range throw_range_after_stream_exception
  decode_prepared_range-IsDecoded first_sample d s b =
      let Q = IsDecoded {D = D} base limit in
      if_cases Q {b = decode_range_starts_after_stream s.context.stream first_sample}
        (λ _. record { result = _; returns = refl; answered = inl refl; frames_le = within s b })
        λ _.
          if_cases Q
            {b = s.context.range.range_complete
              || decode_range_starts_at_stream_end s.context.stream first_sample}
            (λ _.
              if_cases (λ (t : State W). Q (some (d, t))) {b = exception_check s.vm}
                (λ pending. record {
                  result = _;
                  returns = refl;
                  answered = inl pending;
                  frames_le = within s b;
                })
                (λ _. record {
                  result = _;
                  returns = refl;
                  answered = inr (s.vm.heard, refl);
                  frames_le = omega (arith, frames_heard-append s.vm.heard complete, within s b);
                }))
            (λ _. seek_and_process-IsDecoded (λ success c. not success) first_sample d s b)

module _ {W D : Type 0} (java : Java W) (flac : Flac D) (left : D → ℕ) (fuel : ℕ)
    (words : (d : D) → IsWord (flac.process_single d))
    (seek_words : (n : ℕ) (d : D) → IsWord (flac.seek_absolute n d)) (progress : Progress flac left)
    (enough : (d : D) → left d < fuel) where
  -- With enough fuel and a consumer whose class has the three methods, a valid bounded decode of `b`
  -- frames on a session that is not a pull session returns. It does not return in silence: an exception
  -- is pending, or the consumer's last call was `onComplete`. And it gives the consumer at most `b`
  -- frames.
  pub decode_decoder_range-IsDecoded :
      (a b : ℕ) (d : D) (s : State W)
      → a + b ≤ llong_max
      → s.context.pull.pull_mode ≡ false
      → IsDecoded
          (frames_heard s.vm.heard)
          b
          (decode_decoder_range java flac fuel (pos a) (pos b) full_consumer d s)
  unfolding decode_decoder_range prepare_decode_context
  decode_decoder_range-IsDecoded a b d s h push =
      let Q = IsDecoded {D = D} (frames_heard s.vm.heard) b in
      if_false Q {b = s.context.pull.pull_mode} _ push (
        if_false Q {b = not (validate_decode_request (pos a) true (pos b) s.vm).0} _
          (ap not ((validate_decode_request_iff (pos a) (pos b) s.vm).1 (a, b, refl, refl, h)))
          (decode_prepared_range-IsDecoded java flac (frames_heard s.vm.heard) b left fuel words
            seek_words progress enough (pos a) d
            (record s {
              context = record prepared {
                stream = record prepared.stream { suppress_metadata = true };
                range = configure_decode_range (pos a) true (pos b);
              };
            })
            (record { push = push; metered = configure-IsMetered a b s.vm h })))
    where
      prepared : DecodeContext
      prepared =
          (prepare_decode_context
            (some
              (record { has_stream_info = true; has_pcm_interleaved = true; has_complete = true }))
            s.context).0
