-- ===== src/Decode/Read.antt =====
-- native/src/jflac_jni.c: `readPullDecoderInterleaved`, between the moment at which the session has
-- been acquired and the one at which it is released.
pub mod Continuity
pub mod Loop
pub mod Results
use java_kotlin_flac.Prelude.{
  ℕ, zero, suc, Bool, true, false, Option, none, some, List, ◌*◌, ◌==◌, ltb, if◌then◌else◌, ◌||◌,
  ◌&&◌, not, String, int_max, length, [],
}
use java_kotlin_flac.Prelude.Int.{ℤ, pos, negsuc, ltb_ℤ, eqb_ℤ, to_u64}
use java_kotlin_flac.Jni.{
  Vm, Java, complete, text, decoder_failed, exception_check, throw_decode_exception,
  throw_illegal_argument_exception, throw_illegal_state_exception,
}
use java_kotlin_flac.Flac.{Flac, DecoderState, end_of_stream, aborted}
use java_kotlin_flac.Decode.Context.{
  DecodeContext, ConsumerMethods, prepare_decode_context, Range, Pull,
}
use java_kotlin_flac.Decode.Range.{
  configure_decode_range, validate_decode_request, decode_range_starts_after_stream,
  decode_range_starts_at_stream_end,
}
use java_kotlin_flac.Decode.Pull.{PullState, drain_decode_pull_pending, output_of}
use java_kotlin_flac.Decode.Write.{State, consumer_call}
use java_kotlin_flac.Decode.Callbacks.{run, decoder_error_status_name}
use java_kotlin_flac.Decode.Process.{process_decode_stream, check_eof}
use java_kotlin_flac.Decode.Session.{error_name}

-- The fields that a read sets up: `frames` frames of `channels` channels, into `samples`.
unfoldable pub begin_pull : ℕ → ℕ → List ℤ → DecodeContext → DecodeContext
begin_pull frames channels samples c = record c {
  saw_error = false;
  pull = record c.pull {
    pull_output = some samples;
    pull_output_capacity_samples = length samples;
    pull_channels = channels;
    pull_requested_frames = frames;
    pull_written_frames = 0;
  };
}

-- `return` of a pull read: the number of frames, with the array that was passed.
pub record PullResult (W D : Type 0) : Type 0 where
  pub frames : ℤ
  pub output : List ℤ
  pub decoder : D
  pub state : State W

module _ {W : Type 0} where
  abbrev pub pull_state : State W → PullState W
  pull_state s = record { vm = s.vm; range = s.context.range; pull = s.context.pull }

  abbrev pub with_pull_state : State W → PullState W → State W
  with_pull_state s p = record s {
    vm = p.vm;
    context = record s.context { range = p.range; pull = p.pull };
  }

  abbrev pub with_pull : State W → Pull → State W
  with_pull s p = record s { context = record s.context { pull = p } }

  -- The end of a read: `context->pull_output = NULL`.
  abbrev pub give_back : {D : Type 0} → ℤ → D → State W → PullResult W D
  give_back frames d s = record {
    frames = frames;
    output = output_of s.context.pull;
    decoder = d;
    state = with_pull s (record s.context.pull { pull_output = none });
  }

  abbrev pub read_result : {D : Type 0} → D → State W → PullResult W D
  read_result d s =
      let p = s.context.pull in
      give_back
        (if ltb 0 p.pull_written_frames
          then pos p.pull_written_frames
          else if p.pull_end_of_stream
          then negsuc 0
          else pos 0)
        d s

module _ {W D : Type 0} (java : Java W) (flac : Flac D) where
  -- A failed pull read: the array is dropped, and the exception thrown after it.
  abbrev fail_pull : String → Option String → D → State W → PullResult W D
  fail_pull operation error d s = give_back (pos 0) d (record s {
    vm =
        throw_decode_exception (decoder_failed operation (flac.get_resolved_state_string d) error)
          s.vm;
  })

  -- The end of the stream, if as many frames were emitted as STREAMINFO declares.
  end_pull : D → State W → PullResult W D
  end_pull d s =
      let (counted, vm') = check_eof s in
      if counted
      then read_result d
          (record (with_pull s (record s.context.pull { pull_end_of_stream = true })) { vm = vm' })
      else give_back (pos 0) d (record s { vm = vm' })

  unfoldable pub pull_loop : ℕ → D → State W → Option (PullResult W D)
  unfolding end_pull throw_decode_exception
  pull_loop zero d s = none
  pull_loop (suc fuel) d s =
      let p = s.context.pull in
      if not (ltb p.pull_written_frames p.pull_requested_frames) || p.pull_end_of_stream
      then some (read_result d s)
      else (let (success, d₁, s₁) = run java (flac.process_single d) s in
          let rest = pull_loop fuel d₁ s₁ in
          if exception_check s₁.vm
          then some (give_back (pos 0) d₁ s₁)
          else if not success || s₁.context.saw_error
          then some (fail_pull "FLAC pull decoder failed" (error_name s₁.context) d₁ s₁)
          else elim (flac.get_state d₁) [
            | end_of_stream ↦ some (end_pull d₁ s₁)
            | aborted ↦ some (fail_pull "FLAC pull decoder aborted" none d₁ s₁)
            | _ ↦ rest
          ])

  pub drain_and_pull : ℕ → D → State W → Option (PullResult W D)
  drain_and_pull fuel d s =
      let (drained, p) = drain_decode_pull_pending (pull_state s) in
      let s₁ = with_pull_state s p in
      if drained then pull_loop fuel d s₁ else some (give_back (pos 0) d s₁)

  abbrev refuse_read : List ℤ → D → State W → Vm W → Option (PullResult W D)
  refuse_read samples d s vm =
      some (record { frames = pos 0; output = samples; decoder = d; state = record s { vm = vm } })

  -- A read of a positive number of frames into an array.
  read_frames : ℕ → List ℤ → ℕ → D → State W → Option (PullResult W D)
  unfolding throw_illegal_state_exception throw_illegal_argument_exception
  read_frames fuel samples frames d s =
      if not s.context.pull.pull_mode || not s.context.stream.saw_stream_info
      then refuse_read samples d s (
          throw_illegal_state_exception "The native FLAC decoder handle is not a pull decoder."
            s.vm)
      else (let channels = s.context.stream.stream_info.channels in
          let required_samples = frames * channels in
          if channels == 0 || ltb int_max required_samples || ltb (length samples) required_samples
          then refuse_read samples d s (
              throw_illegal_argument_exception
                "Interleaved sample buffer must fit maxFrames * channels." s.vm)
          else drain_and_pull fuel d
              (record s { context = begin_pull frames channels samples s.context }))

  -- `readPullDecoderInterleaved` once the session is acquired; `none` is a NULL array.
  unfoldable pub read_pull_decoder_interleaved :
      ℕ → Option (List ℤ) → ℤ → D → State W → Option (PullResult W D)
  unfolding read_frames throw_illegal_argument_exception
  read_pull_decoder_interleaved fuel none max_frames d s = some (record {
    frames = pos 0;
    output = [];
    decoder = d;
    state = record s {
      vm =
          throw_illegal_argument_exception
            (if ltb_ℤ max_frames (pos 0)
              then "Max frames must be non-negative."
              else "PCM sample buffer must not be null.")
            s.vm;
    };
  })
  read_pull_decoder_interleaved fuel (some samples) (negsuc n) d s = some (record {
    frames = pos 0;
    output = samples;
    decoder = d;
    state = record s {
      vm = throw_illegal_argument_exception "Max frames must be non-negative." s.vm;
    };
  })
  read_pull_decoder_interleaved fuel (some samples) (pos zero) d s =
      some (record { frames = pos 0; output = samples; decoder = d; state = s })
  read_pull_decoder_interleaved fuel (some samples) (pos (suc n)) d s =
      read_frames fuel samples (suc n) d s
