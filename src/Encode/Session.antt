-- ===== src/Encode/Session.antt =====
-- native/src/jflac_jni.c: the context of an encoder, and the operations on an open one. The registry of
-- encoders is the code of Sessions.antt over contexts; a session's payload is the libFLAC encoder with
-- its context.
pub mod Writes
pub mod Finish
use java_kotlin_flac.Prelude.{
  ℕ, suc, Bool, true, false, Option, none, some, List, [], ◌∷◌, ◌-◌, ◌+◌, ◌*◌, ◌==◌, ltb,
  if◌then◌else◌, ◌||◌, ◌&&◌, not, String, length, is_some, u64,
}
use java_kotlin_flac.Prelude.Int.{ℤ, pos, ltb_ℤ, eqb_ℤ, pos_part, to_u64}
use java_kotlin_flac.Jni.{
  Vm, Java, Throwable, encode_exception, illegal_argument, text, encoder_failed, call, throw,
  exception_check, throw_illegal_state_exception, throw_encode_exception,
}
use java_kotlin_flac.Encode.Output.{Output}
use java_kotlin_flac.Encode.Process.{EncodeProcess, FlacEncoder, EncodeState, run_encoder}
use java_kotlin_flac.Sessions.{
  Session, Registry, store, acquire_decode_session, release_decode_session_reference,
  remove_decode_session, destroy_decode_session, active_decode_session_count,
}

-- A block that was given to another owner is `none` in `metadata_blocks`.
pub record EncodeContext : Type 0 where
  pub metadata_blocks : Option (List (Option ℕ))
  pub channels : ℕ
  pub output : Output

abbrev present : List (Option ℕ) → ℕ
present [] = 0
present (none ∷ blocks) = present blocks
present (some b ∷ blocks) = suc (present blocks)

abbrev pub encoder_state_or_unknown : Option String → String
encoder_state_or_unknown none = "unknown encoder state"
encoder_state_or_unknown (some state) = state

module _ {W : Type 0} where
  -- `metadata_object_delete` of every block that is owned.
  unfoldable pub destroy_metadata_blocks : EncodeContext → Vm W → EncodeContext × Vm W
  destroy_metadata_blocks c vm = elim c.metadata_blocks [
    | none ↦ (c, vm)
    | some blocks ↦ (
      record c { metadata_blocks = none },
      record vm {
        holdings = record vm.holdings {
          metadata_blocks = vm.holdings.metadata_blocks - present blocks;
        };
      },
    )
  ]

  abbrev delete_encoder : Vm W → Vm W
  delete_encoder vm = record vm {
    holdings = record vm.holdings { encoders = vm.holdings.encoders - 1 };
  }

  -- A global reference is deleted if there is one.
  abbrev delete_reference : Bool → Vm W → Vm W
  delete_reference reference vm =
      if reference
      then record vm { holdings = record vm.holdings { global_refs = vm.holdings.global_refs - 1 } }
      else vm

  -- `encoder` says whether the context has a libFLAC encoder.
  unfoldable pub destroy_encode_context : Bool → EncodeContext → Vm W → Vm W
  unfolding destroy_metadata_blocks
  destroy_encode_context encoder c vm =
      let vm₁ = if encoder then delete_encoder vm else vm in
      let (c', vm₂) = destroy_metadata_blocks c vm₁ in
      delete_reference c.output.output_channel (delete_reference c.output.output_stream vm₂)

module _ {W E : Type 0} (java : Java W) (flac : FlacEncoder E) where
  abbrev Active : Type 0
  Active = Registry (E × EncodeContext)

  -- What a write comes to: the encoder, and the exception to be thrown once the context is released.
  abbrev pub Written : Type 0
  Written = E × Vm W × Option Throwable

  abbrev refuse : String → E → Vm W → Written
  refuse message e vm = (e, vm, some (illegal_argument (text message)))

  -- A failed call of libFLAC is reported unless Java has thrown.
  abbrev pub report_failure : Bool → E → EncodeState W → Written
  report_failure success e s = (
    e,
    s.vm,
    if not success && not (exception_check s.vm)
        then some (
            encode_exception (
              encoder_failed "FLAC encoding failed while processing PCM"
                (encoder_state_or_unknown (flac.get_resolved_state_string e))))
        else none,
  )

  abbrev pub fresh : Vm W → EncodeState W
  fresh vm = record { vm = vm; accepted = []; refused = false }

  process_elements : List ℤ → ℕ → E → EncodeContext → Vm W → Option Written
  process_elements elements frames e c vm =
      elim (run_encoder java c.output (flac.process_interleaved elements frames e) (fresh vm)) [
        | none ↦ none
        | some (success, e', s) ↦ some (report_failure success e' s)
      ]

  -- The part of `writeEncoderInterleaved` between acquiring and releasing the context. `accessible` says
  -- whether `GetIntArrayElements` gave the samples.
  unfoldable pub encode_frames :
      Option (List ℤ) → ℤ → Bool → E → EncodeContext → Vm W → Option Written
  unfolding process_elements
  encode_frames samples frames accessible e c vm =
      if ltb_ℤ frames (pos 0)
      then some (refuse "Frame count must be non-negative." e vm)
      else if eqb_ℤ frames (pos 0)
      then some (e, vm, none)
      else elim samples [
        | none ↦ some (refuse "PCM sample buffer must not be null." e vm)
        | some elements ↦
            if not (length elements == u64 (to_u64 frames * c.channels))
            then some (refuse "Sample array length must equal frames * channels." e vm)
            else if not accessible
            then some
                (e, vm, some (encode_exception (text "Failed to access PCM samples for encoding.")))
            else process_elements elements (pos_part frames) e c vm
      ]

  abbrev thrown : Option Throwable → Vm W → Vm W
  thrown none vm = vm
  thrown (some e) vm = throw e vm

  -- `destroy_encode_context` of the context at `p`.
  destroy_at : ℕ → Option (Session (E × EncodeContext)) → Active → Vm W → Active × Vm W
  unfolding destroy_encode_context destroy_decode_session
  destroy_at p none r vm = (r, vm)
  destroy_at p (some s) r vm = (
    destroy_decode_session p r,
    elim s.decoder [ none ↦ vm | some (e, c) ↦ destroy_encode_context true c vm ],
  )

  destroy_if : ℕ → Option (Bool × Active) → Vm W → Option (Active × Vm W)
  unfolding destroy_at
  destroy_if p none vm = none
  destroy_if p (some (false, r)) vm = some (r, vm)
  destroy_if p (some (true, r)) vm = some (destroy_at p (r.heap p) r vm)

  unfoldable pub release_encode_context_reference : ℕ → Active → Vm W → Option (Active × Vm W)
  unfolding destroy_if release_decode_session_reference
  release_encode_context_reference p r vm = destroy_if p (release_decode_session_reference p r) vm

  -- The context at `p` with the encoder that a call left.
  abbrev put_encoder : ℕ → E → Session (E × EncodeContext) → EncodeContext → Active → Active
  put_encoder p e s c r = store p (record s { decoder = some (e, c) }) r

  -- The write on the context at `p`, its release, and the exception.
  write_at :
      ℕ
      → Option (Session (E × EncodeContext))
      → Option (List ℤ)
      → ℤ
      → Bool
      → Active
      → Vm W
      → Option (Active × Vm W)
  unfolding encode_frames release_encode_context_reference
  write_at p none samples frames accessible r vm = none
  write_at p (some s) samples frames accessible r vm = elim s.decoder [
    | none ↦ none
    | some (e, c) ↦ elim (encode_frames samples frames accessible e c vm) [
      | none ↦ none
      | some (e', vm', failure) ↦
          elim (release_encode_context_reference p (put_encoder p e' s c r) vm') [
            | none ↦ none
            | some (r', vm'') ↦ some (r', thrown failure vm'')
          ]
    ]
  ]

  unfoldable pub write_encoder_interleaved :
      ℤ → Option (List ℤ) → ℤ → Bool → Active → Vm W → Option (Active × Vm W)
  unfolding write_at acquire_decode_session throw_illegal_state_exception
  write_encoder_interleaved handle samples frames accessible r vm =
      elim (acquire_decode_session handle r) [
        | none ↦ none
        | some (none, r') ↦
            some
              (r', throw_illegal_state_exception "The native FLAC encoder handle is not active." vm)
        | some (some p, r') ↦ write_at p (r'.heap p) samples frames accessible r' vm
      ]

  -- `finish`, the flush of a stream, and whether the finish succeeded.
  unfoldable pub finish_output : E → EncodeContext → Vm W → Option (Bool × E × Vm W)
  finish_output e c vm = elim (run_encoder java c.output (flac.finish e) (fresh vm)) [
    | none ↦ none
    | some (success, e', s) ↦ some (
      success,
      e',
      if success && c.output.output_stream && c.output.output_flush
          then (call tt java.stream_flush s.vm).1
          else s.vm,
    )
  ]

  abbrev finish_failure : Bool → E → Vm W → Vm W
  finish_failure success e vm =
      if exception_check vm
      then vm
      else if not success
      then throw
          (encode_exception (
            encoder_failed "Failed to finalize FLAC encoding"
              (encoder_state_or_unknown (flac.get_resolved_state_string e))))
          vm
      else vm

  after_release : Bool → E → Option (Active × Vm W) → Option (Active × Vm W)
  after_release success e none = none
  after_release success e (some (r, vm)) = some (r, finish_failure success e vm)

  -- The context is released, and the failure of the finish thrown.
  after_finish :
      ℕ
      → Session (E × EncodeContext)
      → EncodeContext
      → Active
      → Option (Bool × E × Vm W)
      → Option (Active × Vm W)
  unfolding release_encode_context_reference after_release
  after_finish p s c r none = none
  after_finish p s c r (some (success, e, vm)) =
      after_release success e (release_encode_context_reference p (put_encoder p e s c r) vm)

  finish_payload :
      ℕ
      → Session (E × EncodeContext)
      → Option (E × EncodeContext)
      → Active
      → Vm W
      → Option (Active × Vm W)
  unfolding finish_output after_finish
  finish_payload p s none r vm = none
  finish_payload p s (some (e, c)) r vm = after_finish p s c r (finish_output e c vm)

  -- The finish of the context at `p`, which has been removed from the registry.
  finish_at : ℕ → Option (Session (E × EncodeContext)) → Active → Vm W → Option (Active × Vm W)
  unfolding finish_payload
  finish_at p none r vm = none
  finish_at p (some s) r vm = finish_payload p s s.decoder r vm

  -- After the handle was acquired it is removed; the context is not destroyed by that, as it is in use.
  finish_removed : ℕ → Option (Option ℕ × Active) → Vm W → Option (Active × Vm W)
  unfolding finish_at
  finish_removed p none vm = none
  finish_removed p (some (to_destroy, r)) vm = finish_at p (r.heap p) r vm

  finish_acquired : ℤ → Option (Option ℕ × Active) → Vm W → Option (Active × Vm W)
  unfolding finish_removed remove_decode_session throw_illegal_state_exception
  finish_acquired handle none vm = none
  finish_acquired handle (some (none, r)) vm =
      some (r, throw_illegal_state_exception "The native FLAC encoder handle is not active." vm)
  finish_acquired handle (some (some p, r)) vm =
      finish_removed p (remove_decode_session handle r) vm

  unfoldable pub finish_encoder : ℤ → Active → Vm W → Option (Active × Vm W)
  unfolding finish_acquired acquire_decode_session
  finish_encoder handle r vm = finish_acquired handle (acquire_decode_session handle r) vm

  unfoldable pub release_encoder : ℤ → Active → Vm W → Option (Active × Vm W)
  unfolding destroy_at remove_decode_session
  release_encoder handle r vm = elim (remove_decode_session handle r) [
    | none ↦ none
    | some (none, r') ↦ some (r', vm)
    | some (some p, r') ↦ some (destroy_at p (r'.heap p) r' vm)
  ]

  unfoldable pub active_encoder_context_count : Active → ℕ
  unfolding active_decode_session_count
  active_encoder_context_count r = active_decode_session_count r
