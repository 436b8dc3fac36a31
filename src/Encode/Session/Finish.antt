-- ===== src/Encode/Session/Finish.antt =====
-- native/src/jflac_jni.c: `finishEncoder` on an encoder that no operation uses.
use java_kotlin_flac.Prelude.{ℕ, Bool, true, false, Option, none, some, List, [], ◌∷◌, ◌+◌, ◌≡◌}
use java_kotlin_flac.Prelude.Int.{ℤ}
use java_kotlin_flac.Jni.{Java, Vm, Holdings, encode_exception, encoder_failed, exception_check}
use java_kotlin_flac.Encode.Process.{FlacEncoder}
use java_kotlin_flac.Encode.Session.{EncodeContext, encoder_state_or_unknown}
use java_kotlin_flac.Sessions.{Session, Registry, unlink_entry}

-- The session of an open encoder that no operation uses.
abbrev pub idle : {E : Type 0} → ℤ → E → EncodeContext → Session (E × EncodeContext)
idle h e c = record {
  decoder = some (e, c);
  handle = h;
  reference_count = 0;
  released = false;
  in_use = false;
}

-- The blocks that a context still owns.
abbrev pub owned_blocks : Option (List (Option ℕ)) → ℕ
owned_blocks none = 0
owned_blocks (some []) = 0
owned_blocks (some (none ∷ blocks)) = owned_blocks (some blocks)
owned_blocks (some (some b ∷ blocks)) = owned_blocks (some blocks) + 1

abbrev pub reference_count_of : Bool → ℕ
reference_count_of true = 1
reference_count_of false = 0

-- `held`, and what an open encoder needs besides: the libFLAC encoder, the metadata blocks and the
-- references to the output.
abbrev pub with_encoder : EncodeContext → Holdings → Holdings
with_encoder c held = record held {
  encoders = held.encoders + 1;
  metadata_blocks = held.metadata_blocks + owned_blocks c.metadata_blocks;
  global_refs =
      held.global_refs
      + reference_count_of c.output.output_stream
      + reference_count_of c.output.output_channel;
}

module _ {W E : Type 0} (java : Java W) (flac : FlacEncoder E) where
  -- How the finish of the encoder at `p` ends, if libFLAC's finish leaves `success`, `e` and `vm`: the
  -- encoder has left the registry and the heap, the bridge holds `held`, and a failure is thrown unless
  -- an exception is pending.
  pub record IsFinished (h : ℤ) (p : ℕ) (held : Holdings) (success : Bool) (e : E) (vm : Vm W)
      (r : Registry (E × EncodeContext)) (o : Option (Registry (E × EncodeContext) × Vm W))
      : Type 0 where
    pub registry : Registry (E × EncodeContext)
    pub left : Vm W
    pub returns : o ≡ some (registry, left)
    pub unlinked : registry.entries ≡ unlink_entry h r.entries
    pub destroyed : registry.heap p ≡ none
    pub same_holdings : left.holdings ≡ held
    pub same_world : left.world ≡ vm.world
    pub thrown :
        success ≡ false
        → vm.pending ≡ none
        → left.pending
          ≡ some (
              encode_exception (
                encoder_failed "Failed to finalize FLAC encoding"
                  (encoder_state_or_unknown (flac.get_resolved_state_string e))))
    pub kept : exception_check vm ≡ true → left.pending ≡ vm.pending
    pub calm : success ≡ true → left.pending ≡ vm.pending
