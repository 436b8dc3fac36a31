-- ===== src/Decode/Open.antt =====
-- native/src/jflac_jni.c: the opening of a reusable decoder session over a file and over a channel,
-- and the destruction of a session with what it holds. A session in the registry is a decoder with the
-- context of its callbacks.
pub mod Balance
pub mod Outcomes
pub mod Release
pub mod Restored
use java_kotlin_flac.Prelude.{
  ℕ, Bool, true, false, Option, none, some, String, List, [], if◌then◌else◌, ◌&&◌, ◌||◌, not,
  is_some,
}
use java_kotlin_flac.Prelude.Int.{ℤ, pos, eqb_ℤ}
use java_kotlin_flac.Jni.{Vm, Java, text, decoder_failed, exception_check, throw_decode_exception}
use java_kotlin_flac.Flac.{Flac, Process}
use java_kotlin_flac.Text.{c_string, jstring_to_utf8}
use java_kotlin_flac.Entry.{Loading, check_entry}
use java_kotlin_flac.Sessions.{Registry, register_decode_session}
use java_kotlin_flac.Decode.Context.{
  DecodeContext, Source, prepare_decode_seekable_channel, clear_decode_seekable_channel,
  clear_decode_input_stream, clear_decode_pull_pending,
}
use java_kotlin_flac.Decode.Context.Zero.{zero_context}
use java_kotlin_flac.Decode.Write.{State}
use java_kotlin_flac.Decode.Callbacks.{run}
use java_kotlin_flac.Decode.Coder.{
  count_decoder, delete_decoder, init_file_decoder_for_container, init_stream_decoder_for_container,
}
use java_kotlin_flac.Decode.Session.{error_name}
use java_kotlin_flac.Decode.OneShot.{throw_after}
use java_kotlin_flac.Decode.OneShot.Inputs.{class_of}

-- What the entry points say. A channel's opening also looks for an exception of the channel.
pub record Opening : Type 0 where
  pub watches_exceptions : Bool
  pub initializing : String
  pub reading_metadata : String
  pub registering : String

abbrev pub file_opening : Opening
file_opening = record {
  watches_exceptions = false;
  initializing = "Failed to initialize FLAC decoder.";
  reading_metadata = "FLAC decoder session failed while reading metadata";
  registering = "Failed to register FLAC decoder session.";
}

abbrev pub channel_opening : Opening
channel_opening = record {
  watches_exceptions = true;
  initializing = "Failed to initialize FLAC channel decoder.";
  reading_metadata = "FLAC channel decoder session failed while reading metadata";
  registering = "Failed to register FLAC channel decoder session.";
}

-- The context of a session that `calloc` has cleared, without a consumer.
abbrev pub session_context : DecodeContext
session_context = record zero_context {
  stream = record zero_context.stream { suppress_metadata = true };
}

module _ {W : Type 0} where
  abbrev pub session_state : Vm W → State W
  session_state vm = record { vm = vm; context = session_context; delivered = [] }

  -- The references and the buffer of a context are given back.
  unfoldable pub clear_context : State W → State W
  unfolding clear_decode_seekable_channel clear_decode_input_stream clear_decode_pull_pending
  clear_context s =
      let (source₁, vm₁) = clear_decode_seekable_channel s.context.source s.vm in
      let (source₂, vm₂) = clear_decode_input_stream source₁ vm₁ in
      record s {
        vm = vm₂;
        context = record s.context {
          source = source₂;
          pull = clear_decode_pull_pending s.context.pull;
        };
      }

module _ {W D : Type 0} (java : Java W) (flac : Flac D) where
  -- `destroy_decode_session` up to `free`: the decoder, if there is one, is finished and deleted.
  unfoldable pub release_session : Option D → State W → State W
  unfolding clear_context
  release_session none s = clear_context s
  release_session (some d) s =
      let s₁ = (run java (flac.finish d) s).2 in
      clear_context (record s₁ { vm = delete_decoder s₁.vm })

-- What an opening returns: the handle, 0 for none, the registry and the machine.
abbrev pub Opened : Type 0 → Type 0 → Type 0
Opened W D = ℤ × Registry (D × DecodeContext) × Vm W

-- `session` is the address that `calloc` gives, `none` for NULL, `created` what `stream_decoder_new`
-- gives, and `allocated` says whether the registry's entry is allocated.
module _ {W D : Type 0} (java : Java W) (flac : Flac D) (loading : Loading) (fuel : ℕ)
    (session : Option ℕ) (created : Option D) (allocated : Bool)
    (r : Registry (D × DecodeContext)) where
  abbrev refused : Vm W → Option (Opened W D)
  refused vm = some (pos 0, r, vm)

  -- The handle that Java gets, unless the session could not be registered.
  concluded :
      Opening → D → State W → Option (ℤ × Registry (D × DecodeContext)) → Option (Opened W D)
  unfolding release_session throw_decode_exception
  concluded words d s none = none
  concluded words d s (some (handle, r')) =
      if eqb_ℤ handle (pos 0)
      then some
          (pos 0, r', (throw_after words.registering (release_session java flac (some d) s)).vm)
      else some (handle, r', s.vm)

  -- After the metadata, whose success is `ok`.
  unfoldable pub register_session : Opening → ℕ → Bool → D → State W → Option (Opened W D)
  unfolding concluded release_session register_decode_session throw_decode_exception
  register_session words p ok d s =
      let bad = not ok || s.context.saw_error in
      let thrown = words.watches_exceptions && exception_check s.vm in
      let message =
        decoder_failed words.reading_metadata (flac.get_resolved_state_string d)
          (error_name s.context) in
      let gone = release_session java flac (some d) s in
      if not thrown && bad
      then refused (throw_decode_exception message gone.vm)
      else if thrown || bad
      then refused gone.vm
      else concluded words d s (register_decode_session fuel allocated p (d, s.context) r)

  -- A session with its decoder and input: it is initialised, reads the metadata and is registered.
  unfoldable pub start_session : Opening → ℕ → (D → Process D) → D → State W → Option (Opened W D)
  unfolding register_session release_session throw_decode_exception
  start_session words p init d s =
      let (initialized, d₁, s₁) = run java (init d) s in
      if not initialized
      then refused (throw_after words.initializing (release_session java flac (some d₁) s₁)).vm
      else (let (ok, d₂, s₂) = run java (flac.process_until_end_of_metadata d₁) s₁ in
          register_session words p ok d₂ s₂)

  -- The allocations; `go` continues with the session, its decoder and the machine.
  unfoldable pub with_session :
      Option ℕ → Option D → (ℕ → D → Vm W → Option (Opened W D)) → Vm W → Option (Opened W D)
  unfolding release_session throw_decode_exception
  with_session none decoder go vm =
      refused (throw_decode_exception (text "Failed to allocate FLAC decoder session.") vm)
  with_session (some p) none go vm =
      refused
        (throw_after "Failed to allocate FLAC decoder."
          (release_session java flac none (session_state vm))).vm
  with_session (some p) (some d) go vm = go p d (count_decoder vm)

  open_utf8_path : ℤ → Option (List ℕ) × Vm W → Option (Opened W D)
  unfolding with_session start_session init_file_decoder_for_container c_string
      throw_decode_exception
  open_utf8_path container (none, vm) = refused (
      if exception_check vm
      then vm
      else throw_decode_exception (text "Failed to encode file path to UTF-8.") vm)
  open_utf8_path container (some utf8_path, vm) =
      with_session session created
        (λ p d vm₁.
          start_session file_opening p
            (init_file_decoder_for_container flac container (c_string utf8_path)) d
            (session_state vm₁))
        vm

  unfoldable pub open_decoder_file : Bool → Option (List ℕ) → ℤ → Vm W → Option (Opened W D)
  unfolding open_utf8_path check_entry jstring_to_utf8
  open_decoder_file lookups path container vm =
      let (ready, vm₁) =
        check_entry loading container (is_some path) "Decoder path must not be null." vm in
      if not ready
      then refused vm₁
      else open_utf8_path container (jstring_to_utf8 java lookups path vm₁)

  -- A channel's session, from the preparation of the channel on.
  unfoldable pub open_channel :
      ℤ → Bool → Option (Bool × Bool × Bool × Bool) → ℕ → D → Vm W → Option (Opened W D)
  unfolding start_session release_session init_stream_decoder_for_container
      prepare_decode_seekable_channel
  open_channel container channel class p d vm =
      let (prepared, source, vm₁) =
        prepare_decode_seekable_channel java channel class session_context.source vm in
      let s = record (session_state vm₁) { context = record session_context { source = source } } in
      if not prepared
      then refused (release_session java flac (some d) s).vm
      else start_session channel_opening p (init_stream_decoder_for_container flac container true) d
          s

  -- `channel` is what the lookups in the channel's class find; `none` is a NULL channel.
  unfoldable pub open_decoder_channel :
      Option (Option (Bool × Bool × Bool × Bool)) → ℤ → Vm W → Option (Opened W D)
  unfolding open_channel with_session check_entry
  open_decoder_channel channel container vm =
      let (ready, vm₁) =
        check_entry loading container (is_some channel) "Decoder seekable channel must not be null."
          vm in
      if not ready
      then refused vm₁
      else with_session session created
          (open_channel container (is_some channel) (class_of channel)) vm₁
