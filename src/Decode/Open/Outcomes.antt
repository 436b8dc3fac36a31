-- ===== src/Decode/Open/Outcomes.antt =====
-- native/src/jflac_jni.c: how the opening of a decoder session over a file or a channel ends.
use java_kotlin_flac.Prelude.{
  ℕ, Bool, true, false, Option, none, some, List, String, ◌≡◌, refl, ◌∙◌, ap, ◌+◌, ◌-◌, ◌≤◌, ◌<◌,
  suc, not, if_cases, arith, is_some, inl, length, llong_max, subst,
}
use java_kotlin_flac.Prelude.Int.{ℤ, pos}
use java_kotlin_flac.Jni.{Java, Vm, Holdings, exception_check, throw_decode_exception}
use java_kotlin_flac.Flac.{Flac}
use java_kotlin_flac.Text.{jstring_to_utf8, c_string}
use java_kotlin_flac.Text.Utf8.{jstring_to_utf8-IsQuieter}
use java_kotlin_flac.Entry.{Loading, check_entry}
use java_kotlin_flac.Sessions.{Registry, register_decode_session}
use java_kotlin_flac.Sessions.Handles.{register_decode_session_total}
use java_kotlin_flac.Decode.Context.{
  DecodeContext, Source, prepare_decode_seekable_channel, add_global_ref,
  clear_decode_seekable_channel,
}
use java_kotlin_flac.Decode.Context.Channel.{
  all_methods, prepare_decode_seekable_channel-IsPrepared, prepare_decode_seekable_channel-raises,
  with_reference, without_reference,
}
use java_kotlin_flac.Decode.Write.{State}
use java_kotlin_flac.Decode.Callbacks.{run}
use java_kotlin_flac.Decode.Callbacks.Balance.{run-IsKept}
use java_kotlin_flac.Decode.Coder.{
  count_decoder, delete_decoder, init_file_decoder_for_container, init_stream_decoder_for_container,
}
use java_kotlin_flac.Decode.OneShot.Inputs.Balance.{check_entry-holdings}
use java_kotlin_flac.Decode.OneShot.Inputs.Reports.{
  check_entry-IsChecked, negated_true, negated_false,
}
use java_kotlin_flac.Decode.Open.{
  Opened, release_session, session_state, session_context, file_opening, channel_opening,
  with_session, start_session, open_utf8_path, open_decoder_file, open_channel,
  open_decoder_channel,
}
use java_kotlin_flac.Decode.Open.Balance.{
  IsOpened, clear_context-holdings, clear_context-channel, release_session-raised,
  start_session-IsOpened,
}

-- What a session over a file needs: its decoder.
abbrev pub with_decoder : Holdings → Holdings
with_decoder held = record held { decoders = held.decoders + 1 }

without_decoder : (held : Holdings) → record held { decoders = held.decoders + 1 - 1 } ≡ held
without_decoder held = ap (λ n. record held { decoders = n }) (omega arith)

module _ {W D : Type 0} (java : Java W) (flac : Flac D) where
  -- A session over a file gives its decoder back.
  release_file :
      (held : Holdings) (start : State W)
      → start.context.source.seekable_channel ≡ false
      → start.context.source.input_stream_is_global ≡ false
      → start.vm.holdings ≡ with_decoder held
      → (d : D) (t : State W) → t.context.source ≡ start.context.source
      → t.vm.holdings ≡ start.vm.holdings
      → (release_session java flac (some d) t).vm.holdings ≡ held
  unfolding release_session
  release_file held start no_channel no_stream e d t same_source same_holdings =
      let u = (run java (flac.finish d) t).2 in
      let k = run-IsKept java (flac.finish d) t in
      clear_context-holdings (record u { vm = delete_decoder u.vm })
        (ap (λ x. x.seekable_channel) (k.same_source ∙ same_source) ∙ no_channel)
        (ap (λ x. x.input_stream_is_global) (k.same_source ∙ same_source) ∙ no_stream)
      ∙ ap {A = Holdings} (λ h. record h { decoders = h.decoders - 1 })
          (k.balanced.same_holdings ∙ same_holdings ∙ e)
      ∙ without_decoder held

  -- A session over a channel gives its reference back, too.
  release_channel :
      (held : Holdings) (start : State W)
      → start.context.source.seekable_channel ≡ true
      → start.context.source.input_stream_is_global ≡ false
      → start.vm.holdings ≡ with_reference (with_decoder held)
      → (d : D) (t : State W) → t.context.source ≡ start.context.source
      → t.vm.holdings ≡ start.vm.holdings
      → (release_session java flac (some d) t).vm.holdings ≡ held
  unfolding release_session
  release_channel held start channel no_stream e d t same_source same_holdings =
      let u = (run java (flac.finish d) t).2 in
      let k = run-IsKept java (flac.finish d) t in
      clear_context-channel (record u { vm = delete_decoder u.vm })
        (ap (λ x. x.seekable_channel) (k.same_source ∙ same_source) ∙ channel)
        (ap (λ x. x.input_stream_is_global) (k.same_source ∙ same_source) ∙ no_stream)
      ∙ ap {A = Holdings}
          (λ h. record h { decoders = h.decoders - 1; global_refs = h.global_refs - 1 })
          (k.balanced.same_holdings ∙ same_holdings ∙ e)
      ∙ ap {A = Holdings} (λ h. record h { decoders = h.decoders - 1 })
          (without_reference (with_decoder held))
      ∙ without_decoder held

module _ {W : Type 0} (java : Java W) where
  prepared-no_stream :
      (channel : Bool) (class : _) (s : Source) (vm : Vm W)
      → (prepare_decode_seekable_channel java channel class s vm).1.input_stream_is_global
        ≡ s.input_stream_is_global
  unfolding prepare_decode_seekable_channel add_global_ref clear_decode_seekable_channel
  prepared-no_stream false class s vm = refl
  prepared-no_stream true none s vm = refl
  prepared-no_stream true (some (r, p, k, z)) s vm = ground arith

module _ {W D : Type 0} (java : Java W) (flac : Flac D) (loading : Loading) (fuel : ℕ)
    (session : Option ℕ) (created : Option D) (allocated : Bool) (r : Registry (D × DecodeContext))
    (enough : (p : ℕ) (x : D × DecodeContext)
      → is_some (register_decode_session fuel allocated p x r) ≡ true) where
  refused-IsOpened :
      (held needed : Holdings) (vm : Vm W)
      → exception_check vm ≡ true
      → vm.holdings ≡ held
      → IsOpened java flac r held needed session (some (pos 0, r, vm))
  refused-IsOpened held needed vm e h =
      inl (record { no_handle = refl; raised = e; same_registry = refl; same_holdings = h })

  with_session-IsOpened :
      (needed : Holdings) (go : ℕ → D → Vm W → Option (Opened W D)) (vm : Vm W)
      → ((p : ℕ) (d : D)
          → session ≡ some p
          → IsOpened java flac r vm.holdings needed session (go p d (count_decoder vm)))
      → IsOpened java flac r vm.holdings needed session
          (with_session java flac loading fuel session created allocated r session created go vm)
  unfolding with_session release_session throw_decode_exception
  with_session-IsOpened needed go vm goes = cases session created goes
    where
      cases :
          (o : Option ℕ) (c : Option D)
          → ((p : ℕ) (d : D)
              → o ≡ some p
              → IsOpened java flac r vm.holdings needed session (go p d (count_decoder vm)))
          → IsOpened java flac r vm.holdings needed session
              (with_session java flac loading fuel session created allocated r o c go vm)
      cases none c h = refused-IsOpened vm.holdings needed _ refl refl
      cases (some p) none h =
          refused-IsOpened vm.holdings needed _ refl
            (clear_context-holdings (session_state vm) refl refl)
      cases (some p) (some d) h = h p d refl

  open_utf8_path-IsOpened :
      (container : ℤ) (path : Option (List ℕ)) (vm : Vm W)
      → IsOpened java flac r vm.holdings
          (with_decoder vm.holdings)
          session
          (open_utf8_path java flac loading fuel session created allocated r container (path, vm))
  unfolding open_utf8_path throw_decode_exception
  open_utf8_path-IsOpened container none vm =
      let Ends = λ (w : Vm W).
        IsOpened java flac r vm.holdings (with_decoder vm.holdings) session (some (pos 0, r, w)) in
      if_cases Ends {b = exception_check vm}
        (λ pending. refused-IsOpened vm.holdings (with_decoder vm.holdings) vm pending refl)
        (λ _. refused-IsOpened vm.holdings (with_decoder vm.holdings) _ refl refl)
  open_utf8_path-IsOpened container (some path) vm =
      with_session-IsOpened (with_decoder vm.holdings) _ vm (λ p d there.
        let start = session_state (count_decoder vm) in
        start_session-IsOpened java flac loading fuel session created p allocated r vm.holdings
          (enough p) there file_opening start
          (release_file java flac vm.holdings start refl refl refl)
          (init_file_decoder_for_container flac container (c_string path)) d)

  open_channel-IsOpened :
      (container : ℤ) (p : ℕ) (d : D) (held : Holdings) (vm : Vm W)
      → session ≡ some p
      → vm.holdings ≡ with_decoder held
      → ((w : W) → (java.new_global_ref w).1 ≡ true)
      → IsOpened java flac r held (with_reference (with_decoder held)) session (
          open_channel java flac loading fuel session created allocated r container true all_methods
            p d vm)
  unfolding open_channel
  open_channel-IsOpened container p d held vm there e refs =
      let needed = with_reference (with_decoder held) in
      let source = session_context.source in
      let i = prepare_decode_seekable_channel java true all_methods source vm in
      let is = prepare_decode_seekable_channel-IsPrepared java true all_methods source vm refl in
      let no_stream = prepared-no_stream java true all_methods source vm in
      let raises = prepare_decode_seekable_channel-raises java source vm refs in
      let s = record (session_state i.2) { context = record session_context { source = i.1 } } in
      if_cases (IsOpened java flac r held needed session) {b = not i.0}
        (λ refused.
          let failed = negated_true _ refused in
          refused-IsOpened held needed _ (release_session-raised java flac d s (raises.0 failed)) (
            release_file java flac held s (is.channel ∙ failed) no_stream (is.refused failed ∙ e) d
              s refl refl))
        λ opened.
          let made = negated_false _ opened in
          let holds = is.taken made ∙ ap with_reference e in
          subst
            (λ h. IsOpened java flac r held h session (
              start_session java flac loading fuel session created allocated r channel_opening p
                (init_stream_decoder_for_container flac container true) d s))
            holds
            (start_session-IsOpened java flac loading fuel session created p allocated r held
              (enough p) there channel_opening s
              (release_channel java flac held s (is.channel ∙ made) no_stream holds)
              (init_stream_decoder_for_container flac container true) d)

module _ {W D : Type 0} (java : Java W) (flac : Flac D) (loading : Loading) (session : Option ℕ)
    (created : Option D) (allocated : Bool) (r : Registry (D × DecodeContext)) (n : ℕ)
    (first : 0 < n) (next_eq : r.next_handle ≡ pos n)
    (bounded : n + suc (length r.entries) ≤ llong_max) where
  enough :
      (p : ℕ) (x : D × DecodeContext)
      → is_some (register_decode_session (suc (length r.entries)) allocated p x r) ≡ true
  unfolding register_decode_session
  enough p x = by_entry allocated
    where
      by_entry :
          (b : Bool) → is_some (register_decode_session (suc (length r.entries)) b p x r) ≡ true
      by_entry true =
          let (h, r', e, positive, unused, counted) =
            register_decode_session_total r n p x first next_eq bounded in
          ap is_some e
      by_entry false = refl

  -- Opening a decoder session over a file returns, if the handle counter is positive and does not reach
  -- the largest `jlong` in the next attempts. Either Java gets the handle 0: an exception is pending, the
  -- registry is as it was, and the bridge holds what it held before. Or Java gets a new positive handle
  -- under which the registry has the new session, and the bridge holds one decoder more.
  pub open_decoder_file-IsOpened :
      (lookups : Bool) (path : Option (List ℕ)) (container : ℤ) (vm : Vm W)
      → IsOpened java flac r vm.holdings (with_decoder vm.holdings) session (
          open_decoder_file java flac loading
            (suc (length r.entries))
            session
            created
            allocated
            r
            lookups
            path
            container
            vm)
  unfolding open_decoder_file
  open_decoder_file-IsOpened lookups path container vm =
      let message : String = "Decoder path must not be null." in
      let fuel = suc (length r.entries) in
      let a = check_entry loading container (is_some path) message vm in
      let ca = check_entry-IsChecked loading container (is_some path) message vm in
      let ea = check_entry-holdings loading container (is_some path) message vm in
      let u = jstring_to_utf8 java lookups path a.1 in
      let eu = (jstring_to_utf8-IsQuieter java lookups path a.1).same_holdings ∙ ea in
      let needed = with_decoder vm.holdings in
      if_cases (IsOpened java flac r vm.holdings needed session) {b = not a.0}
        (λ e.
          refused-IsOpened java flac loading fuel session created allocated r enough vm.holdings
            needed a.1 (ca.refuses (negated_true _ e)) ea)
        λ _.
          subst
            (λ h.
              IsOpened java flac r h (with_decoder h) session
                (open_utf8_path java flac loading fuel session created allocated r container u))
            eu
            (open_utf8_path-IsOpened java flac loading fuel session created allocated r enough
              container u.0 u.1)

  -- The same of a session over a channel whose class has the four methods, if a global reference can be
  -- made: an open session holds one decoder and one global reference more.
  pub open_decoder_channel-IsOpened :
      (container : ℤ) (vm : Vm W)
      → ((w : W) → (java.new_global_ref w).1 ≡ true)
      → IsOpened java flac r vm.holdings (with_reference (with_decoder vm.holdings)) session (
          open_decoder_channel java flac loading
            (suc (length r.entries))
            session
            created
            allocated
            r
            (some all_methods)
            container
            vm)
  unfolding open_decoder_channel
  open_decoder_channel-IsOpened container vm refs =
      let message : String = "Decoder seekable channel must not be null." in
      let fuel = suc (length r.entries) in
      let a = check_entry loading container true message vm in
      let ca = check_entry-IsChecked loading container true message vm in
      let ea = check_entry-holdings loading container true message vm in
      let needed = with_reference (with_decoder vm.holdings) in
      if_cases (IsOpened java flac r vm.holdings needed session) {b = not a.0}
        (λ e.
          refused-IsOpened java flac loading fuel session created allocated r enough vm.holdings
            needed a.1 (ca.refuses (negated_true _ e)) ea)
        λ _.
          let go =
            open_channel java flac loading fuel session created allocated r container true
              all_methods in
          subst
            (λ h. IsOpened java flac r h (with_reference (with_decoder h)) session (
              with_session java flac loading fuel session created allocated r session created go
                a.1))
            ea
            (with_session-IsOpened java flac loading fuel session created allocated r enough
              (with_reference (with_decoder a.1.holdings)) go a.1
              (λ p d there.
                open_channel-IsOpened java flac loading fuel session created allocated r enough
                  container p d a.1.holdings (count_decoder a.1) there refl refs))
