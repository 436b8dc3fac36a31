-- ===== src/Decode/Open/Balance.antt =====
-- native/src/jflac_jni.c: the opening of a decoder session, what the bridge holds and the registry.
use java_kotlin_flac.Prelude.{
  ℕ, Bool, true, false, Option, none, some, [], ◌≡◌, refl, ◌∙◌, ◌-◌, ◌&&◌, ◌||◌, not, if_cases,
  arith, is_some, ◌≢◌, ◌⊎◌, inl, inr,
}
use java_kotlin_flac.Prelude.Int.{ℤ, pos, eqb_ℤ, ltb_ℤ}
use java_kotlin_flac.Jni.{Java, Vm, Holdings, exception_check, throw_decode_exception}
use java_kotlin_flac.Flac.{Flac, Process}
use java_kotlin_flac.Entry.{Loading}
use java_kotlin_flac.Sessions.{Registry, register_decode_session}
use java_kotlin_flac.Sessions.Outcomes.{IsFresh, register_outcomes, with_new}
use java_kotlin_flac.Decode.Context.{
  DecodeContext, clear_decode_seekable_channel, clear_decode_input_stream,
}
use java_kotlin_flac.Decode.Write.{State}
use java_kotlin_flac.Decode.Callbacks.{run}
use java_kotlin_flac.Decode.Callbacks.Balance.{IsKept, IsKept-trans, run-IsKept}
use java_kotlin_flac.Decode.Coder.{delete_decoder}
use java_kotlin_flac.Decode.Open.{
  Opening, Opened, clear_context, release_session, concluded, register_session, start_session,
}

-- No session: the handle is 0, an exception is pending, the registry is as it was, and the bridge holds
-- what it held before.
pub record IsRefused {W D : Type 0} (r : Registry (D × DecodeContext)) (held : Holdings)
    (o : Opened W D) : Type 0 where
  pub no_handle : o.0 ≡ pos 0
  pub raised : exception_check o.2 ≡ true
  pub same_registry : o.1 ≡ r
  pub same_holdings : o.2.holdings ≡ held

-- The session that was allocated: its handle is positive and new, the registry has it and is otherwise the same,
-- the bridge holds what the session needs, and has what it held before once the session is released.
pub record IsRegistered {W D : Type 0} (java : Java W) (flac : Flac D)
    (r : Registry (D × DecodeContext)) (held needed : Holdings) (session : Option ℕ)
    (o : Opened W D) : Type 0 where
  pub address : ℕ
  pub there : session ≡ some address
  pub fresh : IsFresh r.entries o.0
  pub decoder : D × DecodeContext
  pub next : ℤ
  pub added : o.1 ≡ with_new r address decoder o.0 next
  pub holds : o.2.holdings ≡ needed
  pub gives_back :
      (vm : Vm W)
      → vm.holdings ≡ needed
      → (release_session java flac
          (some decoder.0)
          (record { vm = vm; context = decoder.1; delivered = [] })).vm.holdings
        ≡ held

-- An opening returns, with a session or without one.
abbrev pub IsOpened :
    {W D : Type 0}
    → Java W
    → Flac D
    → Registry (D × DecodeContext)
    → Holdings
    → Holdings
    → Option ℕ
    → Option (Opened W D)
    → Type 0
IsOpened java flac r held needed session none = ⊥
IsOpened java flac r held needed session (some o) =
    IsRefused r held o ⊎ IsRegistered java flac r held needed session o

module _ {W : Type 0} where
  pub clear_context-holdings :
      (t : State W)
      → t.context.source.seekable_channel ≡ false
      → t.context.source.input_stream_is_global ≡ false
      → (clear_context t).vm.holdings ≡ t.vm.holdings
  unfolding clear_context clear_decode_seekable_channel clear_decode_input_stream
  clear_context-holdings t no_channel no_stream = ground (arith, no_channel, no_stream)

  pub clear_context-channel :
      (t : State W)
      → t.context.source.seekable_channel ≡ true
      → t.context.source.input_stream_is_global ≡ false
      → (clear_context t).vm.holdings
        ≡ record t.vm.holdings { global_refs = t.vm.holdings.global_refs - 1 }
  unfolding clear_context clear_decode_seekable_channel clear_decode_input_stream
  clear_context-channel t channel no_stream = ground (arith, channel, no_stream)

  clear_context-pending :
      (t : State W) → exception_check (clear_context t).vm ≡ exception_check t.vm
  unfolding clear_context clear_decode_seekable_channel clear_decode_input_stream
  clear_context-pending t = ground arith

raised_still : (a b : Bool) → (b ≡ false → a ≡ false) → a ≡ true → b ≡ true
raised_still a true h e = refl
raised_still a false h e = absurd (apart a (h refl) e)
  where
    apart : (a : Bool) → a ≡ false → a ≢ true
    apart a p q = absurd cc

thrown_then : (w e bad : Bool) → (not (w && e) && bad) ≡ false → (w && e || bad) ≡ true → e ≡ true
thrown_then w e bad p q = ground arith

positive-nonzero : (h : ℤ) → ltb_ℤ (pos 0) h ≡ true → eqb_ℤ h (pos 0) ≢ true
positive-nonzero h p q = absurd (ground arith)

module _ {W D : Type 0} (java : Java W) (flac : Flac D) where
  -- An exception that is pending stays so while a session is released.
  pub release_session-raised :
      (d : D) (s : State W)
      → exception_check s.vm ≡ true
      → exception_check (release_session java flac (some d) s).vm ≡ true
  unfolding release_session
  release_session-raised d s e =
      let t = (run java (flac.finish d) s).2 in
      clear_context-pending (record t { vm = delete_decoder t.vm })
      ∙ raised_still (exception_check s.vm) (exception_check t.vm)
          (run-IsKept java (flac.finish d) s).balanced.still e

module _ {W D : Type 0} (java : Java W) (flac : Flac D) (loading : Loading) (fuel : ℕ)
    (session : Option ℕ) (created : Option D) (p : ℕ) (allocated : Bool)
    (r : Registry (D × DecodeContext)) (held : Holdings)
    (enough : (x : D × DecodeContext)
      → is_some (register_decode_session fuel allocated p x r) ≡ true)
    (there : session ≡ some p) (words : Opening) (start : State W)
    (back : (d : D) (t : State W)
      → t.context.source ≡ start.context.source
      → t.vm.holdings ≡ start.vm.holdings
      → (release_session java flac (some d) t).vm.holdings ≡ held) where
  abbrev Ends : Option (Opened W D) → Type 0
  Ends = IsOpened java flac r held start.vm.holdings session

  abbrev without :
      (vm : Vm W) → exception_check vm ≡ true → vm.holdings ≡ held → Ends (some (pos 0, r, vm))
  without vm e h =
      inl (record { no_handle = refl; raised = e; same_registry = refl; same_holdings = h })

  concluded-IsOpened :
      (d : D) (s : State W)
      → IsKept start s
      → Ends (
          concluded java flac loading fuel session created allocated r words d s
            (register_decode_session fuel allocated p (d, s.context) r))
  unfolding concluded throw_decode_exception
  concluded-IsOpened d s k =
      register_outcomes r
        (λ o.
          is_some o ≡ true
          → Ends (concluded java flac loading fuel session created allocated r words d s o))
        fuel p allocated (d, s.context) (λ e. absurd cc)
        (λ _. without _ refl (back d s k.same_source k.balanced.same_holdings))
        (λ h next fresh _.
          if_cases Ends {b = eqb_ℤ h (pos 0)}
            (λ zero. absurd (positive-nonzero h fresh.positive zero))
            (λ _. inr (record {
              address = p;
              there = there;
              fresh = fresh;
              decoder = (d, s.context);
              next = next;
              added = refl;
              holds = k.balanced.same_holdings;
              gives_back = λ vm e. back d _ k.same_source e;
            })))
        (enough (d, s.context))

  register_session-IsOpened :
      (ok : Bool) (d : D) (s : State W)
      → IsKept start s
      → Ends (register_session java flac loading fuel session created allocated r words p ok d s)
  unfolding register_session throw_decode_exception
  register_session-IsOpened ok d s k =
      let bad = not ok || s.context.saw_error in
      let thrown = words.watches_exceptions && exception_check s.vm in
      if_cases Ends {b = not thrown && bad}
        (λ _. without _ refl (back d s k.same_source k.balanced.same_holdings))
        λ quiet.
          if_cases Ends {b = thrown || bad}
            (λ e.
              without _
                (release_session-raised java flac d s
                  (thrown_then words.watches_exceptions (exception_check s.vm) bad quiet e))
                (back d s k.same_source k.balanced.same_holdings))
            (λ _. concluded-IsOpened d s k)

  pub start_session-IsOpened :
      (init : D → Process D) (d : D)
      → Ends (start_session java flac loading fuel session created allocated r words p init d start)
  unfolding start_session throw_decode_exception
  start_session-IsOpened init d =
      let a = run java (init d) start in
      let ka = run-IsKept java (init d) start in
      let b = run java (flac.process_until_end_of_metadata a.1) a.2 in
      let kb = run-IsKept java (flac.process_until_end_of_metadata a.1) a.2 in
      if_cases Ends {b = not a.0}
        (λ _. without _ refl (back a.1 a.2 ka.same_source ka.balanced.same_holdings))
        (λ _. register_session-IsOpened b.0 b.1 b.2 (IsKept-trans ka kb))
