-- ===== src/Sessions/Handles.antt =====
-- native/src/jflac_jni.c: the handles that Java holds, from registration to removal.
use java_kotlin_flac.Prelude.{
  ℕ, zero, suc, Bool, true, false, none, some, List, [], ◌∷◌, ◌≡◌, ◌≢◌, refl, sym, ap, ◌∙◌, subst,
  if_cases, if_true, if_false, if◌then◌else◌, ◌+◌, ◌<◌, ◌≤◌, arith, llong_max, leb, length, not,
  ◌&&◌, is_some, inl, inr, Option-cases,
}
use java_kotlin_flac.Prelude.Int.{ℤ, pos, ltb_ℤ, eqb_ℤ, eqb_ℤ_refl, eqb_ℤ-eq, pos_part}
use java_kotlin_flac.Sessions.{
  Session, Entry, Registry, find_entry, store, usable, next_of, increment, reserve_handle,
  register_decode_session, registered, active_decode_session_count, acquire_decode_session,
}
use java_kotlin_flac.Sessions.System.{System, Reach}
use java_kotlin_flac.Sessions.Invariant.{update_self}
use java_kotlin_flac.Sessions.Outcomes.{
  register_outcomes, acquire_outcomes, reserve_handle-IsFresh, with_new, new_session, taken,
  acquire_decode_session-found,
}
use java_kotlin_flac.Sessions.Safety.{Reach-IsConsistent, result_of}

module _ {P : Type 0} where
  -- A session in use is refused to a second operation.
  busy :
      (r : Registry P) (h : ℤ) (d : Entry) (c : Session P)
      → ltb_ℤ (pos 0) h ≡ true
      → find_entry h r.entries ≡ some d
      → r.heap d.session ≡ some (taken c)
      → acquire_decode_session h r ≡ some (none, r)
  busy r h d c positive e at =
      acquire_decode_session-found r h d (taken c) positive e at
      ∙ if_false (λ o. o ≡ some (none, r)) {b = usable (taken c)} _ (unusable c.released) refl
    where
      unusable : (b : Bool) → (not b && not true && is_some c.decoder) ≡ false
      unusable true = refl
      unusable false = refl

  -- In a state that threads can reach, a handle under which an operation has just started is refused to
  -- any other operation.
  pub acquire_decode_session-twice :
      (s : System P) (h : ℤ) (p : ℕ) (r : Registry P)
      → Reach s
      → acquire_decode_session h s.registry ≡ some (some p, r)
      → acquire_decode_session h r ≡ some (none, r)
  acquire_decode_session-twice s h p r reach e =
      acquire_outcomes s.registry (Reach-IsConsistent s reach).live
        (λ o. o ≡ some (some p, r) → acquire_decode_session h r ≡ some (none, r)) h
        (λ k. absurd (none_some (result_of none (some p) s.registry r k).0))
        (λ d c positive f at u k.
          subst (λ x. acquire_decode_session h x ≡ some (none, x))
            (result_of (some d.session) (some p) (store d.session (taken c) s.registry) r k).1
            (busy (store d.session (taken c) s.registry) h d c positive f
              (update_self s.registry.heap d.session (some (taken c)))))
        e
    where
      none_some : none ≢ some p
      none_some k = absurd cc

  -- Where a registration returns a positive handle, the session is found under it, and can be used.
  pub acquire_decode_session-register :
      (fuel p : ℕ) (allocated : Bool) (decoder : P) (r r' : Registry P) (h : ℤ)
      → register_decode_session fuel allocated p decoder r ≡ some (h, r')
      → ltb_ℤ (pos 0) h ≡ true
      → acquire_decode_session h r' ≡ some (some p, store p (taken (new_session r decoder h)) r')
  unfolding find_entry
  acquire_decode_session-register fuel p allocated decoder r r' h e positive =
      register_outcomes r
        (λ o.
          o ≡ some (h, r')
          → acquire_decode_session h r'
            ≡ some (some p, store p (taken (new_session r decoder h)) r'))
        fuel p allocated decoder (λ k. absurd cc)
        (λ k. absurd (zero_handle (result_of (pos 0) h r r' k).0))
        (λ h' next f k.
          let (a, b) = result_of h' h (with_new r p decoder h' next) r' k in
          subst
            (λ x.
              acquire_decode_session h x
              ≡ some (some p, store p (taken (new_session r decoder h)) x))
            (ap (λ z. with_new r p decoder z next) (sym a) ∙ b) (found next))
        e
    where
      zero_handle : pos 0 ≢ h
      zero_handle k = no_zero (subst (λ z. ltb_ℤ (pos 0) z ≡ true) (sym k) positive)
        where
          no_zero : ltb_ℤ (pos 0) (pos 0) ≢ true
          no_zero q = absurd cc

      found :
          (next : ℤ)
          → acquire_decode_session h (with_new r p decoder h next)
            ≡ some (some p, store p (taken (new_session r decoder h)) (with_new r p decoder h next))
      found next =
          acquire_decode_session-found (with_new r p decoder h next) h
            (record { handle = h; session = p }) (new_session r decoder h) positive
            (if_true (λ o. o ≡ some (record { handle = h; session = p })) {b = eqb_ℤ h h} _
              (eqb_ℤ_refl h) refl)
            (update_self r.heap p (some (new_session r decoder h)))

-- The number of entries whose handle is at least `n`.
above : ℕ → List Entry → ℕ
above n [] = 0
above n (e ∷ es) = (if leb n (pos_part e.handle) then 1 else 0) + above n es

above-suc : (n : ℕ) (es : List Entry) → above (suc n) es ≤ above n es
unfolding above
above-suc n [] = omega arith
above-suc n (e ∷ es) = let k = above-suc n es in let q = pos_part e.handle in ground (arith, k)

above-found :
    (n : ℕ) (es : List Entry)
    → 0 < n
    → is_some (find_entry (pos n) es) ≡ true
    → above (suc n) es < above n es
unfolding above find_entry
above-found n [] p h = absurd cc
above-found n (e ∷ es) p h =
    if_cases (λ o. is_some o ≡ true → above (suc n) (e ∷ es) < above n (e ∷ es))
      {b = eqb_ℤ e.handle (pos n)} {x = some e} {y = find_entry (pos n) es}
      (λ same _. let k = above-suc n es in ground (arith, k, eqb_ℤ-eq e.handle (pos n) same))
      (λ other f. let k = above-found n es p f in ground (arith, k)) h

above-le : (n : ℕ) (es : List Entry) → above n es ≤ length es
unfolding above
above-le n [] = omega arith
above-le n (e ∷ es) = let k = above-le n es in ground (arith, k)

pub next_of-suc : (n : ℕ) → 0 < n → n < llong_max → next_of (pos n) ≡ pos (suc n)
unfolding next_of increment
next_of-suc n p h = ground arith

reserve_handle_total :
    (fuel n : ℕ) (es : List Entry)
    → 0 < n
    → above n es < fuel
    → n + fuel ≤ llong_max
    → is_some (reserve_handle fuel (pos n) es) ≡ true
unfolding reserve_handle
reserve_handle_total zero n es p h k = absurd (omega arith)
reserve_handle_total (suc fuel) n es p h k =
    if_cases (λ o. is_some o ≡ true)
      {b = ltb_ℤ (pos 0) (pos n) && not (is_some (find_entry (pos n) es))}
      {x = some (pos n, next_of (pos n))} {y = reserve_handle fuel (next_of (pos n)) es} (λ _. refl)
      (λ taken. rw (next_of-suc n p (omega arith)) (
        reserve_handle_total fuel (suc n) es (omega arith)
          (omega (arith, above-found n es p (found (is_some (find_entry (pos n) es)) taken)))
          (omega arith)))
  where
    found : (b : Bool) → (ltb_ℤ (pos 0) (pos n) && not b) ≡ false → b ≡ true
    found b q = ground arith

module _ {P : Type 0} (r : Registry P) (n p : ℕ) (decoder : P) (first : 0 < n)
    (next_eq : r.next_handle ≡ pos n) (bounded : n + suc (length r.entries) ≤ llong_max) where
  -- The search for a free handle ends: if the counter is positive and does not reach the largest `jlong`
  -- in the next attempts, one more attempt than there are sessions is enough. The new session has a
  -- positive handle that no other has, and there is one session more.
  pub register_decode_session_total :
      (h : ℤ) × (r' : Registry P) × (register_decode_session
          (suc (length r.entries))
          true
          p
          decoder
          r
        ≡ some (h, r'))
      × (ltb_ℤ (pos 0) h ≡ true)
      × (find_entry h r.entries ≡ none)
      × (active_decode_session_count r' ≡ suc (active_decode_session_count r))
  unfolding register_decode_session active_decode_session_count
  register_decode_session_total =
      let fuel = suc (length r.entries) in
      elim (Option-cases (reserve_handle fuel r.next_handle r.entries)) [
        | inl e ↦ absurd (no_handle (sym (ap is_some e)))
        | inr ((h, next), e) ↦
            let f = reserve_handle-IsFresh fuel r.next_handle r.entries h next e in
            (
              h,
              with_new r p decoder h next,
              ap (registered p decoder r) e,
              f.positive,
              f.unused,
              refl,
            )
      ]
    where
      enough : is_some (reserve_handle (suc (length r.entries)) (pos n) r.entries) ≡ true
      enough =
          reserve_handle_total (suc (length r.entries)) n r.entries first
            (omega (arith, above-le n r.entries)) bounded

      no_handle : false ≢ is_some (reserve_handle (suc (length r.entries)) r.next_handle r.entries)
      no_handle k = apart (
          k
          ∙ ap (λ z. is_some (reserve_handle (suc (length r.entries)) z r.entries)) next_eq
          ∙ enough)
        where
          apart : false ≢ true
          apart q = absurd cc
