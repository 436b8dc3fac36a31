-- ===== src/Sessions/Outcomes.antt =====
-- native/src/jflac_jni.c: how each registry function ends, in a registry in which every entry is live.
use java_kotlin_flac.Prelude.{
  ℕ, zero, suc, Bool, true, false, Option, none, some, List, ◌∷◌, ◌≡◌, refl, sym, ap, ◌∙◌, subst,
  if_cases, if_true, if_false, inl, inr, Bool-cases, Option-cases, if◌then◌else◌, ◌==◌, ◌+◌, not,
  ◌&&◌, is_some, arith,
}
use java_kotlin_flac.Prelude.Int.{ℤ, pos, ltb_ℤ}
use java_kotlin_flac.Sessions.{
  Session, Entry, Registry, find_entry, unlink_entry, update, store, usable, next_of,
  reserve_handle, registered, register_decode_session, acquire_decode_session, acquire_entry,
  acquire_at, remove_decode_session, remove_entry, remove_at, release_decode_session_reference,
  release_at, let_go,
}
use java_kotlin_flac.Sessions.Entries.{find_entry-IsFound, IsFound, some-injective}
use java_kotlin_flac.Sessions.Invariant.{IsLive, AllLive}

-- A reserved handle is positive and no entry has it.
pub record IsFresh (es : List Entry) (h : ℤ) : Type 0 where
  pub positive : ltb_ℤ (pos 0) h ≡ true
  pub unused : find_entry h es ≡ none

is_some-none : {A : Type 0} (o : Option A) → not (is_some o) ≡ true → o ≡ none
is_some-none none h = refl
is_some-none (some a) h = cc

both : (a b : Bool) → (a && b) ≡ true → (a ≡ true) × (b ≡ true)
both a b h = ground arith

pub reserve_handle-IsFresh :
    (fuel : ℕ) (next : ℤ) (es : List Entry) (h next' : ℤ)
    → reserve_handle fuel next es ≡ some (h, next')
    → IsFresh es h
unfolding reserve_handle
reserve_handle-IsFresh zero next es h next' e = absurd cc
reserve_handle-IsFresh (suc fuel) next es h next' e =
    if_cases (λ o. o ≡ some (h, next') → IsFresh es h)
      {b = ltb_ℤ (pos 0) next && not (is_some (find_entry next es))} {x = some (next, next_of next)}
      {y = reserve_handle fuel (next_of next) es}
      (λ found k.
        let (p, u) = both _ _ found in
        subst (IsFresh es) (ap (λ x. x.0) (some-injective _ _ k))
          (record { positive = p; unused = is_some-none (find_entry next es) u }))
      (λ _ k. reserve_handle-IsFresh fuel (next_of next) es h next' k) e

module _ {P : Type 0} (r : Registry P) where
  abbrev pub new_session : P → ℤ → Session P
  new_session decoder h = record {
    decoder = some decoder;
    handle = h;
    reference_count = 0;
    released = false;
    in_use = false;
  }

  abbrev pub with_new : ℕ → P → ℤ → ℤ → Registry P
  with_new p decoder h next = record {
    next_handle = next;
    entries = record { handle = h; session = p } ∷ r.entries;
    heap = update r.heap p (some (new_session decoder h));
  }

  pub register_outcomes {κ} :
      (Q : Option (ℤ × Registry P) → Type κ) (fuel p : ℕ) (allocated : Bool) (decoder : P)
      → Q none
      → Q (some (pos 0, r))
      → ((h next : ℤ) → IsFresh r.entries h → Q (some (h, with_new p decoder h next)))
      → Q (register_decode_session fuel allocated p decoder r)
  unfolding register_decode_session
  register_outcomes Q fuel p allocated decoder out_of_fuel kept new =
      if_cases Q {b = not allocated} (λ _. kept)
        (λ _. reserved (reserve_handle fuel r.next_handle r.entries) refl)
    where
      reserved :
          (o : Option (ℤ × ℤ))
          → reserve_handle fuel r.next_handle r.entries ≡ o
          → Q (registered p decoder r o)
      reserved none e = out_of_fuel
      reserved (some (h, next)) e =
          new h next (reserve_handle-IsFresh fuel r.next_handle r.entries h next e)

-- A session that an operation has just taken into use.
abbrev pub taken : {P : Type 0} → Session P → Session P
taken c = record c { reference_count = c.reference_count + 1; in_use = true }

module _ {P : Type 0} (r : Registry P) (h : ℤ) where
  pub acquire_decode_session-low :
      ltb_ℤ (pos 0) h ≡ false → acquire_decode_session h r ≡ some (none, r)
  unfolding acquire_decode_session
  acquire_decode_session-low low =
      if_false (λ o. o ≡ some (none, r)) {b = ltb_ℤ (pos 0) h} _ low refl

  pub acquire_decode_session-missing :
      find_entry h r.entries ≡ none → acquire_decode_session h r ≡ some (none, r)
  unfolding acquire_decode_session
  acquire_decode_session-missing e =
      if_cases (λ o. o ≡ some (none, r)) {b = ltb_ℤ (pos 0) h} {y = some (none, r)}
        (λ _. ap (λ o. acquire_entry o r) e) (λ _. refl)

  pub acquire_decode_session-found :
      (d : Entry) (c : Session P)
      → ltb_ℤ (pos 0) h ≡ true
      → find_entry h r.entries ≡ some d
      → r.heap d.session ≡ some c
      → acquire_decode_session h r
        ≡ (if usable c then some (some d.session, store d.session (taken c) r) else some (none, r))
  unfolding acquire_decode_session
  acquire_decode_session-found d c positive e at =
      if_true
        (λ o. o ≡ (
          if usable c then some (some d.session, store d.session (taken c) r) else some (none, r)))
        {b = ltb_ℤ (pos 0) h} (some (none, r)) positive
        (ap (λ o. acquire_entry o r) e ∙ ap (λ o. acquire_at d.session o r) at)

module _ {P : Type 0} (r : Registry P) where
  pub remove_decode_session-found :
      (h : ℤ) (d : Entry) (c : Session P)
      → ltb_ℤ (pos 0) h ≡ true
      → find_entry h r.entries ≡ some d
      → r.heap d.session ≡ some c
      → remove_decode_session h r
        ≡ some (
          if c.reference_count == 0 then some d.session else none,
          store d.session
              (record c { released = true })
              (record r { entries = unlink_entry h r.entries }),
        )
  unfolding remove_decode_session
  remove_decode_session-found h d c positive e at =
      if_true
        (λ o.
          o
          ≡ some (
            if c.reference_count == 0 then some d.session else none,
            store d.session (record c { released = true })
                (record r { entries = unlink_entry h r.entries }),
          ))
        {b = ltb_ℤ (pos 0) h} (some (none, r)) positive
        (ap (λ o. remove_entry h o r) e
          ∙ ap (λ o. remove_at d.session o (record r { entries = unlink_entry h r.entries })) at)

  pub release_decode_session_reference-found :
      (p : ℕ) (c : Session P)
      → r.heap p ≡ some c
      → release_decode_session_reference p r
        ≡ some (c.released && (let_go c).reference_count == 0, store p (let_go c) r)
  unfolding release_decode_session_reference
  release_decode_session_reference-found p c at = ap (λ o. release_at p o r) at

module _ {P : Type 0} (r : Registry P) (live : AllLive r.heap r.entries) where
  -- The session of an entry that was found.
  found_session : (p : ℕ) → IsLive (r.heap p) → (c : Session P) × (r.heap p ≡ some c)
  found_session p l = there (r.heap p) l
    where
      there : (o : Option (Session P)) → IsLive o → (c : Session P) × (o ≡ some c)
      there none k = absurd k
      there (some c) k = (c, refl)

  pub acquire_outcomes {κ} :
      (Q : Option (Option ℕ × Registry P) → Type κ) (h : ℤ)
      → Q (some (none, r))
      → ((d : Entry) (c : Session P)
          → ltb_ℤ (pos 0) h ≡ true
          → find_entry h r.entries ≡ some d
          → r.heap d.session ≡ some c
          → usable c ≡ true
          → Q (some (some d.session, store d.session (taken c) r)))
      → Q (acquire_decode_session h r)
  acquire_outcomes Q h refused got = elim (Bool-cases (ltb_ℤ (pos 0) h)) [
    | inr low ↦ subst Q (sym (acquire_decode_session-low r h low)) refused
    | inl positive ↦ elim (Option-cases (find_entry h r.entries)) [
      | inl e ↦ subst Q (sym (acquire_decode_session-missing r h e)) refused
      | inr (d, e) ↦
          let i = find_entry-IsFound r.heap h r.entries d e live in
          let (c, at) = found_session d.session i.live in
          subst Q (sym (acquire_decode_session-found r h d c positive e at))
            (if_cases Q {b = usable c} (λ u. got d c positive e at u) (λ _. refused))
    ]
  ]

  pub remove_outcomes {κ} :
      (Q : Option (Option ℕ × Registry P) → Type κ) (h : ℤ)
      → (acquire_decode_session h r ≡ some (none, r) → Q (some (none, r)))
      → ((d : Entry) (c : Session P)
          → r.heap d.session ≡ some c
          → IsFound r.heap h (unlink_entry h r.entries) d
          → Q (
              some (
                if c.reference_count == 0 then some d.session else none,
                store d.session
                    (record c { released = true })
                    (record r { entries = unlink_entry h r.entries }),
              )))
      → Q (remove_decode_session h r)
  unfolding remove_decode_session
  remove_outcomes Q h missing gone =
      if_cases Q {b = ltb_ℤ (pos 0) h} (λ _. searched (find_entry h r.entries) refl)
        (λ low. missing (acquire_decode_session-low r h low))
    where
      searched : (o : Option Entry) → find_entry h r.entries ≡ o → Q (remove_entry h o r)
      searched none e = missing (acquire_decode_session-missing r h e)
      searched (some d) e =
          let i = find_entry-IsFound r.heap h r.entries d e live in
          let (c, at) = found_session d.session i.live in
          subst (λ o. Q (remove_at d.session o (record r { entries = unlink_entry h r.entries })))
            (sym at) (gone d c at i)
