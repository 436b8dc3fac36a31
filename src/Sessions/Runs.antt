-- ===== src/Sessions/Runs.antt =====
-- native/src/jflac_jni.c: runs of the threads with the number of handles that they try, and what a step
-- does to the counter and the entries.
use java_kotlin_flac.Prelude.{
  ℕ, zero, suc, Bool, true, false, Option, none, some, List, ◌∷◌, ◌≡◌, refl, sym, ap, ◌∙◌, if_cases,
  ◌+◌, ◌<◌, ◌≤◌, arith, llong_max, not, ◌&&◌, is_some, ◌==◌,
}
use java_kotlin_flac.Prelude.Int.{ℤ, pos, ltb_ℤ}
use java_kotlin_flac.Sessions.{
  Session, Entry, Registry, find_entry, unlink_entry, next_of, reserve_handle,
  register_decode_session, registered, acquire_decode_session, remove_decode_session,
  release_decode_session_reference, release_at, destroy_decode_session, let_go, store,
}
use java_kotlin_flac.Sessions.System.{
  System, Step, register, acquire, refuse, work, release, remove, destroy, Reach, later,
}
use java_kotlin_flac.Sessions.Outcomes.{acquire_outcomes, remove_outcomes, taken}
use java_kotlin_flac.Sessions.Invariant.{AllLive}
use java_kotlin_flac.Sessions.Handles.{next_of-suc}
use java_kotlin_flac.Sessions.Safety.{Reach-IsConsistent, result_of}

-- The handles that a step may try: as many as the fuel of the search.
abbrev pub attempts : {P : Type 0} {s t : System P} → Step s t → ℕ
attempts (register fuel p allocated decoder free e) = fuel
attempts (acquire t p h e k) = 0
attempts (refuse h e) = 0
attempts (work t p decoder c e at) = 0
attempts (release t p e k) = 0
attempts (remove t h e k) = 0
attempts (destroy t p e) = 0

-- A run of the threads that tries at most `k` handles.
pub data Run {P : Type 0} (s : System P) : ℕ → System P → Type 0 where
  unmoved : Run s 0 s
  moved : {k : ℕ} {t u : System P} → Run s k t → (step : Step t u) → Run s (k + attempts step) u

pub Run-Reach : {P : Type 0} {s : System P} {k : ℕ} {t : System P} → Reach s → Run s k t → Reach t
Run-Reach r unmoved = r
Run-Reach r (moved run step) = later (Run-Reach r run) step

-- A search that starts at `n` and does not reach the largest `jlong` finds a handle from `n` on, and
-- leaves the counter behind it.
pub record IsReserved (n fuel : ℕ) (h next : ℤ) : Type 0 where
  pub found : ℕ
  pub handle_eq : h ≡ pos found
  pub next_eq : next ≡ pos (suc found)
  pub from : n ≤ found
  pub within : suc found ≤ n + fuel

pub some_pair :
    {A B : Type 0} (a a' : A) (b b' : B)
    → ◌≡◌ {A = Option (A × B)} (some (a, b)) (some (a', b'))
    → (a ≡ a') × (b ≡ b')
some_pair a a' b b' = result_of a a' b b'

pub reserve_handle-IsReserved :
    (fuel n : ℕ) (es : List Entry) (h next : ℤ)
    → 0 < n
    → n + fuel ≤ llong_max
    → reserve_handle fuel (pos n) es ≡ some (h, next)
    → IsReserved n fuel h next
unfolding reserve_handle
reserve_handle-IsReserved zero n es h next p b e = absurd cc
reserve_handle-IsReserved (suc fuel) n es h next p b e =
    if_cases (λ o. o ≡ some (h, next) → IsReserved n (suc fuel) h next)
      {b = ltb_ℤ (pos 0) (pos n) && not (is_some (find_entry (pos n) es))}
      {x = some (pos n, next_of (pos n))} {y = reserve_handle fuel (next_of (pos n)) es}
      (λ _ k.
        let (a, c) = some_pair (pos n) h (next_of (pos n)) next k in
        record {
          found = n;
          handle_eq = sym a;
          next_eq = sym c ∙ next_of-suc n p (omega (arith, b));
          from = omega arith;
          within = omega arith;
        })
      (λ _ k.
        let i =
          reserve_handle-IsReserved fuel (suc n) es h next (omega arith) (omega (arith, b))
            (ap (λ z. reserve_handle fuel z es) (sym (next_of-suc n p (omega (arith, b)))) ∙ k) in
        record {
          found = i.found;
          handle_eq = i.handle_eq;
          next_eq = i.next_eq;
          from = omega (arith, i.from);
          within = omega (arith, i.within);
        })
      e

-- What a step does to the counter and the entries: nothing, an entry is unlinked, or one is added.
pub data Effect {P : Type 0} (fuel : ℕ) (r r' : Registry P) : Type 0 where
  same : r'.next_handle ≡ r.next_handle → r'.entries ≡ r.entries → Effect fuel r r'
  unlinked :
      (h : ℤ)
      → r'.next_handle ≡ r.next_handle
      → r'.entries ≡ unlink_entry h r.entries
      → Effect fuel r r'
  added :
      (h next : ℤ) (p : ℕ)
      → reserve_handle fuel r.next_handle r.entries ≡ some (h, next)
      → r'.next_handle ≡ next
      → r'.entries ≡ record { handle = h; session = p } ∷ r.entries
      → Effect fuel r r'

module _ {P : Type 0} (r r' : Registry P) where
  register-Effect :
      (fuel p : ℕ) (allocated : Bool) (decoder : P) (h : ℤ)
      → register_decode_session fuel allocated p decoder r ≡ some (h, r')
      → Effect fuel r r'
  unfolding register_decode_session registered
  register-Effect fuel p false decoder h e =
      let (a, b) = some_pair (pos 0) h r r' e in
      same (ap (λ x. x.next_handle) (sym b)) (ap (λ x. x.entries) (sym b))
  register-Effect fuel p true decoder h e = reserved _ refl e
    where
      reserved :
          (o : Option (ℤ × ℤ))
          → reserve_handle fuel r.next_handle r.entries ≡ o
          → registered p decoder r o ≡ some (h, r')
          → Effect fuel r r'
      reserved none q k = absurd cc
      reserved (some (h', next)) q k =
          let (a, b) = some_pair h' h _ r' k in
          added h' next p q (ap (λ x. x.next_handle) (sym b)) (ap (λ x. x.entries) (sym b))

  acquire-Effect :
      (h : ℤ) (o : Option ℕ)
      → AllLive r.heap r.entries
      → acquire_decode_session h r ≡ some (o, r')
      → Effect 0 r r'
  acquire-Effect h o live e =
      acquire_outcomes r live (λ x. x ≡ some (o, r') → Effect 0 r r') h
        (λ k.
          let (a, b) = some_pair none o r r' k in
          same (ap (λ x. x.next_handle) (sym b)) (ap (λ x. x.entries) (sym b)))
        (λ d c _ _ _ _ k.
          let (a, b) = some_pair (some d.session) o (store d.session (taken c) r) r' k in
          same (ap (λ x. x.next_handle) (sym b)) (ap (λ x. x.entries) (sym b)))
        e

  release-Effect :
      (p : ℕ) (d : Bool) → release_decode_session_reference p r ≡ some (d, r') → Effect 0 r r'
  unfolding release_decode_session_reference
  release-Effect p d e = at (r.heap p) e
    where
      at : (o : Option (Session P)) → release_at p o r ≡ some (d, r') → Effect 0 r r'
      at none k = absurd cc
      at (some c) k =
          let (a, b) =
            some_pair (c.released && (let_go c).reference_count == 0) d (store p (let_go c) r) r'
              k in
          same (ap (λ x. x.next_handle) (sym b)) (ap (λ x. x.entries) (sym b))

  remove-Effect :
      (h : ℤ) (o : Option ℕ)
      → AllLive r.heap r.entries
      → remove_decode_session h r ≡ some (o, r')
      → Effect 0 r r'
  remove-Effect h o live e =
      remove_outcomes r live (λ x. x ≡ some (o, r') → Effect 0 r r') h
        (λ _ k.
          let (a, b) = some_pair none o r r' k in
          same (ap (λ x. x.next_handle) (sym b)) (ap (λ x. x.entries) (sym b)))
        (λ d c _ _ k.
          let (a, b) = some_pair _ o _ r' k in
          unlinked h (ap (λ x. x.next_handle) (sym b)) (ap (λ x. x.entries) (sym b)))
        e

pub Step-Effect :
    {P : Type 0} {s t : System P}
    → Reach s
    → (step : Step s t) → Effect (attempts step) s.registry t.registry
unfolding destroy_decode_session
Step-Effect {s = s} r (register fuel p allocated decoder free e) =
    register-Effect s.registry _ fuel p allocated decoder _ e
Step-Effect {s = s} r (acquire u p h e k) =
    acquire-Effect s.registry _ h (some p) (Reach-IsConsistent s r).live k
Step-Effect {s = s} r (refuse h e) =
    acquire-Effect s.registry _ h none (Reach-IsConsistent s r).live e
Step-Effect r (work u p decoder c e at) = same refl refl
Step-Effect {s = s} r (release u p e k) = release-Effect s.registry _ p _ k
Step-Effect {s = s} r (remove u h e k) =
    remove-Effect s.registry _ h _ (Reach-IsConsistent s r).live k
Step-Effect r (destroy u p e) = same refl refl
