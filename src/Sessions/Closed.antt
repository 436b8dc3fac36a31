-- ===== src/Sessions/Closed.antt =====
-- native/src/jflac_jni.c: a handle that has been closed, while the counter has not wrapped around.
use java_kotlin_flac.Prelude.{
  ℕ, suc, true, false, Option, none, some, List, [], ◌∷◌, ◌≡◌, refl, sym, ap, ◌∙◌, subst, if_cases,
  ◌+◌, ◌<◌, ◌≤◌, arith, llong_max, inl, inr, if_false, Bool-cases,
}
use java_kotlin_flac.Prelude.Int.{ℤ, pos, ltb_ℤ, eqb_ℤ}
use java_kotlin_flac.Sessions.{
  Session, Entry, Registry, find_entry, unlink_entry, update, reserve_handle,
  acquire_decode_session, remove_decode_session,
}
use java_kotlin_flac.Sessions.System.{
  idle, System, init, remove, Reach, start, later, after_removal,
}
use java_kotlin_flac.Sessions.Outcomes.{
  acquire_decode_session-missing, acquire_decode_session-low, remove_decode_session-found,
}
use java_kotlin_flac.Sessions.Invariant.{IsLive}
use java_kotlin_flac.Sessions.Entries.{find_entry-IsFound}
use java_kotlin_flac.Sessions.Safety.{Reach-IsConsistent}
use java_kotlin_flac.Sessions.Runs.{
  Run, unmoved, moved, Run-Reach, attempts, IsReserved, reserve_handle-IsReserved, some_pair,
  Effect, same, unlinked, added, Step-Effect,
}

-- Every handle is below `n`.
abbrev AllBelow : ℕ → List Entry → Type 0
AllBelow n [] = Unit {0}
AllBelow n (e ∷ es) = (ltb_ℤ e.handle (pos n) ≡ true) × AllBelow n es

AllBelow-unlink : (n : ℕ) (h : ℤ) (es : List Entry) → AllBelow n es → AllBelow n (unlink_entry h es)
unfolding unlink_entry
AllBelow-unlink n h [] b = tt
AllBelow-unlink n h (e ∷ es) b =
    if_cases (AllBelow n) {b = eqb_ℤ e.handle h} (λ _. b.1) (λ _. (b.0, AllBelow-unlink n h es b.1))

AllBelow-weaken : (m n : ℕ) (es : List Entry) → m ≤ n → AllBelow m es → AllBelow n es
AllBelow-weaken m n [] h b = tt
AllBelow-weaken m n (e ∷ es) h b = (ground (arith, h, b.0), AllBelow-weaken m n es h b.1)

AllBelow-found :
    (n : ℕ) (h : ℤ) (es : List Entry) (d : Entry)
    → AllBelow n es
    → find_entry h es ≡ some d
    → ltb_ℤ h (pos n) ≡ true
unfolding find_entry
AllBelow-found n h [] d b e = absurd cc
AllBelow-found n h (x ∷ es) d b e =
    if_cases (λ o. o ≡ some d → ltb_ℤ h (pos n) ≡ true) {b = eqb_ℤ x.handle h} {x = some x}
      {y = find_entry h es} (λ same _. let k = b.0 in ground (arith, same, k))
      (λ _ k. AllBelow-found n h es d b.1 k) e

find_entry-unlink :
    (h k : ℤ) (es : List Entry) → find_entry h es ≡ none → find_entry h (unlink_entry k es) ≡ none
unfolding find_entry unlink_entry
find_entry-unlink h k [] e = refl
find_entry-unlink h k (x ∷ es) e =
    if_cases (λ o. o ≡ none → find_entry h (unlink_entry k (x ∷ es)) ≡ none) {b = eqb_ℤ x.handle h}
      {x = some x} {y = find_entry h es} (λ _ q. absurd cc)
      (λ other q.
        if_cases (λ l. find_entry h l ≡ none) {b = eqb_ℤ x.handle k} (λ _. q)
          (λ _.
            if_false (λ o. o ≡ none) {b = eqb_ℤ x.handle h} (some x) other
              (find_entry-unlink h k es q)))
      e

-- The counter is ahead of every handle in the registry, and at most `b` handles were tried.
record IsNumbered {P : Type 0} (b : ℕ) (r : Registry P) : Type 0 where
  counter : ℕ
  next_eq : r.next_handle ≡ pos counter
  first : 0 < counter
  bound : counter ≤ suc b
  below : AllBelow counter r.entries

-- The handle is in no entry, and the counter is past it.
record IsClosed {P : Type 0} (h : ℤ) (r : Registry P) : Type 0 where
  gone : find_entry h r.entries ≡ none
  passed : ltb_ℤ h r.next_handle ≡ true

module _ {P : Type 0} (b fuel : ℕ) (r r' : Registry P) (i : IsNumbered b r)
    (small : suc b + fuel ≤ llong_max) where
  finds_ahead :
      (h next : ℤ)
      → reserve_handle fuel r.next_handle r.entries ≡ some (h, next)
      → IsReserved i.counter fuel h next
  finds_ahead h next e =
      reserve_handle-IsReserved fuel i.counter r.entries h next i.first
        (omega (arith, i.bound, small))
        (ap (λ z. reserve_handle fuel z r.entries) (sym i.next_eq) ∙ e)

  Effect-IsNumbered : Effect fuel r r' → IsNumbered (b + fuel) r'
  Effect-IsNumbered (same n es) = record {
    counter = i.counter;
    next_eq = n ∙ i.next_eq;
    first = i.first;
    bound = omega (arith, i.bound);
    below = subst (AllBelow i.counter) (sym es) i.below;
  }
  Effect-IsNumbered (unlinked h n es) = record {
    counter = i.counter;
    next_eq = n ∙ i.next_eq;
    first = i.first;
    bound = omega (arith, i.bound);
    below = subst (AllBelow i.counter) (sym es) (AllBelow-unlink i.counter h r.entries i.below);
  }
  Effect-IsNumbered (added h next p e n es) =
      let q = finds_ahead h next e in
      record {
        counter = suc q.found;
        next_eq = n ∙ q.next_eq;
        first = omega arith;
        bound = omega (arith, q.within, i.bound);
        below = subst (AllBelow (suc q.found)) (sym es) (
          let k = q.handle_eq in ground (arith, k),
          AllBelow-weaken i.counter (suc q.found) r.entries (omega (arith, q.from)) i.below,
        );
      }

  Effect-IsClosed : (h : ℤ) → IsClosed h r → Effect fuel r r' → IsClosed h r'
  unfolding find_entry
  Effect-IsClosed h c (same n es) = record {
    gone = ap (find_entry h) es ∙ c.gone;
    passed = ap (ltb_ℤ h) n ∙ c.passed;
  }
  Effect-IsClosed h c (unlinked k n es) = record {
    gone = ap (find_entry h) es ∙ find_entry-unlink h k r.entries c.gone;
    passed = ap (ltb_ℤ h) n ∙ c.passed;
  }
  Effect-IsClosed h c (added k next p e n es) =
      let q = finds_ahead k next e in
      let before : ltb_ℤ h (pos i.counter) ≡ true = ap (ltb_ℤ h) (sym i.next_eq) ∙ c.passed in
      record {
        gone =
            ap (find_entry h) es
            ∙ if_false (λ o. o ≡ none) {b = eqb_ℤ k h} (some (record { handle = k; session = p }))
                (ap (λ z. eqb_ℤ z h) q.handle_eq ∙ apart q.found q.from before) c.gone;
        passed = ap (ltb_ℤ h) (n ∙ q.next_eq) ∙ later_on q.found q.from before;
      }
    where
      apart : (m : ℕ) → i.counter ≤ m → ltb_ℤ h (pos i.counter) ≡ true → eqb_ℤ (pos m) h ≡ false
      apart m le lt = ground (arith, le, lt)

      later_on :
          (m : ℕ) → i.counter ≤ m → ltb_ℤ h (pos i.counter) ≡ true → ltb_ℤ h (pos (suc m)) ≡ true
      later_on m le lt = ground (arith, le, lt)

init-IsNumbered : {P : Type 0} → IsNumbered 0 (init P).registry
init-IsNumbered = record {
  counter = 1;
  next_eq = refl;
  first = omega arith;
  bound = omega arith;
  below = tt;
}

module _ {P : Type 0} (s : System P) (b : ℕ) (reach : Reach s) (i : IsNumbered b s.registry) where
  Run-IsNumbered :
      {k : ℕ} {t : System P} → Run s k t → suc b + k ≤ llong_max → IsNumbered (b + k) t.registry
  Run-IsNumbered unmoved h = subst (λ n. IsNumbered n s.registry) (omega arith) i
  Run-IsNumbered (moved {k} {t} {u} run step) h =
      subst (λ n. IsNumbered n u.registry) (omega arith)
        (Effect-IsNumbered (b + k) (attempts step) t.registry u.registry
          (Run-IsNumbered run (omega (arith, h))) (omega (arith, h))
          (Step-Effect (Run-Reach reach run) step))

  Run-IsClosed :
      {k : ℕ} {t : System P} (h : ℤ)
      → IsClosed h s.registry
      → Run s k t
      → suc b + k ≤ llong_max
      → IsClosed h t.registry
  Run-IsClosed h c unmoved small = c
  Run-IsClosed h c (moved {k} {t} {u} run step) small =
      Effect-IsClosed (b + k) (attempts step) t.registry u.registry
        (Run-IsNumbered run (omega (arith, small))) (omega (arith, small)) h
        (Run-IsClosed h c run (omega (arith, small))) (Step-Effect (Run-Reach reach run) step)

module _ {P : Type 0} (s : System P) (reach : Reach s) (b : ℕ) (i : IsNumbered b s.registry) where
  -- The handle of an entry, right after it has been closed.
  removed-IsClosed :
      (h : ℤ) (d : Entry) (o : Option ℕ) (r : Registry P)
      → ltb_ℤ (pos 0) h ≡ true
      → find_entry h s.registry.entries ≡ some d
      → remove_decode_session h s.registry ≡ some (o, r)
      → IsClosed h r
  removed-IsClosed h d o r positive found e =
      let live = (Reach-IsConsistent s reach).live in
      let f = find_entry-IsFound s.registry.heap h s.registry.entries d found live in
      there (s.registry.heap d.session) f.live refl f.gone
    where
      passed : ltb_ℤ h s.registry.next_handle ≡ true
      passed =
          ap (ltb_ℤ h) i.next_eq ∙ AllBelow-found i.counter h s.registry.entries d i.below found

      there :
          (c : Option (Session P))
          → IsLive c
          → s.registry.heap d.session ≡ c
          → find_entry h (unlink_entry h s.registry.entries) ≡ none
          → IsClosed h r
      there none l at gone = absurd l
      there (some c) l at gone =
          let (a, q) =
            some_pair _ o _ r
              (sym (remove_decode_session-found s.registry h d c positive found at) ∙ e) in
          record {
            gone = ap (λ x. find_entry h x.entries) (sym q) ∙ gone;
            passed = ap (λ x. ltb_ℤ h x.next_handle) (sym q) ∙ passed;
          }

-- A handle that was open and is closed is refused from then on, in every state that the threads can
-- reach, whether or not an operation still uses its session, as long as the threads have tried fewer
-- handles than the largest `jlong` since the registry was empty.
pub acquire_decode_session-remove :
    {P : Type 0} (s t : System P) (j k u : ℕ) (h : ℤ) (d : Entry) (o : Option ℕ) (r : Registry P)
    → Run (init P) j s
    → find_entry h s.registry.entries ≡ some d
    → s.threads u ≡ idle
    → remove_decode_session h s.registry ≡ some (o, r)
    → Run (record { registry = r; threads = update s.threads u (after_removal o) }) k t
    → j + k < llong_max
    → acquire_decode_session h t.registry ≡ some (none, t.registry)
acquire_decode_session-remove {P} s t j k u h d o r before found free e after small =
    let reach = Run-Reach start before in
    let i = Run-IsNumbered (init P) 0 start init-IsNumbered before (omega (arith, small)) in
    let s' : System P = record { registry = r; threads = update s.threads u (after_removal o) } in
    let closing = remove u h free e in
    let reach' : Reach s' = later reach closing in
    let i' : IsNumbered (0 + j + 0) r =
      Effect-IsNumbered (0 + j) 0 s.registry r i (omega (arith, small))
        (Step-Effect reach closing) in
    elim (Bool-cases (ltb_ℤ (pos 0) h)) [
      | inr low ↦ acquire_decode_session-low t.registry h low
      | inl positive ↦
          acquire_decode_session-missing t.registry h
            (Run-IsClosed s' (0 + j + 0) reach' i' h
              (removed-IsClosed s reach (0 + j) i h d o r positive found e) after
              (omega (arith, small))).gone
    ]
