-- ===== src/Sessions/Safety.antt =====
-- native/src/jflac_jni.c: the safety of the registry in every state that threads can reach.
use java_kotlin_flac.Prelude.{
  ℕ, Bool, true, Option, none, some, ◌≡◌, ◌≢◌, refl, sym, ap, ◌∙◌, subst, if◌then◌else◌, ◌==◌, ◌+◌,
  ◌&&◌,
}
use java_kotlin_flac.Prelude.Int.{ℤ}
use java_kotlin_flac.Sessions.{
  Session, Registry, update, store, let_go, unlink_entry, register_decode_session,
  acquire_decode_session, release_decode_session_reference, release_at, remove_decode_session,
}
use java_kotlin_flac.Sessions.System.{
  idle, holding, destroying, System, init, after_removal, Step, register, acquire, refuse, work,
  release, remove, destroy, Reach, start, later,
}
use java_kotlin_flac.Sessions.Entries.{some-injective}
use java_kotlin_flac.Sessions.Invariant.{IsConsistent, IsHeld, IsServed, target}
use java_kotlin_flac.Sessions.Steps.{
  register-IsConsistent, acquire-IsConsistent, release-IsConsistent, remove-IsConsistent,
  work-IsConsistent, destroy-IsConsistent,
}
use java_kotlin_flac.Sessions.Moves.{idle-IsConsistent}
use java_kotlin_flac.Sessions.Outcomes.{register_outcomes, acquire_outcomes, remove_outcomes}

pub result_of :
    {A B : Type 0} (a a' : A) (b b' : B)
    → ◌≡◌ {A = Option (A × B)} (some (a, b)) (some (a', b'))
    → (a ≡ a') × (b ≡ b')
result_of {A} {B} a a' b b' e =
    let q = some-injective {A = A × B} (a, b) (a', b') e in (ap (λ x. x.0) q, ap (λ x. x.1) q)

init-IsConsistent : {P : Type 0} → IsConsistent (init P)
init-IsConsistent = record {
  live = tt;
  served = λ t. tt;
  alone = λ t u p a b. absurd cc;
  counted = λ p. tt;
}

module _ {P : Type 0} (s : System P) (i : IsConsistent s) where
  registered-IsConsistent :
      (fuel p : ℕ) (allocated : Bool) (decoder : P) (h : ℤ) (r : Registry P)
      → s.registry.heap p ≡ none
      → register_decode_session fuel allocated p decoder s.registry ≡ some (h, r)
      → IsConsistent (record s { registry = r })
  registered-IsConsistent fuel p allocated decoder h r free e =
      register_outcomes s.registry (λ o. o ≡ some (h, r) → IsConsistent (record s { registry = r }))
        fuel p allocated decoder (λ k. absurd cc)
        (λ k.
          subst (λ x. IsConsistent (record s { registry = x })) (result_of _ h s.registry r k).1 i)
        (λ h' next f k.
          subst (λ x. IsConsistent (record s { registry = x })) (result_of h' h _ r k).1
            (register-IsConsistent s i p decoder h' next free f.unused))
        e

  acquired-IsConsistent :
      (t p : ℕ) (h : ℤ) (r : Registry P)
      → acquire_decode_session h s.registry ≡ some (some p, r)
      → IsConsistent (record { registry = r; threads = update s.threads t (holding p) })
  acquired-IsConsistent t p h r e =
      acquire_outcomes s.registry i.live
        (λ o.
          o ≡ some (some p, r)
          → IsConsistent (record { registry = r; threads = update s.threads t (holding p) }))
        h (λ k. absurd (none_some p (result_of none (some p) s.registry r k).0))
        (λ d c _ _ at u k.
          let q = d.session in
          let (a, b) = result_of (some q) (some p) _ r k in
          subst
            (λ x. IsConsistent (record { registry = x; threads = update s.threads t (holding p) }))
            b
            (subst
              (λ x. IsConsistent (record {
                registry =
                    store q (record c { reference_count = c.reference_count + 1; in_use = true })
                      s.registry;
                threads = update s.threads t (holding x);
              }))
              (some-injective q p a) (acquire-IsConsistent s i t q c at u)))
        e
    where
      none_some : (p : ℕ) → none ≢ some p
      none_some p k = absurd cc

  refused-IsConsistent :
      (h : ℤ) (r : Registry P)
      → acquire_decode_session h s.registry ≡ some (none, r)
      → IsConsistent (record s { registry = r })
  refused-IsConsistent h r e =
      acquire_outcomes s.registry i.live
        (λ o. o ≡ some (none, r) → IsConsistent (record s { registry = r })) h
        (λ k.
          subst (λ x. IsConsistent (record s { registry = x }))
            (result_of none none s.registry r k).1 i)
        (λ d c _ _ at u k.
          absurd (none_some d.session (sym (result_of (some d.session) none _ r k).0)))
        e
    where
      none_some : (p : ℕ) → none ≢ some p
      none_some p k = absurd cc

  -- The session that a thread holds is there.
  pub session_there :
      (t p : ℕ)
      → s.threads t ≡ holding p
      → (c : Session P) × (s.registry.heap p ≡ some c) × IsHeld (some c)
  session_there t p e = there (s.registry.heap p) (subst (IsServed s.registry.heap) e (i.served t))
    where
      there : (o : Option (Session P)) → IsHeld o → (c : Session P) × (o ≡ some c) × IsHeld (some c)
      there none k = absurd k
      there (some c) k = (c, refl, k)

  released-IsConsistent :
      (t p : ℕ) (d : Bool) (r : Registry P)
      → s.threads t ≡ holding p
      → release_decode_session_reference p s.registry ≡ some (d, r)
      → IsConsistent
          (record { registry = r; threads = update s.threads t (if d then destroying p else idle) })
  unfolding release_decode_session_reference
  released-IsConsistent t p d r e k =
      let (c, at, held) = session_there t p e in
      let k' : release_at p (some c) s.registry ≡ some (d, r) =
        ap (λ o. release_at p o s.registry) (sym at) ∙ k in
      let (a, b) =
        result_of (c.released && (let_go c).reference_count == 0) d (store p (let_go c) s.registry)
          r k' in
      subst
        (λ x. IsConsistent (record {
          registry = x;
          threads = update s.threads t (if d then destroying p else idle);
        }))
        b
        (subst
          (λ x. IsConsistent (record {
            registry = store p (let_go c) s.registry;
            threads = update s.threads t (if x then destroying p else idle);
          }))
          a (release-IsConsistent s i t p c e at))

  removed-IsConsistent :
      (t : ℕ) (h : ℤ) (o : Option ℕ) (r : Registry P)
      → s.threads t ≡ idle
      → remove_decode_session h s.registry ≡ some (o, r)
      → IsConsistent (record { registry = r; threads = update s.threads t (after_removal o) })
  removed-IsConsistent t h o r e k =
      remove_outcomes s.registry i.live
        (λ x.
          x ≡ some (o, r)
          → IsConsistent (record { registry = r; threads = update s.threads t (after_removal o) }))
        h
        (λ _ q.
          let (a, b) = result_of none o s.registry r q in
          done none s.registry a b (idle-IsConsistent s i t))
        (λ d c at f q.
          let (a, b) = result_of _ o _ r q in
          done _ _ a b (
            remove-IsConsistent s i t d.session h (unlink_entry h s.registry.entries) c e at f.live
              f.others f.alone))
        k
    where
      done :
          (o' : Option ℕ) (r' : Registry P)
          → o' ≡ o
          → r' ≡ r
          → IsConsistent (record { registry = r'; threads = update s.threads t (after_removal o') })
          → IsConsistent (record { registry = r; threads = update s.threads t (after_removal o) })
      done o' r' a b j =
          subst
            (λ x.
              IsConsistent
                (record { registry = x; threads = update s.threads t (after_removal o) }))
            b
            (subst
              (λ x.
                IsConsistent
                  (record { registry = r'; threads = update s.threads t (after_removal x) }))
              a j)

pub Step-IsConsistent : {P : Type 0} (s t : System P) → IsConsistent s → Step s t → IsConsistent t
Step-IsConsistent s t i (register fuel p allocated decoder free e) =
    registered-IsConsistent s i fuel p allocated decoder _ _ free e
Step-IsConsistent s t i (acquire u p h e k) = acquired-IsConsistent s i u p h _ k
Step-IsConsistent s t i (refuse h e) = refused-IsConsistent s i h _ e
Step-IsConsistent s t i (work u p decoder c e at) = work-IsConsistent s i p decoder c at
Step-IsConsistent s t i (release u p e k) = released-IsConsistent s i u p _ _ e k
Step-IsConsistent s t i (remove u h e k) = removed-IsConsistent s i u h _ _ e k
Step-IsConsistent s t i (destroy u p e) = destroy-IsConsistent s i u p e

-- What the registry promises. No function touches a session that is not there: a session that is held
-- is there with one reference, a session that is being destroyed is there and not in use, a lookup by
-- any handle and the end of an operation find what they need. And one thread at most is about a session.
pub record IsSafe {P : Type 0} (s : System P) : Type 0 where
  pub served : (t : ℕ) → IsServed s.registry.heap (s.threads t)
  pub alone : (t u p : ℕ) → target (s.threads t) ≡ some p → target (s.threads u) ≡ some p → t ≡ u
  pub acquires : (h : ℤ) → acquire_decode_session h s.registry ≢ none
  pub removes : (h : ℤ) → remove_decode_session h s.registry ≢ none
  pub releases :
      (t p : ℕ) → s.threads t ≡ holding p → release_decode_session_reference p s.registry ≢ none

pub Reach-IsConsistent : {P : Type 0} (s : System P) → Reach s → IsConsistent s
Reach-IsConsistent s start = init-IsConsistent
Reach-IsConsistent s (later {s = r} h e) = Step-IsConsistent r s (Reach-IsConsistent r h) e

-- In every state that threads can reach from an empty registry, by opening, using and closing sessions
-- in any order, the registry is safe: no use after free, no double free, and no session in use twice.
pub Reach-IsSafe : {P : Type 0} (s : System P) → Reach s → IsSafe s
unfolding release_decode_session_reference
Reach-IsSafe s h =
    let i = Reach-IsConsistent s h in
    record {
      served = i.served;
      alone = i.alone;
      acquires = λ k.
          acquire_outcomes s.registry i.live (λ o. o ≢ none) k (λ e. absurd cc)
            (λ d c _ _ at u e. absurd cc);
      removes = λ k.
          remove_outcomes s.registry i.live (λ o. o ≢ none) k (λ _ e. absurd cc)
            (λ d c at f e. absurd cc);
      releases = λ t p e.
          let (c, at, held) = session_there s i t p e in
          subst (λ o. release_at p o s.registry ≢ none) (sym at) (λ k. absurd cc);
    }
