-- ===== src/Sessions/Steps.antt =====
-- native/src/jflac_jni.c: the steps of the threads and the consistency of the registry.
use java_kotlin_flac.Prelude.{
  ℕ, Bool, true, false, Option, none, some, List, ◌∷◌, ◌≡◌, ◌≢◌, refl, ap, subst, if_cases,
  if◌then◌else◌, ◌==◌, ◌+◌, not, ◌&&◌, is_some, arith,
}
use java_kotlin_flac.Prelude.Int.{ℤ}
use java_kotlin_flac.Sessions.{
  Session, Entry, find_entry, update, store, usable, let_go, destroy_decode_session,
}
use java_kotlin_flac.Sessions.System.{idle, holding, destroying, System, after_removal}
use java_kotlin_flac.Sessions.Entries.{some-injective}
use java_kotlin_flac.Sessions.Invariant.{
  IsHeld, IsDying, IsLive, IsCounted, IsServed, target, Elsewhere, AllLive, IsConsistent,
  update_cases, AllLive-Elsewhere, not_live-Elsewhere,
}
use java_kotlin_flac.Sessions.Moves.{
  idle-IsConsistent, moved-IsConsistent, only, nobody, kept-IsConsistent, stay_live,
}

apart : (b : Bool) → b ≡ true → b ≢ false
apart b h k = absurd cc

usable-flags :
    {P : Type 0} (c : Session P) → usable c ≡ true → (c.released ≡ false) × (c.in_use ≡ false)
usable-flags c u = flags c.released c.in_use (is_some c.decoder) u
  where
    flags : (a b d : Bool) → (not a && not b && d) ≡ true → (a ≡ false) × (b ≡ false)
    flags a b d h = ground arith

-- What a session is excludes what it is not.
pub not_both : {P : Type 0} (o : Option (Session P)) → IsDying o → ¬ IsLive o
not_both none d l = d
not_both (some c) d l = absurd cc

module _ {P : Type 0} (s : System P) (i : IsConsistent s) where
  abbrev heap : ℕ → Option (Session P)
  heap = s.registry.heap

  -- The end of a destruction: the session at `p` is freed.
  pub destroy-IsConsistent :
      (t p : ℕ)
      → s.threads t ≡ destroying p
      → IsConsistent (record {
        registry = destroy_decode_session p s.registry;
        threads = update s.threads t idle;
      })
  unfolding destroy_decode_session
  destroy-IsConsistent t p e =
      let dying = subst (IsServed heap) e (i.served t) in
      moved-IsConsistent s i t p none s.registry.entries s.registry.next_handle idle
        (AllLive-Elsewhere heap p none s.registry.entries
          (not_live-Elsewhere heap p none s.registry.entries (not_both (heap p) dying) i.live)
          i.live)
        tt (λ q h. absurd cc) (only s i t p (ap target e)) tt

  -- An operation changes the decoder of the session that it holds.
  pub work-IsConsistent :
      (p : ℕ) (decoder : P) (c : Session P)
      → heap p ≡ some c
      → IsConsistent
          (record s { registry = store p (record c { decoder = some decoder }) s.registry })
  work-IsConsistent p decoder c h =
      let v = some (record c { decoder = some decoder }) in
      kept-IsConsistent s i p v s.registry.entries s.registry.next_handle
        (stay_live s i p v (λ l. subst IsLive h l) s.registry.entries i.live)
        (λ l. subst IsHeld h l) (λ l. subst IsDying h l) (subst IsCounted h (i.counted p))

  -- A new session is registered under a handle that no entry has.
  pub register-IsConsistent :
      (p : ℕ) (decoder : P) (h next : ℤ)
      → heap p ≡ none
      → find_entry h s.registry.entries ≡ none
      → IsConsistent (record s {
        registry = record {
          next_handle = next;
          entries = record { handle = h; session = p } ∷ s.registry.entries;
          heap = update heap p (
              some (record {
                decoder = some decoder;
                handle = h;
                reference_count = 0;
                released = false;
                in_use = false;
              }));
        };
      })
  register-IsConsistent p decoder h next free fresh =
      let v = some (record {
        decoder = some decoder;
        handle = h;
        reference_count = 0;
        released = false;
        in_use = false;
      }) in
      let away = not_live-Elsewhere heap p v s.registry.entries (subst IsLive free) i.live in
      kept-IsConsistent s i p v (record { handle = h; session = p } ∷ s.registry.entries) next
        (
          update_cases IsLive heap p v p (λ _. refl) (λ n. absurd (n refl)),
          away,
          fresh,
          AllLive-Elsewhere heap p v s.registry.entries away i.live,
        )
        (λ k. absurd (subst IsHeld free k)) (λ k. absurd (subst IsDying free k))
        ((λ _. refl), λ e. absurd (apart false e refl))

  -- An operation starts on a session that is in the registry and not in use.
  pub acquire-IsConsistent :
      (t p : ℕ) (c : Session P)
      → heap p ≡ some c
      → usable c ≡ true
      → IsConsistent (record {
        registry =
            store p
              (record c { reference_count = c.reference_count + 1; in_use = true })
              s.registry;
        threads = update s.threads t (holding p);
      })
  acquire-IsConsistent t p c h u =
      let v = some (record c { reference_count = c.reference_count + 1; in_use = true }) in
      let flags = usable-flags c u in
      let one : c.reference_count + 1 ≡ 1 =
        ap (λ n. n + 1) ((subst IsCounted h (i.counted p)).0 flags.1) in
      moved-IsConsistent s i t p v s.registry.entries s.registry.next_handle (holding p)
        (stay_live s i p v (λ l. subst IsLive h l) s.registry.entries i.live)
        (update_cases IsHeld heap p v p (λ _. (refl, one)) (λ n. absurd (n refl)))
        (λ q e. some-injective p q e)
        (λ w _.
          nobody s i p (λ k. apart c.in_use (subst IsHeld h k).0 flags.1)
            (λ k. apart c.released (subst IsDying h k).1 flags.0) w)
        ((λ e. absurd (apart true refl e)), λ e. one)

  -- An operation ends.
  pub release-IsConsistent :
      (t p : ℕ) (c : Session P)
      → s.threads t ≡ holding p
      → heap p ≡ some c
      → IsConsistent (record {
        registry = store p (let_go c) s.registry;
        threads =
            update s.threads t
              (if c.released && (let_go c).reference_count == 0 then destroying p else idle);
      })
  release-IsConsistent t p c e h =
      let held = subst IsHeld h (subst (IsServed heap) e (i.served t)) in
      let v = some (let_go c) in
      let empty : (let_go c).reference_count ≡ 0 = ground (arith, held.1) in
      let l = stay_live s i p v (λ l. subst IsLive h l) s.registry.entries i.live in
      if_cases
        (λ pc.
          IsConsistent
            (record { registry = store p (let_go c) s.registry; threads = update s.threads t pc }))
        {b = c.released && (let_go c).reference_count == 0} {x = destroying p} {y = idle}
        (λ last.
          moved-IsConsistent s i t p v s.registry.entries s.registry.next_handle (destroying p) l
            (update_cases IsDying heap p v p (λ _. (refl, left c.released _ last))
              (λ n. absurd (n refl)))
            (λ q a. some-injective p q a) (only s i t p (ap target e))
            ((λ _. empty), λ a. absurd (apart false a refl)))
        (λ _.
          moved-IsConsistent s i t p v s.registry.entries s.registry.next_handle idle l tt
            (λ q a. absurd cc) (only s i t p (ap target e))
            ((λ _. empty), λ a. absurd (apart false a refl)))
    where
      left : (a b : Bool) → (a && b) ≡ true → a ≡ true
      left a b h = ground arith

  -- Java closes the handle of a registered session: it is destroyed unless an operation uses it.
  pub remove-IsConsistent :
      (t p : ℕ) (h : ℤ) (es : List Entry) (c : Session P)
      → s.threads t ≡ idle
      → heap p ≡ some c
      → IsLive (heap p)
      → AllLive heap es
      → Elsewhere p es
      → IsConsistent (record {
        registry = store p (record c { released = true }) (record s.registry { entries = es });
        threads =
            update s.threads t (after_removal (if c.reference_count == 0 then some p else none));
      })
  remove-IsConsistent t p h es c e at live others away =
      let v = some (record c { released = true }) in
      let l = AllLive-Elsewhere heap p v es away others in
      let no_end : ¬ IsDying (heap p) = λ d. not_both (heap p) d live in
      let k = subst IsCounted at (i.counted p) in
      if_cases
        (λ o. IsConsistent (record {
          registry = store p (record c { released = true }) (record s.registry { entries = es });
          threads = update s.threads t (after_removal o);
        }))
        {b = c.reference_count == 0} {x = some p} {y = none}
        (λ zero.
          let unused = unused_of c.in_use (ground arith) k.1 in
          moved-IsConsistent s i t p v es s.registry.next_handle (destroying p) l
            (update_cases IsDying heap p v p (λ _. (unused, refl)) (λ n. absurd (n refl)))
            (λ q a. some-injective p q a)
            (λ w _. nobody s i p (λ d. apart c.in_use (subst IsHeld at d).0 unused) no_end w) k)
        (λ used.
          idle-IsConsistent _
            (kept-IsConsistent s i p v es s.registry.next_handle l (λ d. subst IsHeld at d)
              (λ d. absurd (no_end d)) k)
            t)
    where
      unused_of :
          (b : Bool) → (c.reference_count ≡ 0) → (b ≡ true → c.reference_count ≡ 1) → b ≡ false
      unused_of true z o = absurd (omega (arith, z, o refl))
      unused_of false z o = refl
