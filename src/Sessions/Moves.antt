-- ===== src/Sessions/Moves.antt =====
-- native/src/jflac_jni.c: a change of one session of the registry keeps it consistent, provided that no
-- other thread is about that session or depends on what changes.
use java_kotlin_flac.Prelude.{ℕ, Option, some, List, [], ◌∷◌, ◌≡◌, ◌≢◌, sym, ap, ◌∙◌, subst}
use java_kotlin_flac.Prelude.Int.{ℤ}
use java_kotlin_flac.Sessions.{Session, Entry, update}
use java_kotlin_flac.Sessions.System.{Pc, idle, holding, destroying, System}
use java_kotlin_flac.Sessions.Entries.{some-injective}
use java_kotlin_flac.Sessions.Invariant.{
  IsHeld, IsDying, IsLive, IsCounted, IsServed, target, AllLive, IsConsistent, update_cases,
  IsServed-away, IsCounted-update,
}

module _ {P : Type 0} (s : System P) (i : IsConsistent s) where
  -- A thread that is about nothing stays so.
  pub idle-IsConsistent :
      (t : ℕ) → IsConsistent (record { registry = s.registry; threads = update s.threads t idle })
  idle-IsConsistent t = record {
    live = i.live;
    served =
        λ u. update_cases (IsServed s.registry.heap) s.threads t idle u (λ _. tt) (λ _. i.served u);
    alone = λ u w q.
        update_cases (λ x. target x ≡ some q → target (update s.threads t idle w) ≡ some q → u ≡ w)
          s.threads t idle u (λ _ a. absurd cc)
          (λ _ a.
            update_cases (λ y. target y ≡ some q → u ≡ w) s.threads t idle w (λ _ b. absurd cc)
              (λ _ b. i.alone u w q a b));
    counted = i.counted;
  }

module _ {P : Type 0} (s : System P) (i : IsConsistent s) where
  abbrev heap : ℕ → Option (Session P)
  heap = s.registry.heap

  -- A thread `t` changes the session at `p`, about which no other thread is.
  pub moved-IsConsistent :
      (t p : ℕ) (v : Option (Session P)) (es : List Entry) (next : ℤ) (pc : Pc)
      → AllLive (update heap p v) es
      → IsServed (update heap p v) pc
      → ((q : ℕ) → target pc ≡ some q → p ≡ q)
      → ((u : ℕ) → t ≢ u → target (s.threads u) ≢ some p)
      → IsCounted v
      → IsConsistent (record {
        registry = record { next_handle = next; entries = es; heap = update heap p v };
        threads = update s.threads t pc;
      })
  moved-IsConsistent t p v es next pc l own about others k = record {
    live = l;
    served = λ u.
        update_cases (IsServed (update heap p v)) s.threads t pc u (λ _. own)
          (λ other. IsServed-away heap p v (s.threads u) (others u other) (i.served u));
    alone = λ u w q.
        update_cases (λ x. target x ≡ some q → target (update s.threads t pc w) ≡ some q → u ≡ w)
          s.threads t pc u
          (λ tu a.
            update_cases (λ y. target y ≡ some q → u ≡ w) s.threads t pc w (λ tw b. sym tu ∙ tw)
              (λ ntw b. absurd (others w ntw (b ∙ ap some (sym (about q a))))))
          (λ ntu a.
            update_cases (λ y. target y ≡ some q → u ≡ w) s.threads t pc w
              (λ tw b. absurd (others u ntu (a ∙ ap some (sym (about q b)))))
              (λ ntw b. i.alone u w q a b));
    counted = IsCounted-update heap p v i.counted k;
  }

  -- The only thread about a session, seen from another.
  pub only :
      (t p : ℕ) → target (s.threads t) ≡ some p → (u : ℕ) → t ≢ u → target (s.threads u) ≢ some p
  only t p e u n h = n (i.alone t u p e h)

  -- No thread is about a session that is neither held nor dying.
  pub nobody :
      (p : ℕ) → ¬ IsHeld (heap p) → ¬ IsDying (heap p) → (u : ℕ) → target (s.threads u) ≢ some p
  nobody p no_holder no_end u h = about (s.threads u) (i.served u) h
    where
      about : (pc : Pc) → IsServed heap pc → target pc ≢ some p
      about idle k e = cc
      about (holding q) k e = no_holder (subst (λ x. IsHeld (heap x)) (some-injective q p e) k)
      about (destroying q) k e = no_end (subst (λ x. IsDying (heap x)) (some-injective q p e) k)

  IsServed-same :
      (p : ℕ) (v : Option (Session P))
      → (IsHeld (heap p) → IsHeld v)
      → (IsDying (heap p) → IsDying v)
      → (pc : Pc) → IsServed heap pc
      → IsServed (update heap p v) pc
  IsServed-same p v held dying idle k = tt
  IsServed-same p v held dying (holding q) k =
      update_cases IsHeld heap p v q (λ e. held (subst (λ x. IsHeld (heap x)) (sym e) k)) (λ _. k)
  IsServed-same p v held dying (destroying q) k =
      update_cases IsDying heap p v q (λ e. dying (subst (λ x. IsDying (heap x)) (sym e) k))
        (λ _. k)

  -- The session at `p` changes in a way that no thread depends on.
  pub kept-IsConsistent :
      (p : ℕ) (v : Option (Session P)) (es : List Entry) (next : ℤ)
      → AllLive (update heap p v) es
      → (IsHeld (heap p) → IsHeld v)
      → (IsDying (heap p) → IsDying v)
      → IsCounted v
      → IsConsistent (record s {
        registry = record { next_handle = next; entries = es; heap = update heap p v };
      })
  kept-IsConsistent p v es next l held dying k = record {
    live = l;
    served = λ u. IsServed-same p v held dying (s.threads u) (i.served u);
    alone = i.alone;
    counted = IsCounted-update heap p v i.counted k;
  }

  -- The entries stay live when a session that is there changes without being released.
  pub stay_live :
      (p : ℕ) (v : Option (Session P))
      → (IsLive (heap p) → IsLive v)
      → (es : List Entry) → AllLive heap es
      → AllLive (update heap p v) es
  stay_live p v h [] l = tt
  stay_live p v h (e ∷ es) l = (
    update_cases IsLive heap p v e.session (λ same. h (subst (λ q. IsLive (heap q)) (sym same) l.0))
        (λ _. l.0),
    l.1,
    l.2,
    stay_live p v h es l.3,
  )
