-- ===== src/Sessions/Invariant.antt =====
-- native/src/jflac_jni.c: what holds of the registry and the threads between any two steps.
use java_kotlin_flac.Prelude.{
  ℕ, true, false, Option, none, some, List, [], ◌∷◌, ◌≡◌, ◌≢◌, refl, sym, ap, ◌==◌, arith, if_cases,
  subst,
}
use java_kotlin_flac.Sessions.{Session, Entry, find_entry, update}
use java_kotlin_flac.Sessions.System.{Pc, idle, holding, destroying, System}

module _ {P : Type 0} where
  -- In use by one operation.
  abbrev pub IsHeld : Option (Session P) → Type 0
  IsHeld none = ⊥
  IsHeld (some c) = (c.in_use ≡ true) × (c.reference_count ≡ 1)

  -- Removed from the registry, and no operation uses it.
  abbrev pub IsDying : Option (Session P) → Type 0
  IsDying none = ⊥
  IsDying (some c) = (c.in_use ≡ false) × (c.released ≡ true)

  abbrev pub IsLive : Option (Session P) → Type 0
  IsLive none = ⊥
  IsLive (some c) = c.released ≡ false

  -- A session has one reference while it is in use, and else none.
  abbrev pub IsCounted : Option (Session P) → Type 0
  IsCounted none = Unit {0}
  IsCounted (some c) =
      (c.in_use ≡ false → c.reference_count ≡ 0) × (c.in_use ≡ true → c.reference_count ≡ 1)

  -- The session that a thread is about is as the thread needs it.
  abbrev pub IsServed : (ℕ → Option (Session P)) → Pc → Type 0
  IsServed heap idle = Unit {0}
  IsServed heap (holding p) = IsHeld (heap p)
  IsServed heap (destroying p) = IsDying (heap p)

-- The session that a thread is about.
abbrev pub target : Pc → Option ℕ
target idle = none
target (holding p) = some p
target (destroying p) = some p

abbrev pub Elsewhere : ℕ → List Entry → Type 0
Elsewhere p [] = Unit {0}
Elsewhere p (e ∷ es) = (e.session ≢ p) × Elsewhere p es

-- Each entry has a handle and a session of its own, and the session is there and not released.
abbrev pub AllLive : {P : Type 0} → (ℕ → Option (Session P)) → List Entry → Type 0
AllLive heap [] = Unit {0}
AllLive heap (e ∷ es) =
    IsLive (heap e.session)
    × Elsewhere e.session es
    × (find_entry e.handle es ≡ none)
    × AllLive heap es

pub record IsConsistent {P : Type 0} (s : System P) : Type 0 where
  pub live : AllLive s.registry.heap s.registry.entries
  pub served : (t : ℕ) → IsServed s.registry.heap (s.threads t)
  pub alone : (t u p : ℕ) → target (s.threads t) ≡ some p → target (s.threads u) ≡ some p → t ≡ u
  pub counted : (p : ℕ) → IsCounted (s.registry.heap p)

-- An updated function, at the place of the update and elsewhere.
pub update_cases {κ} :
    {A : Type 0} (Q : A → Type κ) (f : ℕ → A) (i : ℕ) (a : A) (j : ℕ)
    → (i ≡ j → Q a)
    → (i ≢ j → Q (f j))
    → Q (update f i a j)
update_cases Q f i a j here there =
    if_cases Q {b = i == j} (λ e. here (ground arith)) (λ e. there (λ h. ground arith))

pub update_self : {A : Type 0} (f : ℕ → A) (i : ℕ) (a : A) → update f i a i ≡ a
update_self f i a = update_cases (λ x. x ≡ a) f i a i (λ _. refl) (λ n. absurd (n refl))

module _ {P : Type 0} (heap : ℕ → Option (Session P)) (p : ℕ) (v : Option (Session P)) where
  -- Where the session at `p` is not registered, its entry can be changed at will.
  pub AllLive-Elsewhere :
      (es : List Entry) → Elsewhere p es → AllLive heap es → AllLive (update heap p v) es
  AllLive-Elsewhere [] h l = tt
  AllLive-Elsewhere (e ∷ es) h l = (
    update_cases IsLive heap p v e.session (λ same. absurd (h.0 (sym same))) (λ other. l.0),
    l.1,
    l.2,
    AllLive-Elsewhere es h.1 l.3,
  )

  pub AllLive-kept : (es : List Entry) → IsLive v → AllLive heap es → AllLive (update heap p v) es
  AllLive-kept [] k l = tt
  AllLive-kept (e ∷ es) k l = (
    update_cases IsLive heap p v e.session (λ same. k) (λ other. l.0),
    l.1,
    l.2,
    AllLive-kept es k l.3,
  )

  -- A session that is not live is not registered.
  pub not_live-Elsewhere : (es : List Entry) → ¬ IsLive (heap p) → AllLive heap es → Elsewhere p es
  not_live-Elsewhere [] h l = tt
  not_live-Elsewhere (e ∷ es) h l =
      ((λ same. h (subst (λ q. IsLive (heap q)) same l.0)), not_live-Elsewhere es h l.3)

  pub IsServed-away :
      (pc : Pc) → target pc ≢ some p → IsServed heap pc → IsServed (update heap p v) pc
  IsServed-away idle h k = tt
  IsServed-away (holding q) h k =
      update_cases IsHeld heap p v q (λ same. absurd (h (ap some (sym same)))) (λ other. k)
  IsServed-away (destroying q) h k =
      update_cases IsDying heap p v q (λ same. absurd (h (ap some (sym same)))) (λ other. k)

  pub IsCounted-update :
      ((q : ℕ) → IsCounted (heap q)) → IsCounted v → (q : ℕ) → IsCounted (update heap p v q)
  IsCounted-update h k q = update_cases IsCounted heap p v q (λ same. k) (λ other. h q)
