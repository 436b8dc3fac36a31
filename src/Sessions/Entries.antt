-- ===== src/Sessions/Entries.antt =====
-- native/src/jflac_jni.c: finding and unlinking an entry of a consistent registry, and the search for
-- a free handle.
use java_kotlin_flac.Prelude.{
  ℕ, Bool, true, false, Option, none, some, List, [], ◌∷◌, ◌≡◌, ◌≢◌, refl, sym, subst, if_cases,
  if_false, if◌then◌else◌,
}
use java_kotlin_flac.Prelude.Int.{ℤ, eqb_ℤ, eqb_ℤ-eq}
use java_kotlin_flac.Sessions.{Session, Entry, find_entry, unlink_entry}
use java_kotlin_flac.Sessions.Invariant.{IsLive, AllLive, Elsewhere}

-- What a successful search gives, in a registry in which every entry is live; `rest` are the other
-- entries.
pub record IsFound {P : Type 0} (heap : ℕ → Option (Session P)) (h : ℤ) (rest : List Entry)
    (e : Entry) : Type 0 where
  pub handle_eq : e.handle ≡ h
  pub live : IsLive (heap e.session)
  pub others : AllLive heap rest
  pub alone : Elsewhere e.session rest
  pub gone : find_entry h rest ≡ none

Elsewhere-unlink :
    (p : ℕ) (h : ℤ) (es : List Entry) → Elsewhere p es → Elsewhere p (unlink_entry h es)
unfolding unlink_entry
Elsewhere-unlink p h [] k = tt
Elsewhere-unlink p h (e ∷ es) k =
    if_cases (Elsewhere p) {b = eqb_ℤ e.handle h} (λ _. k.1)
      (λ _. (k.0, Elsewhere-unlink p h es k.1))

pub some-injective : {A : Type 0} (a b : A) → some a ≡ some b → a ≡ b
some-injective a b h = cc

Elsewhere-found :
    (p : ℕ) (h : ℤ) (es : List Entry) (e : Entry)
    → find_entry h es ≡ some e
    → Elsewhere p es
    → e.session ≢ p
unfolding find_entry
Elsewhere-found p h [] e f k = absurd cc
Elsewhere-found p h (d ∷ es) e f k =
    if_cases (λ r. r ≡ some e → e.session ≢ p) {b = eqb_ℤ d.handle h} {x = some d}
      {y = find_entry h es} (λ _ g. subst (λ x. x.session ≢ p) (some-injective d e g) k.0)
      (λ _ g. Elsewhere-found p h es e g k.1) f

missing_tail :
    (h : ℤ) (d : Entry) (es : List Entry)
    → find_entry h (d ∷ es) ≡ none
    → (eqb_ℤ d.handle h ≡ false) × (find_entry h es ≡ none)
unfolding find_entry
missing_tail h d es f =
    if_cases (λ r. r ≡ none → (eqb_ℤ d.handle h ≡ false) × (find_entry h es ≡ none))
      {b = eqb_ℤ d.handle h} {x = some d} {y = find_entry h es} (λ _ g. absurd cc) (λ n g. (n, g)) f

missing_cons :
    (h : ℤ) (d : Entry) (es : List Entry)
    → eqb_ℤ d.handle h ≡ false
    → find_entry h es ≡ none
    → find_entry h (d ∷ es) ≡ none
unfolding find_entry
missing_cons h d es n f = if_false (λ r. r ≡ none) {b = eqb_ℤ d.handle h} (some d) n f

find_entry-unlink :
    (h k : ℤ) (es : List Entry) → find_entry k es ≡ none → find_entry k (unlink_entry h es) ≡ none
unfolding unlink_entry
find_entry-unlink h k [] n = n
find_entry-unlink h k (e ∷ es) n =
    let (other, rest) = missing_tail k e es n in
    if_cases (λ xs. find_entry k xs ≡ none) {b = eqb_ℤ e.handle h} (λ _. rest)
      (λ _. missing_cons k e (unlink_entry h es) other (find_entry-unlink h k es rest))

module _ {P : Type 0} (heap : ℕ → Option (Session P)) (h : ℤ) where
  -- The entry at the front, or one behind it.
  front_or_behind :
      (b : Bool) (d e : Entry) (es : List Entry)
      → eqb_ℤ d.handle h ≡ b
      → AllLive heap (d ∷ es)
      → (if b then some d else find_entry h es) ≡ some e
      → (find_entry h es ≡ some e → IsFound heap h (unlink_entry h es) e)
      → IsFound heap h (if b then es else d ∷ unlink_entry h es) e
  front_or_behind true d e es q l f behind =
      let same : d.handle ≡ h = eqb_ℤ-eq d.handle h q in
      subst (IsFound heap h es) (some-injective d e f) (record {
        handle_eq = same;
        live = l.0;
        others = l.3;
        alone = l.1;
        gone = subst (λ k. find_entry k es ≡ none) same l.2;
      })
  front_or_behind false d e es q l f behind =
      let i = behind f in
      record {
        handle_eq = i.handle_eq;
        live = i.live;
        others = (
          l.0,
          Elsewhere-unlink d.session h es l.1,
          find_entry-unlink h d.handle es l.2,
          i.others,
        );
        alone = ((λ same. Elsewhere-found d.session h es e f l.1 (sym same)), i.alone);
        gone = missing_cons h d (unlink_entry h es) q i.gone;
      }

  -- The entry that a search finds is live, and unlinking leaves no entry with its handle or session.
  pub find_entry-IsFound :
      (es : List Entry) (e : Entry)
      → find_entry h es ≡ some e
      → AllLive heap es
      → IsFound heap h (unlink_entry h es) e
  unfolding find_entry unlink_entry
  find_entry-IsFound [] e f l = absurd cc
  find_entry-IsFound (d ∷ es) e f l =
      front_or_behind (eqb_ℤ d.handle h) d e es refl l f (λ g. find_entry-IsFound es e g l.3)
