-- ===== src/Sessions/System.antt =====
-- native/src/jflac_jni.c: threads that use the registry at once. A step is one critical section, or
-- what a thread does outside the lock with a session that it has.
use java_kotlin_flac.Prelude.{ℕ, Bool, Option, none, some, [], ◌≡◌, if◌then◌else◌}
use java_kotlin_flac.Prelude.Int.{ℤ}
use java_kotlin_flac.Sessions.{
  Registry, Session, first_valid_handle, update, store, register_decode_session,
  acquire_decode_session, release_decode_session_reference, remove_decode_session,
  destroy_decode_session,
}

-- What a thread is about: nothing, an operation on a session, or the destruction of one.
pub data Pc : Type 0 where
  idle : Pc
  holding destroying : ℕ → Pc

pub record System (P : Type 0) : Type 0 where
  pub registry : Registry P
  pub threads : ℕ → Pc

abbrev pub init : (P : Type 0) → System P
init P = record {
  registry = record { next_handle = first_valid_handle; entries = []; heap = λ p. none };
  threads = λ t. idle;
}

abbrev pub after_removal : Option ℕ → Pc
after_removal none = idle
after_removal (some p) = destroying p

pub data Step {P : Type 0} (s : System P) : System P → Type 0 where
  -- an open call registers a new session at an address that is free
  register :
      (fuel p : ℕ) (allocated : Bool) (decoder : P) {h : ℤ} {r : Registry P}
      → s.registry.heap p ≡ none
      → register_decode_session fuel allocated p decoder s.registry ≡ some (h, r)
      → Step s (record s { registry = r })
  -- an operation starts, or is refused
  acquire :
      (t p : ℕ) (h : ℤ) {r : Registry P}
      → s.threads t ≡ idle
      → acquire_decode_session h s.registry ≡ some (some p, r)
      → Step s (record { registry = r; threads = update s.threads t (holding p) })
  refuse :
      (h : ℤ) {r : Registry P}
      → acquire_decode_session h s.registry ≡ some (none, r)
      → Step s (record s { registry = r })
  -- the operation changes the decoder and its context
  work :
      (t p : ℕ) (decoder : P) (c : Session P)
      → s.threads t ≡ holding p
      → s.registry.heap p ≡ some c
      → Step s (record s { registry = store p (record c { decoder = some decoder }) s.registry })
  -- the operation ends
  release :
      (t p : ℕ) {destroy : Bool} {r : Registry P}
      → s.threads t ≡ holding p
      → release_decode_session_reference p s.registry ≡ some (destroy, r)
      → Step s (record {
        registry = r;
        threads = update s.threads t (if destroy then destroying p else idle);
      })
  -- Java closes a handle
  remove :
      (t : ℕ) (h : ℤ) {o : Option ℕ} {r : Registry P}
      → s.threads t ≡ idle
      → remove_decode_session h s.registry ≡ some (o, r)
      → Step s (record { registry = r; threads = update s.threads t (after_removal o) })
  destroy :
      (t p : ℕ)
      → s.threads t ≡ destroying p
      → Step s (record {
        registry = destroy_decode_session p s.registry;
        threads = update s.threads t idle;
      })

pub data Reach {P : Type 0} : System P → Type 0 where
  start : Reach (init P)
  later : {s t : System P} → Reach s → Step s t → Reach t
