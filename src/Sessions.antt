-- ===== src/Sessions.antt =====
-- native/src/jflac_jni.c: the registry of decoder sessions. Java holds handles, the registry maps them
-- to sessions, and a session is destroyed when it has been removed and no operation uses it. Each
-- function here is one critical section of the registry's lock, or the destruction after it. `heap`
-- holds the sessions by address; `none` as a result is an access to a session that is not there.
pub mod System
pub mod Invariant
pub mod Entries
pub mod Moves
pub mod Steps
pub mod Outcomes
pub mod Safety
pub mod Handles
pub mod Runs
pub mod Closed
use java_kotlin_flac.Prelude.{
  ℕ, zero, suc, Bool, true, false, Option, none, some, List, [], ◌∷◌, ◌+◌, ◌-◌, ◌==◌, ltb,
  if◌then◌else◌, ◌&&◌, ◌||◌, not, is_some, llong_max, length,
}
use java_kotlin_flac.Prelude.Int.{ℤ, pos, negsuc, ltb_ℤ, eqb_ℤ, ◌+ℤ◌}

-- `decoder` is the libFLAC decoder with the context of its callbacks; `none` is NULL.
pub record Session (P : Type 0) : Type 0 where
  pub decoder : Option P
  pub handle : ℤ
  pub reference_count : ℕ
  pub released : Bool
  pub in_use : Bool

-- An entry of the linked list; `session` is an address.
pub record Entry : Type 0 where
  pub handle : ℤ
  pub session : ℕ

pub record Registry (P : Type 0) : Type 0 where
  pub next_handle : ℤ
  pub entries : List Entry
  pub heap : ℕ → Option (Session P)

abbrev pub first_valid_handle : ℤ
first_valid_handle = pos 1

unfoldable pub find_entry : ℤ → List Entry → Option Entry
find_entry h [] = none
find_entry h (e ∷ es) = if eqb_ℤ e.handle h then some e else find_entry h es

-- Unlinks the entry that `find_entry` finds.
unfoldable pub unlink_entry : ℤ → List Entry → List Entry
unlink_entry h [] = []
unlink_entry h (e ∷ es) = if eqb_ℤ e.handle h then es else e ∷ unlink_entry h es

-- `h + 1` as a `jlong`: the value after the largest is the smallest.
unfoldable pub increment : ℤ → ℤ
increment h = if eqb_ℤ h (pos llong_max) then negsuc llong_max else h +ℤ pos 1

-- The next value of the handle counter: positive again where it wrapped around.
unfoldable pub next_of : ℤ → ℤ
unfolding increment
next_of h = if ltb_ℤ (pos 0) (increment h) then increment h else first_valid_handle

-- The loop of `reserve_decode_session_handle_locked`, on fuel: a handle and the counter after it.
unfoldable pub reserve_handle : ℕ → ℤ → List Entry → Option (ℤ × ℤ)
reserve_handle zero next es = none
reserve_handle (suc fuel) next es =
    let rest = reserve_handle fuel (next_of next) es in
    if ltb_ℤ (pos 0) next && not (is_some (find_entry next es))
    then some (next, next_of next)
    else rest

abbrev pub update {ℓ} : {A : Type ℓ} → (ℕ → A) → ℕ → A → ℕ → A
update f i a j = if i == j then a else f j

module _ {P : Type 0} where
  abbrev pub store : ℕ → Session P → Registry P → Registry P
  store p s r = record r { heap = update r.heap p (some s) }

  registered : ℕ → P → Registry P → Option (ℤ × ℤ) → Option (ℤ × Registry P)
  registered p decoder r none = none
  registered p decoder r (some (handle, next)) = some (
    handle,
    record {
      next_handle = next;
      entries = record { handle = handle; session = p } ∷ r.entries;
      heap = update r.heap p (
          some (record {
            decoder = some decoder;
            handle = handle;
            reference_count = 0;
            released = false;
            in_use = false;
          }));
    },
  )

  -- `register_decode_session` of the session at `p`. The flag says whether the entry was allocated;
  -- the handle 0 says that it was not, and the caller keeps the session.
  unfoldable pub register_decode_session : ℕ → Bool → ℕ → P → Registry P → Option (ℤ × Registry P)
  unfolding registered
  register_decode_session fuel allocated p decoder r =
      if not allocated
      then some (pos 0, r)
      else registered p decoder r (reserve_handle fuel r.next_handle r.entries)

  abbrev pub usable : Session P → Bool
  usable s = not s.released && not s.in_use && is_some s.decoder

  -- Takes the session at `p` into use, unless it is released, in use or has no decoder.
  acquire_at : ℕ → Option (Session P) → Registry P → Option (Option ℕ × Registry P)
  acquire_at p none r = none
  acquire_at p (some s) r =
      if usable s
      then some
          (some p, store p (record s { reference_count = s.reference_count + 1; in_use = true }) r)
      else some (none, r)

  acquire_entry : Option Entry → Registry P → Option (Option ℕ × Registry P)
  unfolding acquire_at
  acquire_entry none r = some (none, r)
  acquire_entry (some e) r = acquire_at e.session (r.heap e.session) r

  -- The address of the session, or `none` where the handle is not active and an exception is thrown.
  unfoldable pub acquire_decode_session : ℤ → Registry P → Option (Option ℕ × Registry P)
  unfolding acquire_entry
  acquire_decode_session h r =
      if ltb_ℤ (pos 0) h then acquire_entry (find_entry h r.entries) r else some (none, r)

  abbrev pub let_go : Session P → Session P
  let_go s = record s {
    reference_count = if ltb 0 s.reference_count then s.reference_count - 1 else s.reference_count;
    in_use = false;
  }

  release_at : ℕ → Option (Session P) → Registry P → Option (Bool × Registry P)
  release_at p none r = none
  release_at p (some s) r =
      some (s.released && (let_go s).reference_count == 0, store p (let_go s) r)

  -- The flag says whether the caller has to destroy the session.
  unfoldable pub release_decode_session_reference : ℕ → Registry P → Option (Bool × Registry P)
  unfolding release_at
  release_decode_session_reference p r = release_at p (r.heap p) r

  remove_at : ℕ → Option (Session P) → Registry P → Option (Option ℕ × Registry P)
  remove_at p none r = none
  remove_at p (some s) r =
      some
        (if s.reference_count == 0 then some p else none, store p (record s { released = true }) r)

  remove_entry : ℤ → Option Entry → Registry P → Option (Option ℕ × Registry P)
  unfolding remove_at
  remove_entry h none r = some (none, r)
  remove_entry h (some e) r =
      remove_at e.session (r.heap e.session) (record r { entries = unlink_entry h r.entries })

  -- The address of a session that the caller has to destroy.
  unfoldable pub remove_decode_session : ℤ → Registry P → Option (Option ℕ × Registry P)
  unfolding remove_entry
  remove_decode_session h r =
      if ltb_ℤ (pos 0) h then remove_entry h (find_entry h r.entries) r else some (none, r)

  -- `free(session)`, after its decoder and references are released.
  unfoldable pub destroy_decode_session : ℕ → Registry P → Registry P
  destroy_decode_session p r = record r { heap = update r.heap p none }

  destroy_entries : List Entry → Registry P → Registry P
  unfolding destroy_decode_session
  destroy_entries [] r = r
  destroy_entries (e ∷ es) r = destroy_entries es (destroy_decode_session e.session r)

  unfoldable pub destroy_all_decode_sessions : Registry P → Registry P
  unfolding destroy_entries
  destroy_all_decode_sessions r = destroy_entries r.entries (record r { entries = [] })

  unfoldable pub active_decode_session_count : Registry P → ℕ
  active_decode_session_count r = length r.entries
