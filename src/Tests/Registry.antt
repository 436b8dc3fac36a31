-- ===== src/Tests/Registry.antt =====
-- A run of the registry: a session is opened, an operation starts, and the handle is closed.
use java_kotlin_flac.Prelude.{ℕ, suc, true, none, some, [], ◌≡◌, refl, arith, length}
use java_kotlin_flac.Prelude.Int.{ℤ, pos, ltb_ℤ}
use java_kotlin_flac.Sessions.{
  Registry, find_entry, next_of, increment, reserve_handle, register_decode_session,
  acquire_decode_session, remove_decode_session, unlink_entry, store, update,
  active_decode_session_count,
}
use java_kotlin_flac.Sessions.System.{
  System, init, Reach, start, later, register, acquire, holding, idle,
}
use java_kotlin_flac.Sessions.Runs.{Run, unmoved, moved}
use java_kotlin_flac.Sessions.Closed.{acquire_decode_session-remove}
use java_kotlin_flac.Sessions.Outcomes.{with_new, new_session, taken}
use java_kotlin_flac.Sessions.Safety.{IsSafe, Reach-IsSafe}
use java_kotlin_flac.Sessions.Handles.{
  acquire_decode_session-twice, acquire_decode_session-register, register_decode_session_total,
}

abbrev empty : Registry ℕ
empty = (init ℕ).registry

-- The session at address 7 is opened with the decoder 0, under the handle 1.
abbrev opened : Registry ℕ
opened = with_new empty 7 0 (pos 1) (pos 2)

abbrev used : Registry ℕ
used = store 7 (taken (new_session empty 0 (pos 1))) opened

abbrev closed : Registry ℕ
closed =
    store 7 (record (taken (new_session empty 0 (pos 1))) { released = true })
      (record used { entries = [] })

opening : register_decode_session 1 true 7 0 empty ≡ some (pos 1, opened)
unfolding register_decode_session reserve_handle next_of increment find_entry
opening = refl

starting : acquire_decode_session (pos 1) opened ≡ some (some 7, used)
unfolding acquire_decode_session find_entry
starting = refl

closing : remove_decode_session (pos 1) used ≡ some (none, closed)
unfolding remove_decode_session find_entry unlink_entry
closing = refl

abbrev system_opened : System ℕ
system_opened = record (init ℕ) { registry = opened }

abbrev system_used : System ℕ
system_used = record { registry = used; threads = update (init ℕ).threads 3 (holding 7) }

opened-Reach : Reach system_opened
opened-Reach = later start (register 1 7 true 0 refl opening)

used-Reach : Reach system_used
used-Reach = later opened-Reach (acquire 3 7 (pos 1) refl starting)

Reach-IsSafe_example : IsSafe system_used
Reach-IsSafe_example = Reach-IsSafe system_used used-Reach

acquire_decode_session-twice_example : acquire_decode_session (pos 1) used ≡ some (none, used)
acquire_decode_session-twice_example =
    acquire_decode_session-twice system_opened (pos 1) 7 used opened-Reach starting

-- After the handle 1 was closed another session is opened, under the handle 2.
abbrev opened_again : Registry ℕ
opened_again = with_new closed 8 0 (pos 2) (pos 3)

reopening : register_decode_session 1 true 8 0 closed ≡ some (pos 2, opened_again)
unfolding register_decode_session reserve_handle next_of increment find_entry
reopening = refl

open_entry :
    find_entry (pos 1) system_used.registry.entries ≡ some (record { handle = pos 1; session = 7 })
unfolding find_entry
open_entry = refl

abbrev system_closed : System ℕ
system_closed = record { registry = closed; threads = update system_used.threads 0 idle }

abbrev system_opened_again : System ℕ
system_opened_again = record system_closed { registry = opened_again }

used-Run : Run (init ℕ) 1 system_used
used-Run =
    moved (moved unmoved (register 1 7 true 0 refl opening)) (acquire 3 7 (pos 1) refl starting)

opened_again-Run : Run system_closed 1 system_opened_again
opened_again-Run = moved unmoved (register 1 8 true 0 refl reopening)

acquire_decode_session-remove_example :
    acquire_decode_session (pos 1) opened_again ≡ some (none, opened_again)
acquire_decode_session-remove_example =
    acquire_decode_session-remove system_used system_opened_again 1 1 0 (pos 1)
      (record { handle = pos 1; session = 7 }) none closed used-Run open_entry refl closing
      opened_again-Run (omega arith)

acquire_decode_session-register_example :
    acquire_decode_session (pos 1) opened
    ≡ some (some 7, store 7 (taken (new_session empty 0 (pos 1))) opened)
acquire_decode_session-register_example =
    acquire_decode_session-register 1 7 true 0 empty opened (pos 1) opening refl

register_decode_session_total_example :
    (h : ℤ) × (r' : Registry ℕ) × (register_decode_session
        (suc (length opened.entries))
        true
        8
        0
        opened
      ≡ some (h, r'))
    × (ltb_ℤ (pos 0) h ≡ true)
    × (find_entry h opened.entries ≡ none)
    × (active_decode_session_count r' ≡ suc (active_decode_session_count opened))
register_decode_session_total_example =
    register_decode_session_total opened 2 8 0 (omega arith) refl (omega arith)
