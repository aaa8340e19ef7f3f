-- ===== src/Agent/Locks/Tests.antt =====
-- The theorems about crates/alloyfs-agent/src/locks.rs at concrete inputs.
use alloyfs.Base.{ℕ, refl, true, false, List, [], ◌∷◌}
use alloyfs.Base.Text.{chars, text_eq}
use alloyfs.Base.Table.{get, insert, remove}
use alloyfs.Proto.Path.{RelPath}
use alloyfs.Proto.Messages.{shared, exclusive}
use alloyfs.Agent.Locks.{
  Holder, Waiter, Entry, LockManager, Call, attempts, unlocks, attempt, attempt_entry, compatible,
  unlock, unlock_entry, wake_waiters, step, run,
}
use alloyfs.Agent.Locks.Exclusion.{IsEntry, run-IsEntry}
use alloyfs.Agent.Locks.Waking.{Wakes, wake_waiters-Wakes}

abbrev file_a : RelPath
file_a = chars "a"

abbrev reader : ℕ → Holder
reader s = record { session = s; fh = 1; kind = shared }

abbrev writer : Waiter
writer = record { session = 3; kind = exclusive; wake = 7 }

abbrev calls : List Call
calls =
    attempts file_a 1 1 shared false 0
    ∷ attempts file_a 2 1 shared true 1
    ∷ attempts file_a 3 1 exclusive true 7
    ∷ unlocks file_a 1 1
    ∷ []

abbrev shared_entry : Entry
shared_entry = record { holders = reader 2 ∷ []; waiters = writer ∷ [] }

run-IsEntry_example : IsEntry shared_entry
unfolding run step attempt attempt_entry compatible unlock unlock_entry wake_waiters get insert
    remove
run-IsEntry_example = run-IsEntry calls file_a shared_entry refl

abbrev two_readers : LockManager
two_readers = (file_a, record { holders = reader 1 ∷ reader 2 ∷ []; waiters = writer ∷ [] }) ∷ []

wake_waiters-Wakes_example :
    Wakes []
      (writer ∷ writer ∷ [])
      (wake_waiters [] (writer ∷ writer ∷ [])).0
      (wake_waiters [] (writer ∷ writer ∷ [])).1
wake_waiters-Wakes_example = wake_waiters-Wakes [] (writer ∷ writer ∷ [])

abbrev sleeper : Waiter
sleeper = record { session = 2; kind = shared; wake = 4 }

abbrev downgraded : Entry
downgraded = record {
  holders = record { session = 1; fh = 1; kind = exclusive } ∷ [];
  waiters = sleeper ∷ [];
}
