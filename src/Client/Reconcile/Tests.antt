-- ===== src/Client/Reconcile/Tests.antt =====
-- The theorems about reconciliation at concrete views.
use alloyfs.Base.{ℕ, refl, some, [], ◌∷◌, All}
use alloyfs.Base.Text.{Text, chars}
use alloyfs.Base.Table.{Table}
use alloyfs.Client.Reconcile.{file, dir, SyncEntry, Stat, Snapshot, push, decide, plan}
use alloyfs.Client.Reconcile.Safety.{AllowedAt, plan-Allowed}
use alloyfs.Client.Reconcile.Converge.{IsQuiet, after, decide-IsQuiet}

abbrev of_size : ℕ → Stat
of_size n = record { kind = file; size = n; mtime_ns = 100; version = 5 }

abbrev folder : Stat
folder = record { kind = dir; size = 0; mtime_ns = 0; version = 9 }

abbrev entry : SyncEntry
entry = record { kind = file; remote_version = 5; size = 3; mtime_ns = 100 }

abbrev baseline : Table Text SyncEntry
baseline = (chars "a", entry) ∷ (chars "b", entry) ∷ []

abbrev here : Snapshot
here = (chars "a", of_size 4) ∷ (chars "c", of_size 1) ∷ []

abbrev there : Snapshot
there = (chars "a", of_size 3) ∷ (chars "b", of_size 3) ∷ []

plan-Allowed_example : All (AllowedAt baseline here there) (plan baseline here there)
plan-Allowed_example = plan-Allowed baseline here there

decide-IsQuiet_example : IsQuiet (chars "a") (
    after 6
      (record { base = some entry; here = some (of_size 4); there = some (of_size 3) })
      (push (chars "a")))
unfolding decide
decide-IsQuiet_example =
    decide-IsQuiet (chars "a") 6 (some entry) (some (of_size 4)) (some (of_size 3))
      (push (chars "a")) refl refl
