-- ===== src/Client/Manifest.antt =====
-- `SyncManifest` of crates/alloyfs-client/src/sync/manifest.rs: the baseline of a mirror, and how it
-- follows the rename of a file or of a directory.
pub mod Moves
mod Tests
use alloyfs.Base.{ℕ, Bool, true, false, not, Option, none, some, List, [], ◌∷◌, ◌++◌, if◌then◌else◌}
use alloyfs.Base.Text.{Text, text_eq, text_beq, strip_prefix}
use alloyfs.Base.Table.{Table, insert}
use alloyfs.Proto.Path.{slash}
use alloyfs.Client.Reconcile.{SyncEntry}

pub record SyncManifest : Type 0 where
  pub format : ℕ
  pub last_seq : ℕ
  pub entries : Table Text SyncEntry

-- Where a rename takes a path: the path itself, or one below it.
pub destination : (from to path : Text) → Option Text
destination from to path =
    if text_beq path from then some to else elim (strip_prefix (from ++ slash ∷ []) path) [
      | none ↦ none
      | some suffix ↦ some (to ++ slash ∷ suffix)
    ]

-- The entries that `retain` keeps, and the moved ones under their new paths.
pub kept : (from to : Text) → Table Text SyncEntry → Table Text SyncEntry
kept from to [] = []
kept from to ((p, e) ∷ t) = elim (destination from to p) [
  | none ↦ (p, e) ∷ kept from to t
  | some q ↦ kept from to t
]

pub moved : (from to : Text) → Table Text SyncEntry → List (Text × SyncEntry)
moved from to [] = []
moved from to ((p, e) ∷ t) = elim (destination from to p) [
  | none ↦ moved from to t
  | some q ↦ (q, e) ∷ moved from to t
]

pub insert_all : List (Text × SyncEntry) → Table Text SyncEntry → Table Text SyncEntry
insert_all [] t = t
insert_all ((p, e) ∷ ms) t = insert_all ms (insert p e t)

abbrev is_nil : List (Text × SyncEntry) → Bool
is_nil [] = true
is_nil (m ∷ ms) = false

pub rename_prefix : SyncManifest → (from to : Text) → SyncManifest × Bool
rename_prefix m from to = (
  record m { entries = insert_all (moved from to m.entries) (kept from to m.entries) },
  not (is_nil (moved from to m.entries)),
)
