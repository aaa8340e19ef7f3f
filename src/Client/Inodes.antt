-- ===== src/Client/Inodes.antt =====
-- crates/alloyfs-client/src/inode.rs: inode numbers and paths, each found by the other. A step is one
-- call, as no two calls of the model run at once.
pub mod Pairing
mod Tests
use alloyfs.Base.{
  ℕ, ◌+◌, ◌%◌, ◌^◌, Bool, true, false, Option, none, some, List, [], ◌∷◌, ◌++◌, ◌==◌, nat_eq,
  if◌then◌else◌,
}
use alloyfs.Base.Text.{Text, text_eq, text_beq, strip_prefix}
use alloyfs.Base.Table.{Table, get, insert, remove}
use alloyfs.Proto.Path.{RelPath, slash}

abbrev pub root_ino : ℕ
root_ino = 1

abbrev pub ino_mod : ℕ
ino_mod = 2 ^ 64

pub record InodeTable : Type 0 where
  pub by_ino : Table ℕ RelPath
  pub by_path : Table RelPath ℕ
  pub next : ℕ

pub new_table : InodeTable
new_table = record {
  by_ino = (root_ino, []) ∷ [];
  by_path = ([], root_ino) ∷ [];
  next = root_ino + 1;
}

pub get_or_alloc : InodeTable → RelPath → InodeTable × ℕ
get_or_alloc t path = elim (get path t.by_path) [
  | some ino ↦ (t, ino)
  | none ↦ (
    record {
      by_ino = insert t.next path t.by_ino;
      by_path = insert path t.next t.by_path;
      next = (t.next + 1) % ino_mod;
    },
    t.next,
  )
]

unfoldable pub path_of : InodeTable → ℕ → Option RelPath
path_of t ino = get ino t.by_ino

unfoldable pub ino_of : InodeTable → RelPath → Option ℕ
ino_of t path = get path t.by_path

-- The new path of an inode that a rename moves.
pub retarget : (from to path : RelPath) → Option RelPath
retarget from to path =
    if text_beq path from then some to else elim (strip_prefix (from ++ slash ∷ []) path) [
      | none ↦ none
      | some suffix ↦ some (to ++ slash ∷ suffix)
    ]

pub affected : (from to : RelPath) → Table ℕ RelPath → List (ℕ × RelPath)
affected from to [] = []
affected from to ((ino, path) ∷ t) = elim (retarget from to path) [
  | none ↦ affected from to t
  | some new_path ↦ (ino, new_path) ∷ affected from to t
]

-- One turn of the second loop of `rename`.
pub retarget_one : ℕ → RelPath → InodeTable → InodeTable
retarget_one ino new_path t =
    let by_path : Table RelPath ℕ = elim (get ino t.by_ino) [
      | none ↦ t.by_path
      | some old_path ↦ remove old_path t.by_path
    ] in
    record t {
      by_ino = insert ino new_path (remove ino t.by_ino);
      by_path = insert new_path ino by_path;
    }

pub retarget_all : List (ℕ × RelPath) → InodeTable → InodeTable
retarget_all [] t = t
retarget_all ((ino, new_path) ∷ ms) t = retarget_all ms (retarget_one ino new_path t)

pub rename : InodeTable → (from to : RelPath) → InodeTable
rename t from to = retarget_all (affected from to t.by_ino) t

pub forget : InodeTable → ℕ → InodeTable
forget t ino = if ino == root_ino then t else elim (get ino t.by_ino) [
  | none ↦ t
  | some path ↦ record t { by_ino = remove ino t.by_ino; by_path = remove path t.by_path }
]
