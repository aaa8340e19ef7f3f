-- ===== src/Mount/Readdir.antt =====
-- The paging of a listing by `op_readdir` of crates/alloyfs-mount-kernel/src/server.rs. The listing is
-- an argument; `none` is the error EINVAL.
pub mod Pages
mod Tests
use alloyfs.Base.{
  ℕ, ◌+◌, ◌-◌, Bool, true, false, Option, none, some, List, [], ◌∷◌, ◌++◌, drop, min, if◌then◌else◌,
}
use alloyfs.Proto.Messages.{Bytes}
use alloyfs.Mount.Abi.{push_dirent, max_payload}
use alloyfs.Mount.Abi.Words.{ByteOrder}

abbrev pub dots : ℕ
dots = 2

abbrev pub dt_dir : ℕ
dt_dir = 4

abbrev pub dt_reg : ℕ
dt_reg = 8

pub record Entry : Type 0 where
  pub name : Bytes
  pub nodeid : ℕ
  pub isdir : Bool

abbrev pub type_of : Entry → ℕ
type_of e = if e.isdir then dt_dir else dt_reg

-- What a reply that is full, or a first entry that does not fit, ends in.
abbrev pub stop : Bytes → Option Bytes
stop [] = none
stop (b ∷ out) = some (b ∷ out)

-- The loop, from the entry with the index on.
unfoldable pub fill : ByteOrder → (limit index : ℕ) → List Entry → Bytes → Option Bytes
fill o limit i [] out = some out
fill o limit i (e ∷ es) out =
    let (out', pushed) = push_dirent o out limit e.nodeid (i + dots + 1) (type_of e) e.name in
    let rest = fill o limit (i + 1) es out' in if pushed then rest else stop out

unfoldable pub op_readdir : ByteOrder → List Entry → (offset size : ℕ) → Option Bytes
op_readdir o entries offset size =
    fill o (min size max_payload) (offset - dots) (drop (offset - dots) entries) []
