-- ===== src/Client/ReadAhead.antt =====
-- crates/alloyfs-client/src/readahead.rs: sequential readahead for one open remote handle. A fetch in
-- flight is its outcome: the bytes of the block, or none where it failed. The counters of the read
-- path are left out.
pub mod Window
pub mod Blocks
mod Tests
use alloyfs.Base.{
  ℕ, zero, suc, ◌+◌, ◌-◌, ◌*◌, ◌/◌, ◌^◌, min, max, Bool, true, false, ◌&&◌, Option, none, some,
  List, [], ◌∷◌, ◌++◌, length, any, leb, ◌==◌, if◌then◌else◌, nat_eq,
}
use alloyfs.Base.Table.{Table, get, insert, remove}
use alloyfs.Proto.Messages.{Bytes, data_chunk}

abbrev pub window_blocks : ℕ
window_blocks = 32

abbrev pub min_streak : ℕ
min_streak = 2

abbrev pub retain_blocks : ℕ
retain_blocks = 4

abbrev pub Task : Type 0
Task = Option Bytes

pub record ReadAhead : Type 0 where
  pub window : Table ℕ Task
  pub recent : List (ℕ × Bytes)
  pub expected_next : ℕ
  pub streak : ℕ

pub new_readahead : ReadAhead
new_readahead = record { window = []; recent = []; expected_next = 0; streak = 0 }

unfoldable pub clear : ReadAhead → ReadAhead
clear ra = record ra { window = []; recent = [] }

abbrev pub block_of : ℕ → ℕ
block_of offset = offset / data_chunk

-- `saturating_add(1)` of a `u32`.
abbrev longer : ℕ → ℕ
longer streak = min (streak + 1) (2 ^ 32 - 1)

abbrev pub is_near : ℕ → ℕ → Bool
is_near offset expected_next =
    leb (block_of expected_next - window_blocks) (block_of offset)
    && leb (block_of offset) (block_of expected_next + window_blocks)

-- Also says whether the caller is to top up the window.
unfoldable pub observe : ReadAhead → (offset size : ℕ) → ReadAhead × Bool
unfolding clear
observe ra offset size =
    let streak = longer ra.streak in
    if offset == ra.expected_next
    then (record ra { streak = streak; expected_next = offset + size }, leb min_streak streak)
    else if is_near offset ra.expected_next
    then (
      record ra { streak = streak; expected_next = max ra.expected_next (offset + size) },
      leb min_streak streak,
    )
    else (
      record (clear ra) { streak = if offset == 0 then 1 else 0; expected_next = offset + size },
      false,
    )

unfoldable pub take_task : ReadAhead → ℕ → Option Task × ReadAhead
take_task ra block = (get block ra.window, record ra { window = remove block ra.window })

unfoldable pub find_block : ℕ → List (ℕ × Bytes) → Option Bytes
find_block block [] = none
find_block block ((b, bytes) ∷ rest) = if b == block then some bytes else find_block block rest

unfoldable pub retained : ReadAhead → ℕ → Option Bytes
retained ra block = find_block block ra.recent

unfoldable pub replace_block : ℕ → Bytes → List (ℕ × Bytes) → List (ℕ × Bytes)
replace_block block bytes [] = []
replace_block block bytes ((b, old) ∷ rest) =
    let others = replace_block block bytes rest in
    if b == block then (b, bytes) ∷ rest else (b, old) ∷ others

-- The oldest block makes room: `remove(0)` and `push`.
unfoldable pub push_recent : ℕ × Bytes → List (ℕ × Bytes) → List (ℕ × Bytes)
push_recent entry [] = entry ∷ []
push_recent entry (oldest ∷ rest) =
    if length (oldest ∷ rest) == retain_blocks
    then rest ++ entry ∷ []
    else (oldest ∷ rest) ++ entry ∷ []

unfoldable pub retain_block : ReadAhead → ℕ → Bytes → ReadAhead
retain_block ra block bytes = elim (find_block block ra.recent) [
  | some old ↦ record ra { recent = replace_block block bytes ra.recent }
  | none ↦ record ra { recent = push_recent (block, bytes) ra.recent }
]

-- Of `count` blocks from `block` on, those that are not in flight.
unfoldable pub absent : (count block : ℕ) → Table ℕ Task → List ℕ
absent zero block window = []
absent (suc count) block window =
    let rest = absent count (block + 1) window in
    elim (get block window) [ none ↦ block ∷ rest | some task ↦ rest ]

abbrev pub u64_max : ℕ
u64_max = 2 ^ 64 - 1

unfoldable pub missing : ReadAhead → (from_block max_block_exclusive : ℕ) → List ℕ
unfolding absent
missing ra from_block max_block_exclusive =
    absent (min (min (from_block + window_blocks) u64_max) max_block_exclusive - from_block)
      from_block ra.window

unfoldable pub put : ReadAhead → ℕ → Task → ReadAhead
put ra block task = record ra { window = insert block task ra.window }
