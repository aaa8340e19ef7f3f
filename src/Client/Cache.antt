-- ===== src/Client/Cache.antt =====
-- crates/alloyfs-client/src/autocache.rs: which remote files have a local copy, and the budget of the
-- copies. Sizes are numbers modulo 2 ^ 64, as the source's `u64` wraps; `tick` counts uses and is
-- taken never to wrap. The copies themselves stand in a file system, of which `rename` asks whether a
-- copy could be renamed.
pub mod Accounts
pub mod Calls
pub mod Budget
mod Tests
use alloyfs.Base.{
  ℕ, ◌+◌, ◌-◌, ◌%◌, ◌^◌, max, Bool, true, false, not, ◌&&◌, ◌||◌, Option, none, some, List, [], ◌∷◌,
  ◌++◌, length, ltb, leb, ◌==◌, if◌then◌else◌, is_none,
}
use alloyfs.Base.Text.{Text, text_eq, text_beq, strip_prefix}
use alloyfs.Base.Text.Order.{text_ltb}
use alloyfs.Base.Table.{Table, get, insert, remove}
use alloyfs.Proto.Path.{RelPath, slash}
use alloyfs.Proto.Messages.{Attr, SystemTime, after_epoch, before_epoch}

abbrev pub u64_size : ℕ
u64_size = 2 ^ 64

abbrev pub wrapping_add : ℕ → ℕ → ℕ
wrapping_add a b = (a + b) % u64_size

abbrev pub wrapping_sub : ℕ → ℕ → ℕ
wrapping_sub a b = (a + (u64_size - b)) % u64_size

pub record CacheEntry : Type 0 where
  pub version : ℕ
  pub size : ℕ
  pub mtime_ns : ℕ
  pub pinned : Bool
  pub last_used : ℕ
  pub verified : Bool

pub record CacheState : Type 0 where
  pub entries : Table RelPath CacheEntry
  pub total_bytes : ℕ
  pub tick : ℕ
  pub dirty : Bool

-- `mtime_ns`: a time before the epoch counts as the epoch.
abbrev pub mtime_ns_of : SystemTime → ℕ
mtime_ns_of (after_epoch n) = n
mtime_ns_of (before_epoch n) = 0

-- The freshness rule: size and time agree, and the version does unless a side has none.
abbrev pub is_fresh : Attr → CacheEntry → Bool
is_fresh attr e =
    attr.size == e.size
    && (mtime_ns_of attr.mtime == e.mtime_ns
        && (attr.version == e.version || (attr.version == 0 || e.version == 0)))

pub fresh_for : CacheState → RelPath → Attr → CacheState × Bool
fresh_for st path attr =
    let tick = st.tick + 1 in
    elim (get path st.entries) [
      | none ↦ (record st { tick = tick }, false)
      | some e ↦
          if is_fresh attr e
          then (
            record st {
              entries = insert path (record e { last_used = tick; verified = true }) st.entries;
              tick = tick;
              dirty = true;
            },
            true,
          )
          else (record st { tick = tick }, false)
    ]

pub needs_fetch : CacheState → RelPath → Attr → Bool
needs_fetch st path attr = elim (get path st.entries) [
  | none ↦ true
  | some e ↦ not (is_fresh attr e)
]

pub known : CacheState → RelPath → Bool
known st path = not (is_none (get path st.entries))

-- The order of eviction: by the last use, and at the same use by the path.
abbrev before : RelPath × CacheEntry → RelPath × CacheEntry → Bool
before (p, a) (q, b) = ltb a.last_used b.last_used || (a.last_used == b.last_used && text_ltb p q)

pub insert_victim : RelPath × CacheEntry → List (RelPath × CacheEntry) → List (RelPath × CacheEntry)
insert_victim v [] = v ∷ []
insert_victim v (w ∷ ws) =
    let rest = insert_victim v ws in if before w v then w ∷ rest else v ∷ w ∷ ws

-- The entries that are not pinned, in the order of eviction.
pub victims : Table RelPath CacheEntry → List (RelPath × CacheEntry)
victims [] = []
victims ((p, e) ∷ t) = if e.pinned then victims t else insert_victim (p, e) (victims t)

-- Evicts until `extra` more bytes fit the budget, or no victim is left.
pub evict : (budget extra : ℕ) → List (RelPath × CacheEntry) → CacheState → CacheState
evict budget extra [] st = st
evict budget extra ((p, e) ∷ vs) st =
    let rest = evict budget extra vs (record st {
      entries = remove p st.entries;
      total_bytes = wrapping_sub st.total_bytes e.size;
    }) in
    if leb (wrapping_add st.total_bytes extra) budget then st else rest

abbrev pub forget_entry : RelPath → CacheState → CacheState
forget_entry path st = elim (get path st.entries) [
  | none ↦ st
  | some old ↦ record st {
    entries = remove path st.entries;
    total_bytes = wrapping_sub st.total_bytes old.size;
  }
]

abbrev pub entry_for : Attr → (pinned : Bool) → (tick : ℕ) → CacheEntry
entry_for attr pinned tick = record {
  version = attr.version;
  size = attr.size;
  mtime_ns = mtime_ns_of attr.mtime;
  pinned = pinned;
  last_used = tick;
  verified = true;
}

abbrev pub put_entry : RelPath → CacheEntry → CacheState → CacheState
put_entry path e st = record st {
  entries = insert path e st.entries;
  total_bytes = wrapping_add st.total_bytes e.size;
  dirty = true;
}

pub commit : (budget : ℕ) → CacheState → RelPath → Attr → (pinned : Bool) → CacheState
commit budget st path attr pinned =
    let tick = st.tick + 1 in
    let st' = forget_entry path (record st { tick = tick }) in
    let shrunk = evict budget attr.size (victims st'.entries) st' in
    let over = ltb budget (wrapping_add shrunk.total_bytes attr.size) in
    if leb (wrapping_add st'.total_bytes attr.size) budget
    then put_entry path (entry_for attr pinned tick) st'
    else if over && (not pinned && ltb budget attr.size)
    then shrunk
    else put_entry path (entry_for attr pinned tick) shrunk

pub invalidate : CacheState → RelPath → CacheState
invalidate st path = elim (get path st.entries) [
  | none ↦ st
  | some e ↦ record st {
    entries = remove path st.entries;
    total_bytes = wrapping_sub st.total_bytes e.size;
    dirty = true;
  }
]

-- The new name of a path that a rename of `from` moves.
pub moved_to : (from to path : RelPath) → Option RelPath
moved_to from to path =
    if text_beq path from then some to else elim (strip_prefix (from ++ slash ∷ []) path) [
      | none ↦ none
      | some suffix ↦ some (to ++ slash ∷ suffix)
    ]

-- The renamed entries, one after the other; `renames` says whether the copy could be renamed.
pub move_all :
    (renames : RelPath → RelPath → Bool) → List (RelPath × RelPath) → CacheState → CacheState
move_all renames [] st = st
move_all renames ((old, new) ∷ ms) st = elim (get old st.entries) [
  | none ↦ move_all renames ms st
  | some e ↦
      if renames old new
      then move_all renames ms
          (record st { entries = insert new e (remove old st.entries); dirty = true })
      else move_all renames ms (record st {
        entries = remove old st.entries;
        total_bytes = wrapping_sub st.total_bytes e.size;
        dirty = true;
      })
]

pub affected : (from to : RelPath) → Table RelPath CacheEntry → List (RelPath × RelPath)
affected from to [] = []
affected from to ((p, e) ∷ t) = elim (moved_to from to p) [
  | none ↦ affected from to t
  | some q ↦ (p, q) ∷ affected from to t
]

pub rename : (renames : RelPath → RelPath → Bool) → CacheState → (from to : RelPath) → CacheState
rename renames st from to = move_all renames (affected from to st.entries) st

pub unverify : Table RelPath CacheEntry → Table RelPath CacheEntry
unverify [] = []
unverify ((p, e) ∷ t) = (p, record e { verified = false }) ∷ unverify t

pub mark_all_unverified : CacheState → CacheState
mark_all_unverified st = record st { entries = unverify st.entries }

pub stats : CacheState → ℕ × ℕ
stats st = (length st.entries, st.total_bytes)
