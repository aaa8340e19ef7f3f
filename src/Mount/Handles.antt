-- ===== src/Mount/Handles.antt =====
-- The handle cache of crates/alloyfs-mount-kernel/src/server.rs. What the server answers to an `open`
-- is an argument; the handles that are released are returned, in order.
pub mod Locked
pub mod Full
mod Tests
use alloyfs.Base.{
  ℕ, zero, suc, ◌+◌, Bool, true, false, not, ◌&&◌, ◌||◌, Option, none, some, List, [], ◌∷◌, ◌++◌,
  map, length, if◌then◌else◌, ltb, nat_eq,
}
use alloyfs.Base.Table.{Table, get, insert, remove}

abbrev pub handle_cache_cap : ℕ
handle_cache_cap = 64

pub record Handle : Type 0 where
  pub fh : ℕ
  pub write : Bool
  pub used : ℕ
  pub locked : Bool

-- By node id.
pub record HandleCache : Type 0 where
  pub map : Table ℕ Handle
  pub tick : ℕ

abbrev is_locked : Option Handle → Bool
is_locked none = false
is_locked (some h) = h.locked

abbrev replaced : Option Handle → List ℕ
replaced none = []
replaced (some old) = old.fh ∷ []

abbrev older : ℕ × Handle → Option (ℕ × Handle) → ℕ × Handle
older (id, h) none = (id, h)
older (id, h) (some (j, g)) = if ltb g.used h.used then (j, g) else (id, h)

-- `iter().filter(|h| !h.locked).min_by_key(|h| h.used)`
unfoldable pub victim : Table ℕ Handle → Option (ℕ × Handle)
victim [] = none
victim ((id, h) ∷ t) = if h.locked then victim t else some (older (id, h) (victim t))

-- The loop of `install_handle`, each turn of which removes an entry.
unfoldable pub evict : ℕ → Table ℕ Handle → Table ℕ Handle × List ℕ
evict zero t = (t, [])
evict (suc fuel) t =
    if ltb handle_cache_cap (length t)
    then elim (victim t) [
      | none ↦ (t, [])
      | some (id, h) ↦ let (t', stale) = evict fuel (remove id t) in (t', h.fh ∷ stale)
    ]
    else (t, [])

unfoldable pub install_handle : ℕ → ℕ → Bool → HandleCache → HandleCache × List ℕ
install_handle nodeid fh write c =
    let h : Handle = record {
      fh = fh;
      write = write;
      used = c.tick + 1;
      locked = is_locked (get nodeid c.map);
    } in
    let t = insert nodeid h c.map in
    let (t', stale) = evict (length t) t in
    (record { map = t'; tick = c.tick + 1 }, replaced (get nodeid c.map) ++ stale)

abbrev touched : HandleCache → HandleCache
touched c = record c { tick = c.tick + 1 }

-- The handle that is good enough, marked as used.
pub cached : ℕ → Bool → Option Handle → HandleCache → Option (ℕ × HandleCache)
cached nodeid want_write none c = none
cached nodeid want_write (some h) c =
    if h.write || not want_write
    then some (h.fh, record c { map = insert nodeid (record h { used = c.tick }) c.map })
    else none

-- `handle_for`, with the handle that the server opens if it does.
pub handle_for : ℕ → Bool → Option ℕ → HandleCache → Option ℕ × HandleCache × List ℕ
handle_for nodeid want_write opened c =
    elim (cached nodeid want_write (get nodeid c.map) (touched c)) [
      | some (fh, c') ↦ (some fh, c', [])
      | none ↦ elim opened [
        | none ↦ (none, touched c, [])
        | some fh ↦
            let (c', stale) = install_handle nodeid fh want_write (touched c) in
            (some fh, c', stale)
      ]
    ]

pub drop_handle : ℕ → HandleCache → HandleCache × List ℕ
drop_handle nodeid c = (record c { map = remove nodeid c.map }, replaced (get nodeid c.map))

pub mark_locked : ℕ → Bool → HandleCache → HandleCache
mark_locked nodeid locked c = elim (get nodeid c.map) [
  | none ↦ c
  | some h ↦ record c { map = insert nodeid (record h { locked = locked }) c.map }
]

pub close_handles : HandleCache → HandleCache × List ℕ
close_handles c = (record c { map = [] }, map (λ e. e.1.fh) c.map)
