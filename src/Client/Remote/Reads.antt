-- ===== src/Client/Remote/Reads.antt =====
-- `RemoteFs::read` of crates/alloyfs-client/src/remote_fs.rs: from a copy, from blocks that are held,
-- and from blocks that are fetched. The fetches of one read stand one behind the other; the blocks are
-- retained in the order of their numbers, the order of a hash map in the source.
pub mod Fetched
pub mod Exact
use alloyfs.Base.{
  ℕ, zero, suc, ◌+◌, ◌-◌, ◌*◌, ◌==◌, min, max, ltb, Bool, true, false, Option, none, some, List, [],
  ◌∷◌, ◌++◌, length, if◌then◌else◌, nat_eq,
}
use alloyfs.Base.Table.{Table, get, insert}
use alloyfs.Proto.Errors.{Result, ok, err, io}
use alloyfs.Proto.Path.{RelPath}
use alloyfs.Proto.Messages.{Bytes, Request, Response, data_chunk}
use alloyfs.Client.Effect.{
  FsResult, success, failure, from_code, Effect, ◌>>=◌, ◌>>◌, pure, gets, modify, or_raise,
}
use alloyfs.Client.Cache.{CacheState}
use alloyfs.Client.Local.{LocalTree}
use alloyfs.Client.Overlay.{is_overlay_fh}
use alloyfs.Client.ReadAhead.{
  ReadAhead, Task, new_readahead, block_of, u64_max, observe, take_task, retained, retain_block,
  missing, put,
}
use alloyfs.Client.ReadAhead.Blocks.{assemble, slice}
use alloyfs.Client.Remote.{OpenState, RemoteFs, Reply, answered, Outside}
use alloyfs.Client.Remote.Calls.{Mount, On, send, outcome, expect, on_overlay}
use alloyfs.Client.Remote.Files.{check_poisoned, update_handle}

abbrev pub as_bytes : Response → Option Bytes
as_bytes (Response.bytes b) = some b
as_bytes _ = none

-- None where the fetch failed.
unfoldable pub fetched : Reply → Option Bytes
fetched (answered (ok r)) = as_bytes r
fetched _ = none

-- The blocks that were fetched, beside those at hand; one that failed fails the read.
unfoldable pub all_ready : List (ℕ × Option Bytes) → Table ℕ Bytes → Result (Table ℕ Bytes)
all_ready [] ready = ok ready
all_ready ((b, none) ∷ rest) ready = err io
all_ready ((b, some bytes) ∷ rest) ready = all_ready rest (insert b bytes ready)

unfoldable pub retain_all : Table ℕ Bytes → ReadAhead → ReadAhead
retain_all [] ra = ra
retain_all ((b, bytes) ∷ ready) ra = retain_all ready (retain_block ra b bytes)

-- Where a read begins and ends, in blocks.
abbrev pub first_block : ℕ → ℕ
first_block offset = block_of offset

abbrev pub last_block : (offset size : ℕ) → ℕ
last_block offset size = block_of (offset + max size 1 - 1)

abbrev pub block_count : (offset size : ℕ) → ℕ
block_count offset size = last_block offset size + 1 - first_block offset

-- The ranges of `read_blocks_direct`, with the size as fuel.
unfoldable pub direct_chunks : ℕ → (pos end : ℕ) → List (ℕ × ℕ)
direct_chunks zero pos end = []
direct_chunks (suc fuel) pos end =
    let want = min (end - pos) data_chunk in
    let rest = direct_chunks fuel (pos + want) end in if ltb pos end then (pos, want) ∷ rest else []

-- The bytes of the answers in order; a short one is the end of the file.
unfoldable pub join_chunks : List (ℕ × FsResult Response) → Bytes → Effect (Unit {0}) Bytes
join_chunks [] acc = pure acc
join_chunks ((want, r) ∷ rest) acc = do
  response ← (λ s. (r, s))
  chunk ← or_raise (as_bytes response) io
  if ltb (length chunk) want then pure (acc ++ chunk) else join_chunks rest (acc ++ chunk)

module _ (t : LocalTree) (out : Outside) where
  abbrev ra_in : Option OpenState → ReadAhead
  ra_in none = new_readahead
  ra_in (some state) = state.ra

  abbrev pub ra_of : ℕ → Mount t out → ReadAhead
  ra_of fh s = ra_in (get fh s.open_files)

  abbrev pub set_ra : ReadAhead → OpenState → OpenState
  set_ra ra state = record state { ra = ra }

  abbrev pub put_ra : ℕ → ReadAhead → Mount t out → Mount t out
  put_ra fh ra s = update_handle t out fh (set_ra ra) s

  unfoldable pub fetch_block : (conn server block : ℕ) → On t out (Option Bytes)
  fetch_block conn server block s =
      let (reply, s') = send t out conn (Request.read server (block * data_chunk) data_chunk) s in
      (success (fetched reply), s')

  -- The window is topped up, each block over the connection of the moment.
  unfoldable pub prefetch : (fh server : ℕ) → List ℕ → On t out (Unit {0})
  prefetch fh server [] = pure tt
  prefetch fh server (b ∷ bs) = do
    conn ← gets (λ s. s.conn)
    task ← fetch_block conn server b
    modify (λ s. put_ra fh (put (ra_of fh s) b task) s)
    prefetch fh server bs

  -- A block that is at hand: retained, or fetched before; the fetch is taken out of the window.
  abbrev landed : Option Task → Option Bytes
  landed none = none
  landed (some task) = task

  abbrev pub pick : Option Bytes → ReadAhead → ℕ → Option Bytes × ReadAhead
  pick (some bytes) ra b = (some bytes, ra)
  pick none ra b = let (task, ra') = take_task ra b in (landed task, ra')

  abbrev pub sort_out : Option Bytes → ℕ → Table ℕ Bytes × List ℕ → Table ℕ Bytes × List ℕ
  sort_out (some bytes) b (ready, need) = (insert b bytes ready, need)
  sort_out none b (ready, need) = (ready, need ++ b ∷ [])

  -- The blocks at hand, and the numbers of those that are not, of `count` blocks from `b` on.
  unfoldable pub collect :
      (fh count b : ℕ) → Table ℕ Bytes × List ℕ → On t out (Table ℕ Bytes × List ℕ)
  collect fh zero b found = pure found
  collect fh (suc count) b found = do
    picked ← gets (λ s. pick (retained (ra_of fh s) b) (ra_of fh s) b)
    modify (put_ra fh picked.1)
    collect fh count (b + 1) (sort_out picked.0 b found)

  unfoldable pub fetch_all : (conn server : ℕ) → List ℕ → On t out (List (ℕ × Option Bytes))
  fetch_all conn server [] = pure []
  fetch_all conn server (b ∷ bs) = do
    bytes ← fetch_block conn server b
    rest ← fetch_all conn server bs
    pure ((b, bytes) ∷ rest)

  abbrev pub lift : {A : Type 0} → Result A → On t out A
  lift r s = (from_code r, s)

  -- From the blocks of the handle, with the number that the server's session has for it.
  unfoldable pub read_blocks : (fh server offset size : ℕ) → On t out Bytes
  read_blocks fh server offset size = do
    let first = first_block offset
    found ← collect fh (block_count offset size) first ([], [])
    conn ← gets (λ s. s.conn)
    fetches ← fetch_all conn server found.1
    ready ← lift (all_ready fetches found.0)
    assembled ← lift (assemble data_chunk ready (block_count offset size) first [])
    modify (λ s. put_ra fh (retain_all ready (ra_of fh s)) s)
    pure (slice data_chunk (offset - first * data_chunk) size assembled)

  -- The window goes from the block behind the read.
  abbrev to_prefetch : Bool → ReadAhead → ℕ → List ℕ
  to_prefetch false ra from_block = []
  to_prefetch true ra from_block = missing ra from_block u64_max

  unfoldable pub read_tracked : (fh server offset size : ℕ) → On t out Bytes
  read_tracked fh server offset size = do
    seen ← gets (λ s. observe (ra_of fh s) offset size)
    modify (put_ra fh seen.0)
    prefetch fh server (to_prefetch seen.1 seen.0 (last_block offset size + 1))
    read_blocks fh server offset size

  unfoldable pub send_chunks :
      (conn fh : ℕ) → List (ℕ × ℕ) → On t out (List (ℕ × FsResult Response))
  send_chunks conn fh [] = pure []
  send_chunks conn fh ((pos, want) ∷ chunks) = do
    reply ←
        (λ s. let (reply, s') = send t out conn (Request.read fh pos want) s in (success reply, s'))
    rest ← send_chunks conn fh chunks
    pure ((want, outcome reply) ∷ rest)

  abbrev joined : List (ℕ × FsResult Response) → On t out Bytes
  joined answers s = ((join_chunks answers [] tt).0, s)

  unfoldable pub read_blocks_direct : (fh offset size : ℕ) → On t out Bytes
  read_blocks_direct fh offset size = do
    conn ← gets (λ s. s.conn)
    answers ← send_chunks conn fh (direct_chunks size offset (offset + size))
    joined answers

  -- The copy of the file, where the handle may be served from one.
  abbrev pub copy_of : Option CacheState → Option OpenState → (offset size : ℕ) → Option Bytes
  copy_of none state offset size = none
  copy_of (some cache) none offset size = none
  copy_of (some cache) (some state) offset size =
      if state.cache_ok then out.read_copy state.path offset size else none

  -- A copy that is gone is not asked for again.
  abbrev pub drop_copy : Option CacheState → OpenState → OpenState
  drop_copy none state = state
  drop_copy (some cache) state = record state { cache_ok = false }

  abbrev pub past_copy : Option OpenState → (fh offset size : ℕ) → On t out Bytes
  past_copy none fh offset size = read_blocks_direct fh offset size
  past_copy (some state) fh offset size = do
    modify (λ s. update_handle t out fh (drop_copy s.cache) s)
    read_tracked fh state.server_fh offset size

  abbrev pub from_copy : Option Bytes → Option OpenState → (fh offset size : ℕ) → On t out Bytes
  from_copy (some bytes) state fh offset size = pure bytes
  from_copy none state fh offset size = past_copy state fh offset size

  unfoldable pub read_remote : (fh offset size : ℕ) → On t out Bytes
  read_remote fh offset size = do
    check_poisoned t out fh
    state ← gets (λ s. get fh s.open_files)
    cache ← gets (λ s. s.cache)
    from_copy (copy_of cache state offset size) state fh offset size

  unfoldable pub read : (fh offset size : ℕ) → On t out Bytes
  read fh offset size =
      if is_overlay_fh fh
      then on_overlay t out (t.read fh offset size)
      else read_remote fh offset size
