-- ===== src/Client/Remote/Files.antt =====
-- The operations of the mount on open handles, but for `read`: a handle of the overlay goes to the
-- overlay by its number. A wait for a lock is one request, however long it takes.
pub mod Poisoned
pub mod Chunks
pub mod Writing
use alloyfs.Base.{
  ℕ, zero, suc, ◌+◌, ◌-◌, ◌==◌, Bool, true, false, not, ◌&&◌, Option, none, some, List, [], ◌∷◌,
  length, take, drop, if◌then◌else◌, nat_eq,
}
use alloyfs.Base.Text.{Text, text_eq}
use alloyfs.Base.Table.{Table, get, insert, remove}
use alloyfs.Proto.Errors.{ErrorCode, Result, ok, err, io}
use alloyfs.Proto.Path.{RelPath}
use alloyfs.Proto.Messages.{Attr, Bytes, OpenFlags, LockKind, Request, Response, data_chunk}
use alloyfs.Common.Action.{Action}
use alloyfs.Client.Errno.{FsError}
use alloyfs.Client.Effect.{
  FsResult, success, failure, Effect, ◌>>=◌, ◌>>◌, pure, gets, modify, raise, raise_if, or_raise,
}
use alloyfs.Client.Cache.{CacheState}
use alloyfs.Client.Cache
use alloyfs.Client.Local.{LocalTree}
use alloyfs.Client.Overlay.{is_overlay_fh}
use alloyfs.Client.ReadAhead.{clear}
use alloyfs.Client.Remote.{OpenState, RemoteFs, Reply, Outside}
use alloyfs.Client.Remote.Calls.{
  Mount, On, call, send, outcome, expect, ask, cache_attr, on_overlay, path_at, server_fh,
  mark_path_written, as_ok, as_opened, as_written, as_statfs,
}
use alloyfs.Client.Remote.Names.{routed, new_handle, track}

-- `data[pos..(pos + DATA_CHUNK).min(data.len())]`
unfoldable pub chunk_of : Bytes → Bytes
chunk_of rest = take data_chunk rest

module _ (t : LocalTree) (out : Outside) where
  -- Is there a copy that agrees with the attributes?
  abbrev look_up_copy : RelPath → Attr → Option CacheState → Option CacheState × Bool
  look_up_copy path attr none = (none, false)
  look_up_copy path attr (some cache) =
      let (cache', fresh) = Cache.fresh_for cache path attr in (some cache', fresh)

  unfoldable pub has_fresh_copy : RelPath → Attr → On t out Bool
  has_fresh_copy path attr s =
      let (cache, fresh) = look_up_copy path attr s.cache in
      (success fresh, record s { cache = cache })

  unfoldable pub open_file : ℕ → OpenFlags → On t out (ℕ × Attr)
  open_file ino flags = do
    path ← path_at t out ino
    routed t out path (on_overlay t out (t.open_file path flags)) (do
      opened ← ask t out (Request.open_file path flags) as_opened
      cache_attr t out ino opened.1
      fresh ← has_fresh_copy path opened.1
      track t out opened.0 (new_handle t out path flags opened.0 fresh false opened.1)
      pure opened)

  abbrev pub is_poisoned : Option OpenState → Bool
  is_poisoned none = false
  is_poisoned (some state) = state.poisoned

  unfoldable pub check_poisoned : ℕ → On t out (Unit {0})
  check_poisoned fh = do lost ← gets (λ s. is_poisoned (get fh s.open_files)); raise_if lost io

  -- A change of what is remembered of a handle, if it is.
  abbrev pub change_state :
      (OpenState → OpenState) → Option OpenState → ℕ → Mount t out → Mount t out
  change_state f none fh s = s
  change_state f (some state) fh s = record s { open_files = insert fh (f state) s.open_files }

  unfoldable pub update_handle : ℕ → (OpenState → OpenState) → Mount t out → Mount t out
  update_handle fh f s = change_state f (get fh s.open_files) fh s

  -- The blocks at hand are thrown away; the handle, and with it the lock, is kept.
  unfoldable pub invalidate_read_cache : ℕ → Mount t out → Mount t out
  unfolding update_handle
  invalidate_read_cache fh s = update_handle fh (λ state. record state { ra = clear state.ra }) s

  -- The version that a write may overwrite; none where the server is not to check.
  abbrev known_version : Option OpenState → Option ℕ
  known_version none = none
  known_version (some state) = if state.version == 0 then none else some state.version

  unfoldable pub expected_version : ℕ → Mount t out → Option ℕ
  expected_version fh s = if s.detect_conflicts then known_version (get fh s.open_files) else none

  -- With our own write behind it, the version to expect is the new one.
  abbrev pub next_expected : Option ℕ → ℕ → Option ℕ
  next_expected none new_version = none
  next_expected (some v) new_version = some new_version

  -- The chunks from `pos` on, of which `rest` is left. Each turn ends the loop or writes a byte at
  -- least, so that the number of bytes is fuel enough.
  unfoldable pub write_chunks :
      ℕ
      → (fh server : ℕ) (offset pos : ℕ) (rest : Bytes) (expected : Option ℕ) → On t out (Unit {0})
  write_chunks fuel fh server offset pos [] expected = pure tt
  write_chunks zero fh server offset pos (b ∷ bs) expected = pure tt
  write_chunks (suc fuel) fh server offset pos (b ∷ bs) expected = do
    written ←
        ask t out (Request.write server (offset + pos) (chunk_of (b ∷ bs)) expected) as_written
    modify (update_handle fh (λ state. record state { version = written.1 }))
    raise_if (written.0 == 0) io
    write_chunks fuel fh server offset (pos + written.0) (drop written.0 (b ∷ bs))
        (next_expected expected written.1)

  abbrev pub mark_written : Option OpenState → ℕ → Mount t out → Mount t out
  mark_written none fh s = s
  mark_written (some state) fh s =
      mark_path_written t out state.path
        (record s { open_files = insert fh (record state { wrote = true }) s.open_files })

  unfoldable pub note_write : ℕ → Mount t out → Mount t out
  note_write fh s = mark_written (get fh s.open_files) fh s

  unfoldable pub write_remote : (fh offset : ℕ) → Bytes → On t out ℕ
  write_remote fh offset bytes = do
    check_poisoned fh
    server ← gets (λ s. server_fh t out s fh)
    expected ← gets (expected_version fh)
    write_chunks (length bytes) fh server offset 0 bytes expected
    modify (note_write fh)
    pure (length bytes)

  unfoldable pub write : (fh offset : ℕ) → Bytes → On t out ℕ
  write fh offset bytes =
      if is_overlay_fh fh
      then on_overlay t out (t.write fh offset bytes)
      else write_remote fh offset bytes

  -- A wait goes by the keepalive of the connection, and is never sent again.
  unfoldable pub wait_lock : Request → On t out Response
  wait_lock req s = let (reply, s') = send t out s.conn req s in (outcome reply, s')

  unfoldable pub lock_remote : ℕ → LockKind → (wait : Bool) → On t out (Unit {0})
  lock_remote fh kind wait = do
    check_poisoned fh
    server ← gets (λ s. server_fh t out s fh)
    let req = Request.lock server kind wait
    response ← (if wait then wait_lock req else call t out req)
    expect t out as_ok response
    modify (update_handle fh (λ state. record state { lock = some kind }))

  unfoldable pub lock : ℕ → LockKind → (wait : Bool) → On t out (Unit {0})
  lock fh kind wait = if is_overlay_fh fh then pure tt else lock_remote fh kind wait

  unfoldable pub unlock_remote : ℕ → On t out (Unit {0})
  unlock_remote fh = do
    server ← gets (λ s. server_fh t out s fh)
    ask t out (Request.unlock server) as_ok
    modify (update_handle fh (λ state. record state { lock = none }))

  unfoldable pub unlock : ℕ → On t out (Unit {0})
  unlock fh = if is_overlay_fh fh then pure tt else unlock_remote fh

  unfoldable pub flush_remote : ℕ → On t out (Unit {0})
  flush_remote fh = do
    check_poisoned fh
    server ← gets (λ s. server_fh t out s fh)
    ask t out (Request.flush server) as_ok

  unfoldable pub flush : ℕ → On t out (Unit {0})
  flush fh = if is_overlay_fh fh then on_overlay t out (t.flush fh) else flush_remote fh

  -- The handle is forgotten, and its file is queued for a copy if it was written.
  abbrev queue_copy : OpenState → Option CacheState → List RelPath → List RelPath
  queue_copy state none queue = queue
  queue_copy state (some cache) queue = if state.wrote then state.path ∷ queue else queue

  abbrev pub drop_handle : Option OpenState → ℕ → Mount t out → Mount t out
  drop_handle none fh s = s
  drop_handle (some state) fh s = record s {
    open_files = remove fh s.open_files;
    refetches = queue_copy state s.cache s.refetches;
  }

  unfoldable pub forget_handle : ℕ → Mount t out → Mount t out
  forget_handle fh s = drop_handle (get fh s.open_files) fh s

  -- What the call answers is not looked at.
  abbrev pub ignored : {A : Type 0} → FsResult A × Mount t out → FsResult (Unit {0}) × Mount t out
  ignored (r, s) = (success tt, s)

  unfoldable pub release_remote : ℕ → On t out (Unit {0})
  release_remote fh s =
      ignored (call t out (Request.release (server_fh t out s fh)) (forget_handle fh s))

  unfoldable pub release : ℕ → On t out (Unit {0})
  release fh s =
      if is_overlay_fh fh then ignored (on_overlay t out (t.release fh) s) else release_remote fh s

  unfoldable pub statfs : On t out (ℕ × ℕ × ℕ)
  statfs = ask t out Request.statfs as_statfs
