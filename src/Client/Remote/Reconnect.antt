-- ===== src/Client/Remote/Reconnect.antt =====
-- One round of `reconnect_supervisor` of crates/alloyfs-client/src/remote_fs.rs, once a connection is
-- dialled: the handles are opened again, their locks are asked for again, and the connection is put in
-- place of the one that died.
pub mod Locks
pub mod Aliases
use alloyfs.Base.{
  ℕ, zero, suc, ◌+◌, Bool, true, false, Option, none, some, List, [], ◌∷◌, if◌then◌else◌,
}
use alloyfs.Base.Table.{Table}
use alloyfs.Proto.Errors.{Result, ok, err, would_block}
use alloyfs.Proto.Messages.{Request, Response, LockKind}
use alloyfs.Client.Cache.{CacheState, mark_all_unverified}
use alloyfs.Client.ReadAhead.{clear}
use alloyfs.Client.Remote.{OpenState, RemoteFs, Reply, answered, Sent, Outside}

pub data LockAnswer : Type 0 where
  granted again lost : LockAnswer

unfoldable pub lock_answer : Reply → LockAnswer
lock_answer (answered (ok Response.ok)) = granted
lock_answer (answered (err would_block)) = again
lock_answer _ = lost

unfoldable pub opened_fh : Reply → Option ℕ
opened_fh (answered (ok (Response.opened fh attr))) = some fh
opened_fh _ = none

unfoldable pub is_attached : Reply → Bool
is_attached (answered (ok (Response.attach_ok export_id root_attr))) = true
is_attached _ = false

abbrev pub attempts : ℕ
attempts = 4

module _ (out : Outside) (sent : List Sent) (conn : ℕ) where
  -- What is sent so far by the supervisor is passed on.
  abbrev pub ask : List Sent → Request → Reply × List Sent
  ask log req = (out.reply sent log conn req, (conn, req) ∷ log)

  unfoldable pub replay_lock : ℕ → (fh : ℕ) → LockKind → List Sent → Bool × List Sent
  replay_lock zero fh kind log = (false, log)
  replay_lock (suc n) fh kind log =
      let (reply, log') = ask log (Request.lock fh kind false) in
      elim (lock_answer reply) [
        | granted ↦ (true, log')
        | again ↦ replay_lock n fh kind log'
        | lost ↦ (false, log')
      ]

  -- The handle is open again under a new number; its lock is asked for.
  unfoldable pub restore_lock : OpenState → Option LockKind → List Sent → OpenState × List Sent
  restore_lock state none log = (state, log)
  restore_lock state (some kind) log =
      let (held, log') = replay_lock attempts state.server_fh kind log in
      (if held then state else record state { poisoned = true }, log')

  -- The handle could not be opened again.
  unfoldable pub give_up : OpenState → Option LockKind → OpenState
  give_up state none = state
  give_up state (some kind) = record state { poisoned = true }

  unfoldable pub settle_handle : OpenState → Option ℕ → List Sent → OpenState × List Sent
  unfolding restore_lock give_up
  settle_handle state (some fh) log = restore_lock (record state { server_fh = fh }) state.lock log
  settle_handle state none log = (give_up state state.lock, log)

  unfoldable pub reopen : OpenState → List Sent → OpenState × List Sent
  unfolding settle_handle
  reopen state log =
      let (reply, log') = ask log (Request.open_file state.path state.flags) in
      settle_handle (record state { ra = clear state.ra }) (opened_fh reply) log'

  unfoldable pub reopen_all : Table ℕ OpenState → List Sent → Table ℕ OpenState × List Sent
  reopen_all [] log = ([], log)
  reopen_all ((fh, state) ∷ files) log =
      let (state', log') = reopen state log in
      let (files', log'') = reopen_all files log' in ((fh, state') ∷ files', log'')

abbrev unverified : Option CacheState → Option CacheState
unverified none = none
unverified (some cache) = some (mark_all_unverified cache)

module _ (out : Outside) {L : Type 0} where
  -- The swap, once the handles are settled.
  unfoldable pub swap_in : ℕ → RemoteFs L → Table ℕ OpenState × List Sent → RemoteFs L
  swap_in conn s (files, log) = record s {
    conn = conn;
    open_files = files;
    replayed = log;
    attr_cache = [];
    cache = unverified s.cache;
    conn_epoch = s.conn_epoch + 1;
  }

  unfoldable pub reconnect : ℕ → RemoteFs L → RemoteFs L
  reconnect conn s =
      let (reply, log) = ask out s.sent conn s.replayed (Request.attach s.export) in
      if is_attached reply
      then swap_in conn s (reopen_all out s.sent conn s.open_files log)
      else record s { replayed = log }
