-- ===== src/Agent/Session.antt =====
-- `AgentSession` of crates/alloyfs-agent/src/ops.rs: the state of one connection and the requests it
-- answers. Each request is one step on the disk, the exports and the session; those of other
-- connections come in between as other states of the same world. An attached export is its name
-- among the exports, which are fixed at the start. A parked call of `lock` has a ticket. The
-- forwarding task of a subscription and the log messages are left out.
pub mod Token
pub mod Requests
pub mod Changes
pub mod Handler
pub mod Steps
pub mod ReadOnly
pub mod Unchanged
pub mod Gate
pub mod Handles
pub mod Changing
pub mod Granted
pub mod Paging
pub mod Release
pub mod Runs
pub mod Conflict
pub mod Sample
mod Tests
use alloyfs.Base.{
  ℕ, ◌+◌, ◌-◌, ◌%◌, Bool, true, false, Option, none, some, List, [], ◌∷◌, ◌++◌, length,
  if◌then◌else◌, ltb, nat_eq,
}
use alloyfs.Base.Text.{Text, text_eq, text_beq}
use alloyfs.Base.Table.{Table, get, insert, remove}
use alloyfs.Proto.Errors.{
  ErrorCode, Result, ok, err, not_attached, read_only, bad_handle, already_exists, no_such_export,
}
use alloyfs.Proto.Path.{RelPath}
use alloyfs.Proto.Messages.{Response}
use alloyfs.Common.Action.{Action, ◌>>=◌, ◌>>◌, pure, gets, modify, lift, raise_if, or_raise}
use alloyfs.Common.Files.{FileSystem, Io, or_code, attr_from_metadata}
use alloyfs.Agent.Hub.{u64_mod, note_local_write}
use alloyfs.Agent.Versions.{Versions, version_of, bump}
use alloyfs.Agent.Locks.{unlock, release_session}
use alloyfs.Agent.Export.{Export}

module _ (fs : FileSystem) where
  pub record OpenFile : Type 0 where
    pub file : fs.File
    pub path : RelPath
    pub writable : Bool

  -- `SessionInner`; `push` is that the connection can be pushed to, `last_seen` a time.
  pub record Session : Type 0 where
    pub id : ℕ
    pub attached : Option Text
    pub handles : Table ℕ OpenFile
    pub next_fh : ℕ
    pub push : Bool
    pub last_seen : ℕ
    pub required_token : Option Text
    pub authed : Bool

  -- All that a request reads and writes. `woken` are the tickets of parked calls that were woken.
  pub record World : Type 0 where
    pub disk : fs.State
    pub exports : Table Text Export
    pub session : Session
    pub now : ℕ
    pub next_ticket : ℕ
    pub woken : List ℕ

  abbrev pub Act : Type 0 → Type 0
  Act A = Action World A

  -- `AgentSession::with_token`
  pub with_token : ℕ → ℕ → Option Text → Session
  with_token id now token = record {
    id = id;
    attached = none;
    handles = [];
    next_fh = 1;
    push = false;
    last_seen = now;
    required_token = token;
    authed = elim token [ none ↦ true | some _ ↦ false ];
  }

  -- A call that reads the disk, and one that may change it.
  abbrev pub ask : {A : Type 0} → (fs.State → Io A) → Act A
  ask call w = (or_code (call w.disk), w)

  abbrev pub perform : {A : Type 0} → (fs.State → Io A × fs.State) → Act A
  perform call w = let (r, disk') = call w.disk in (or_code r, record w { disk = disk' })

  abbrev pub on_session : (Session → Session) → World → World
  on_session f w = record w { session = f w.session }

  abbrev attached_export : World → Option Export
  attached_export w = elim w.session.attached [ none ↦ none | some name ↦ get name w.exports ]

  -- `SessionInner::export`
  pub export : Act Export
  export = do or_raise (← gets attached_export) not_attached

  pub writable_export : Act Export
  unfolding export
  writable_export = do x ← export; raise_if x.read_only read_only; pure x

  pub handle_of : ℕ → Act OpenFile
  handle_of fh = do or_raise (← gets (λ w. get fh w.session.handles)) bad_handle

  abbrev pub add_handle : OpenFile → Session → Session
  add_handle of s = record s {
    handles = insert s.next_fh of s.handles;
    next_fh = (s.next_fh + 1) % u64_mod;
  }

  pub insert_handle : fs.File → RelPath → Bool → Act ℕ
  insert_handle file path writable = do
    fh ← gets (λ w. w.session.next_fh)
    modify (on_session (add_handle (record { file = file; path = path; writable = writable })))
    pure fh

  -- A change of the attached export.
  abbrev pub put_export : Text → Export → World → World
  put_export name x w = record w { exports = insert name x w.exports }

  abbrev pub on_export : (Export → Export) → World → World
  on_export f w = elim w.session.attached [
    | none ↦ w
    | some name ↦ elim (get name w.exports) [ none ↦ w | some x ↦ put_export name (f x) w ]
  ]

  -- `export.events.note_local_write(path, id)`
  abbrev noted : ℕ → ℕ → RelPath → Export → Export
  noted id now path x = record x { events = note_local_write x.events path id now }

  pub note_write : RelPath → Act (Unit {0})
  note_write path w = (ok tt, on_export (noted w.session.id w.now path) w)

  abbrev with_versions : (Versions → Versions × ℕ) → Export → Export
  with_versions f x = record x { versions = (f x.versions).0 }

  -- A change of the version clock, with the version it returns: `export.bump(path)`.
  pub on_versions : (Versions → Versions × ℕ) → Act ℕ
  on_versions f = do x ← export; modify (on_export (with_versions f)); pure (f x.versions).1

  -- `SessionInner::touch`
  pub touch : World → World
  touch w = on_session (λ s. record s { last_seen = w.now }) w

  abbrev pub without_locks : ℕ → Export → Export × ℕ × List ℕ
  without_locks id x =
      let (locks', released, woken) = release_session id x.locks in
      (record x { locks = locks' }, released, woken)

  abbrev released_export : ℕ → Export → Export
  released_export id x = record x { locks = (release_session id x.locks).0 }

  -- The number of locks of the session that are released, and the tickets that they wake.
  abbrev released_from : ℕ → Option Export → ℕ × List ℕ
  released_from id none = (0, [])
  released_from id (some x) =
      let (m, released, woken) = release_session id x.locks in (released, woken)

  -- `SessionInner::force_release`, with the number of locks and handles that were given up.
  pub force_release : World → World × ℕ
  force_release w =
      let (released, woken) = released_from w.session.id (attached_export w) in
      let w' = on_export (released_export w.session.id) w in
      (
        record w' { session = record w.session { handles = [] }; woken = w.woken ++ woken },
        released + length w.session.handles,
      )

  -- One session in the loop of `spawn_lease_reaper`.
  pub reap : ℕ → World → World
  reap lease w = if ltb lease (w.now - w.session.last_seen) then (force_release w).0 else w

  pub connected : World → World
  connected w = on_session (λ s. record s { push = true }) w

  -- The session leaves the registry, which holds it only for `reap`.
  pub disconnected : World → World
  disconnected w = on_session (λ s. record s { push = false }) (force_release w).0
