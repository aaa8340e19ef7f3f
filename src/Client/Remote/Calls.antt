-- ===== src/Client/Remote/Calls.antt =====
-- One request of the mount: `call`, and the caches beside it.
pub mod Log
use alloyfs.Base.{
  ℕ, ◌+◌, ◌-◌, ◌==◌, ltb, Bool, true, false, not, ◌&&◌, Option, none, some, List, [], ◌∷◌,
  if◌then◌else◌, nat_eq,
}
use alloyfs.Base.Text.{Text, text_eq, text_beq}
use alloyfs.Base.Table.{Table, get, insert, remove}
use alloyfs.Proto.Errors.{ErrorCode, Result, ok, err, io, not_found, version_mismatch}
use alloyfs.Proto.Path.{RelPath}
use alloyfs.Proto.Messages.{Attr, Request, Response}
use alloyfs.Common.Action.{Action}
use alloyfs.Client.Errno.{FsError, remote, transport}
use alloyfs.Client.Effect.{
  FsResult, success, failure, from_code, Effect, ◌>>=◌, ◌>>◌, pure, gets, modify, raise, raise_if,
  or_raise,
}
use alloyfs.Client.Cache.{CacheState}
use alloyfs.Client.Cache
use alloyfs.Client.Inodes.{get_or_alloc, path_of}
use alloyfs.Client.Local.{LocalTree}
use alloyfs.Client.ReadAhead.{clear}
use alloyfs.Client.Remote.{
  OpenState, RemoteFs, Reply, answered, closed, broken, Sent, Outside, attr_ttl,
}
use alloyfs.Client.Remote.Reconnect.{reconnect}

-- What may be sent again: it changes nothing on the server.
unfoldable pub is_retryable : Request → Bool
is_retryable (Request.getattr path) = true
is_retryable (Request.readdir path cursor) = true
is_retryable (Request.read fh offset len) = true
is_retryable Request.statfs = true
is_retryable _ = false

abbrev pub is_closed_reply : Reply → Bool
is_closed_reply closed = true
is_closed_reply _ = false

-- `??`
abbrev pub outcome : Reply → FsResult Response
outcome (answered r) = from_code r
outcome closed = failure transport
outcome broken = failure transport

module _ (t : LocalTree) (out : Outside) where
  abbrev pub Mount : Type 0
  Mount = RemoteFs t.State

  abbrev pub On : Type 0 → Type 0
  On A = Effect Mount A

  abbrev pub log_sent : ℕ → Request → Mount → Mount
  log_sent conn req s = record s { sent = (conn, req) ∷ s.sent }

  -- What the supervisor did while the mount waited.
  unfoldable pub resume : Option ℕ → Mount → Mount
  resume none s = s
  resume (some conn) s = reconnect out conn s

  abbrev pub meanwhile : Mount → Mount
  meanwhile s = resume (out.redialled s.sent s.replayed) s

  unfoldable pub send : ℕ → Request → Mount → Reply × Mount
  unfolding resume
  send conn req s = (out.reply s.sent s.replayed conn req, meanwhile (log_sent conn req s))

  -- Once more, if another connection that is open has taken the place of the one that died.
  unfoldable pub retry : ℕ → Request → On Response
  unfolding send
  retry conn req s =
      let (again, s') = send s.conn req s in
      if not (s.conn == conn) && not (out.is_closed s.sent s.conn)
      then (outcome again, s')
      else (failure transport, s)

  unfoldable pub call : Request → On Response
  unfolding send retry
  call req s =
      let (first, s') = send s.conn req s in
      if is_retryable req && is_closed_reply first then retry s.conn req s' else (outcome first, s')

  -- `expect_resp!`
  abbrev pub expect : {A : Type 0} → (Response → Option A) → Response → On A
  expect f response = or_raise (f response) io

  unfoldable pub ask : {A : Type 0} → Request → (Response → Option A) → On A
  unfolding call
  ask req f = do response ← call req; expect f response

  abbrev pub cache_attr : ℕ → Attr → On (Unit {0})
  cache_attr ino attr =
      modify (λ s. record s { attr_cache = insert ino (attr, s.now) s.attr_cache })

  unfoldable pub invalidate_attr : ℕ → Mount → Mount
  invalidate_attr ino s = record s { attr_cache = remove ino s.attr_cache }

  unfoldable pub invalidate_all : Mount → Mount
  invalidate_all s = record s { attr_cache = [] }

  unfoldable pub cached_attr : ℕ → Mount → Option Attr
  cached_attr ino s = elim (get ino s.attr_cache) [
    | none ↦ none
    | some (attr, when) ↦ if ltb (s.now - when) attr_ttl then some attr else none
  ]

  unfoldable pub is_overlay : Mount → RelPath → Bool
  is_overlay s path = elim s.overlay [ none ↦ false | some o ↦ t.excluded path ]

  -- A call of the overlay; without one, nothing is routed to it.
  abbrev pub run_local : {A : Type 0} → Result A × t.State → Mount → FsResult A × Mount
  run_local (r, o) s = (from_code r, record s { overlay = some o })

  abbrev pub local_of : {A : Type 0} → Option t.State → Action t.State A → On A
  local_of none f s = (failure (remote io), s)
  local_of (some o) f s = run_local (f o) s

  unfoldable pub on_overlay : {A : Type 0} → Action t.State A → On A
  on_overlay f s = local_of s.overlay f s

  unfoldable pub path_at : ℕ → On RelPath
  path_at ino = do found ← gets (λ s. path_of s.ino ino); or_raise found not_found

  unfoldable pub alloc : RelPath → On ℕ
  alloc path s = let (ino, n) = get_or_alloc s.ino path in (success n, record s { ino = ino })

  abbrev pub fh_in : Option OpenState → ℕ → ℕ
  fh_in none fh = fh
  fh_in (some state) fh = state.server_fh

  unfoldable pub server_fh : Mount → ℕ → ℕ
  server_fh s fh = fh_in (get fh s.open_files) fh

  abbrev pub on_cache : (CacheState → CacheState) → Option CacheState → Option CacheState
  on_cache f none = none
  on_cache f (some cache) = some (f cache)

  -- The fast paths of every handle of the path.
  unfoldable pub without_fast_path : RelPath → Table ℕ OpenState → Table ℕ OpenState
  without_fast_path path [] = []
  without_fast_path path ((fh, state) ∷ files) =
      (
        fh,
        if text_beq state.path path
            then record state { cache_ok = false; ra = clear state.ra }
            else state,
      )
      ∷ without_fast_path path files

  unfoldable pub mark_path_written : RelPath → Mount → Mount
  mark_path_written path s = record s {
    open_files = without_fast_path path s.open_files;
    cache = on_cache (λ c. Cache.invalidate c path) s.cache;
  }

  unfoldable pub require_proto : ℕ → On (Unit {0})
  require_proto need = do
    have ← gets (λ s. out.proto s.conn)
    raise_if (ltb have need) version_mismatch

-- What the answers are expected to be.
abbrev pub as_attr : Response → Option Attr
as_attr (Response.attr a) = some a
as_attr _ = none

abbrev pub as_opened : Response → Option (ℕ × Attr)
as_opened (Response.opened fh a) = some (fh, a)
as_opened _ = none

abbrev pub as_ok : Response → Option (Unit {0})
as_ok Response.ok = some tt
as_ok _ = none

abbrev pub as_target : Response → Option Text
as_target (Response.target x) = some x
as_target _ = none

abbrev pub as_written : Response → Option (ℕ × ℕ)
as_written (Response.written n new_version conflict) = some (n, new_version)
as_written _ = none

abbrev pub as_statfs : Response → Option (ℕ × ℕ × ℕ)
as_statfs (Response.statfs block_size blocks blocks_free) = some (block_size, blocks, blocks_free)
as_statfs _ = none
