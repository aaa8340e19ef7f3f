-- ===== src/Agent/Session/Handler.antt =====
-- `handle` of `AgentSession`: the token gate, the requests answered in the async context, and the
-- routing of the others.
use alloyfs.Base.{ℕ, ◌+◌, Bool, true, false, not, Option, none, some, List, [], ◌∷◌, nat_eq}
use alloyfs.Base.Text.{Text, text_eq}
use alloyfs.Proto.Errors.{Result, ok, err, permission_denied, auth_required, would_block, io}
use alloyfs.Proto.Path.{RelPath}
use alloyfs.Proto.Messages.{Request, Response, LockKind}
use alloyfs.Common.Action.{◌>>=◌, ◌>>◌, pure, gets, modify, lift, raise_if}
use alloyfs.Common.Exclude.{Globset}
use alloyfs.Common.Files.{FileSystem}
use alloyfs.Agent.Locks.{Attempt, taken, parked, attempt}
use alloyfs.Agent.Hub.{subscribe}
use alloyfs.Agent.Export.{Export}
use alloyfs.Agent.Session.{World, Act, on_session, on_export, export, handle_of, touch}
use alloyfs.Agent.Session.Token.{token_eq}
use alloyfs.Agent.Session.Requests.{
  attach, getattr, readdir, open_file, read, readlink, unlock_handle, release, statfs,
  mount_defaults,
}
use alloyfs.Agent.Session.Changes.{
  create, write, setattr, mkdir, unlink, rmdir, rename, link, symlink,
}

-- What a request comes to: its answer, or a call of `lock` that waits under its ticket.
pub data Reply : Type 0 where
  answered : Result Response → Reply
  waits : (ticket : ℕ) → Reply

module _ (fs : FileSystem) (lib : Globset) where
  -- `subscribe`: the catch-up batch is pushed by the forwarding task, which is not followed here.
  unfoldable pub subscribe_events : Option ℕ → Act fs Response
  subscribe_events since_seq = do
    x ← export fs
    pushes ← gets (λ w. w.session.push)
    raise_if (not pushes) io
    lift (subscribe x.events since_seq)
    pure (Response.subscribed x.events.seq)

  abbrev locked : ℕ → ℕ → LockKind → Bool → ℕ → RelPath → Export → Export
  locked id fh kind wait ticket path x = record x {
    locks = (attempt x.locks path id fh kind wait ticket).0;
  }

  abbrev attempt_of : ℕ → ℕ → LockKind → Bool → ℕ → RelPath → Export → Attempt
  attempt_of id fh kind wait ticket path x = (attempt x.locks path id fh kind wait ticket).1

  abbrev reply_of : Attempt → ℕ → Reply
  reply_of taken ticket = answered (ok Response.ok)
  reply_of parked ticket = waits ticket
  reply_of Attempt.would_block ticket = answered (err would_block)

  -- One pass of the loop of `lock` for a handle, at the request and after each wake-up.
  unfoldable pub lock_pass : RelPath → ℕ → LockKind → Bool → Act fs Reply
  lock_pass path fh kind wait = do
    x ← export fs
    id ← gets (λ w. w.session.id)
    ticket ← gets (λ w. w.next_ticket)
    modify (on_export fs (locked id fh kind wait ticket path))
    modify (λ w. record w { next_ticket = w.next_ticket + 1 })
    pure (reply_of (attempt_of id fh kind wait ticket path x) ticket)

  unfoldable pub lock : ℕ → LockKind → Bool → Act fs Reply
  lock fh kind wait = do export fs; h ← handle_of fs fh; lock_pass h.path fh kind wait

  unfoldable pub unlock_request : ℕ → Act fs Response
  unlock_request fh = do
    export fs
    h ← handle_of fs fh
    modify (unlock_handle fs lib fh h.path)
    pure Response.ok

  unfoldable pub dispatch_blocking : Request → Act fs Response
  dispatch_blocking (Request.attach name) = attach fs lib name
  dispatch_blocking (Request.getattr path) = getattr fs lib path
  dispatch_blocking (Request.readdir path cursor) = readdir fs lib path cursor
  dispatch_blocking (Request.open_file path flags) = open_file fs lib path flags
  dispatch_blocking (Request.create path flags mode) = create fs lib path flags mode
  dispatch_blocking (Request.read fh offset len) = read fs lib fh offset len
  dispatch_blocking (Request.write fh offset bytes expect_version) =
      write fs lib fh offset bytes expect_version
  dispatch_blocking (Request.flush fh) = pure Response.ok
  dispatch_blocking (Request.release fh) = release fs lib fh
  dispatch_blocking (Request.setattr path size mtime mode) = setattr fs lib path size mtime mode
  dispatch_blocking (Request.mkdir path mode) = mkdir fs lib path mode
  dispatch_blocking (Request.unlink path) = unlink fs lib path
  dispatch_blocking (Request.rmdir path) = rmdir fs lib path
  dispatch_blocking (Request.rename from to replace) = rename fs lib from to replace
  dispatch_blocking (Request.link target path) = link fs lib target path
  dispatch_blocking (Request.symlink target path) = symlink fs lib target path
  dispatch_blocking (Request.read_link path) = readlink fs lib path
  dispatch_blocking Request.statfs = statfs fs lib
  dispatch_blocking Request.mount_defaults = mount_defaults fs lib
  dispatch_blocking (Request.lock fh kind wait) = lift (err io)
  dispatch_blocking (Request.unlock fh) = lift (err io)
  dispatch_blocking (Request.subscribe since_seq) = lift (err io)
  dispatch_blocking (Request.auth token) = lift (err io)

  -- The answers of the code: an error is an answer too.
  abbrev pub answer : Act fs Response → World fs → Reply × World fs
  answer m w = let (r, w') = m w in (answered r, w')

  abbrev pub reply : Act fs Reply → World fs → Reply × World fs
  reply m w = let (r, w') = m w in (elim r [ ok a ↦ a | err e ↦ answered (err e) ], w')

  abbrev pub authed : World fs → World fs
  authed w = on_session fs (λ s. record s { authed = true }) w

  abbrev pub admitted : Bool → World fs → Reply × World fs
  admitted true w = (answered (ok Response.ok), authed w)
  admitted false w = (answered (err permission_denied), w)

  -- A token against the one that is required.
  abbrev pub present : Option Text → Text → World fs → Reply × World fs
  present none token w = (answered (ok Response.ok), w)
  present (some expected) token w = admitted (token_eq token expected) w

  unfoldable pub auth : Text → World fs → Reply × World fs
  auth token w = present w.session.required_token token w

  -- The requests behind the gate.
  unfoldable pub route : Request → World fs → Reply × World fs
  route (Request.subscribe since_seq) w = answer (subscribe_events since_seq) w
  route (Request.lock fh kind wait) w = reply (lock fh kind wait) w
  route (Request.unlock fh) w = answer (unlock_request fh) w
  route req w = answer (dispatch_blocking req) w

  abbrev pub gated : Bool → Request → World fs → Reply × World fs
  gated true req w = route req w
  gated false req w = (answered (err auth_required), w)

  unfoldable pub handle : Request → World fs → Reply × World fs
  handle (Request.auth token) w = auth token (touch fs w)
  handle req w = gated w.session.authed req (touch fs w)

  -- A sequence of requests of one connection, with the answers in order.
  unfoldable pub handle_all : List Request → World fs → List Reply × World fs
  handle_all [] w = ([], w)
  handle_all (req ∷ reqs) w =
      let (r, w') = handle req w in let (rs, w'') = handle_all reqs w' in (r ∷ rs, w'')
