-- ===== src/Client/Remote/Routed/Supervisor.antt =====
-- What a call, and a reconnection during it, send.
use alloyfs.Base.{
  ℕ, zero, suc, Bool, true, false, not, ◌&&◌, Option, none, some, List, [], ◌∷◌, All, inl, inr,
  ◌==◌, if◌then◌else◌, Bool-cases,
}
use alloyfs.Base.Table.{Table}
use alloyfs.Base.Table.Values.{AllValues}
use alloyfs.Proto.Messages.{Request, Response, LockKind}
use alloyfs.Client.Effect.{Keeps, Keeps-bind, Keeps-or_raise}
use alloyfs.Client.Local.{LocalTree}
use alloyfs.Client.Remote.{OpenState, Sent, Outside}
use alloyfs.Client.Remote.Reconnect.{
  lock_answer, is_attached, attempts, replay_lock, restore_lock, give_up, settle_handle, reopen,
  reopen_all, swap_in, reconnect,
}
use alloyfs.Client.Remote.Reconnect.Locks.{LockAnswer-cases}
use alloyfs.Client.Remote.Calls.{
  Mount, ask, call, send, retry, resume, log_sent, is_retryable, is_closed_reply,
}
use alloyfs.Client.Remote.Routed.{IsClean, IsSentClean, OpensOutside, IsRouted}

module _ (t : LocalTree) (overlaid : Bool) (out : Outside) where
  abbrev Clean : List Sent → Type 0
  Clean log = All (IsSentClean t overlaid) log

  module _ (sent : List Sent) (conn : ℕ) where
    replay_lock-Clean :
        (n fh : ℕ) (kind : LockKind) (log : List Sent)
        → Clean log
        → Clean (replay_lock out sent conn n fh kind log).1
    unfolding replay_lock
    replay_lock-Clean zero fh kind log h = h
    replay_lock-Clean (suc n) fh kind log h =
        let reply = out.reply sent log conn (Request.lock fh kind false) in
        elim (LockAnswer-cases (lock_answer reply)) [
          | inl held ↦ rw (held, replay_lock) (tt, h)
          | inr (inl later) ↦
              rw (later, replay_lock)
                (replay_lock-Clean n fh kind ((conn, Request.lock fh kind false) ∷ log) (tt, h))
          | inr (inr gone) ↦ rw (gone, replay_lock) (tt, h)
        ]

    -- What is left of one handle: outside, and the log clean.
    abbrev Settled : OpenState × List Sent → Type 0
    Settled (state, log) = OpensOutside t overlaid state × Clean log

    poisoned_outside :
        (held : Bool) (state : OpenState)
        → OpensOutside t overlaid state
        → OpensOutside t overlaid (if held then state else record state { poisoned = true })
    poisoned_outside true state h = h
    poisoned_outside false state h = h

    restore_lock-Settled :
        (state : OpenState) (lock : Option LockKind) (log : List Sent)
        → OpensOutside t overlaid state
        → Clean log
        → Settled (restore_lock out sent conn state lock log)
    unfolding restore_lock
    restore_lock-Settled state none log o h = (o, h)
    restore_lock-Settled state (some kind) log o h = (
      poisoned_outside (replay_lock out sent conn attempts state.server_fh kind log).0 state o,
      replay_lock-Clean attempts state.server_fh kind log h,
    )

    give_up_outside :
        (state : OpenState) (lock : Option LockKind)
        → OpensOutside t overlaid state
        → OpensOutside t overlaid (give_up out sent conn state lock)
    unfolding give_up
    give_up_outside state none o = o
    give_up_outside state (some kind) o = o

    settle_handle-Settled :
        (state : OpenState) (fh : Option ℕ) (log : List Sent)
        → OpensOutside t overlaid state
        → Clean log
        → Settled (settle_handle out sent conn state fh log)
    unfolding settle_handle
    settle_handle-Settled state none log o h = (give_up_outside state state.lock o, h)
    settle_handle-Settled state (some fh) log o h =
        restore_lock-Settled (record state { server_fh = fh }) state.lock log o h

    reopen_all-Settled :
        (files : Table ℕ OpenState) (log : List Sent)
        → AllValues (OpensOutside t overlaid) files
        → Clean log
        → AllValues (OpensOutside t overlaid) (reopen_all out sent conn files log).0
          × Clean (reopen_all out sent conn files log).1
    unfolding reopen_all reopen
    reopen_all-Settled [] log o h = (tt, h)
    reopen_all-Settled ((fh, state) ∷ files) log o h =
        let settled =
          settle_handle-Settled _ _ ((conn, Request.open_file state.path state.flags) ∷ log) o.0
            (o.0, h) in
        let others = reopen_all-Settled files _ o.1 settled.1 in ((settled.0, others.0), others.1)

  abbrev pub Routed : Mount t out → Type 0
  Routed = IsRouted t overlaid

  pub reconnect-IsRouted : (conn : ℕ) (s : Mount t out) → Routed s → Routed (reconnect out conn s)
  unfolding reconnect swap_in
  reconnect-IsRouted conn s r =
      let attach = Request.attach s.export in
      elim (Bool-cases (is_attached (out.reply s.sent s.replayed conn attach))) [
        | inl attached ↦
            let settled =
              reopen_all-Settled s.sent conn s.open_files ((conn, attach) ∷ s.replayed) r.files
                (tt, r.replayed) in
            rw (attached, reconnect)
              (record { same = r.same; sent = r.sent; replayed = settled.1; files = settled.0 })
        | inr refused ↦
            rw (refused, reconnect)
              (record {
                same = r.same;
                sent = r.sent;
                replayed = (tt, r.replayed);
                files = r.files;
              })
      ]

  resume-IsRouted : (o : Option ℕ) (s : Mount t out) → Routed s → Routed (resume t out o s)
  unfolding resume
  resume-IsRouted none s r = r
  resume-IsRouted (some conn) s r = reconnect-IsRouted conn s r

  pub send-IsRouted :
      (conn : ℕ) (req : Request) (s : Mount t out)
      → IsClean t overlaid req
      → Routed s
      → Routed (send t out conn req s).1
  unfolding send
  send-IsRouted conn req s c r =
      resume-IsRouted (out.redialled ((conn, req) ∷ s.sent) s.replayed) (log_sent t out conn req s)
        (record { same = r.same; sent = (c, r.sent); replayed = r.replayed; files = r.files })

  retry-IsRouted :
      (conn : ℕ) (req : Request) → IsClean t overlaid req → Keeps Routed (retry t out conn req)
  unfolding retry
  retry-IsRouted conn req c s r =
      elim (Bool-cases (not (s.conn == conn) && not (out.is_closed s.sent s.conn))) [
        | inl swapped ↦ rw (swapped, retry) (send-IsRouted s.conn req s c r)
        | inr same ↦ rw (same, retry) r
      ]

  pub call-IsRouted : (req : Request) → IsClean t overlaid req → Keeps Routed (call t out req)
  unfolding call
  call-IsRouted req c s r =
      let first = out.reply s.sent s.replayed s.conn req in
      elim (Bool-cases (is_retryable req && is_closed_reply first)) [
        | inl lost ↦
            rw (lost, call)
              (retry-IsRouted s.conn req c (send t out s.conn req s).1
                (send-IsRouted s.conn req s c r))
        | inr settled ↦ rw (settled, call) (send-IsRouted s.conn req s c r)
      ]

  pub ask-IsRouted :
      {A : Type 0} (req : Request) (f : Response → Option A)
      → IsClean t overlaid req
      → Keeps Routed (ask t out req f)
  unfolding ask
  ask-IsRouted req f c =
      Keeps-bind Routed _ _ (call-IsRouted req c) λ response. Keeps-or_raise Routed (f response) _
