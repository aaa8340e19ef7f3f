-- ===== src/Client/Remote/Calls/Log.antt =====
-- What one call sends.
use alloyfs.Base.{
  ℕ, ◌≡◌, ◌≢◌, refl, ap, ◌∙◌, true, not, ◌&&◌, Option, none, some, ◌∷◌, ◌⊎◌, inl, inr, arith, ◌==◌,
  ==_iff, Bool-cases,
}
use alloyfs.Proto.Messages.{Request}
use alloyfs.Client.Local.{LocalTree}
use alloyfs.Client.Remote.{Reply, closed, Outside}
use alloyfs.Client.Remote.Reconnect.{reconnect, swap_in, is_attached}
use alloyfs.Client.Remote.Calls.{
  Mount, call, send, retry, resume, log_sent, is_retryable, is_closed_reply,
}

is_closed_reply_lem : (r : Reply) → is_closed_reply r ≡ true → r ≡ closed
is_closed_reply_lem closed h = refl
is_closed_reply_lem _ h = ground arith

-- A request that changes nothing on the server.
abbrev pub AsksOnly : Request → Type 0
AsksOnly (Request.getattr path) = Unit
AsksOnly (Request.readdir path cursor) = Unit
AsksOnly (Request.read fh offset len) = Unit
AsksOnly Request.statfs = Unit
AsksOnly _ = ⊥

retryable-AsksOnly : (req : Request) → is_retryable req ≡ true → AsksOnly req
unfolding is_retryable
retryable-AsksOnly (Request.getattr path) h = tt
retryable-AsksOnly (Request.readdir path cursor) h = tt
retryable-AsksOnly (Request.read fh offset len) h = tt
retryable-AsksOnly Request.statfs h = tt
retryable-AsksOnly _ h = ground arith

module _ (t : LocalTree) (out : Outside) where
  reconnect-sent : (conn : ℕ) (s : Mount t out) → (reconnect out conn s).sent ≡ s.sent
  unfolding reconnect swap_in
  reconnect-sent conn s =
      elim (Bool-cases (is_attached (out.reply s.sent s.replayed conn (Request.attach s.export)))) [
        | inl attached ↦ rw (attached, reconnect) refl
        | inr refused ↦ rw (refused, reconnect) refl
      ]

  resume-sent : (o : Option ℕ) (s : Mount t out) → (resume t out o s).sent ≡ s.sent
  unfolding resume
  resume-sent none s = refl
  resume-sent (some conn) s = reconnect-sent conn s

  pub send-sent :
      (conn : ℕ) (req : Request) (s : Mount t out)
      → (send t out conn req s).1.sent ≡ (conn, req) ∷ s.sent
  unfolding send
  send-sent conn req s =
      resume-sent (out.redialled ((conn, req) ∷ s.sent) s.replayed) (log_sent t out conn req s)

  -- The request was sent over the connection of the call, which turned out to be closed, and once more
  -- over another.
  abbrev pub SentAgain : Request → Mount t out → Mount t out → Type 0
  SentAgain req s s' =
      AsksOnly req
      × (out.reply s.sent s.replayed s.conn req ≡ closed)
      × ((conn : ℕ) × (conn ≢ s.conn) × (s'.sent ≡ (conn, req) ∷ (s.conn, req) ∷ s.sent))

  retry-sent :
      (req : Request) (s s1 : Mount t out)
      → is_retryable req ≡ true
      → out.reply s.sent s.replayed s.conn req ≡ closed
      → s1.sent ≡ (s.conn, req) ∷ s.sent
      → ((retry t out s.conn req s1).1.sent ≡ (s.conn, req) ∷ s.sent)
        ⊎ SentAgain req s (retry t out s.conn req s1).1
  unfolding retry
  retry-sent req s s1 may lost e =
      elim (Bool-cases (not (s1.conn == s.conn) && not (out.is_closed s1.sent s1.conn))) [
        | inl swapped ↦
            rw (swapped, retry)
              (inr (
                retryable-AsksOnly req may,
                lost,
                (
                  s1.conn,
                  (λ same. ground (arith, ==_iff s1.conn s.conn)),
                  send-sent s1.conn req s1 ∙ ap (◌∷◌ (s1.conn, req)) e,
                ),
              ))
        | inr same ↦ rw (same, retry) (inl e)
      ]

  -- A call sends its request over the connection of the moment, once. It is sent again only if it asks
  -- for attributes, a listing, bytes or the statistics, the connection turned out to be closed, and
  -- another one had taken its place: then once more over that one. So no call
  -- sends a request that changes anything on the server more than once. What the supervisor opens and
  -- locks again at a reconnection is apart from this log.
  pub call_sent_once :
      (req : Request) (s : Mount t out)
      → ((call t out req s).1.sent ≡ (s.conn, req) ∷ s.sent) ⊎ SentAgain req s (call t out req s).1
  unfolding call
  call_sent_once req s =
      let first = out.reply s.sent s.replayed s.conn req in
      elim (Bool-cases (is_retryable req && is_closed_reply first)) [
        | inl lost ↦
            rw (lost, call)
              (retry-sent req s (send t out s.conn req s).1 (ground (arith, lost))
                (is_closed_reply_lem first (ground (arith, lost))) (send-sent s.conn req s))
        | inr settled ↦ rw (settled, call) (inl (send-sent s.conn req s))
      ]
