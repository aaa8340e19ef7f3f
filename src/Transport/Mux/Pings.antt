-- ===== src/Transport/Mux/Pings.antt =====
-- A ping that goes out behind the end of the reader.
use alloyfs.Base.{
  ℕ, ◌≡◌, refl, Bool, true, false, not, ◌&&◌, Option, none, some, List, [], ◌∷◌, if◌then◌else◌,
  nat_eq, arith,
}
use alloyfs.Base.Table.{get, get-insert, get-insert_self}
use alloyfs.Proto.Errors.{Result}
use alloyfs.Proto.Messages.{Request, Response}
use alloyfs.Transport.Mux.{
  Mux, Call, Phase, Outcome, inserted, sending, awaiting, finished, step, run, enter, insert_waiter,
  recheck, send, received, resolve, time_out, ping, respond, pong, close, clear, enters, inserts,
  rechecks, sends, resolves, times_out, pings_out, responds, pongs, closes, clears,
}

-- The connection has ended, and a ping waits.
pub record IsLate (nonce : ℕ) (c : Mux) : Type 0 where
  pub ended : c.is_closed ≡ true
  pub cleared : c.is_cleared ≡ true
  pub waits : get nonce c.pings ≡ some tt

module _ (n : ℕ) where
  if-IsLate : (b : Bool) (x y : Mux) → IsLate n x → IsLate n y → IsLate n (if b then x else y)
  if-IsLate true x y h k = h
  if-IsLate false x y h k = k

  -- A change of what the invariant does not read.
  moved-IsLate :
      (c d : Mux)
      → IsLate n c
      → d.is_closed ≡ c.is_closed
      → d.is_cleared ≡ c.is_cleared
      → d.pings ≡ c.pings
      → IsLate n d
  moved-IsLate c d t e e' p = record {
    ended = ground (arith, t.ended);
    cleared = ground (arith, t.cleared);
    waits = rw p t.waits;
  }

  recheck-IsLate : (id : ℕ) (p : Option Phase) (c : Mux) → IsLate n c → IsLate n (recheck id p c)
  unfolding recheck
  recheck-IsLate id none c t = t
  recheck-IsLate id (some (sending body)) c t = t
  recheck-IsLate id (some awaiting) c t = t
  recheck-IsLate id (some (finished o)) c t = t
  recheck-IsLate id (some (inserted body)) c t =
      if-IsLate c.is_closed _ _ (moved-IsLate c _ t refl refl refl)
        (moved-IsLate c _ t refl refl refl)

  send-IsLate :
      (id : ℕ) (b : Bool) (p : Option Phase) (c : Mux) → IsLate n c → IsLate n (send id b p c)
  unfolding send
  send-IsLate id true (some (sending body)) c t = moved-IsLate c _ t refl refl refl
  send-IsLate id false (some (sending body)) c t = moved-IsLate c _ t refl refl refl
  send-IsLate id true p c t = t
  send-IsLate id false p c t = t

  resolve-IsLate :
      (id : ℕ) (p : Option Phase) (o : Option Outcome) (c : Mux)
      → IsLate n c
      → IsLate n (resolve id p o c)
  unfolding resolve
  resolve-IsLate id (some awaiting) (some o) c t = moved-IsLate c _ t refl refl refl
  resolve-IsLate id p o c t = t

  time_out-IsLate : (id : ℕ) (p : Option Phase) (c : Mux) → IsLate n c → IsLate n (time_out id p c)
  unfolding time_out
  time_out-IsLate id (some awaiting) c t = moved-IsLate c _ t refl refl refl
  time_out-IsLate id p c t = t

  insert_waiter-IsLate : (q : List Request) (c : Mux) → IsLate n c → IsLate n (insert_waiter q c)
  unfolding insert_waiter
  insert_waiter-IsLate [] c t = t
  insert_waiter-IsLate (body ∷ rest) c t = moved-IsLate c _ t refl refl refl

  respond-IsLate :
      (id : ℕ) (body : Result Response) (w : Option (Unit {0})) (c : Mux)
      → IsLate n c
      → IsLate n (respond id body w c)
  unfolding respond
  respond-IsLate id body none c t = t
  respond-IsLate id body (some u) c t =
      if-IsLate c.is_closed _ _ t (moved-IsLate c _ t refl refl refl)

  ping-IsLate : (b : Bool) (c : Mux) → IsLate n c → IsLate n (ping b c)
  unfolding ping
  ping-IsLate true c t = record {
    ended = t.ended;
    cleared = t.cleared;
    waits = ground (arith, t.waits, get-insert c.next_id n tt c.pings);
  }
  ping-IsLate false c t = moved-IsLate c _ t refl refl refl

  if_false : (b : Bool) (x y : Mux) → b ≡ false → IsLate n y → IsLate n (if b then x else y)
  if_false true x y e t = ground arith
  if_false false x y e t = t

  if_true : (b : Bool) (x y : Mux) → b ≡ true → IsLate n x → IsLate n (if b then x else y)
  if_true true x y e t = t
  if_true false x y e t = ground arith

  step-IsLate : (c : Mux) (call : Call) → IsLate n c → IsLate n (step c call)
  unfolding step enter pong close clear
  step-IsLate c (enters body) t = if_true c.is_closed _ _ t.ended t
  step-IsLate c inserts t = insert_waiter-IsLate c.checked c t
  step-IsLate c (rechecks id) t = recheck-IsLate id (get id c.callers) c t
  step-IsLate c (sends id taken) t = send-IsLate id taken (get id c.callers) c t
  step-IsLate c (resolves id) t = resolve-IsLate id (get id c.callers) (received id c) c t
  step-IsLate c (times_out id) t = time_out-IsLate id (get id c.callers) c t
  step-IsLate c (pings_out taken) t = ping-IsLate taken c t
  step-IsLate c (responds id body) t = respond-IsLate id body (get id c.inflight) c t
  step-IsLate c (pongs nonce) t = if_true c.is_closed _ _ t.ended t
  step-IsLate c closes t = record { ended = refl; cleared = t.cleared; waits = t.waits }
  step-IsLate c clears t =
      if_false (c.is_closed && not c.is_cleared) _ _ (ground (arith, t.ended, t.cleared)) t

  run-IsLate : (c : Mux) (calls : List Call) → IsLate n c → IsLate n (run c calls)
  unfolding run
  run-IsLate c [] t = t
  run-IsLate c (call ∷ calls) t = run-IsLate (step c call) calls (step-IsLate c call t)

-- A ping that the writer takes when the reader has ended and cleared its tables is never answered and
-- never dropped, whatever happens after it: its waiter stays in the table for good.
pub late_ping_waits :
    (c : Mux) (calls : List Call)
    → c.is_closed ≡ true
    → c.is_cleared ≡ true
    → get c.next_id (run (step c (pings_out true)) calls).pings ≡ some tt
unfolding step ping
late_ping_waits c calls e e' =
    (run-IsLate c.next_id _ calls
      (record { ended = e; cleared = e'; waits = get-insert_self c.next_id tt c.pings })).waits
