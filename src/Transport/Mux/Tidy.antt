-- ===== src/Transport/Mux/Tidy.antt =====
-- An invariant of the connection under any interleaving: who can still have a waiter.
use alloyfs.Base.{
  ℕ, ◌≡◌, refl, Bool, true, false, not, ◌&&◌, Option, none, some, List, [], ◌∷◌, if◌then◌else◌,
  nat_eq, arith,
}
use alloyfs.Base.Table.{get, insert, get-insert, get-remove}
use alloyfs.Proto.Errors.{Result}
use alloyfs.Proto.Messages.{Request, Response}
use alloyfs.Transport.Mux.{
  Mux, Call, Phase, Outcome, inserted, sending, awaiting, finished, closed, timeout, step, run, new,
  enter, insert_waiter, recheck, send, received, resolve, time_out, ping, respond, pong, close,
  clear, finish, enters, inserts, rechecks, sends, resolves, times_out, pings_out, responds, pongs,
  closes, clears,
}

abbrev is_inserted : Option Phase → Bool
is_inserted (some (inserted body)) = true
is_inserted p = false

abbrev pub is_present : {A : Type 0} → Option A → Bool
is_present none = false
is_present (some a) = true

-- A waiter that stands in the table behind the end of the reader has a caller that will still test
-- the flag; a request that was answered has no waiter.
pub record IsTidy (c : Mux) : Type 0 where
  pub ended : c.is_cleared ≡ true → c.is_closed ≡ true
  pub orphan :
      (id : ℕ)
      → c.is_cleared ≡ true
      → is_present (get id c.inflight) ≡ true
      → is_inserted (get id c.callers) ≡ true
  pub once :
      (id : ℕ) → is_present (get id c.answers) ≡ true → is_present (get id c.inflight) ≡ false

finish-IsTidy : (id : ℕ) (o : Outcome) (c : Mux) → IsTidy c → IsTidy (finish id o c)
finish-IsTidy id o c t = record {
  ended = t.ended;
  orphan = λ j e h.
      ground
        (arith, t.orphan j e, get-insert id j (finished o) c.callers, get-remove id j c.inflight);
  once = λ j h. ground (arith, t.once j h, get-remove id j c.inflight);
}

if-IsTidy :
    (b : Bool) (x y : Mux)
    → (b ≡ true → IsTidy x)
    → (b ≡ false → IsTidy y)
    → IsTidy (if b then x else y)
if-IsTidy true x y h k = h refl
if-IsTidy false x y h k = k refl

-- A caller moves on, who has no waiter or stands before the end of the reader.
caller-IsTidy :
    (id : ℕ) (p : Phase) (c : Mux)
    → (c.is_cleared ≡ true → is_present (get id c.inflight) ≡ false)
    → IsTidy c
    → IsTidy (record c { callers = insert id p c.callers })
caller-IsTidy id p c gone t = record {
  ended = t.ended;
  orphan = λ j e h. ground (arith, t.orphan j e h, gone e, get-insert id j p c.callers);
  once = t.once;
}

enter-IsTidy : (body : Request) (c : Mux) → IsTidy c → IsTidy (enter body c)
unfolding enter
enter-IsTidy body c t =
    if-IsTidy c.is_closed _ _ (λ e. t)
      (λ e. record { ended = t.ended; orphan = t.orphan; once = t.once })

insert_waiter-IsTidy : (q : List Request) (c : Mux) → IsTidy c → IsTidy (insert_waiter q c)
unfolding insert_waiter
insert_waiter-IsTidy [] c t = t
insert_waiter-IsTidy (body ∷ rest) c t = record {
  ended = t.ended;
  orphan = λ j e h. ground (
    arith,
    t.orphan j e,
    get-insert c.next_id j (inserted body) c.callers,
    get-insert c.next_id j tt c.inflight,
  );
  once = λ j h.
      ground
        (arith, t.once j, get-remove c.next_id j c.answers, get-insert c.next_id j tt c.inflight);
}

-- The flag is up before the table is cleared, so an open connection has not been cleared.
not_cleared : (c : Mux) → IsTidy c → c.is_closed ≡ false → c.is_cleared ≡ true → ⊥
not_cleared c t e h = ground (arith, t.ended h)

recheck-IsTidy : (id : ℕ) (p : Option Phase) (c : Mux) → IsTidy c → IsTidy (recheck id p c)
unfolding recheck
recheck-IsTidy id none c t = t
recheck-IsTidy id (some (sending body)) c t = t
recheck-IsTidy id (some awaiting) c t = t
recheck-IsTidy id (some (finished o)) c t = t
recheck-IsTidy id (some (inserted body)) c t =
    if-IsTidy c.is_closed _ _ (λ e. finish-IsTidy id closed c t)
      λ e. caller-IsTidy id (sending body) c (λ h. ground (arith, not_cleared c t e h)) t

-- A caller that is behind the second test has no waiter in a cleared table.
pub passed_no_waiter :
    (id : ℕ) (c : Mux)
    → IsTidy c
    → is_inserted (get id c.callers) ≡ false
    → c.is_cleared ≡ true
    → is_present (get id c.inflight) ≡ false
passed_no_waiter id c t e h = ground (arith, t.orphan id h)

pub send-IsTidy :
    (id : ℕ) (b : Bool) (p : Option Phase) (c : Mux)
    → get id c.callers ≡ p
    → IsTidy c
    → IsTidy (send id b p c)
unfolding send
send-IsTidy id true none c e t = t
send-IsTidy id false none c e t = t
send-IsTidy id true (some (inserted body)) c e t = t
send-IsTidy id false (some (inserted body)) c e t = t
send-IsTidy id true (some awaiting) c e t = t
send-IsTidy id false (some awaiting) c e t = t
send-IsTidy id true (some (finished o)) c e t = t
send-IsTidy id false (some (finished o)) c e t = t
send-IsTidy id false (some (sending body)) c e t = finish-IsTidy id closed c t
send-IsTidy id true (some (sending body)) c e t =
    let u = caller-IsTidy id awaiting c (passed_no_waiter id c t (ground (arith, e))) t in
    record { ended = u.ended; orphan = u.orphan; once = u.once }

resolve-IsTidy :
    (id : ℕ) (p : Option Phase) (o : Option Outcome) (c : Mux)
    → get id c.callers ≡ p
    → IsTidy c
    → IsTidy (resolve id p o c)
unfolding resolve
resolve-IsTidy id (some awaiting) (some o) c e t =
    caller-IsTidy id (finished o) c (passed_no_waiter id c t (ground (arith, e))) t
resolve-IsTidy id (some awaiting) none c e t = t
resolve-IsTidy id none o c e t = t
resolve-IsTidy id (some (inserted body)) o c e t = t
resolve-IsTidy id (some (sending body)) o c e t = t
resolve-IsTidy id (some (finished o')) o c e t = t

time_out-IsTidy : (id : ℕ) (p : Option Phase) (c : Mux) → IsTidy c → IsTidy (time_out id p c)
unfolding time_out
time_out-IsTidy id (some awaiting) c t = finish-IsTidy id timeout c t
time_out-IsTidy id none c t = t
time_out-IsTidy id (some (inserted body)) c t = t
time_out-IsTidy id (some (sending body)) c t = t
time_out-IsTidy id (some (finished o)) c t = t

respond-IsTidy :
    (id : ℕ) (body : Result Response) (w : Option (Unit {0})) (c : Mux)
    → IsTidy c
    → IsTidy (respond id body w c)
unfolding respond
respond-IsTidy id body none c t = t
respond-IsTidy id body (some u) c t =
    if-IsTidy c.is_closed _ _ (λ e. t)
      λ e. record {
        ended = t.ended;
        orphan = λ j h p. ground (arith, not_cleared c t e h);
        once = λ j h.
            ground (arith, t.once j, get-remove id j c.inflight, get-insert id j body c.answers);
      }

clear-IsTidy : (c : Mux) → IsTidy c → IsTidy (clear c)
unfolding clear get
clear-IsTidy c t =
    if-IsTidy (c.is_closed && not c.is_cleared) _ _
      (λ e. record {
        ended = λ h. ground arith;
        orphan = λ id h p. ground arith;
        once = λ id h. refl;
      })
      (λ e. t)

step-IsTidy : (c : Mux) (call : Call) → IsTidy c → IsTidy (step c call)
unfolding step ping pong close
step-IsTidy c (enters body) t = enter-IsTidy body c t
step-IsTidy c inserts t = insert_waiter-IsTidy c.checked c t
step-IsTidy c (rechecks id) t = recheck-IsTidy id (get id c.callers) c t
step-IsTidy c (sends id taken) t = send-IsTidy id taken (get id c.callers) c refl t
step-IsTidy c (resolves id) t = resolve-IsTidy id (get id c.callers) (received id c) c refl t
step-IsTidy c (times_out id) t = time_out-IsTidy id (get id c.callers) c t
step-IsTidy c (pings_out taken) t = record { ended = t.ended; orphan = t.orphan; once = t.once }
step-IsTidy c (responds id body) t = respond-IsTidy id body (get id c.inflight) c t
step-IsTidy c (pongs nonce) t =
    if-IsTidy c.is_closed _ _ (λ e. t)
      λ e. record { ended = t.ended; orphan = t.orphan; once = t.once }
step-IsTidy c closes t = record { ended = λ h. refl; orphan = t.orphan; once = t.once }
step-IsTidy c clears t = clear-IsTidy c t

pub run-IsTidy : (c : Mux) (calls : List Call) → IsTidy c → IsTidy (run c calls)
unfolding run
run-IsTidy c [] t = t
run-IsTidy c (call ∷ calls) t = run-IsTidy (step c call) calls (step-IsTidy c call t)

pub new-IsTidy : IsTidy new
unfolding new get
new-IsTidy = record {
  ended = λ h. ground arith;
  orphan = λ id h p. ground arith;
  once = λ id h. refl;
}
