-- ===== src/Transport/Mux/Teardown.antt =====
-- No caller is left waiting when the connection has ended.
use alloyfs.Base.{
  ℕ, ◌≡◌, refl, ap, ◌∙◌, inl, inr, Bool, true, false, none, some, List, [], ◌∷◌, if◌then◌else◌,
  nat_eq, arith, Option-cases,
}
use alloyfs.Base.Table.{get, get-insert_self}
use alloyfs.Proto.Errors.{Result}
use alloyfs.Proto.Messages.{Request, Response}
use alloyfs.Transport.Mux.{
  Mux, Call, Phase, Outcome, inserted, sending, awaiting, finished, answered, closed, step, run,
  new, recheck, send, received, resolve, respond, finish, rechecks, sends, resolves, responds,
}
use alloyfs.Transport.Mux.Tidy.{
  IsTidy, is_present, passed_no_waiter, send-IsTidy, run-IsTidy, new-IsTidy,
}

-- What a caller comes to.
abbrev pub Ends : ℕ → Mux → Type 0
Ends id c = (o : Outcome) × (get id c.callers ≡ some (finished o))

received-cleared :
    (id : ℕ) (c : Mux)
    → is_present (get id c.inflight) ≡ false
    → (o : Outcome) × (received id c ≡ some o)
unfolding received
received-cleared id c e = elim (Option-cases (get id c.answers)) [
  | inr (body, a) ↦ (answered body, rw (a, received) refl)
  | inl a ↦ (closed, ground (arith, a, e))
]

awaiting-Ends :
    (id : ℕ) (c : Mux)
    → IsTidy c
    → c.is_cleared ≡ true
    → get id c.callers ≡ some awaiting
    → Ends id (step c (resolves id))
unfolding step resolve
awaiting-Ends id c t e w =
    let (o, r) = received-cleared id c (passed_no_waiter id c t (ground (arith, w)) e) in
    rw (w, r) (o, get-insert_self id (finished o) c.callers)

recheck_at :
    (id : ℕ) (p : Phase) (c : Mux)
    → get id c.callers ≡ some p
    → step c (rechecks id) ≡ recheck id (some p) c
unfolding step
recheck_at id p c e = ap (λ q. recheck id q c) e

send_at :
    (id : ℕ) (taken : Bool) (p : Phase) (c : Mux)
    → get id c.callers ≡ some p
    → step c (sends id taken) ≡ send id taken (some p) c
unfolding step
send_at id taken p c e = ap (λ q. send id taken q c) e

resolve_at :
    (id : ℕ) (p : Phase) (c : Mux)
    → get id c.callers ≡ some p
    → step c (resolves id) ≡ resolve id (some p) (received id c) c
unfolding step
resolve_at id p c e = ap (λ q. resolve id q (received id c) c) e

finished-Ends :
    (id : ℕ) (o : Outcome) (c : Mux)
    → get id c.callers ≡ some (finished o)
    → Ends id (step c (resolves id))
unfolding resolve
finished-Ends id o c e = rw (resolve_at id (finished o) c e) (o, e)

sending-Ends :
    (id : ℕ) (taken : Bool) (body : Request) (c : Mux)
    → IsTidy c
    → c.is_cleared ≡ true
    → get id c.callers ≡ some (sending body)
    → Ends id (step (step c (sends id taken)) (resolves id))
unfolding send
sending-Ends id true body c t e w = rw (send_at id true (sending body) c w) (
    awaiting-Ends id _ (send-IsTidy id true (some (sending body)) c w t) e
      (get-insert_self id awaiting c.callers))
sending-Ends id false body c t e w =
    rw (send_at id false (sending body) c w) (
      finished-Ends id closed (finish id closed c) (get-insert_self id (finished closed) c.callers))

sent-Ends :
    (id : ℕ) (taken : Bool) (o : Outcome) (c : Mux)
    → get id c.callers ≡ some (finished o)
    → Ends id (step (step c (sends id taken)) (resolves id))
unfolding send
sent-Ends id true o c e = rw (send_at id true (finished o) c e) (finished-Ends id o c e)
sent-Ends id false o c e = rw (send_at id false (finished o) c e) (finished-Ends id o c e)

waited-Ends :
    (id : ℕ) (taken : Bool) (c : Mux)
    → IsTidy c
    → c.is_cleared ≡ true
    → get id c.callers ≡ some awaiting
    → Ends id (step (step c (sends id taken)) (resolves id))
unfolding send
waited-Ends id true c t e w = rw (send_at id true awaiting c w) (awaiting-Ends id c t e w)
waited-Ends id false c t e w = rw (send_at id false awaiting c w) (awaiting-Ends id c t e w)

if_true : (b : Bool) (x y : Mux) → b ≡ true → (if b then x else y) ≡ x
if_true true x y e = refl
if_true false x y e = ground arith

recheck_closed :
    (id : ℕ) (body : Request) (c : Mux)
    → c.is_closed ≡ true
    → recheck id (some (inserted body)) c ≡ finish id closed c
unfolding recheck
recheck_closed id body c e = if_true c.is_closed _ _ e

phase-Ends :
    (id : ℕ) (taken : Bool) (p : Phase) (c : Mux)
    → IsTidy c
    → c.is_cleared ≡ true
    → get id c.callers ≡ some p
    → Ends id (step (step (step c (rechecks id)) (sends id taken)) (resolves id))
unfolding recheck
phase-Ends id taken (finished o) c t e w =
    rw (recheck_at id (finished o) c w) (sent-Ends id taken o c w)
phase-Ends id taken awaiting c t e w =
    rw (recheck_at id awaiting c w) (waited-Ends id taken c t e w)
phase-Ends id taken (sending body) c t e w =
    rw (recheck_at id (sending body) c w) (sending-Ends id taken body c t e w)
phase-Ends id taken (inserted body) c t e w =
    rw (recheck_at id (inserted body) c w ∙ recheck_closed id body c (t.ended e)) (
      sent-Ends id taken closed (finish id closed c)
        (get-insert_self id (finished closed) c.callers))

-- Whatever the interleaving: when the reader has ended and cleared its tables, every request that has
-- an id ends with its own next steps, the test behind the insertion, the sending, taken or not, and
-- the wait on its channel. None is left waiting.
pub run-Ends :
    (calls : List Call) (id : ℕ) (p : Phase) (taken : Bool)
    → (run new calls).is_cleared ≡ true
    → get id (run new calls).callers ≡ some p
    → Ends id (run (run new calls) (rechecks id ∷ sends id taken ∷ resolves id ∷ []))
unfolding run
run-Ends calls id p taken e w =
    phase-Ends id taken p (run new calls) (run-IsTidy new calls new-IsTidy) e w

-- A request that has its answer has no waiter any more, so that no other answer is handed to it.
pub run-once :
    (calls : List Call) (id : ℕ) (first second : Result Response)
    → get id (run new calls).answers ≡ some first
    → get id (run (run new calls) (responds id second ∷ [])).answers ≡ some first
unfolding run step respond
run-once calls id first second e =
    let c = run new calls in
    let gone : get id c.inflight ≡ none =
      ground (arith, (run-IsTidy new calls new-IsTidy).once id, e) in
    rw gone e
