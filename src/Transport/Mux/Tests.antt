-- ===== src/Transport/Mux/Tests.antt =====
-- Small interleavings of a connection.
use alloyfs.Base.{◌≡◌, refl, true, some, List, [], ◌∷◌, nat_eq}
use alloyfs.Base.Table.{get, insert, remove}
use alloyfs.Proto.Errors.{ok}
use alloyfs.Proto.Messages.{Request, Response}
use alloyfs.Transport.Mux.{
  Mux, Call, awaiting, finished, closed, answered, step, run, new, enter, insert_waiter, recheck,
  send, received, resolve, respond, close, clear, enters, inserts, rechecks, sends, resolves,
  pings_out, responds, closes, clears,
}
use alloyfs.Transport.Mux.Teardown.{run-Ends, Ends}
use alloyfs.Transport.Mux.Pings.{late_ping_waits}

-- Two callers come in while the connection ends; one has been sent, one has only its id.
abbrev racing : List Call
racing =
    enters Request.statfs
    ∷ inserts
    ∷ rechecks 1
    ∷ sends 1 true
    ∷ enters Request.mount_defaults
    ∷ closes
    ∷ inserts
    ∷ clears
    ∷ []

racing_cleared : (run new racing).is_cleared ≡ true
unfolding run step new enter insert_waiter recheck send close clear get insert remove
racing_cleared = refl

first_awaits : get 1 (run new racing).callers ≡ some awaiting
unfolding run step new enter insert_waiter recheck send close clear get insert remove
first_awaits = refl

run-Ends_example : Ends 1 (run (run new racing) (rechecks 1 ∷ sends 1 true ∷ resolves 1 ∷ []))
run-Ends_example = run-Ends racing 1 awaiting true racing_cleared first_awaits

second_fails : get 2 (run (run new racing) (rechecks 2 ∷ [])).callers ≡ some (finished closed)
unfolding run step new enter insert_waiter recheck send close clear get insert remove
second_fails = refl

answer_arrives :
    get 1
      (run new (
        enters Request.statfs
        ∷ inserts
        ∷ rechecks 1
        ∷ sends 1 true
        ∷ responds 1 (ok Response.ok)
        ∷ closes
        ∷ clears
        ∷ resolves 1
        ∷ [])).callers
    ≡ some (finished (answered (ok Response.ok)))
unfolding run step new enter insert_waiter recheck send close clear respond received resolve get
    insert remove
answer_arrives = refl

abbrev ended : Mux
ended = record new { is_closed = true; is_cleared = true }

late_ping_waits_example :
    get ended.next_id (run (step ended (pings_out true)) (closes ∷ clears ∷ [])).pings ≡ some tt
late_ping_waits_example = late_ping_waits ended (closes ∷ clears ∷ []) refl refl
