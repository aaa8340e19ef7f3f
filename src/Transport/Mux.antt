-- ===== src/Transport/Mux.antt =====
-- `MuxConnection` of crates/alloyfs-transport/src/mux.rs: the requests and pings of one connection.
-- Each constructor of `Call` is one atomic step of a caller or of the reader task, and a sequence of
-- calls is an interleaving. A caller of `request` goes by the id of its request, and that of `ping`
-- by its nonce. A waiter is an entry of the table; its channel is answered when the reader takes the
-- entry out with a value, and dropped when the entry goes without one. A frame is taken by the writer's
-- queue or refused by it: the wait for room in the queue is not modelled, and the insertion and the
-- sending of a ping are one step.
pub mod Tidy
pub mod Teardown
pub mod Pings
mod Tests
use alloyfs.Base.{
  ℕ, ◌+◌, ◌%◌, Bool, true, false, not, ◌&&◌, Option, none, some, List, [], ◌∷◌, ◌++◌, if◌then◌else◌,
  nat_eq,
}
use alloyfs.Base.Table.{Table, get, insert, remove}
use alloyfs.Proto.Errors.{Result}
use alloyfs.Proto.Messages.{Frame, Request, Response}
use alloyfs.Agent.Hub.{u64_mod}

-- How a request ends: `Ok(body)`, or an error of the transport.
pub data Outcome : Type 0 where
  answered : Result Response → Outcome
  closed timeout : Outcome

-- Where a caller of `request` stands, behind the allocation of its id.
pub data Phase : Type 0 where
  inserted : (body : Request) → Phase
  sending : (body : Request) → Phase
  awaiting : Phase
  finished : Outcome → Phase

pub record Mux : Type 0 where
  pub next_id : ℕ
  -- The callers that have seen the connection open, and have no id yet.
  pub checked : List Request
  pub callers : Table ℕ Phase
  pub inflight : Table ℕ (Unit {0})
  pub answers : Table ℕ (Result Response)
  pub pings : Table ℕ (Unit {0})
  pub is_closed : Bool
  pub is_cleared : Bool
  pub sent : List Frame

pub new : Mux
new = record {
  next_id = 1;
  checked = [];
  callers = [];
  inflight = [];
  answers = [];
  pings = [];
  is_closed = false;
  is_cleared = false;
  sent = [];
}

pub data Call : Type 0 where
  -- `begin_request`, up to its first test of `is_closed`, then the insertion, the second test, and
  -- the sending, which the writer takes or not.
  enters : Request → Call
  inserts : Call
  rechecks : (id : ℕ) → Call
  sends : (id : ℕ) (taken : Bool) → Call
  -- The end of the wait, by the channel or by the deadline.
  resolves : (id : ℕ) → Call
  times_out : (id : ℕ) → Call
  -- `ping`, up to the sending.
  pings_out : (taken : Bool) → Call
  -- The reader task: a frame, and the end of the stream in two steps.
  responds : (id : ℕ) (body : Result Response) → Call
  pongs : (nonce : ℕ) → Call
  closes : Call
  clears : Call

abbrev pub bump_id : Mux → ℕ
bump_id c = (c.next_id + 1) % u64_mod

abbrev pub finish : ℕ → Outcome → Mux → Mux
finish id outcome c = record c {
  callers = insert id (finished outcome) c.callers;
  inflight = remove id c.inflight;
}

pub enter : Request → Mux → Mux
enter body c = if c.is_closed then c else record c { checked = c.checked ++ body ∷ [] }

pub insert_waiter : List Request → Mux → Mux
insert_waiter [] c = c
insert_waiter (body ∷ rest) c = record c {
  next_id = bump_id c;
  checked = rest;
  callers = insert c.next_id (inserted body) c.callers;
  inflight = insert c.next_id tt c.inflight;
  answers = remove c.next_id c.answers;
}

pub recheck : ℕ → Option Phase → Mux → Mux
recheck id (some (inserted body)) c =
    if c.is_closed
    then finish id closed c
    else record c { callers = insert id (sending body) c.callers }
recheck id p c = c

pub send : ℕ → Bool → Option Phase → Mux → Mux
send id true (some (sending body)) c = record c {
  callers = insert id awaiting c.callers;
  sent = c.sent ++ Frame.request id body ∷ [];
}
send id false (some (sending body)) c = finish id closed c
send id taken p c = c

-- What the channel of a caller holds: nothing yet, the answer, or that it was dropped.
pub received : ℕ → Mux → Option Outcome
received id c = elim (get id c.answers) [
  | some body ↦ some (answered body)
  | none ↦ elim (get id c.inflight) [ some _ ↦ none | none ↦ some closed ]
]

pub resolve : ℕ → Option Phase → Option Outcome → Mux → Mux
resolve id (some awaiting) (some outcome) c = record c {
  callers = insert id (finished outcome) c.callers;
}
resolve id p o c = c

pub time_out : ℕ → Option Phase → Mux → Mux
time_out id (some awaiting) c = finish id timeout c
time_out id p c = c

pub ping : Bool → Mux → Mux
ping taken c = record c {
  next_id = bump_id c;
  pings = if taken then insert c.next_id tt c.pings else c.pings;
  sent = if taken then c.sent ++ Frame.ping c.next_id ∷ [] else c.sent;
}

-- The reader ends with the flag, so that it reads no frame behind it.
pub respond : ℕ → Result Response → Option (Unit {0}) → Mux → Mux
respond id body none c = c
respond id body (some _) c =
    if c.is_closed
    then c
    else record c { inflight = remove id c.inflight; answers = insert id body c.answers }

pub pong : ℕ → Mux → Mux
pong nonce c = if c.is_closed then c else record c { pings = remove nonce c.pings }

pub close : Mux → Mux
close c = record c { is_closed = true }

-- `inflight.clear()` and `pings.clear()`, once.
pub clear : Mux → Mux
clear c =
    if c.is_closed && not c.is_cleared
    then record c { inflight = []; pings = []; is_cleared = true }
    else c

pub step : Mux → Call → Mux
step c (enters body) = enter body c
step c inserts = insert_waiter c.checked c
step c (rechecks id) = recheck id (get id c.callers) c
step c (sends id taken) = send id taken (get id c.callers) c
step c (resolves id) = resolve id (get id c.callers) (received id c) c
step c (times_out id) = time_out id (get id c.callers) c
step c (pings_out taken) = ping taken c
step c (responds id body) = respond id body (get id c.inflight) c
step c (pongs nonce) = pong nonce c
step c closes = close c
step c clears = clear c

pub run : Mux → List Call → Mux
run c [] = c
run c (call ∷ calls) = run (step c call) calls
