-- ===== src/Agent/Hub.antt =====
-- `EventHub` of crates/alloyfs-agent/src/watch.rs: sequence numbers, the catch-up ring, and the table
-- of recent local writes. `clock n` is the time, in nanoseconds, that is read while the event number
-- `n` is made. A publish returns the batch that it hands to the live subscribers.
pub mod Ring
pub mod CatchUp
mod Tests
use alloyfs.Base.{
  ℕ, ◌+◌, ◌-◌, ◌*◌, ◌%◌, ◌^◌, Bool, Option, none, some, List, [], ◌∷◌, ◌++◌, length, retain, ltb,
  ◌==◌, if◌then◌else◌,
}
use alloyfs.Base.Text.{text_eq}
use alloyfs.Base.Table.{Table, get, insert}
use alloyfs.Proto.Errors.{Result, ok, err, too_old}
use alloyfs.Proto.Path.{RelPath}
use alloyfs.Proto.Messages.{FsEvent, EventKind}

abbrev pub u64_mod : ℕ
u64_mod = 2 ^ 64

abbrev pub event_log_cap : ℕ
event_log_cap = 8192

-- Two seconds.
abbrev pub origin_ttl : ℕ
origin_ttl = 2 * 1000000000

pub record EventHub : Type 0 where
  pub seq : ℕ
  pub log : List FsEvent
  pub log_cap : ℕ
  pub recent_local : Table RelPath (ℕ × ℕ)

pub with_capacity : ℕ → EventHub
with_capacity log_cap = record { seq = 0; log = []; log_cap = log_cap; recent_local = [] }

abbrev pub new : EventHub
new = with_capacity event_log_cap

pub note_local_write : EventHub → RelPath → ℕ → ℕ → EventHub
note_local_write hub path session now = record hub {
  recent_local = insert path (session, now) hub.recent_local;
}

abbrev pub after_seq : ℕ → FsEvent → Bool
after_seq since e = ltb since e.seq

-- The catch-up batch of `subscribe`.
abbrev pub catch_up : List FsEvent → ℕ → Result (List FsEvent)
catch_up [] since = ok (retain (after_seq since) [])
catch_up (head ∷ log) since =
    if ltb ((since + 1) % u64_mod) head.seq
    then err too_old
    else ok (retain (after_seq since) (head ∷ log))

pub subscribe : EventHub → Option ℕ → Result (List FsEvent)
subscribe hub none = ok []
subscribe hub (some since) = catch_up hub.log since

abbrev pub pop_front {ℓ} : {A : Type ℓ} → List A → List A
pop_front [] = []
pop_front (x ∷ xs) = xs

-- The session that wrote the path lately.
pub origin_of : EventHub → RelPath → ℕ → Option ℕ
origin_of hub path now = elim (get path hub.recent_local) [
  | none ↦ none
  | some (session, when) ↦ if ltb (now - when) origin_ttl then some session else none
]

-- One turn of the loop of `publish`.
pub publish_one : (ℕ → ℕ) → EventHub → RelPath → EventKind → EventHub × FsEvent
publish_one clock hub path kind =
    let next = (hub.seq + 1) % u64_mod in
    let event : FsEvent = record {
      seq = next;
      kind = kind;
      path = path;
      new_version = none;
      origin = origin_of hub path (clock next);
    } in
    let kept = if length hub.log == hub.log_cap then pop_front hub.log else hub.log in
    (record hub { seq = next; log = kept ++ event ∷ [] }, event)

pub publish : (ℕ → ℕ) → EventHub → List (RelPath × EventKind) → EventHub × List FsEvent
publish clock hub [] = (hub, [])
publish clock hub ((path, kind) ∷ raw) =
    let (hub', event) = publish_one clock hub path kind in
    let (hub'', batch) = publish clock hub' raw in (hub'', event ∷ batch)

-- What happens to a hub: a batch is published, or a local write is noted.
pub data Call : Type 0 where
  publishes : List (RelPath × EventKind) → Call
  notes : RelPath → (session now : ℕ) → Call

-- The hub after the calls, and all events that were published, in order.
pub run : (ℕ → ℕ) → EventHub → List Call → EventHub × List FsEvent
run clock hub [] = (hub, [])
run clock hub (publishes raw ∷ cs) =
    let (hub', batch) = publish clock hub raw in
    let (hub'', later) = run clock hub' cs in (hub'', batch ++ later)
run clock hub (notes path session now ∷ cs) = run clock (note_local_write hub path session now) cs

abbrev pub event_count : List Call → ℕ
event_count [] = 0
event_count (publishes raw ∷ cs) = length raw + event_count cs
event_count (notes path session now ∷ cs) = event_count cs
