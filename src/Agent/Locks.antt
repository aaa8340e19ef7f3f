-- ===== src/Agent/Locks.antt =====
-- crates/alloyfs-agent/src/locks.rs: whole-file advisory locks shared by every session of an export.
-- The map is a table by path. The wake-up channel of a parked call is a number, its ticket; the
-- operations return the tickets that they wake, in order.
pub mod Exclusion
pub mod Waking
pub mod Release
mod Tests
use alloyfs.Base.{
  ℕ, ◌+◌, ◌-◌, Bool, true, false, not, ◌&&◌, Option, none, some, List, [], ◌∷◌, ◌++◌, length,
  retain, all, ◌==◌, if◌then◌else◌,
}
use alloyfs.Base.Text.{text_eq}
use alloyfs.Base.Table.{Table, get, insert, remove}
use alloyfs.Proto.Path.{RelPath}
use alloyfs.Proto.Messages.{LockKind, shared, exclusive, lock_kind_beq}

pub record Holder : Type 0 where
  pub session : ℕ
  pub fh : ℕ
  pub kind : LockKind

pub record Waiter : Type 0 where
  pub session : ℕ
  pub kind : LockKind
  pub wake : ℕ

pub record Entry : Type 0 where
  pub holders : List Holder
  pub waiters : List Waiter

abbrev pub default : Entry
default = record { holders = []; waiters = [] }

abbrev pub LockManager : Type 0
LockManager = Table RelPath Entry

abbrev pub is_nil {ℓ} : {A : Type ℓ} → List A → Bool
is_nil [] = true
is_nil (x ∷ xs) = false

abbrev pub is_idle : Entry → Bool
is_idle e = is_nil e.holders && is_nil e.waiters

-- `Entry::compatible`, over the holders.
pub compatible : List Holder → LockKind → Bool
compatible holders shared = all (λ h. lock_kind_beq h.kind shared) holders
compatible holders exclusive = is_nil holders

abbrev pub is_handle : ℕ → ℕ → Holder → Bool
is_handle session fh h = h.session == session && h.fh == fh

abbrev pub or_default : Option Entry → Entry
or_default none = default
or_default (some e) = e

-- One pass of the loop of `lock`, under the mutex.
pub data Attempt : Type 0 where
  taken would_block parked : Attempt

pub attempt_entry : Entry → ℕ → ℕ → LockKind → Bool → ℕ → Entry × Attempt
attempt_entry e session fh kind wait ticket =
    let others = retain (λ h. not (is_handle session fh h)) e.holders in
    let holder : Holder = record { session = session; fh = fh; kind = kind } in
    let waiter : Waiter = record { session = session; kind = kind; wake = ticket } in
    if compatible others kind
    then (record e { holders = others ++ holder ∷ [] }, taken)
    else if not wait
    then (record e { holders = others }, would_block)
    else (record { holders = others; waiters = e.waiters ++ waiter ∷ [] }, parked)

pub attempt : LockManager → RelPath → ℕ → ℕ → LockKind → Bool → ℕ → LockManager × Attempt
attempt m path session fh kind wait ticket =
    let (e, r) = attempt_entry (or_default (get path m)) session fh kind wait ticket in
    (insert path e m, r)

-- `wake_waiters`, over the waiters: those that stay, and the tickets that are woken.
pub wake_waiters : List Holder → List Waiter → List Waiter × List ℕ
wake_waiters holders [] = ([], [])
wake_waiters holders (w ∷ ws) =
    let (stay, woken) = wake_waiters holders ws in
    if compatible holders w.kind
    then (if lock_kind_beq w.kind exclusive then (ws, w.wake ∷ []) else (stay, w.wake ∷ woken))
    else (w ∷ ws, [])

pub unlock_entry : Entry → ℕ → ℕ → Entry × List ℕ
unlock_entry e session fh =
    let others = retain (λ h. not (is_handle session fh h)) e.holders in
    let (stay, woken) = wake_waiters others e.waiters in
    (record { holders = others; waiters = stay }, woken)

-- An entry that nobody holds or waits for is dropped.
abbrev pub put_back : RelPath → Entry → LockManager → LockManager
put_back path e m = if is_idle e then remove path m else insert path e m

pub unlock : LockManager → RelPath → ℕ → ℕ → LockManager × List ℕ
unlock m path session fh = elim (get path m) [
  | none ↦ (m, [])
  | some e ↦ let (e', woken) = unlock_entry e session fh in (put_back path e' m, woken)
]

pub release_entry : ℕ → Entry → Entry × List ℕ
release_entry session e =
    let others = retain (λ h. not (h.session == session)) e.holders in
    let (stay, woken) = wake_waiters others (retain (λ w. not (w.session == session)) e.waiters) in
    (record { holders = others; waiters = stay }, woken)

abbrev pub released_of : ℕ → Entry → ℕ
released_of session e = length e.holders - length (release_entry session e).0.holders

-- `release_session`: what is left, the number of locks released, and the tickets woken.
pub release_session : ℕ → LockManager → LockManager × ℕ × List ℕ
release_session session [] = ([], 0, [])
release_session session ((path, e) ∷ m) =
    let (m', released, woken) = release_session session m in
    let (e', woken') = release_entry session e in
    (if is_idle e' then m' else (path, e') ∷ m', released_of session e + released, woken' ++ woken)

-- What the sessions of an export do to the manager, one critical section each.
pub data Call : Type 0 where
  attempts : RelPath → (session fh : ℕ) → LockKind → (wait : Bool) → (ticket : ℕ) → Call
  unlocks : RelPath → (session fh : ℕ) → Call
  releases : (session : ℕ) → Call

pub step : LockManager → Call → LockManager
step m (attempts path session fh kind wait ticket) = (attempt m path session fh kind wait ticket).0
step m (unlocks path session fh) = (unlock m path session fh).0
step m (releases session) = (release_session session m).0

pub run : LockManager → List Call → LockManager
run m [] = m
run m (c ∷ cs) = run (step m c) cs
