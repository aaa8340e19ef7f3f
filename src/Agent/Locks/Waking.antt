-- ===== src/Agent/Locks/Waking.antt =====
-- Who is woken when a lock is given back, and who is not.
use alloyfs.Base.{
  ℕ, ◌≡◌, refl, ap, ◌⊎◌, inl, inr, Bool, true, false, List, [], ◌∷◌, ◌++◌, map, All, arith,
  Bool-cases,
}
use alloyfs.Base.Text.{text_eq}
use alloyfs.Proto.Messages.{LockKind, shared, exclusive}
use alloyfs.Agent.Locks.{Holder, Waiter, Entry, compatible, attempt_entry, taken, wake_waiters}

-- Where waking stops: at the end of the queue, before a waiter that does not fit, or behind an
-- exclusive waiter, which is woken alone.
abbrev pub Stops : List Holder → List Waiter → List Waiter → Type 0
Stops holders [] [] = Unit
Stops holders [] (w ∷ ws) = compatible holders w.kind ≡ false
Stops holders (w ∷ []) stay = (w.kind ≡ exclusive) ⊎ ((w.kind ≡ shared) × Stops holders [] stay)
Stops holders (w ∷ v ∷ front) stay = (w.kind ≡ shared) × Stops holders (v ∷ front) stay

-- The split of a queue by `wake_waiters`: those woken stood before those that stay, in the order of
-- the queue, and each of them fits beside the holders.
pub record Wakes (holders : List Holder) (queue stay : List Waiter) (woken : List ℕ) : Type 0 where
  pub front : List Waiter
  pub in_order : queue ≡ front ++ stay
  pub tickets : woken ≡ map (λ w. w.wake) front
  pub fit : All (λ w. compatible holders w.kind ≡ true) front
  pub stops : Stops holders front stay

Stops-shared :
    (holders : List Holder) (w : Waiter) (front stay : List Waiter)
    → w.kind ≡ shared
    → Stops holders front stay
    → Stops holders (w ∷ front) stay
Stops-shared holders w [] stay k h = inr (k, h)
Stops-shared holders w (v ∷ front) stay k h = (k, h)

wake_waiters-shared :
    (holders : List Holder) (w : Waiter) (ws : List Waiter)
    → w.kind ≡ shared
    → compatible holders w.kind ≡ true
    → wake_waiters holders (w ∷ ws)
      ≡ ((wake_waiters holders ws).0, w.wake ∷ (wake_waiters holders ws).1)
unfolding wake_waiters
wake_waiters-shared holders w ws k fits = ground arith

wake_waiters-exclusive :
    (holders : List Holder) (w : Waiter) (ws : List Waiter)
    → w.kind ≡ exclusive
    → compatible holders w.kind ≡ true
    → wake_waiters holders (w ∷ ws) ≡ (ws, w.wake ∷ [])
unfolding wake_waiters
wake_waiters-exclusive holders w ws k fits = ground arith

Wakes-front :
    (holders : List Holder) (w : Waiter) (ws : List Waiter) (kind : LockKind)
    → Wakes holders ws (wake_waiters holders ws).0 (wake_waiters holders ws).1
    → w.kind ≡ kind
    → compatible holders w.kind ≡ true
    → Wakes holders (w ∷ ws) (wake_waiters holders (w ∷ ws)).0 (wake_waiters holders (w ∷ ws)).1
Wakes-front holders w ws shared h k fits = rw (wake_waiters-shared holders w ws k fits) (record {
  front = w ∷ h.front;
  in_order = ap (◌∷◌ w) h.in_order;
  tickets = ap (◌∷◌ w.wake) h.tickets;
  fit = (fits, h.fit);
  stops = Stops-shared holders w h.front _ k h.stops;
})
Wakes-front holders w ws exclusive h k fits =
    rw (wake_waiters-exclusive holders w ws k fits)
      (record { front = w ∷ []; in_order = refl; tickets = refl; fit = (fits, tt); stops = inl k })

-- `wake_waiters` wakes a front part of the queue, in order: every waiter that it wakes fits beside
-- the holders, and it stops only at the end, before a waiter that does not fit, or right behind an
-- exclusive one.
pub wake_waiters-Wakes :
    (holders : List Holder) (queue : List Waiter)
    → Wakes holders queue (wake_waiters holders queue).0 (wake_waiters holders queue).1
unfolding wake_waiters
wake_waiters-Wakes holders [] = record {
  front = [];
  in_order = refl;
  tickets = refl;
  fit = tt;
  stops = tt;
}
wake_waiters-Wakes holders (w ∷ ws) = elim (Bool-cases (compatible holders w.kind)) [
  | inl fits ↦ Wakes-front holders w ws w.kind (wake_waiters-Wakes holders ws) refl fits
  | inr held ↦
      rw (held, wake_waiters)
        (record { front = []; in_order = refl; tickets = refl; fit = tt; stops = held })
]

-- A handle that holds a file exclusively and locks it again as shared keeps the front waiter
-- asleep, although that waiter now fits beside the one shared holder: `lock` wakes nobody.
pub downgrade_leaves_waiters :
    (s f ticket : ℕ) (wait : Bool) (w : Waiter) (ws : List Waiter)
    → w.kind ≡ shared
    → let before : Entry = record {
      holders = record { session = s; fh = f; kind = exclusive } ∷ [];
      waiters = w ∷ ws;
    } in
      let after = attempt_entry before s f shared wait ticket in
      (after.1 ≡ taken) × (after.0.waiters ≡ w ∷ ws) × (compatible after.0.holders w.kind ≡ true)
unfolding attempt_entry compatible
downgrade_leaves_waiters s f ticket wait w ws k = ground arith
