-- ===== src/Agent/Hub/Ring.antt =====
-- The ring holds the last events of all that were published, under consecutive numbers.
use mathlib.Core.List.{append_assoc, append-nil}
use mathlib.Core.Path.{subst}
use alloyfs.Base.{
  ℕ, ◌+◌, ◌≤◌, ◌<◌, ◌≡◌, refl, ap, ◌∙◌, ◌⊎◌, inl, inr, List, [], ◌∷◌, ◌++◌, length, length-append,
  ◌==◌, arith, if◌then◌else◌, Bool-cases,
}
use alloyfs.Proto.Path.{RelPath}
use alloyfs.Proto.Messages.{FsEvent, EventKind}
use alloyfs.Agent.Hub.{EventHub, u64_mod, with_capacity, pop_front, publish_one, publish}

-- The events are numbered one after the other, the first by the number behind `n`.
abbrev pub Numbered : ℕ → List FsEvent → Type 0
Numbered n [] = Unit
Numbered n (e ∷ es) = (e.seq ≡ n + 1) × Numbered (n + 1) es

pub Numbered-append :
    (n : ℕ) (xs ys : List FsEvent)
    → Numbered n xs
    → Numbered (n + length xs) ys
    → Numbered n (xs ++ ys)
Numbered-append n [] ys hx hy = subst (λ k. Numbered k ys) (omega arith) hy
Numbered-append n (x ∷ xs) ys hx hy =
    (hx.0, Numbered-append (n + 1) xs ys hx.1 (subst (λ k. Numbered k ys) (omega arith) hy))

-- The hub after `history` was published: the ring is the end of it, and full if anything was lost.
pub record IsRing (hub : EventHub) (history : List FsEvent) : Type 0 where
  pub lost : List FsEvent
  pub split : history ≡ lost ++ hub.log
  pub numbered : Numbered 0 history
  pub counted : hub.seq ≡ length history
  pub fits : length hub.log ≤ hub.log_cap
  pub full : (lost ≡ []) ⊎ (length hub.log ≡ hub.log_cap)
  pub room : 0 < hub.log_cap

pub IsRing-with_capacity : (cap : ℕ) → 0 < cap → IsRing (with_capacity cap) []
unfolding with_capacity
IsRing-with_capacity cap h = record {
  lost = [];
  split = refl;
  numbered = tt;
  counted = refl;
  fits = omega arith;
  full = inl refl;
  room = h;
}

-- The ring with an event pushed, the oldest dropped first if it is full.
abbrev pushed : List FsEvent → ℕ → FsEvent → List FsEvent
pushed log cap e = (if length log == cap then pop_front log else log) ++ e ∷ []

record Pushes (lost log : List FsEvent) (cap : ℕ) (e : FsEvent) : Type 0 where
  lost' : List FsEvent
  split' : (lost ++ log) ++ e ∷ [] ≡ lost' ++ pushed log cap e
  fits' : length (pushed log cap e) ≤ cap
  full' : (lost' ≡ []) ⊎ (length (pushed log cap e) ≡ cap)

pushes :
    (lost log : List FsEvent) (cap : ℕ) (e : FsEvent)
    → 0 < cap
    → length log ≤ cap
    → (lost ≡ []) ⊎ (length log ≡ cap)
    → Pushes lost log cap e
pushes lost [] cap e room fits full = elim (Bool-cases (0 == cap)) [
  | inl same ↦ absurd (ground arith)
  | inr less ↦ record {
    lost' = lost;
    split' = rw less (append_assoc lost [] (e ∷ []));
    fits' = rw less (omega arith);
    full' = ground arith;
  }
]
pushes lost (h ∷ t) cap e room fits full = elim (Bool-cases (length (h ∷ t) == cap)) [
  | inl same ↦ record {
    lost' = lost ++ h ∷ [];
    split' =
        rw (same, append_assoc lost (h ∷ t) (e ∷ []), append_assoc lost (h ∷ []) (t ++ e ∷ []));
    fits' = rw same (ground (arith, length-append t (e ∷ [])));
    full' = rw same (inr (ground (arith, length-append t (e ∷ []))));
  }
  | inr less ↦ record {
    lost' = lost;
    split' = rw (less, append_assoc lost (h ∷ t) (e ∷ []));
    fits' = rw less (ground (arith, length-append t (e ∷ [])));
    full' = ground arith;
  }
]

module _ (clock : ℕ → ℕ) (hub : EventHub) (path : RelPath) (kind : EventKind) where
  publish_one-seq :
      hub.seq + 1 < u64_mod
      → ((publish_one clock hub path kind).1.seq ≡ hub.seq + 1)
        × ((publish_one clock hub path kind).0.seq ≡ hub.seq + 1)
  unfolding publish_one
  publish_one-seq h = (omega arith, omega arith)

  publish_one-IsRing :
      (history : List FsEvent)
      → hub.seq + 1 < u64_mod
      → IsRing hub history
      → IsRing
          (publish_one clock hub path kind).0
          (history ++ (publish_one clock hub path kind).1 ∷ [])
  unfolding publish_one
  publish_one-IsRing history h v =
      let event = (publish_one clock hub path kind).1 in
      let p = pushes v.lost hub.log hub.log_cap event v.room v.fits v.full in
      record {
        lost = p.lost';
        split = ap (λ l. l ++ event ∷ []) v.split ∙ p.split';
        numbered = Numbered-append 0 history (event ∷ []) v.numbered (omega (arith, v.counted), tt);
        counted = omega (arith, v.counted, length-append history (event ∷ []));
        fits = p.fits';
        full = p.full';
        room = v.room;
      }

-- Publishing keeps the ring, while the numbers fit in 64 bits.
pub publish-IsRing :
    (clock : ℕ → ℕ) (hub : EventHub) (raw : List (RelPath × EventKind)) (history : List FsEvent)
    → length history + length raw < u64_mod
    → IsRing hub history
    → IsRing (publish clock hub raw).0 (history ++ (publish clock hub raw).1)
unfolding publish
publish-IsRing clock hub [] history h v = rw (append-nil history) v
publish-IsRing clock hub ((path, kind) ∷ raw) history h v =
    let (hub', event) = publish_one clock hub path kind in
    subst (IsRing (publish clock hub' raw).0)
      (append_assoc history (event ∷ []) (publish clock hub' raw).1)
      (publish-IsRing clock hub' raw (history ++ event ∷ [])
        (omega (arith, length-append history (event ∷ [])))
        (publish_one-IsRing clock hub path kind history (omega (arith, v.counted)) v))
