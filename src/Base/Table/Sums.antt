-- ===== src/Base/Table/Sums.antt =====
-- Tables with one value to a key, and the sum of a number over their values.
use Prim.Native.Nat.{ℕ, ◌+◌, ◌≤◌}
use mathlib.Core.Path.{◌≡◌, refl}
use mathlib.Core.Logic.{◌≢◌}
use mathlib.Core.Option.{none, some}
use mathlib.Core.List.{[], ◌∷◌}
use native.Mathlib.Omega.{arith}
use alloyfs.Base.Tests.{Eq}
use alloyfs.Base.Table.Pairs.{AllPairs}
use alloyfs.Base.Table.{Table, get, insert, remove, get-insert, get-remove}

module _ {K V : Type 0} where
  pub AllPairs-zip :
      (P Q R : K → V → Type 0)
      → ((k : K) (v : V) → P k v → Q k v → R k v)
      → (t : Table K V) → AllPairs P t
      → AllPairs Q t
      → AllPairs R t
  AllPairs-zip P Q R f [] p q = tt
  AllPairs-zip P Q R f ((k, v) ∷ t) p q = (f k v p.0 q.0, AllPairs-zip P Q R f t p.1 q.1)

module _ {K V : Type 0} ⦃e : Eq K⦄ where
  -- Every key stands in the table once.
  abbrev pub Distinct : Table K V → Type 0
  Distinct [] = Unit
  Distinct ((k, v) ∷ t) = (get k t ≡ none) × Distinct t

  pub remove-absent : (k : K) (t : Table K V) → get k t ≡ none → remove k t ≡ t
  unfolding get remove
  remove-absent k [] h = refl
  remove-absent k ((j, w) ∷ t) h = ground (arith, remove-absent k t)

  pub remove-Distinct : (k : K) (t : Table K V) → Distinct t → Distinct (remove k t)
  unfolding remove
  remove-Distinct k [] d = tt
  remove-Distinct k ((j, w) ∷ t) d = ground (arith, remove-Distinct k t d.1, get-remove k j t, d.0)

  pub insert-Distinct : (k : K) (v : V) (t : Table K V) → Distinct t → Distinct (insert k v t)
  unfolding insert get
  insert-Distinct k v [] d = (refl, tt)
  insert-Distinct k v ((j, w) ∷ t) d =
      ground
        (arith, insert-Distinct k v t d.1, get-insert k j v t, e.beq_iff k j, e.beq_iff j k, d.0)

  -- An absent key differs from every key of the table.
  pub absent-AllPairs_ne : (k : K) (t : Table K V) → get k t ≡ none → AllPairs (λ j v. k ≢ j) t
  unfolding get
  absent-AllPairs_ne k [] h = tt
  absent-AllPairs_ne k ((j, w) ∷ t) h =
      (λ s. ground (arith, e.beq_iff j k), absent-AllPairs_ne k t (ground (arith, e.beq_iff j k)))

  -- Every value of a distinct table is found under its key.
  pub present-AllPairs : (t : Table K V) → Distinct t → AllPairs (λ k v. get k t ≡ some v) t
  unfolding get
  present-AllPairs [] d = tt
  present-AllPairs ((j, w) ∷ t) d = (
    ground (arith, e.beq_iff j j),
    AllPairs-zip (λ k v. j ≢ k) (λ k v. get k t ≡ some v) (λ k v. get k ((j, w) ∷ t) ≡ some v)
        (λ k v n g. ground (arith, e.beq_iff j k)) t (absent-AllPairs_ne j t d.0)
        (present-AllPairs t d.1),
  )

  module _ (f : V → ℕ) where
    abbrev pub sum : Table K V → ℕ
    sum [] = 0
    sum ((k, v) ∷ t) = f v + sum t

    pub sum-remove :
        (k : K) (v : V) (t : Table K V)
        → Distinct t
        → get k t ≡ some v
        → f v + sum (remove k t) ≡ sum t
    unfolding get remove
    sum-remove k v [] d h = ground arith
    sum-remove k v ((j, w) ∷ t) d h =
        ground (arith, sum-remove k v t d.1, e.beq_iff j k, remove-absent k t, d.0)

    pub sum-remove_le : (k : K) (t : Table K V) → sum (remove k t) ≤ sum t
    unfolding remove
    sum-remove_le k [] = omega arith
    sum-remove_le k ((j, w) ∷ t) = ground (arith, sum-remove_le k t)

    pub sum-insert_absent :
        (k : K) (v : V) (t : Table K V) → get k t ≡ none → sum (insert k v t) ≡ f v + sum t
    unfolding get insert
    sum-insert_absent k v [] h = refl
    sum-insert_absent k v ((j, w) ∷ t) h = ground (arith, sum-insert_absent k v t)

    -- A value put in the place of one with the same number leaves the sum.
    pub sum-insert_same :
        (k : K) (v w : V) (t : Table K V)
        → get k t ≡ some w
        → f v ≡ f w
        → sum (insert k v t) ≡ sum t
    unfolding get insert
    sum-insert_same k v w [] h s = ground arith
    sum-insert_same k v w ((j, u) ∷ t) h s = ground (arith, sum-insert_same k v w t)
