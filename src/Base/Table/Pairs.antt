-- ===== src/Base/Table/Pairs.antt =====
-- A predicate on every key of a table with its value.
use mathlib.Core.Path.{◌≡◌, subst, sym}
use mathlib.Core.Option.{some}
use mathlib.Core.Logic.{inl, inr}
use mathlib.Core.List.{[], ◌∷◌}
use native.Mathlib.Omega.{arith}
use alloyfs.Base.Tests.{Eq, Bool-cases}
use alloyfs.Base.Table.{Table, get, insert, remove}

module _ {ℓ κ μ} {K : Type ℓ} {V : Type κ} (P : K → V → Type μ) where
  abbrev pub AllPairs : Table K V → Type μ
  AllPairs [] = Unit
  AllPairs ((k, v) ∷ t) = P k v × AllPairs t

module _ {ℓ κ μ} {K : Type ℓ} {V : Type κ} ⦃e : Eq K⦄ (P : K → V → Type μ) where
  pub get-AllPairs : (k : K) (v : V) (t : Table K V) → AllPairs P t → get k t ≡ some v → P k v
  unfolding get
  get-AllPairs k v [] h g = cc
  get-AllPairs k v ((j, w) ∷ t) h g = elim (Bool-cases (e.beq j k)) [
    | inl hit ↦ subst (P k) (ground arith) (subst (λ i. P i w) ((e.beq_iff j k).0 hit) h.0)
    | inr miss ↦ get-AllPairs k v t h.1 (ground arith)
  ]

  pub insert-AllPairs :
      (k : K) (v : V) (t : Table K V) → P k v → AllPairs P t → AllPairs P (insert k v t)
  unfolding insert
  insert-AllPairs k v [] p h = (p, tt)
  insert-AllPairs k v ((j, w) ∷ t) p h = elim (Bool-cases (e.beq j k)) [
    | inl hit ↦ rw hit (subst (λ i. P i v) (sym ((e.beq_iff j k).0 hit)) p, h.1)
    | inr miss ↦ rw miss (h.0, insert-AllPairs k v t p h.1)
  ]

  pub remove-AllPairs : (k : K) (t : Table K V) → AllPairs P t → AllPairs P (remove k t)
  unfolding remove
  remove-AllPairs k [] h = tt
  remove-AllPairs k ((j, w) ∷ t) h = ground (arith, remove-AllPairs k t h.1)
