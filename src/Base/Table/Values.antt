-- ===== src/Base/Table/Values.antt =====
-- A predicate on every value of a table.
use mathlib.Core.Path.{◌≡◌}
use mathlib.Core.Option.{some}
use mathlib.Core.List.{[], ◌∷◌}
use native.Mathlib.Omega.{arith}
use alloyfs.Base.Tests.{Eq}
use alloyfs.Base.Table.{Table, get, insert, remove}

module _ {ℓ κ μ} {K : Type ℓ} {V : Type κ} (P : V → Type μ) where
  abbrev pub AllValues : Table K V → Type μ
  AllValues [] = Unit
  AllValues ((k, v) ∷ t) = P v × AllValues t

module _ {ℓ κ μ} {K : Type ℓ} {V : Type κ} ⦃e : Eq K⦄ (P : V → Type μ) where
  pub get-AllValues : (k : K) (v : V) (t : Table K V) → AllValues P t → get k t ≡ some v → P v
  unfolding get
  get-AllValues k v [] h g = cc
  get-AllValues k v ((j, w) ∷ t) h g = ground (arith, get-AllValues k v t h.1)

  pub insert-AllValues :
      (k : K) (v : V) (t : Table K V) → P v → AllValues P t → AllValues P (insert k v t)
  unfolding insert
  insert-AllValues k v [] p h = (p, tt)
  insert-AllValues k v ((j, w) ∷ t) p h = ground (arith, insert-AllValues k v t p h.1)

  pub remove-AllValues : (k : K) (t : Table K V) → AllValues P t → AllValues P (remove k t)
  unfolding remove
  remove-AllValues k [] h = tt
  remove-AllValues k ((j, w) ∷ t) h = ground (arith, remove-AllValues k t h.1)
