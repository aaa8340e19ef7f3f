-- ===== src/Base/Table.antt =====
-- A map as an association list: `HashMap`, `DashMap` and `BTreeMap` without their iteration order.
pub mod Values
pub mod Pairs
pub mod Sums
pub mod Entries
use mathlib.Core.Path.{◌≡◌, refl}
use mathlib.Core.Logic.{◌≢◌}
use mathlib.Core.Option.{Option, none, some}
use mathlib.Core.List.{List, [], ◌∷◌}
use native.Mathlib.Omega.{arith}
use alloyfs.Base.Tests.{if◌then◌else◌, Eq}

abbrev pub Table {ℓ κ} : Type ℓ → Type κ → Type (ℓ ⊔ κ)
Table K V = List (K × V)

module _ {ℓ κ} {K : Type ℓ} {V : Type κ} ⦃e : Eq K⦄ where
  unfoldable pub get : K → Table K V → Option V
  get k [] = none
  get k ((j, v) ∷ t) = if e.beq j k then some v else get k t

  unfoldable pub insert : K → V → Table K V → Table K V
  insert k v [] = (k, v) ∷ []
  insert k v ((j, w) ∷ t) = if e.beq j k then (j, v) ∷ t else (j, w) ∷ insert k v t

  unfoldable pub remove : K → Table K V → Table K V
  remove k [] = []
  remove k ((j, w) ∷ t) = let rest = remove k t in if e.beq j k then rest else (j, w) ∷ rest

  pub get-insert :
      (k j : K) (v : V) (t : Table K V)
      → get j (insert k v t) ≡ (if e.beq k j then some v else get j t)
  unfolding get insert
  get-insert k j v [] = refl
  get-insert k j v ((i, w) ∷ t) =
      ground (arith, e.beq_iff k j, e.beq_iff i k, e.beq_iff i j, get-insert k j v t)

  pub get-remove :
      (k j : K) (t : Table K V) → get j (remove k t) ≡ (if e.beq k j then none else get j t)
  unfolding get remove
  get-remove k j [] = ground arith
  get-remove k j ((i, w) ∷ t) =
      ground (arith, e.beq_iff k j, e.beq_iff i k, e.beq_iff i j, get-remove k j t)

  pub get-insert_self : (k : K) (v : V) (t : Table K V) → get k (insert k v t) ≡ some v
  get-insert_self k v t = ground (arith, get-insert k k v t, e.beq_iff k k)

  pub get-remove_self : (k : K) (t : Table K V) → get k (remove k t) ≡ none
  get-remove_self k t = ground (arith, get-remove k k t, e.beq_iff k k)

  pub get-insert_ne : (k j : K) (v : V) (t : Table K V) → k ≢ j → get j (insert k v t) ≡ get j t
  get-insert_ne k j v t h = ground (arith, get-insert k j v t, e.beq_iff k j)

  pub get-remove_ne : (k j : K) (t : Table K V) → k ≢ j → get j (remove k t) ≡ get j t
  get-remove_ne k j t h = ground (arith, get-remove k j t, e.beq_iff k j)
