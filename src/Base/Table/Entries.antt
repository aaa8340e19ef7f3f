-- ===== src/Base/Table/Entries.antt =====
-- A predicate on every entry of a table, key and value.
use mathlib.Core.Path.{◌≡◌}
use mathlib.Core.Option.{some}
use mathlib.Core.List.{[], ◌∷◌}
use native.Mathlib.Omega.{arith}
use alloyfs.Base.Tests.{Eq}
use alloyfs.Base.Table.{Table, get, insert, remove}

module _ {K V : Type 0} (P : K → V → Type 0) where
  abbrev pub AllEntries : Table K V → Type 0
  AllEntries [] = Unit
  AllEntries ((k, v) ∷ t) = P k v × AllEntries t

module _ {K V : Type 0} ⦃e : Eq K⦄ (P : K → V → Type 0) where
  pub get-AllEntries : (k : K) (v : V) (t : Table K V) → AllEntries P t → get k t ≡ some v → P k v
  unfolding get
  get-AllEntries k v [] h g = cc
  get-AllEntries k v ((j, w) ∷ t) h g = ground (arith, get-AllEntries k v t h.1, e.beq_iff j k)

  pub insert-AllEntries :
      (k : K) (v : V) (t : Table K V) → P k v → AllEntries P t → AllEntries P (insert k v t)
  unfolding insert
  insert-AllEntries k v [] p h = (p, tt)
  insert-AllEntries k v ((j, w) ∷ t) p h =
      ground (arith, insert-AllEntries k v t p h.1, e.beq_iff j k)

  pub remove-AllEntries : (k : K) (t : Table K V) → AllEntries P t → AllEntries P (remove k t)
  unfolding remove
  remove-AllEntries k [] h = tt
  remove-AllEntries k ((j, w) ∷ t) h = ground (arith, remove-AllEntries k t h.1)
