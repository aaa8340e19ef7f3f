-- ===== src/Client/Reconcile/Order.antt =====
-- A plan has the decision of every known path, in ascending order, and settles.
use alloyfs.Base.{
  ◌≡◌, sym, ◌≢◌, ◌↔◌, ◌⊎◌, inl, inr, true, none, List, [], ◌∷◌, In, arith, Bool-cases,
}
use alloyfs.Base.Text.{Text, text_eq, text_beq, text_beq_iff}
use alloyfs.Base.Text.Order.{text_ltb, text_ltb_connex}
use alloyfs.Base.Table.{Table, get}
use alloyfs.Client.Reconcile.{SyncEntry, Snapshot, insert_path, insert_keys, paths_of}

-- Strictly ascending: in order, and each path once.
abbrev pub Ascending : List Text → Type 0
Ascending [] = Unit
Ascending (p ∷ []) = Unit
Ascending (p ∷ q ∷ ps) = (text_ltb p q ≡ true) × Ascending (q ∷ ps)

insert_path-Ascending : (p : Text) (ps : List Text) → Ascending ps → Ascending (insert_path p ps)
unfolding insert_path
insert_path-Ascending p [] h = tt
insert_path-Ascending p (q ∷ []) h = ground (arith, text_ltb_connex q p, text_beq_iff q p)
insert_path-Ascending p (q ∷ r ∷ ps) h =
    ground (arith, insert_path-Ascending p (r ∷ ps) h.1, text_ltb_connex q p, text_beq_iff q p)

In-insert_path : (a p : Text) (ps : List Text) → In a (insert_path p ps) ↔ ((a ≡ p) ⊎ In a ps)
unfolding insert_path
In-insert_path a p [] = ground arith
In-insert_path a p (q ∷ ps) = ground (arith, In-insert_path a p ps, text_beq_iff q p)

In-insert_keys {ℓ} :
    {V : Type ℓ} (a : Text) (t : Table Text V) (ps : List Text)
    → In a (insert_keys t ps) ↔ ((get a t ≢ none) ⊎ In a ps)
unfolding insert_keys get
In-insert_keys a [] ps = ground arith
In-insert_keys a ((k, v) ∷ t) ps =
    let keys = In-insert_keys a t (insert_path k ps) in
    let first = In-insert_path a k ps in
    elim (Bool-cases (text_beq k a)) [
      | inl hit ↦
          rw hit
            (λ h. inl (λ e. cc), λ h. keys.1 (inr (first.1 (inl (sym ((text_beq_iff k a).0 hit))))))
      | inr miss ↦ rw miss (
        λ h. elim (keys.0 h) [
          | inl g ↦ inl g
          | inr i ↦ elim (first.0 i) [ inl e ↦ ground (arith, text_beq_iff k a) | inr j ↦ inr j ]
        ],
        λ h. elim h [ inl g ↦ keys.1 (inl g) | inr j ↦ keys.1 (inr (first.1 (inr j))) ],
      )
    ]

insert_keys-Ascending {ℓ} :
    {V : Type ℓ} (t : Table Text V) (ps : List Text) → Ascending ps → Ascending (insert_keys t ps)
unfolding insert_keys
insert_keys-Ascending [] ps h = h
insert_keys-Ascending ((k, v) ∷ t) ps h =
    insert_keys-Ascending t (insert_path k ps) (insert_path-Ascending k ps h)

-- The paths that a plan visits are in strictly ascending order, and are exactly those that the
-- baseline or one of the two sides knows.
pub paths_of_lem :
    (m : Table Text SyncEntry) (l r : Snapshot)
    → Ascending (paths_of m l r)
      × ((p : Text)
          → In p (paths_of m l r) ↔ ((get p m ≢ none) ⊎ ((get p l ≢ none) ⊎ (get p r ≢ none))))
unfolding paths_of
paths_of_lem m l r = (
  insert_keys-Ascending r _ (insert_keys-Ascending l _ (insert_keys-Ascending m [] tt)),
  λ p.
      let a = In-insert_keys p m [] in
      let b = In-insert_keys p l (insert_keys m []) in
      let c = In-insert_keys p r (insert_keys l (insert_keys m [])) in
      (
        λ h. elim (c.0 h) [
          | inl g ↦ inr (inr g)
          | inr i ↦ elim (b.0 i) [
            | inl g ↦ inr (inl g)
            | inr j ↦ elim (a.0 j) [ inl g ↦ inl g | inr z ↦ absurd z ]
          ]
        ],
        λ h. elim h [
          | inl g ↦ c.1 (inr (b.1 (inr (a.1 (inl g)))))
          | inr o ↦ elim o [ inl g ↦ c.1 (inr (b.1 (inl g))) | inr g ↦ c.1 (inl g) ]
        ],
      ),
)
