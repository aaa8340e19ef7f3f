-- ===== src/Client/Manifest/Moves.antt =====
-- What `rename_prefix` leaves in the manifest.
use alloyfs.Base.{
  ◌≡◌, ◌≢◌, refl, ap, ◌∙◌, false, none, some, List, [], ◌∷◌, ◌⊎◌, inl, inr, arith, Option-cases,
  Bool-cases,
}
use alloyfs.Base.Text.{Text, text_eq, text_beq, text_beq_iff}
use alloyfs.Base.Table.{Table, get, insert, get-insert}
use alloyfs.Client.Reconcile.{SyncEntry}
use alloyfs.Client.Manifest.{SyncManifest, destination, kept, moved, insert_all, rename_prefix}

get-kept :
    (from to p : Text) (e : SyncEntry) (t : Table Text SyncEntry)
    → get p (kept from to t) ≡ some e
    → destination from to p ≡ none
unfolding kept get
get-kept from to p e [] h = ground arith
get-kept from to p e ((q, f) ∷ t) h = elim (Option-cases (destination from to q)) [
  | inl stays ↦ elim (Bool-cases (text_beq q p)) [
    | inl same ↦ ap (destination from to) (ground (arith, text_beq_iff q p)) ∙ stays
    | inr other ↦ get-kept from to p e t (ground arith)
  ]
  | inr (r, goes) ↦ get-kept from to p e t (ground arith)
]

-- An entry of the moved list came from an entry whose destination it is.
abbrev Source : Text → Text → Text → Table Text SyncEntry → Type 0
Source from to p t = (q : Text) × (destination from to q ≡ some p) × (get q t ≢ none)

Source-behind :
    (from to p : Text) (t : Table Text SyncEntry) (q : Text) (f : SyncEntry)
    → Source from to p t
    → Source from to p ((q, f) ∷ t)
unfolding get
Source-behind from to p t q f (r, e, n) = (r, e, λ h. ground (arith, n))

Source-moved :
    (from to p : Text) (e : SyncEntry) (t : Table Text SyncEntry)
    → get p (moved from to t) ≡ some e
    → Source from to p t
unfolding moved get
Source-moved from to p e [] h = ground arith
Source-moved from to p e ((q, f) ∷ t) h = elim (Option-cases (destination from to q)) [
  | inl stays ↦ Source-behind from to p t q f (Source-moved from to p e t (ground arith))
  | inr (r, goes) ↦ elim (Bool-cases (text_beq r p)) [
    | inl same ↦ (q, ground (arith, text_beq_iff r p), λ n. ground (arith, text_beq_iff q q))
    | inr other ↦ Source-behind from to p t q f (Source-moved from to p e t (ground arith))
  ]
]

get-insert_all :
    (p : Text) (ms : List (Text × SyncEntry)) (t : Table Text SyncEntry)
    → get p (insert_all ms t) ≢ none
    → (get p ms ≢ none) ⊎ (get p t ≢ none)
unfolding insert_all get
get-insert_all p [] t h = inr h
get-insert_all p ((q, e) ∷ ms) t h = elim (get-insert_all p ms (insert q e t) h) [
  | inl there ↦ inl (λ n. ground (arith, there))
  | inr there ↦ elim (Bool-cases (text_beq q p)) [
    | inl same ↦ inl (λ n. ground arith)
    | inr other ↦ inr (λ n. ground (arith, there, get-insert q p e t))
  ]
]

kept_all : (from to : Text) (t : Table Text SyncEntry) → moved from to t ≡ [] → kept from to t ≡ t
unfolding moved kept
kept_all from to [] h = refl
kept_all from to ((q, f) ∷ t) h = ground (arith, kept_all from to t)

List-cases :
    (ms : List (Text × SyncEntry))
    → (ms ≡ []) ⊎ ((x : Text × SyncEntry) × (xs : List (Text × SyncEntry)) × (ms ≡ x ∷ xs))
List-cases [] = inl refl
List-cases (x ∷ xs) = inr (x, xs, refl)

unmoved :
    (m : SyncManifest) (from to : Text)
    → moved from to m.entries ≡ []
    → (rename_prefix m from to).0 ≡ m
unfolding rename_prefix insert_all
unmoved m from to h =
    let same : insert_all (moved from to m.entries) (kept from to m.entries) ≡ m.entries =
      rw (h, insert_all) (kept_all from to m.entries h) in
    ap (λ t. record m { entries = t }) same

-- After a rename no baseline is left at or under the old path: every entry is one that the rename
-- does not concern, or the destination of one that was there before. When nothing moved, the
-- manifest is as it was.
pub rename_prefix_lem :
    (m : SyncManifest) (from to : Text)
    → let (after, any_moved) = rename_prefix m from to in
      ((p : Text)
        → get p after.entries ≢ none
        → (destination from to p ≡ none)
          ⊎ ((q : Text) × (destination from to q ≡ some p) × (get q m.entries ≢ none)))
      × (any_moved ≡ false → after ≡ m)
unfolding rename_prefix
rename_prefix_lem m from to = (
  λ p h. elim (get-insert_all p (moved from to m.entries) (kept from to m.entries) h) [
    | inl came ↦ elim (Option-cases (get p (moved from to m.entries))) [
      | inl nothing ↦ absurd (came nothing)
      | inr (e, there) ↦ inr (Source-moved from to p e m.entries there)
    ]
    | inr stayed ↦ elim (Option-cases (get p (kept from to m.entries))) [
      | inl nothing ↦ absurd (stayed nothing)
      | inr (e, there) ↦ inl (get-kept from to p e m.entries there)
    ]
  ],
  λ h. elim (List-cases (moved from to m.entries)) [
    | inl nothing ↦ unmoved m from to nothing
    | inr (x, xs, there) ↦ ground arith
  ],
)
