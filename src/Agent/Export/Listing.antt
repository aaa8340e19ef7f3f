-- ===== src/Agent/Export/Listing.antt =====
-- The listing of a directory.
use alloyfs.Base.{
  ◌≡◌, refl, true, false, inl, inr, Option, none, some, List, [], ◌∷◌, arith, Bool-cases,
  Option-cases, All, All-map,
}
use mathlib.Core.Path.{subst}
use alloyfs.Base.Text.{Text}
use alloyfs.Base.Text.Order.{text_ltb, text_ltb_trans, text_ltb_irrefl, text_ltb_connex}
use alloyfs.Proto.Errors.{Result, ok, err}
use alloyfs.Proto.Path.{RelPath, join}
use alloyfs.Proto.Messages.{DirEntry}
use alloyfs.Common.Exclude.{Globset, is_excluded}
use alloyfs.Common.Files.{FileSystem, Io, done, failed, DirItem, or_code}
use alloyfs.Agent.Export.Inside.{Result-cases}
use alloyfs.Agent.Export.{
  Export, entries_of, browse, resolve, insert_entry, sort_by_name, served, cons_entry,
}

-- No name stands before a smaller one.
abbrev pub IsSorted : List DirEntry → Type 0
IsSorted [] = Unit
IsSorted (e ∷ es) = All (λ f. text_ltb f.name e.name ≡ false) es × IsSorted es

insert_entry-All :
    (P : DirEntry → Type 0) (e : DirEntry) (es : List DirEntry)
    → P e
    → All P es
    → All P (insert_entry e es)
unfolding insert_entry
insert_entry-All P e [] p h = (p, tt)
insert_entry-All P e (f ∷ es) p h = ground (arith, insert_entry-All P e es p h.1)

ltb-asym : (s t : Text) → text_ltb s t ≡ true → text_ltb t s ≡ false
ltb-asym s t h = elim (Bool-cases (text_ltb t s)) [
  | inr e ↦ e
  | inl e ↦ ground (arith, text_ltb_trans s t s h e, text_ltb_irrefl s)
]

-- What is not smaller than `t`, which is not smaller than `s`, is not smaller than `s`.
not_ltb_trans : (s t u : Text) → text_ltb t s ≡ false → text_ltb u t ≡ false → text_ltb u s ≡ false
not_ltb_trans s t u h k = elim (Bool-cases (text_ltb u s)) [
  | inr e ↦ e
  | inl e ↦ elim (Bool-cases (text_ltb t u)) [
    | inl less ↦ ground (arith, text_ltb_trans t u s less e)
    | inr not_less ↦ ground (arith, text_ltb_connex t u not_less k)
  ]
]

sort_by_name-All : (P : DirEntry → Type 0) (es : List DirEntry) → All P es → All P (sort_by_name es)
unfolding sort_by_name
sort_by_name-All P [] h = tt
sort_by_name-All P (e ∷ es) h =
    insert_entry-All P e (sort_by_name es) h.0 (sort_by_name-All P es h.1)

module _ (lib : Globset) where
  abbrev pub IsVisible : Export → RelPath → DirEntry → Type 0
  IsVisible x path e = is_excluded lib x.exclude (join path e.name) ≡ false

insert_entry-IsSorted :
    (e : DirEntry) (es : List DirEntry) → IsSorted es → IsSorted (insert_entry e es)
unfolding insert_entry
insert_entry-IsSorted e [] h = (tt, tt)
insert_entry-IsSorted e (f ∷ es) h = elim (Bool-cases (text_ltb f.name e.name)) [
  | inl less ↦
      rw (less, insert_entry)
        (
          insert_entry-All (λ g. text_ltb g.name f.name ≡ false) e es (ltb-asym f.name e.name less)
              h.0,
          insert_entry-IsSorted e es h.1,
        )
  | inr not_less ↦
      rw (not_less, insert_entry)
        ((not_less, All-map _ _ (λ g k. not_ltb_trans e.name f.name g.name not_less k) es h.0), h)
]

sort_by_name-IsSorted : (es : List DirEntry) → IsSorted (sort_by_name es)
unfolding sort_by_name
sort_by_name-IsSorted [] = tt
sort_by_name-IsSorted (e ∷ es) =
    insert_entry-IsSorted e (sort_by_name es) (sort_by_name-IsSorted es)

module _ (fs : FileSystem) (lib : Globset) (x : Export) (path : RelPath) where
  abbrev V : DirEntry → Type 0
  V = IsVisible lib x path

  served-IsVisible : (item : DirItem) (e : DirEntry) → served fs lib x path item ≡ some e → V e
  unfolding served
  served-IsVisible item e h = elim (Option-cases item.name) [
    | inl n ↦ ground (arith)
    | inr (name, n) ↦ ground (arith)
  ]

  cons_entry-All :
      (o : Option DirEntry) (r : Result (List DirEntry)) (es : List DirEntry)
      → ((e : DirEntry) → o ≡ some e → V e)
      → ((rest : List DirEntry) → r ≡ ok rest → All V rest)
      → cons_entry fs lib o r ≡ ok es
      → All V es
  cons_entry-All none r es h h' eq = h' es eq
  cons_entry-All (some e) (ok rest) es h h' eq =
      let same : (e ∷ rest) ≡ es = ground arith in subst (All V) same (h e refl, h' rest refl)
  cons_entry-All (some e) (err c) es h h' eq = ground arith

  entries_of-All :
      (items : List (Io DirItem)) (es : List DirEntry)
      → entries_of fs lib x path items ≡ ok es
      → All V es
  unfolding entries_of
  entries_of-All [] es h = let same : [] ≡ es = ground arith in subst (All V) same tt
  entries_of-All (failed e ∷ items) es h = ground arith
  entries_of-All (done item ∷ items) es h =
      cons_entry-All (served fs lib x path item) (entries_of fs lib x path items) es
        (served-IsVisible item) (entries_of-All items) h

  IsSorted-result :
      (r : Result (List DirEntry)) (es : List DirEntry)
      → ((found : List DirEntry) → r ≡ ok found → All V found)
      → elim r [ err c ↦ err c | ok entries ↦ ok (sort_by_name entries) ] ≡ ok es
      → All V es × IsSorted es
  IsSorted-result (ok found) es h eq =
      let same : sort_by_name found ≡ es = ground arith in
      subst (λ t. All V t × IsSorted t) same
        (sort_by_name-All V found (h found refl), sort_by_name-IsSorted found)
  IsSorted-result (err c) es h eq = ground arith

  -- A listing is sorted by name, and no entry of it is excluded.
  pub browse-IsSorted :
      (disk : fs.State) (es : List DirEntry)
      → browse fs lib disk x path ≡ ok es
      → All (IsVisible lib x path) es × IsSorted es
  unfolding browse
  browse-IsSorted disk es h = elim (Result-cases (resolve fs lib disk x path)) [
    | inr (c, r) ↦ ground arith
    | inl (full, r) ↦ elim (Result-cases (or_code (fs.read_dir disk full))) [
      | inr (c, d) ↦ ground arith
      | inl (items, d) ↦
          IsSorted-result (entries_of fs lib x path items) es (entries_of-All items) (ground arith)
    ]
  ]
