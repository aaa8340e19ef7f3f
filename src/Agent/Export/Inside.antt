-- ===== src/Agent/Export/Inside.antt =====
-- Where a path that a request names ends up.
use alloyfs.Base.{
  ◌≡◌, refl, true, false, ◌⊎◌, inl, inr, some, List, [], ◌∷◌, ◌++◌, map, arith, Bool-cases,
  Option-cases,
}
use mathlib.Core.Path.{subst}
use alloyfs.Base.Text.{Text, text_beq_iff}
use alloyfs.Base.Text.Split.{join_with, split_on}
use alloyfs.Proto.Errors.{ErrorCode, Result, ok, err}
use alloyfs.Proto.Path.{RelPath, is_root, validate, split, slash}
use alloyfs.Common.Exclude.{Globset, is_excluded}
use alloyfs.Common.Coalesce.{strip_components, to_forward_slash}
use alloyfs.Common.Coalesce.Events.{PathBuf}
use alloyfs.Common.Files.{FileSystem, Io, done, failed}
use alloyfs.Agent.Export.{
  Export, push_all, starts_with, inside, resolve_unchecked, recheck, resolve, resolve_new,
}

append-strip_components : (r c rest : List Text) → strip_components r c ≡ some rest → c ≡ r ++ rest
append-strip_components [] c rest h = ground arith
append-strip_components (r ∷ rs) [] rest h = ground arith
append-strip_components (r ∷ rs) (c ∷ cs) rest h =
    ground (arith, text_beq_iff r c, append-strip_components rs cs rest)

strip_components_self : (r : List Text) → strip_components r r ≡ some []
strip_components_self [] = refl
strip_components_self (r ∷ rs) = ground (arith, text_beq_iff r r, strip_components_self rs)

pub Result-cases :
    {A : Type 0} (r : Result A) → ((a : A) × (r ≡ ok a)) ⊎ ((e : ErrorCode) × (r ≡ err e))
Result-cases (ok a) = inl (a, refl)
Result-cases (err e) = inr (e, refl)

-- The path is the root with components behind it.
pub record IsUnder (root full : PathBuf) : Type 0 where
  pub rest : List Text
  pub split_off : strip_components root.components full.components ≡ some rest

-- The path lies under the root, and what lies behind the root is not excluded where it is text and
-- the user excluded something.
pub record IsServed (lib : Globset) (x : Export) (full : PathBuf) : Type 0 where
  pub under : IsUnder x.root full
  pub visible :
      x.exclude.empty ≡ false
      → full.is_unicode ≡ true
      → is_excluded lib x.exclude (map to_forward_slash (join_with slash under.rest)) ≡ false

starts_with-IsUnder : (canon root : PathBuf) → starts_with canon root ≡ true → IsUnder root canon
starts_with-IsUnder canon root h =
    elim (Option-cases (strip_components root.components canon.components)) [
      | inl e ↦ ground arith
      | inr (rest, e) ↦ record { rest = rest; split_off = e }
    ]

ok-injective : {A : Type 0} (a b : A) → Result.ok a ≡ ok b → a ≡ b
ok-injective a b h = cc

inside-IsUnder :
    (root : PathBuf) (r : Io PathBuf) (full : PathBuf) → inside root r ≡ ok full → IsUnder root full
inside-IsUnder root (failed e) full h = ground arith
inside-IsUnder root (done canon) full h = elim (Bool-cases (starts_with canon root)) [
  | inl e ↦
      let same : canon ≡ full = ground arith in
      subst (IsUnder root) same (starts_with-IsUnder canon root e)
  | inr e ↦ ground arith
]

module _ (fs : FileSystem) where
  resolve_unchecked-IsUnder :
      (disk : fs.State) (root : PathBuf) (rel : RelPath) (full : PathBuf)
      → resolve_unchecked fs disk root rel ≡ ok full
      → (validate rel ≡ ok tt) × IsUnder root full
  unfolding resolve_unchecked
  resolve_unchecked-IsUnder disk root rel full h = elim (Result-cases (validate rel)) [
    | inr (e, bad) ↦ ground arith
    | inl (u, good) ↦ (
      good,
      elim (Bool-cases (is_root rel)) [
        | inl e ↦
            let same : root ≡ full = ground arith in
            subst (IsUnder root) same
              (record { rest = []; split_off = strip_components_self root.components })
        | inr e ↦
            let target = push_all root (split_on slash rel) in
            inside-IsUnder root (fs.canonicalize disk target) full (ground arith)
      ],
    )
  ]

  module _ (lib : Globset) where
    recheck-IsServed :
        (x : Export) (full found : PathBuf)
        → IsUnder x.root full
        → recheck fs lib x full ≡ ok found
        → IsServed lib x found
    unfolding recheck
    recheck-IsServed x full found under h =
        let same : full ≡ found = ground arith in
        subst (IsServed lib x) same
          (record { under = under; visible = λ e u. ground (arith, under.split_off) })

    -- A path that resolves is valid and not excluded, and what it resolves to lies under the root of
    -- the export. What lies behind the root there is not excluded either, where it is text and the
    -- excludes of the export have patterns of their own.
    pub resolve-IsServed :
        (disk : fs.State) (x : Export) (rel : RelPath) (full : PathBuf)
        → resolve fs lib disk x rel ≡ ok full
        → (is_excluded lib x.exclude rel ≡ false) × (validate rel ≡ ok tt) × IsServed lib x full
    unfolding resolve
    resolve-IsServed disk x rel full h = elim (Bool-cases (is_excluded lib x.exclude rel)) [
      | inl e ↦ ground arith
      | inr e ↦ elim (Result-cases (resolve_unchecked fs disk x.root rel)) [
        | inr (code, r) ↦ ground arith
        | inl (canon, r) ↦
            let (valid, under) = resolve_unchecked-IsUnder disk x.root rel canon r in
            (e, valid, recheck-IsServed x canon full under (ground arith))
      ]
    ]

    -- A path that may not exist yet resolves only if it is valid, not excluded and not the root: to
    -- its name behind what its parent resolves to.
    pub resolve_new-IsServed :
        (disk : fs.State) (x : Export) (rel : RelPath) (full : PathBuf)
        → resolve_new fs lib disk x rel ≡ ok full
        → (is_excluded lib x.exclude rel ≡ false)
          × (validate rel ≡ ok tt)
          × ((parent : RelPath) × (leaf : Text) × (at : PathBuf) × (split rel ≡ some (parent, leaf))
              × (full ≡ push_all at (leaf ∷ []))
              × (resolve fs lib disk x parent ≡ ok at))
    unfolding resolve_new
    resolve_new-IsServed disk x rel full h = elim (Bool-cases (is_excluded lib x.exclude rel)) [
      | inl e ↦ ground arith
      | inr e ↦ elim (Result-cases (validate rel)) [
        | inr (code, bad) ↦ ground arith
        | inl (u, good) ↦ elim (Option-cases (split rel)) [
          | inl none_left ↦ ground arith
          | inr ((parent, leaf), two) ↦ elim (Result-cases (resolve fs lib disk x parent)) [
            | inr (code, r) ↦ ground arith
            | inl (at, r) ↦ (e, good, (parent, leaf, at, two, ground arith, r))
          ]
        ]
      ]
    ]
