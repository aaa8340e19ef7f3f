-- ===== src/Common/Exclude.antt =====
-- crates/alloyfs-common/src/exclude.rs: gitignore-flavoured exclude matching. The glob matcher of the
-- `globset` crate is a parameter: the globs that a pattern expands to are the program's.
pub mod Laws
mod Tests
use alloyfs.Base.{
  ℕ, ◌≡◌, refl, ◌↔◌, ◌⊎◌, inl, inr, ◌*◌, Bool, true, false, not, ◌&&◌, ◌||◌, Option, none, some,
  List, [], ◌∷◌, ◌++◌, map, any, arith, if◌then◌else◌, ◌==◌, Bool-cases,
}
use alloyfs.Base.Text.{Text, chars, contains, is_empty}
use alloyfs.Proto.Path.{RelPath, is_root, slash}

abbrev pub local_artifacts : List Text
local_artifacts =
    chars "System Volume Information"
    ∷ chars "$RECYCLE.BIN"
    ∷ chars "RECYCLER"
    ∷ chars "Thumbs.db"
    ∷ chars "ehthumbs.db"
    ∷ chars "desktop.ini"
    ∷ chars ".DS_Store"
    ∷ chars ".Spotlight-V100"
    ∷ chars ".Trashes"
    ∷ chars ".fseventsd"
    ∷ chars ".TemporaryItems"
    ∷ chars ".DocumentRevisions-V100"
    ∷ chars ".AppleDouble"
    ∷ chars "lost+found"
    ∷ chars ".Trash-*"
    ∷ []

-- A compiled glob, with the two options that the program sets (`literal_separator` is always set).
pub record Glob : Type 0 where
  pub pattern : Text
  pub case_insensitive : Bool

-- `globset`: whether a glob builds, and whether it matches a path. A set matches if a glob does.
pub record Globset : Type 0 where
  pub builds : Glob → Bool
  pub matches : Glob → Text → Bool

pub record ExcludeSet : Type 0 where
  pub set : List Glob
  pub empty : Bool
  pub artifacts : Option (List Glob)

abbrev strip_onto : ℕ → Text → Text
strip_onto c [] = if c == slash then [] else c ∷ []
strip_onto c (d ∷ s) = c ∷ d ∷ s

-- `trim_end_matches('/')`
unfoldable pub trim_end_slashes : Text → Text
trim_end_slashes [] = []
trim_end_slashes (c ∷ s) = strip_onto c (trim_end_slashes s)

pub variants : Text → List Text
variants p =
    let inside = p ++ chars "/**" in
    if contains slash p
    then p ∷ inside ∷ []
    else p ∷ inside ∷ (chars "**/" ++ p) ∷ (chars "**/" ++ inside) ∷ []

module _ (lib : Globset) where
  all_build : List Glob → Bool
  all_build [] = true
  all_build (g ∷ gs) = lib.builds g && all_build gs

  -- The globs of all patterns; `none` is the error of an empty pattern or a bad glob.
  pub compile_globs : Bool → List Text → Option (List Glob)
  unfolding all_build
  compile_globs ci [] = some []
  compile_globs ci (p ∷ ps) =
      let trimmed = trim_end_slashes p in
      let globs = map (λ v. record { pattern = v; case_insensitive = ci }) (variants trimmed) in
      let rest = compile_globs ci ps in
      if is_empty trimmed
      then none
      else if all_build globs
      then elim rest [ none ↦ none | some gs ↦ some (globs ++ gs) ]
      else none

  -- `ExcludeSet::compile`
  pub compile : List Text → Bool → Option ExcludeSet
  compile ps ci = elim (compile_globs ci ps) [
    | none ↦ none
    | some globs ↦
        some (record { set = globs; empty = elim ps [ [] ↦ true | _ ↦ false ]; artifacts = none })
  ]

  -- `ExcludeSet::compile_with_defaults`
  pub compile_with_defaults : List Text → Bool → Option ExcludeSet
  compile_with_defaults ps ci = elim (compile ps ci) [
    | none ↦ none
    | some x ↦ elim (compile local_artifacts true) [
      | none ↦ none
      | some a ↦ some (record x { artifacts = some a.set })
    ]
  ]

  abbrev pub is_match : List Glob → RelPath → Bool
  is_match globs path = any (λ g. lib.matches g path) globs

  unfoldable pub is_excluded : ExcludeSet → RelPath → Bool
  is_excluded x path =
      if is_root path
      then false
      else if elim x.artifacts [ none ↦ false | some a ↦ is_match a path ]
      then true
      else if x.empty
      then false
      else is_match x.set path

  -- Some pattern of the list, trimmed and expanded, matches the path.
  abbrev pub matched_by : List Text → Bool → RelPath → Bool
  matched_by ps ci path =
      any
        (λ p.
          any (λ v. lib.matches (record { pattern = v; case_insensitive = ci }) path)
            (variants (trim_end_slashes p)))
        ps
