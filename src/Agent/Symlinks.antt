-- ===== src/Agent/Symlinks.antt =====
-- `symlink_lands_inside` of crates/alloyfs-agent/src/fsutil.rs: where the target of a symbolic link
-- lands, read as text from the directory of the link.
pub mod Followed
pub mod Inside
pub mod Verdict
mod Tests
use alloyfs.Base.{
  ℕ, ◌&&◌, ◌||◌, Bool, true, false, Option, none, some, List, [], ◌∷◌, ◌++◌, leb, ◌==◌,
  if◌then◌else◌, map,
}
use alloyfs.Base.Text.{Text, text_beq, is_empty}
use alloyfs.Base.Text.Split.{split_on, join_with}
use alloyfs.Proto.Path.{RelPath, slash, backslash, dot, dot_dot, is_root, starts_with_slash, split}

abbrev is_ascii_alphabetic : ℕ → Bool
is_ascii_alphabetic c = (leb 65 c && leb c 90) || (leb 97 c && leb c 122)

-- Absolute in either dialect, or a drive letter.
abbrev pub is_absolute : Text → Bool
is_absolute [] = false
is_absolute (c ∷ []) = c == slash || c == backslash
is_absolute (c ∷ d ∷ s) = (c == slash || c == backslash) || (d == b':' && is_ascii_alphabetic c)

abbrev backslash_to_slash : ℕ → ℕ
backslash_to_slash c = if c == backslash then slash else c

-- `target.split(['/', '\\'])`
abbrev pub components : Text → List Text
components target = split_on slash (map backslash_to_slash target)

-- The stack with its top first.
pub walk : List Text → List Text → Option (List Text)
walk stack [] = some stack
walk [] (comp ∷ comps) =
    if is_empty comp || text_beq comp dot
    then walk [] comps
    else if text_beq comp dot_dot
    then none
    else walk (comp ∷ []) comps
walk (top ∷ stack) (comp ∷ comps) =
    if is_empty comp || text_beq comp dot
    then walk (top ∷ stack) comps
    else if text_beq comp dot_dot
    then walk stack comps
    else walk (comp ∷ top ∷ stack) comps

abbrev pub reversed {ℓ} : {A : Type ℓ} → List A → List A
reversed [] = []
reversed (x ∷ xs) = reversed xs ++ x ∷ []

pub directory_of : RelPath → List Text
directory_of parent = if is_root parent then [] else reversed (split_on slash parent)

pub symlink_lands_inside : RelPath → Text → Option Text
symlink_lands_inside link target = elim (split link) [
  | none ↦ none
  | some (parent, name) ↦
      if is_empty target || is_absolute target
      then none
      else elim (walk (directory_of parent) (components target)) [
        | none ↦ none
        | some stack ↦ some (join_with slash (reversed stack))
      ]
]
