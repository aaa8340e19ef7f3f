-- ===== src/Agent/Symlinks/Verdict.antt =====
-- What the answer to a symbolic link means to a file system that follows it.
use alloyfs.Base.{ℕ, ◌≤◌, ◌≡◌, ◌≢◌, ◌⊎◌, Option, none, some, List, [], ◌∷◌, ◌++◌, take}
use alloyfs.Base.Text.{Text}
use alloyfs.Proto.Path.{RelPath, slash, backslash}
use alloyfs.Proto.Path.Laws.{IsPath}
use alloyfs.Agent.Symlinks.{components, directory_of}
use alloyfs.Agent.Symlinks.Followed.{follow, IsBelow}

abbrev pub IsLetter : ℕ → Type 0
IsLetter c = ((b'A' ≤ c) × (c ≤ b'Z')) ⊎ ((b'a' ≤ c) × (c ≤ b'z'))

-- Absolute in either dialect: it starts with a slash of either kind, or with a drive letter.
abbrev pub IsRooted : Text → Type 0
IsRooted [] = ⊥
IsRooted (c ∷ []) = (c ≡ slash) ⊎ (c ≡ backslash)
IsRooted (c ∷ d ∷ s) = ((c ≡ slash) ⊎ (c ≡ backslash)) ⊎ ((d ≡ b':') × IsLetter c)

-- The target is not empty and relative. Wherever the export stands, the names of the target, followed
-- from the directory of the link, stay at or below the export at every step, and come to the path.
pub record Lands (parent : RelPath) (target p : Text) : Type 0 where
  pub path : IsPath p
  pub some_target : target ≢ []
  pub relative : ¬ IsRooted target
  pub below :
      (root : List Text) (steps : ℕ)
      → IsBelow root (follow (directory_of parent ++ root) (take steps (components target)))
  pub there :
      (root : List Text)
      → follow (directory_of parent ++ root) (components target) ≡ directory_of p ++ root

-- The target is empty or absolute, or it leaves every export that is not the root of its file system.
abbrev pub Refusable : RelPath → Text → Type 0
Refusable parent target =
    (target ≡ [])
    ⊎ (IsRooted target
        ⊎ ((m : Text) (root : List Text)
            → (steps : ℕ) × ¬ IsBelow (m ∷ root)
                (follow (directory_of parent ++ m ∷ root) (take steps (components target)))))

abbrev pub IsVerdict : RelPath → Text → Option Text → Type 0
IsVerdict parent target none = Refusable parent target
IsVerdict parent target (some p) = Lands parent target p
