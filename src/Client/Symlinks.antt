-- ===== src/Client/Symlinks.antt =====
-- crates/alloyfs-client/src/symlink.rs: the target of a symbolic link that points back into the mount.
-- `to_uppercase` of the standard library is a parameter. A text is cut behind the characters of the
-- prefix; the source cuts behind its bytes.
mod Tests
use alloyfs.Base.{
  ℕ, zero, suc, ◌+◌, ◌-◌, Bool, true, false, not, ◌&&◌, List, [], ◌∷◌, ◌++◌, length, drop, map, leb,
  ◌==◌, if◌then◌else◌, is_none,
}
use alloyfs.Base.Text.{Text, is_empty, strip_prefix}
use alloyfs.Base.Text.Split.{split_on, join_with}
use alloyfs.Proto.Path.{RelPath, is_root, slash, dot, dot_dot}
use alloyfs.Common.Coalesce.{to_forward_slash}
use alloyfs.Common.Exclude.{trim_end_slashes}

abbrev pub trim_start_slashes : Text → Text
trim_start_slashes [] = []
trim_start_slashes (c ∷ s) = let rest = trim_start_slashes s in if c == slash then rest else c ∷ s

abbrev pub ascii_upper : ℕ → ℕ
ascii_upper c = if leb 97 c && leb c 122 then c - 32 else c

-- `eq_ignore_ascii_case`
abbrev pub same_letters : Text → Text → Bool
same_letters [] [] = true
same_letters [] (d ∷ t) = false
same_letters (c ∷ s) [] = false
same_letters (c ∷ s) (d ∷ t) = (ascii_upper c == ascii_upper d) && same_letters s t

-- How many components from the front agree.
unfoldable pub shared_count : List Text → List Text → ℕ
shared_count [] to = 0
shared_count (a ∷ from) [] = 0
shared_count (a ∷ from) (b ∷ to) =
    let rest = shared_count from to in if same_letters a b then suc rest else 0

abbrev pub replicate : ℕ → Text → List Text
replicate zero t = []
replicate (suc n) t = t ∷ replicate n t

abbrev pub split_path : Text → List Text
split_path p = if is_empty p then [] else split_on slash p

-- Up out of the directory of the link, and down to the target.
unfoldable pub relative : (from to : List Text) → List Text
relative from to =
    let shared = shared_count from to in replicate (length from - shared) dot_dot ++ drop shared to

abbrev pub or_dot : List Text → Text
or_dot [] = dot
or_dot (c ∷ cs) = join_with slash (c ∷ cs)

abbrev pub mount_prefix : Text → Text
mount_prefix root = trim_end_slashes (map to_forward_slash root) ++ slash ∷ []

-- The target below the mount.
abbrev pub below : Text → Text → Text
below root norm = trim_start_slashes (drop (length (mount_prefix root)) norm)

unfoldable pub localize_symlink_target :
    (to_uppercase : Text → Text) (mount_root target : Text) → RelPath → Text
unfolding relative
localize_symlink_target to_uppercase mount_root target link_dir =
    let norm = map to_forward_slash target in
    if is_none (strip_prefix (to_uppercase (mount_prefix mount_root)) (to_uppercase norm))
    then target
    else or_dot (relative (split_path link_dir) (split_path (below mount_root norm)))
