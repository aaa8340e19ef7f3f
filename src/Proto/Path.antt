-- ===== src/Proto/Path.antt =====
-- `RelPath` of crates/alloyfs-proto/src/messages.rs: a path relative to an export root.
pub mod Laws
mod Tests
use alloyfs.Base.{
  ℕ, ◌+◌, ◌≡◌, Bool, true, false, not, ◌&&◌, ◌||◌, Option, none, some, List, [], ◌∷◌, ◌++◌, any,
  if◌then◌else◌, ◌==◌,
}
use alloyfs.Base.Text.{Text, text_beq, is_empty, contains, strip_prefix}
use alloyfs.Base.Text.Split.{split_on, rsplit_once}
use alloyfs.Proto.Errors.{Result, ok, err, invalid_path}

abbrev pub slash : ℕ
slash = b'/'

abbrev pub backslash : ℕ
backslash = 92

abbrev pub dot : Text
dot = b'.' ∷ []

abbrev pub dot_dot : Text
dot_dot = b'.' ∷ b'.' ∷ []

abbrev pub RelPath : Type 0
RelPath = Text

abbrev pub is_root : RelPath → Bool
is_root p = is_empty p

abbrev pub starts_with_slash : Text → Bool
starts_with_slash [] = false
starts_with_slash (c ∷ s) = c == slash

-- The component test of `validate`, for a component of the text `s`.
abbrev pub is_bad_component : Text → Text → Bool
is_bad_component s c = (is_empty c && not (is_empty s)) || text_beq c dot || text_beq c dot_dot

unfoldable pub validate : RelPath → Result (Unit {0})
validate s =
    if starts_with_slash s || contains backslash s
    then err invalid_path
    else if any (is_bad_component s) (split_on slash s)
    then err invalid_path
    else ok tt

unfoldable pub join : RelPath → Text → RelPath
join p name = if is_empty p then name else p ++ (slash ∷ name)

-- (parent, file name); the root has neither.
unfoldable pub split : RelPath → Option (RelPath × Text)
split p = if is_root p then none else elim (rsplit_once slash p) [
  | some (parent, name) ↦ some (parent, name)
  | none ↦ some ([], p)
]
