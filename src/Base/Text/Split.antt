-- ===== src/Base/Text/Split.antt =====
-- `str::split`, `join` and `rsplit_once` at one character, and how they undo one another.
use Prim.Native.Nat.{ℕ}
use mathlib.Core.Path.{◌≡◌, refl}
use mathlib.Core.Logic.{◌≢◌}
use mathlib.Core.Bool.{false}
use mathlib.Core.Option.{Option, none, some}
use mathlib.Core.List.{List, [], ◌∷◌, ◌++◌}
use native.Mathlib.Omega.{arith}
use alloyfs.Base.Tests.{◌==◌, if◌then◌else◌}
use alloyfs.Base.Lists.{All}
use alloyfs.Base.Text.{Text, contains}

-- Put a character before the first piece.
abbrev pub onto_first : ℕ → List Text → List Text
onto_first c [] = (c ∷ []) ∷ []
onto_first c (w ∷ ws) = (c ∷ w) ∷ ws

unfoldable pub split_on : ℕ → Text → List Text
split_on sep [] = [] ∷ []
split_on sep (c ∷ s) =
    let rest = split_on sep s in if c == sep then [] ∷ rest else onto_first c rest

abbrev pub join_with : ℕ → List Text → Text
join_with sep [] = []
join_with sep (w ∷ []) = w
join_with sep (w ∷ v ∷ ws) = w ++ (sep ∷ join_with sep (v ∷ ws))

-- At the last occurrence.
unfoldable pub rsplit_once : ℕ → Text → Option (Text × Text)
rsplit_once sep [] = none
rsplit_once sep (c ∷ s) = elim (rsplit_once sep s) [
  | some (a, b) ↦ some (c ∷ a, b)
  | none ↦ if c == sep then some ([], s) else none
]

pub split_on-ne-nil : (sep : ℕ) (s : Text) → split_on sep s ≢ []
unfolding split_on
split_on-ne-nil sep [] h = cc
split_on-ne-nil sep (c ∷ s) h =
    elim (split_on sep s) as (λ r. (if c == sep then [] ∷ r else onto_first c r) ≡ [] → ⊥) [
      | [] ↦ λ h. ground arith
      | x ∷ xs ↦ λ h. ground arith
    ]
      h

join-onto_first :
    (sep c : ℕ) (ws : List Text) → join_with sep (onto_first c ws) ≡ c ∷ join_with sep ws
join-onto_first sep c [] = refl
join-onto_first sep c (w ∷ []) = refl
join-onto_first sep c (w ∷ v ∷ ws) = refl

join-nil_first :
    (sep : ℕ) (ws : List Text) → ws ≢ [] → join_with sep ([] ∷ ws) ≡ sep ∷ join_with sep ws
join-nil_first sep [] h = absurd (h refl)
join-nil_first sep (w ∷ ws) h = refl

-- Joining the pieces gives the text back.
pub join-split : (sep : ℕ) (s : Text) → join_with sep (split_on sep s) ≡ s
unfolding split_on
join-split sep [] = refl
join-split sep (c ∷ s) = ground (
  arith,
  join-split sep s,
  join-onto_first sep c (split_on sep s),
  join-nil_first sep (split_on sep s) (split_on-ne-nil sep s),
)

abbrev pub Lacks : ℕ → Text → Type 0
Lacks c s = contains c s ≡ false

split-lacking : (sep : ℕ) (w : Text) → Lacks sep w → split_on sep w ≡ w ∷ []
unfolding split_on
split-lacking sep [] h = refl
split-lacking sep (c ∷ w) h = ground (arith, split-lacking sep w)

split-append :
    (sep : ℕ) (w s : Text) → Lacks sep w → split_on sep (w ++ (sep ∷ s)) ≡ w ∷ split_on sep s
unfolding split_on
split-append sep [] s h = ground arith
split-append sep (c ∷ w) s h = ground (arith, split-append sep w s)

-- Pieces without the separator come back from their join.
pub split-join :
    (sep : ℕ) (ws : List Text) → ws ≢ [] → All (Lacks sep) ws → split_on sep (join_with sep ws) ≡ ws
split-join sep [] h l = absurd (h refl)
split-join sep (w ∷ []) h l = split-lacking sep w l.0
split-join sep (w ∷ v ∷ ws) h l =
    rw (split-append sep w (join_with sep (v ∷ ws)) l.0, split-join sep (v ∷ ws) (λ e. cc) l.1)

onto_first-Lacks :
    (sep c : ℕ) (ws : List Text)
    → (c == sep) ≡ false
    → All (Lacks sep) ws
    → All (Lacks sep) (onto_first c ws)
onto_first-Lacks sep c [] h l = (rw h, tt)
onto_first-Lacks sep c (w ∷ ws) h l = (rw h l.0, l.1)

-- No piece has the separator.
pub split-Lacks : (sep : ℕ) (s : Text) → All (Lacks sep) (split_on sep s)
unfolding split_on
split-Lacks sep [] = (refl, tt)
split-Lacks sep (c ∷ s) = ground (
  arith,
  split-Lacks sep s,
  λ (h : (c == sep) ≡ false). onto_first-Lacks sep c (split_on sep s) h (split-Lacks sep s),
)

pub rsplit_once-lacking : (sep : ℕ) (w : Text) → Lacks sep w → rsplit_once sep w ≡ none
unfolding rsplit_once
rsplit_once-lacking sep [] h = refl
rsplit_once-lacking sep (c ∷ w) h = ground (arith, rsplit_once-lacking sep w)

-- A text without the separator, behind one, is what the last separator splits off.
pub rsplit_once-append :
    (sep : ℕ) (s w : Text) → Lacks sep w → rsplit_once sep (s ++ (sep ∷ w)) ≡ some (s, w)
unfolding rsplit_once
rsplit_once-append sep [] w h = ground (arith, rsplit_once-lacking sep w h)
rsplit_once-append sep (c ∷ s) w h = rw (rsplit_once-append sep s w h)

-- What is split off is joined back by the separator.
pub append-rsplit_once :
    (sep : ℕ) (s a b : Text) → rsplit_once sep s ≡ some (a, b) → s ≡ a ++ (sep ∷ b)
unfolding rsplit_once
append-rsplit_once sep [] a b h = cc
append-rsplit_once sep (c ∷ s) [] b h = ground (arith, append-rsplit_once sep s [] b)
append-rsplit_once sep (c ∷ s) (d ∷ a) b h = ground (arith, append-rsplit_once sep s a b)

contains-append : (c : ℕ) (s t : Text) → Lacks c s → Lacks c t → Lacks c (s ++ t)
contains-append c [] t hs ht = ht
contains-append c (d ∷ s) t hs ht = ground (arith, contains-append c s t)

onto_first-Lacks_char :
    (c d : ℕ) (ws : List Text)
    → (d == c) ≡ false
    → All (Lacks c) ws
    → All (Lacks c) (onto_first d ws)
onto_first-Lacks_char c d [] h l = (rw h, tt)
onto_first-Lacks_char c d (w ∷ ws) h l = (rw h l.0, l.1)

-- A character that is not in the text is in no piece.
pub split-Lacks_char : (sep c : ℕ) (s : Text) → Lacks c s → All (Lacks c) (split_on sep s)
unfolding split_on
split-Lacks_char sep c [] h = (refl, tt)
split-Lacks_char sep c (d ∷ s) h = ground (
  arith,
  split-Lacks_char sep c s,
  λ (e : (d == c) ≡ false) (l : Lacks c s).
      onto_first-Lacks_char c d (split_on sep s) e (split-Lacks_char sep c s l),
)

-- A character that is in no piece and is not the separator is not in the join.
pub join-Lacks :
    (sep c : ℕ) (ws : List Text)
    → (sep == c) ≡ false
    → All (Lacks c) ws
    → Lacks c (join_with sep ws)
join-Lacks sep c [] h l = refl
join-Lacks sep c (w ∷ []) h l = l.0
join-Lacks sep c (w ∷ v ∷ ws) h l =
    contains-append c w _ l.0 (rw h (join-Lacks sep c (v ∷ ws) h l.1))
