-- ===== src/Agent/Symlinks/Followed.antt =====
-- Where a file system that follows the names of a target comes to.
use alloyfs.Base.{
  ℕ, zero, suc, ◌≡◌, refl, ap, sym, ◌∙◌, ◌||◌, if◌then◌else◌, inl, inr, Option, none, some, List,
  [], ◌∷◌, ◌++◌, length, length-append, ◌⊎◌, take, arith, Bool-cases,
}
use mathlib.Core.Path.{subst}
use alloyfs.Base.Text.{Text, text_beq, is_empty}
use alloyfs.Proto.Path.{dot, dot_dot}
use alloyfs.Agent.Symlinks.{walk}

-- The directory above; that of the file system's root is the root.
abbrev pub parent_of : List Text → List Text
parent_of [] = []
parent_of (top ∷ at) = at

-- One name, from a directory that is given by its names from the innermost out.
abbrev pub follow_name : List Text → Text → List Text
follow_name at c =
    if is_empty c || text_beq c dot then at else if text_beq c dot_dot then parent_of at else c ∷ at

-- Names of an absolute place, followed as a file system follows them.
pub follow : List Text → List Text → List Text
follow at [] = at
follow at (c ∷ comps) = follow (follow_name at c) comps

-- A place at or below a directory.
abbrev pub IsBelow : List Text → List Text → Type 0
IsBelow root at = (names : List Text) × (at ≡ names ++ root)

stacks-same : (a b : List Text) → ◌≡◌ {A = Option (List Text)} (some a) (some b) → a ≡ b
stacks-same a b h = ground arith

-- One step of the walk is a step of the file system, wherever the export stands.
step_inside :
    (stack : List Text) (c : Text) (comps r : List Text)
    → walk stack (c ∷ comps) ≡ some r
    → (next : List Text) × (walk next comps ≡ some r)
      × ((root : List Text) → follow_name (stack ++ root) c ≡ next ++ root)
unfolding walk
step_inside [] c comps r h = elim (Bool-cases (is_empty c || text_beq c dot)) [
  | inl skip ↦ ([], (rw skip at h), λ root. rw skip refl)
  | inr kept ↦ elim (Bool-cases (text_beq c dot_dot)) [
    | inl up ↦ ground arith
    | inr name ↦ (c ∷ [], (rw (kept, name) at h), λ root. rw (kept, name) refl)
  ]
]
step_inside (top ∷ stack) c comps r h = elim (Bool-cases (is_empty c || text_beq c dot)) [
  | inl skip ↦ (top ∷ stack, (rw skip at h), λ root. rw skip refl)
  | inr kept ↦ elim (Bool-cases (text_beq c dot_dot)) [
    | inl up ↦ (stack, (rw (kept, up) at h), λ root. rw (kept, up) refl)
    | inr name ↦ (c ∷ top ∷ stack, (rw (kept, name) at h), λ root. rw (kept, name) refl)
  ]
]

-- The walk comes to where the file system does.
pub walk-follow :
    (stack comps r root : List Text)
    → walk stack comps ≡ some r
    → follow (stack ++ root) comps ≡ r ++ root
unfolding walk follow
walk-follow [] [] r root h = ap (λ s. s ++ root) (stacks-same [] r h)
walk-follow (top ∷ stack) [] r root h = ap (λ s. s ++ root) (stacks-same (top ∷ stack) r h)
walk-follow stack (c ∷ comps) r root h =
    let (next, later, step) = step_inside stack c comps r h in
    ap (λ at. follow at comps) (step root) ∙ walk-follow next comps r root later

-- On its way it is below the export.
pub walk-IsBelow :
    (stack comps r root : List Text) (steps : ℕ)
    → walk stack comps ≡ some r
    → IsBelow root (follow (stack ++ root) (take steps comps))
unfolding follow
walk-IsBelow stack comps r root zero h = (stack, refl)
walk-IsBelow stack [] r root (suc steps) h = (stack, refl)
walk-IsBelow stack (c ∷ comps) r root (suc steps) h =
    let (next, later, step) = step_inside stack c comps r h in
    let (names, e) = walk-IsBelow next comps r root steps later in
    (names, ap (λ at. follow at (take steps comps)) (step root) ∙ e)

-- A step that the walk does not take leaves the export; one that it takes is as above.
step_outside :
    (stack : List Text) (c : Text) (comps : List Text) (m : Text) (root : List Text)
    → walk stack (c ∷ comps) ≡ none
    → (follow_name (stack ++ m ∷ root) c ≡ root)
      ⊎ ((next : List Text) × (walk next comps ≡ none)
          × (follow_name (stack ++ m ∷ root) c ≡ next ++ m ∷ root))
unfolding walk
step_outside [] c comps m root h = elim (Bool-cases (is_empty c || text_beq c dot)) [
  | inl skip ↦ inr ([], (rw skip at h), rw skip refl)
  | inr kept ↦ elim (Bool-cases (text_beq c dot_dot)) [
    | inl up ↦ inl (rw (kept, up) refl)
    | inr name ↦ inr (c ∷ [], (rw (kept, name) at h), rw (kept, name) refl)
  ]
]
step_outside (top ∷ stack) c comps m root h = elim (Bool-cases (is_empty c || text_beq c dot)) [
  | inl skip ↦ inr (top ∷ stack, (rw skip at h), rw skip refl)
  | inr kept ↦ elim (Bool-cases (text_beq c dot_dot)) [
    | inl up ↦ inr (stack, (rw (kept, up) at h), rw (kept, up) refl)
    | inr name ↦ inr (c ∷ top ∷ stack, (rw (kept, name) at h), rw (kept, name) refl)
  ]
]

above : (m : Text) (root : List Text) → ¬ IsBelow (m ∷ root) root
above m root (names, e) = omega (arith, ap length e, length-append names (m ∷ root))

-- A walk that fails is one that leaves the export on its way, if this is not the file system's root.
pub walk-escapes :
    (stack comps : List Text) (m : Text) (root : List Text)
    → walk stack comps ≡ none
    → (steps : ℕ) × ¬ IsBelow (m ∷ root) (follow (stack ++ m ∷ root) (take steps comps))
unfolding walk follow
walk-escapes [] [] m root h = ground arith
walk-escapes (top ∷ stack) [] m root h = ground arith
walk-escapes stack (c ∷ comps) m root h = elim (step_outside stack c comps m root h) [
  | inl left ↦ (1, subst (λ at. ¬ IsBelow (m ∷ root) at) (sym left) (above m root))
  | inr (next, later, step) ↦
      let (steps, out) = walk-escapes next comps m root later in
      (suc steps, subst (λ at. ¬ IsBelow (m ∷ root) (follow at (take steps comps))) (sym step) out)
]
