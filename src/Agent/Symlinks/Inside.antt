-- ===== src/Agent/Symlinks/Inside.antt =====
-- What the walk of a target collects is names.
use alloyfs.Base.{
  ℕ, ◌≡◌, ◌≢◌, refl, ap, sym, ◌∙◌, false, ◌||◌, inl, inr, Option, some, List, [], ◌∷◌, ◌++◌, All,
  All-append, map, arith, Bool-cases, Option-cases,
}
use mathlib.Core.Path.{subst}
use alloyfs.Base.Text.{Text, text_beq, text_beq_iff, is_empty}
use alloyfs.Base.Text.Split.{
  split_on, split_on-ne-nil, onto_first, join_with, Lacks, split-join, append-rsplit_once,
  rsplit_once,
}
use alloyfs.Proto.Path.{RelPath, slash, backslash, dot, dot_dot, split}
use alloyfs.Proto.Path.Laws.{IsName, IsPath}
use alloyfs.Agent.Symlinks.{walk, reversed, backslash_to_slash, directory_of}

pub no_backslash_left : (s : Text) → Lacks backslash (map backslash_to_slash s)
no_backslash_left [] = refl
no_backslash_left (c ∷ s) = ground (arith, no_backslash_left s)

-- A component that is neither skipped nor a step up is a name.
component-IsName :
    (c : Text)
    → Lacks slash c
    → Lacks backslash c
    → (is_empty c || text_beq c dot) ≡ false
    → text_beq c dot_dot ≡ false
    → IsName c
component-IsName [] s b skip up = ground arith
component-IsName (d ∷ c) s b skip up = record {
  not_empty = λ e. ground (arith, ap is_empty e);
  not_dot = λ e. ground (arith, text_beq_iff (d ∷ c) dot);
  not_dot_dot = λ e. ground (arith, text_beq_iff (d ∷ c) dot_dot);
  no_slash = s;
  no_backslash = b;
}

stacks-same : (a b : List Text) → ◌≡◌ {A = Option (List Text)} (some a) (some b) → a ≡ b
stacks-same a b h = ground arith

pub walk-IsName :
    (stack comps r : List Text)
    → All IsName stack
    → All (Lacks slash) comps
    → All (Lacks backslash) comps
    → walk stack comps ≡ some r
    → All IsName r
unfolding walk
walk-IsName [] [] r n s b h = subst (All IsName) (stacks-same [] r (ground arith)) n
walk-IsName (top ∷ stack) [] r n s b h =
    subst (All IsName) (stacks-same (top ∷ stack) r (ground arith)) n
walk-IsName [] (c ∷ comps) r n s b h = elim (Bool-cases (is_empty c || text_beq c dot)) [
  | inl skip ↦ walk-IsName [] comps r tt s.1 b.1 (ground arith)
  | inr kept ↦ elim (Bool-cases (text_beq c dot_dot)) [
    | inl up ↦ ground arith
    | inr name ↦
        walk-IsName (c ∷ []) comps r (component-IsName c s.0 b.0 kept name, tt) s.1 b.1
          (ground arith)
  ]
]
walk-IsName (top ∷ stack) (c ∷ comps) r n s b h = elim (Bool-cases (is_empty c || text_beq c dot)) [
  | inl skip ↦ walk-IsName (top ∷ stack) comps r n s.1 b.1 (ground arith)
  | inr kept ↦ elim (Bool-cases (text_beq c dot_dot)) [
    | inl up ↦ walk-IsName stack comps r n.1 s.1 b.1 (ground arith)
    | inr name ↦
        walk-IsName (c ∷ top ∷ stack) comps r (component-IsName c s.0 b.0 kept name, n) s.1 b.1
          (ground arith)
  ]
]

pub reversed-All : (cs : List Text) → All IsName cs → All IsName (reversed cs)
reversed-All [] h = tt
reversed-All (c ∷ cs) h = All-append IsName (reversed cs) (c ∷ []) (reversed-All cs h.1) (h.0, tt)

onto_first-append :
    (c : ℕ) (ws vs : List Text) → ws ≢ [] → onto_first c (ws ++ vs) ≡ onto_first c ws ++ vs
onto_first-append c [] vs h = absurd (h refl)
onto_first-append c (w ∷ ws) vs h = refl

split_on-append :
    (sep : ℕ) (s t : Text) → split_on sep (s ++ (sep ∷ t)) ≡ split_on sep s ++ split_on sep t
unfolding split_on
split_on-append sep [] t = ground arith
split_on-append sep (c ∷ s) t = ground (
  arith,
  split_on-append sep s t,
  onto_first-append c (split_on sep s) (split_on sep t) (split_on-ne-nil sep s),
)

All-append_left : (cs ds : List Text) → All IsName (cs ++ ds) → All IsName cs
All-append_left [] ds h = tt
All-append_left (c ∷ cs) ds h = (h.0, All-append_left cs ds h.1)

pub names-Lacks : (cs : List Text) → All IsName cs → All (Lacks slash) cs
names-Lacks [] h = tt
names-Lacks (c ∷ cs) h = (h.0.no_slash, names-Lacks cs h.1)

cons-ne : (c : Text) (cs : List Text) → c ∷ cs ≢ []
cons-ne c cs h = ground arith

pub stack-IsPath : (cs : List Text) → All IsName cs → IsPath (join_with slash cs)
stack-IsPath [] h = inl refl
stack-IsPath (c ∷ cs) h = inr (c ∷ cs, (λ n. cons-ne c cs n), h, refl)

names_of_path : (p : RelPath) → p ≢ [] → IsPath p → All IsName (split_on slash p)
names_of_path p ne (inl root) = absurd (ne root)
names_of_path p ne (inr (cs, some_there, names, e)) =
    subst (All IsName)
      (sym (split-join slash cs some_there (names-Lacks cs names)) ∙ ap (split_on slash) (sym e))
      names

parent_and_name :
    (link : Text) (d : ℕ) (parent name : Text)
    → split link ≡ some (d ∷ parent, name)
    → link ≡ (d ∷ parent) ++ (slash ∷ name)
unfolding split
parent_and_name [] d parent name e = ground arith
parent_and_name (x ∷ link) d parent name e = elim (Option-cases (rsplit_once slash (x ∷ link))) [
  | inl alone ↦ ground arith
  | inr ((a, b), there) ↦ append-rsplit_once slash (x ∷ link) (d ∷ parent) name (ground arith)
]

pub directory_of-IsName :
    (link parent name : Text)
    → IsPath link
    → split link ≡ some (parent, name)
    → All IsName (directory_of parent)
unfolding split directory_of
directory_of-IsName [] parent name h e = ground arith
directory_of-IsName (x ∷ link) [] name h e = tt
directory_of-IsName (x ∷ link) (d ∷ parent) name h e = reversed-All (split_on slash (d ∷ parent)) (
    All-append_left (split_on slash (d ∷ parent)) (split_on slash name) (
      subst (All IsName)
        (ap (split_on slash) (parent_and_name (x ∷ link) d parent name e)
          ∙ split_on-append slash (d ∷ parent) name)
        (names_of_path (x ∷ link) (λ n. ground (arith, ap is_empty n)) h)))
