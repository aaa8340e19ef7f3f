-- ===== src/Proto/Path/Laws.antt =====
-- What `validate` accepts, and how `join` and `split` fit together.
use alloyfs.Base.{
  ◌≡◌, refl, ap, ◌≢◌, ◌↔◌, ◌⊎◌, inl, inr, false, some, List, [], ◌∷◌, arith, All, any,
}
use alloyfs.Base.Text.{Text, text_beq_iff, is_empty}
use alloyfs.Base.Text.Split.{
  split_on, split_on-ne-nil, join_with, Lacks, rsplit_once-append, rsplit_once-lacking, split-join,
  join-split, split-Lacks, split-Lacks_char, join-Lacks,
}
use alloyfs.Proto.Errors.{ok}
use alloyfs.Proto.Path.{
  RelPath, slash, backslash, dot, dot_dot, is_bad_component, starts_with_slash, validate, join,
  split,
}

-- A path component that names a file: not empty, not `.` or `..`, with no separator in it.
pub record IsName (c : Text) : Type 0 where
  pub not_empty : c ≢ []
  pub not_dot : c ≢ dot
  pub not_dot_dot : c ≢ dot_dot
  pub no_slash : Lacks slash c
  pub no_backslash : Lacks backslash c

-- A name joined to a path is split off again, with the path as its parent.
pub split-join_name :
    (p : RelPath) (name : Text) → IsName name → split (join p name) ≡ some (p, name)
unfolding split join
split-join_name [] [] h = absurd (h.not_empty refl)
split-join_name [] (c ∷ s) h = rw (rsplit_once-lacking slash (c ∷ s) h.no_slash)
split-join_name (d ∷ p) name h = rw (rsplit_once-append slash (d ∷ p) name h.no_slash)

-- The path is the root, or names joined by slashes.
abbrev pub IsPath : RelPath → Type 0
IsPath p = (p ≡ []) ⊎ ((cs : List Text) × (cs ≢ []) × All IsName cs × (p ≡ join_with slash cs))

names_of :
    (p : RelPath) (cs : List Text)
    → p ≢ []
    → any (is_bad_component p) cs ≡ false
    → All (Lacks slash) cs
    → All (Lacks backslash) cs
    → All IsName cs
names_of p [] h b s w = tt
names_of [] (c ∷ cs) h b s w = absurd (h refl)
names_of (d ∷ p) (c ∷ cs) h b s w = (
  record {
    not_empty = λ e. ground (arith, ap is_empty e);
    not_dot = λ e. ground (arith, text_beq_iff c dot);
    not_dot_dot = λ e. ground (arith, text_beq_iff c dot_dot);
    no_slash = s.0;
    no_backslash = w.0;
  },
  names_of (d ∷ p) cs h (ground arith) s.1 w.1,
)

no_bad_component :
    (p : RelPath) (cs : List Text) → All IsName cs → any (is_bad_component p) cs ≡ false
no_bad_component p [] h = refl
no_bad_component p ([] ∷ cs) h = absurd (h.0.not_empty refl)
no_bad_component p ((d ∷ c) ∷ cs) h = ground (
  arith,
  no_bad_component p cs h.1,
  text_beq_iff (d ∷ c) dot,
  text_beq_iff (d ∷ c) dot_dot,
  h.0.not_dot,
  h.0.not_dot_dot,
)

join-starts_with_slash :
    (cs : List Text) → All IsName cs → starts_with_slash (join_with slash cs) ≡ false
join-starts_with_slash [] h = refl
join-starts_with_slash ([] ∷ cs) h = absurd (h.0.not_empty refl)
join-starts_with_slash ((d ∷ c) ∷ []) h = ground (arith, h.0.no_slash)
join-starts_with_slash ((d ∷ c) ∷ v ∷ cs) h = ground (arith, h.0.no_slash)

IsName-Lacks-backslash : (cs : List Text) → All IsName cs → All (Lacks backslash) cs
IsName-Lacks-backslash [] h = tt
IsName-Lacks-backslash (c ∷ cs) h = (h.0.no_backslash, IsName-Lacks-backslash cs h.1)

pub IsName-Lacks-slash : (cs : List Text) → All IsName cs → All (Lacks slash) cs
IsName-Lacks-slash [] h = tt
IsName-Lacks-slash (c ∷ cs) h = (h.0.no_slash, IsName-Lacks-slash cs h.1)

validate_sound : (p : RelPath) → validate p ≡ ok tt → IsPath p
unfolding validate
validate_sound [] h = inl refl
validate_sound (d ∷ p) h = inr (
  split_on slash (d ∷ p),
  split_on-ne-nil slash (d ∷ p),
  names_of (d ∷ p) (split_on slash (d ∷ p)) (λ e. cc) (ground arith) (split-Lacks slash (d ∷ p))
      (split-Lacks_char slash backslash (d ∷ p) (ground arith)),
  ground (arith, join-split slash (d ∷ p)),
)

validate-join_names :
    (cs : List Text) → cs ≢ [] → All IsName cs → validate (join_with slash cs) ≡ ok tt
unfolding validate
validate-join_names cs h names = rw (
  join-starts_with_slash cs names,
  join-Lacks slash backslash cs refl (IsName-Lacks-backslash cs names),
  split-join slash cs h (IsName-Lacks-slash cs names),
  no_bad_component (join_with slash cs) cs names,
)

-- `validate` accepts a path exactly when it is the root, or a sequence of names joined by slashes.
pub validate_iff : (p : RelPath) → (validate p ≡ ok tt) ↔ IsPath p
validate_iff p = (validate_sound p, complete p)
  where
    complete : (p : RelPath) → IsPath p → validate p ≡ ok tt
    complete p (inl e) = rw e (unfold validate split_on in refl)
    complete p (inr (cs, h, names, e)) = rw e (validate-join_names cs h names)
