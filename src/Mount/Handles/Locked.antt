-- ===== src/Mount/Handles/Locked.antt =====
-- The cache keeps what is locked, and its bound otherwise.
use alloyfs.Base.{
  ℕ, zero, suc, ◌+◌, ◌≤◌, ◌<◌, ◌≡◌, ◌≢◌, refl, ap, sym, ◌∙◌, ◌⊎◌, inl, inr, Bool, true, false,
  Option, none, some, [], ◌∷◌, length, ltb, nat_eq, arith, ◌==◌, ==_iff, Bool-cases, Option-cases,
}
use mathlib.Core.Path.{subst}
use native.Mathlib.Decide.{ℕ_discrete}
use alloyfs.Base.Table.{Table, get, insert, remove, get-remove, get-insert_ne, get-insert_self}
use alloyfs.Base.Table.Values.{AllValues, get-AllValues}
use alloyfs.Base.Table.Sums.{Distinct, remove-absent, remove-Distinct, insert-Distinct}
use alloyfs.Mount.Handles.{
  Handle, HandleCache, handle_cache_cap, is_locked, victim, older, evict, install_handle,
}

abbrev pub IsLocked : Handle → Type 0
IsLocked h = h.locked ≡ true

-- What the victim is: an entry of the table that is not locked, and of those the one whose last use is
-- the longest ago.
record IsVictim (t : Table ℕ Handle) (id : ℕ) (h : Handle) : Type 0 where
  present : get id t ≡ some h
  unlocked : h.locked ≡ false
  oldest : (k : ℕ) (f : Handle) → get k t ≡ some f → f.locked ≡ false → h.used ≤ f.used

some-same : (a b : Handle) → ◌≡◌ {A = Option Handle} (some a) (some b) → a ≡ b
some-same a b e = cc

-- An entry is the first one, or stands behind it.
cons-cases :
    (j k : ℕ) (g f : Handle) (t : Table ℕ Handle)
    → get k ((j, g) ∷ t) ≡ some f
    → (g ≡ f) ⊎ (get k t ≡ some f)
unfolding get
cons-cases j k g f t e = elim (Bool-cases (j == k)) [
  | inl same ↦ inl (some-same g f (rw same at e))
  | inr other ↦ inr (rw other at e)
]

cons-oldest :
    (j : ℕ) (g : Handle) (t : Table ℕ Handle) (used : ℕ)
    → (g.locked ≡ false → used ≤ g.used)
    → ((k : ℕ) (f : Handle) → get k t ≡ some f → f.locked ≡ false → used ≤ f.used)
    → (k : ℕ) (f : Handle) → get k ((j, g) ∷ t) ≡ some f
    → f.locked ≡ false
    → used ≤ f.used
cons-oldest j g t used first others k f e u = elim (cons-cases j k g f t e) [
  | inl same ↦ subst (λ x. x.locked ≡ false → used ≤ x.used) same first u
  | inr behind ↦ others k f behind u
]

IsVictim-cons :
    (j : ℕ) (g : Handle) (t : Table ℕ Handle) (id : ℕ) (h : Handle)
    → get j t ≡ none
    → (g.locked ≡ false → h.used ≤ g.used)
    → IsVictim t id h
    → IsVictim ((j, g) ∷ t) id h
unfolding get
IsVictim-cons j g t id h absent first v = record {
  present = elim (Bool-cases (j == id)) [
    | inl e ↦ ground (arith, ==_iff j id, v.present, absent)
    | inr e ↦ ground (arith, e, v.present)
  ];
  unlocked = v.unlocked;
  oldest = cons-oldest j g t h.used first v.oldest;
}

IsVictim-head :
    (j : ℕ) (g : Handle) (t : Table ℕ Handle)
    → g.locked ≡ false
    → ((k : ℕ) (f : Handle) → get k t ≡ some f → f.locked ≡ false → g.used ≤ f.used)
    → IsVictim ((j, g) ∷ t) j g
unfolding get
IsVictim-head j g t e others = record {
  present = ground (arith, ==_iff j j);
  unlocked = e;
  oldest = cons-oldest j g t g.used (λ u. omega arith) others;
}

-- The head against the victim of the tail.
older-IsVictim :
    (j : ℕ) (g : Handle) (t : Table ℕ Handle) (o : Option (ℕ × Handle))
    → get j t ≡ none
    → g.locked ≡ false
    → (o ≡ none → AllValues IsLocked t)
    → ((k : ℕ) (f : Handle) → o ≡ some (k, f) → IsVictim t k f)
    → IsVictim ((j, g) ∷ t) (older (j, g) o).0 (older (j, g) o).1
older-IsVictim j g t none absent e all h =
    IsVictim-head j g t e λ k f there loose.
      absurd (ground (arith, get-AllValues IsLocked k f t (all refl) there, loose))
older-IsVictim j g t (some (k, f)) absent e all h = elim (Bool-cases (ltb f.used g.used)) [
  | inl less ↦ rw less (IsVictim-cons j g t k f absent (λ u. ground (arith, less)) (h k f refl))
  | inr not_less ↦ rw not_less (
      IsVictim-head j g t e λ i x there loose.
        let behind : f.used ≤ x.used = (h k f refl).oldest i x there loose in
        ground (arith, not_less, behind))
]

victim-AllValues : (t : Table ℕ Handle) → victim t ≡ none → AllValues IsLocked t
unfolding victim
victim-AllValues [] e = tt
victim-AllValues ((j, g) ∷ t) e = ground (arith, victim-AllValues t)

victim-IsVictim :
    (t : Table ℕ Handle) (id : ℕ) (h : Handle)
    → Distinct t
    → victim t ≡ some (id, h)
    → IsVictim t id h
unfolding victim
victim-IsVictim [] id h d e = ground arith
victim-IsVictim ((j, g) ∷ t) id h d e = elim (Bool-cases g.locked) [
  | inl l ↦
      IsVictim-cons j g t id h d.0 (λ u. ground (arith, l, u))
        (victim-IsVictim t id h d.1 (ground arith))
  | inr u ↦
      let same : older (j, g) (victim t) ≡ (id, h) = ground arith in
      subst (λ r. IsVictim ((j, g) ∷ t) r.0 r.1) same
        (older-IsVictim j g t (victim t) d.0 u (victim-AllValues t)
          (λ k f e'. victim-IsVictim t k f d.1 e'))
]

length-remove-le : (id : ℕ) (t : Table ℕ Handle) → length (remove id t) ≤ length t
unfolding remove
length-remove-le id [] = omega arith
length-remove-le id ((j, g) ∷ t) = ground (arith, length-remove-le id t)

length-remove-lt :
    (id : ℕ) (h : Handle) (t : Table ℕ Handle) → get id t ≡ some h → length (remove id t) < length t
unfolding get remove
length-remove-lt id h [] e = ground arith
length-remove-lt id h ((j, g) ∷ t) e =
    ground (arith, length-remove-lt id h t, length-remove-le id t)

-- No more than one entry goes.
length-remove-ge :
    (id : ℕ) (t : Table ℕ Handle) → Distinct t → length t ≤ suc (length (remove id t))
unfolding remove
length-remove-ge id [] d = omega arith
length-remove-ge id ((j, g) ∷ t) d = elim (Bool-cases (j == id)) [
  | inl same ↦
      let absent : get id t ≡ none = ground (arith, ==_iff j id, d.0) in
      rw same (ground (arith, ap length (remove-absent id t absent)))
  | inr other ↦ rw other (omega (arith, length-remove-ge id t d.1))
]

-- What is left of the eviction: the locked entries as they were, and not more than the cap, unless
-- all is locked. Nothing goes while the cap is met, and what goes was used before all that stays and
-- is not locked.
pub record IsTrimmed (before after : Table ℕ Handle) : Type 0 where
  pub kept : (id : ℕ) (h : Handle) → get id before ≡ some h → IsLocked h → get id after ≡ some h
  pub bounded : (length after ≤ handle_cache_cap) ⊎ AllValues IsLocked after
  pub only : (id : ℕ) (h : Handle) → get id after ≡ some h → get id before ≡ some h
  pub full : (after ≡ before) ⊎ (handle_cache_cap ≤ length after)
  pub oldest :
      (id j : ℕ) (h g : Handle)
      → get id before ≡ some h
      → get id after ≡ none
      → get j after ≡ some g
      → g.locked ≡ false
      → h.used ≤ g.used

untouched :
    (t : Table ℕ Handle) → (length t ≤ handle_cache_cap) ⊎ AllValues IsLocked t → IsTrimmed t t
untouched t b = record {
  kept = λ id h e l. e;
  bounded = b;
  only = λ id h e. e;
  full = inl refl;
  oldest = λ id j h g e gone there loose. ground (arith, e, gone);
}

evict-step :
    (t t' : Table ℕ Handle) (id : ℕ) (h : Handle)
    → Distinct t
    → handle_cache_cap < length t
    → IsVictim t id h
    → IsTrimmed (remove id t) t'
    → IsTrimmed t t'
evict-step t t' id h d more v r = record {
  kept = λ j g e l.
      r.kept j g (ground (arith, get-remove id j t, ==_iff id j, v.present, v.unlocked, e, l)) l;
  bounded = r.bounded;
  only = λ j g e. ground (arith, r.only j g e, get-remove id j t);
  full = inr (elim r.full [
    | inl same ↦
        let e : length t' ≡ length (remove id t) = ap length same in
        omega (arith, length-remove-ge id t d)
    | inr enough ↦ enough
  ]);
  oldest = λ k j x g there gone stays loose. elim (ℕ_discrete id k) [
    | yes same ↦
        let first : x ≡ h = some-same x h (sym there ∙ ap (λ i. get i t) (sym same) ∙ v.present) in
        let behind : get j t ≡ some g = ground (arith, r.only j g stays, get-remove id j t) in
        subst (λ y. y.used ≤ g.used) (sym first) (v.oldest j g behind loose)
    | no other ↦
        r.oldest k j x g (ground (arith, get-remove id k t, ==_iff id k, other, there)) gone stays
          loose
  ];
}

evict-IsTrimmed :
    (fuel : ℕ) (t : Table ℕ Handle) → Distinct t → length t ≤ fuel → IsTrimmed t (evict fuel t).0
unfolding evict
evict-IsTrimmed zero t d le = untouched t (inl (omega (arith, le)))
evict-IsTrimmed (suc fuel) t d le = elim (Bool-cases (ltb handle_cache_cap (length t))) [
  | inr e ↦ rw (e, evict) (untouched t (inl (ground arith)))
  | inl e ↦ elim (Option-cases (victim t)) [
    | inl v ↦ rw (e, v, evict) (untouched t (inr (victim-AllValues t v)))
    | inr ((id, h), v) ↦
        let w = victim-IsVictim t id h d v in
        rw (e, v, evict)
          (evict-step t _ id h d (ground (arith, e)) w (
            evict-IsTrimmed fuel (remove id t) (remove-Distinct id t d)
              (omega (arith, length-remove-lt id h t w.present))))
  ]
]

-- The entry of a file whose handle is installed.
abbrev pub installed : (nodeid fh : ℕ) → Bool → HandleCache → Handle
installed nodeid fh write c = record {
  fh = fh;
  write = write;
  used = c.tick + 1;
  locked = is_locked (get nodeid c.map);
}

-- A handle that is installed leaves every locked handle of another file in the cache, is itself kept
-- if the file was locked. Then the cap is met, or only locked handles are left. Any handle goes
-- only where no fewer stay than the cap allows, so that no more go than have to; and what goes was
-- last used no later than any handle that stays and is not locked.
pub install_handle_lem :
    (nodeid fh : ℕ) (write : Bool) (c : HandleCache)
    → Distinct c.map
    → let after = (install_handle nodeid fh write c).0.map in
      let all = insert nodeid (installed nodeid fh write c) c.map in
      ((id : ℕ) (h : Handle)
        → nodeid ≢ id
        → get id c.map ≡ some h
        → IsLocked h
        → get id after ≡ some h)
      × ((h : Handle)
          → get nodeid c.map ≡ some h
          → IsLocked h
          → (g : Handle) × (get nodeid after ≡ some g) × (g.fh ≡ fh) × IsLocked g)
      × ((length after ≤ handle_cache_cap) ⊎ AllValues IsLocked after)
      × ((after ≡ all) ⊎ (handle_cache_cap ≤ length after))
      × ((id j : ℕ) (h g : Handle)
          → get id all ≡ some h
          → get id after ≡ none
          → get j after ≡ some g
          → g.locked ≡ false
          → h.used ≤ g.used)
unfolding install_handle
install_handle_lem nodeid fh write c d =
    let h = installed nodeid fh write c in
    let t = insert nodeid h c.map in
    let r = evict-IsTrimmed (length t) t (insert-Distinct nodeid h c.map d) (omega arith) in
    (
      λ id g ne e l. r.kept id g (get-insert_ne nodeid id h c.map ne ∙ e) l,
      λ g e l.
          let held : IsLocked h = ap is_locked e ∙ l in
          (h, r.kept nodeid h (get-insert_self nodeid h c.map) held, refl, held),
      r.bounded,
      r.full,
      r.oldest,
    )
