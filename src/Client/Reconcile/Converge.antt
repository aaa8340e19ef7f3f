-- ===== src/Client/Reconcile/Converge.antt =====
-- One round of actions brings a path to rest, and where reconciliation keeps a stale baseline.
use alloyfs.Base.{
  ℕ, ◌≡◌, refl, ◌≢◌, ◌⊎◌, inl, inr, Bool, true, false, not, ◌&&◌, Option, none, some, [], ◌∷◌,
  arith, ◌==◌, Bool-cases,
}
use alloyfs.Base.Text.{Text}
use alloyfs.Client.Reconcile.{
  EntryKind, file, dir, SyncEntry, Stat, Action, pull, push, delete_local, delete_remote, adopt,
  conflict, forget, kind_beq, same_stat, l_changed, r_changed, decide, decide_both,
}

-- The three views of one path.
pub record Views : Type 0 where
  pub base : Option SyncEntry
  pub here : Option Stat
  pub there : Option Stat

-- The baseline that records a state of the remote side.
abbrev pub entry_of : ℕ → Stat → SyncEntry
entry_of version s = record {
  kind = s.kind;
  remote_version = version;
  size = s.size;
  mtime_ns = s.mtime_ns;
}

abbrev pub copy_there : ℕ → Option Stat → Option Stat
copy_there version none = none
copy_there version (some s) = some (record s { version = version })

abbrev pub record_base : ℕ → Option Stat → Option SyncEntry
record_base version none = none
record_base version (some s) = some (entry_of version s)

-- What is left of the views when an action has done what it is for: a transfer makes the two sides
-- equal and records the state, a deletion leaves nothing. `version` is the server's version after it.
-- A conflict is left to the policy of the engine.
abbrev pub after : ℕ → Views → Action → Views
after version v (pull p) = record {
  base = record_base version v.there;
  here = copy_there 0 v.there;
  there = copy_there version v.there;
}
after version v (push p) = record {
  base = record_base version v.here;
  here = v.here;
  there = copy_there version v.here;
}
after version v (delete_local p k) = record { base = none; here = none; there = none }
after version v (delete_remote p k) = record { base = none; here = none; there = none }
after version v (adopt p s) = record v { base = some (entry_of version s) }
after version v (conflict p a b) = v
after version v (forget p) = record { base = none; here = none; there = none }

-- Nothing is left to do: no decision, or the path is known nowhere and is not visited.
abbrev pub IsQuiet : Text → Views → Type 0
IsQuiet path v =
    (decide path v.base v.here v.there ≡ [])
    ⊎ ((v.base ≡ none) × (v.here ≡ none) × (v.there ≡ none))

abbrev pub is_conflict : Action → Bool
is_conflict (conflict p a b) = true
is_conflict _ = false

same_stat_self : (s : Stat) → same_stat s.kind s.size s.mtime_ns s ≡ true
same_stat_self s = ground arith

l_unchanged :
    (b : SyncEntry) (l : Stat)
    → same_stat b.kind b.size b.mtime_ns l ≡ true
    → l_changed (some b) (some l) ≡ false
l_unchanged b l h = ground arith

r_unchanged :
    (b : SyncEntry) (r : Stat)
    → same_stat b.kind b.size b.mtime_ns r ≡ true
    → r_changed (some b) (some r) ≡ false
r_unchanged b r h =
    elim (Bool-cases (not (b.remote_version == 0) && b.remote_version == r.version)) [
      | inl same ↦ rw same
      | inr other ↦ rw (other, h)
    ]

-- Two sides that are what the baseline has are left alone.
quiet_in_sync :
    (path : Text) (b : SyncEntry) (l r : Stat)
    → same_stat b.kind b.size b.mtime_ns l ≡ true
    → same_stat b.kind b.size b.mtime_ns r ≡ true
    → decide path (some b) (some l) (some r) ≡ []
unfolding decide
quiet_in_sync path b l r hl hr = elim (Bool-cases (kind_beq l.kind dir && kind_beq r.kind dir)) [
  | inl dirs ↦ rw dirs
  | inr files ↦ rw (files, l_unchanged b l hl, r_unchanged b r hr)
]

kind_same : (a b : EntryKind) → kind_beq a b ≡ true → a ≡ b
kind_same file file h = refl
kind_same file dir h = cc
kind_same dir file h = cc
kind_same dir dir h = refl

adopted_same :
    (path p : Text) (base : Option SyncEntry) (l r s : Stat)
    → decide path base (some l) (some r) ≡ adopt p s ∷ []
    → (s ≡ r) × (same_stat r.kind r.size r.mtime_ns l ≡ true)
unfolding decide
adopted_same path p base l r s h = elim (Bool-cases (kind_beq l.kind dir && kind_beq r.kind dir)) [
  | inl dirs ↦ ground (arith, kind_same l.kind dir, kind_same r.kind dir)
  | inr files ↦ adopted_file _ _ (rw files at h)
]
  where
    adopted_file :
        (lc rc : Bool)
        → decide_both path lc rc l r ≡ adopt p s ∷ []
        → (s ≡ r) × (same_stat r.kind r.size r.mtime_ns l ≡ true)
    adopted_file false false h = cc
    adopted_file false true h = cc
    adopted_file true false h = cc
    adopted_file true true h = ground arith

adopts_both :
    (path p : Text) (base : Option SyncEntry) (l r : Option Stat) (s : Stat)
    → decide path base l r ≡ adopt p s ∷ []
    → (l ≢ none) × (r ≢ none)
unfolding decide
adopts_both path p base none none s h = cc
adopts_both path p base (some l) none s h = absurd (ground arith)
adopts_both path p base none (some r) s h = absurd (ground arith)
adopts_both path p base (some l) (some r) s h = (λ e. cc, λ e. cc)

-- Whatever the three views of a path are: once the action decided for it, if it is no conflict, has
-- done what it is for, nothing more is decided for the path.
pub decide-IsQuiet :
    (path : Text) (version : ℕ) (base : Option SyncEntry) (l r : Option Stat) (a : Action)
    → decide path base l r ≡ a ∷ []
    → is_conflict a ≡ false
    → IsQuiet path (after version (record { base = base; here = l; there = r }) a)
decide-IsQuiet path version base l none (pull p) h c = inr (refl, refl, refl)
decide-IsQuiet path version base l (some r) (pull p) h c =
    inl (quiet_in_sync path _ _ _ (same_stat_self r) (same_stat_self r))
decide-IsQuiet path version base none r (push p) h c = inr (refl, refl, refl)
decide-IsQuiet path version base (some l) r (push p) h c =
    inl (quiet_in_sync path _ _ _ (same_stat_self l) (same_stat_self l))
decide-IsQuiet path version base l r (delete_local p k) h c = inr (refl, refl, refl)
decide-IsQuiet path version base l r (delete_remote p k) h c = inr (refl, refl, refl)
decide-IsQuiet path version base l r (forget p) h c = inr (refl, refl, refl)
decide-IsQuiet path version base l r (conflict p a b) h c = cc
decide-IsQuiet path version base (some l) (some r) (adopt p s) h c =
    let (same, fits) = adopted_same path p base l r s h in
    inl (quiet_in_sync path _ l r (rw same fits) (rw same (same_stat_self r)))
decide-IsQuiet path version base none r (adopt p s) h c =
    absurd ((adopts_both path p base none r s h).0 refl)
decide-IsQuiet path version base (some l) none (adopt p s) h c =
    absurd ((adopts_both path p base (some l) none s h).1 refl)

r_dir_changed :
    (b : SyncEntry) (r : Stat)
    → b.kind ≡ file
    → b.remote_version ≢ r.version
    → r.kind ≡ dir
    → r_changed (some b) (some r) ≡ true
r_dir_changed b r hb hv hr = ground arith

-- A path that both sides turned from a file into a directory keeps its baseline of a file, since
-- nothing is decided for two directories; and when the directory is then deleted on the local side,
-- the deletion is not carried over: the unchanged remote directory is pulled back.
pub stale_directory_returns :
    (path : Text) (b : SyncEntry) (l r : Stat)
    → b.kind ≡ file
    → b.remote_version ≢ r.version
    → l.kind ≡ dir
    → r.kind ≡ dir
    → (decide path (some b) (some l) (some r) ≡ [])
      × (decide path (some b) none (some r) ≡ pull path ∷ [])
unfolding decide
stale_directory_returns path b l r hb hv hl hr = (ground arith, rw (r_dir_changed b r hb hv hr))
