-- ===== src/Client/Reconcile/Safety.antt =====
-- What the decisions may and may not destroy.
use alloyfs.Base.{
  ◌≡◌, refl, ap, sym, ◌∙◌, ==_iff, nat_eq, ◌≢◌, ◌⊎◌, inl, inr, Bool, true, false, ◌&&◌, Option,
  none, some, List, [], ◌∷◌, All, All-append, arith, if◌then◌else◌, is_none, Bool-cases,
}
use alloyfs.Base.Text.{Text, text_eq}
use alloyfs.Base.Table.{Table, get}
use alloyfs.Client.Reconcile.{
  EntryKind, file, dir, SyncEntry, Stat, Snapshot, Action, pull, push, delete_local, delete_remote,
  adopt, conflict, forget, kind_beq, same_stat, l_changed, r_changed, decide, decide_both,
  decide_all, same_content, plan, paths_of,
}

-- The local side is what the baseline recorded.
abbrev pub LocalKept : Option SyncEntry → Stat → Type 0
LocalKept none l = ⊥
LocalKept (some b) l = same_stat b.kind b.size b.mtime_ns l ≡ true

-- The remote side is, or carries the version that the baseline recorded.
abbrev pub RemoteKept : Option SyncEntry → Stat → Type 0
RemoteKept none r = ⊥
RemoteKept (some b) r =
    (same_stat b.kind b.size b.mtime_ns r ≡ true)
    ⊎ ((b.remote_version ≢ 0) × (b.remote_version ≡ r.version))

abbrev pub IfSome : Option Stat → (Stat → Type 0) → Type 0
IfSome none P = Unit
IfSome (some s) P = P s

-- Both sides are files of one size and time, or both are directories.
abbrev pub Agree : Stat → Stat → Type 0
Agree l r = (l.kind ≡ r.kind) × ((l.kind ≡ dir) ⊎ ((l.size ≡ r.size) × (l.mtime_ns ≡ r.mtime_ns)))

-- When an action may stand in a plan, given the three views of its path: a side is overwritten or
-- deleted only while it is as the baseline has it, a deletion follows a deletion on the other side,
-- the remote side becomes the baseline only where the local side agrees with it, and a conflict is
-- raised only where both sides have left the baseline and differ.
abbrev pub Allowed : Option SyncEntry → Option Stat → Option Stat → Action → Type 0
Allowed base l r (pull p) = (r ≢ none) × IfSome l (LocalKept base)
Allowed base l r (push p) = (l ≢ none) × IfSome r (RemoteKept base)
Allowed base l r (delete_local p k) = (r ≡ none) × (l ≢ none) × IfSome l (LocalKept base)
Allowed base l r (delete_remote p k) = (l ≡ none) × (r ≢ none) × IfSome r (RemoteKept base)
Allowed base l r (adopt p s) = (a : Stat) × (l ≡ some a) × (r ≡ some s) × Agree a s
Allowed base l r (conflict p a b) =
    (l ≡ some a)
    × (r ≡ some b)
    × (l_changed base l ≡ true)
    × (r_changed base r ≡ true)
    × ¬ Agree a b
Allowed base l r (forget p) = (l ≡ none) × (r ≡ none)

LocalKept-of_unchanged :
    (b : Option SyncEntry) (l : Stat) → l_changed b (some l) ≡ false → LocalKept b l
LocalKept-of_unchanged none l h = ground arith
LocalKept-of_unchanged (some b) l h = ground arith

RemoteKept-of_unchanged :
    (b : Option SyncEntry) (r : Stat) → r_changed b (some r) ≡ false → RemoteKept b r
RemoteKept-of_unchanged none r h = ground arith
RemoteKept-of_unchanged (some b) r h = elim (Bool-cases (same_stat b.kind b.size b.mtime_ns r)) [
  | inl same ↦ inl same
  | inr other ↦ inr (ground arith, ground arith)
]

kind_beq_lem : (a b : EntryKind) → kind_beq a b ≡ true → a ≡ b
kind_beq_lem file file h = refl
kind_beq_lem file dir h = ground arith
kind_beq_lem dir file h = ground arith
kind_beq_lem dir dir h = refl

same_content-Agree : (l r : Stat) → same_content l r ≡ true → Agree l r
same_content-Agree l r h = (
  kind_beq_lem l.kind r.kind (ground arith),
  inr (ground (arith, ==_iff l.size r.size), ground (arith, ==_iff l.mtime_ns r.mtime_ns)),
)

dirs-Agree : (l r : Stat) → (kind_beq l.kind dir && kind_beq r.kind dir) ≡ true → Agree l r
dirs-Agree l r h =
    let l_dir = kind_beq_lem l.kind dir (ground arith) in
    let r_dir = kind_beq_lem r.kind dir (ground arith) in (l_dir ∙ sym r_dir, inl l_dir)

kind_beq_refl : (a : EntryKind) → kind_beq a a ≡ true
kind_beq_refl file = refl
kind_beq_refl dir = refl

differ-Agree :
    (l r : Stat)
    → (kind_beq l.kind dir && kind_beq r.kind dir) ≡ false
    → same_content l r ≡ false
    → ¬ Agree l r
differ-Agree l r files differ (kinds, inl l_dir) =
    let r_dir = sym kinds ∙ l_dir in
    ground (arith, ap (λ k. kind_beq k dir) l_dir, ap (λ k. kind_beq k dir) r_dir)
differ-Agree l r files differ (kinds, inr (sizes, times)) =
    let same : kind_beq l.kind r.kind ≡ true =
      ap (kind_beq l.kind) (sym kinds) ∙ kind_beq_refl l.kind in
    ground (arith, same, ==_iff l.size r.size, ==_iff l.mtime_ns r.mtime_ns)

decide_both-Allowed :
    (path : Text) (base : Option SyncEntry) (l r : Stat) (lc rc : Bool)
    → (kind_beq l.kind dir && kind_beq r.kind dir) ≡ false
    → l_changed base (some l) ≡ lc
    → r_changed base (some r) ≡ rc
    → All (Allowed base (some l) (some r)) (decide_both path lc rc l r)
decide_both-Allowed path base l r false false dirs hl hr = tt
decide_both-Allowed path base l r true false dirs hl hr =
    ((λ e. cc, RemoteKept-of_unchanged base r hr), tt)
decide_both-Allowed path base l r false true dirs hl hr =
    ((λ e. cc, LocalKept-of_unchanged base l hl), tt)
decide_both-Allowed path base l r true true dirs hl hr = elim (Bool-cases (same_content l r)) [
  | inl same ↦ rw same ((l, refl, refl, same_content-Agree l r same), tt)
  | inr differ ↦ rw differ ((refl, refl, hl, hr, λ agree. differ-Agree l r dirs differ agree), tt)
]

dirs-Allowed :
    (path : Text) (base : Option SyncEntry) (l r : Stat)
    → (kind_beq l.kind dir && kind_beq r.kind dir) ≡ true
    → All (Allowed base (some l) (some r)) (if is_none base then adopt path r ∷ [] else [])
dirs-Allowed path none l r dirs = ((l, refl, refl, dirs-Agree l r dirs), tt)
dirs-Allowed path (some b) l r dirs = tt

abbrev pub path_of : Action → Text
path_of (pull p) = p
path_of (push p) = p
path_of (delete_local p k) = p
path_of (delete_remote p k) = p
path_of (adopt p s) = p
path_of (conflict p a b) = p
path_of (forget p) = p

decide-Allowed :
    (path : Text) (base : Option SyncEntry) (l r : Option Stat)
    → All (Allowed base l r) (decide path base l r)
unfolding decide
decide-Allowed path base none none = ground arith
decide-Allowed path none none (some r) = ground arith
decide-Allowed path (some b) none (some r) = ground arith
decide-Allowed path none (some l) none = ground arith
decide-Allowed path (some b) (some l) none = ground arith
decide-Allowed path base (some l) (some r) =
    elim (Bool-cases (kind_beq l.kind dir && kind_beq r.kind dir)) [
      | inl dirs ↦ rw dirs (dirs-Allowed path base l r dirs)
      | inr files ↦ rw files (decide_both-Allowed path base l r _ _ files refl refl)
    ]

-- The three views of a path.
abbrev pub AllowedAt : Table Text SyncEntry → Snapshot → Snapshot → Action → Type 0
AllowedAt m l r a = Allowed (get (path_of a) m) (get (path_of a) l) (get (path_of a) r) a

decide-path :
    (path : Text) (base : Option SyncEntry) (l r : Option Stat)
    → All (λ a. path_of a ≡ path) (decide path base l r)
unfolding decide
decide-path path none none none = (refl, tt)
decide-path path _ l r = ground arith

All-at :
    (m : Table Text SyncEntry) (l r : Snapshot) (path : Text) (as' : List Action)
    → All (Allowed (get path m) (get path l) (get path r)) as'
    → All (λ a. path_of a ≡ path) as'
    → All (AllowedAt m l r) as'
All-at m l r path [] h e = tt
All-at m l r path (a ∷ as') h e = (rw e.0 h.0, All-at m l r path as' h.1 e.1)

decide_all-Allowed :
    (m : Table Text SyncEntry) (l r : Snapshot) (ps : List Text)
    → All (AllowedAt m l r) (decide_all m l r ps)
unfolding decide_all
decide_all-Allowed m l r [] = tt
decide_all-Allowed m l r (p ∷ ps) =
    All-append (AllowedAt m l r) _ _
      (All-at m l r p _ (decide-Allowed p (get p m) (get p l) (get p r))
        (decide-path p (get p m) (get p l) (get p r)))
      (decide_all-Allowed m l r ps)

-- Each action of a plan overwrites or deletes a side only while that side is
-- as the baseline recorded it, deletes only what is gone on the other side, takes the remote side as
-- the new baseline only where the local side agrees with it, and raises a conflict only where both
-- sides have changed and differ.
pub plan-Allowed : (m : Table Text SyncEntry) (l r : Snapshot) → All (AllowedAt m l r) (plan m l r)
unfolding plan
plan-Allowed m l r = decide_all-Allowed m l r (paths_of m l r)
