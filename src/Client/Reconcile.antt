-- ===== src/Client/Reconcile.antt =====
-- crates/alloyfs-client/src/sync/reconcile.rs, with the entries of sync/manifest.rs: the three-way
-- decision between the baseline, the local tree and the remote tree. The maps are tables by path;
-- `plan` visits the paths in ascending order, as the `BTreeMap` does.
pub mod Safety
pub mod Order
pub mod Converge
mod Tests
use alloyfs.Base.{
  ℕ, Bool, true, false, not, ◌&&◌, ◌||◌, Option, none, some, List, [], ◌∷◌, ◌++◌, ◌==◌,
  if◌then◌else◌, is_none,
}
use alloyfs.Base.Text.{Text, text_eq, text_beq}
use alloyfs.Base.Text.Order.{text_ltb}
use alloyfs.Base.Table.{Table, get}

pub data EntryKind : Type 0 where
  file dir : EntryKind

pub record SyncEntry : Type 0 where
  pub kind : EntryKind
  pub remote_version : ℕ
  pub size : ℕ
  pub mtime_ns : ℕ

pub record Stat : Type 0 where
  pub kind : EntryKind
  pub size : ℕ
  pub mtime_ns : ℕ
  pub version : ℕ

abbrev pub Snapshot : Type 0
Snapshot = Table Text Stat

pub data Action : Type 0 where
  pull push : Text → Action
  delete_local delete_remote : Text → EntryKind → Action
  adopt : Text → Stat → Action
  conflict : (path : Text) (local remote : Stat) → Action
  forget : Text → Action

abbrev pub kind_beq : EntryKind → EntryKind → Bool
kind_beq file file = true
kind_beq file dir = false
kind_beq dir file = false
kind_beq dir dir = true

abbrev pub same_stat : EntryKind → ℕ → ℕ → Stat → Bool
same_stat kind size mtime_ns s =
    kind_beq s.kind kind && (kind_beq kind dir || (s.size == size && s.mtime_ns == mtime_ns))

-- Whether the local side has left the baseline.
abbrev pub l_changed : Option SyncEntry → Option Stat → Bool
l_changed (some b) (some l) = not (same_stat b.kind b.size b.mtime_ns l)
l_changed (some b) none = true
l_changed none (some l) = true
l_changed none none = false

-- Whether the remote side has; an equal version that is not 0 proves that it has not.
abbrev pub r_changed : Option SyncEntry → Option Stat → Bool
r_changed (some b) (some r) =
    if not (b.remote_version == 0) && b.remote_version == r.version
    then false
    else not (same_stat b.kind b.size b.mtime_ns r)
r_changed (some b) none = true
r_changed none (some r) = true
r_changed none none = false

abbrev pub same_content : Stat → Stat → Bool
same_content l r = kind_beq l.kind r.kind && (l.size == r.size && l.mtime_ns == r.mtime_ns)

-- Both sides have the path, and are not both directories.
abbrev pub decide_both : Text → Bool → Bool → Stat → Stat → List Action
decide_both path false false l r = []
decide_both path true false l r = push path ∷ []
decide_both path false true l r = pull path ∷ []
decide_both path true true l r =
    if same_content l r then adopt path r ∷ [] else conflict path l r ∷ []

-- What `plan` does for one path.
pub decide : Text → Option SyncEntry → Option Stat → Option Stat → List Action
decide path base (some l) (some r) =
    if kind_beq l.kind dir && kind_beq r.kind dir
    then (if is_none base then adopt path r ∷ [] else [])
    else decide_both path (l_changed base (some l)) (r_changed base (some r)) l r
decide path base (some l) none =
    if is_none base
    then push path ∷ []
    else if l_changed base (some l)
    then push path ∷ []
    else delete_local path l.kind ∷ []
decide path base none (some r) =
    if is_none base
    then pull path ∷ []
    else if r_changed base (some r)
    then pull path ∷ []
    else delete_remote path r.kind ∷ []
decide path base none none = forget path ∷ []

-- The ordered set of the paths.
pub insert_path : Text → List Text → List Text
insert_path p [] = p ∷ []
insert_path p (q ∷ qs) =
    let rest = insert_path p qs in
    if text_beq q p then q ∷ qs else if text_ltb q p then q ∷ rest else p ∷ q ∷ qs

pub insert_keys {ℓ} : {V : Type ℓ} → Table Text V → List Text → List Text
insert_keys [] ps = ps
insert_keys ((k, v) ∷ t) ps = insert_keys t (insert_path k ps)

pub paths_of : Table Text SyncEntry → Snapshot → Snapshot → List Text
paths_of manifest local remote = insert_keys remote (insert_keys local (insert_keys manifest []))

pub decide_all : Table Text SyncEntry → Snapshot → Snapshot → List Text → List Action
decide_all manifest local remote [] = []
decide_all manifest local remote (p ∷ ps) =
    decide p (get p manifest) (get p local) (get p remote) ++ decide_all manifest local remote ps

pub plan : Table Text SyncEntry → Snapshot → Snapshot → List Action
plan manifest local remote = decide_all manifest local remote (paths_of manifest local remote)
