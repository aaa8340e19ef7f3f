-- ===== src/Common/Coalesce.antt =====
-- crates/alloyfs-common/src/coalesce.rs: raw events of the watcher collapsed to one per path. The
-- events are those of the `notify` crate, in the cases that the program tells apart. A path of the
-- operating system is the list of its components. `now` is the time that is read.
pub mod Events
pub mod Net
pub mod Halves
pub mod Visible
mod Tests
use alloyfs.Base.{
  ℕ, ◌-◌, ◌+◌, Bool, true, false, not, ◌&&◌, ◌||◌, Option, none, some, List, [], ◌∷◌, ◌++◌, map,
  length, any, min, if◌then◌else◌, ◌==◌,
}
use alloyfs.Base.Text.{Text, text_beq, text_eq, is_empty}
use alloyfs.Base.Text.Split.{join_with}
use alloyfs.Base.Text.Order.{text_ltb}
use alloyfs.Base.Table.{Table, get, insert, remove}
use alloyfs.Proto.Path.{RelPath, slash, backslash}
use alloyfs.Proto.Messages.{
  EventKind, created, modified, attr_changed, removed, renamed_from, resync_required,
}
use Events.{PathBuf, RenameMode, NotifyKind, Event}
use alloyfs.Common.Exclude.{Globset, ExcludeSet, is_excluded}

pub record Pending : Type 0 where
  pub kind : EventKind
  pub first_seen : ℕ

pub record Coalescer : Type 0 where
  pub root : PathBuf
  pub exclude : ExcludeSet
  pub pending : Table RelPath Pending
  pub renames : List (RelPath × RelPath)
  pub renamed_from : List RelPath
  pub renamed_to : List RelPath

pub new : PathBuf → ExcludeSet → Coalescer
new root exclude = record {
  root = root;
  exclude = exclude;
  pending = [];
  renames = [];
  renamed_from = [];
  renamed_to = [];
}

abbrev is_nil {ℓ} : {A : Type ℓ} → List A → Bool
is_nil [] = true
is_nil (x ∷ xs) = false

pub is_empty_coalescer : Coalescer → Bool
is_empty_coalescer co = is_nil co.pending && is_nil co.renames

pub len : Coalescer → ℕ
len co = length co.pending + length co.renames

oldest : ℕ → Table RelPath Pending → Option ℕ
oldest now [] = none
oldest now ((path, p) ∷ t) = elim (oldest now t) [
  | none ↦ some (now - p.first_seen)
  | some age ↦ some (min (now - p.first_seen) age)
]

pub oldest_age : ℕ → Coalescer → Option ℕ
unfolding oldest
oldest_age now co = oldest now co.pending

pub merge : Option EventKind → EventKind → Option EventKind
merge none fresh = some fresh
merge (some old) (renamed_from t) = some (renamed_from t)
merge (some old) resync_required = some resync_required
merge (some created) removed = none
merge (some old) removed = some removed
merge (some removed) created = some modified
merge (some attr_changed) modified = some modified
merge (some old) fresh = some old

-- The components behind the root.
abbrev pub strip_components : List Text → List Text → Option (List Text)
strip_components [] cs = some cs
strip_components (r ∷ rs) [] = none
strip_components (r ∷ rs) (c ∷ cs) =
    let rest = strip_components rs cs in if text_beq r c then rest else none

abbrev pub to_forward_slash : ℕ → ℕ
to_forward_slash c = if c == backslash then slash else c

-- An absolute path inside the root in wire form; nothing for the root itself.
pub rel_of : PathBuf → PathBuf → Option RelPath
rel_of root abs = elim (strip_components root.components abs.components) [
  | none ↦ none
  | some cs ↦
      let s = join_with slash cs in
      if not abs.is_unicode || is_empty s then none else some (map to_forward_slash s)
]

abbrev pub has : RelPath → List RelPath → Bool
has path set = any (λ p. text_beq p path) set

-- A half of a rename that has arrived already.
abbrev pub is_removed : Option Pending → Bool
is_removed none = false
is_removed (some p) = elim p.kind [ removed ↦ true | _ ↦ false ]

abbrev pub is_created : Option Pending → Bool
is_created none = false
is_created (some p) = elim p.kind [ created ↦ true | _ ↦ false ]

-- The pending events without the halves of a rename.
pub without_halves : RelPath → RelPath → Table RelPath Pending → Table RelPath Pending
without_halves f t pending =
    let pending' = if is_removed (get f pending) then remove f pending else pending in
    if is_created (get t pending') then remove t pending' else pending'

-- The oldest pending time of a path, or the present.
abbrev first_seen_of : ℕ → Option Pending → ℕ
first_seen_of now none = now
first_seen_of now (some p) = p.first_seen

abbrev pub kind_of : Option Pending → Option EventKind
kind_of none = none
kind_of (some p) = some p.kind

pub put_pending : RelPath → ℕ → Option EventKind → Table RelPath Pending → Table RelPath Pending
put_pending path now none pending = remove path pending
put_pending path now (some kind) pending =
    insert path (record { kind = kind; first_seen = first_seen_of now (get path pending) }) pending

-- The batch of the renames, which takes their halves out of the pending events.
drain_renames :
    List (RelPath × RelPath)
    → Table RelPath Pending
    → List (RelPath × EventKind) × Table RelPath Pending
drain_renames [] pending = ([], pending)
drain_renames ((f, t) ∷ rs) pending =
    let (batch, rest) = drain_renames rs (without_halves f t pending) in
    ((f, renamed_from t) ∷ batch, rest)

pub insert_sorted : RelPath × Pending → Table RelPath Pending → Table RelPath Pending
insert_sorted (p, x) [] = (p, x) ∷ []
insert_sorted (p, x) ((q, y) ∷ items) =
    let rest = insert_sorted (p, x) items in
    if text_ltb q p then (q, y) ∷ rest else (p, x) ∷ (q, y) ∷ items

pub sort_by_path : Table RelPath Pending → Table RelPath Pending
sort_by_path [] = []
sort_by_path (item ∷ items) = insert_sorted item (sort_by_path items)

abbrev pub event_of : RelPath × Pending → RelPath × EventKind
event_of (path, p) = (path, p.kind)

pub take_batch : Coalescer → List (RelPath × EventKind) × Coalescer
take_batch co =
    let (batch, items) = drain_renames co.renames co.pending in
    (
      batch ++ map event_of (sort_by_path items),
      record co { pending = []; renames = []; renamed_from = []; renamed_to = [] },
    )

module _ (lib : Globset) where
  pub push : ℕ → Coalescer → RelPath → EventKind → Coalescer
  push now co path kind = if is_excluded lib co.exclude path then co else record co {
    pending = put_pending path now (merge (kind_of (get path co.pending)) kind) co.pending;
  }

  pub push_all : ℕ → Coalescer → List PathBuf → EventKind → Coalescer
  push_all now co [] kind = co
  push_all now co (p ∷ ps) kind = elim (rel_of co.root p) [
    | none ↦ push_all now co ps kind
    | some rel ↦ push_all now (push now co rel kind) ps kind
  ]

  -- A paired rename between two paths inside the root.
  pub pair : ℕ → Coalescer → RelPath → RelPath → Coalescer
  pair now co f t =
      if is_excluded lib co.exclude f
      then (if is_excluded lib co.exclude t then co else push now co t created)
      else if is_excluded lib co.exclude t
      then push now co f removed
      else record co {
        pending = without_halves f t co.pending;
        renames = co.renames ++ (f, t) ∷ [];
        renamed_from = f ∷ co.renamed_from;
        renamed_to = t ∷ co.renamed_to;
      }

  pub ingest_rename : ℕ → Coalescer → RenameMode → List PathBuf → Coalescer
  ingest_rename now co RenameMode.both (p ∷ q ∷ []) = elim (rel_of co.root p) [
    | none ↦ co
    | some f ↦ elim (rel_of co.root q) [ none ↦ co | some t ↦ pair now co f t ]
  ]
  ingest_rename now co RenameMode.from (p ∷ []) = elim (rel_of co.root p) [
    | none ↦ co
    | some f ↦ if has f co.renamed_from then co else push now co f removed
  ]
  ingest_rename now co RenameMode.to (p ∷ []) = elim (rel_of co.root p) [
    | none ↦ co
    | some t ↦ if has t co.renamed_to then co else push now co t created
  ]
  ingest_rename now co mode paths = push_all now co paths modified

  pub ingest : ℕ → Coalescer → Event → Coalescer
  ingest now co event = elim event.kind [
    | NotifyKind.create ↦ push_all now co event.paths created
    | NotifyKind.modify_name mode ↦ ingest_rename now co mode event.paths
    | NotifyKind.modify_metadata ↦ push_all now co event.paths attr_changed
    | NotifyKind.modify_other ↦ push_all now co event.paths modified
    | NotifyKind.remove ↦ push_all now co event.paths removed
    | _ ↦ co
  ]

  -- A window of events, each with the time at which it came in.
  pub ingest_all : Coalescer → List (ℕ × Event) → Coalescer
  ingest_all co [] = co
  ingest_all co ((now, e) ∷ es) = ingest_all (ingest now co e) es
