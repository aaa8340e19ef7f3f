-- ===== src/Agent/Export.antt =====
-- `Export` of crates/alloyfs-agent/src/ops.rs and `resolve_unchecked` of fsutil.rs: what a client may
-- reach of a directory of the server. The version clock is the record of Agent/Versions. The check
-- for letters behind the root asks `PathBuf.is_unicode` of the whole path. A name is put behind the
-- root as on Unix; what Windows makes of a name with a drive is not modelled.
pub mod Inside
pub mod Listing
mod Tests
use alloyfs.Base.{
  ℕ, ◌≡◌, Bool, true, false, not, Option, none, some, List, [], ◌∷◌, ◌++◌, map, if◌then◌else◌,
}
use alloyfs.Base.Text.{Text, text_eq}
use alloyfs.Base.Text.Split.{split_on, join_with}
use alloyfs.Base.Text.Order.{text_ltb}
use alloyfs.Base.Table.{Table}
use alloyfs.Proto.Errors.{ErrorCode, Result, ok, err, not_found, permission_denied, invalid_path}
use alloyfs.Proto.Path.{RelPath, is_root, validate, split, join, slash}
use alloyfs.Proto.Messages.{DirEntry}
use alloyfs.Common.Exclude.{Globset, ExcludeSet, is_excluded}
use alloyfs.Common.Coalesce.{strip_components, to_forward_slash}
use alloyfs.Common.Coalesce.Events.{PathBuf}
use alloyfs.Common.Files.{
  FileSystem, Io, done, failed, io_to_code, or_code, Metadata, DirItem, attr_from_metadata,
}
use alloyfs.Agent.Hub.{EventHub}
use alloyfs.Agent.Locks.{LockManager}
use alloyfs.Agent.Versions.{Versions, version_of}

pub record MountDefaults : Type 0 where
  pub exclude : List Text
  pub pin : List Text
  pub auto_cache_max : Option ℕ
  pub auto_cache_budget : Option ℕ

pub record Export : Type 0 where
  pub name : Text
  pub root : PathBuf
  pub read_only : Bool
  pub versions : Versions
  pub events : EventHub
  pub locks : LockManager
  pub exclude : ExcludeSet
  pub mount_defaults : MountDefaults

-- `root_canon` with the components of the path pushed.
abbrev pub push_all : PathBuf → List Text → PathBuf
push_all root comps = record root { components = root.components ++ comps }

-- `canon.starts_with(root)`
abbrev pub starts_with : PathBuf → PathBuf → Bool
starts_with canon root = elim (strip_components root.components canon.components) [
  | none ↦ false
  | some rest ↦ true
]

-- The path behind the root in wire form, where it is text.
abbrev pub stripped : PathBuf → PathBuf → Option RelPath
stripped root full = elim (strip_components root.components full.components) [
  | none ↦ none
  | some rest ↦ if full.is_unicode then some (map to_forward_slash (join_with slash rest)) else none
]

unfoldable pub insert_entry : DirEntry → List DirEntry → List DirEntry
insert_entry e [] = e ∷ []
insert_entry e (f ∷ es) =
    let rest = insert_entry e es in if text_ltb f.name e.name then f ∷ rest else e ∷ f ∷ es

-- `sort_by(|a, b| a.name.cmp(&b.name))`
unfoldable pub sort_by_name : List DirEntry → List DirEntry
sort_by_name [] = []
sort_by_name (e ∷ es) = insert_entry e (sort_by_name es)

-- `item.metadata().or_else(..)`
abbrev pub metadata_of : DirItem → Option Metadata
metadata_of item = elim item.metadata [
  | done md ↦ some md
  | failed _ ↦ elim item.link_metadata [ done md ↦ some md | failed _ ↦ none ]
]

abbrev pub entry_of : Versions → RelPath → Text → Metadata → DirEntry
entry_of versions child name md = record {
  name = name;
  attr = attr_from_metadata md (version_of versions child);
}

-- The canonical path, unless it leaves the root.
abbrev pub inside : PathBuf → Io PathBuf → Result PathBuf
inside root (failed e) = err (io_to_code e)
inside root (done canon) = if starts_with canon root then ok canon else err permission_denied

module _ (fs : FileSystem) where
  unfoldable pub resolve_unchecked : fs.State → PathBuf → RelPath → Result PathBuf
  resolve_unchecked disk root rel = elim (validate rel) [
    | err e ↦ err e
    | ok _ ↦
        if is_root rel
        then ok root
        else inside root (fs.canonicalize disk (push_all root (split_on slash rel)))
  ]

module _ (fs : FileSystem) (lib : Globset) where
  -- The check of what a path resolved to.
  pub recheck : Export → PathBuf → Result PathBuf
  recheck x full = if x.exclude.empty then ok full else elim (stripped x.root full) [
    | none ↦ ok full
    | some s ↦ if is_excluded lib x.exclude s then err not_found else ok full
  ]

  unfoldable pub resolve : fs.State → Export → RelPath → Result PathBuf
  unfolding recheck
  resolve disk x rel =
      if is_excluded lib x.exclude rel
      then err not_found
      else elim (resolve_unchecked fs disk x.root rel) [ err e ↦ err e | ok full ↦ recheck x full ]

  unfoldable pub resolve_new : fs.State → Export → RelPath → Result PathBuf
  resolve_new disk x rel =
      if is_excluded lib x.exclude rel then err not_found else elim (validate rel) [
        | err e ↦ err e
        | ok _ ↦ elim (split rel) [
          | none ↦ err invalid_path
          | some (parent, leaf) ↦ elim (resolve disk x parent) [
            | err e ↦ err e
            | ok full ↦ ok (push_all full (leaf ∷ []))
          ]
        ]
      ]

  -- The entry that an item is served as, if it is.
  pub served : Export → RelPath → DirItem → Option DirEntry
  served x path item = elim item.name [
    | none ↦ none
    | some name ↦
        if is_excluded lib x.exclude (join path name) then none else elim (metadata_of item) [
          | none ↦ none
          | some md ↦ some (entry_of x.versions (join path name) name md)
        ]
  ]

  abbrev pub cons_entry : Option DirEntry → Result (List DirEntry) → Result (List DirEntry)
  cons_entry none rest = rest
  cons_entry (some e) (ok entries) = ok (e ∷ entries)
  cons_entry (some e) (err code) = err code

  -- The entries that the items of a directory are served as, not yet sorted.
  unfoldable pub entries_of : Export → RelPath → List (Io DirItem) → Result (List DirEntry)
  entries_of x path [] = ok []
  entries_of x path (failed e ∷ items) = err (io_to_code e)
  entries_of x path (done item ∷ items) = cons_entry (served x path item) (entries_of x path items)

  -- A whole listing, sorted: `browse`, and what `readdir` takes its page from.
  unfoldable pub browse : fs.State → Export → RelPath → Result (List DirEntry)
  browse disk x rel = elim (resolve disk x rel) [
    | err e ↦ err e
    | ok full ↦ elim (or_code (fs.read_dir disk full)) [
      | err e ↦ err e
      | ok items ↦ elim (entries_of x rel items) [
        | err e ↦ err e
        | ok entries ↦ ok (sort_by_name entries)
      ]
    ]
  ]
