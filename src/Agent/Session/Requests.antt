-- ===== src/Agent/Session/Requests.antt =====
-- The methods of `SessionInner` for the requests that leave the disk alone, but for `open`, which may
-- truncate.
use alloyfs.Base.{
  ℕ, ◌+◌, Bool, false, not, ◌&&◌, ◌||◌, Option, none, some, List, [], ◌++◌, ◌^◌, length, take, drop,
  map, if◌then◌else◌, ltb, nat_eq,
}
use alloyfs.Base.Text.{Text, text_eq, text_beq}
use alloyfs.Base.Table.{get, remove}
use alloyfs.Proto.Errors.{
  ok, read_only, already_exists, no_such_export, is_a_directory, invalid_path, io,
}
use alloyfs.Proto.Path.{RelPath}
use alloyfs.Proto.Messages.{Response, DirEntry, OpenFlags, data_chunk}
use alloyfs.Common.Action.{◌>>=◌, ◌>>◌, pure, gets, modify, raise_if, or_raise}
use alloyfs.Common.Exclude.{Globset}
use alloyfs.Common.Coalesce.{to_forward_slash}
use alloyfs.Common.Coalesce.Events.{PathBuf}
use alloyfs.Common.Files.{FileSystem, attr_from_metadata, read_fully}
use alloyfs.Agent.Versions.{version_of, bump}
use alloyfs.Agent.Locks.{unlock}
use alloyfs.Agent.Export.{Export, resolve, resolve_new, browse}
use alloyfs.Agent.Session.{
  World, Session, OpenFile, Act, ask, perform, on_session, on_export, export, handle_of,
  insert_handle, on_versions, attached_export,
}

abbrev pub readdir_page : ℕ
readdir_page = 1024

-- The page of a sorted listing, and the cursor of the next one.
unfoldable pub page_of : List DirEntry → ℕ → Response
page_of entries cursor =
    let page = take readdir_page (drop cursor entries) in
    Response.dir page
      (if ltb (cursor + length page) (length entries) then some (cursor + length page) else none)

module _ (fs : FileSystem) (lib : Globset) where
  -- A path of the export on the disk as it is now.
  abbrev pub resolved : Export → RelPath → Act fs PathBuf
  resolved x path w = (resolve fs lib w.disk x path, w)

  abbrev pub resolved_new : Export → RelPath → Act fs PathBuf
  resolved_new x path w = (resolve_new fs lib w.disk x path, w)

  abbrev pub is_other : Option Text → Text → Bool
  is_other none name = false
  is_other (some current) name = not (text_beq current name)

  -- `OnceLock::set`
  abbrev set_once : Text → Session fs → Session fs
  set_once name s = record s { attached = elim s.attached [ none ↦ some name | some n ↦ some n ] }

  unfoldable pub attach : Text → Act fs Response
  attach name = do
    raise_if (is_other (← gets (λ w. w.session.attached)) name) already_exists
    x ← or_raise (← gets (λ w. get name w.exports)) no_such_export
    md ← ask fs (λ disk. fs.metadata disk x.root)
    modify (on_session fs (set_once name))
    pure (Response.attach_ok 0 (attr_from_metadata md 0))

  unfoldable pub getattr : RelPath → Act fs Response
  getattr path = do
    x ← export fs
    full ← resolved x path
    md ← ask fs (λ disk. fs.metadata disk full)
    pure (Response.attr (attr_from_metadata md (version_of x.versions path)))

  unfoldable pub readdir : RelPath → ℕ → Act fs Response
  readdir path cursor = do
    x ← export fs
    entries ← λ w. (browse fs lib w.disk x path, w)
    pure (page_of entries cursor)

  unfoldable pub open_file : RelPath → OpenFlags → Act fs Response
  open_file path flags = do
    x ← export fs
    let wants_write = (flags.write || flags.truncate) || flags.append
    raise_if (wants_write && x.read_only) read_only
    full ← resolved x path
    file ← perform fs (λ disk. fs.open_file disk full wants_write flags.truncate)
    md ← ask fs (λ disk. fs.file_metadata disk file)
    raise_if md.is_dir is_a_directory
    version ←
        if flags.truncate
        then on_versions fs (λ v. bump v path)
        else pure (version_of x.versions path)
    fh ← insert_handle fs file path wants_write
    pure (Response.opened fh (attr_from_metadata md version))

  unfoldable pub read : ℕ → ℕ → ℕ → Act fs Response
  read fh offset len = do
    raise_if (ltb data_chunk len) io
    h ← handle_of fs fh
    buf ← ask fs (λ disk. read_fully fs disk h.file len offset)
    pure (Response.bytes buf)

  unfoldable pub readlink : RelPath → Act fs Response
  readlink path = do
    x ← export fs
    full ← resolved_new x path
    md ← ask fs (λ disk. fs.symlink_metadata disk full)
    raise_if (not md.is_symlink) invalid_path
    read ← ask fs (λ disk. fs.read_link disk full)
    target ← or_raise read invalid_path
    pure (Response.target (map to_forward_slash target))

  -- The lock of a handle that is closed.
  abbrev unlocked : ℕ → ℕ → RelPath → Export → Export
  unlocked id fh path x = record x { locks = (unlock x.locks path id fh).0 }

  abbrev pub unlock_woken : ℕ → RelPath → World fs → List ℕ
  unlock_woken fh path w = elim (attached_export fs w) [
    | none ↦ []
    | some x ↦ (unlock x.locks path w.session.id fh).1
  ]

  unfoldable pub unlock_handle : ℕ → RelPath → World fs → World fs
  unlock_handle fh path w =
      let w' = on_export fs (unlocked w.session.id fh path) w in
      record w' { woken = w.woken ++ unlock_woken fh path w }

  unfoldable pub close : ℕ → Option (OpenFile fs) → World fs → World fs
  close fh none w = w
  close fh (some h) w =
      unlock_handle fh h.path (on_session fs (λ s. record s { handles = remove fh s.handles }) w)

  unfoldable pub release : ℕ → Act fs Response
  release fh w = (ok Response.ok, close fh (get fh w.session.handles) w)

  -- The numbers of the volume, or placeholders.
  abbrev space_of : Option (ℕ × ℕ × ℕ) → Response
  space_of none = Response.statfs 4096 (2 ^ 24) (2 ^ 23)
  space_of (some (block_size, blocks, blocks_free)) = Response.statfs block_size blocks blocks_free

  unfoldable pub statfs : Act fs Response
  statfs w = (
    ok (
        space_of
          (elim (attached_export fs w) [ none ↦ none | some x ↦ fs.fs_space w.disk x.root ])),
    w,
  )

  unfoldable pub mount_defaults : Act fs Response
  mount_defaults = do
    x ← export fs
    let d = x.mount_defaults
    pure (Response.mount_defaults d.exclude d.pin d.auto_cache_max d.auto_cache_budget)
