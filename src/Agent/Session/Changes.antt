-- ===== src/Agent/Session/Changes.antt =====
-- The methods of `SessionInner`, for the requests that change the disk.
use alloyfs.Base.{
  ℕ, Bool, true, false, not, ◌&&◌, Option, none, some, length, if◌then◌else◌, ◌==◌, nat_eq,
}
use alloyfs.Base.Text.{Text, text_eq}
use alloyfs.Proto.Errors.{bad_handle, already_exists, permission_denied, conflict}
use alloyfs.Proto.Path.{RelPath}
use alloyfs.Proto.Messages.{Response, OpenFlags, Bytes, SystemTime}
use alloyfs.Common.Action.{◌>>=◌, ◌>>◌, pure, gets, modify, raise_if, or_raise}
use alloyfs.Common.Exclude.{Globset, is_excluded}
use alloyfs.Common.Coalesce.Events.{PathBuf}
use alloyfs.Common.Files.{FileSystem, attr_from_metadata, write_fully}
use alloyfs.Agent.Versions.{version_of, bump, rename_version}
use alloyfs.Agent.Symlinks.{symlink_lands_inside}
use alloyfs.Agent.Session.{
  Act, ask, perform, writable_export, handle_of, insert_handle, note_write, on_versions,
}
use alloyfs.Agent.Session.Requests.{resolved, resolved_new}

module _ (fs : FileSystem) (lib : Globset) where
  unfoldable pub create : RelPath → OpenFlags → ℕ → Act fs Response
  create path flags mode = do
    x ← writable_export fs
    full ← resolved_new fs lib x path
    file ←
        perform fs (λ disk.
          if flags.excl then fs.create_new disk full else fs.create disk full flags.truncate)
    modify (λ w. record w { disk = fs.set_mode w.disk file mode })
    md ← ask fs (λ disk. fs.file_metadata disk file)
    note_write fs path
    version ← on_versions fs (λ v. bump v path)
    fh ← insert_handle fs file path true
    pure (Response.opened fh (attr_from_metadata md version))

  abbrev pub is_stale : Option ℕ → ℕ → Bool
  is_stale none version = false
  is_stale (some v) version = not (v == version)

  unfoldable pub write : ℕ → ℕ → Bytes → Option ℕ → Act fs Response
  write fh offset bytes expect_version = do
    x ← writable_export fs
    h ← handle_of fs fh
    raise_if (not h.writable) bad_handle
    raise_if (is_stale expect_version (version_of x.versions h.path)) conflict
    perform fs (λ disk. write_fully fs disk h.file bytes offset)
    note_write fs h.path
    new_version ← on_versions fs (λ v. bump v h.path)
    pure (Response.written (length bytes) new_version false)

  -- One optional change of a file that is opened for it.
  abbrev pub with_opened :
      {A : Type 0} → PathBuf → Option A → (fs.File → A → Act fs (Unit {0})) → Act fs (Unit {0})
  with_opened full none change = pure tt
  with_opened full (some a) change = do
    file ← perform fs (λ disk. fs.open_file disk full true false)
    change file a

  unfoldable pub setattr : RelPath → Option ℕ → Option SystemTime → Option ℕ → Act fs Response
  setattr path size mtime mode = do
    x ← writable_export fs
    full ← resolved fs lib x path
    with_opened full size (λ file n. perform fs (λ disk. fs.set_len disk file n))
    with_opened full mtime (λ file t. perform fs (λ disk. fs.set_modified disk file t))
    with_opened full mode (λ file m. modify (λ w. record w { disk = fs.set_mode w.disk file m }))
    md ← ask fs (λ disk. fs.metadata disk full)
    note_write fs path
    version ← on_versions fs (λ v. bump v path)
    pure (Response.attr (attr_from_metadata md version))

  unfoldable pub mkdir : RelPath → ℕ → Act fs Response
  mkdir path mode = do
    x ← writable_export fs
    full ← resolved_new fs lib x path
    perform fs (λ disk. fs.create_dir disk full)
    md ← ask fs (λ disk. fs.metadata disk full)
    note_write fs path
    version ← on_versions fs (λ v. bump v path)
    pure (Response.attr (attr_from_metadata md version))

  unfoldable pub unlink : RelPath → Act fs Response
  unlink path = do
    x ← writable_export fs
    full ← resolved fs lib x path
    perform fs (λ disk. fs.remove_file disk full)
    note_write fs path
    on_versions fs (λ v. bump v path)
    pure Response.ok

  unfoldable pub rmdir : RelPath → Act fs Response
  rmdir path = do
    x ← writable_export fs
    full ← resolved fs lib x path
    perform fs (λ disk. fs.remove_dir disk full)
    note_write fs path
    on_versions fs (λ v. bump v path)
    pure Response.ok

  unfoldable pub rename : RelPath → RelPath → Bool → Act fs Response
  rename from to replace = do
    x ← writable_export fs
    from_full ← resolved fs lib x from
    to_full ← resolved_new fs lib x to
    exists ← gets (λ w. fs.exists w.disk to_full)
    raise_if (not replace && exists) already_exists
    perform fs (λ disk. fs.rename disk from_full to_full)
    note_write fs from
    note_write fs to
    on_versions fs (λ v. rename_version v from to)
    pure Response.ok

  unfoldable pub link : RelPath → RelPath → Act fs Response
  link target link_path = do
    x ← writable_export fs
    target_full ← resolved fs lib x target
    link_full ← resolved_new fs lib x link_path
    perform fs (λ disk. fs.hard_link disk target_full link_full)
    md ← ask fs (λ disk. fs.metadata disk link_full)
    note_write fs link_path
    version ← on_versions fs (λ v. bump v link_path)
    pure (Response.attr (attr_from_metadata md version))

  unfoldable pub symlink : Text → RelPath → Act fs Response
  symlink target link_path = do
    x ← writable_export fs
    link_full ← resolved_new fs lib x link_path
    landing ← or_raise (symlink_lands_inside link_path target) permission_denied
    raise_if (is_excluded lib x.exclude landing) permission_denied
    perform fs (λ disk. fs.symlink disk target link_full)
    md ← ask fs (λ disk. fs.symlink_metadata disk link_full)
    note_write fs link_path
    version ← on_versions fs (λ v. bump v link_path)
    pure (Response.attr (attr_from_metadata md version))
