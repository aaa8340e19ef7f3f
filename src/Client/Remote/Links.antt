-- ===== src/Client/Remote/Links.antt =====
-- The operations of the mount on hard and symbolic links.
pub mod Crossing
use alloyfs.Base.{
  ℕ, ◌+◌, Bool, true, false, Option, none, some, List, [], ◌∷◌, if◌then◌else◌, nat_eq,
}
use alloyfs.Base.Text.{Text, text_eq}
use alloyfs.Base.Table.{Table, get, insert}
use alloyfs.Proto.Errors.{ErrorCode, Result, ok, err}
use alloyfs.Proto.Path.{RelPath, join}
use alloyfs.Proto.Messages.{Attr, Request}
use alloyfs.Common.Action.{Action}
use alloyfs.Client.Effect.{FsResult, success, failure, Effect, ◌>>=◌, ◌>>◌, pure, gets, modify}
use alloyfs.Client.Local.{LocalTree}
use alloyfs.Client.Symlinks.{localize_symlink_target}
use alloyfs.Client.Remote.{RemoteFs, Outside}
use alloyfs.Client.Remote.Calls.{
  Mount, On, ask, on_overlay, path_at, alloc, require_proto, as_attr, as_target,
}
use alloyfs.Client.Remote.Names.{routed, both_routed, alloc_cached, alloc_beside}

module _ (t : LocalTree) (out : Outside) where
  unfoldable pub link : (target_ino newparent : ℕ) → (newname : Text) → On t out (ℕ × Attr)
  link target_ino newparent newname = do
    target ← path_at t out target_ino
    dir ← path_at t out newparent
    let link_path = join dir newname
    both_routed t out target link_path
        (do attr ← on_overlay t out (t.link target link_path); alloc_beside t out link_path attr)
        (do
          attr ← ask t out (Request.link target link_path) as_attr
          ino ← alloc_cached t out link_path attr
          pure (ino, attr))

  abbrev localize : Option Text → Text → RelPath → Text
  localize none target link_dir = target
  localize (some root) target link_dir =
      localize_symlink_target out.to_uppercase root target link_dir

  unfoldable pub localize_target : Text → RelPath → Mount t out → Text
  localize_target target link_dir s = localize s.mount_root target link_dir

  unfoldable pub symlink : (parent : ℕ) (name target : Text) → On t out (ℕ × Attr)
  symlink parent name target = do
    dir ← path_at t out parent
    let link_path = join dir name
    local_target ← gets (localize_target target dir)
    routed t out link_path
        (do
          attr ← on_overlay t out (t.symlink local_target link_path)
          alloc_beside t out link_path attr)
        (do
          require_proto t out 4
          attr ← ask t out (Request.symlink local_target link_path) as_attr
          ino ← alloc_cached t out link_path attr
          pure (ino, attr))

  unfoldable pub readlink : ℕ → On t out Text
  readlink ino = do
    path ← path_at t out ino
    routed t out path (on_overlay t out (t.readlink path))
        (do require_proto t out 4; ask t out (Request.read_link path) as_target)
