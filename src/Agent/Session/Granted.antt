-- ===== src/Agent/Session/Granted.antt =====
-- No sequence of requests gives a session a handle that it should not have.
use alloyfs.Base.{ℕ, refl, Bool, Option, none, some, List, arith, nat_eq}
use alloyfs.Base.Text.{Text, text_eq}
use alloyfs.Base.Table.{get}
use alloyfs.Base.Table.Values.{remove-AllValues}
use alloyfs.Proto.Path.{RelPath}
use alloyfs.Proto.Messages.{Request, Response, OpenFlags, LockKind}
use alloyfs.Common.Action.{
  ◌>>=◌, Keeps, Keeps-bind, Keeps-raise_if, Keeps-or_raise, Keeps-unless, Keeps-if,
}
use alloyfs.Common.Exclude.{Globset, ExcludeSet}
use alloyfs.Common.Coalesce.Events.{PathBuf}
use alloyfs.Common.Files.{FileSystem}
use alloyfs.Agent.Export.{Export}
use alloyfs.Agent.Session.{World, OpenFile, Act, export}
use alloyfs.Agent.Session.Requests.{
  resolved, attach, getattr, readdir, open_file, read, readlink, unlock_handle, close, release,
  statfs, mount_defaults,
}
use alloyfs.Agent.Session.Changes.{unlink, rmdir}
use alloyfs.Agent.Session.Handler.{
  handle_all, route, lock, lock_pass, unlock_request, subscribe_events, dispatch_blocking,
}
use alloyfs.Agent.Session.Runs.{handle_all-Keeps}
use alloyfs.Agent.Session.Handles.{
  IsGuarded, on_export-IsGuarded, export-IsGuarded, disk-IsGuarded, resolved-IsGuarded,
  resolved_new-IsGuarded, on_versions-IsGuarded, insert_handle-IsGuarded,
}
use alloyfs.Agent.Session.Changing.{
  create-IsGuarded, write-IsGuarded, setattr-IsGuarded, removing-IsGuarded, rename-IsGuarded,
  mkdir-IsGuarded, link-IsGuarded, symlink-IsGuarded, handle_of-IsGuarded,
}

module _ (fs : FileSystem) (lib : Globset) (name : Text) (ex : ExcludeSet) (ro : Bool) where
  abbrev G : World fs → Type 0
  G = IsGuarded fs lib name ex ro

  next :
      {A B : Type 0} (m : Act fs A) (k : A → Act fs B)
      → Keeps G m
      → ((a : A) → Keeps G (k a))
      → Keeps G (m >>= k)
  next m k h h' = Keeps-bind G m k h h'

  attach-IsGuarded : (export_name : Text) → Keeps G (attach fs lib export_name)
  unfolding attach
  attach-IsGuarded export_name =
      next _ _ (λ w p. p)
        λ current. next _ _ (Keeps-raise_if G _ _) λ u.
          next _ _ (λ w p. p)
            λ found. next _ _ (Keeps-or_raise G found _) λ x.
              next _ _ (λ w p. p)
                λ md.
                  next _ _
                    (λ w p. record {
                      attached = ground (arith, p.attached);
                      policy = p.policy;
                      granted = p.granted;
                    })
                    λ v w p. p

  -- A request that looks at a path.
  looking-IsGuarded :
      (path : RelPath) (k : Export → PathBuf → Act fs Response)
      → ((x : Export) (full : PathBuf) → Keeps G (k x full))
      → Keeps G (export fs >>= λ x. resolved fs lib x path >>= k x)
  looking-IsGuarded path k h =
      export-IsGuarded fs lib name ex ro _
        λ x e r. resolved-IsGuarded fs lib name ex ro x path (k x) e λ full vis. h x full

  open_file-IsGuarded : (path : RelPath) (flags : OpenFlags) → Keeps G (open_file fs lib path flags)
  unfolding open_file
  open_file-IsGuarded path flags = export-IsGuarded fs lib name ex ro _ λ x e r.
      Keeps-unless G _ _ _ λ allowed. resolved-IsGuarded fs lib name ex ro x path _ e λ full vis.
        next _ _ (λ w p. disk-IsGuarded fs lib name ex ro _ w p)
          λ file.
            next _ _ (λ w p. p)
              λ md. next _ _ (Keeps-raise_if G _ _) λ u.
                next _ _
                  (Keeps-if G flags.truncate _ _ (on_versions-IsGuarded fs lib name ex ro _)
                    (λ w p. p))
                  λ v.
                    next _ _
                      (insert_handle-IsGuarded fs lib name ex ro _ path _ vis
                        (λ wants. ground (arith, r)))
                      λ fh w p. p

  readlink-IsGuarded : (path : RelPath) → Keeps G (readlink fs lib path)
  unfolding readlink
  readlink-IsGuarded path = export-IsGuarded fs lib name ex ro _ λ x e r.
      resolved_new-IsGuarded fs lib name ex ro x path _ e λ full vis.
        next _ _ (λ w p. p)
          λ md.
            next _ _ (Keeps-raise_if G _ _)
              λ u. next _ _ (λ w p. p) λ target. next _ _ (Keeps-or_raise G target _) λ t w p. p

  read-IsGuarded : (fh offset len : ℕ) → Keeps G (read fs lib fh offset len)
  unfolding read
  read-IsGuarded fh offset len =
      next _ _ (Keeps-raise_if G _ _) λ u.
        next _ _ (handle_of-IsGuarded fs lib name ex ro fh) λ h. next _ _ (λ w p. p) λ buf w p. p

  readdir-IsGuarded : (path : RelPath) (cursor : ℕ) → Keeps G (readdir fs lib path cursor)
  unfolding readdir
  readdir-IsGuarded path cursor =
      export-IsGuarded fs lib name ex ro _ λ x e r. next _ _ (λ w p. p) λ entries w p. p

  mount_defaults-IsGuarded : Keeps G (mount_defaults fs lib)
  unfolding mount_defaults
  mount_defaults-IsGuarded = export-IsGuarded fs lib name ex ro _ λ x e r w p. p

  unlock_handle-IsGuarded :
      (fh : ℕ) (path : RelPath) (w : World fs) → G w → G (unlock_handle fs lib fh path w)
  unfolding unlock_handle
  unlock_handle-IsGuarded fh path w p =
      let q = on_export-IsGuarded fs lib name ex ro _ (λ y. (refl, refl)) w p in
      record { attached = q.attached; policy = q.policy; granted = q.granted }

  close-IsGuarded :
      (fh : ℕ) (o : Option (OpenFile fs)) (w : World fs) → G w → G (close fs lib fh o w)
  unfolding close
  close-IsGuarded fh none w p = p
  close-IsGuarded fh (some h) w p = unlock_handle-IsGuarded fh h.path _ (record {
    attached = p.attached;
    policy = p.policy;
    granted = remove-AllValues _ fh w.session.handles p.granted;
  })

  statfs-IsGuarded : Keeps G (statfs fs lib)
  unfolding statfs
  statfs-IsGuarded w p = p

  dispatch_blocking-IsGuarded : (req : Request) → Keeps G (dispatch_blocking fs lib req)
  unfolding dispatch_blocking getattr unlink rmdir release
  dispatch_blocking-IsGuarded (Request.attach n) w p = attach-IsGuarded n w p
  dispatch_blocking-IsGuarded (Request.getattr path) w p =
      looking-IsGuarded path _ (λ x full. next _ _ (λ w p. p) λ md w p. p) w p
  dispatch_blocking-IsGuarded (Request.readdir path cursor) w p = readdir-IsGuarded path cursor w p
  dispatch_blocking-IsGuarded (Request.open_file path flags) w p =
      open_file-IsGuarded path flags w p
  dispatch_blocking-IsGuarded (Request.create path flags mode) w p =
      create-IsGuarded fs lib name ex ro path flags mode w p
  dispatch_blocking-IsGuarded (Request.read fh offset len) w p = read-IsGuarded fh offset len w p
  dispatch_blocking-IsGuarded (Request.write fh offset bytes v) w p =
      write-IsGuarded fs lib name ex ro fh offset bytes v w p
  dispatch_blocking-IsGuarded (Request.flush fh) w p = p
  dispatch_blocking-IsGuarded (Request.release fh) w p =
      close-IsGuarded fh (get fh w.session.handles) w p
  dispatch_blocking-IsGuarded (Request.setattr path size mtime mode) w p =
      setattr-IsGuarded fs lib name ex ro path size mtime mode w p
  dispatch_blocking-IsGuarded (Request.mkdir path mode) w p =
      mkdir-IsGuarded fs lib name ex ro path mode w p
  dispatch_blocking-IsGuarded (Request.unlink path) w p =
      removing-IsGuarded fs lib name ex ro path (λ full disk. fs.remove_file disk full) w p
  dispatch_blocking-IsGuarded (Request.rmdir path) w p =
      removing-IsGuarded fs lib name ex ro path (λ full disk. fs.remove_dir disk full) w p
  dispatch_blocking-IsGuarded (Request.rename from to replace) w p =
      rename-IsGuarded fs lib name ex ro from to replace w p
  dispatch_blocking-IsGuarded (Request.link target path) w p =
      link-IsGuarded fs lib name ex ro target path w p
  dispatch_blocking-IsGuarded (Request.symlink target path) w p =
      symlink-IsGuarded fs lib name ex ro target path w p
  dispatch_blocking-IsGuarded (Request.read_link path) w p = readlink-IsGuarded path w p
  dispatch_blocking-IsGuarded Request.statfs w p = statfs-IsGuarded w p
  dispatch_blocking-IsGuarded Request.mount_defaults w p = mount_defaults-IsGuarded w p
  dispatch_blocking-IsGuarded (Request.lock fh kind wait) w p = p
  dispatch_blocking-IsGuarded (Request.unlock fh) w p = p
  dispatch_blocking-IsGuarded (Request.subscribe since_seq) w p = p
  dispatch_blocking-IsGuarded (Request.auth token) w p = p

  lock_pass-IsGuarded :
      (path : RelPath) (fh : ℕ) (kind : LockKind) (wait : Bool)
      → Keeps G (lock_pass fs lib path fh kind wait)
  unfolding lock_pass
  lock_pass-IsGuarded path fh kind wait = export-IsGuarded fs lib name ex ro _ λ x e r.
      next _ _ (λ w p. p)
        λ id.
          next _ _ (λ w p. p)
            λ ticket. next _ _ (on_export-IsGuarded fs lib name ex ro _ (λ y. (refl, refl))) λ u.
              next _ _
                (λ w p. record { attached = p.attached; policy = p.policy; granted = p.granted })
                λ v w p. p

  route-IsGuarded : (req : Request) (w : World fs) → G w → G (route fs lib req w).1
  unfolding route lock unlock_request subscribe_events
  route-IsGuarded (Request.subscribe since) w p =
      export-IsGuarded fs lib name ex ro _
        (λ x e r.
          next _ _ (λ w p. p)
            λ pushes. next _ _ (Keeps-raise_if G _ _) λ u. next _ _ (λ w p. p) λ batch w p. p)
        w p
  route-IsGuarded (Request.lock fh kind wait) w p =
      export-IsGuarded fs lib name ex ro _
        (λ x e r.
          next _ _ (handle_of-IsGuarded fs lib name ex ro fh)
            λ h. lock_pass-IsGuarded h.path fh kind wait)
        w p
  route-IsGuarded (Request.unlock fh) w p =
      export-IsGuarded fs lib name ex ro _
        (λ x e r.
          next _ _ (handle_of-IsGuarded fs lib name ex ro fh)
            λ h. next _ _ (unlock_handle-IsGuarded fh h.path) λ u w p. p)
        w p
  route-IsGuarded req w p = dispatch_blocking-IsGuarded req w p

-- After any sequence of requests of a session that is attached to an export, it is still attached to
-- it, with the same excludes and mode; and every handle, those that were opened in between among
-- them, leads to a path that is not excluded, and may write only if the export is not read-only.
pub handle_all-IsGuarded :
    (fs : FileSystem) (lib : Globset) (name : Text) (ex : ExcludeSet) (ro : Bool)
    (reqs : List Request) (w : World fs)
    → IsGuarded fs lib name ex ro w
    → IsGuarded fs lib name ex ro (handle_all fs lib reqs w).1
handle_all-IsGuarded fs lib name ex ro =
    handle_all-Keeps fs lib (IsGuarded fs lib name ex ro)
      (λ now w p. record { attached = p.attached; policy = p.policy; granted = p.granted })
      (λ w p. record { attached = p.attached; policy = p.policy; granted = p.granted })
      (route-IsGuarded fs lib name ex ro)
