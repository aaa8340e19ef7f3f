-- ===== src/Agent/Session/ReadOnly.antt =====
-- What a session can change where every export is read-only.
use alloyfs.Base.{ℕ, ◌≡◌, refl, ◌∙◌, Bool, true, false, Option, none, some, arith, nat_eq}
use alloyfs.Base.Text.{Text, text_eq}
use alloyfs.Base.Table.{get, remove}
use alloyfs.Base.Table.Values.{AllValues, get-AllValues, insert-AllValues}
use alloyfs.Proto.Path.{RelPath}
use alloyfs.Proto.Messages.{Request, OpenFlags}
use alloyfs.Common.Action.{
  ◌>>=◌, Keeps, Keeps-bind, Keeps-raise_if, Keeps-or_raise, Keeps-unless, Keeps-if,
}
use alloyfs.Common.Exclude.{Globset}
use alloyfs.Common.Coalesce.Events.{PathBuf}
use alloyfs.Common.Files.{FileSystem}
use alloyfs.Agent.Versions.{Versions}
use alloyfs.Agent.Export.{Export}
use alloyfs.Agent.Session.{
  World, Session, OpenFile, Act, on_session, on_export, export, writable_export, handle_of,
  insert_handle, on_versions, perform,
}
use alloyfs.Agent.Session.Steps.{on_export_cases, export_cases, writable_export_cases}
use alloyfs.Agent.Session.Requests.{
  attach, getattr, readdir, open_file, read, readlink, unlock_handle, close, release, statfs,
  mount_defaults,
}
use alloyfs.Agent.Session.Changes.{
  create, write, setattr, mkdir, unlink, rmdir, rename, link, symlink,
}
use alloyfs.Agent.Session.Handler.{dispatch_blocking}

-- Documented behaviour of `open` without write access and without truncation.
pub record OpensForReading (fs : FileSystem) : Type 0 where
  pub unchanged : (disk : fs.State) (path : PathBuf) → (fs.open_file disk path false false).1 ≡ disk

abbrev pub IsReadOnly : Export → Type 0
IsReadOnly x = x.read_only ≡ true

-- The disk is the one that it was, and every export is read-only.
pub record IsKept (fs : FileSystem) (disk : fs.State) (w : World fs) : Type 0 where
  pub same : w.disk ≡ disk
  pub closed : AllValues IsReadOnly w.exports

module _ (fs : FileSystem) (lib : Globset) (disk : fs.State) where
  abbrev pub Kept : World fs → Type 0
  Kept = IsKept fs disk

  pub put-IsKept :
      (f : Export → Export)
      → ((x : Export) → (f x).read_only ≡ x.read_only)
      → (w : World fs) → Kept w
      → Kept (on_export fs f w)
  put-IsKept f same w k = on_export_cases fs Kept f w k λ name x e. record {
    same = k.same;
    closed =
        insert-AllValues IsReadOnly name (f x) w.exports
          (same x ∙ get-AllValues IsReadOnly name x w.exports k.closed e.1) k.closed;
  }

  pub export-IsKept :
      {A : Type 0} (k : Export → Act fs A)
      → ((x : Export) → IsReadOnly x → Keeps Kept (k x))
      → Keeps Kept (export fs >>= k)
  export-IsKept k h w p =
      export_cases fs (λ r. Kept r.1) k w p
        λ name x e. h x (get-AllValues IsReadOnly name x w.exports p.closed e.1) w p

  pub writable_export-IsKept :
      {A : Type 0} (k : Export → Act fs A) → Keeps Kept (writable_export fs >>= k)
  writable_export-IsKept k w p =
      writable_export_cases fs (λ r. Kept r.1) k w p p
        λ name x e writable. ground (arith, get-AllValues IsReadOnly name x w.exports p.closed e.1)

  pub and_then :
      {A B : Type 0} (m : Act fs A) (k : A → Act fs B)
      → Keeps Kept m
      → ((a : A) → Keeps Kept (k a))
      → Keeps Kept (m >>= k)
  and_then m k h h' = Keeps-bind Kept m k h h'

  pub session-IsKept :
      (f : Session fs → Session fs) (w : World fs) → Kept w → Kept (on_session fs f w)
  session-IsKept f w p = record { same = p.same; closed = p.closed }

  insert_handle-IsKept :
      (file : fs.File) (path : RelPath) (b : Bool) → Keeps Kept (insert_handle fs file path b)
  unfolding insert_handle
  insert_handle-IsKept file path b =
      and_then _ _ (λ w p. p) λ fh. and_then _ _ (session-IsKept _) λ u w p. p

  on_versions-IsKept : (f : Versions → Versions × ℕ) → Keeps Kept (on_versions fs f)
  unfolding on_versions
  on_versions-IsKept f =
      export-IsKept _ λ x closed. and_then _ _ (put-IsKept _ (λ y. refl)) λ u w p. p

  attach-IsKept : (name : Text) → Keeps Kept (attach fs lib name)
  unfolding attach
  attach-IsKept name =
      and_then _ _ (λ w p. p)
        λ current. and_then _ _ (Keeps-raise_if Kept _ _) λ u.
          and_then _ _ (λ w p. p)
            λ found.
              and_then _ _ (Keeps-or_raise Kept found _)
                λ x. and_then _ _ (λ w p. p) λ md. and_then _ _ (session-IsKept _) λ v w p. p

  getattr-IsKept : (path : RelPath) → Keeps Kept (getattr fs lib path)
  unfolding getattr
  getattr-IsKept path =
      export-IsKept _
        λ x closed. and_then _ _ (λ w p. p) λ full. and_then _ _ (λ w p. p) λ md w p. p

  readdir-IsKept : (path : RelPath) (cursor : ℕ) → Keeps Kept (readdir fs lib path cursor)
  unfolding readdir
  readdir-IsKept path cursor = export-IsKept _ λ x closed. and_then _ _ (λ w p. p) λ entries w p. p

  read-IsKept : (fh offset len : ℕ) → Keeps Kept (read fs lib fh offset len)
  unfolding read handle_of
  read-IsKept fh offset len = and_then _ _ (Keeps-raise_if Kept _ _) λ u.
      and_then _ _ (and_then _ _ (λ w p. p) λ found. Keeps-or_raise Kept found _)
        λ h. and_then _ _ (λ w p. p) λ buf w p. p

  readlink-IsKept : (path : RelPath) → Keeps Kept (readlink fs lib path)
  unfolding readlink
  readlink-IsKept path = export-IsKept _ λ x closed.
      and_then _ _ (λ w p. p)
        λ full.
          and_then _ _ (λ w p. p)
            λ md. and_then _ _ (Keeps-raise_if Kept _ _) λ u.
              and_then _ _ (λ w p. p)
                λ target. and_then _ _ (Keeps-or_raise Kept target _) λ t w p. p

  mount_defaults-IsKept : Keeps Kept (mount_defaults fs lib)
  unfolding mount_defaults
  mount_defaults-IsKept = export-IsKept _ λ x closed w p. p

  pub unlock_handle-IsKept :
      (fh : ℕ) (path : RelPath) (w : World fs) → Kept w → Kept (unlock_handle fs lib fh path w)
  unfolding unlock_handle
  unlock_handle-IsKept fh path w p =
      let q = put-IsKept _ (λ y. refl) w p in record { same = q.same; closed = q.closed }

  close-IsKept :
      (fh : ℕ) (o : Option (OpenFile fs)) (w : World fs) → Kept w → Kept (close fs lib fh o w)
  unfolding close
  close-IsKept fh none w p = p
  close-IsKept fh (some h) w p =
      unlock_handle-IsKept fh h.path _
        (session-IsKept (λ s. record s { handles = remove fh s.handles }) w p)

  release-IsKept : (fh : ℕ) → Keeps Kept (release fs lib fh)
  unfolding release
  release-IsKept fh w p = close-IsKept fh (get fh w.session.handles) w p

  statfs-IsKept : Keeps Kept (statfs fs lib)
  unfolding statfs
  statfs-IsKept w p = p

  module _ (law : OpensForReading fs) where
    opening-IsKept :
        (full : PathBuf) (write truncate : Bool)
        → write ≡ false
        → truncate ≡ false
        → Keeps Kept (perform fs (λ d. fs.open_file d full write truncate))
    opening-IsKept full true truncate e e' w p = ground arith
    opening-IsKept full false true e e' w p = ground arith
    opening-IsKept full false false e e' w p = record {
      same = law.unchanged w.disk full ∙ p.same;
      closed = p.closed;
    }

    open_file-IsKept :
        (path : RelPath) (flags : OpenFlags) → Keeps Kept (open_file fs lib path flags)
    unfolding open_file
    open_file-IsKept path flags = export-IsKept _ λ x closed. Keeps-unless Kept _ _ _ λ reading.
        and_then _ _ (λ w p. p)
          λ full. and_then _ _ (opening-IsKept full _ _ (ground arith) (ground arith)) λ file.
            and_then _ _ (λ w p. p)
              λ md. and_then _ _ (Keeps-raise_if Kept _ _) λ u.
                and_then _ _ (Keeps-if Kept flags.truncate _ _ (on_versions-IsKept _) (λ w p. p))
                  λ v. and_then _ _ (insert_handle-IsKept _ _ _) λ fh w p. p

    pub dispatch_blocking-IsKept : (req : Request) → Keeps Kept (dispatch_blocking fs lib req)
    unfolding dispatch_blocking create write setattr mkdir unlink rmdir rename link symlink
    dispatch_blocking-IsKept (Request.attach name) w p = attach-IsKept name w p
    dispatch_blocking-IsKept (Request.getattr path) w p = getattr-IsKept path w p
    dispatch_blocking-IsKept (Request.readdir path cursor) w p = readdir-IsKept path cursor w p
    dispatch_blocking-IsKept (Request.open_file path flags) w p = open_file-IsKept path flags w p
    dispatch_blocking-IsKept (Request.create path flags mode) w p = writable_export-IsKept _ w p
    dispatch_blocking-IsKept (Request.read fh offset len) w p = read-IsKept fh offset len w p
    dispatch_blocking-IsKept (Request.write fh offset bytes v) w p = writable_export-IsKept _ w p
    dispatch_blocking-IsKept (Request.flush fh) w p = p
    dispatch_blocking-IsKept (Request.release fh) w p = release-IsKept fh w p
    dispatch_blocking-IsKept (Request.setattr path size mtime mode) w p =
        writable_export-IsKept _ w p
    dispatch_blocking-IsKept (Request.mkdir path mode) w p = writable_export-IsKept _ w p
    dispatch_blocking-IsKept (Request.unlink path) w p = writable_export-IsKept _ w p
    dispatch_blocking-IsKept (Request.rmdir path) w p = writable_export-IsKept _ w p
    dispatch_blocking-IsKept (Request.rename from to replace) w p = writable_export-IsKept _ w p
    dispatch_blocking-IsKept (Request.link target path) w p = writable_export-IsKept _ w p
    dispatch_blocking-IsKept (Request.symlink target path) w p = writable_export-IsKept _ w p
    dispatch_blocking-IsKept (Request.read_link path) w p = readlink-IsKept path w p
    dispatch_blocking-IsKept Request.statfs w p = statfs-IsKept w p
    dispatch_blocking-IsKept Request.mount_defaults w p = mount_defaults-IsKept w p
    dispatch_blocking-IsKept (Request.lock fh kind wait) w p = p
    dispatch_blocking-IsKept (Request.unlock fh) w p = p
    dispatch_blocking-IsKept (Request.subscribe since_seq) w p = p
    dispatch_blocking-IsKept (Request.auth token) w p = p
