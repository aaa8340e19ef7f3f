-- ===== src/Agent/Session/Changing.antt =====
-- The requests that change the disk keep the handles of a session granted.
use alloyfs.Base.{ℕ, Bool, true, Option, none, some, nat_eq}
use alloyfs.Base.Text.{Text, text_eq}
use alloyfs.Proto.Path.{RelPath}
use alloyfs.Proto.Messages.{Response, OpenFlags, Bytes, SystemTime}
use alloyfs.Common.Action.{◌>>=◌, pure, Keeps, Keeps-bind, Keeps-raise_if, Keeps-or_raise}
use alloyfs.Common.Exclude.{Globset, ExcludeSet}
use alloyfs.Common.Coalesce.Events.{PathBuf}
use alloyfs.Common.Files.{FileSystem, Io}
use alloyfs.Agent.Versions.{Versions, bump}
use alloyfs.Agent.Session.{World, Act, writable_export, handle_of, on_versions, perform, note_write}
use alloyfs.Agent.Session.Requests.{resolved}
use alloyfs.Agent.Session.Changes.{
  create, write, setattr, mkdir, rename, link, symlink, with_opened,
}
use alloyfs.Agent.Session.Handles.{
  IsGuarded, writable_export-IsGuarded, disk-IsGuarded, resolved-IsGuarded, resolved_new-IsGuarded,
  on_versions-IsGuarded, note_write-IsGuarded, insert_handle-IsGuarded,
}

module _ (fs : FileSystem) (lib : Globset) (name : Text) (ex : ExcludeSet) (ro : Bool) where
  abbrev G : World fs → Type 0
  G = IsGuarded fs lib name ex ro

  next :
      {A B : Type 0} (m : Act fs A) (k : A → Act fs B)
      → Keeps G m
      → ((a : A) → Keeps G (k a))
      → Keeps G (m >>= k)
  next m k h h' = Keeps-bind G m k h h'

  pub handle_of-IsGuarded : (fh : ℕ) → Keeps G (handle_of fs fh)
  unfolding handle_of
  handle_of-IsGuarded fh = next _ _ (λ w p. p) λ found. Keeps-or_raise G found _

  pub create-IsGuarded :
      (path : RelPath) (flags : OpenFlags) (mode : ℕ) → Keeps G (create fs lib path flags mode)
  unfolding create
  create-IsGuarded path flags mode = writable_export-IsGuarded fs lib name ex ro _ λ x e open_mode.
      resolved_new-IsGuarded fs lib name ex ro x path _ e λ full vis.
        next _ _ (λ w p. disk-IsGuarded fs lib name ex ro _ w p)
          λ file.
            next _ _ (λ w p. disk-IsGuarded fs lib name ex ro _ w p)
              λ u.
                next _ _ (λ w p. p)
                  λ md. next _ _ (note_write-IsGuarded fs lib name ex ro path) λ v.
                    next _ _ (on_versions-IsGuarded fs lib name ex ro _) λ version.
                      next _ _
                        (insert_handle-IsGuarded fs lib name ex ro file path true vis
                          (λ t. open_mode))
                        λ fh w p. p

  -- The end of every change: the write is noted and the version goes up.
  noted-IsGuarded :
      (path : RelPath) (f : Versions → Versions × ℕ) (k : ℕ → Act fs Response)
      → ((v : ℕ) → Keeps G (k v))
      → Keeps G (note_write fs path >>= λ _. on_versions fs f >>= k)
  noted-IsGuarded path f k h =
      next _ _ (note_write-IsGuarded fs lib name ex ro path)
        λ u. next _ _ (on_versions-IsGuarded fs lib name ex ro f) h

  with_opened-IsGuarded :
      {A : Type 0} (full : PathBuf) (o : Option A) (change : fs.File → A → Act fs (Unit {0}))
      → ((file : fs.File) (a : A) → Keeps G (change file a))
      → Keeps G (with_opened fs lib full o change)
  with_opened-IsGuarded full none change h w p = p
  with_opened-IsGuarded full (some a) change h w p =
      next _ _ (λ w p. disk-IsGuarded fs lib name ex ro _ w p) (λ file. h file a) w p

  pub write-IsGuarded :
      (fh offset : ℕ) (bytes : Bytes) (v : Option ℕ) → Keeps G (write fs lib fh offset bytes v)
  unfolding write
  write-IsGuarded fh offset bytes v = writable_export-IsGuarded fs lib name ex ro _ λ x e open_mode.
      next _ _ (handle_of-IsGuarded fh) λ h. next _ _ (Keeps-raise_if G _ _) λ u.
        next _ _ (Keeps-raise_if G _ _) λ u'.
          next _ _ (λ w p. disk-IsGuarded fs lib name ex ro _ w p)
            λ d. noted-IsGuarded h.path _ _ λ version w p. p

  pub setattr-IsGuarded :
      (path : RelPath) (size : Option ℕ) (mtime : Option SystemTime) (mode : Option ℕ)
      → Keeps G (setattr fs lib path size mtime mode)
  unfolding setattr
  setattr-IsGuarded path size mtime mode =
      writable_export-IsGuarded fs lib name ex ro _ λ x e open_mode.
        resolved-IsGuarded fs lib name ex ro x path _ e λ full vis.
          next _ _
            (with_opened-IsGuarded full size _ λ file n w p. disk-IsGuarded fs lib name ex ro _ w p)
            λ a.
              next _ _
                (with_opened-IsGuarded full mtime _
                  λ file t w p. disk-IsGuarded fs lib name ex ro _ w p)
                λ b.
                  next _ _
                    (with_opened-IsGuarded full mode _
                      λ file m w p. disk-IsGuarded fs lib name ex ro _ w p)
                    λ c. next _ _ (λ w p. p) λ md. noted-IsGuarded path _ _ λ version w p. p

  pub removing-IsGuarded :
      (path : RelPath) (call : PathBuf → fs.State → Io (Unit {0}) × fs.State)
      → Keeps G (
          writable_export fs >>= λ x. resolved fs lib x path >>= λ full.
          perform fs (call full) >>= λ _.
          note_write fs path >>= λ _. on_versions fs (λ v. bump v path) >>= λ _. pure Response.ok)
  removing-IsGuarded path call = writable_export-IsGuarded fs lib name ex ro _ λ x e open_mode.
      resolved-IsGuarded fs lib name ex ro x path _ e λ full vis.
        next _ _ (λ w p. disk-IsGuarded fs lib name ex ro _ w p)
          λ d. noted-IsGuarded path _ _ λ version w p. p

  pub rename-IsGuarded :
      (from to : RelPath) (replace : Bool) → Keeps G (rename fs lib from to replace)
  unfolding rename
  rename-IsGuarded from to replace = writable_export-IsGuarded fs lib name ex ro _ λ x e open_mode.
      resolved-IsGuarded fs lib name ex ro x from _ e λ full vis.
        resolved_new-IsGuarded fs lib name ex ro x to _ e λ to_full vis'.
          next _ _ (λ w p. p)
            λ exists. next _ _ (Keeps-raise_if G _ _) λ u.
              next _ _ (λ w p. disk-IsGuarded fs lib name ex ro _ w p)
                λ d.
                  next _ _ (note_write-IsGuarded fs lib name ex ro from)
                    λ n. noted-IsGuarded to _ _ λ version w p. p

  pub mkdir-IsGuarded : (path : RelPath) (mode : ℕ) → Keeps G (mkdir fs lib path mode)
  unfolding mkdir
  mkdir-IsGuarded path mode = writable_export-IsGuarded fs lib name ex ro _ λ x e open_mode.
      resolved_new-IsGuarded fs lib name ex ro x path _ e λ full vis.
        next _ _ (λ w p. disk-IsGuarded fs lib name ex ro _ w p)
          λ d. next _ _ (λ w p. p) λ md. noted-IsGuarded path _ _ λ version w p. p

  pub link-IsGuarded : (target path : RelPath) → Keeps G (link fs lib target path)
  unfolding link
  link-IsGuarded target path = writable_export-IsGuarded fs lib name ex ro _ λ x e open_mode.
      resolved-IsGuarded fs lib name ex ro x target _ e λ target_full vis.
        resolved_new-IsGuarded fs lib name ex ro x path _ e λ full vis'.
          next _ _ (λ w p. disk-IsGuarded fs lib name ex ro _ w p)
            λ d. next _ _ (λ w p. p) λ md. noted-IsGuarded path _ _ λ version w p. p

  pub symlink-IsGuarded : (target : Text) (path : RelPath) → Keeps G (symlink fs lib target path)
  unfolding symlink
  symlink-IsGuarded target path = writable_export-IsGuarded fs lib name ex ro _ λ x e open_mode.
      resolved_new-IsGuarded fs lib name ex ro x path _ e λ full vis.
        next _ _ (Keeps-or_raise G _ _) λ landing. next _ _ (Keeps-raise_if G _ _) λ u.
          next _ _ (λ w p. disk-IsGuarded fs lib name ex ro _ w p)
            λ d. next _ _ (λ w p. p) λ md. noted-IsGuarded path _ _ λ version w p. p
