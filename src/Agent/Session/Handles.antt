-- ===== src/Agent/Session/Handles.antt =====
-- What the open handles of a session are good for.
use alloyfs.Base.{ℕ, ◌≡◌, refl, ◌∙◌, sym, Bool, true, false, some, arith, nat_eq}
use alloyfs.Base.Text.{Text, text_eq, text_beq_iff}
use alloyfs.Base.Table.{get, get-insert}
use alloyfs.Base.Table.Values.{AllValues, insert-AllValues}
use alloyfs.Proto.Errors.{Result, ok, err}
use alloyfs.Proto.Path.{RelPath}
use alloyfs.Common.Action.{◌>>=◌, continue, Keeps, Keeps-bind}
use alloyfs.Common.Exclude.{Globset, ExcludeSet, is_excluded}
use alloyfs.Common.Coalesce.Events.{PathBuf}
use alloyfs.Common.Files.{FileSystem}
use alloyfs.Agent.Versions.{Versions}
use alloyfs.Agent.Export.{Export, resolve, resolve_new}
use alloyfs.Agent.Export.Inside.{resolve-IsServed, resolve_new-IsServed}
use alloyfs.Agent.Session.{
  World, OpenFile, Act, on_session, on_export, export, writable_export, insert_handle, add_handle,
  on_versions, note_write,
}
use alloyfs.Agent.Session.Steps.{on_export_cases, export_cases, writable_export_cases}
use alloyfs.Agent.Session.Requests.{resolved, resolved_new}

-- The handle leads to a path that is not excluded, and may write only where the export allows it.
pub record IsGranted (fs : FileSystem) (lib : Globset) (ex : ExcludeSet) (ro : Bool)
    (of : OpenFile fs) : Type 0 where
  pub visible : is_excluded lib ex of.path ≡ false
  pub may_write : of.writable ≡ true → ro ≡ false

-- The session is attached to an export with these excludes and this mode, and every handle is granted.
pub record IsGuarded (fs : FileSystem) (lib : Globset) (name : Text) (ex : ExcludeSet) (ro : Bool)
    (w : World fs) : Type 0 where
  pub attached : w.session.attached ≡ some name
  pub policy : (x : Export) → get name w.exports ≡ some x → (x.exclude ≡ ex) × (x.read_only ≡ ro)
  pub granted : AllValues (IsGranted fs lib ex ro) w.session.handles

module _ (fs : FileSystem) (lib : Globset) (name : Text) (ex : ExcludeSet) (ro : Bool) where
  abbrev pub Guarded : World fs → Type 0
  Guarded = IsGuarded fs lib name ex ro

  pub and_next :
      {A B : Type 0} (m : Act fs A) (k : A → Act fs B)
      → Keeps Guarded m
      → ((a : A) → Keeps Guarded (k a))
      → Keeps Guarded (m >>= k)
  and_next m k h h' = Keeps-bind Guarded m k h h'

  -- What the attached export is when it is found.
  attached_policy :
      (w : World fs) (found : Text) (x : Export)
      → Guarded w
      → (w.session.attached ≡ some found) × (get found w.exports ≡ some x)
      → (found ≡ name) × (x.exclude ≡ ex) × (x.read_only ≡ ro)
  attached_policy w found x p (a, e) =
      let same : found ≡ name = ground (arith, p.attached) in
      let (same_ex, same_ro) = p.policy x (rw (sym same) e) in (same, same_ex, same_ro)

  pub on_export-IsGuarded :
      (f : Export → Export)
      → ((x : Export) → ((f x).exclude ≡ x.exclude) × ((f x).read_only ≡ x.read_only))
      → (w : World fs) → Guarded w
      → Guarded (on_export fs f w)
  on_export-IsGuarded f same w p = on_export_cases fs Guarded f w p λ found x e. record {
    attached = p.attached;
    policy = λ y at.
        let (s, same_ex, same_ro) = attached_policy w found x p e in
        ground (arith, get-insert found name (f x) w.exports, text_beq_iff found name, same x);
    granted = p.granted;
  }

  pub disk-IsGuarded :
      (disk : fs.State) (w : World fs) → Guarded w → Guarded (record w { disk = disk })
  disk-IsGuarded disk w p = record { attached = p.attached; policy = p.policy; granted = p.granted }

  pub export-IsGuarded :
      {A : Type 0} (k : Export → Act fs A)
      → ((x : Export) → x.exclude ≡ ex → x.read_only ≡ ro → Keeps Guarded (k x))
      → Keeps Guarded (export fs >>= k)
  export-IsGuarded k h w p =
      export_cases fs (λ r. Guarded r.1) k w p
        λ found x e.
          let (s, same_ex, same_ro) = attached_policy w found x p e in h x same_ex same_ro w p

  pub writable_export-IsGuarded :
      {A : Type 0} (k : Export → Act fs A)
      → ((x : Export) → x.exclude ≡ ex → ro ≡ false → Keeps Guarded (k x))
      → Keeps Guarded (writable_export fs >>= k)
  writable_export-IsGuarded k h w p =
      writable_export_cases fs (λ r. Guarded r.1) k w p p
        λ found x e rw_mode.
          let (s, same_ex, same_ro) = attached_policy w found x p e in
          h x same_ex (sym same_ro ∙ rw_mode) w p

  visible_continue :
      (x : Export) (path : RelPath) (r : Result PathBuf)
      → x.exclude ≡ ex
      → ((full : PathBuf) → r ≡ ok full → is_excluded lib x.exclude path ≡ false)
      → {A : Type 0} (k : PathBuf → Act fs A)
      → ((full : PathBuf) → is_excluded lib ex path ≡ false → Keeps Guarded (k full))
      → (w : World fs) → Guarded w
      → Guarded (continue (r, w) k).1
  visible_continue x path (ok full) e vis k h w p = h full (rw (sym e) (vis full refl)) w p
  visible_continue x path (err c) e vis k h w p = p

  -- What comes after a path was resolved has a path that is not excluded.
  pub resolved-IsGuarded :
      {A : Type 0} (x : Export) (path : RelPath) (k : PathBuf → Act fs A)
      → x.exclude ≡ ex
      → ((full : PathBuf) → is_excluded lib ex path ≡ false → Keeps Guarded (k full))
      → Keeps Guarded (resolved fs lib x path >>= k)
  unfolding ◌>>=◌
  resolved-IsGuarded x path k e h w p =
      visible_continue x path (resolve fs lib w.disk x path) e
        (λ full r. (resolve-IsServed fs lib w.disk x path full r).0) k h w p

  pub resolved_new-IsGuarded :
      {A : Type 0} (x : Export) (path : RelPath) (k : PathBuf → Act fs A)
      → x.exclude ≡ ex
      → ((full : PathBuf) → is_excluded lib ex path ≡ false → Keeps Guarded (k full))
      → Keeps Guarded (resolved_new fs lib x path >>= k)
  unfolding ◌>>=◌
  resolved_new-IsGuarded x path k e h w p =
      visible_continue x path (resolve_new fs lib w.disk x path) e
        (λ full r. (resolve_new-IsServed fs lib w.disk x path full r).0) k h w p

  pub on_versions-IsGuarded : (f : Versions → Versions × ℕ) → Keeps Guarded (on_versions fs f)
  unfolding on_versions
  on_versions-IsGuarded f =
      export-IsGuarded _
        λ x e r. and_next _ _ (on_export-IsGuarded _ (λ y. (refl, refl))) λ u w p. p

  pub note_write-IsGuarded : (path : RelPath) → Keeps Guarded (note_write fs path)
  unfolding note_write
  note_write-IsGuarded path w p = on_export-IsGuarded _ (λ y. (refl, refl)) w p

  added-IsGuarded :
      (of : OpenFile fs) (w : World fs)
      → IsGranted fs lib ex ro of
      → Guarded w
      → Guarded (on_session fs (add_handle fs of) w)
  added-IsGuarded of w g p = record {
    attached = p.attached;
    policy = p.policy;
    granted = insert-AllValues _ w.session.next_fh of w.session.handles g p.granted;
  }

  pub insert_handle-IsGuarded :
      (file : fs.File) (path : RelPath) (b : Bool)
      → is_excluded lib ex path ≡ false
      → (b ≡ true → ro ≡ false)
      → Keeps Guarded (insert_handle fs file path b)
  unfolding insert_handle
  insert_handle-IsGuarded file path b visible may =
      and_next _ _ (λ w p. p)
        λ fh.
          and_next _ _
            (λ w p. added-IsGuarded _ w (record { visible = visible; may_write = may }) p)
            λ u w p. p
