-- ===== src/Client/Remote/Routed/Paths.antt =====
-- The steps that the operations of the mount share send no path of the overlay.
use alloyfs.Base.{
  ℕ, ◌≡◌, refl, ap, sym, ◌∙◌, Bool, true, false, Option, none, some, [], ◌∷◌, if◌then◌else◌, nat_eq,
  All,
}
use mathlib.Core.Path.{subst}
use alloyfs.Base.Text.{text_beq}
use alloyfs.Base.Table.{Table}
use alloyfs.Base.Table.Values.{AllValues, insert-AllValues}
use alloyfs.Proto.Path.{RelPath}
use alloyfs.Proto.Messages.{Attr, Request, Response}
use alloyfs.Common.Action.{Action}
use alloyfs.Client.Effect.{◌>>=◌, pure, Keeps, Keeps-bind, Keeps-or_raise}
use alloyfs.Client.Local.{LocalTree}
use alloyfs.Client.ReadAhead.{clear}
use alloyfs.Client.Remote.{OpenState, Outside}
use alloyfs.Client.Remote.Calls.{
  Mount, On, ask, on_overlay, local_of, path_at, alloc, mark_path_written, without_fast_path,
}
use alloyfs.Client.Remote.Names.{alloc_cached, alloc_beside, track}
use alloyfs.Client.Remote.Routed.{has_some, IsOutside, IsClean, IsSentClean, OpensOutside}
use alloyfs.Client.Remote.Routed.Supervisor.{Routed, ask-IsRouted}

module _ (t : LocalTree) (overlaid : Bool) (out : Outside) where
  abbrev pub Stays : {A : Type 0} → On t out A → Type 0
  Stays m = Keeps (Routed t overlaid out) m

  pub then-Stays :
      {A B : Type 0} (m : On t out A) (k : A → On t out B)
      → Stays m
      → ((a : A) → Stays (k a))
      → Stays (m >>= k)
  then-Stays m k = Keeps-bind (Routed t overlaid out) m k

  -- A change of neither what was sent, the overlay nor the handles.
  pub quiet-Stays :
      (s s' : Mount t out)
      → s'.overlay ≡ s.overlay
      → s'.sent ≡ s.sent
      → s'.replayed ≡ s.replayed
      → s'.open_files ≡ s.open_files
      → Routed t overlaid out s
      → Routed t overlaid out s'
  quiet-Stays s s' o a b f r = record {
    same = ap has_some o ∙ r.same;
    sent = subst (All (IsSentClean t overlaid)) (sym a) r.sent;
    replayed = subst (All (IsSentClean t overlaid)) (sym b) r.replayed;
    files = subst (AllValues (OpensOutside t overlaid)) (sym f) r.files;
  }

  pub path_at-Stays : (ino : ℕ) → Stays (path_at t out ino)
  unfolding path_at
  path_at-Stays ino =
      then-Stays _ _ (λ s r. r) λ found. Keeps-or_raise (Routed t overlaid out) found _

  pub alloc-Stays : (path : RelPath) → Stays (alloc t out path)
  unfolding alloc
  alloc-Stays path s r = quiet-Stays s _ refl refl refl refl r

  pub on_overlay-Stays : {A : Type 0} (f : Action t.State A) → Stays (on_overlay t out f)
  unfolding on_overlay
  on_overlay-Stays f s r = local-Stays s.overlay f s (r.same) r
    where
      local-Stays :
          {A : Type 0} (o : Option t.State) (f : Action t.State A) (s : Mount t out)
          → has_some o ≡ overlaid
          → Routed t overlaid out s
          → Routed t overlaid out (local_of t out o f s).1
      local-Stays none f s e r = r
      local-Stays (some o) f s e r = record {
        same = e;
        sent = r.sent;
        replayed = r.replayed;
        files = r.files;
      }

  pub alloc_cached-Stays : (path : RelPath) (attr : Attr) → Stays (alloc_cached t out path attr)
  unfolding alloc_cached
  alloc_cached-Stays path attr =
      then-Stays _ _ (alloc-Stays path)
        λ ino. then-Stays _ _ (λ s r. quiet-Stays s _ refl refl refl refl r) λ u s r. r

  alloc_beside-Stays : {A : Type 0} (path : RelPath) (a : A) → Stays (alloc_beside t out path a)
  alloc_beside-Stays path a = then-Stays _ _ (alloc-Stays path) λ ino s r. r

  -- The path's inode and attributes, once the server has answered.
  pub answered-Stays :
      (path : RelPath) (req : Request) (f : Response → Option Attr)
      → IsClean t overlaid req
      → Stays {A = ℕ × Attr}
          (do attr ← ask t out req f; ino ← alloc_cached t out path attr; pure (ino, attr))
  answered-Stays path req f c =
      then-Stays _ _ (ask-IsRouted t overlaid out req f c)
        λ attr. then-Stays _ _ (alloc_cached-Stays path attr) λ ino s r. r

  -- The overlay's answer, beside an inode.
  pub local-Stays :
      (path : RelPath) (f : Action t.State Attr)
      → Stays {A = ℕ × Attr} (do attr ← on_overlay t out f; alloc_beside t out path attr)
  local-Stays path f = then-Stays _ _ (on_overlay-Stays f) λ attr. alloc_beside-Stays path attr

  pub track-Stays :
      (fh : ℕ) (state : OpenState) → IsOutside t overlaid state.path → Stays (track t out fh state)
  track-Stays fh state o s r = record {
    same = r.same;
    sent = r.sent;
    replayed = r.replayed;
    files = insert-AllValues (OpensOutside t overlaid) fh state s.open_files o r.files;
  }

  without_fast_path_outside :
      (path : RelPath) (files : Table ℕ OpenState)
      → AllValues (OpensOutside t overlaid) files
      → AllValues (OpensOutside t overlaid) (without_fast_path t out path files)
  unfolding without_fast_path
  without_fast_path_outside path [] o = tt
  without_fast_path_outside path ((fh, state) ∷ files) o =
      (same_path (text_beq state.path path) state o.0, without_fast_path_outside path files o.1)
    where
      same_path :
          (b : Bool) (state : OpenState)
          → OpensOutside t overlaid state
          → OpensOutside t overlaid
              (if b then record state { cache_ok = false; ra = clear state.ra } else state)
      same_path true state o = o
      same_path false state o = o

  pub mark_path_written-Stays :
      (path : RelPath) (s : Mount t out)
      → Routed t overlaid out s
      → Routed t overlaid out (mark_path_written t out path s)
  unfolding mark_path_written
  mark_path_written-Stays path s r = record {
    same = r.same;
    sent = r.sent;
    replayed = r.replayed;
    files = without_fast_path_outside path s.open_files r.files;
  }
