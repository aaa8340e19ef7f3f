-- ===== src/Client/Remote/Links/Crossing.antt =====
-- Across the boundary of the overlay.
use alloyfs.Base.{ℕ, ◌≡◌, refl, Bool, true, false, some, ◌⊎◌, inl, inr}
use alloyfs.Base.Text.{Text}
use alloyfs.Proto.Errors.{cross_device}
use alloyfs.Proto.Path.{RelPath, join}
use alloyfs.Client.Errno.{remote}
use alloyfs.Client.Effect.{success, failure, ◌>>=◌}
use alloyfs.Client.Inodes.{path_of}
use alloyfs.Client.Local.{LocalTree}
use alloyfs.Client.Remote.{Outside}
use alloyfs.Client.Remote.Calls.{Mount, On, is_overlay, path_at}
use alloyfs.Client.Remote.Names.{both_routed, rename}
use alloyfs.Client.Remote.Links.{link}

module _ (t : LocalTree) (out : Outside) (s : Mount t out) where
  path_at_known :
      (ino : ℕ) (path : RelPath)
      → path_of s.ino ino ≡ some path
      → path_at t out ino s ≡ (success path, s)
  unfolding path_at ◌>>=◌
  path_at_known ino path e = rw e refl

  -- One of the paths is the overlay's and the other is not.
  abbrev pub Crosses : (from to : RelPath) → Type 0
  Crosses from to =
      ((is_overlay t out s from ≡ true) × (is_overlay t out s to ≡ false))
      ⊎ ((is_overlay t out s from ≡ false) × (is_overlay t out s to ≡ true))

  both_routed_refused :
      {A : Type 0} (from to : RelPath) (near far : On t out A)
      → Crosses from to
      → both_routed t out from to near far s ≡ (failure (remote cross_device), s)
  unfolding ◌>>=◌
  both_routed_refused from to near far (inl (a, b)) = rw (a, b) refl
  both_routed_refused from to near far (inr (a, b)) = rw (a, b) refl

  -- A rename or a hard link from the overlay to the server, or the other way round, is refused with
  -- `CrossDevice`: nothing is sent, the overlay is not asked, and nothing of the mount changes.
  pub crossing_refused :
      (ino newparent parent : ℕ) (name newname : Text) (replace : Bool)
      (target dir newdir : RelPath)
      → path_of s.ino ino ≡ some target
      → path_of s.ino parent ≡ some dir
      → path_of s.ino newparent ≡ some newdir
      → Crosses (join dir name) (join newdir newname)
      → Crosses target (join newdir newname)
      → (rename t out parent name newparent newname replace s ≡ (failure (remote cross_device), s))
        × (link t out ino newparent newname s ≡ (failure (remote cross_device), s))
  unfolding rename link ◌>>=◌
  crossing_refused ino newparent parent name newname replace target dir newdir at_ino at_parent
        at_new renamed linked =
      rw
        (
          path_at_known ino target at_ino,
          path_at_known parent dir at_parent,
          path_at_known newparent newdir at_new,
        )
        (
          both_routed_refused (join dir name) (join newdir newname) _ _ renamed,
          both_routed_refused target (join newdir newname) _ _ linked,
        )
