-- ===== src/Client/Remote/Routed.antt =====
-- The paths that are routed to the overlay, and what is sent to the server.
pub mod Supervisor
pub mod Paths
pub mod Names
pub mod Handles
pub mod Runs
use alloyfs.Base.{
  ℕ, ◌≡◌, refl, Bool, true, false, ◌&&◌, Option, none, some, List, [], ◌∷◌, All, arith, inl, inr,
  if◌then◌else◌, nat_eq, Bool-cases,
}
use alloyfs.Base.Table.{Table}
use alloyfs.Base.Table.Values.{AllValues}
use alloyfs.Proto.Errors.{ErrorCode}
use alloyfs.Proto.Path.{RelPath}
use alloyfs.Proto.Messages.{Request}
use alloyfs.Client.Effect.{FsResult, Effect, ◌>>=◌, ◌>>◌, Keeps, raise}
use alloyfs.Client.Local.{LocalTree}
use alloyfs.Client.Remote.{OpenState, RemoteFs, Sent, Outside}
use alloyfs.Client.Remote.Calls.{Mount, On, is_overlay}
use alloyfs.Client.Remote.Names.{routed, both_routed}

abbrev pub has_some {ℓ} : {A : Type ℓ} → Option A → Bool
has_some none = false
has_some (some a) = true

-- `overlaid` says whether there is an overlay.
module _ (t : LocalTree) (overlaid : Bool) where
  -- The path is the server's.
  abbrev pub IsOutside : RelPath → Type 0
  IsOutside path = (overlaid && t.excluded path) ≡ false

  -- The request names no path that is the overlay's.
  abbrev pub IsClean : Request → Type 0
  IsClean (Request.getattr path) = IsOutside path
  IsClean (Request.readdir path cursor) = IsOutside path
  IsClean (Request.open_file path flags) = IsOutside path
  IsClean (Request.create path flags mode) = IsOutside path
  IsClean (Request.setattr path size mtime mode) = IsOutside path
  IsClean (Request.mkdir path mode) = IsOutside path
  IsClean (Request.unlink path) = IsOutside path
  IsClean (Request.rmdir path) = IsOutside path
  IsClean (Request.rename from to replace) = IsOutside from × IsOutside to
  IsClean (Request.link target link) = IsOutside target × IsOutside link
  IsClean (Request.symlink target link) = IsOutside link
  IsClean (Request.read_link path) = IsOutside path
  IsClean _ = Unit

  abbrev pub IsSentClean : Sent → Type 0
  IsSentClean (conn, req) = IsClean req

  abbrev pub OpensOutside : OpenState → Type 0
  OpensOutside state = IsOutside state.path

  -- Nothing sent names a path of the overlay, and the handles of the server are outside it.
  pub record IsRouted (s : RemoteFs t.State) : Type 0 where
    pub same : has_some s.overlay ≡ overlaid
    pub sent : All IsSentClean s.sent
    pub replayed : All IsSentClean s.replayed
    pub files : AllValues OpensOutside s.open_files

  module _ (out : Outside) where
    is_overlay_lem :
        (o : Option t.State) (path : RelPath)
        → has_some o ≡ overlaid
        → (elim o [ none ↦ false | some x ↦ t.excluded path ]) ≡ false
        → IsOutside path
    is_overlay_lem none path e h = ground arith
    is_overlay_lem (some o) path e h = ground arith

    pub IsOutside-of :
        (s : Mount t out) (path : RelPath)
        → IsRouted s
        → is_overlay t out s path ≡ false
        → IsOutside path
    unfolding is_overlay
    IsOutside-of s path h e = is_overlay_lem s.overlay path h.same e

    -- What is done with a path, on the side that it is routed to.
    pub routed-IsRouted :
        {A : Type 0} (path : RelPath) (near far : On t out A)
        → Keeps IsRouted near
        → (IsOutside path → Keeps IsRouted far)
        → Keeps IsRouted (routed t out path near far)
    unfolding ◌>>=◌
    routed-IsRouted path near far h h' s r = elim (Bool-cases (is_overlay t out s path)) [
      | inl inside ↦ rw inside (h s r)
      | inr outside ↦ rw outside (h' (IsOutside-of s path r outside) s r)
    ]

    pub both_routed-IsRouted :
        {A : Type 0} (from to : RelPath) (near far : On t out A)
        → Keeps IsRouted near
        → (IsOutside from → IsOutside to → Keeps IsRouted far)
        → Keeps IsRouted (both_routed t out from to near far)
    unfolding ◌>>=◌
    both_routed-IsRouted from to near far h h' s r = elim (Bool-cases (is_overlay t out s from)) [
      | inl from_inside ↦ elim (Bool-cases (is_overlay t out s to)) [
        | inl to_inside ↦ rw (from_inside, to_inside) (h s r)
        | inr to_outside ↦ rw (from_inside, to_outside) r
      ]
      | inr from_outside ↦ elim (Bool-cases (is_overlay t out s to)) [
        | inl to_inside ↦ rw (from_outside, to_inside) r
        | inr to_outside ↦
            rw (from_outside, to_outside)
              (h' (IsOutside-of s from r from_outside) (IsOutside-of s to r to_outside) s r)
      ]
    ]
