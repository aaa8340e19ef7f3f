-- ===== src/Client/Local.antt =====
-- What the mount asks of its overlay: the interface between remote_fs.rs and overlay.rs of
-- crates/alloyfs-client/src. `excluded` routes a path to the overlay.
pub mod Tree
use alloyfs.Base.{ℕ, ◌≡◌, Bool, true, Option, List}
use alloyfs.Base.Text.{Text}
use alloyfs.Proto.Path.{RelPath}
use alloyfs.Proto.Messages.{Attr, Bytes, OpenFlags, SystemTime}
use alloyfs.Common.Action.{Action, Keeps}
use alloyfs.Client.Overlay.Handles.{Gives, HasBit, OpenedApart}

pub record LocalTree : Type 1 where
  pub State : Type 0
  pub excluded : RelPath → Bool
  pub getattr : RelPath → Action State Attr
  pub readdir_children : RelPath → Action State (List (Text × Attr))
  pub open_file : RelPath → OpenFlags → Action State (ℕ × Attr)
  pub create : RelPath → OpenFlags → (mode : ℕ) → Action State (ℕ × Attr)
  pub read : (fh offset len : ℕ) → Action State Bytes
  pub write : (fh offset : ℕ) → Bytes → Action State ℕ
  pub mkdir : RelPath → Action State Attr
  pub unlink : RelPath → Action State (Unit {0})
  pub rmdir : RelPath → Action State (Unit {0})
  pub rename : (from to : RelPath) → (replace : Bool) → Action State (Unit {0})
  pub setattr : RelPath → Option ℕ → Option SystemTime → Option ℕ → Action State Attr
  pub link : (target link : RelPath) → Action State Attr
  pub symlink : (target : Text) → (link : RelPath) → Action State Attr
  pub readlink : RelPath → Action State Text
  pub flush : ℕ → Action State (Unit {0})
  pub release : ℕ → Action State (Unit {0})
  -- The numbers of its handles are told from the server's.
  pub open_file_apart :
      (path : RelPath) (flags : OpenFlags) → Gives OpenedApart (open_file path flags)
  pub create_apart :
      (path : RelPath) (flags : OpenFlags) (mode : ℕ) → Gives OpenedApart (create path flags mode)
