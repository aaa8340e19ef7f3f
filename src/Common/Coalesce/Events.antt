-- ===== src/Common/Coalesce/Events.antt =====
-- What crates/alloyfs-common/src/coalesce.rs is given: the events of the `notify` crate, in the cases
-- that the program tells apart, with paths of the operating system as lists of components.
use alloyfs.Base.{Bool, List}
use alloyfs.Base.Text.{Text}

pub record PathBuf : Type 0 where
  pub components : List Text
  pub is_unicode : Bool

pub data RenameMode : Type 0 where
  both from to any other : RenameMode

pub data NotifyKind : Type 0 where
  create : NotifyKind
  modify_name : RenameMode → NotifyKind
  modify_metadata modify_other : NotifyKind
  remove any access other : NotifyKind

pub record Event : Type 0 where
  pub kind : NotifyKind
  pub paths : List PathBuf
