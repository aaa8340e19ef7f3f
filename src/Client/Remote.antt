-- ===== src/Client/Remote.antt =====
-- `RemoteFs` of crates/alloyfs-client/src/remote_fs.rs: the mounted tree of a server, beside a local
-- overlay. What stands outside the program is a parameter: what each request is answered with, on
-- which connection, after all that was sent before; where the supervisor puts a new connection in
-- place while a request waits; the copies on the disk. An operation of the mount is one step but for
-- that. `now` is the time of the step in milliseconds.
pub mod Reconnect
pub mod Calls
pub mod Names
pub mod Links
pub mod Files
pub mod Reads
pub mod Routed
pub mod Sample
mod Tests
use alloyfs.Base.{ℕ, Bool, true, false, Option, none, some, List, ◌≡◌}
use alloyfs.Base.Text.{Text}
use alloyfs.Base.Table.{Table}
use alloyfs.Proto.Errors.{Result}
use alloyfs.Proto.Path.{RelPath}
use alloyfs.Proto.Messages.{Attr, Bytes, OpenFlags, LockKind, Request, Response}
use alloyfs.Client.Cache.{CacheState}
use alloyfs.Client.Inodes.{InodeTable}
use alloyfs.Client.ReadAhead.{ReadAhead}

abbrev pub attr_ttl : ℕ
attr_ttl = 5000

pub record OpenState : Type 0 where
  pub path : RelPath
  pub flags : OpenFlags
  pub server_fh : ℕ
  pub cache_ok : Bool
  pub wrote : Bool
  pub ra : ReadAhead
  pub lock : Option LockKind
  pub poisoned : Bool
  pub version : ℕ

-- What comes of a request: the server's answer, or that the connection was closed, or another error of
-- the transport.
pub data Reply : Type 0 where
  answered : Result Response → Reply
  closed broken : Reply

-- A request, and the connection that it went over.
abbrev pub Sent : Type 0
Sent = ℕ × Request

-- `sent` is what the mount has sent, the last one first; `replayed` is what the supervisor has sent.
pub record RemoteFs (L : Type 0) : Type 0 where
  pub conn : ℕ
  pub ino : InodeTable
  pub attr_cache : Table ℕ (Attr × ℕ)
  pub overlay : Option L
  pub cache : Option CacheState
  pub refetches : List RelPath
  pub open_files : Table ℕ OpenState
  pub export : Text
  pub conn_epoch : ℕ
  pub detect_conflicts : Bool
  pub mount_root : Option Text
  pub now : ℕ
  pub sent : List Sent
  pub replayed : List Sent

pub record Outside : Type 0 where
  pub reply : (sent replayed : List Sent) → (conn : ℕ) → Request → Reply
  pub redialled : (sent replayed : List Sent) → Option ℕ
  pub is_closed : (sent : List Sent) → (conn : ℕ) → Bool
  pub proto : (conn : ℕ) → ℕ
  pub read_copy : RelPath → (offset len : ℕ) → Option Bytes
  pub renames : RelPath → RelPath → Bool
  pub to_uppercase : Text → Text
