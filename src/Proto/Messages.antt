-- ===== src/Proto/Messages.antt =====
-- crates/alloyfs-proto/src/messages.rs: what travels in a frame. Bytes and the characters of a text
-- are numbers; a `u64`, `u32` or `u16` field is a number too. A time is its distance in nanoseconds
-- from the epoch.
use alloyfs.Base.{ℕ, Bool, true, false, ◌≡◌, ◌↔◌, arith, Option, List, ◌*◌}
use alloyfs.Base.Text.{Text}
use alloyfs.Proto.Errors.{Result}
use alloyfs.Proto.Path.{RelPath}

abbrev pub Bytes : Type 0
Bytes = List ℕ

abbrev pub proto_version_min : ℕ
proto_version_min = 1

abbrev pub proto_version_max : ℕ
proto_version_max = 4

abbrev pub data_chunk : ℕ
data_chunk = 128 * 1024

pub data SystemTime : Type 0 where
  after_epoch before_epoch : ℕ → SystemTime

pub data FileKind : Type 0 where
  file dir symlink : FileKind

pub record Attr : Type 0 where
  pub kind : FileKind
  pub size : ℕ
  pub mtime : SystemTime
  pub ctime : SystemTime
  pub mode : ℕ
  pub version : ℕ

pub record DirEntry : Type 0 where
  pub name : Text
  pub attr : Attr

pub record OpenFlags : Type 0 where
  pub read : Bool
  pub write : Bool
  pub truncate : Bool
  pub append : Bool
  pub excl : Bool

pub data LockKind : Type 0 where
  shared exclusive : LockKind

abbrev pub lock_kind_beq : LockKind → LockKind → Bool
lock_kind_beq shared shared = true
lock_kind_beq shared exclusive = false
lock_kind_beq exclusive shared = false
lock_kind_beq exclusive exclusive = true

pub data EventKind : Type 0 where
  created modified attr_changed removed : EventKind
  renamed_from : (to : RelPath) → EventKind
  resync_required : EventKind

pub record FsEvent : Type 0 where
  pub seq : ℕ
  pub kind : EventKind
  pub path : RelPath
  pub new_version : Option ℕ
  pub origin : Option ℕ

pub data Request : Type 0 where
  attach : (export : Text) → Request
  getattr : (path : RelPath) → Request
  readdir : (path : RelPath) (cursor : ℕ) → Request
  open_file : (path : RelPath) (flags : OpenFlags) → Request
  create : (path : RelPath) (flags : OpenFlags) (mode : ℕ) → Request
  read : (fh offset len : ℕ) → Request
  write : (fh offset : ℕ) (bytes : Bytes) (expect_version : Option ℕ) → Request
  flush : (fh : ℕ) → Request
  release : (fh : ℕ) → Request
  setattr :
      (path : RelPath) (size : Option ℕ) (mtime : Option SystemTime) (mode : Option ℕ) → Request
  mkdir : (path : RelPath) (mode : ℕ) → Request
  unlink : (path : RelPath) → Request
  rmdir : (path : RelPath) → Request
  rename : (from to : RelPath) (replace : Bool) → Request
  lock : (fh : ℕ) (kind : LockKind) (wait : Bool) → Request
  unlock : (fh : ℕ) → Request
  subscribe : (since_seq : Option ℕ) → Request
  statfs : Request
  link : (target link : RelPath) → Request
  mount_defaults : Request
  auth : (token : Text) → Request
  symlink : (target : Text) (link : RelPath) → Request
  read_link : (path : RelPath) → Request

pub data Response : Type 0 where
  attach_ok : (export_id : ℕ) (root_attr : Attr) → Response
  attr : Attr → Response
  dir : (entries : List DirEntry) (next_cursor : Option ℕ) → Response
  opened : (fh : ℕ) (attr : Attr) → Response
  bytes : Bytes → Response
  written : (n new_version : ℕ) (conflict : Bool) → Response
  statfs : (block_size blocks blocks_free : ℕ) → Response
  subscribed : (last_seq : ℕ) → Response
  ok : Response
  mount_defaults :
      (exclude pin : List Text) (auto_cache_max auto_cache_budget : Option ℕ) → Response
  target : Text → Response

pub data Frame : Type 0 where
  hello : (proto_min proto_max : ℕ) (client : Text) → Frame
  hello_ack : (proto : ℕ) (server : Text) → Frame
  request : (id : ℕ) (body : Request) → Frame
  response : (id : ℕ) (body : Result Response) → Frame
  events : (batch : List FsEvent) → Frame
  ping : (nonce : ℕ) → Frame
  pong : (nonce : ℕ) → Frame
  compressed : Bytes → Frame

pub lock_kind_beq_iff : (a b : LockKind) → (lock_kind_beq a b ≡ true) ↔ (a ≡ b)
lock_kind_beq_iff shared shared = ground arith
lock_kind_beq_iff shared exclusive = ground arith
lock_kind_beq_iff exclusive shared = ground arith
lock_kind_beq_iff exclusive exclusive = ground arith
