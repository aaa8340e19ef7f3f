-- ===== src/Client/Remote/Sample.antt =====
-- A small mount for examples: a server with one file, whose version is the number of requests that it
-- was sent, and an overlay for one path.
use alloyfs.Base.{ℕ, ◌+◌, ◌/◌, true, false, Option, none, some, List, [], ◌∷◌, length}
use alloyfs.Base.Text.{chars, text_beq}
use alloyfs.Proto.Errors.{ok, err, not_found}
use alloyfs.Proto.Path.{RelPath}
use alloyfs.Proto.Messages.{
  Attr, Bytes, FileKind, Request, Response, LockKind, after_epoch, data_chunk,
}
use alloyfs.Common.Action.{Action}
use alloyfs.Client.Local.{LocalTree}
use alloyfs.Client.ReadAhead.Blocks.{block}
use alloyfs.Client.Remote.{OpenState, RemoteFs, Reply, answered, closed, Sent, Outside}

abbrev sample_attr : Attr
sample_attr = record {
  kind = FileKind.file;
  size = 4;
  mtime = after_epoch 0;
  ctime = after_epoch 0;
  mode = 420;
  version = 1;
}

abbrev absent : {A : Type 0} → Action (Unit {0}) A
absent s = (err not_found, s)

abbrev pub sample_tree : LocalTree
sample_tree = record {
  State = Unit;
  excluded = λ path. text_beq path (chars "tmp");
  getattr = λ path. absent;
  readdir_children = λ path. absent;
  open_file = λ path flags. absent;
  create = λ path flags mode. absent;
  read = λ fh offset len. absent;
  write = λ fh offset bytes. absent;
  mkdir = λ path. absent;
  unlink = λ path. absent;
  rmdir = λ path. absent;
  rename = λ from to replace. absent;
  setattr = λ path size mtime mode. absent;
  link = λ target link. absent;
  symlink = λ target link. absent;
  readlink = λ path. absent;
  flush = λ fh. absent;
  release = λ fh. absent;
  open_file_apart = λ path flags s. tt;
  create_apart = λ path flags mode s. tt;
}

abbrev pub sample_file : Bytes
sample_file = 10 ∷ 20 ∷ 30 ∷ 40 ∷ []

abbrev pub sample_version : List Sent → ℕ
sample_version sent = length sent

-- Files whose name is one letter are there, others are gone.
abbrev sample_open : RelPath → Reply
sample_open (c ∷ []) = answered (ok (Response.opened 1 sample_attr))
sample_open _ = answered (err not_found)

abbrev sample_reply : List Sent → List Sent → ℕ → Request → Reply
sample_reply sent replayed conn (Request.attach export) =
    answered (ok (Response.attach_ok 0 sample_attr))
sample_reply sent replayed conn (Request.open_file path flags) = sample_open path
sample_reply sent replayed conn (Request.read fh offset len) =
    answered (ok (Response.bytes (block data_chunk sample_file (offset / data_chunk))))
sample_reply sent replayed conn (Request.write fh offset bytes expected) =
    answered (ok (Response.written (length bytes) (length sent + 1) false))
sample_reply sent replayed conn _ = closed

abbrev pub sample_out : Outside
sample_out = record {
  reply = sample_reply;
  redialled = λ sent replayed. none;
  is_closed = λ sent conn. false;
  proto = λ conn. 4;
  read_copy = λ path offset len. none;
  renames = λ from to. true;
  to_uppercase = λ text. text;
}

abbrev pub sample_handle : RelPath → ℕ → Option LockKind → OpenState
sample_handle path fh held = record {
  path = path;
  flags = record { read = true; write = true; truncate = false; append = false; excl = false };
  server_fh = fh;
  cache_ok = false;
  wrote = false;
  ra = record { window = []; recent = []; expected_next = 0; streak = 0 };
  lock = held;
  poisoned = false;
  version = 0;
}

-- Two files are open: "gone" under the number 1, and "b" under the number 2.
abbrev pub sample_mount : RemoteFs (Unit {0})
sample_mount = record {
  conn = 1;
  ino = record {
    by_ino = (1, []) ∷ (2, chars "b") ∷ (3, chars "tmp") ∷ [];
    by_path = ([], 1) ∷ (chars "b", 2) ∷ (chars "tmp", 3) ∷ [];
    next = 4;
  };
  attr_cache = [];
  overlay = some tt;
  cache = none;
  refetches = [];
  open_files =
      (1, sample_handle (chars "gone") 1 none)
      ∷ (2, sample_handle (chars "b") 2 none)
      ∷ (3, sample_handle (chars "gone") 3 (some LockKind.exclusive))
      ∷ [];
  export = chars "x";
  conn_epoch = 0;
  detect_conflicts = true;
  mount_root = none;
  now = 0;
  sent = [];
  replayed = [];
}
