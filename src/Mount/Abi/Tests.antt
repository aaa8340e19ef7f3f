-- ===== src/Mount/Abi/Tests.antt =====
-- The kernel interface at concrete requests, entries and notifications.
use alloyfs.Base.{
  ◌≡◌, ◌≤◌, ◌≢◌, true, false, ◌||◌, none, some, [], ◌∷◌, ◌++◌, length, arith, ◌==◌, ltb,
  if◌then◌else◌, ◌%◌, ◌+◌, ◌↔◌,
}
use alloyfs.Proto.Messages.{Bytes}
use alloyfs.Mount.Abi.Words.{little_endian}
use alloyfs.Mount.Abi.Requests.{rename_in, parse-two_names}
use alloyfs.Mount.Abi.Replies.{
  Dirent, dirent_bytes, push_dirent_lem, read_notification, read_notification-encode,
}
use alloyfs.Mount.Abi.{
  InHeader, SetattrIn, Notification, parse_rename_in, push_dirent, encode, max_name, dirent_size,
}

abbrev read_request : InHeader
read_request = record { len = 40; opcode = 4; unique = 7; nodeid = 42; offset = 4096; size = 128 }

abbrev name_a : Bytes
name_a = 97 ∷ []

abbrev name_bc : Bytes
name_bc = 98 ∷ 99 ∷ []

abbrev entry_a : Dirent
entry_a = record { nodeid = 2; off = 1; ty = 8; name = name_a }

abbrev deleted_a : Notification
deleted_a = record {
  code = 2;
  parent = 1;
  parent2 = 0;
  size = 0;
  isdir = false;
  name = name_a;
  name2 = [];
}

abbrev new_mode : SetattrIn
new_mode = record { valid = 1; mode = 420; size = 0; mtime_ns = 0 }

abbrev rename_payload : Bytes
rename_payload = rename_in little_endian 9 0 name_a name_bc name_a

rename_payload_parsed : parse_rename_in little_endian rename_payload ≡ some (9, name_a, name_bc)
rename_payload_parsed =
    (parse-two_names little_endian 9 0 name_a name_bc name_a (omega arith) (omega arith)
      (omega arith)).0

push_dirent_lem_example :
    let after = push_dirent little_endian [] 4096 2 1 8 name_a in
    (after.1 ≡ (
      if length name_a == 0
        || (ltb max_name (length name_a) || ltb 4096 (0 + dirent_size (length name_a)))
      then false
      else true))
    × (after.0 ≡ (if after.1 then [] ++ dirent_bytes little_endian entry_a [] else []))
    × (length (dirent_bytes little_endian entry_a []) ≡ dirent_size (length name_a))
    × (dirent_size (length name_a) % 8 ≡ 0)
push_dirent_lem_example = push_dirent_lem little_endian [] 4096 entry_a

read_notification-encode_example :
    ((encode little_endian deleted_a ≢ none)
      ↔ ((name_a ≢ []) × (length name_a ≤ max_name) × (0 ≤ max_name)))
    × ((b : Bytes)
        → encode little_endian deleted_a ≡ some b
        → read_notification little_endian b ≡ ((length b, 0), deleted_a))
read_notification-encode_example =
    read_notification-encode little_endian deleted_a (record {
      code = omega arith;
      parent = omega arith;
      parent2 = omega arith;
      size = omega arith;
    })
