-- ===== src/Mount/Abi.antt =====
-- crates/alloyfs-mount-kernel/src/abi.rs: what the daemon and the kernel module read and write. The
-- byte order is that of the machine. An `i32` is the number of its 32 bits.
pub mod Words
pub mod Requests
pub mod Replies
mod Tests
use alloyfs.Base.{
  ℕ, ◌+◌, ◌-◌, ◌*◌, ◌/◌, ◌%◌, Bool, true, false, not, ◌&&◌, ◌||◌, Option, none, some, List, [], ◌∷◌,
  ◌++◌, length, take, drop, ltb, leb, if◌then◌else◌, ◌==◌,
}
use alloyfs.Proto.Messages.{Bytes, LockKind, shared, exclusive}
use alloyfs.Mount.Abi.Words.{ByteOrder, to_ne_bytes, from_ne_bytes, zeros}

abbrev pub max_payload : ℕ
max_payload = 128 * 1024

abbrev pub max_name : ℕ
max_name = 255

abbrev pub in_header_len : ℕ
in_header_len = 40

abbrev pub out_header_len : ℕ
out_header_len = 16

abbrev pub create_in_len : ℕ
create_in_len = 8

abbrev pub rename_in_len : ℕ
rename_in_len = 16

abbrev pub setattr_in_len : ℕ
setattr_in_len = 24

abbrev pub dirent_len : ℕ
dirent_len = 24

abbrev pub symlink_in_len : ℕ
symlink_in_len = 8

abbrev pub link_in_len : ℕ
link_in_len = 8

abbrev pub lock_in_len : ℕ
lock_in_len = 8

abbrev pub read_buf_len : ℕ
read_buf_len = in_header_len + max_payload

abbrev pub lock_shared : ℕ
lock_shared = 1

abbrev pub lock_exclusive : ℕ
lock_exclusive = 2

abbrev pub notify_f_isdir : ℕ
notify_f_isdir = 1

abbrev pub s_ifdir : ℕ
s_ifdir = 16384

pub record InHeader : Type 0 where
  pub len : ℕ
  pub opcode : ℕ
  pub unique : ℕ
  pub nodeid : ℕ
  pub offset : ℕ
  pub size : ℕ

pub record SetattrIn : Type 0 where
  pub valid : ℕ
  pub mode : ℕ
  pub size : ℕ
  pub mtime_ns : ℕ

pub record LockIn : Type 0 where
  pub kind : LockKind
  pub wait : Bool

pub record KernelAttr : Type 0 where
  pub nodeid : ℕ
  pub size : ℕ
  pub mtime_ns : ℕ
  pub mode : ℕ
  pub nlink : ℕ

pub record Notification : Type 0 where
  pub code : ℕ
  pub parent : ℕ
  pub parent2 : ℕ
  pub size : ℕ
  pub isdir : Bool
  pub name : Bytes
  pub name2 : Bytes

-- `mode & S_IFMT == S_IFDIR`: the mask takes the bits 12 to 15.
pub is_dir : KernelAttr → Bool
is_dir a = a.mode / 4096 % 16 * 4096 == s_ifdir

abbrev pub dirent_align : ℕ → ℕ
dirent_align size = (size + 7) / 8 * 8

abbrev pub dirent_size : ℕ → ℕ
dirent_size namelen = dirent_align (dirent_len + namelen)

module _ (o : ByteOrder) where
  abbrev pub u16_at : Bytes → ℕ → ℕ
  u16_at b off = from_ne_bytes o (take 2 (drop off b))

  abbrev pub u32_at : Bytes → ℕ → ℕ
  u32_at b off = from_ne_bytes o (take 4 (drop off b))

  abbrev pub u64_at : Bytes → ℕ → ℕ
  u64_at b off = from_ne_bytes o (take 8 (drop off b))

  -- `InHeader::parse`
  pub parse : Bytes → Option InHeader
  parse buf =
      let h : InHeader = record {
        len = u32_at buf 0;
        opcode = u32_at buf 4;
        unique = u64_at buf 8;
        nodeid = u64_at buf 16;
        offset = u64_at buf 24;
        size = u32_at buf 32;
      } in
      if ltb (length buf) in_header_len
      then none
      else if ltb h.len in_header_len || (ltb (length buf) h.len || ltb read_buf_len h.len)
      then none
      else some h

  pub parse_create_in : Bytes → Option (ℕ × Bytes)
  parse_create_in payload =
      if ltb (length payload) create_in_len
      then none
      else some (u32_at payload 0, drop create_in_len payload)

  -- Two byte strings behind each other, with the lengths that were read for them.
  abbrev pub two_names : ℕ → ℕ → Bytes → Option (Bytes × Bytes)
  two_names m n names =
      if ltb (length names) (m + n) then none else some (take m names, take n (drop m names))

  pub parse_rename_in : Bytes → Option (ℕ × Bytes × Bytes)
  parse_rename_in payload =
      let names = two_names (u16_at payload 8) (u16_at payload 10) (drop rename_in_len payload) in
      if ltb (length payload) rename_in_len
      then none
      else elim names [ none ↦ none | some (a, b) ↦ some (u64_at payload 0, a, b) ]

  pub parse_setattr_in : Bytes → Option SetattrIn
  parse_setattr_in payload =
      if ltb (length payload) setattr_in_len
      then none
      else some (record {
        valid = u32_at payload 0;
        mode = u32_at payload 4;
        size = u64_at payload 8;
        mtime_ns = u64_at payload 16;
      })

  pub parse_lock_in : Bytes → Option LockIn
  parse_lock_in payload =
      let wait = not (u32_at payload 4 == 0) in
      if ltb (length payload) lock_in_len
      then none
      else if u32_at payload 0 == lock_shared
      then some (record { kind = shared; wait = wait })
      else if u32_at payload 0 == lock_exclusive
      then some (record { kind = exclusive; wait = wait })
      else none

  pub parse_symlink_in : Bytes → Option (Bytes × Bytes)
  parse_symlink_in payload =
      if ltb (length payload) symlink_in_len
      then none
      else two_names (u16_at payload 0) (u16_at payload 2) (drop symlink_in_len payload)

  pub parse_link_in : Bytes → Option (ℕ × Bytes)
  parse_link_in payload =
      if ltb (length payload) link_in_len
      then none
      else some (u64_at payload 0, drop link_in_len payload)

  pub statfs_out : (blocks blocks_free block_size : ℕ) → Bytes
  statfs_out blocks blocks_free block_size =
      to_ne_bytes o 8 blocks
      ++ (to_ne_bytes o 8 blocks_free ++ (to_ne_bytes o 4 block_size ++ to_ne_bytes o 4 0))

  -- `KernelAttr::to_bytes`; `encode` appends it.
  pub to_bytes : KernelAttr → Bytes
  to_bytes a =
      to_ne_bytes o 8 a.nodeid
      ++ (to_ne_bytes o 8 a.size
          ++ (to_ne_bytes o 8 a.mtime_ns ++ (to_ne_bytes o 4 a.mode ++ to_ne_bytes o 4 a.nlink)))

  pub write_out : ℕ → Bytes
  write_out written = to_ne_bytes o 4 written ++ to_ne_bytes o 4 0

  pub response : (unique error : ℕ) → Bytes → Bytes
  response unique error payload =
      to_ne_bytes o 4 (out_header_len + length payload)
      ++ (to_ne_bytes o 4 error ++ (to_ne_bytes o 8 unique ++ payload))

  -- The buffer, and whether the entry was appended.
  pub push_dirent : Bytes → (limit nodeid off ty : ℕ) → (name : Bytes) → Bytes × Bool
  push_dirent out limit nodeid off ty name =
      let entry = dirent_size (length name) in
      if length name == 0 || (ltb max_name (length name) || ltb limit (length out + entry))
      then (out, false)
      else (
        out
            ++ (to_ne_bytes o 8 nodeid
                ++ (to_ne_bytes o 8 off
                    ++ (to_ne_bytes o 4 (length name)
                        ++ (to_ne_bytes o 4 ty
                            ++ (name ++ zeros (entry - dirent_len - length name)))))),
        true,
      )

  -- `Notification::encode`
  pub encode : Notification → Option Bytes
  encode n =
      let payload =
        to_ne_bytes o 8 n.parent
        ++ (to_ne_bytes o 8 n.parent2
            ++ (to_ne_bytes o 8 n.size
                ++ (to_ne_bytes o 4 (if n.isdir then notify_f_isdir else 0)
                    ++ (to_ne_bytes o 2 (length n.name)
                        ++ (to_ne_bytes o 2 (length n.name2) ++ (n.name ++ n.name2)))))) in
      if length n.name == 0 || (ltb max_name (length n.name) || ltb max_name (length n.name2))
      then none
      else some (response 0 n.code payload)
