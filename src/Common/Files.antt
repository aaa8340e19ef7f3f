-- ===== src/Common/Files.antt =====
-- crates/alloyfs-common/src/fs.rs and the error table of lib.rs: the bridges to a file system. The
-- file system of the machine is a parameter, with the outcome of each call; a call that was
-- interrupted is repeated, and its outcome is that of the call that was not.
pub mod Loops
pub mod Sample
mod Tests
use alloyfs.Base.{
  ℕ, zero, suc, ◌+◌, ◌-◌, ◌%◌, Bool, true, false, Option, none, some, List, [], ◌∷◌, ◌++◌, length,
  drop, if◌then◌else◌,
}
use alloyfs.Base.Text.{Text}
use alloyfs.Proto.Errors.{ErrorCode, Result, ok, err}
use alloyfs.Proto.Messages.{Bytes, Attr, FileKind, SystemTime, after_epoch}
use alloyfs.Common.Coalesce.Events.{PathBuf}

-- `std::io::ErrorKind`, in the cases that the program tells apart.
pub data ErrorKind : Type 0 where
  not_found permission_denied already_exists not_a_directory is_a_directory : ErrorKind
  directory_not_empty write_zero other : ErrorKind

pub data Io {ℓ} (A : Type ℓ) : Type ℓ where
  done : A → Io A
  failed : ErrorKind → Io A

pub io_to_code : ErrorKind → ErrorCode
io_to_code not_found = ErrorCode.not_found
io_to_code permission_denied = ErrorCode.permission_denied
io_to_code already_exists = ErrorCode.already_exists
io_to_code not_a_directory = ErrorCode.not_a_directory
io_to_code is_a_directory = ErrorCode.is_a_directory
io_to_code directory_not_empty = ErrorCode.not_empty
io_to_code _ = ErrorCode.io

abbrev pub or_code {ℓ} : {A : Type ℓ} → Io A → Result A
or_code (done a) = ok a
or_code (failed e) = err (io_to_code e)

-- `mode` is what `mode_of` makes of the permissions.
pub record Metadata : Type 0 where
  pub is_dir : Bool
  pub is_symlink : Bool
  pub len : ℕ
  pub modified : Option SystemTime
  pub created : Option SystemTime
  pub mode : ℕ

abbrev unwrap_or : Option SystemTime → SystemTime → SystemTime
unwrap_or none t = t
unwrap_or (some s) t = s

pub attr_from_metadata : Metadata → ℕ → Attr
attr_from_metadata md version =
    let mtime = unwrap_or md.modified (after_epoch 0) in
    record {
      kind =
          if md.is_dir
          then FileKind.dir
          else if md.is_symlink
          then FileKind.symlink
          else FileKind.file;
      size = md.len;
      mtime = mtime;
      ctime = unwrap_or md.created mtime;
      mode = md.mode;
      version = version;
    }

-- An item of a directory: its name where it is text, what it is, and what it is as a link.
pub record DirItem : Type 0 where
  pub name : Option Text
  pub metadata : Io Metadata
  pub link_metadata : Io Metadata

pub record FileSystem : Type 1 where
  pub State : Type 0
  pub File : Type 0
  pub canonicalize : State → PathBuf → Io PathBuf
  pub metadata : State → PathBuf → Io Metadata
  pub symlink_metadata : State → PathBuf → Io Metadata
  pub read_dir : State → PathBuf → Io (List (Io DirItem))
  pub read_link : State → PathBuf → Io (Option Text)
  pub exists : State → PathBuf → Bool
  pub fs_space : State → PathBuf → Option (ℕ × ℕ × ℕ)
  pub open_file : State → PathBuf → (write truncate : Bool) → Io File × State
  pub create_new : State → PathBuf → Io File × State
  pub create : State → PathBuf → (truncate : Bool) → Io File × State
  pub file_metadata : State → File → Io Metadata
  pub read_at : State → File → (len offset : ℕ) → Io Bytes
  pub write_at : State → File → Bytes → (offset : ℕ) → Io ℕ × State
  pub set_len : State → File → ℕ → Io (Unit {0}) × State
  pub set_modified : State → File → SystemTime → Io (Unit {0}) × State
  pub set_mode : State → File → ℕ → State
  pub create_dir : State → PathBuf → Io (Unit {0}) × State
  pub create_dir_all : State → PathBuf → Io (Unit {0}) × State
  pub remove_file : State → PathBuf → Io (Unit {0}) × State
  pub remove_dir : State → PathBuf → Io (Unit {0}) × State
  pub rename : State → PathBuf → PathBuf → Io (Unit {0}) × State
  pub hard_link : State → PathBuf → PathBuf → Io (Unit {0}) × State
  pub symlink : State → Text → PathBuf → Io (Unit {0}) × State

module _ (fs : FileSystem) where
  -- The loop of `read_fully`; `need` bytes are wanted still, and the fuel is what was wanted first.
  unfoldable pub read_loop : ℕ → fs.State → fs.File → (need offset : ℕ) → Bytes → Io Bytes
  read_loop zero disk file need offset buf = done buf
  read_loop (suc fuel) disk file zero offset buf = done buf
  read_loop (suc fuel) disk file (suc need) offset buf =
      elim (fs.read_at disk file (suc need) offset) [
        | failed e ↦ failed e
        | done [] ↦ done buf
        | done (b ∷ bs) ↦
            read_loop fuel disk file (suc need - length (b ∷ bs)) (offset + length (b ∷ bs))
              (buf ++ (b ∷ bs))
      ]

  unfoldable pub read_fully : fs.State → fs.File → (len offset : ℕ) → Io Bytes
  read_fully disk file len offset = read_loop len disk file len offset []

  -- The loop of `write_fully`, with the length of the buffer as fuel.
  unfoldable pub write_loop : ℕ → fs.State → fs.File → Bytes → ℕ → Io (Unit {0}) × fs.State
  write_loop zero disk file buf offset = (done tt, disk)
  write_loop (suc fuel) disk file [] offset = (done tt, disk)
  write_loop (suc fuel) disk file (b ∷ bs) offset =
      let (r, disk') = fs.write_at disk file (b ∷ bs) offset in
      elim r [
        | failed e ↦ (failed e, disk')
        | done zero ↦ (failed write_zero, disk')
        | done (suc n) ↦ write_loop fuel disk' file (drop n bs) (offset + suc n)
      ]

  unfoldable pub write_fully : fs.State → fs.File → Bytes → (offset : ℕ) → Io (Unit {0}) × fs.State
  write_fully disk file buf offset = write_loop (length buf) disk file buf offset
