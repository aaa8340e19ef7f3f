-- ===== src/Common/Files/Sample.antt =====
-- A small file system for examples: every path is the same file, and a read hands over two bytes at
-- most.
use alloyfs.Base.{
  ℕ, ◌+◌, min, true, false, none, some, List, [], ◌∷◌, ◌++◌, length, take, drop, if◌then◌else◌,
}
use alloyfs.Base.Text.{chars}
use alloyfs.Proto.Messages.{Bytes, after_epoch}
use alloyfs.Common.Files.{FileSystem, Io, done, failed, ErrorKind, Metadata, DirItem}

abbrev metadata_of : Bytes → Metadata
metadata_of disk = record {
  is_dir = false;
  is_symlink = false;
  len = length disk;
  modified = some (after_epoch 5);
  created = none;
  mode = 420;
}

abbrev items : Bytes → List (Io DirItem)
items disk =
    done (record {
      name = some (chars "b.txt");
      metadata = done (metadata_of disk);
      link_metadata = failed ErrorKind.other;
    })
    ∷ done (record {
      name = some (chars "a.txt");
      metadata = failed ErrorKind.not_found;
      link_metadata = done (metadata_of disk);
    })
    ∷ []

abbrev put : Bytes → Bytes → ℕ → Bytes
put disk buf offset = take offset disk ++ buf ++ drop (offset + length buf) disk

abbrev pub sample_fs : FileSystem
sample_fs = record {
  State = Bytes;
  File = Unit;
  canonicalize = λ disk path. done path;
  metadata = λ disk path. done (metadata_of disk);
  symlink_metadata = λ disk path. done (metadata_of disk);
  read_dir = λ disk path. done (items disk);
  read_link = λ disk path. done none;
  exists = λ disk path. true;
  fs_space = λ disk path. none;
  open_file = λ disk path write truncate. (done tt, if truncate then [] else disk);
  create_new = λ disk path. (failed ErrorKind.already_exists, disk);
  create = λ disk path truncate. (done tt, if truncate then [] else disk);
  file_metadata = λ disk file. done (metadata_of disk);
  read_at = λ disk file len offset. done (take (min 2 len) (drop offset disk));
  write_at = λ disk file buf offset. (done (length buf), put disk buf offset);
  set_len = λ disk file n. (done tt, take n disk);
  set_modified = λ disk file t. (done tt, disk);
  set_mode = λ disk file mode. disk;
  create_dir = λ disk path. (failed ErrorKind.already_exists, disk);
  create_dir_all = λ disk path. (done tt, disk);
  remove_file = λ disk path. (done tt, []);
  remove_dir = λ disk path. (failed ErrorKind.not_a_directory, disk);
  rename = λ disk from to. (done tt, disk);
  hard_link = λ disk from to. (done tt, disk);
  symlink = λ disk target path. (failed ErrorKind.already_exists, disk);
}
