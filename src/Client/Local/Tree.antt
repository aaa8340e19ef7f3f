-- ===== src/Client/Local/Tree.antt =====
-- The overlay of crates/alloyfs-client/src/overlay.rs meets the interface.
use alloyfs.Common.Exclude.{Globset, ExcludeSet}
use alloyfs.Common.Coalesce.Events.{PathBuf}
use alloyfs.Common.Files.{FileSystem}
use alloyfs.Client.Overlay
use alloyfs.Client.Overlay.{Overlay}
use alloyfs.Client.Overlay.Handles.{open_file-HasBit, create-HasBit}
use alloyfs.Client.Local.{LocalTree}

module _ (fs : FileSystem) (lib : Globset) (matcher : ExcludeSet) (root : PathBuf) where
  abbrev pub overlay_tree : LocalTree
  overlay_tree = record {
    State = Overlay fs;
    excluded = Overlay.excluded fs lib matcher;
    getattr = Overlay.getattr fs root;
    readdir_children = Overlay.readdir_children fs root;
    open_file = Overlay.open_file fs root;
    create = Overlay.create fs root;
    read = Overlay.read fs root;
    write = Overlay.write fs root;
    mkdir = Overlay.mkdir fs root;
    unlink = Overlay.unlink fs root;
    rmdir = Overlay.rmdir fs root;
    rename = Overlay.rename fs root;
    setattr = Overlay.setattr fs root;
    link = Overlay.link fs root;
    symlink = Overlay.symlink fs root;
    readlink = Overlay.readlink fs root;
    flush = Overlay.flush fs root;
    release = Overlay.release fs root;
    open_file_apart = open_file-HasBit fs root;
    create_apart = create-HasBit fs root;
  }
