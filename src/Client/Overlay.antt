-- ===== src/Client/Overlay.antt =====
-- crates/alloyfs-client/src/overlay.rs: the paths that a client keeps to itself, as files of this
-- machine. The file system and the glob matcher are parameters; so are `matcher` and `root`, which
-- nothing changes once the overlay is made.
pub mod Handles
mod Tests
use alloyfs.Base.{
  ℕ, ◌+◌, ◌-◌, ◌*◌, ◌/◌, ◌%◌, ◌^◌, Bool, true, false, not, ◌&&◌, ◌||◌, Option, none, some, List, [],
  ◌∷◌, ◌++◌, map, retain, length, ◌==◌, if◌then◌else◌, nat_eq,
}
use alloyfs.Base.Text.{Text, is_empty}
use alloyfs.Base.Text.Split.{split_on}
use alloyfs.Base.Table.{Table, get, insert, remove}
use alloyfs.Proto.Errors.{
  ErrorCode, Result, ok, err, bad_handle, is_a_directory, already_exists, invalid_path,
}
use alloyfs.Proto.Path.{RelPath, slash}
use alloyfs.Proto.Messages.{Attr, Bytes, OpenFlags, SystemTime}
use alloyfs.Common.Action.{Action, ◌>>=◌, ◌>>◌, pure, gets, modify, raise_if, or_raise}
use alloyfs.Common.Exclude.{Globset, ExcludeSet, is_excluded}
use alloyfs.Common.Coalesce.{to_forward_slash}
use alloyfs.Common.Coalesce.Events.{PathBuf}
use alloyfs.Common.Files.{
  FileSystem, Io, done, failed, or_code, Metadata, DirItem, attr_from_metadata, read_fully,
  write_fully,
}

abbrev pub overlay_fh_bit : ℕ
overlay_fh_bit = 2 ^ 63

-- `fh & OVERLAY_FH_BIT != 0`
abbrev pub is_overlay_fh : ℕ → Bool
is_overlay_fh fh = fh / overlay_fh_bit % 2 == 1

-- `OVERLAY_FH_BIT | n`
abbrev pub with_bit : ℕ → ℕ
with_bit n = overlay_fh_bit + n % overlay_fh_bit

pub record Overlay (fs : FileSystem) : Type 0 where
  pub disk : fs.State
  pub handles : Table ℕ fs.File
  pub next_fh : ℕ

-- `Path::parent`, of the components.
abbrev all_but_last : List Text → List Text
all_but_last [] = []
all_but_last (c ∷ []) = []
all_but_last (c ∷ d ∷ cs) = c ∷ all_but_last (d ∷ cs)

abbrev pub parent : PathBuf → Option PathBuf
parent p = elim p.components [
  | [] ↦ none
  | c ∷ cs ↦ some (record p { components = all_but_last (c ∷ cs) })
]

module _ (fs : FileSystem) where
  abbrev pub On : Type 0 → Type 0
  On A = Action (Overlay fs) A

  -- A call that reads the disk, and one that may change it.
  abbrev ask : {A : Type 0} → (fs.State → Io A) → On A
  ask f o = (or_code (f o.disk), o)

  abbrev perform : {A : Type 0} → (fs.State → Io A × fs.State) → On A
  perform f o = let (r, disk) = f o.disk in (or_code r, record o { disk = disk })

  unfoldable pub handle : ℕ → On fs.File
  handle fh = do found ← gets (λ o. get fh o.handles); or_raise found bad_handle

  -- `next_fh.fetch_add(1)`, and the handle under the number with the bit.
  unfoldable pub insert_handle : fs.File → On ℕ
  insert_handle file o =
      let fh = with_bit o.next_fh in
      (ok fh, record o { handles = insert fh file o.handles; next_fh = (o.next_fh + 1) % 2 ^ 64 })

  unfoldable pub make_dirs : Option PathBuf → On (Unit {0})
  make_dirs none = pure tt
  make_dirs (some dir) = perform (λ disk. fs.create_dir_all disk dir)

  -- First write into a fresh subtree materializes it.
  unfoldable pub create_parents : PathBuf → On (Unit {0})
  create_parents full = make_dirs (parent full)

  unfoldable pub create_file : PathBuf → (excl truncate : Bool) → On fs.File
  create_file full true truncate = perform (λ disk. fs.create_new disk full)
  create_file full false truncate = perform (λ disk. fs.create disk full truncate)

  abbrev attr_of : Metadata → Attr
  attr_of md = attr_from_metadata md 0

  abbrev when_some : {A : Type 0} → Option A → (A → On (Unit {0})) → On (Unit {0})
  when_some none f = pure tt
  when_some (some a) f = f a

  -- What is listed of an item, if it is.
  unfoldable pub listed : DirItem → List (Text × Attr)
  listed item = elim item.name [
    | none ↦ []
    | some name ↦ elim item.metadata [
      | done md ↦ (name, attr_of md) ∷ []
      | failed e ↦ elim item.link_metadata [ done md ↦ (name, attr_of md) ∷ [] | failed e' ↦ [] ]
    ]
  ]

  unfoldable pub listing : List (Io DirItem) → List (Text × Attr)
  listing [] = []
  listing (failed e ∷ items) = listing items
  listing (done item ∷ items) = listed item ++ listing items

  module _ (root : PathBuf) where
    unfoldable pub abs : RelPath → PathBuf
    abs path = record root {
      components = root.components ++ retain (λ c. not (is_empty c)) (split_on slash path);
    }

    unfoldable pub getattr : RelPath → On Attr
    getattr path = do md ← ask (λ disk. fs.symlink_metadata disk (abs path)); pure (attr_of md)

    unfoldable pub open_file : RelPath → OpenFlags → On (ℕ × Attr)
    open_file path flags = do
      let wants_write = flags.write || (flags.truncate || flags.append)
      file ← perform (λ disk. fs.open_file disk (abs path) wants_write flags.truncate)
      md ← ask (λ disk. fs.file_metadata disk file)
      raise_if md.is_dir is_a_directory
      fh ← insert_handle file
      pure (fh, attr_of md)

    unfoldable pub create : RelPath → OpenFlags → (mode : ℕ) → On (ℕ × Attr)
    create path flags mode = do
      let full = abs path
      create_parents full
      file ← create_file full flags.excl flags.truncate
      md ← ask (λ disk. fs.file_metadata disk file)
      fh ← insert_handle file
      pure (fh, attr_of md)

    unfoldable pub read : (fh offset len : ℕ) → On Bytes
    read fh offset len = do file ← handle fh; ask (λ disk. read_fully fs disk file len offset)

    unfoldable pub write : (fh offset : ℕ) → Bytes → On ℕ
    write fh offset bytes = do
      file ← handle fh
      perform (λ disk. write_fully fs disk file bytes offset)
      pure (length bytes)

    unfoldable pub readdir_children : RelPath → On (List (Text × Attr))
    readdir_children dir o = elim (fs.read_dir o.disk (abs dir)) [
      | failed e ↦ (ok [], o)
      | done items ↦ (ok (listing items), o)
    ]

    unfoldable pub mkdir : RelPath → On Attr
    mkdir path = do
      let full = abs path
      create_parents full
      perform (λ disk. fs.create_dir disk full)
      md ← ask (λ disk. fs.metadata disk full)
      pure (attr_of md)

    unfoldable pub unlink : RelPath → On (Unit {0})
    unlink path = perform (λ disk. fs.remove_file disk (abs path))

    unfoldable pub rmdir : RelPath → On (Unit {0})
    rmdir path = perform (λ disk. fs.remove_dir disk (abs path))

    unfoldable pub rename : RelPath → RelPath → (replace : Bool) → On (Unit {0})
    rename from to replace = do
      exists ← gets (λ o. fs.exists o.disk (abs to))
      raise_if (not replace && exists) already_exists
      create_parents (abs to)
      perform (λ disk. fs.rename disk (abs from) (abs to))

    unfoldable pub setattr : RelPath → Option ℕ → Option SystemTime → (mode : Option ℕ) → On Attr
    setattr path size mtime mode = do
      let full = abs path
      when_some size (λ n. do
        file ← perform (λ disk. fs.open_file disk full true false)
        perform (λ disk. fs.set_len disk file n))
      when_some mtime (λ t. do
        file ← perform (λ disk. fs.open_file disk full true false)
        perform (λ disk. fs.set_modified disk file t))
      md ← ask (λ disk. fs.metadata disk full)
      pure (attr_of md)

    unfoldable pub link : (target link : RelPath) → On Attr
    link target link_path = do
      let link_full = abs link_path
      create_parents link_full
      perform (λ disk. fs.hard_link disk (abs target) link_full)
      md ← ask (λ disk. fs.metadata disk link_full)
      pure (attr_of md)

    unfoldable pub symlink : (target : Text) → (link : RelPath) → On Attr
    symlink target link_path = do
      let link_full = abs link_path
      create_parents link_full
      perform (λ disk. fs.symlink disk target link_full)
      md ← ask (λ disk. fs.symlink_metadata disk link_full)
      pure (attr_of md)

    unfoldable pub readlink : RelPath → On Text
    readlink path = do
      target ← ask (λ disk. fs.read_link disk (abs path))
      text ← or_raise target invalid_path
      pure (map to_forward_slash text)

    unfoldable pub flush : ℕ → On (Unit {0})
    flush fh = do file ← handle fh; pure tt

    unfoldable pub release : ℕ → On (Unit {0})
    release fh = modify (λ o. record o { handles = remove fh o.handles })

  -- The names on the disk that no pattern matches any more.
  module _ (lib : Globset) (matcher : ExcludeSet) where
    unfoldable pub excluded : RelPath → Bool
    excluded path = is_excluded lib matcher path

    names : List (Io DirItem) → List Text
    names [] = []
    names (failed e ∷ items) = names items
    names (done item ∷ items) =
        let rest = names items in elim item.name [ none ↦ rest | some name ↦ name ∷ rest ]

    pub orphans : (root : PathBuf) → fs.State → List Text
    unfolding names excluded
    orphans root disk = elim (fs.read_dir disk root) [
      | failed e ↦ []
      | done items ↦ retain (λ name. not (excluded name)) (names items)
    ]
