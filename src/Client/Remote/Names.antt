-- ===== src/Client/Remote/Names.antt =====
-- The operations of the mount on names: each goes to the overlay or to the server, by its path.
use alloyfs.Base.{
  ℕ, zero, suc, Bool, true, false, Option, none, some, List, [], ◌∷◌, ◌++◌, if◌then◌else◌, is_none,
  nat_eq,
}
use alloyfs.Base.Text.{Text, text_eq}
use alloyfs.Base.Table.{insert}
use alloyfs.Proto.Errors.{cross_device}
use alloyfs.Proto.Path.{RelPath, join}
use alloyfs.Proto.Messages.{Attr, DirEntry, OpenFlags, Request, Response, SystemTime}
use alloyfs.Client.Effect.{◌>>=◌, ◌>>◌, pure, gets, modify, raise}
use alloyfs.Client.Cache.{CacheState}
use alloyfs.Client.Cache
use alloyfs.Client.Inodes.{InodeTable, ino_of}
use alloyfs.Client.Inodes
use alloyfs.Client.Local.{LocalTree}
use alloyfs.Client.ReadAhead.{new_readahead}
use alloyfs.Client.Remote.{OpenState, Outside}
use alloyfs.Client.Remote.Calls.{
  Mount, On, ask, cache_attr, cached_attr, invalidate_attr, is_overlay, on_overlay, path_at, alloc,
  on_cache, mark_path_written, as_attr, as_opened, as_ok,
}

-- An entry of a listing: its name, its inode and its attributes.
abbrev pub Listed : Type 0
Listed = Text × ℕ × Attr

abbrev pub as_dir : Response → Option (List DirEntry × Option ℕ)
as_dir (Response.dir entries next_cursor) = some (entries, next_cursor)
as_dir _ = none

module _ (t : LocalTree) (out : Outside) where
  -- Where the path is routed.
  abbrev pub routed : {A : Type 0} → RelPath → On t out A → On t out A → On t out A
  routed path local remote = do
    overlaid ← gets (λ s. is_overlay t out s path)
    if overlaid then local else remote

  -- Both paths to the same side; across the boundary the operation is refused.
  abbrev pub both_routed : {A : Type 0} → (from to : RelPath) → On t out A → On t out A → On t out A
  both_routed from to local remote = do
    from_overlaid ← gets (λ s. is_overlay t out s from)
    to_overlaid ← gets (λ s. is_overlay t out s to)
    if from_overlaid
        then (if to_overlaid then local else raise cross_device)
        else (if to_overlaid then raise cross_device else remote)

  -- The path's inode, with its attributes in the cache.
  unfoldable pub alloc_cached : RelPath → Attr → On t out ℕ
  alloc_cached path attr = do ino ← alloc t out path; cache_attr t out ino attr; pure ino

  -- The inode of a path of the overlay, beside its attributes.
  abbrev pub alloc_beside : {A : Type 0} → RelPath → A → On t out (ℕ × A)
  alloc_beside path a = do ino ← alloc t out path; pure (ino, a)

  unfoldable pub fetch_attr : ℕ → RelPath → On t out Attr
  fetch_attr ino path = do
    attr ← ask t out (Request.getattr path) as_attr
    cache_attr t out ino attr
    pure attr

  abbrev pub or_fetch : ℕ → RelPath → Option Attr → On t out Attr
  or_fetch ino path (some attr) = pure attr
  or_fetch ino path none = fetch_attr ino path

  unfoldable pub getattr : ℕ → On t out Attr
  getattr ino = do
    path ← path_at t out ino
    routed path (on_overlay t out (t.getattr path))
        (do hit ← gets (λ s. cached_attr t out ino s); or_fetch ino path hit)

  unfoldable pub lookup : ℕ → Text → On t out (ℕ × Attr)
  lookup parent name = do
    dir ← path_at t out parent
    let path = join dir name
    routed path (do attr ← on_overlay t out (t.getattr path); alloc_beside path attr)
        (do
          attr ← ask t out (Request.getattr path) as_attr
          ino ← alloc_cached path attr
          pure (ino, attr))

  -- The entries of one page, without those that the overlay shadows.
  unfoldable pub list_entries : RelPath → List DirEntry → List Listed → On t out (List Listed)
  list_entries dir [] acc = pure acc
  list_entries dir (e ∷ es) acc = do
    acc' ←
        routed (join dir e.name) (pure acc)
          (do ino ← alloc_cached (join dir e.name) e.attr; pure (acc ++ (e.name, ino, e.attr) ∷ []))
    list_entries dir es acc'

  abbrev pub turn_page :
      Option ℕ
      → (ℕ → On t out (Option (List Listed)))
      → List Listed
      → On t out (Option (List Listed))
  turn_page none next acc = pure (some acc)
  turn_page (some cursor) next acc = next cursor

  -- The pages from a cursor on. The server says when it has no more; with no fuel left the listing is
  -- not complete.
  unfoldable pub list_pages : ℕ → RelPath → ℕ → List Listed → On t out (Option (List Listed))
  list_pages zero dir cursor acc = pure none
  list_pages (suc fuel) dir cursor acc = do
    page ← ask t out (Request.readdir dir cursor) as_dir
    acc' ← list_entries dir page.0 acc
    turn_page page.1 (λ c. list_pages fuel dir c acc') acc'

  -- The children on the disk, where they are routed to the overlay.
  unfoldable pub list_local : RelPath → List (Text × Attr) → List Listed → On t out (List Listed)
  list_local dir [] acc = pure acc
  list_local dir ((name, attr) ∷ children) acc = do
    acc' ←
        routed (join dir name)
          (do ino ← alloc t out (join dir name); pure (acc ++ (name, ino, attr) ∷ [])) (pure acc)
    list_local dir children acc'

  -- The children of a directory of the overlay, all of them.
  unfoldable pub list_overlay : RelPath → List (Text × Attr) → List Listed → On t out (List Listed)
  list_overlay dir [] acc = pure acc
  list_overlay dir ((name, attr) ∷ children) acc = do
    ino ← alloc t out (join dir name)
    list_overlay dir children (acc ++ (name, ino, attr) ∷ [])

  abbrev pub add_local :
      Option t.State → RelPath → Option (List Listed) → On t out (Option (List Listed))
  add_local o dir none = pure none
  add_local none dir (some acc) = pure (some acc)
  add_local (some o) dir (some acc) = do
    children ← on_overlay t out (t.readdir_children dir)
    all ← list_local dir children acc
    pure (some all)

  unfoldable pub readdir : (fuel : ℕ) → ℕ → On t out (Option (List Listed))
  readdir fuel ino = do
    dir ← path_at t out ino
    routed dir
        (do
          children ← on_overlay t out (t.readdir_children dir)
          all ← list_overlay dir children []
          pure (some all))
        (do listed ← list_pages fuel dir 0 []; o ← gets (λ s. s.overlay); add_local o dir listed)

  -- A handle of the server, as the mount remembers it.
  abbrev pub new_handle : RelPath → OpenFlags → ℕ → Bool → Bool → Attr → OpenState
  new_handle path flags fh cache_ok wrote attr = record {
    path = path;
    flags = flags;
    server_fh = fh;
    cache_ok = cache_ok;
    wrote = wrote;
    ra = new_readahead;
    lock = none;
    poisoned = false;
    version = attr.version;
  }

  abbrev pub track : ℕ → OpenState → On t out (Unit {0})
  track fh state = modify (λ s. record s { open_files = insert fh state s.open_files })

  unfoldable pub create : ℕ → Text → (mode : ℕ) → OpenFlags → On t out (ℕ × ℕ × Attr)
  create parent name mode flags = do
    dir ← path_at t out parent
    let path = join dir name
    routed path
        (do
          opened ← on_overlay t out (t.create path flags mode)
          ino ← alloc t out path
          pure (ino, opened.0, opened.1))
        (do
          opened ← ask t out (Request.create path flags mode) as_opened
          ino ← alloc_cached path opened.1
          track opened.0 (new_handle path flags opened.0 false true opened.1)
          pure (ino, opened.0, opened.1))

  unfoldable pub mkdir : ℕ → Text → (mode : ℕ) → On t out (ℕ × Attr)
  mkdir parent name mode = do
    dir ← path_at t out parent
    let path = join dir name
    routed path (do attr ← on_overlay t out (t.mkdir path); alloc_beside path attr)
        (do
          attr ← ask t out (Request.mkdir path mode) as_attr
          ino ← alloc_cached path attr
          pure (ino, attr))

  abbrev pub forget_attr : RelPath → Mount t out → Mount t out
  forget_attr path s = elim (ino_of s.ino path) [
    | none ↦ s
    | some ino ↦ invalidate_attr t out ino s
  ]

  abbrev pub uncache : RelPath → Mount t out → Mount t out
  uncache path s = record s { cache = on_cache t out (λ c. Cache.invalidate c path) s.cache }

  -- `unlink` and `rmdir`.
  unfoldable pub remove_name : ℕ → Text → (is_dir : Bool) → On t out (Unit {0})
  remove_name parent name is_dir = do
    dir ← path_at t out parent
    let path = join dir name
    routed path (on_overlay t out (if is_dir then t.rmdir path else t.unlink path)) (do
      ask t out (if is_dir then Request.rmdir path else Request.unlink path) as_ok
      modify (forget_attr path)
      modify (uncache path))

  abbrev pub move_inodes : RelPath → RelPath → Mount t out → Mount t out
  move_inodes from to s = record s { ino = Inodes.rename s.ino from to }

  abbrev pub move_copies : RelPath → RelPath → Mount t out → Mount t out
  move_copies from to s = record s {
    cache = on_cache t out (λ c. Cache.rename out.renames c from to) s.cache;
  }

  unfoldable pub rename :
      (parent : ℕ) (name : Text) (newparent : ℕ) (newname : Text)
      → (replace : Bool) → On t out (Unit {0})
  rename parent name newparent newname replace = do
    dir ← path_at t out parent
    newdir ← path_at t out newparent
    let from = join dir name
    let to = join newdir newname
    both_routed from to
        (do on_overlay t out (t.rename from to replace); modify (move_inodes from to))
        (do
          ask t out (Request.rename from to replace) as_ok
          modify (move_inodes from to)
          modify (move_copies from to))

  abbrev pub written_if : Bool → RelPath → Mount t out → Mount t out
  written_if true path s = s
  written_if false path s = mark_path_written t out path s

  unfoldable pub setattr : ℕ → Option ℕ → Option SystemTime → Option ℕ → On t out Attr
  setattr ino size mtime mode = do
    path ← path_at t out ino
    routed path (on_overlay t out (t.setattr path size mtime mode)) (do
      attr ← ask t out (Request.setattr path size mtime mode) as_attr
      cache_attr t out ino attr
      modify (written_if (is_none size) path)
      pure attr)
