-- ===== src/Client/Remote/Routed/Runs.antt =====
-- Any run of the operations of the mount, with reconnections between them.
use alloyfs.Base.{
  ℕ, zero, suc, ◌+◌, ◌*◌, ◌≡◌, refl, Bool, Option, none, some, List, [], ◌∷◌, nat_eq,
}
use alloyfs.Base.Text.{Text}
use alloyfs.Base.Table.{Table}
use alloyfs.Proto.Messages.{Bytes, OpenFlags, LockKind, SystemTime, Request, data_chunk}
use alloyfs.Client.Cache.{CacheState}
use alloyfs.Client.Local.{LocalTree}
use alloyfs.Client.Overlay.{is_overlay_fh}
use alloyfs.Client.Remote.{OpenState, Outside}
use alloyfs.Client.Remote.Calls.{Mount}
use alloyfs.Client.Remote.Reconnect.{reconnect}
use alloyfs.Client.Remote.Names.{
  getattr, lookup, readdir, create, mkdir, remove_name, rename, setattr,
}
use alloyfs.Client.Remote.Links.{link, symlink, readlink}
use alloyfs.Client.Remote.Files.{open_file, write, lock, unlock, flush, release, statfs}
use alloyfs.Client.Remote.Reads.{
  read, read_remote, read_tracked, read_blocks, read_blocks_direct, prefetch, fetch_block,
  fetch_all, collect, send_chunks, from_copy, drop_copy,
}
use alloyfs.Client.Remote.Routed.{IsRouted}
use alloyfs.Client.Remote.Routed.Supervisor.{Routed, send-IsRouted, reconnect-IsRouted}
use alloyfs.Client.Remote.Routed.Paths.{Stays, then-Stays, quiet-Stays, on_overlay-Stays}
use alloyfs.Client.Remote.Routed.Names.{
  getattr-Stays, lookup-Stays, readdir-Stays, create-Stays, mkdir-Stays, remove_name-Stays,
  rename-Stays, setattr-Stays,
}
use alloyfs.Client.Remote.Routed.Handles.{
  link-Stays, symlink-Stays, readlink-Stays, open_file-Stays, check_poisoned-Stays,
  update_handle-Stays, by_number, write-Stays, lock-Stays, unlock-Stays, flush-Stays, release-Stays,
  statfs-Stays,
}

module _ (t : LocalTree) (overlaid : Bool) (out : Outside) where
  fetch_block-Stays : (conn server b : ℕ) → Stays t overlaid out (fetch_block t out conn server b)
  unfolding fetch_block
  fetch_block-Stays conn server b s r =
      send-IsRouted t overlaid out conn (Request.read server (b * data_chunk) data_chunk) s tt r

  prefetch-Stays :
      (fh server : ℕ) (bs : List ℕ) → Stays t overlaid out (prefetch t out fh server bs)
  unfolding prefetch
  prefetch-Stays fh server [] = λ s r. r
  prefetch-Stays fh server (b ∷ bs) =
      then-Stays t overlaid out _ _ (λ s r. r)
        λ conn. then-Stays t overlaid out _ _ (fetch_block-Stays conn server b) λ task.
          then-Stays t overlaid out _ _
            (λ s r. update_handle-Stays t overlaid out fh _ s (λ state. refl) r)
            λ u. prefetch-Stays fh server bs

  collect-Stays :
      (fh count b : ℕ) (found : Table ℕ Bytes × List ℕ)
      → Stays t overlaid out (collect t out fh count b found)
  unfolding collect
  collect-Stays fh zero b found = λ s r. r
  collect-Stays fh (suc count) b found =
      then-Stays t overlaid out _ _ (λ s r. r)
        λ picked.
          then-Stays t overlaid out _ _
            (λ s r. update_handle-Stays t overlaid out fh _ s (λ state. refl) r)
            λ u. collect-Stays fh count (b + 1) _

  fetch_all-Stays :
      (conn server : ℕ) (bs : List ℕ) → Stays t overlaid out (fetch_all t out conn server bs)
  unfolding fetch_all
  fetch_all-Stays conn server [] = λ s r. r
  fetch_all-Stays conn server (b ∷ bs) =
      then-Stays t overlaid out _ _ (fetch_block-Stays conn server b)
        λ bytes. then-Stays t overlaid out _ _ (fetch_all-Stays conn server bs) λ rest s r. r

  read_blocks-Stays :
      (fh server offset size : ℕ) → Stays t overlaid out (read_blocks t out fh server offset size)
  unfolding read_blocks
  read_blocks-Stays fh server offset size =
      then-Stays t overlaid out _ _ (collect-Stays fh _ _ ([], [])) λ found.
        then-Stays t overlaid out _ _ (λ s r. r)
          λ conn. then-Stays t overlaid out _ _ (fetch_all-Stays conn server found.1) λ fetches.
            then-Stays t overlaid out _ _ (λ s r. r)
              λ ready.
                then-Stays t overlaid out _ _ (λ s r. r)
                  λ assembled.
                    then-Stays t overlaid out _ _
                      (λ s r. update_handle-Stays t overlaid out fh _ s (λ state. refl) r)
                      λ u s r. r

  read_tracked-Stays :
      (fh server offset size : ℕ) → Stays t overlaid out (read_tracked t out fh server offset size)
  unfolding read_tracked
  read_tracked-Stays fh server offset size =
      then-Stays t overlaid out _ _ (λ s r. r)
        λ seen.
          then-Stays t overlaid out _ _
            (λ s r. update_handle-Stays t overlaid out fh _ s (λ state. refl) r)
            λ u.
              then-Stays t overlaid out _ _ (prefetch-Stays fh server _)
                λ v. read_blocks-Stays fh server offset size

  send_chunks-Stays :
      (conn fh : ℕ) (chunks : List (ℕ × ℕ))
      → Stays t overlaid out (send_chunks t out conn fh chunks)
  unfolding send_chunks
  send_chunks-Stays conn fh [] = λ s r. r
  send_chunks-Stays conn fh ((pos, want) ∷ chunks) =
      then-Stays t overlaid out _ _
        (λ s r. send-IsRouted t overlaid out conn (Request.read fh pos want) s tt r)
        λ reply. then-Stays t overlaid out _ _ (send_chunks-Stays conn fh chunks) λ rest s r. r

  read_blocks_direct-Stays :
      (fh offset size : ℕ) → Stays t overlaid out (read_blocks_direct t out fh offset size)
  unfolding read_blocks_direct
  read_blocks_direct-Stays fh offset size =
      then-Stays t overlaid out _ _ (λ s r. r)
        λ conn. then-Stays t overlaid out _ _ (send_chunks-Stays conn fh _) λ answers s r. r

  drop_copy_path :
      (cache : Option CacheState) (state : OpenState)
      → (drop_copy t out cache state).path ≡ state.path
  drop_copy_path none state = refl
  drop_copy_path (some cache) state = refl

  from_copy-Stays :
      (copy : Option Bytes) (state : Option OpenState) (fh offset size : ℕ)
      → Stays t overlaid out (from_copy t out copy state fh offset size)
  from_copy-Stays (some bytes) state fh offset size = λ s r. r
  from_copy-Stays none none fh offset size = read_blocks_direct-Stays fh offset size
  from_copy-Stays none (some state) fh offset size =
      then-Stays t overlaid out _ _
        (λ s r. update_handle-Stays t overlaid out fh _ s (drop_copy_path s.cache) r)
        λ u. read_tracked-Stays fh state.server_fh offset size

  read_remote-Stays : (fh offset size : ℕ) → Stays t overlaid out (read_remote t out fh offset size)
  unfolding read_remote
  read_remote-Stays fh offset size =
      then-Stays t overlaid out _ _ (check_poisoned-Stays t overlaid out fh) λ u.
        then-Stays t overlaid out _ _ (λ s r. r)
          λ state.
            then-Stays t overlaid out _ _ (λ s r. r) λ cache. from_copy-Stays _ state fh offset size

  read-Stays : (fh offset size : ℕ) → Stays t overlaid out (read t out fh offset size)
  unfolding read
  read-Stays fh offset size =
      by_number t overlaid out (is_overlay_fh fh) _ _ (on_overlay-Stays t overlaid out _)
        (read_remote-Stays fh offset size)

-- What is done to a mount: an operation, a reconnection between operations, or that time passes.
pub data Op : Type 0 where
  getattrs : ℕ → Op
  lookups : ℕ → Text → Op
  readdirs : (fuel : ℕ) → ℕ → Op
  opens : ℕ → OpenFlags → Op
  creates : ℕ → Text → ℕ → OpenFlags → Op
  reads : (fh offset size : ℕ) → Op
  writes : (fh offset : ℕ) → Bytes → Op
  mkdirs : ℕ → Text → ℕ → Op
  removes : ℕ → Text → (is_dir : Bool) → Op
  renames : ℕ → Text → ℕ → Text → (replace : Bool) → Op
  setattrs : ℕ → Option ℕ → Option SystemTime → Option ℕ → Op
  links : ℕ → ℕ → Text → Op
  symlinks : ℕ → (name target : Text) → Op
  readlinks : ℕ → Op
  locks : ℕ → LockKind → (wait : Bool) → Op
  unlocks flushes releases : ℕ → Op
  statfses : Op
  reconnects : (conn : ℕ) → Op
  waits : (now : ℕ) → Op

module _ (t : LocalTree) (out : Outside) where
  unfoldable pub after_op : Op → Mount t out → Mount t out
  after_op (getattrs ino) s = (getattr t out ino s).1
  after_op (lookups parent name) s = (lookup t out parent name s).1
  after_op (readdirs fuel ino) s = (readdir t out fuel ino s).1
  after_op (opens ino flags) s = (open_file t out ino flags s).1
  after_op (creates parent name mode flags) s = (create t out parent name mode flags s).1
  after_op (reads fh offset size) s = (read t out fh offset size s).1
  after_op (writes fh offset bytes) s = (write t out fh offset bytes s).1
  after_op (mkdirs parent name mode) s = (mkdir t out parent name mode s).1
  after_op (removes parent name is_dir) s = (remove_name t out parent name is_dir s).1
  after_op (renames parent name newparent newname replace) s =
      (rename t out parent name newparent newname replace s).1
  after_op (setattrs ino size mtime mode) s = (setattr t out ino size mtime mode s).1
  after_op (links target_ino newparent newname) s = (link t out target_ino newparent newname s).1
  after_op (symlinks parent name target) s = (symlink t out parent name target s).1
  after_op (readlinks ino) s = (readlink t out ino s).1
  after_op (locks fh kind wait) s = (lock t out fh kind wait s).1
  after_op (unlocks fh) s = (unlock t out fh s).1
  after_op (flushes fh) s = (flush t out fh s).1
  after_op (releases fh) s = (release t out fh s).1
  after_op statfses s = (statfs t out s).1
  after_op (reconnects conn) s = reconnect out conn s
  after_op (waits now) s = record s { now = now }

  unfoldable pub after_ops : List Op → Mount t out → Mount t out
  after_ops [] s = s
  after_ops (op ∷ ops) s = after_ops ops (after_op op s)

module _ (t : LocalTree) (overlaid : Bool) (out : Outside) where
  after_op-IsRouted :
      (op : Op) (s : Mount t out)
      → Routed t overlaid out s
      → Routed t overlaid out (after_op t out op s)
  unfolding after_op
  after_op-IsRouted (getattrs ino) = getattr-Stays t overlaid out ino
  after_op-IsRouted (lookups parent name) = lookup-Stays t overlaid out parent name
  after_op-IsRouted (readdirs fuel ino) = readdir-Stays t overlaid out fuel ino
  after_op-IsRouted (opens ino flags) = open_file-Stays t overlaid out ino flags
  after_op-IsRouted (creates parent name mode flags) =
      create-Stays t overlaid out parent name mode flags
  after_op-IsRouted (reads fh offset size) = read-Stays t overlaid out fh offset size
  after_op-IsRouted (writes fh offset bytes) = write-Stays t overlaid out fh offset bytes
  after_op-IsRouted (mkdirs parent name mode) = mkdir-Stays t overlaid out parent name mode
  after_op-IsRouted (removes parent name is_dir) =
      remove_name-Stays t overlaid out parent name is_dir
  after_op-IsRouted (renames parent name newparent newname replace) =
      rename-Stays t overlaid out parent name newparent newname replace
  after_op-IsRouted (setattrs ino size mtime mode) =
      setattr-Stays t overlaid out ino size mtime mode
  after_op-IsRouted (links target_ino newparent newname) =
      link-Stays t overlaid out target_ino newparent newname
  after_op-IsRouted (symlinks parent name target) = symlink-Stays t overlaid out parent name target
  after_op-IsRouted (readlinks ino) = readlink-Stays t overlaid out ino
  after_op-IsRouted (locks fh kind wait) = lock-Stays t overlaid out fh kind wait
  after_op-IsRouted (unlocks fh) = unlock-Stays t overlaid out fh
  after_op-IsRouted (flushes fh) = flush-Stays t overlaid out fh
  after_op-IsRouted (releases fh) = release-Stays t overlaid out fh
  after_op-IsRouted statfses = statfs-Stays t overlaid out
  after_op-IsRouted (reconnects conn) = reconnect-IsRouted t overlaid out conn
  after_op-IsRouted (waits now) = λ s r. quiet-Stays t overlaid out s _ refl refl refl refl r

  -- Whatever is done with a mount, in any order, whatever the server answers, and wherever connections
  -- are lost and replaced: no request ever names a path that is routed to the overlay, neither those
  -- of the mount nor those with which the supervisor opens its handles again, and every handle of the
  -- server is of a path that is not.
  pub after_ops-IsRouted :
      (ops : List Op) (s : Mount t out)
      → IsRouted t overlaid s
      → IsRouted t overlaid (after_ops t out ops s)
  unfolding after_ops
  after_ops-IsRouted [] s r = r
  after_ops-IsRouted (op ∷ ops) s r =
      after_ops-IsRouted ops (after_op t out op s) (after_op-IsRouted op s r)
