-- ===== src/Client/Remote/Routed/Handles.antt =====
-- The operations on links and on handles send no path of the overlay.
use alloyfs.Base.{
  ℕ, zero, suc, ◌+◌, ◌≡◌, refl, Bool, true, false, Option, [], ◌∷◌, length, if◌then◌else◌, nat_eq,
  Option-cases, Bool-cases, inl, inr,
}
use alloyfs.Base.Text.{Text}
use alloyfs.Base.Table.{get}
use alloyfs.Base.Table.Values.{get-AllValues, remove-AllValues}
use alloyfs.Proto.Path.{RelPath, join}
use alloyfs.Proto.Messages.{Attr, Bytes, OpenFlags, LockKind, Request}
use alloyfs.Client.Effect.{Keeps-or_raise, Keeps-raise_if}
use alloyfs.Client.Local.{LocalTree}
use alloyfs.Client.Overlay.{is_overlay_fh}
use alloyfs.Client.Remote.{OpenState, Outside}
use alloyfs.Client.Remote.Calls.{Mount, On, require_proto, server_fh}
use alloyfs.Client.Remote.Links.{link, symlink, readlink}
use alloyfs.Client.Remote.Files.{
  has_fresh_copy, open_file, check_poisoned, update_handle, write_chunks, note_write, write_remote,
  write, wait_lock, lock_remote, lock, unlock_remote, unlock, flush_remote, flush, forget_handle,
  release_remote, release, statfs, chunk_of,
}
use alloyfs.Client.Remote.Routed.{OpensOutside, routed-IsRouted, both_routed-IsRouted}
use alloyfs.Client.Remote.Routed.Supervisor.{Routed, send-IsRouted, call-IsRouted, ask-IsRouted}
use alloyfs.Client.Remote.Routed.Paths.{
  Stays, then-Stays, quiet-Stays, path_at-Stays, on_overlay-Stays, answered-Stays, local-Stays,
  track-Stays, mark_path_written-Stays,
}

module _ (t : LocalTree) (overlaid : Bool) (out : Outside) where
  require_proto-Stays : (need : ℕ) → Stays t overlaid out (require_proto t out need)
  unfolding require_proto
  require_proto-Stays need =
      then-Stays t overlaid out _ _ (λ s r. r) λ have. Keeps-raise_if (Routed t overlaid out) _ _

  pub link-Stays :
      (target_ino newparent : ℕ) (newname : Text)
      → Stays t overlaid out (link t out target_ino newparent newname)
  unfolding link
  link-Stays target_ino newparent newname =
      then-Stays t overlaid out _ _ (path_at-Stays t overlaid out target_ino) λ target.
        then-Stays t overlaid out _ _ (path_at-Stays t overlaid out newparent) λ dir.
          both_routed-IsRouted t overlaid out target (join dir newname) _ _
            (local-Stays t overlaid out (join dir newname) _)
            λ from to.
              answered-Stays t overlaid out (join dir newname) (Request.link target _) _ (from, to)

  pub symlink-Stays :
      (parent : ℕ) (name target : Text) → Stays t overlaid out (symlink t out parent name target)
  unfolding symlink
  symlink-Stays parent name target =
      then-Stays t overlaid out _ _ (path_at-Stays t overlaid out parent) λ dir.
        then-Stays t overlaid out _ _ (λ s r. r)
          λ text.
            routed-IsRouted t overlaid out (join dir name) _ _
              (local-Stays t overlaid out (join dir name) _)
              λ o.
                then-Stays t overlaid out _ _ (require_proto-Stays 4)
                  λ u. answered-Stays t overlaid out (join dir name) (Request.symlink text _) _ o

  pub readlink-Stays : (ino : ℕ) → Stays t overlaid out (readlink t out ino)
  unfolding readlink
  readlink-Stays ino = then-Stays t overlaid out _ _ (path_at-Stays t overlaid out ino) λ path.
      routed-IsRouted t overlaid out path _ _ (on_overlay-Stays t overlaid out _) λ o.
        then-Stays t overlaid out _ _ (require_proto-Stays 4)
          λ u. ask-IsRouted t overlaid out (Request.read_link path) _ o

  has_fresh_copy-Stays :
      (path : RelPath) (attr : Attr) → Stays t overlaid out (has_fresh_copy t out path attr)
  unfolding has_fresh_copy
  has_fresh_copy-Stays path attr s r = quiet-Stays t overlaid out s _ refl refl refl refl r

  pub open_file-Stays :
      (ino : ℕ) (flags : OpenFlags) → Stays t overlaid out (open_file t out ino flags)
  unfolding open_file
  open_file-Stays ino flags =
      then-Stays t overlaid out _ _ (path_at-Stays t overlaid out ino) λ path.
        routed-IsRouted t overlaid out path _ _ (on_overlay-Stays t overlaid out _) λ o.
          then-Stays t overlaid out _ _
            (ask-IsRouted t overlaid out (Request.open_file path flags) _ o)
            λ opened.
              then-Stays t overlaid out _ _
                (λ s r. quiet-Stays t overlaid out s _ refl refl refl refl r)
                λ u. then-Stays t overlaid out _ _ (has_fresh_copy-Stays path opened.1) λ fresh.
                  then-Stays t overlaid out _ _ (track-Stays t overlaid out opened.0 _ o) λ v s r. r

  pub check_poisoned-Stays : (fh : ℕ) → Stays t overlaid out (check_poisoned t out fh)
  unfolding check_poisoned
  check_poisoned-Stays fh =
      then-Stays t overlaid out _ _ (λ s r. r) λ lost. Keeps-raise_if (Routed t overlaid out) _ _

  -- A change that leaves the path of a handle alone.
  pub update_handle-Stays :
      (fh : ℕ) (f : OpenState → OpenState) (s : Mount t out)
      → ((state : OpenState) → (f state).path ≡ state.path)
      → Routed t overlaid out s
      → Routed t overlaid out (update_handle t out fh f s)
  unfolding update_handle
  update_handle-Stays fh f s same r = elim (Option-cases (get fh s.open_files)) [
    | inl absent ↦ rw (absent, update_handle) r
    | inr (state, there) ↦
        rw (there, update_handle)
          (track-Stays t overlaid out fh (f state)
            (rw (same state)
              (get-AllValues (OpensOutside t overlaid) fh state s.open_files r.files there))
            s r)
  ]

  write_chunks-Stays :
      (fuel fh server offset pos : ℕ) (rest : Bytes) (expected : Option ℕ)
      → Stays t overlaid out (write_chunks t out fuel fh server offset pos rest expected)
  unfolding write_chunks
  write_chunks-Stays zero fh server offset pos [] expected = λ s r. r
  write_chunks-Stays zero fh server offset pos (b ∷ bs) expected = λ s r. r
  write_chunks-Stays (suc fuel) fh server offset pos [] expected = λ s r. r
  write_chunks-Stays (suc fuel) fh server offset pos (b ∷ bs) expected =
      then-Stays t overlaid out _ _
        (ask-IsRouted t overlaid out
          (Request.write server (offset + pos) (chunk_of (b ∷ bs)) expected) _ tt)
        λ written.
          then-Stays t overlaid out _ _ (λ s r. update_handle-Stays fh _ s (λ state. refl) r)
            λ u.
              then-Stays t overlaid out _ _ (Keeps-raise_if (Routed t overlaid out) _ _)
                λ v. write_chunks-Stays fuel fh server offset _ _ _

  note_write-Stays :
      (fh : ℕ) (s : Mount t out)
      → Routed t overlaid out s
      → Routed t overlaid out (note_write t out fh s)
  unfolding note_write
  note_write-Stays fh s r = elim (Option-cases (get fh s.open_files)) [
    | inl absent ↦ rw (absent, note_write) r
    | inr (state, there) ↦
        rw (there, note_write)
          (mark_path_written-Stays t overlaid out state.path _ (
            track-Stays t overlaid out fh (record state { wrote = true })
              (get-AllValues (OpensOutside t overlaid) fh state s.open_files r.files there) s r))
  ]

  write_remote-Stays :
      (fh offset : ℕ) (bytes : Bytes) → Stays t overlaid out (write_remote t out fh offset bytes)
  unfolding write_remote
  write_remote-Stays fh offset bytes = then-Stays t overlaid out _ _ (check_poisoned-Stays fh) λ u.
      then-Stays t overlaid out _ _ (λ s r. r)
        λ server.
          then-Stays t overlaid out _ _ (λ s r. r)
            λ expected.
              then-Stays t overlaid out _ _
                (write_chunks-Stays (length bytes) fh server offset 0 bytes expected)
                λ v. then-Stays t overlaid out _ _ (note_write-Stays fh) λ w s r. r

  -- By the number of the handle.
  pub by_number :
      {A : Type 0} (b : Bool) (near far : On t out A)
      → Stays t overlaid out near
      → Stays t overlaid out far
      → Stays t overlaid out (if b then near else far)
  by_number true near far h h' = h
  by_number false near far h h' = h'

  pub write-Stays :
      (fh offset : ℕ) (bytes : Bytes) → Stays t overlaid out (write t out fh offset bytes)
  unfolding write
  write-Stays fh offset bytes =
      by_number (is_overlay_fh fh) _ _ (on_overlay-Stays t overlaid out _)
        (write_remote-Stays fh offset bytes)

  lock_remote-Stays :
      (fh : ℕ) (kind : LockKind) (wait : Bool)
      → Stays t overlaid out (lock_remote t out fh kind wait)
  unfolding lock_remote wait_lock
  lock_remote-Stays fh kind wait = then-Stays t overlaid out _ _ (check_poisoned-Stays fh) λ u.
      then-Stays t overlaid out _ _ (λ s r. r)
        λ server.
          then-Stays t overlaid out _ _
            (by_number wait _ _
              (λ s r. send-IsRouted t overlaid out s.conn (Request.lock server kind wait) s tt r)
              (call-IsRouted t overlaid out (Request.lock server kind wait) tt))
            λ response.
              then-Stays t overlaid out _ _ (Keeps-or_raise (Routed t overlaid out) _ _)
                λ v s r. update_handle-Stays fh _ s (λ state. refl) r

  pub lock-Stays :
      (fh : ℕ) (kind : LockKind) (wait : Bool) → Stays t overlaid out (lock t out fh kind wait)
  unfolding lock
  lock-Stays fh kind wait =
      by_number (is_overlay_fh fh) _ _ (λ s r. r) (lock_remote-Stays fh kind wait)

  unlock_remote-Stays : (fh : ℕ) → Stays t overlaid out (unlock_remote t out fh)
  unfolding unlock_remote
  unlock_remote-Stays fh =
      then-Stays t overlaid out _ _ (λ s r. r)
        λ server.
          then-Stays t overlaid out _ _ (ask-IsRouted t overlaid out (Request.unlock server) _ tt)
            λ u s r. update_handle-Stays fh _ s (λ state. refl) r

  pub unlock-Stays : (fh : ℕ) → Stays t overlaid out (unlock t out fh)
  unfolding unlock
  unlock-Stays fh = by_number (is_overlay_fh fh) _ _ (λ s r. r) (unlock_remote-Stays fh)

  flush_remote-Stays : (fh : ℕ) → Stays t overlaid out (flush_remote t out fh)
  unfolding flush_remote
  flush_remote-Stays fh = then-Stays t overlaid out _ _ (check_poisoned-Stays fh) λ u.
      then-Stays t overlaid out _ _ (λ s r. r)
        λ server. ask-IsRouted t overlaid out (Request.flush server) _ tt

  pub flush-Stays : (fh : ℕ) → Stays t overlaid out (flush t out fh)
  unfolding flush
  flush-Stays fh =
      by_number (is_overlay_fh fh) _ _ (on_overlay-Stays t overlaid out _) (flush_remote-Stays fh)

  forget_handle-Stays :
      (fh : ℕ) (s : Mount t out)
      → Routed t overlaid out s
      → Routed t overlaid out (forget_handle t out fh s)
  unfolding forget_handle
  forget_handle-Stays fh s r = elim (Option-cases (get fh s.open_files)) [
    | inl absent ↦ rw (absent, forget_handle) r
    | inr (state, there) ↦
        rw (there, forget_handle)
          (record {
            same = r.same;
            sent = r.sent;
            replayed = r.replayed;
            files = remove-AllValues (OpensOutside t overlaid) fh s.open_files r.files;
          })
  ]

  release_remote-Stays : (fh : ℕ) → Stays t overlaid out (release_remote t out fh)
  unfolding release_remote
  release_remote-Stays fh s r =
      call-IsRouted t overlaid out (Request.release (server_fh t out s fh)) tt _
        (forget_handle-Stays fh s r)

  pub release-Stays : (fh : ℕ) → Stays t overlaid out (release t out fh)
  unfolding release
  release-Stays fh s r = elim (Bool-cases (is_overlay_fh fh)) [
    | inl near ↦ rw (near, release) (on_overlay-Stays t overlaid out (t.release fh) s r)
    | inr far ↦ rw (far, release) (release_remote-Stays fh s r)
  ]

  pub statfs-Stays : Stays t overlaid out (statfs t out)
  unfolding statfs
  statfs-Stays = ask-IsRouted t overlaid out Request.statfs _ tt
