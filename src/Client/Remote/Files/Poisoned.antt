-- ===== src/Client/Remote/Files/Poisoned.antt =====
-- A handle whose lock was lost across a reconnection.
use alloyfs.Base.{ℕ, ◌≡◌, refl, Bool, true, false, some, nat_eq}
use alloyfs.Base.Table.{get}
use alloyfs.Proto.Errors.{io}
use alloyfs.Proto.Messages.{Bytes, LockKind}
use alloyfs.Client.Errno.{remote}
use alloyfs.Client.Effect.{success, failure, ◌>>=◌}
use alloyfs.Client.Local.{LocalTree}
use alloyfs.Client.Overlay.{is_overlay_fh}
use alloyfs.Client.Remote.{OpenState, Outside}
use alloyfs.Client.Remote.Calls.{Mount}
use alloyfs.Client.Remote.Files.{
  check_poisoned, is_poisoned, write, write_remote, lock, lock_remote, flush, flush_remote,
}
use alloyfs.Client.Remote.Reads.{read, read_remote}

module _ (t : LocalTree) (out : Outside) (fh : ℕ) (s : Mount t out) where
  pub check_healthy :
      is_poisoned t out (get fh s.open_files) ≡ false → check_poisoned t out fh s ≡ (success tt, s)
  unfolding check_poisoned ◌>>=◌
  check_healthy e = rw e refl

  check_lost :
      is_poisoned t out (get fh s.open_files) ≡ true
      → check_poisoned t out fh s ≡ (failure (remote io), s)
  unfolding check_poisoned ◌>>=◌
  check_lost e = rw e refl

  -- With a poisoned handle of the server, reading, writing, locking and flushing fail with `Io` and
  -- change nothing: nothing is sent, and nothing is taken from a copy or from the blocks at hand.
  pub poisoned_refused :
      (state : OpenState) (offset size : ℕ) (bytes : Bytes) (kind : LockKind) (wait : Bool)
      → is_overlay_fh fh ≡ false
      → get fh s.open_files ≡ some state
      → state.poisoned ≡ true
      → (read t out fh offset size s ≡ (failure (remote io), s))
        × (write t out fh offset bytes s ≡ (failure (remote io), s))
        × (lock t out fh kind wait s ≡ (failure (remote io), s))
        × (flush t out fh s ≡ (failure (remote io), s))
  unfolding read write lock flush read_remote write_remote lock_remote flush_remote ◌>>=◌
  poisoned_refused state offset size bytes kind wait server_side there lost =
      let sick : is_poisoned t out (get fh s.open_files) ≡ true = rw there lost in
      rw (server_side, check_lost sick) (refl, refl, refl, refl)
