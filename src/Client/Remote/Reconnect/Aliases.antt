-- ===== src/Client/Remote/Reconnect/Aliases.antt =====
-- A handle that could not be opened again keeps the number of the session that ended.
use alloyfs.Base.{
  ℕ, ◌≡◌, refl, sym, ◌∙◌, true, false, none, some, List, ◌++◌, length, inl, inr, Bool-cases, nat_eq,
}
use mathlib.Core.Path.{subst}
use alloyfs.Base.Table.{get}
use alloyfs.Proto.Messages.{Bytes, Request}
use alloyfs.Client.Effect.{success}
use alloyfs.Client.Local.{LocalTree}
use alloyfs.Client.Overlay.{is_overlay_fh}
use alloyfs.Client.Remote.{OpenState, RemoteFs, Sent, Outside}
use alloyfs.Client.Remote.Reconnect.{
  opened_fh, is_attached, restore_lock, give_up, settle_handle, reopen, reconnect, swap_in,
}
use alloyfs.Client.Remote.Reconnect.Locks.{get-reconnect}
use alloyfs.Client.Remote.Calls.{Mount}
use alloyfs.Client.Remote.Files.{expected_version, write}
use alloyfs.Client.Remote.Files.Chunks.{Accepts, placed, bytes_at}
use alloyfs.Client.Remote.Files.Writing.{write-exact}

module _ (out : Outside) (sent : List Sent) (conn : ℕ) where
  lost_number :
      (old : OpenState) (log : List Sent)
      → old.lock ≡ none
      → opened_fh (out.reply sent log conn (Request.open_file old.path old.flags)) ≡ none
      → ((reopen out sent conn old log).0.server_fh ≡ old.server_fh)
        × ((reopen out sent conn old log).0.poisoned ≡ old.poisoned)
        × ((reopen out sent conn old log).0.path ≡ old.path)
  unfolding reopen settle_handle give_up
  lost_number old log unlocked gone = rw (gone, unlocked, settle_handle, give_up) (refl, refl, refl)

  new_number :
      (old : OpenState) (log : List Sent) (n : ℕ)
      → old.lock ≡ none
      → opened_fh (out.reply sent log conn (Request.open_file old.path old.flags)) ≡ some n
      → ((reopen out sent conn old log).0.server_fh ≡ n)
        × ((reopen out sent conn old log).0.path ≡ old.path)
  unfolding reopen settle_handle restore_lock
  new_number old log n unlocked there =
      rw (there, unlocked, settle_handle, restore_lock) (refl, refl)

module _ (out : Outside) {L : Type 0} where
  -- Both handles, of their two paths, go by one number of the server.
  aliases_lem :
      (conn : ℕ) (s : RemoteFs L) (fh other : ℕ) (gone kept : OpenState)
      → is_attached (out.reply s.sent s.replayed conn (Request.attach s.export)) ≡ true
      → get fh s.open_files ≡ some gone
      → get other s.open_files ≡ some kept
      → gone.lock ≡ none
      → kept.lock ≡ none
      → ((log : List Sent)
          → opened_fh (out.reply s.sent log conn (Request.open_file gone.path gone.flags)) ≡ none)
      → ((log : List Sent)
          → opened_fh (out.reply s.sent log conn (Request.open_file kept.path kept.flags))
            ≡ some gone.server_fh)
      → (a : OpenState) × (b : OpenState) × (get fh (reconnect out conn s).open_files ≡ some a)
        × (get other (reconnect out conn s).open_files ≡ some b)
        × (a.path ≡ gone.path)
        × (b.path ≡ kept.path)
        × (a.poisoned ≡ gone.poisoned)
        × (a.server_fh ≡ gone.server_fh)
        × (b.server_fh ≡ gone.server_fh)
  aliases_lem conn s fh other gone kept attached here there unlocked free lost found =
      let (x, before, e) = get-reconnect out conn s fh gone attached here in
      let (y, before', e') = get-reconnect out conn s other kept attached there in
      let (number, sound, path) = lost_number out s.sent conn gone before unlocked (lost before) in
      let (number', path') =
        new_number out s.sent conn kept before' gone.server_fh free (found before') in
      (
        (reopen out s.sent conn gone before).0,
        (reopen out s.sent conn kept before').0,
        e,
        e',
        path,
        path',
        sound,
        number,
        number',
      )

  detects_as_before :
      (conn : ℕ) (s : RemoteFs L) → (reconnect out conn s).detect_conflicts ≡ s.detect_conflicts
  unfolding reconnect swap_in
  detects_as_before conn s =
      elim (Bool-cases (is_attached (out.reply s.sent s.replayed conn (Request.attach s.export)))) [
        | inl attached ↦ rw (attached, reconnect) refl
        | inr refused ↦ rw (refused, reconnect) refl
      ]

module _ (t : LocalTree) (out : Outside) where
  no_version :
      (fh : ℕ) (s : Mount t out) → s.detect_conflicts ≡ false → expected_version t out fh s ≡ none
  unfolding expected_version
  no_version fh s e = rw e refl

  -- Two files are open without a lock, the handle of the first is not poisoned, and conflicts are not
  -- detected. At a reconnection the server no longer opens the first file, and gives the number that
  -- its handle had to the second. Then, while that connection lasts and the server writes what it is
  -- sent under the number, a write through the handle of the first file succeeds, and exactly its
  -- bytes were sent, at their places, under the number that the handle of the second file has.
  pub write-reconnect_misdirected :
      (conn : ℕ) (s : Mount t out) (fh other : ℕ) (gone kept : OpenState) (version : List Sent → ℕ)
      (offset : ℕ) (bytes : Bytes)
      → is_overlay_fh fh ≡ false
      → s.detect_conflicts ≡ false
      → is_attached (out.reply s.sent s.replayed conn (Request.attach s.export)) ≡ true
      → get fh s.open_files ≡ some gone
      → get other s.open_files ≡ some kept
      → gone.poisoned ≡ false
      → gone.lock ≡ none
      → kept.lock ≡ none
      → ((log : List Sent)
          → opened_fh (out.reply s.sent log conn (Request.open_file gone.path gone.flags)) ≡ none)
      → ((log : List Sent)
          → opened_fh (out.reply s.sent log conn (Request.open_file kept.path kept.flags))
            ≡ some gone.server_fh)
      → Accepts out gone.server_fh version
      → let s' = reconnect out conn s in
        (a : OpenState) × (b : OpenState) × (s'' : Mount t out) × (get fh s'.open_files ≡ some a)
        × (a.path ≡ gone.path)
        × (get other s'.open_files ≡ some b)
        × (b.path ≡ kept.path)
        × (write t out fh offset bytes s' ≡ (success (length bytes), s''))
        × (placed b.server_fh s''.sent ≡ placed b.server_fh s'.sent ++ bytes_at offset bytes)
  write-reconnect_misdirected conn s fh other gone kept version offset bytes remote blind attached
        here there sound unlocked free lost found accepts =
      let s' = reconnect out conn s in
      let (a, b, e, e', path, path', healthy, number, number') =
        aliases_lem out conn s fh other gone kept attached here there unlocked free lost found in
      let unversioned = no_version fh s' (detects_as_before out conn s ∙ blind) in
      let (s'', wrote, w) =
        write-exact t out fh gone.server_fh version accepts offset bytes s' a remote e
          (healthy ∙ sound) number (inl unversioned) in
      (
        a,
        b,
        s'',
        e,
        path,
        e',
        path',
        wrote,
        subst (λ n. placed n s''.sent ≡ placed n s'.sent ++ bytes_at offset bytes) (sym number')
            w.sent_all,
      )
