-- ===== src/Client/Remote/Reconnect/Locks.antt =====
-- The handles that held a lock, across a reconnection.
use alloyfs.Base.{
  ℕ, zero, suc, ◌≡◌, refl, ap, ◌∙◌, Bool, true, false, Option, none, some, List, [], ◌∷◌, ◌⊎◌, inl,
  inr, arith, ◌==◌, nat_eq, Bool-cases, Option-cases, if◌then◌else◌,
}
use mathlib.Core.Path.{subst}
use alloyfs.Base.Table.{Table, get}
use alloyfs.Proto.Errors.{ok}
use alloyfs.Proto.Messages.{Attr, Request, Response, LockKind}
use alloyfs.Client.Remote.{OpenState, RemoteFs, Reply, answered, Sent, Outside}
use alloyfs.Client.Remote.Reconnect.{
  LockAnswer, granted, again, lost, lock_answer, opened_fh, is_attached, attempts, replay_lock,
  restore_lock, give_up, settle_handle, reopen, reopen_all, swap_in, reconnect,
}

some_same : (a b : OpenState) → ◌≡◌ {A = Option OpenState} (some a) (some b) → a ≡ b
some_same a b h = ground arith

granted_lem : (r : Reply) → lock_answer r ≡ granted → r ≡ answered (ok Response.ok)
unfolding lock_answer
granted_lem (answered (ok Response.ok)) h = refl
granted_lem _ h = ground arith

pub opened_fh_lem :
    (r : Reply) (fh : ℕ)
    → opened_fh r ≡ some fh
    → (attr : Attr) × (r ≡ answered (ok (Response.opened fh attr)))
unfolding opened_fh
opened_fh_lem (answered (ok (Response.opened n attr))) fh h = (attr, ground arith)
opened_fh_lem _ fh h = ground arith

pub LockAnswer-cases : (a : LockAnswer) → (a ≡ granted) ⊎ (a ≡ again) ⊎ (a ≡ lost)
LockAnswer-cases granted = inl refl
LockAnswer-cases again = inr (inl refl)
LockAnswer-cases lost = inr (inr refl)

module _ (out : Outside) (sent : List Sent) (conn : ℕ) where
  -- The server gave the lock to the new number of the handle, over the new connection.
  abbrev pub Regained : OpenState → LockKind → Type 0
  Regained new kind =
      (log : List Sent) × (out.reply sent log conn (Request.lock new.server_fh kind false)
        ≡ answered (ok Response.ok))

  -- The server opened the file under the new number, over the new connection.
  abbrev pub Reopened : OpenState → Type 0
  Reopened new =
      (log : List Sent) × (attr : Attr) × (out.reply sent log conn
          (Request.open_file new.path new.flags)
        ≡ answered (ok (Response.opened new.server_fh attr)))

  pub record Restored (old new : OpenState) : Type 0 where
    pub same_path : new.path ≡ old.path
    pub same_flags : new.flags ≡ old.flags
    pub same_lock : new.lock ≡ old.lock
    pub poisoned_stays : old.poisoned ≡ true → new.poisoned ≡ true
    pub guarded :
        (kind : LockKind)
        → old.lock ≡ some kind
        → (new.poisoned ≡ true) ⊎ (Reopened new × Regained new kind)

  replay_lock_lem :
      (n fh : ℕ) (kind : LockKind) (log : List Sent)
      → (replay_lock out sent conn n fh kind log).0 ≡ true
      → (log' : List Sent) × (out.reply sent log' conn (Request.lock fh kind false)
          ≡ answered (ok Response.ok))
  unfolding replay_lock
  replay_lock_lem zero fh kind log h = ground arith
  replay_lock_lem (suc n) fh kind log h =
      let reply = out.reply sent log conn (Request.lock fh kind false) in
      elim (LockAnswer-cases (lock_answer reply)) [
        | inl held ↦ (log, granted_lem reply held)
        | inr (inl later) ↦
            replay_lock_lem n fh kind ((conn, Request.lock fh kind false) ∷ log)
              (rw (later, replay_lock) at h)
        | inr (inr gone) ↦ absurd (ground (arith, rw (gone, replay_lock) at h))
      ]

  poison_unless : Bool → OpenState → OpenState
  poison_unless held state = if held then state else record state { poisoned = true }

  -- A handle that is open again under its new number.
  Restored-open :
      (old state : OpenState) (kind : LockKind) (held : Bool)
      → state.path ≡ old.path
      → state.flags ≡ old.flags
      → state.lock ≡ old.lock
      → state.poisoned ≡ old.poisoned
      → Reopened state
      → (held ≡ true → Regained state kind)
      → old.lock ≡ some kind
      → Restored old (poison_unless held state)
  unfolding poison_unless
  Restored-open old state kind true p f l q opened regained holds = record {
    same_path = p;
    same_flags = f;
    same_lock = l;
    poisoned_stays = λ e. q ∙ e;
    guarded =
        λ k e. inr (opened, subst (Regained state) (ground (arith, holds, e)) (regained refl));
  }
  Restored-open old state kind false p f l q opened regained holds = record {
    same_path = p;
    same_flags = f;
    same_lock = l;
    poisoned_stays = λ e. refl;
    guarded = λ k e. inl refl;
  }

  restore_lock-Restored :
      (old state : OpenState) (lock : Option LockKind) (log : List Sent)
      → state.path ≡ old.path
      → state.flags ≡ old.flags
      → state.lock ≡ old.lock
      → state.poisoned ≡ old.poisoned
      → Reopened state
      → old.lock ≡ lock
      → Restored old (restore_lock out sent conn state lock log).0
  unfolding restore_lock poison_unless
  restore_lock-Restored old state none log p f l q opened holds = record {
    same_path = p;
    same_flags = f;
    same_lock = l;
    poisoned_stays = λ e. q ∙ e;
    guarded = λ k e. ground (arith, holds, e);
  }
  restore_lock-Restored old state (some kind) log p f l q opened holds =
      Restored-open old state kind (replay_lock out sent conn attempts state.server_fh kind log).0 p
        f l q opened (replay_lock_lem attempts state.server_fh kind log) holds

  give_up-Restored :
      (old state : OpenState) (lock : Option LockKind)
      → state.path ≡ old.path
      → state.flags ≡ old.flags
      → state.lock ≡ old.lock
      → state.poisoned ≡ old.poisoned
      → old.lock ≡ lock
      → Restored old (give_up out sent conn state lock)
  unfolding give_up
  give_up-Restored old state none p f l q holds = record {
    same_path = p;
    same_flags = f;
    same_lock = l;
    poisoned_stays = λ e. q ∙ e;
    guarded = λ k e. ground (arith, holds, e);
  }
  give_up-Restored old state (some kind) p f l q holds = record {
    same_path = p;
    same_flags = f;
    same_lock = l;
    poisoned_stays = λ e. refl;
    guarded = λ k e. inl refl;
  }

  reopen-Restored :
      (old : OpenState) (log : List Sent) → Restored old (reopen out sent conn old log).0
  unfolding reopen settle_handle
  reopen-Restored old log =
      let req = Request.open_file old.path old.flags in
      let reply = out.reply sent log conn req in
      elim (Option-cases (opened_fh reply)) [
        | inl gone ↦
            rw (gone, settle_handle) (give_up-Restored old _ old.lock refl refl refl refl refl)
        | inr (fh, there) ↦
            rw (there, settle_handle)
              (restore_lock-Restored old _ old.lock _ refl refl refl refl
                (let (attr, e) = opened_fh_lem reply fh there in (log, attr, e)) refl)
      ]

  -- Each handle is opened again, after those before it.
  pub get-reopen_all :
      (fh : ℕ) (old : OpenState) (files : Table ℕ OpenState) (log : List Sent)
      → get fh files ≡ some old
      → (before : List Sent) × (get fh (reopen_all out sent conn files log).0
          ≡ some (reopen out sent conn old before).0)
  unfolding reopen_all get
  get-reopen_all fh old [] log h = cc
  get-reopen_all fh old ((k, state) ∷ files) log h = elim (Bool-cases (k == fh)) [
    | inl same ↦
        rw same
          (log, ap (λ o. some (reopen out sent conn o log).0) (some_same state old (rw same at h)))
    | inr other ↦
        rw other (get-reopen_all fh old files (reopen out sent conn state log).1 (rw other at h))
  ]

module _ (out : Outside) {L : Type 0} where
  pub get-reconnect :
      (conn : ℕ) (s : RemoteFs L) (fh : ℕ) (old : OpenState)
      → is_attached (out.reply s.sent s.replayed conn (Request.attach s.export)) ≡ true
      → get fh s.open_files ≡ some old
      → ((reconnect out conn s).conn ≡ conn)
        × (before : List Sent) × (get fh (reconnect out conn s).open_files
            ≡ some (reopen out s.sent conn old before).0)
  unfolding reconnect swap_in
  get-reconnect conn s fh old attached there =
      let (before, e) =
        get-reopen_all out s.sent conn fh old s.open_files
          ((conn, Request.attach s.export) ∷ s.replayed) there in
      rw (attached, reconnect) (refl, before, e)

  -- Once a reconnection has attached to its export, every handle that was open is open, of the same
  -- path, with the same flags and the same lock to its name; one that was poisoned still is; and one
  -- that held a lock is poisoned now, or the server has opened its file again over the new connection
  -- and has given that lock to the number under which the handle goes from now on.
  pub reconnect-Restored :
      (conn : ℕ) (s : RemoteFs L) (fh : ℕ) (old : OpenState)
      → is_attached (out.reply s.sent s.replayed conn (Request.attach s.export)) ≡ true
      → get fh s.open_files ≡ some old
      → ((reconnect out conn s).conn ≡ conn)
        × (new : OpenState) × (get fh (reconnect out conn s).open_files ≡ some new)
        × Restored out s.sent conn old new
  reconnect-Restored conn s fh old attached there =
      let (swapped, before, new) = get-reconnect conn s fh old attached there in
      (
        swapped,
        (reopen out s.sent conn old before).0,
        new,
        reopen-Restored out s.sent conn old before,
      )
