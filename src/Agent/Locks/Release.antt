-- ===== src/Agent/Locks/Release.antt =====
-- What `lock`, `unlock` and `release_session` leave of the holds and the waits.
use mathlib.Core.Path.{subst}
use alloyfs.Base.{
  ℕ, ◌+◌, ◌≡◌, ◌≢◌, refl, sym, length-map, ap, ◌↔◌, inl, inr, Bool, true, not, List, [], ◌∷◌, ◌++◌,
  length, length-append, length-retain-le, retain, map, All, ◌∙◌, retain-append, All-retain_test,
  All-append_right, ◌==◌, arith, if◌then◌else◌, Bool-cases, Option-cases,
}
use alloyfs.Base.Text.{text_eq}
use alloyfs.Base.Table.{get, get-insert_self, get-insert_ne, get-remove_self, get-remove_ne}
use alloyfs.Base.Table.Values.{AllValues}
use alloyfs.Proto.Path.{RelPath}
use alloyfs.Proto.Messages.{LockKind}
use alloyfs.Agent.Locks.{
  Holder, Entry, LockManager, is_idle, put_back, compatible, is_handle, or_default, taken,
  attempt_entry, attempt, unlock_entry, unlock, release_entry, release_session, released_of,
}
use alloyfs.Agent.Locks.Exclusion.{holds, holds-released}
use alloyfs.Agent.Locks.Waking.{wake_waiters-Wakes}

-- The holders of a path; a path without an entry has none.
abbrev pub holders_at : RelPath → LockManager → List Holder
holders_at path m = (or_default (get path m)).holders

-- The holders of a path but for one handle.
abbrev pub others_at : RelPath → ℕ → ℕ → LockManager → List Holder
others_at path s f m = retain (λ h. not (is_handle s f h)) (holders_at path m)

-- One pass of `lock` takes the lock exactly when it fits beside the other handles' holds. The holds
-- of the other handles stay, the handle's earlier hold is given up in every case, and what it then
-- holds is the new lock if it was taken, and nothing if it was refused or parked.
pub attempt_lem :
    (m : LockManager) (path : RelPath) (s f : ℕ) (kind : LockKind) (wait : Bool) (ticket : ℕ)
    → let others = others_at path s f m in
      let after = attempt m path s f kind wait ticket in
      ((after.1 ≡ taken) ↔ (compatible others kind ≡ true))
      × (holders_at path after.0 ≡ (
          if compatible others kind
          then others ++ record { session = s; fh = f; kind = kind } ∷ []
          else others))
      × ((j : RelPath) → path ≢ j → get j after.0 ≡ get j m)
unfolding attempt attempt_entry
attempt_lem m path s f kind wait ticket = (
  ground arith,
  ground (
    arith,
    get-insert_self path (attempt_entry (or_default (get path m)) s f kind wait ticket).0 m,
  ),
  λ j h. get-insert_ne path j _ m h,
)

holders-put_back :
    (path : RelPath) (e : Entry) (m : LockManager) → holders_at path (put_back path e m) ≡ e.holders
holders-put_back path e m = ground (arith, get-remove_self path m, get-insert_self path e m)

get-put_back_ne :
    (path j : RelPath) (e : Entry) (m : LockManager)
    → path ≢ j
    → get j (put_back path e m) ≡ get j m
get-put_back_ne path j e m h = elim (Bool-cases (is_idle e)) [
  | inl idle ↦ rw (idle, get-remove_ne path j m h)
  | inr busy ↦ rw (busy, get-insert_ne path j e m h)
]

holders-unlock :
    (m : LockManager) (path : RelPath) (s f : ℕ)
    → holders_at path (unlock m path s f).0 ≡ others_at path s f m
unfolding unlock unlock_entry
holders-unlock m path s f = elim (Option-cases (get path m)) [
  | inl e ↦ ground arith
  | inr (x, e) ↦
      rw (e, unlock)
        (holders-put_back path (unlock_entry x s f).0 m
          ∙ ap (λ o. retain (λ h. not (is_handle s f h)) (or_default o).holders) (sym e))
]

get-unlock_ne :
    (m : LockManager) (path j : RelPath) (s f : ℕ)
    → path ≢ j
    → get j (unlock m path s f).0 ≡ get j m
unfolding unlock unlock_entry
get-unlock_ne m path j s f h = elim (Option-cases (get path m)) [
  | inl e ↦ rw (e, unlock)
  | inr (x, e) ↦ rw (e, unlock) (get-put_back_ne path j _ m h)
]

-- `unlock` takes exactly the handle's own hold away, so that it holds nothing, keeps the holds of
-- the other handles, and changes no other path.
pub unlock_lem :
    (m : LockManager) (path : RelPath) (s f : ℕ)
    → (holders_at path (unlock m path s f).0 ≡ others_at path s f m)
      × (holds s f (holders_at path (unlock m path s f).0) ≡ 0)
      × ((j : RelPath) → path ≢ j → get j (unlock m path s f).0 ≡ get j m)
unlock_lem m path s f = (
  holders-unlock m path s f,
  rw (holders-unlock m path s f) (holds-released s f (holders_at path m)),
  λ j h. get-unlock_ne m path j s f h,
)

-- All locks that are held, with their paths.
abbrev pub all_holds : LockManager → List (RelPath × Holder)
all_holds [] = []
all_holds ((path, e) ∷ m) = map (λ h. (path, h)) e.holders ++ all_holds m

abbrev pub of_others : ℕ → Holder → Bool
of_others s h = not (h.session == s)

abbrev pub hold_of_others : ℕ → RelPath × Holder → Bool
hold_of_others s (path, h) = of_others s h

retain-map_holds :
    (s : ℕ) (path : RelPath) (hs : List Holder)
    → retain (hold_of_others s) (map (λ h. (path, h)) hs)
      ≡ map (λ h. (path, h)) (retain (of_others s) hs)
retain-map_holds s path [] = refl
retain-map_holds s path (h ∷ hs) = ground (arith, retain-map_holds s path hs)

-- No waiter of the session.
abbrev pub NoWaiter : ℕ → Entry → Type 0
NoWaiter s e = All (λ w. not (w.session == s) ≡ true) e.waiters

NoWaiter-release : (s : ℕ) (e : Entry) → NoWaiter s (release_entry s e).0
unfolding release_entry
NoWaiter-release s e =
    let others = retain (of_others s) e.holders in
    let queue = retain (λ w. not (w.session == s)) e.waiters in
    let w = wake_waiters-Wakes others queue in
    All-append_right _ w.front _ (subst (All _) w.in_order (All-retain_test _ e.waiters))

all_holds-idle :
    (path : RelPath) (e : Entry) (m : LockManager)
    → all_holds (if is_idle e then m else (path, e) ∷ m)
      ≡ map (λ h. (path, h)) e.holders ++ all_holds m
all_holds-idle path e m = ground arith

all_holds-release :
    (s : ℕ) (m : LockManager)
    → all_holds (release_session s m).0 ≡ retain (hold_of_others s) (all_holds m)
unfolding release_session
all_holds-release s [] = refl
all_holds-release s ((path, e) ∷ m) =
    rw
      (
        retain-append (hold_of_others s) (map (λ h. (path, h)) e.holders) (all_holds m),
        retain-map_holds s path e.holders,
        ← all_holds-release s m,
      )
      (all_holds-idle path (release_entry s e).0 (release_session s m).0
        ∙ (unfold release_entry in refl))

released_lem :
    (s : ℕ) (e : Entry) → released_of s e + length (release_entry s e).0.holders ≡ length e.holders
unfolding release_entry
released_lem s e = omega (arith, length-retain-le {0} (of_others s) e.holders)

length-release :
    (s : ℕ) (m : LockManager)
    → (release_session s m).1 + length (all_holds (release_session s m).0) ≡ length (all_holds m)
unfolding release_session
length-release s [] = refl
length-release s ((path, e) ∷ m) =
    rw (all_holds-idle path (release_entry s e).0 (release_session s m).0) (
      omega (
        arith,
        length-release s m,
        released_lem s e,
        length-append (map (λ h. (path, h)) (release_entry s e).0.holders)
            (all_holds (release_session s m).0),
        length-append (map (λ h. (path, h)) e.holders) (all_holds m),
        length-map {B = RelPath × Holder} (λ h. (path, h)) e.holders,
        length-map {B = RelPath × Holder} (λ h. (path, h)) (release_entry s e).0.holders,
      ))

NoWaiter-release_session :
    (s : ℕ) (m : LockManager) → AllValues (NoWaiter s) (release_session s m).0
unfolding release_session
NoWaiter-release_session s [] = tt
NoWaiter-release_session s ((path, e) ∷ m) = elim (Bool-cases (is_idle (release_entry s e).0)) [
  | inl idle ↦ rw idle (NoWaiter-release_session s m)
  | inr busy ↦ rw busy (NoWaiter-release s e, NoWaiter-release_session s m)
]

-- `release_session` takes away the session's holds on every path and no other, takes away all its
-- waits, and returns the number of holds that it took.
pub release_session_lem :
    (s : ℕ) (m : LockManager)
    → let after = release_session s m in
      (all_holds after.0 ≡ retain (hold_of_others s) (all_holds m))
      × (after.1 + length (all_holds after.0) ≡ length (all_holds m))
      × AllValues (NoWaiter s) after.0
release_session_lem s m = (all_holds-release s m, length-release s m, NoWaiter-release_session s m)
