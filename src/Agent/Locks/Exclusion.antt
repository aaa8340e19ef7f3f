-- ===== src/Agent/Locks/Exclusion.antt =====
-- N shared holders or one exclusive holder, and one hold for each handle, in any order of calls.
use alloyfs.Base.{
  ℕ, ◌+◌, ◌≤◌, ◌≡◌, refl, ◌⊎◌, inl, inr, Bool, true, false, not, some, List, [], ◌∷◌, ◌++◌, length,
  retain, length-retain-le, all, arith, Option-cases, Bool-cases,
}
use alloyfs.Base.Text.{text_eq}
use alloyfs.Base.Table.{get}
use alloyfs.Base.Table.Values.{AllValues, get-AllValues, insert-AllValues, remove-AllValues}
use alloyfs.Proto.Path.{RelPath}
use alloyfs.Proto.Messages.{LockKind, shared, exclusive, lock_kind_beq}
use alloyfs.Agent.Locks.{
  Holder, Waiter, Entry, LockManager, default, is_idle, compatible, is_handle, or_default,
  attempt_entry, attempt, unlock_entry, unlock, put_back, release_entry, release_session, Call,
  attempts, unlocks, releases, step, run,
}

abbrev pub all_shared : List Holder → Bool
all_shared = all (λ h. lock_kind_beq h.kind shared)

-- Shared holders only, or a single holder.
abbrev pub Excludes : List Holder → Type 0
Excludes hs = (all_shared hs ≡ true) ⊎ (length hs ≤ 1)

-- How many holds a handle of a session has.
abbrev pub holds : ℕ → ℕ → List Holder → ℕ
holds session fh hs = length (retain (is_handle session fh) hs)

abbrev pub HoldsOnce : List Holder → Type 0
HoldsOnce hs = (session fh : ℕ) → holds session fh hs ≤ 1

pub record IsEntry (e : Entry) : Type 0 where
  pub excludes : Excludes e.holders
  pub once : HoldsOnce e.holders

all_shared-retain :
    (p : Holder → Bool) (hs : List Holder) → all_shared hs ≡ true → all_shared (retain p hs) ≡ true
all_shared-retain p [] h = refl
all_shared-retain p (x ∷ hs) h = ground (arith, all_shared-retain p hs)

Excludes-retain : (p : Holder → Bool) (hs : List Holder) → Excludes hs → Excludes (retain p hs)
Excludes-retain p hs (inl h) = inl (all_shared-retain p hs h)
Excludes-retain p hs (inr h) = inr (omega (arith, length-retain-le {0} p hs))

all_shared-append :
    (hs : List Holder) (h : Holder)
    → all_shared hs ≡ true
    → h.kind ≡ shared
    → all_shared (hs ++ h ∷ []) ≡ true
all_shared-append [] h a k = rw k
all_shared-append (x ∷ hs) h a k = ground (arith, all_shared-append hs h)

Excludes-taken :
    (hs : List Holder) (h : Holder) (kind : LockKind)
    → h.kind ≡ kind
    → compatible hs kind ≡ true
    → Excludes (hs ++ h ∷ [])
unfolding compatible
Excludes-taken hs h shared e c = inl (all_shared-append hs h c e)
Excludes-taken [] h exclusive e c = inr (omega arith)
Excludes-taken (x ∷ hs) h exclusive e c = cc

holds-retain :
    (s f : ℕ) (p : Holder → Bool) (hs : List Holder) → holds s f (retain p hs) ≤ holds s f hs
holds-retain s f p [] = omega arith
holds-retain s f p (x ∷ hs) = ground (arith, holds-retain s f p hs)

holds-append :
    (s f : ℕ) (hs : List Holder) (h : Holder)
    → holds s f (hs ++ h ∷ []) ≡ holds s f hs + holds s f (h ∷ [])
holds-append s f [] h = omega arith
holds-append s f (x ∷ hs) h = ground (arith, holds-append s f hs h)

-- The handle that is taken out holds nothing any more.
pub holds-released :
    (s f : ℕ) (hs : List Holder) → holds s f (retain (λ h. not (is_handle s f h)) hs) ≡ 0
holds-released s f [] = refl
holds-released s f (x ∷ hs) = ground (arith, holds-released s f hs)

IsEntry-default : IsEntry default
IsEntry-default = record { excludes = inl refl; once = λ s f. omega arith }

retained-IsEntry :
    (p : Holder → Bool) (e : Entry) (ws : List Waiter)
    → IsEntry e
    → IsEntry (record { holders = retain p e.holders; waiters = ws })
retained-IsEntry p e ws v = record {
  excludes = Excludes-retain p e.holders v.excludes;
  once = λ s f. omega (arith, holds-retain s f p e.holders, v.once s f);
}

once-taken :
    (hs : List Holder) (h : Holder) (s f : ℕ)
    → holds h.session h.fh hs ≡ 0
    → holds s f hs ≤ 1
    → holds s f (hs ++ h ∷ []) ≤ 1
once-taken hs h s f z o = ground (arith, holds-append s f hs h)

taken-IsEntry :
    (e : Entry) (s f : ℕ) (kind : LockKind)
    → IsEntry e
    → let others = retain (λ h. not (is_handle s f h)) e.holders in
      compatible others kind ≡ true
      → IsEntry (record e { holders = others ++ record { session = s; fh = f; kind = kind } ∷ [] })
taken-IsEntry e s f kind v c =
    let kept = retained-IsEntry (λ h. not (is_handle s f h)) e e.waiters v in
    let holder : Holder = record { session = s; fh = f; kind = kind } in
    record {
      excludes = Excludes-taken _ holder kind refl c;
      once = λ s' f'. once-taken _ holder s' f' (holds-released s f e.holders) (kept.once s' f');
    }

attempt_entry-IsEntry :
    (e : Entry) (s f : ℕ) (kind : LockKind) (wait : Bool) (ticket : ℕ)
    → IsEntry e
    → IsEntry (attempt_entry e s f kind wait ticket).0
unfolding attempt_entry
attempt_entry-IsEntry e s f kind true ticket v =
    elim (Bool-cases (compatible (retain (λ h. not (is_handle s f h)) e.holders) kind)) [
      | inl fits ↦ rw fits (taken-IsEntry e s f kind v fits)
      | inr held ↦ rw held (retained-IsEntry _ e _ v)
    ]
attempt_entry-IsEntry e s f kind false ticket v =
    elim (Bool-cases (compatible (retain (λ h. not (is_handle s f h)) e.holders) kind)) [
      | inl fits ↦ rw fits (taken-IsEntry e s f kind v fits)
      | inr held ↦ rw held (retained-IsEntry _ e _ v)
    ]

abbrev pub AllEntries : LockManager → Type 0
AllEntries = AllValues IsEntry

or_default-IsEntry :
    (path : RelPath) (m : LockManager) → AllEntries m → IsEntry (or_default (get path m))
or_default-IsEntry path m h = elim (Option-cases (get path m)) [
  | inl e ↦ rw e IsEntry-default
  | inr (x, e) ↦ rw e (get-AllValues IsEntry path x m h e)
]

put_back-AllEntries :
    (path : RelPath) (e : Entry) (m : LockManager)
    → IsEntry e
    → AllEntries m
    → AllEntries (put_back path e m)
put_back-AllEntries path e m v h = elim (Bool-cases (is_idle e)) [
  | inl idle ↦ rw idle (remove-AllValues IsEntry path m h)
  | inr busy ↦ rw busy (insert-AllValues IsEntry path e m v h)
]

unlock-AllEntries :
    (path : RelPath) (s f : ℕ) (m : LockManager) → AllEntries m → AllEntries (unlock m path s f).0
unfolding unlock unlock_entry
unlock-AllEntries path s f m h = elim (Option-cases (get path m)) [
  | inl e ↦ rw (e, unlock) h
  | inr (x, e) ↦
      rw (e, unlock)
        (put_back-AllEntries path _ m (retained-IsEntry _ x _ (get-AllValues IsEntry path x m h e))
          h)
]

release-AllEntries : (s : ℕ) (m : LockManager) → AllEntries m → AllEntries (release_session s m).0
unfolding release_session release_entry
release-AllEntries s [] h = tt
release-AllEntries s ((path, e) ∷ m) h = elim (Bool-cases (is_idle (release_entry s e).0)) [
  | inl idle ↦ rw idle (release-AllEntries s m h.1)
  | inr busy ↦ rw busy (retained-IsEntry _ e _ h.0, release-AllEntries s m h.1)
]

step-AllEntries : (m : LockManager) (c : Call) → AllEntries m → AllEntries (step m c)
unfolding step attempt
step-AllEntries m (attempts path s f kind wait ticket) h =
    insert-AllValues IsEntry path _ m
      (attempt_entry-IsEntry _ s f kind wait ticket (or_default-IsEntry path m h)) h
step-AllEntries m (unlocks path s f) h = unlock-AllEntries path s f m h
step-AllEntries m (releases s) h = release-AllEntries s m h

run-AllEntries : (m : LockManager) (cs : List Call) → AllEntries m → AllEntries (run m cs)
unfolding run
run-AllEntries m [] h = h
run-AllEntries m (c ∷ cs) h = run-AllEntries (step m c) cs (step-AllEntries m c h)

-- From no locks, after any calls of any sessions in any order: a path has shared holders only or a
-- single holder, and no handle of a session holds it twice.
pub run-IsEntry :
    (cs : List Call) (path : RelPath) (e : Entry) → get path (run [] cs) ≡ some e → IsEntry e
run-IsEntry cs path e g = get-AllValues IsEntry path e (run [] cs) (run-AllEntries [] cs tt) g
