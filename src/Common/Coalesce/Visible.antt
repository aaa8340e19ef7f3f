-- ===== src/Common/Coalesce/Visible.antt =====
-- Excluded paths never leave the coalescer.
use mathlib.Core.Path.{subst}
use alloyfs.Base.{
  ℕ, ◌≡◌, refl, Bool, true, false, Option, none, some, List, [], ◌∷◌, map, All, All-append, arith,
  inl, inr, Bool-cases, Option-cases,
}
use alloyfs.Base.Text.{text_eq}
use alloyfs.Base.Table.{Table, get, remove}
use alloyfs.Base.Table.Pairs.{AllPairs, get-AllPairs, insert-AllPairs, remove-AllPairs}
use alloyfs.Proto.Path.{RelPath}
use alloyfs.Proto.Messages.{
  EventKind, created, modified, attr_changed, removed, renamed_from, resync_required,
}
use alloyfs.Common.Exclude.{Globset, ExcludeSet, is_excluded}
use alloyfs.Common.Coalesce.Events.{PathBuf, RenameMode, NotifyKind, Event}
use alloyfs.Common.Coalesce.{
  Coalescer, Pending, new, merge, kind_of, rel_of, has, without_halves, put_pending, drain_renames,
  insert_sorted, sort_by_path, event_of, take_batch, push, push_all, pair, ingest_rename, ingest,
  ingest_all,
}

-- Not one of the two kinds that name another path or none.
abbrev pub is_plain : EventKind → Bool
is_plain (renamed_from t) = false
is_plain resync_required = false
is_plain _ = true

abbrev plain_option : Option EventKind → Bool
plain_option none = true
plain_option (some k) = is_plain k

merge-plain :
    (o : Option EventKind) (k : EventKind)
    → plain_option o ≡ true
    → is_plain k ≡ true
    → plain_option (merge o k) ≡ true
unfolding merge
merge-plain none k h p = p
merge-plain (some created) (renamed_from t) h p = cc
merge-plain (some _) _ h p = ground arith

-- What a batch may hold: an event on paths that are not excluded.
abbrev pub IsShown : Globset → ExcludeSet → RelPath × EventKind → Type 0
IsShown lib x (path, renamed_from t) =
    (is_excluded lib x path ≡ false) × (is_excluded lib x t ≡ false)
IsShown lib x (path, kind) = is_excluded lib x path ≡ false

module _ (lib : Globset) where
  abbrev IsClean : ExcludeSet → RelPath → Pending → Type 0
  IsClean x path p = (is_excluded lib x path ≡ false) × (is_plain p.kind ≡ true)

  abbrev Shows : ExcludeSet → RelPath × RelPath → Type 0
  Shows x (f, t) = (is_excluded lib x f ≡ false) × (is_excluded lib x t ≡ false)

  record Hides (x : ExcludeSet) (co : Coalescer) : Type 0 where
    exclude : co.exclude ≡ x
    pending : AllPairs (IsClean x) co.pending
    renames : All (Shows x) co.renames

  kind-clean :
      (x : ExcludeSet) (path : RelPath) (t : Table RelPath Pending)
      → AllPairs (IsClean x) t
      → plain_option (kind_of (get path t)) ≡ true
  kind-clean x path t h = elim (Option-cases (get path t)) [
    | inl e ↦ rw e
    | inr (p, e) ↦ rw e (get-AllPairs (IsClean x) path p t h e).1
  ]

  put-IsClean :
      (x : ExcludeSet) (path : RelPath) (now : ℕ) (o : Option EventKind) (t : Table RelPath Pending)
      → is_excluded lib x path ≡ false
      → plain_option o ≡ true
      → AllPairs (IsClean x) t
      → AllPairs (IsClean x) (put_pending path now o t)
  unfolding put_pending
  put-IsClean x path now none t e p h = remove-AllPairs (IsClean x) path t h
  put-IsClean x path now (some k) t e p h = insert-AllPairs (IsClean x) path _ t (e, p) h

  push-Hides :
      (x : ExcludeSet) (now : ℕ) (co : Coalescer) (path : RelPath) (k : EventKind)
      → is_plain k ≡ true
      → Hides x co
      → Hides x (push lib now co path k)
  unfolding push
  push-Hides x now co path k p h = elim (Bool-cases (is_excluded lib co.exclude path)) [
    | inl hidden ↦ rw hidden h
    | inr shown ↦ rw shown (record {
      exclude = h.exclude;
      pending =
          put-IsClean x path now _ co.pending
            (subst (λ y. is_excluded lib y path ≡ false) h.exclude shown)
            (merge-plain (kind_of (get path co.pending)) k (kind-clean x path co.pending h.pending)
              p)
            h.pending;
      renames = h.renames;
    })
  ]

  push_all-Hides :
      (x : ExcludeSet) (now : ℕ) (co : Coalescer) (ps : List PathBuf) (k : EventKind)
      → is_plain k ≡ true
      → Hides x co
      → Hides x (push_all lib now co ps k)
  unfolding push_all
  push_all-Hides x now co [] k p h = h
  push_all-Hides x now co (q ∷ ps) k p h = elim (Option-cases (rel_of co.root q)) [
    | inl e ↦ rw (e, push_all) (push_all-Hides x now co ps k p h)
    | inr (rel, e) ↦
        rw (e, push_all)
          (push_all-Hides x now (push lib now co rel k) ps k p (push-Hides x now co rel k p h))
  ]

  without_halves-IsClean :
      (x : ExcludeSet) (f t : RelPath) (pending : Table RelPath Pending)
      → AllPairs (IsClean x) pending
      → AllPairs (IsClean x) (without_halves f t pending)
  unfolding without_halves
  without_halves-IsClean x f t pending h = ground (
    arith,
    remove-AllPairs (IsClean x) f pending h,
    remove-AllPairs (IsClean x) t pending h,
    remove-AllPairs (IsClean x) t (remove f pending),
  )

  pair-Hides :
      (x : ExcludeSet) (now : ℕ) (co : Coalescer) (f t : RelPath)
      → Hides x co
      → Hides x (pair lib now co f t)
  unfolding pair
  pair-Hides x now co f t h = elim (Bool-cases (is_excluded lib co.exclude f)) [
    | inl hf ↦ elim (Bool-cases (is_excluded lib co.exclude t)) [
      | inl ht ↦ rw (hf, ht) h
      | inr ht ↦ rw (hf, ht) (push-Hides x now co t created refl h)
    ]
    | inr hf ↦ elim (Bool-cases (is_excluded lib co.exclude t)) [
      | inl ht ↦ rw (hf, ht) (push-Hides x now co f removed refl h)
      | inr ht ↦
          rw (hf, ht)
            (record {
              exclude = h.exclude;
              pending = without_halves-IsClean x f t co.pending h.pending;
              renames =
                  All-append (Shows x) co.renames ((f, t) ∷ []) h.renames
                    (subst (λ y. All (Shows y) ((f, t) ∷ [])) h.exclude ((hf, ht), tt));
            })
    ]
  ]

  drain-IsClean :
      (x : ExcludeSet) (rs : List (RelPath × RelPath)) (pending : Table RelPath Pending)
      → All (Shows x) rs
      → AllPairs (IsClean x) pending
      → All (IsShown lib x) (drain_renames rs pending).0
        × AllPairs (IsClean x) (drain_renames rs pending).1
  unfolding drain_renames
  drain-IsClean x [] pending hr hp = (tt, hp)
  drain-IsClean x ((f, t) ∷ rs) pending hr hp =
      let (batch, rest) =
        drain-IsClean x rs (without_halves f t pending) hr.1
          (without_halves-IsClean x f t pending hp) in
      ((hr.0, batch), rest)

  insert_sorted-IsClean :
      (x : ExcludeSet) (path : RelPath) (p : Pending) (t : Table RelPath Pending)
      → IsClean x path p
      → AllPairs (IsClean x) t
      → AllPairs (IsClean x) (insert_sorted (path, p) t)
  unfolding insert_sorted
  insert_sorted-IsClean x path p [] c h = (c, tt)
  insert_sorted-IsClean x path p ((q, y) ∷ t) c h =
      ground (arith, insert_sorted-IsClean x path p t c h.1)

  sort-IsClean :
      (x : ExcludeSet) (t : Table RelPath Pending)
      → AllPairs (IsClean x) t
      → AllPairs (IsClean x) (sort_by_path t)
  unfolding sort_by_path
  sort-IsClean x [] h = tt
  sort-IsClean x ((path, p) ∷ t) h = insert_sorted-IsClean x path p _ h.0 (sort-IsClean x t h.1)

  IsShown-kind :
      (x : ExcludeSet) (path : RelPath) (k : EventKind)
      → is_excluded lib x path ≡ false
      → is_plain k ≡ true
      → IsShown lib x (path, k)
  IsShown-kind x path (renamed_from t) e p = cc
  IsShown-kind x path created e p = e
  IsShown-kind x path _ e p = e

  map-IsShown :
      (x : ExcludeSet) (t : Table RelPath Pending)
      → AllPairs (IsClean x) t
      → All (IsShown lib x) (map event_of t)
  map-IsShown x [] h = tt
  map-IsShown x ((path, p) ∷ t) h = (IsShown-kind x path p.kind h.0.0 h.0.1, map-IsShown x t h.1)

  ingest_rename-Hides :
      (x : ExcludeSet) (now : ℕ) (co : Coalescer) (mode : RenameMode) (ps : List PathBuf)
      → Hides x co
      → Hides x (ingest_rename lib now co mode ps)
  unfolding ingest_rename
  ingest_rename-Hides x now co RenameMode.both (p ∷ q ∷ []) h =
      elim (Option-cases (rel_of co.root p)) [
        | inl e ↦ rw (e, ingest_rename) h
        | inr (f, e) ↦ elim (Option-cases (rel_of co.root q)) [
          | inl e' ↦ rw (e, ingest_rename) (rw (e', ingest_rename) h)
          | inr (t, e') ↦ rw (e, ingest_rename) (rw (e', ingest_rename) (pair-Hides x now co f t h))
        ]
      ]
  ingest_rename-Hides x now co RenameMode.from (p ∷ []) h = elim (Option-cases (rel_of co.root p)) [
    | inl e ↦ rw (e, ingest_rename) h
    | inr (f, e) ↦
        rw (e, ingest_rename)
          (elim (Bool-cases (has f co.renamed_from)) [
            | inl old ↦ rw old h
            | inr new' ↦ rw new' (push-Hides x now co f removed refl h)
          ])
  ]
  ingest_rename-Hides x now co RenameMode.to (p ∷ []) h = elim (Option-cases (rel_of co.root p)) [
    | inl e ↦ rw (e, ingest_rename) h
    | inr (t, e) ↦
        rw (e, ingest_rename)
          (elim (Bool-cases (has t co.renamed_to)) [
            | inl old ↦ rw old h
            | inr new' ↦ rw new' (push-Hides x now co t created refl h)
          ])
  ]
  ingest_rename-Hides x now co mode ps h = push_all-Hides x now co ps modified refl h

  ingest_kind-Hides :
      (x : ExcludeSet) (now : ℕ) (co : Coalescer) (kind : NotifyKind) (ps : List PathBuf)
      → Hides x co
      → Hides x (ingest lib now co (record { kind = kind; paths = ps }))
  unfolding ingest
  ingest_kind-Hides x now co NotifyKind.create ps h = push_all-Hides x now co ps created refl h
  ingest_kind-Hides x now co (NotifyKind.modify_name mode) ps h =
      ingest_rename-Hides x now co mode ps h
  ingest_kind-Hides x now co NotifyKind.modify_metadata ps h =
      push_all-Hides x now co ps attr_changed refl h
  ingest_kind-Hides x now co NotifyKind.modify_other ps h =
      push_all-Hides x now co ps modified refl h
  ingest_kind-Hides x now co NotifyKind.remove ps h = push_all-Hides x now co ps removed refl h
  ingest_kind-Hides x now co _ ps h = h

  ingest_all-Hides :
      (x : ExcludeSet) (co : Coalescer) (es : List (ℕ × Event))
      → Hides x co
      → Hides x (ingest_all lib co es)
  unfolding ingest_all
  ingest_all-Hides x co [] h = h
  ingest_all-Hides x co ((now, e) ∷ es) h =
      ingest_all-Hides x (ingest lib now co e) es (ingest_kind-Hides x now co e.kind e.paths h)

  -- Whatever raw events come in, the batch names no excluded path: neither as the path of an event
  -- nor as the target of a rename.
  pub take_batch-IsShown :
      (root : PathBuf) (x : ExcludeSet) (es : List (ℕ × Event))
      → All (IsShown lib x) (take_batch (ingest_all lib (new root x) es)).0
  unfolding take_batch
  take_batch-IsShown root x es =
      let h =
        ingest_all-Hides x (new root x) es
          (unfold new in record { exclude = refl; pending = tt; renames = tt }) in
      let (batch, items) = drain-IsClean x _ _ h.renames h.pending in
      All-append (IsShown lib x) _ _ batch (map-IsShown x _ (sort-IsClean x _ items))
