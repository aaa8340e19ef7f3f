-- ===== src/Client/Remote/Reads/Fetched.antt =====
-- The blocks that a read gathers are blocks of the file.
use alloyfs.Base.{
  ℕ, zero, suc, ◌+◌, ◌*◌, ◌≤◌, ◌<◌, ◌≡◌, refl, false, Option, none, some, List, [], ◌∷◌, ◌++◌, ◌⊎◌,
  inl, inr, In, arith, nat_eq, is_none,
}
use mathlib.Core.Path.{subst}
use native.Mathlib.Decide.{ℕ_discrete}
use alloyfs.Base.Table.{Table, get, insert, get-insert, get-insert_self}
use alloyfs.Base.Table.Entries.{AllEntries, insert-AllEntries}
use alloyfs.Proto.Errors.{ok}
use alloyfs.Proto.Messages.{Bytes, Request, Response, data_chunk}
use alloyfs.Client.Effect.{Ends, Ends-bind, Ends-map}
use alloyfs.Client.Local.{LocalTree}
use alloyfs.Client.ReadAhead.{ReadAhead, Task, take_task, retained, retain_block, put}
use alloyfs.Client.ReadAhead.Window.{
  Holds, IsOutcome, take_task-Holds, take_task-IsOutcome, find_block-AllEntries, put-Holds,
  retain_block-Holds,
}
use alloyfs.Client.Remote.{OpenState, answered, Outside, Sent}
use alloyfs.Client.Remote.Calls.{Mount, send, resume}
use alloyfs.Client.Remote.Files.{update_handle}
use alloyfs.Client.Remote.Reads.{
  fetched, fetch_block, prefetch, collect, pick, sort_out, fetch_all, all_ready, retain_all, ra_of,
  put_ra, set_ra,
}

-- Without a reconnection, each block is what `blocks` says, however often it is asked for.
pub record Serves (out : Outside) (server : ℕ) (blocks : ℕ → Bytes) : Type 0 where
  pub steady : (sent replayed : List Sent) → out.redialled sent replayed ≡ none
  pub serves :
      (sent replayed : List Sent) (conn b : ℕ)
      → out.reply sent replayed conn (Request.read server (b * data_chunk) data_chunk)
        ≡ answered (ok (Response.bytes (blocks b)))

module _ (t : LocalTree) (out : Outside) (fh server : ℕ) (blocks : ℕ → Bytes)
    (outside : Serves out server blocks) where
  abbrev pub IsBlock : ℕ → Bytes → Type 0
  IsBlock b bytes = bytes ≡ blocks b

  -- The handle is open, and holds blocks of the file alone.
  pub record IsOpen (s : Mount t out) : Type 0 where
    pub state : OpenState
    pub there : get fh s.open_files ≡ some state
    pub holds : Holds IsBlock state.ra

  pub send-IsOpen :
      (conn : ℕ) (req : Request) (s : Mount t out) → IsOpen s → IsOpen (send t out conn req s).1
  unfolding send
  send-IsOpen conn req s h =
      rw (outside.steady ((conn, req) ∷ s.sent) s.replayed, resume)
        (record { state = h.state; there = h.there; holds = h.holds })

  pub ra_of-Holds : (s : Mount t out) → IsOpen s → Holds IsBlock (ra_of t out fh s)
  ra_of-Holds s h = rw h.there h.holds

  pub update-IsOpen :
      (f : OpenState → OpenState) (s : Mount t out) (h : IsOpen s)
      → Holds IsBlock (f h.state).ra
      → IsOpen (update_handle t out fh f s)
  unfolding update_handle
  update-IsOpen f s h holds =
      rw (h.there, update_handle)
        (record {
          state = f h.state;
          there = get-insert_self fh (f h.state) s.open_files;
          holds = holds;
        })

  pub put_ra-IsOpen :
      (ra : ReadAhead) (s : Mount t out)
      → Holds IsBlock ra
      → IsOpen s
      → IsOpen (put_ra t out fh ra s)
  put_ra-IsOpen ra s holds h = update-IsOpen (set_ra t out ra) s h holds

  abbrev Fetched : ℕ → Option Bytes → Mount t out → Type 0
  Fetched b bytes s = (bytes ≡ some (blocks b)) × IsOpen s

  fetch_block-Fetched :
      (conn b : ℕ) (s : Mount t out)
      → IsOpen s
      → Ends (Fetched b) (fetch_block t out conn server b s)
  unfolding fetch_block send fetched
  fetch_block-Fetched conn b s h = (
    rw (outside.serves s.sent s.replayed conn b) refl,
    send-IsOpen conn (Request.read server (b * data_chunk) data_chunk) s h,
  )

  abbrev pub StaysOpen : {A : Type 0} → A → Mount t out → Type 0
  StaysOpen a s = IsOpen s

  IsOutcome-of :
      (b : ℕ) (bytes : Option Bytes) → bytes ≡ some (blocks b) → IsOutcome IsBlock b bytes
  IsOutcome-of b none e = tt
  IsOutcome-of b (some bytes) e = ground arith

  pub prefetch-IsOpen :
      (bs : List ℕ) (s : Mount t out)
      → IsOpen s
      → Ends (StaysOpen {A = Unit}) (prefetch t out fh server bs s)
  unfolding prefetch
  prefetch-IsOpen [] s h = h
  prefetch-IsOpen (b ∷ bs) s h =
      Ends-bind (λ conn s'. IsOpen s') _ _ _ s h
        λ conn s1 h1.
          Ends-bind (Fetched b) _ _ _ s1 (fetch_block-Fetched conn b s1 h1) λ task s2 h2.
            Ends-bind (λ u s'. IsOpen s') _ _ _ s2
              (put_ra-IsOpen (put (ra_of t out fh s2) b task) s2
                (put-Holds IsBlock (ra_of t out fh s2) b task (IsOutcome-of b task h2.0)
                  (ra_of-Holds s2 h2.1))
                h2.1)
              λ u s3 h3. prefetch-IsOpen bs s3 h3

  -- A block is at hand, or on the list of those to fetch.
  abbrev pub Has : ℕ → Table ℕ Bytes × List ℕ → Type 0
  Has k (ready, need) = (is_none (get k ready) ≡ false) ⊎ In k need

  pub have_insert :
      (b k : ℕ) (bytes : Bytes) (ready : Table ℕ Bytes)
      → is_none (get k ready) ≡ false
      → is_none (get k (insert b bytes ready)) ≡ false
  have_insert b k bytes ready h = ground (arith, get-insert b k bytes ready)

  In-append_left : (k : ℕ) (xs ys : List ℕ) → In k xs → In k (xs ++ ys)
  In-append_left k [] ys h = absurd h
  In-append_left k (x ∷ xs) ys (inl e) = inl e
  In-append_left k (x ∷ xs) ys (inr h) = inr (In-append_left k xs ys h)

  In-append_last : (k : ℕ) (xs : List ℕ) → In k (xs ++ k ∷ [])
  In-append_last k [] = inl refl
  In-append_last k (x ∷ xs) = inr (In-append_last k xs)

  abbrev IsPicked : ℕ → Option Bytes → Type 0
  IsPicked b none = Unit
  IsPicked b (some bytes) = IsBlock b bytes

  pick_retained :
      (b : ℕ) (r : Option Bytes) (ra : ReadAhead)
      → ((bytes : Bytes) → r ≡ some bytes → IsBlock b bytes)
      → Holds IsBlock ra
      → IsPicked b (pick t out r ra b).0 × Holds IsBlock (pick t out r ra b).1
  pick_retained b (some bytes) ra found h = (found bytes refl, h)
  pick_retained b none ra found h = (
    landed_lem (take_task ra b).0 (λ bytes e. take_task-IsOutcome IsBlock ra b bytes h e),
    take_task-Holds IsBlock ra b h,
  )
    where
      landed_lem :
          (task : Option Task)
          → ((bytes : Bytes) → task ≡ some (some bytes) → IsBlock b bytes)
          → IsPicked b (elim task [ none ↦ none | some x ↦ x ])
      landed_lem none f = tt
      landed_lem (some none) f = tt
      landed_lem (some (some bytes)) f = f bytes refl

  sort_out_lem :
      (bytes : Option Bytes) (b : ℕ) (found : Table ℕ Bytes × List ℕ)
      → IsPicked b bytes
      → AllEntries IsBlock found.0
      → AllEntries IsBlock (sort_out t out bytes b found).0
        × Has b (sort_out t out bytes b found)
        × ((k : ℕ) → Has k found → Has k (sort_out t out bytes b found))
  sort_out_lem (some bytes) b (ready, need) p h = (
    insert-AllEntries IsBlock b bytes ready p h,
    inl (rw (get-insert_self b bytes ready) refl),
    λ k has. elim has [
      | inl there ↦ inl (have_insert b k bytes ready there)
      | inr wanted ↦ inr wanted
    ],
  )
  sort_out_lem none b (ready, need) p h = (
    h,
    inr (In-append_last b need),
    λ k has. elim has [
      | inl there ↦ inl there
      | inr wanted ↦ inr (In-append_left k need (b ∷ []) wanted)
    ],
  )

  abbrev pub Collected :
      (count b : ℕ) → Table ℕ Bytes × List ℕ → Table ℕ Bytes × List ℕ → Mount t out → Type 0
  Collected count b found found' s =
      IsOpen s
      × AllEntries IsBlock found'.0
      × ((k : ℕ) → Has k found ⊎ ((b ≤ k) × (k < b + count)) → Has k found')

  widen :
      (k count b : ℕ) (found found1 : Table ℕ Bytes × List ℕ)
      → Has b found1
      → ((j : ℕ) → Has j found → Has j found1)
      → Has k found ⊎ ((b ≤ k) × (k < b + suc count))
      → Has k found1 ⊎ ((b + 1 ≤ k) × (k < b + 1 + count))
  widen k count b found found1 here others (inl there) = inl (others k there)
  widen k count b found found1 here others (inr (lo, hi)) = elim (ℕ_discrete b k) [
    | yes e ↦ inl (subst (λ j. Has j found1) e here)
    | no ne ↦ inr (omega arith, omega arith)
  ]

  pub collect-Collected :
      (count b : ℕ) (found : Table ℕ Bytes × List ℕ) (s : Mount t out)
      → IsOpen s
      → AllEntries IsBlock found.0
      → Ends (Collected count b found) (collect t out fh count b found s)
  unfolding collect retained
  collect-Collected zero b found s h blocks_at =
      (h, blocks_at, λ k has. elim has [ inl there ↦ there | inr (lo, hi) ↦ absurd (omega arith) ])
  collect-Collected (suc count) b found s h blocks_at =
      let ra = ra_of t out fh s in
      let picked = pick t out (retained ra b) ra b in
      let (p, holds) =
        pick_retained b (retained ra b) ra
          (λ bytes e. find_block-AllEntries IsBlock b bytes ra.recent (ra_of-Holds s h).kept e)
          (ra_of-Holds s h) in
      Ends-bind (λ x s'. IsPicked b x.0 × Holds IsBlock x.1 × IsOpen s') _ _ _ s (p, holds, h)
        λ x s1 q.
          let (all, here, others) = sort_out_lem x.0 b found q.0 blocks_at in
          Ends-bind (λ u s'. IsOpen s') _ _ _ s1 (put_ra-IsOpen x.1 s1 q.1 q.2)
            λ u s2 h2.
              Ends-map (Collected count (b + 1) (sort_out t out x.0 b found))
                (Collected (suc count) b found) _
                (collect-Collected count (b + 1) (sort_out t out x.0 b found) s2 h2 all)
                λ found' s3 c. (c.0, c.1, λ k has. c.2 k (widen k count b found _ here others has))

  -- What the fetches of a list of blocks come to.
  abbrev pub all_fetched : List ℕ → List (ℕ × Option Bytes)
  all_fetched [] = []
  all_fetched (b ∷ bs) = (b, some (blocks b)) ∷ all_fetched bs

  pub fetch_all_lem :
      (conn : ℕ) (bs : List ℕ) (s : Mount t out)
      → IsOpen s
      → Ends
          (λ fetches s'. (fetches ≡ all_fetched bs) × IsOpen s')
          (fetch_all t out conn server bs s)
  unfolding fetch_all
  fetch_all_lem conn [] s h = (refl, h)
  fetch_all_lem conn (b ∷ bs) s h =
      Ends-bind (Fetched b) _ _ _ s (fetch_block-Fetched conn b s h) λ bytes s1 h1.
        Ends-bind (λ fetches s'. (fetches ≡ all_fetched bs) × IsOpen s') _ _ _ s1
          (fetch_all_lem conn bs s1 h1.1) λ rest s2 h2. (ground (arith, h1.0, h2.0), h2.1)

  abbrev pub added : List ℕ → Table ℕ Bytes → Table ℕ Bytes
  added [] ready = ready
  added (b ∷ bs) ready = added bs (insert b (blocks b) ready)

  pub all_ready_fetched :
      (bs : List ℕ) (ready : Table ℕ Bytes) → all_ready (all_fetched bs) ready ≡ ok (added bs ready)
  unfolding all_ready
  all_ready_fetched [] ready = refl
  all_ready_fetched (b ∷ bs) ready = all_ready_fetched bs (insert b (blocks b) ready)

  pub added-AllEntries :
      (bs : List ℕ) (ready : Table ℕ Bytes)
      → AllEntries IsBlock ready
      → AllEntries IsBlock (added bs ready)
  added-AllEntries [] ready h = h
  added-AllEntries (b ∷ bs) ready h =
      added-AllEntries bs (insert b (blocks b) ready)
        (insert-AllEntries IsBlock b (blocks b) ready refl h)

  pub have_added :
      (k : ℕ) (bs : List ℕ) (ready : Table ℕ Bytes)
      → Has k (ready, bs)
      → is_none (get k (added bs ready)) ≡ false
  have_added k [] ready (inl there) = there
  have_added k [] ready (inr wanted) = absurd wanted
  have_added k (b ∷ bs) ready (inl there) =
      have_added k bs (insert b (blocks b) ready) (inl (have_insert b k (blocks b) ready there))
  have_added k (b ∷ bs) ready (inr (inl e)) =
      have_added k bs (insert b (blocks b) ready)
        (inl (ground (arith, get-insert b k (blocks b) ready)))
  have_added k (b ∷ bs) ready (inr (inr wanted)) =
      have_added k bs (insert b (blocks b) ready) (inr wanted)

  pub retain_all-Holds :
      (ready : Table ℕ Bytes) (ra : ReadAhead)
      → AllEntries IsBlock ready
      → Holds IsBlock ra
      → Holds IsBlock (retain_all ready ra)
  unfolding retain_all
  retain_all-Holds [] ra all h = h
  retain_all-Holds ((b, bytes) ∷ ready) ra all h =
      retain_all-Holds ready (retain_block ra b bytes) all.1
        (retain_block-Holds IsBlock ra b bytes all.0 h)
