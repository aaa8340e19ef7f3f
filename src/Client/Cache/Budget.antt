-- ===== src/Client/Cache/Budget.antt =====
-- What a commit does to the cache and its budget, and what a rename onto a cached file does not.
use alloyfs.Base.{
  ℕ, ◌+◌, ◌<◌, ◌≤◌, ◌≡◌, ◌≢◌, refl, Bool, true, false, not, ◌&&◌, none, some, List, [], ◌∷◌, ◌++◌,
  arith, ltb, leb, ◌⊎◌, inl, inr, Option-cases, Bool-cases,
}
use mathlib.Core.Path.{subst}
use alloyfs.Base.Text.{text_eq, text_beq_iff, strip_prefix}
use alloyfs.Base.Table.{get, insert, remove, get-remove, get-insert_ne, get-insert_self}
use alloyfs.Base.Table.Sums.{sum, sum-remove_le}
use alloyfs.Proto.Path.{RelPath, slash}
use alloyfs.Proto.Messages.{Attr}
use alloyfs.Client.Cache.{
  CacheEntry, CacheState, u64_size, wrapping_add, evict, victims, forget_entry, entry_for,
  put_entry, commit, rename, move_all, affected, moved_to,
}
use alloyfs.Client.Cache.Accounts.{
  IsCache, get-victims, get-evict_absent, evicted, forget_entry-IsCache, tick-IsCache,
  get-forget_entry, evict-IsCache, victims-Present, counted_le, size_of,
}

evict-subset :
    (budget extra : ℕ) (path : RelPath) (e : CacheEntry) (vs : List (RelPath × CacheEntry))
    (st : CacheState)
    → get path (evict budget extra vs st).entries ≡ some e
    → get path st.entries ≡ some e
unfolding evict
evict-subset budget extra path e [] st h = h
evict-subset budget extra path e ((q, f) ∷ vs) st h =
    ground
      (arith, evict-subset budget extra path e vs (evicted q f st), get-remove q path st.entries)

gone_first :
    (path q : RelPath) (f : CacheEntry) (budget extra : ℕ) (vs : List (RelPath × CacheEntry))
    (st : CacheState)
    → q ≡ path
    → get path (evict budget extra vs (evicted q f st)).entries ≡ none
gone_first path q f budget extra vs st same =
    get-evict_absent budget extra path vs (evicted q f st)
      (ground (arith, get-remove q path st.entries, text_beq_iff q path))

-- Either there is room, or no victim is left.
evict-room :
    (budget extra : ℕ) (vs : List (RelPath × CacheEntry)) (st : CacheState)
    → (leb (wrapping_add (evict budget extra vs st).total_bytes extra) budget ≡ true)
      ⊎ ((path : RelPath) → get path vs ≢ none → get path (evict budget extra vs st).entries ≡ none)
unfolding evict get
evict-room budget extra [] st = inr (λ path h. ground (arith, h refl))
evict-room budget extra ((q, f) ∷ vs) st =
    elim (Bool-cases (leb (wrapping_add st.total_bytes extra) budget)) [
      | inl fits ↦ inl (ground arith)
      | inr over ↦ elim (evict-room budget extra vs (evicted q f st)) [
        | inl room ↦ inl (ground arith)
        | inr gone ↦ inr (λ path h.
            ground (arith, gone path, gone_first path q f budget extra vs st, text_beq_iff q path))
      ]
    ]

-- What an eviction leaves behind if there is still no room is pinned.
evict-pinned :
    (budget extra : ℕ) (st : CacheState)
    → IsCache st
    → let after = evict budget extra (victims st.entries) st in
      (leb (wrapping_add after.total_bytes extra) budget ≡ true)
      ⊎ ((q : RelPath) (e : CacheEntry) → get q after.entries ≡ some e → e.pinned ≡ true)
evict-pinned budget extra st h = elim (evict-room budget extra (victims st.entries) st) [
  | inl room ↦ inl room
  | inr gone ↦ inr (λ q e there. ground (
    arith,
    gone q,
    evict-subset budget extra q e (victims st.entries) st there,
    (get-victims st.entries h.distinct).1 q,
    Bool-cases e.pinned,
  ))
]

abbrev pub start_of : RelPath → CacheState → CacheState
start_of path st = forget_entry path (record st { tick = st.tick + 1 })

start_of-other :
    (path q : RelPath) (e : CacheEntry) (st : CacheState)
    → get q (start_of path st).entries ≡ some e
    → get q st.entries ≡ some e
start_of-other path q e st h = elim (Option-cases (get path st.entries)) [
  | inl nothing ↦ ground arith
  | inr (old, there) ↦ ground (arith, get-remove path q st.entries)
]

-- The three ways in which a commit ends.
commit-cases :
    (budget : ℕ) (st : CacheState) (path : RelPath) (attr : Attr) (pinned : Bool)
    → let start = start_of path st in
      let e = entry_for attr pinned (st.tick + 1) in
      let shrunk = evict budget attr.size (victims start.entries) start in
      let after = commit budget st path attr pinned in
      ((leb (wrapping_add start.total_bytes attr.size) budget ≡ true)
        × (after ≡ put_entry path e start))
      ⊎ (((after ≡ put_entry path e shrunk)
            × ((ltb budget (wrapping_add shrunk.total_bytes attr.size)
                  && (not pinned && ltb budget attr.size))
                ≡ false))
          ⊎ ((after ≡ shrunk)
              × (ltb budget (wrapping_add shrunk.total_bytes attr.size) ≡ true)
              × (pinned ≡ false)
              × (budget < attr.size)))
unfolding commit
commit-cases budget st path attr pinned =
    let start = start_of path st in
    let shrunk = evict budget attr.size (victims start.entries) start in
    elim (Bool-cases (leb (wrapping_add start.total_bytes attr.size) budget)) [
      | inl fits ↦ inl (fits, ground arith)
      | inr full ↦
          inr
            (elim (Bool-cases (
              ltb budget (wrapping_add shrunk.total_bytes attr.size)
              && (not pinned && ltb budget attr.size))) [
                | inl refused ↦ inr (ground arith, ground arith, ground arith, ground arith)
                | inr put ↦ inl (ground arith, put)
              ])
    ]

evict-sum :
    (budget extra : ℕ) (vs : List (RelPath × CacheEntry)) (st : CacheState)
    → sum size_of (evict budget extra vs st).entries ≤ sum size_of st.entries
unfolding evict
evict-sum budget extra [] st = omega arith
evict-sum budget extra ((q, e) ∷ vs) st =
    ground (arith, evict-sum budget extra vs (evicted q e st), sum-remove_le size_of q st.entries)

start-sum :
    (path : RelPath) (st : CacheState)
    → sum size_of (start_of path st).entries ≤ sum size_of st.entries
start-sum path st = elim (Option-cases (get path st.entries)) [
  | inl nothing ↦ ground arith
  | inr (old, there) ↦ ground (arith, sum-remove_le size_of path st.entries)
]

-- A file that is not pinned and larger than the budget is refused, where no sum wraps.
large_refused :
    (budget : ℕ) (st : CacheState) (path : RelPath) (attr : Attr) (pinned : Bool)
    → IsCache st
    → sum size_of st.entries + attr.size < u64_size
    → pinned ≡ false
    → budget < attr.size
    → get path (commit budget st path attr pinned).entries ≡ none
large_refused budget st path attr pinned h small loose large =
    let start = start_of path st in
    let h0 =
      forget_entry-IsCache path (record st { tick = st.tick + 1 })
        (tick-IsCache (st.tick + 1) st h) in
    let vs = victims start.entries in
    let shrunk = evict budget attr.size vs start in
    let absent = get-forget_entry path (record st { tick = st.tick + 1 }) in
    let gone = get-evict_absent budget attr.size path vs start absent in
    let shrunk_le =
      counted_le shrunk (evict-IsCache budget attr.size vs start (victims-Present start h0) h0) in
    elim (commit-cases budget st path attr pinned) [
      | inl (fits, e) ↦
          let within : wrapping_add start.total_bytes attr.size ≤ budget = ground arith in
          absurd (omega (arith, counted_le start h0, start-sum path st))
      | inr (inl (e, taken)) ↦
          let within : wrapping_add shrunk.total_bytes attr.size ≤ budget = ground arith in
          absurd (omega (arith, shrunk_le, evict-sum budget attr.size vs start, start-sum path st))
      | inr (inr (e, over, loose, larger)) ↦ rw e gone
    ]

-- After a commit the cache is within its budget, or every other file in it is pinned. The file
-- itself is in it as its attributes say if it is pinned or not larger than the budget, and is not in
-- it if it is not pinned and larger, where the sizes of all files add up to less than 2 ^ 64; where
-- they do not, it is in it as its attributes say or, not pinned and larger, is not. No other file
-- comes in or changes.
pub commit_lem :
    (budget : ℕ) (st : CacheState) (path : RelPath) (attr : Attr) (pinned : Bool)
    → IsCache st
    → let after = commit budget st path attr pinned in
      ((leb after.total_bytes budget ≡ true)
        ⊎ ((q : RelPath) (e : CacheEntry)
            → path ≢ q
            → get q after.entries ≡ some e
            → e.pinned ≡ true))
      × ((get path after.entries ≡ some (entry_for attr pinned (st.tick + 1)))
          ⊎ ((get path after.entries ≡ none) × (pinned ≡ false) × (budget < attr.size)))
      × (sum size_of st.entries + attr.size < u64_size
          → pinned ≡ false
          → budget < attr.size
          → get path after.entries ≡ none)
      × ((q : RelPath) (e : CacheEntry)
          → path ≢ q
          → get q after.entries ≡ some e
          → get q st.entries ≡ some e)
unfolding commit
commit_lem budget st path attr pinned h =
    let refused = large_refused budget st path attr pinned h in
    let start = start_of path st in
    let e' = entry_for attr pinned (st.tick + 1) in
    let h0 =
      forget_entry-IsCache path (record st { tick = st.tick + 1 })
        (tick-IsCache (st.tick + 1) st h) in
    let vs = victims start.entries in
    let shrunk = evict budget attr.size vs start in
    let absent = get-forget_entry path (record st { tick = st.tick + 1 }) in
    let gone = get-evict_absent budget attr.size path vs start absent in
    elim (commit-cases budget st path attr pinned) [
      | inl (fits, e) ↦ rw e (
        inl fits,
        inl (get-insert_self path e' start.entries),
        λ small loose large.
            subst (λ after. get path after.entries ≡ none) e (refused small loose large),
        λ q f n g.
            start_of-other path q f st (ground (arith, get-insert_ne path q e' start.entries n)),
      )
      | inr (inl (e, taken)) ↦ rw e (
        elim (evict-pinned budget attr.size start h0) [
          | inl room ↦ inl room
          | inr pins ↦
              inr (λ q f n g. pins q f (ground (arith, get-insert_ne path q e' shrunk.entries n)))
        ],
        inl (get-insert_self path e' shrunk.entries),
        λ small loose large.
            subst (λ after. get path after.entries ≡ none) e (refused small loose large),
        λ q f n g. start_of-other path q f st (
            evict-subset budget attr.size q f vs start
              (ground (arith, get-insert_ne path q e' shrunk.entries n))),
      )
      | inr (inr (e, over, loose, large)) ↦ rw e (
        elim (evict-pinned budget attr.size start h0) [
          | inl room ↦ ground arith
          | inr pins ↦ inr (λ q f n g. pins q f g)
        ],
        inr (gone, loose, large),
        λ small not_pinned larger. gone,
        λ q f n g. start_of-other path q f st (evict-subset budget attr.size q f vs start g),
      )
    ]

-- A rename of a cached file onto another cached one replaces its entry, and the byte count still
-- holds the bytes of the replaced entry.
pub rename_overcounts :
    (from to : RelPath) (a b : CacheEntry) (tick : ℕ)
    → from ≢ to
    → strip_prefix (from ++ slash ∷ []) to ≡ none
    → let st : CacheState = record {
      entries = (from, a) ∷ (to, b) ∷ [];
      total_bytes = wrapping_add a.size b.size;
      tick = tick;
      dirty = false;
    } in
      let after = rename (λ old new. true) st from to in
      (after.entries ≡ (to, a) ∷ []) × (after.total_bytes ≡ wrapping_add a.size b.size)
unfolding rename affected moved_to move_all get insert remove
rename_overcounts from to a b tick ne outside = (
  ground (
    arith,
    text_beq_iff from to,
    text_beq_iff to from,
    text_beq_iff from from,
    text_beq_iff to to,
  ),
  ground (
    arith,
    text_beq_iff from to,
    text_beq_iff to from,
    text_beq_iff from from,
    text_beq_iff to to,
  ),
)
