-- ===== src/Client/Cache/Accounts.antt =====
-- The byte count of the cache agrees with its entries, which a commit keeps.
use alloyfs.Base.{
  ℕ, ◌+◌, ◌%◌, ◌<◌, ◌≤◌, ◌≡◌, ◌≢◌, refl, ◌∙◌, Bool, Option, none, some, List, [], ◌∷◌, arith, leb,
  if◌then◌else◌, inl, inr, Option-cases, Bool-cases,
}
use alloyfs.Base.Text.{text_eq, text_beq_iff, text_beq}
use alloyfs.Base.Table.{Table, get, remove, get-remove_self, get-remove_ne, get-remove}
use alloyfs.Base.Table.Sums.{
  Distinct, sum, remove-Distinct, insert-Distinct, sum-remove, sum-insert_absent, AllPairs-zip,
  absent-AllPairs_ne, present-AllPairs,
}
use alloyfs.Base.Table.Pairs.{AllPairs}
use alloyfs.Base.Table.Values.{AllValues, get-AllValues, insert-AllValues, remove-AllValues}
use alloyfs.Proto.Path.{RelPath}
use alloyfs.Proto.Messages.{Attr}
use alloyfs.Client.Cache.{
  CacheEntry, CacheState, u64_size, wrapping_add, wrapping_sub, insert_victim, evict, victims,
  forget_entry, entry_for, put_entry, commit,
}

abbrev pub size_of : CacheEntry → ℕ
size_of e = e.size

abbrev pub Fits : CacheEntry → Type 0
Fits e = e.size < u64_size

-- One entry to a path, sizes of 64 bits, and a count that is the sum of the sizes.
pub record IsCache (st : CacheState) : Type 0 where
  pub distinct : Distinct st.entries
  pub fits : AllValues Fits st.entries
  pub counted : st.total_bytes ≡ sum size_of st.entries % u64_size

-- The byte count is never more than the sum.
pub counted_le : (st : CacheState) → IsCache st → st.total_bytes ≤ sum size_of st.entries
counted_le st h = omega (arith, h.counted)

sub_count :
    (total rest size : ℕ)
    → size < u64_size
    → total ≡ (size + rest) % u64_size
    → wrapping_sub total size ≡ rest % u64_size
sub_count total rest size h e = omega arith

pub without-IsCache :
    (path : RelPath) (e : CacheEntry) (st : CacheState) (tick : ℕ) (dirty : Bool)
    → IsCache st
    → get path st.entries ≡ some e
    → IsCache (record {
      entries = remove path st.entries;
      total_bytes = wrapping_sub st.total_bytes e.size;
      tick = tick;
      dirty = dirty;
    })
without-IsCache path e st tick dirty h g = record {
  distinct = remove-Distinct path st.entries h.distinct;
  fits = remove-AllValues Fits path st.entries h.fits;
  counted =
      sub_count st.total_bytes (sum size_of (remove path st.entries)) e.size
        (get-AllValues Fits path e st.entries h.fits g)
        (ground (arith, sum-remove size_of path e st.entries h.distinct g, h.counted));
}

pub forget_entry-IsCache :
    (path : RelPath) (st : CacheState) → IsCache st → IsCache (forget_entry path st)
forget_entry-IsCache path st h = elim (Option-cases (get path st.entries)) [
  | inl nothing ↦ rw (nothing, forget_entry) h
  | inr (e, there) ↦ rw (there, forget_entry) (without-IsCache path e st st.tick st.dirty h there)
]

pub get-forget_entry :
    (path : RelPath) (st : CacheState) → get path (forget_entry path st).entries ≡ none
get-forget_entry path st = elim (Option-cases (get path st.entries)) [
  | inl nothing ↦ rw (nothing, forget_entry) nothing
  | inr (e, there) ↦ rw (there, forget_entry) (get-remove_self path st.entries)
]

pub tick-IsCache : (tick : ℕ) (st : CacheState) → IsCache st → IsCache (record st { tick = tick })
tick-IsCache tick st h = record { distinct = h.distinct; fits = h.fits; counted = h.counted }

put_entry-IsCache :
    (path : RelPath) (e : CacheEntry) (st : CacheState)
    → e.size < u64_size
    → get path st.entries ≡ none
    → IsCache st
    → IsCache (put_entry path e st)
put_entry-IsCache path e st s g h = record {
  distinct = insert-Distinct path e st.entries h.distinct;
  fits = insert-AllValues Fits path e st.entries s h.fits;
  counted = ground (arith, sum-insert_absent size_of path e st.entries g, h.counted);
}

AllPairs-unit : (vs : List (RelPath × CacheEntry)) → AllPairs (λ q e. Unit {0}) vs
AllPairs-unit [] = tt
AllPairs-unit ((q, e) ∷ vs) = (tt, AllPairs-unit vs)

-- Victims that stand in the cache, one to a path.
abbrev Present : CacheState → List (RelPath × CacheEntry) → Type 0
Present st vs = Distinct vs × AllPairs (λ q e. get q st.entries ≡ some e) vs

present-after :
    (q : RelPath) (st : CacheState) (vs : List (RelPath × CacheEntry))
    → get q vs ≡ none
    → AllPairs (λ j e. get j st.entries ≡ some e) vs
    → AllPairs (λ j e. get j (remove q st.entries) ≡ some e) vs
present-after q st vs absent there =
    AllPairs-zip (λ j e. q ≢ j) (λ j e. get j st.entries ≡ some e)
      (λ j e. get j (remove q st.entries) ≡ some e) (λ j e n g. get-remove_ne q j st.entries n ∙ g)
      vs (absent-AllPairs_ne q vs absent) there

abbrev pub evicted : RelPath → CacheEntry → CacheState → CacheState
evicted q e st = record st {
  entries = remove q st.entries;
  total_bytes = wrapping_sub st.total_bytes e.size;
}

pub evict-IsCache :
    (budget extra : ℕ) (vs : List (RelPath × CacheEntry)) (st : CacheState)
    → Present st vs
    → IsCache st
    → IsCache (evict budget extra vs st)
unfolding evict
evict-IsCache budget extra [] st p h = h
evict-IsCache budget extra ((q, e) ∷ vs) st ((absent, distinct), (found, there)) h =
    elim (Bool-cases (leb (wrapping_add st.total_bytes extra) budget)) [
      | inl fits ↦ rw fits h
      | inr over ↦ rw over (
          evict-IsCache budget extra vs (evicted q e st)
            (distinct, present-after q st vs absent there)
            (without-IsCache q e st st.tick st.dirty h found))
    ]

pub get-evict_absent :
    (budget extra : ℕ) (path : RelPath) (vs : List (RelPath × CacheEntry)) (st : CacheState)
    → get path st.entries ≡ none
    → get path (evict budget extra vs st).entries ≡ none
unfolding evict
get-evict_absent budget extra path [] st h = h
get-evict_absent budget extra path ((q, e) ∷ vs) st h =
    elim (Bool-cases (leb (wrapping_add st.total_bytes extra) budget)) [
      | inl fits ↦ rw fits h
      | inr over ↦ rw over (
          get-evict_absent budget extra path vs (evicted q e st)
            (ground (arith, get-remove q path st.entries)))
    ]

get-insert_victim :
    (path q : RelPath) (e : CacheEntry) (vs : List (RelPath × CacheEntry))
    → get q vs ≡ none
    → get path (insert_victim (q, e) vs) ≡ (if text_beq q path then some e else get path vs)
unfolding insert_victim get
get-insert_victim path q e [] h = refl
get-insert_victim path q e ((w, f) ∷ vs) h = ground (
  arith,
  get-insert_victim path q e vs,
  text_beq_iff q path,
  text_beq_iff w path,
  text_beq_iff w q,
)

insert_victim-Distinct :
    (q : RelPath) (e : CacheEntry) (vs : List (RelPath × CacheEntry))
    → get q vs ≡ none
    → Distinct vs
    → Distinct (insert_victim (q, e) vs)
unfolding insert_victim get
insert_victim-Distinct q e [] h d = (refl, tt)
insert_victim-Distinct q e ((w, f) ∷ vs) h d = ground (
  arith,
  insert_victim-Distinct q e vs,
  get-insert_victim w q e vs,
  text_beq_iff q w,
  text_beq_iff w q,
  d.0,
  d.1,
)

abbrev unpinned : Option CacheEntry → Option CacheEntry
unpinned none = none
unpinned (some e) = if e.pinned then none else some e

-- The victims are the entries that are not pinned, one to a path.
pub get-victims :
    (t : Table RelPath CacheEntry)
    → Distinct t
    → Distinct (victims t) × ((path : RelPath) → get path (victims t) ≡ unpinned (get path t))
unfolding victims get
get-victims [] d = (tt, λ path. refl)
get-victims ((q, e) ∷ t) d =
    let (distinct, there) = get-victims t d.1 in
    let free : get q (victims t) ≡ none = ground (arith, there q, d.0) in
    let inserted = insert_victim-Distinct q e (victims t) free distinct in
    (
      elim (Bool-cases e.pinned) [ inl pin ↦ ground arith | inr loose ↦ ground arith ],
      λ path. ground (
        arith,
        there path,
        there q,
        text_beq_iff q path,
        d.0,
        get-insert_victim path q e (victims t),
      ),
    )

pub victims-Present : (st : CacheState) → IsCache st → Present st (victims st.entries)
victims-Present st h =
    let (distinct, there) = get-victims st.entries h.distinct in
    (
      distinct,
      AllPairs-zip (λ q e. get q (victims st.entries) ≡ some e) (λ q e. Unit {0})
          (λ q e. get q st.entries ≡ some e)
          (λ q e g u. ground (arith, there q, Option-cases (get q st.entries))) (victims st.entries)
          (present-AllPairs (victims st.entries) distinct) (AllPairs-unit (victims st.entries)),
    )

-- What is committed has a size of 64 bits.
pub commit-IsCache :
    (budget : ℕ) (st : CacheState) (path : RelPath) (attr : Attr) (pinned : Bool)
    → attr.size < u64_size
    → IsCache st
    → IsCache (commit budget st path attr pinned)
unfolding commit
commit-IsCache budget st path attr pinned s h =
    let start = forget_entry path (record st { tick = st.tick + 1 }) in
    let e = entry_for attr pinned (st.tick + 1) in
    let h0 =
      forget_entry-IsCache path (record st { tick = st.tick + 1 })
        (tick-IsCache (st.tick + 1) st h) in
    let absent = get-forget_entry path (record st { tick = st.tick + 1 }) in
    let shrunk = evict budget attr.size (victims start.entries) start in
    let h1 =
      evict-IsCache budget attr.size (victims start.entries) start (victims-Present start h0) h0 in
    ground (
      arith,
      h1,
      put_entry-IsCache path e start s absent h0,
      put_entry-IsCache path e shrunk s
          (get-evict_absent budget attr.size path (victims start.entries) start absent) h1,
    )
