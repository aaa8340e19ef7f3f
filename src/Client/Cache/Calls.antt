-- ===== src/Client/Cache/Calls.antt =====
-- The calls of the cache, one after the other, and the byte count.
use alloyfs.Base.{
  ℕ, ◌+◌, ◌<◌, ◌≡◌, refl, Bool, true, none, some, List, [], ◌∷◌, All, arith, inl, inr, Option-cases,
}
use alloyfs.Base.Text.{text_eq}
use alloyfs.Base.Table.{Table, get, insert}
use alloyfs.Base.Table.Sums.{Distinct, sum, insert-Distinct, sum-insert_same}
use alloyfs.Base.Table.Values.{AllValues, get-AllValues, insert-AllValues}
use alloyfs.Proto.Path.{RelPath}
use alloyfs.Proto.Messages.{Attr}
use alloyfs.Client.Cache.{
  CacheEntry, CacheState, u64_size, fresh_for, commit, invalidate, unverify, mark_all_unverified,
}
use alloyfs.Client.Cache.Accounts.{
  size_of, Fits, IsCache, without-IsCache, tick-IsCache, commit-IsCache,
}

invalidate-IsCache : (path : RelPath) (st : CacheState) → IsCache st → IsCache (invalidate st path)
unfolding invalidate
invalidate-IsCache path st h = elim (Option-cases (get path st.entries)) [
  | inl nothing ↦ rw (nothing, invalidate) h
  | inr (e, there) ↦ rw (there, invalidate) (without-IsCache path e st st.tick true h there)
]

touch-IsCache :
    (path : RelPath) (e : CacheEntry) (tick : ℕ) (st : CacheState)
    → IsCache st
    → get path st.entries ≡ some e
    → IsCache (record st {
      entries = insert path (record e { last_used = tick; verified = true }) st.entries;
      tick = tick;
      dirty = true;
    })
touch-IsCache path e tick st h there =
    let e' : CacheEntry = record e { last_used = tick; verified = true } in
    record {
      distinct = insert-Distinct path e' st.entries h.distinct;
      fits =
          insert-AllValues Fits path e' st.entries
            (get-AllValues Fits path e st.entries h.fits there) h.fits;
      counted = ground (arith, h.counted, sum-insert_same size_of path e' e st.entries there refl);
    }

fresh_for-IsCache :
    (path : RelPath) (attr : Attr) (st : CacheState)
    → IsCache st
    → IsCache (fresh_for st path attr).0
unfolding fresh_for
fresh_for-IsCache path attr st h = elim (Option-cases (get path st.entries)) [
  | inl nothing ↦ rw (nothing, fresh_for) (tick-IsCache (st.tick + 1) st h)
  | inr (e, there) ↦
      rw (there, fresh_for)
        (ground
          (arith, tick-IsCache (st.tick + 1) st h, touch-IsCache path e (st.tick + 1) st h there))
]

get-unverify_absent :
    (path : RelPath) (t : Table RelPath CacheEntry)
    → get path t ≡ none
    → get path (unverify t) ≡ none
unfolding get unverify
get-unverify_absent path [] h = refl
get-unverify_absent path ((q, e) ∷ t) h = ground (arith, get-unverify_absent path t)

unverify_lem :
    (t : Table RelPath CacheEntry)
    → Distinct t
    → AllValues Fits t
    → Distinct (unverify t)
      × AllValues Fits (unverify t)
      × (sum size_of (unverify t) ≡ sum size_of t)
unfolding unverify
unverify_lem [] d f = (tt, tt, refl)
unverify_lem ((q, e) ∷ t) d f =
    let (distinct, fits, same) = unverify_lem t d.1 f.1 in
    ((get-unverify_absent q t d.0, distinct), (f.0, fits), ground (arith, same))

mark_all_unverified-IsCache : (st : CacheState) → IsCache st → IsCache (mark_all_unverified st)
unfolding mark_all_unverified
mark_all_unverified-IsCache st h =
    let (distinct, fits, same) = unverify_lem st.entries h.distinct h.fits in
    record { distinct = distinct; fits = fits; counted = ground (arith, h.counted, same) }

-- What is done to a cache; a rename is not among it.
pub data Call : Type 0 where
  commits : RelPath → Attr → (pinned : Bool) → Call
  checks : RelPath → Attr → Call
  invalidates : RelPath → Call
  marks : Call

pub after_call : (budget : ℕ) → CacheState → Call → CacheState
after_call budget st (commits path attr pinned) = commit budget st path attr pinned
after_call budget st (checks path attr) = (fresh_for st path attr).0
after_call budget st (invalidates path) = invalidate st path
after_call budget st marks = mark_all_unverified st

pub after_calls : (budget : ℕ) → CacheState → List Call → CacheState
after_calls budget st [] = st
after_calls budget st (c ∷ cs) = after_calls budget (after_call budget st c) cs

abbrev pub IsSized : Call → Type 0
IsSized (commits path attr pinned) = attr.size < u64_size
IsSized (checks path attr) = Unit
IsSized (invalidates path) = Unit
IsSized marks = Unit

-- Whatever files are committed, checked and invalidated, and whenever all are marked for
-- revalidation: the byte count stays the sum of the sizes of the cached files, modulo 2 ^ 64, and no
-- path has two entries.
pub after_calls-IsCache :
    (budget : ℕ) (st : CacheState) (cs : List Call)
    → All IsSized cs
    → IsCache st
    → IsCache (after_calls budget st cs)
unfolding after_calls after_call
after_calls-IsCache budget st [] s h = h
after_calls-IsCache budget st (commits path attr pinned ∷ cs) s h =
    after_calls-IsCache budget (commit budget st path attr pinned) cs s.1
      (commit-IsCache budget st path attr pinned s.0 h)
after_calls-IsCache budget st (checks path attr ∷ cs) s h =
    after_calls-IsCache budget (fresh_for st path attr).0 cs s.1 (fresh_for-IsCache path attr st h)
after_calls-IsCache budget st (invalidates path ∷ cs) s h =
    after_calls-IsCache budget (invalidate st path) cs s.1 (invalidate-IsCache path st h)
after_calls-IsCache budget st (marks ∷ cs) s h =
    after_calls-IsCache budget (mark_all_unverified st) cs s.1 (mark_all_unverified-IsCache st h)
