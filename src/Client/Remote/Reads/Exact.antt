-- ===== src/Client/Remote/Reads/Exact.antt =====
-- A read through the blocks hands over the bytes of the file.
use alloyfs.Base.{
  ℕ, zero, suc, ◌+◌, ◌-◌, ◌*◌, ◌≤◌, ◌<◌, ◌≡◌, refl, ap, sym, ◌∙◌, false, Option, none, some, List,
  [], ◌⊎◌, inl, inr, take, drop, drop-drop, arith, nat_eq, is_none, Option-cases,
}
use mathlib.Core.Path.{subst}
use alloyfs.Base.Table.{Table, get}
use alloyfs.Base.Table.Entries.{AllEntries, get-AllEntries}
use alloyfs.Proto.Errors.{Result, ok}
use alloyfs.Proto.Messages.{Bytes, data_chunk}
use alloyfs.Client.Effect.{
  success, ◌>>=◌, ◌>>◌, pure, modify, Ends, Ends-bind, Ends-step, Ends-result,
}
use alloyfs.Client.Cache.{CacheState}
use alloyfs.Client.Local.{LocalTree}
use alloyfs.Client.Overlay.{is_overlay_fh}
use alloyfs.Client.ReadAhead.Blocks.{block, assemble, assemble_lem, slice, slice_lem, Covers}
use alloyfs.Client.ReadAhead.Window.{Holds, observe-Holds}
use alloyfs.Client.Remote.{OpenState, Outside}
use alloyfs.Client.Remote.Calls.{Mount, On}
use alloyfs.Client.Remote.Files.{check_poisoned, is_poisoned}
use alloyfs.Client.Remote.Files.Poisoned.{check_healthy}
use alloyfs.Client.Remote.Reads.{
  first_block, block_count, read_blocks, read_tracked, read_remote, read, all_ready, ra_of, put_ra,
  lift, retain_all, copy_of, past_copy, drop_copy,
}
use alloyfs.Client.Remote.Reads.Fetched.{
  Serves, IsOpen, Has, Collected, collect-Collected, fetch_all_lem, all_fetched, added,
  all_ready_fetched, added-AllEntries, have_added, retain_all-Holds, put_ra-IsOpen, update-IsOpen,
  ra_of-Holds, prefetch-IsOpen,
}

enough_blocks :
    (offset size : ℕ)
    → offset - first_block offset * data_chunk + size ≤ block_count offset size * data_chunk
enough_blocks offset size = omega arith

from_first :
    (offset : ℕ)
    → first_block offset * data_chunk + (offset - first_block offset * data_chunk) ≡ offset
from_first offset = omega arith

module _ (t : LocalTree) (out : Outside) (fh server : ℕ) (file : Bytes)
    (outside : Serves out server (block data_chunk file)) where
  abbrev pub Opened : Mount t out → Type 0
  Opened = IsOpen t out fh server (block data_chunk file) outside

  Covers-of :
      (ready : Table ℕ Bytes) (count b : ℕ)
      → AllEntries (λ k bytes. bytes ≡ block data_chunk file k) ready
      → ((k : ℕ) → b ≤ k → k < b + count → is_none (get k ready) ≡ false)
      → Covers data_chunk file ready count b
  Covers-of ready zero b all have = tt
  Covers-of ready (suc count) b all have = (
    elim (Option-cases (get b ready)) [
      | inl absent ↦ absurd (no_none (get b ready) absent (have b (omega arith) (omega arith)))
      | inr (bytes, e) ↦
          e ∙ ap some (get-AllEntries (λ k x. x ≡ block data_chunk file k) b bytes ready all e)
    ],
    Covers-of ready count (b + 1) all (λ k lo hi. have k (omega arith) (omega arith)),
  )
    where
      no_none : (o : Option Bytes) → o ≡ none → is_none o ≡ false → ⊥
      no_none none e h = cc
      no_none (some x) e h = cc

  lift_lem :
      {A : Type 0} (r : Result A) (a : A) (s : Mount t out)
      → r ≡ ok a
      → Opened s
      → Ends (λ x s'. (x ≡ a) × Opened s') (lift t out r s)
  lift_lem r a s e h = rw e (refl, h)

  abbrev pub Reads : (offset size : ℕ) → Bytes → Mount t out → Type 0
  Reads offset size bytes s = (bytes ≡ take size (drop offset file)) × Opened s

  abbrev Fetches : List ℕ → List (ℕ × Option Bytes) → Mount t out → Type 0
  Fetches bs fetches s =
      (fetches ≡ all_fetched t out fh server (block data_chunk file) outside bs) × Opened s

  -- What is left once the blocks are there.
  rest_of_read : (offset size : ℕ) → Table ℕ Bytes → On t out Bytes
  rest_of_read offset size ready = do
    assembled ←
        lift t out (assemble data_chunk ready (block_count offset size) (first_block offset) [])
    modify (λ s. put_ra t out fh (retain_all ready (ra_of t out fh s)) s)
    pure (slice data_chunk (offset - first_block offset * data_chunk) size assembled)

  slice_of :
      (offset size : ℕ)
      → slice data_chunk (offset - first_block offset * data_chunk) size (
          take (block_count offset size * data_chunk) (drop (first_block offset * data_chunk) file))
        ≡ take size (drop offset file)
  slice_of offset size =
      slice_lem data_chunk (offset - first_block offset * data_chunk) size
        (block_count offset size * data_chunk) (drop (first_block offset * data_chunk) file)
        (enough_blocks offset size)
      ∙ ap (take size) (
          drop-drop (offset - first_block offset * data_chunk) (first_block offset * data_chunk)
            file
          ∙ ap (λ k. drop k file) (from_first offset))

  assembled_lem :
      (offset size : ℕ) (found : Table ℕ Bytes × List ℕ)
      → AllEntries (λ k bytes. bytes ≡ block data_chunk file k) found.0
      → ((k : ℕ)
          → Has t out fh server (block data_chunk file) outside k ([], [])
            ⊎ ((first_block offset ≤ k) × (k < first_block offset + block_count offset size))
          → Has t out fh server (block data_chunk file) outside k found)
      → (ready : Table ℕ Bytes) (s : Mount t out)
      → ready ≡ added t out fh server (block data_chunk file) outside found.1 found.0
      → Opened s
      → Ends (Reads offset size) (rest_of_read offset size ready s)
  unfolding rest_of_read
  assembled_lem offset size found all has ready s e h =
      let n = block_count offset size in
      let first = first_block offset in
      let true_blocks : AllEntries (λ k bytes. bytes ≡ block data_chunk file k) ready =
        subst (AllEntries (λ k bytes. bytes ≡ block data_chunk file k)) (sym e)
          (added-AllEntries t out fh server (block data_chunk file) outside found.1 found.0 all) in
      let have : (k : ℕ) → first ≤ k → k < first + n → is_none (get k ready) ≡ false = λ k lo hi.
        subst (λ r. is_none (get k r) ≡ false) (sym e)
          (have_added t out fh server (block data_chunk file) outside k found.1 found.0
            (has k (inr (lo, hi)))) in
      Ends-bind (λ x s'. (x ≡ take (n * data_chunk) (drop (first * data_chunk) file)) × Opened s') _
        _ _ s
        (lift_lem (assemble data_chunk ready n first [])
          (take (n * data_chunk) (drop (first * data_chunk) file)) s
          (assemble_lem data_chunk file ready n first [] (Covers-of ready n first true_blocks have))
          h)
        λ x s1 q.
          Ends-bind (λ u s'. Opened s') _ _ _ s1
            (put_ra-IsOpen t out fh server (block data_chunk file) outside
              (retain_all ready (ra_of t out fh s1)) s1
              (retain_all-Holds t out fh server (block data_chunk file) outside ready
                (ra_of t out fh s1) true_blocks
                (ra_of-Holds t out fh server (block data_chunk file) outside s1 q.1))
              q.1)
            λ u s2 h2. (
              ap (slice data_chunk (offset - first * data_chunk) size) q.0 ∙ slice_of offset size,
              h2,
            )

  read_blocks_lem :
      (offset size : ℕ) (s : Mount t out)
      → Opened s
      → Ends (Reads offset size) (read_blocks t out fh server offset size s)
  unfolding read_blocks rest_of_read
  read_blocks_lem offset size s h =
      let n = block_count offset size in
      let first = first_block offset in
      let skip = offset - first * data_chunk in
      Ends-bind (Collected t out fh server (block data_chunk file) outside n first ([], [])) _ _ _ s
        (collect-Collected t out fh server (block data_chunk file) outside n first ([], []) s h tt)
        λ found s1 c.
          Ends-bind (λ conn s'. Opened s') _ _ _ s1 c.0
            λ conn s2 h2.
              Ends-bind (Fetches found.1) _ _ _ s2
                (fetch_all_lem t out fh server (block data_chunk file) outside conn found.1 s2 h2)
                λ fetches s3 q.
                  let ready =
                    added t out fh server (block data_chunk file) outside found.1 found.0 in
                  Ends-bind (λ x s'. (x ≡ ready) × Opened s') _ _ _ s3
                    (lift_lem (all_ready fetches found.0) ready s3
                      (ap (λ f. all_ready f found.0) q.0
                        ∙ all_ready_fetched t out fh server (block data_chunk file) outside found.1
                            found.0)
                      q.1)
                    λ x s4 r. assembled_lem offset size found c.1 c.2 x s4 r.0 r.1

  read_tracked_lem :
      (offset size : ℕ) (s : Mount t out)
      → Opened s
      → Ends (Reads offset size) (read_tracked t out fh server offset size s)
  unfolding read_tracked
  read_tracked_lem offset size s h =
      Ends-bind (λ seen s'. Holds (λ b bytes. bytes ≡ block data_chunk file b) seen.0 × Opened s') _
        _ _ s
        (
          observe-Holds (λ b bytes. bytes ≡ block data_chunk file b) (ra_of t out fh s) offset size
              (ra_of-Holds t out fh server (block data_chunk file) outside s h),
          h,
        )
        λ seen s1 q.
          Ends-bind (λ u s'. Opened s') _ _ _ s1
            (put_ra-IsOpen t out fh server (block data_chunk file) outside seen.0 s1 q.0 q.1)
            λ u s2 h2.
              Ends-bind (λ u s'. Opened s') _ _ _ s2
                (prefetch-IsOpen t out fh server (block data_chunk file) outside _ s2 h2)
                λ u s3 h3. read_blocks_lem offset size s3 h3

  past_copy_lem :
      (offset size : ℕ) (s : Mount t out) (h : Opened s)
      → h.state.server_fh ≡ server
      → Ends (Reads offset size) (past_copy t out (some h.state) fh offset size s)
  past_copy_lem offset size s h same =
      Ends-bind (λ u s'. Opened s') _ _ _ s
        (update-IsOpen t out fh server (block data_chunk file) outside (drop_copy t out s.cache) s h
          (dropped s.cache h.state h.holds))
        λ u s1 h1.
          subst (λ n. Ends (Reads offset size) (read_tracked t out fh n offset size s1)) (sym same)
            (read_tracked_lem offset size s1 h1)
    where
      dropped :
          (cache : Option CacheState) (state : OpenState)
          → Holds (λ b bytes. bytes ≡ block data_chunk file b) state.ra
          → Holds (λ b bytes. bytes ≡ block data_chunk file b) (drop_copy t out cache state).ra
      dropped none state holds = holds
      dropped (some cache) state holds = holds

  -- Where the number is one of the server's, the handle is not poisoned, and no copy serves it.
  read_remote_lem :
      (offset size : ℕ) (s : Mount t out) (h : Opened s)
      → h.state.poisoned ≡ false
      → h.state.server_fh ≡ server
      → copy_of t out s.cache (some h.state) offset size ≡ none
      → Ends (Reads offset size) (read_remote t out fh offset size s)
  unfolding read_remote check_poisoned
  read_remote_lem offset size s h healthy same no_copy =
      let sound : is_poisoned t out (get fh s.open_files) ≡ false = rw h.there healthy in
      Ends-step (Reads offset size) (check_poisoned t out fh) _ s s tt
        (check_healthy t out fh s sound)
        (Ends-step (Reads offset size) _ _ s s (get fh s.open_files) refl (
          Ends-step (Reads offset size) _ _ s s s.cache refl
            (rw (h.there, no_copy) (past_copy_lem offset size s h same))))

  -- While the server answers each read of a block with the block of the same file, and no connection
  -- is replaced: a read through an open handle that is not poisoned, whose blocks at hand are blocks
  -- of the file and which no copy serves, ends with exactly the bytes of the file from the offset on,
  -- as many as were asked for or as there are, whatever blocks are at hand; and what the handle holds
  -- afterwards are blocks of the file again, four retained ones at most.
  pub read-exact :
      (offset size : ℕ) (s : Mount t out) (h : Opened s)
      → is_overlay_fh fh ≡ false
      → h.state.poisoned ≡ false
      → h.state.server_fh ≡ server
      → copy_of t out s.cache (some h.state) offset size ≡ none
      → (s' : Mount t out) × (read t out fh offset size s
          ≡ (success (take size (drop offset file)), s'))
        × Opened s'
  unfolding read
  read-exact offset size s h remote healthy same no_copy =
      let (bytes, s', e, q) =
        Ends-result (Reads offset size) (read_remote t out fh offset size s)
          (read_remote_lem offset size s h healthy same no_copy) in
      (s', rw (remote, read) (e ∙ ap (λ b. (success b, s')) q.0), q.1)
