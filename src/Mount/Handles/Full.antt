-- ===== src/Mount/Handles/Full.antt =====
-- A cache that is full of locked handles.
use alloyfs.Base.{
  ℕ, zero, suc, ◌+◌, ◌≤◌, ◌≡◌, refl, Bool, true, false, none, some, [], ◌∷◌, length, ltb, nat_eq,
  arith, ==_iff,
}
use alloyfs.Base.Table.{Table, get, insert, remove}
use alloyfs.Base.Table.Values.{AllValues}
use alloyfs.Mount.Handles.{
  Handle, HandleCache, handle_cache_cap, victim, evict, install_handle, handle_for, cached, touched,
}
use alloyfs.Mount.Handles.Locked.{IsLocked}

victim-insert_absent :
    (id : ℕ) (h : Handle) (t : Table ℕ Handle)
    → AllValues IsLocked t
    → get id t ≡ none
    → h.locked ≡ false
    → victim (insert id h t) ≡ some (id, h)
unfolding victim insert get
victim-insert_absent id h [] a e u = ground (arith, u)
victim-insert_absent id h ((j, g) ∷ t) a e u = ground (arith, victim-insert_absent id h t a.1)

victim-none : (t : Table ℕ Handle) → AllValues IsLocked t → victim t ≡ none
unfolding victim
victim-none [] a = refl
victim-none ((j, g) ∷ t) a = ground (arith, victim-none t a.1)

remove-insert_absent :
    (id : ℕ) (h : Handle) (t : Table ℕ Handle) → get id t ≡ none → remove id (insert id h t) ≡ t
unfolding remove insert get
remove-insert_absent id h [] e = ground (arith, ==_iff id id)
remove-insert_absent id h ((j, g) ∷ t) e = ground (arith, remove-insert_absent id h t)

length-insert_absent :
    (id : ℕ) (h : Handle) (t : Table ℕ Handle)
    → get id t ≡ none
    → length (insert id h t) ≡ suc (length t)
unfolding insert get
length-insert_absent id h [] e = refl
length-insert_absent id h ((j, g) ∷ t) e = ground (arith, length-insert_absent id h t)

evict-locked : (fuel : ℕ) (t : Table ℕ Handle) → AllValues IsLocked t → evict fuel t ≡ (t, [])
unfolding evict
evict-locked zero t a = refl
evict-locked (suc fuel) t a = ground (arith, victim-none t a)

evict-insert_absent :
    (id : ℕ) (h : Handle) (t : Table ℕ Handle)
    → AllValues IsLocked t
    → get id t ≡ none
    → h.locked ≡ false
    → handle_cache_cap ≤ length t
    → evict (suc (length t)) (insert id h t) ≡ (t, h.fh ∷ [])
unfolding evict
evict-insert_absent id h t a e u full =
    let more : ltb handle_cache_cap (length (insert id h t)) ≡ true =
      ground (arith, length-insert_absent id h t e) in
    rw
      (
        more,
        victim-insert_absent id h t a e u,
        remove-insert_absent id h t e,
        evict-locked (length t) t a,
        evict,
      )
      refl

install_handle-full :
    (nodeid fh : ℕ) (write : Bool) (c : HandleCache)
    → AllValues IsLocked c.map
    → get nodeid c.map ≡ none
    → handle_cache_cap ≤ length c.map
    → install_handle nodeid fh write c ≡ (record { map = c.map; tick = c.tick + 1 }, fh ∷ [])
unfolding install_handle
install_handle-full nodeid fh write c a e full =
    let h : Handle = record { fh = fh; write = write; used = c.tick + 1; locked = false } in
    rw (e, install_handle)
      (rw (length-insert_absent nodeid h c.map e, evict-insert_absent nodeid h c.map a e refl full)
        refl)

-- If the cache is full of locked handles, a file without one gets a handle that is released before it
-- is returned: `handle_for` answers with it, and it stands alone among the handles to release.
pub full_cache_releases_new :
    (nodeid fh : ℕ) (want_write : Bool) (c : HandleCache)
    → AllValues IsLocked c.map
    → get nodeid c.map ≡ none
    → handle_cache_cap ≤ length c.map
    → let (answer, after, released) = handle_for nodeid want_write (some fh) c in
      (answer ≡ some fh) × (after.map ≡ c.map) × (released ≡ fh ∷ [])
unfolding handle_for cached
full_cache_releases_new nodeid fh want_write c a e full =
    let i = install_handle-full nodeid fh want_write (touched c) a e full in
    rw (e, handle_for) (rw i (refl, refl, refl))
