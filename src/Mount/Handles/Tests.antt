-- ===== src/Mount/Handles/Tests.antt =====
-- The handle cache at concrete sizes.
use alloyfs.Base.{
  ℕ, zero, suc, ◌≡◌, refl, ap, true, false, none, some, [], ◌∷◌, length, arith, nat_eq,
}
use alloyfs.Base.Table.{Table, get}
use alloyfs.Base.Table.Values.{AllValues}
use alloyfs.Base.Table.Sums.{Distinct}
use alloyfs.Mount.Handles.{Handle, HandleCache, handle_for, install_handle}
use alloyfs.Mount.Handles.Locked.{IsLocked, install_handle_lem}
use alloyfs.Mount.Handles.Full.{full_cache_releases_new}

abbrev held : ℕ → Handle
held n = record { fh = n; write = true; used = n; locked = true }

abbrev full : ℕ → Table ℕ Handle
full zero = []
full (suc n) = (n, held n) ∷ full n

full-IsLocked : (n : ℕ) → AllValues IsLocked (full n)
full-IsLocked zero = tt
full-IsLocked (suc n) = (refl, full-IsLocked n)

length-full : (n : ℕ) → length (full n) ≡ n
length-full zero = refl
length-full (suc n) = ap suc (length-full n)

absent : get 99 (full 64) ≡ none
unfolding get
absent = refl

abbrev full_cache : HandleCache
full_cache = record { map = full 64; tick = 64 }

full_cache_releases_new_example :
    let (answer, after, released) = handle_for 99 false (some 7) full_cache in
    (answer ≡ some 7) × (after.map ≡ full 64) × (released ≡ 7 ∷ [])
full_cache_releases_new_example =
    full_cache_releases_new 99 7 false full_cache (full-IsLocked 64) absent
      (omega (arith, length-full 64))

abbrev small : HandleCache
small = record { map = full 2; tick = 2 }

one_present : get 1 (full 2) ≡ some (held 1)
unfolding get
one_present = refl

small-Distinct : Distinct (full 2)
unfolding get
small-Distinct = (refl, (refl, tt))

install_handle_lem_example : get 1 (install_handle 9 7 true small).0.map ≡ some (held 1)
install_handle_lem_example =
    (install_handle_lem 9 7 true small small-Distinct).0 1 (held 1) (omega arith) one_present refl
