-- ===== src/Client/Cache/Tests.antt =====
-- The cache at concrete files.
use alloyfs.Base.{ℕ, ◌≡◌, ◌≢◌, refl, false, none, List, [], ◌∷◌, arith}
use alloyfs.Base.Text.{Text, chars, text_eq, text_beq_iff, strip_prefix}
use alloyfs.Base.Table.{get}
use alloyfs.Proto.Messages.{Attr, file, after_epoch}
use alloyfs.Client.Cache.{CacheEntry, CacheState, entry_for, commit, wrapping_add}
use alloyfs.Client.Cache.Accounts.{IsCache}
use alloyfs.Client.Cache.Calls.{
  Call, commits, checks, invalidates, marks, after_calls, after_calls-IsCache,
}
use alloyfs.Client.Cache.Budget.{commit_lem}

abbrev attr_of : ℕ → Attr
attr_of size = record {
  kind = file;
  size = size;
  mtime = after_epoch 5;
  ctime = after_epoch 5;
  mode = 420;
  version = 1;
}

abbrev empty_cache : CacheState
empty_cache = record { entries = []; total_bytes = 0; tick = 1; dirty = false }

empty_cache-IsCache : IsCache empty_cache
empty_cache-IsCache = record { distinct = tt; fits = tt; counted = refl }

abbrev two_commits : List Call
two_commits =
    commits (chars "a") (attr_of 60) false
    ∷ commits (chars "b") (attr_of 70) false
    ∷ checks (chars "b") (attr_of 70)
    ∷ marks
    ∷ invalidates (chars "a")
    ∷ []

after_calls-IsCache_example : IsCache (after_calls 100 empty_cache two_commits)
after_calls-IsCache_example =
    after_calls-IsCache 100 empty_cache two_commits
      (omega arith, (omega arith, (tt, (tt, (tt, tt))))) empty_cache-IsCache

commit_lem_example :
    get (chars "a") (commit 100 empty_cache (chars "a") (attr_of 160) false).entries ≡ none
commit_lem_example =
    (commit_lem 100 empty_cache (chars "a") (attr_of 160) false empty_cache-IsCache).2 (omega arith)
      refl (omega arith)

abbrev small : CacheEntry
small = entry_for (attr_of 10) false 1

a-ne-b : ◌≢◌ {A = Text} (chars "a") (chars "b")
a-ne-b e = ground (arith, text_beq_iff (chars "a") (chars "b"))

b_outside : strip_prefix (chars "a/") (chars "b") ≡ none
unfolding strip_prefix
b_outside = refl

abbrev two_files : CacheState
two_files = record {
  entries = (chars "a", small) ∷ (chars "b", small) ∷ [];
  total_bytes = wrapping_add 10 10;
  tick = 3;
  dirty = false;
}
