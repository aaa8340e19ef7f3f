-- ===== src/Common/Coalesce/Tests.antt =====
-- The theorems about exclusion and coalescing at concrete inputs, over globs that match themselves.
use alloyfs.Base.{◌≡◌, ◌≢◌, refl, true, false, none, [], ◌∷◌, All, arith}
use alloyfs.Base.Text.{Text, chars, text_beq, text_beq_iff, text_eq}
use alloyfs.Base.Table.{get}
use alloyfs.Proto.Messages.{modified, attr_changed, removed, renamed_from}
use alloyfs.Common.Exclude.{Globset, ExcludeSet, is_excluded}
use alloyfs.Common.Coalesce.Events.{PathBuf, NotifyKind}
use alloyfs.Common.Coalesce.{Coalescer, new, rel_of, take_batch, ingest_all}
use alloyfs.Common.Coalesce.Net.{push_each, pending_kind, Describes, push_each-Describes}
use alloyfs.Common.Coalesce.Halves.{from_to_both, whole, reports, rename_reported_once}
use alloyfs.Common.Coalesce.Visible.{IsShown, take_batch-IsShown}

abbrev plain_globs : Globset
plain_globs = record { builds = λ g. true; matches = λ g p. text_beq g.pattern p }

abbrev secrets : ExcludeSet
secrets = record {
  set = record { pattern = chars "s"; case_insensitive = false } ∷ [];
  empty = false;
  artifacts = none;
}

abbrev root : PathBuf
root = record { components = chars "x" ∷ []; is_unicode = true }

abbrev path_a : PathBuf
path_a = record { components = chars "x" ∷ chars "a" ∷ []; is_unicode = true }

abbrev path_b : PathBuf
path_b = record { components = chars "x" ∷ chars "b" ∷ []; is_unicode = true }

abbrev path_s : PathBuf
path_s = record { components = chars "x" ∷ chars "s" ∷ []; is_unicode = true }

a-ne-b : ◌≢◌ {A = Text} (chars "a") (chars "b")
a-ne-b e = ground (arith, text_beq_iff (chars "a") (chars "b"))

abbrev empty_window : Coalescer
empty_window = record {
  root = root;
  exclude = secrets;
  pending = [];
  renames = [];
  renamed_from = [];
  renamed_to = [];
}

a_shown : is_excluded plain_globs secrets (chars "a") ≡ false
unfolding is_excluded
a_shown = refl

b_shown : is_excluded plain_globs secrets (chars "b") ≡ false
unfolding is_excluded
b_shown = refl

-- A file that was there is written and then removed.
push_each-Describes_example :
    Describes
      (pending_kind (chars "a") (
        push_each plain_globs empty_window
          (chars "a")
          ((1, modified) ∷ (2, attr_changed) ∷ (3, removed) ∷ [])))
      true
      false
      true
unfolding get
push_each-Describes_example =
    push_each-Describes plain_globs empty_window (chars "a")
      ((1, modified) ∷ (2, attr_changed) ∷ (3, removed) ∷ []) true false a_shown refl
      (refl, (refl, (refl, refl)))

-- A rename into the excluded part, and a change there.
take_batch-IsShown_example :
    All
      (IsShown plain_globs secrets)
      (take_batch (
        ingest_all plain_globs (new root secrets) (
          (1, whole path_a path_s)
          ∷ (2, record { kind = NotifyKind.modify_other; paths = path_s ∷ path_b ∷ [] })
          ∷ []))).0
take_batch-IsShown_example = take_batch-IsShown plain_globs root secrets (
    (1, whole path_a path_s)
    ∷ (2, record { kind = NotifyKind.modify_other; paths = path_s ∷ path_b ∷ [] })
    ∷ [])

rename_reported_once_example :
    (take_batch
      (ingest_all plain_globs (new root secrets) (reports from_to_both 1 2 3 path_a path_b))).0
    ≡ (chars "a", renamed_from (chars "b")) ∷ []
unfolding rel_of
rename_reported_once_example =
    (rename_reported_once plain_globs root secrets path_a path_b (chars "a") (chars "b") refl refl
      a_shown b_shown a-ne-b from_to_both 1 2 3 4).0
