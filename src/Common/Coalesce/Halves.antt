-- ===== src/Common/Coalesce/Halves.antt =====
-- A rename that the system reports as two halves and as a pair comes out once.
use alloyfs.Base.{ℕ, ◌≡◌, ◌≢◌, false, some, List, [], ◌∷◌, ◌++◌, arith}
use alloyfs.Base.Text.{text_eq, text_beq_iff}
use alloyfs.Base.Table.{get, insert, remove}
use alloyfs.Proto.Path.{RelPath}
use alloyfs.Proto.Messages.{renamed_from, modified}
use alloyfs.Common.Exclude.{Globset, ExcludeSet, is_excluded}
use alloyfs.Common.Coalesce.Events.{PathBuf, RenameMode, NotifyKind, Event}
use alloyfs.Common.Coalesce.{
  new, merge, rel_of, without_halves, put_pending, drain_renames, insert_sorted, sort_by_path,
  take_batch, push, pair, ingest_rename, ingest, ingest_all, push_all,
}

abbrev pub half : RenameMode → PathBuf → Event
half mode p = record { kind = NotifyKind.modify_name mode; paths = p ∷ [] }

abbrev pub whole : PathBuf → PathBuf → Event
whole p q = record { kind = NotifyKind.modify_name RenameMode.both; paths = p ∷ q ∷ [] }

-- The orders in which the two halves and the pair of one rename can come in.
pub data Arrival : Type 0 where
  from_to_both from_both_to to_from_both to_both_from both_from_to both_to_from : Arrival

abbrev pub reports : Arrival → (a b c : ℕ) → PathBuf → PathBuf → List (ℕ × Event)
reports from_to_both a b c p q =
    (a, half RenameMode.from p) ∷ (b, half RenameMode.to q) ∷ (c, whole p q) ∷ []
reports from_both_to a b c p q =
    (a, half RenameMode.from p) ∷ (b, whole p q) ∷ (c, half RenameMode.to q) ∷ []
reports to_from_both a b c p q =
    (a, half RenameMode.to q) ∷ (b, half RenameMode.from p) ∷ (c, whole p q) ∷ []
reports to_both_from a b c p q =
    (a, half RenameMode.to q) ∷ (b, whole p q) ∷ (c, half RenameMode.from p) ∷ []
reports both_from_to a b c p q =
    (a, whole p q) ∷ (b, half RenameMode.from p) ∷ (c, half RenameMode.to q) ∷ []
reports both_to_from a b c p q =
    (a, whole p q) ∷ (b, half RenameMode.to q) ∷ (c, half RenameMode.from p) ∷ []

abbrev pub change : PathBuf → Event
change q = record { kind = NotifyKind.modify_other; paths = q ∷ [] }

module _ (lib : Globset) (root : PathBuf) (x : ExcludeSet) (p q : PathBuf) (f t : RelPath)
    (is_from : rel_of root p ≡ some f) (is_to : rel_of root q ≡ some t)
    (shown_from : is_excluded lib x f ≡ false) (shown_to : is_excluded lib x t ≡ false)
    (moves : f ≢ t) where
  -- In whatever order the two halves and the pair of one rename come in, the batch reports the
  -- rename once and nothing else; and a change of the target that comes in behind them survives.
  pub rename_reported_once :
      (o : Arrival) (a b c d : ℕ)
      → ((take_batch (ingest_all lib (new root x) (reports o a b c p q))).0
          ≡ (f, renamed_from t) ∷ [])
        × ((take_batch (ingest_all lib (new root x) (reports o a b c p q ++ (d, change q) ∷ []))).0
            ≡ (f, renamed_from t) ∷ (t, modified) ∷ [])
  unfolding new ingest ingest_all ingest_rename push push_all pair put_pending without_halves merge
      get insert remove drain_renames sort_by_path insert_sorted take_batch
  rename_reported_once from_to_both a b c d =
      ground (arith, text_beq_iff f t, text_beq_iff t f, text_beq_iff f f, text_beq_iff t t)
  rename_reported_once _ a b c d =
      ground (arith, text_beq_iff f t, text_beq_iff t f, text_beq_iff f f, text_beq_iff t t)
