-- ===== src/Client/ReadAhead/Window.antt =====
-- What the window and the retained blocks hold.
use alloyfs.Base.{
  ℕ, ◌≤◌, ◌≡◌, refl, none, some, List, [], ◌∷◌, ◌++◌, length, length-append, arith, ◌==◌, nat_eq,
  Option-cases, Bool-cases, inl, inr,
}
use alloyfs.Base.Table.Entries.{AllEntries, get-AllEntries, insert-AllEntries, remove-AllEntries}
use alloyfs.Proto.Messages.{Bytes}
use alloyfs.Client.ReadAhead.{
  ReadAhead, Task, retain_blocks, new_readahead, clear, observe, take_task, find_block,
  replace_block, push_recent, retain_block, put, is_near,
}

module _ (P : ℕ → Bytes → Type 0) where
  abbrev pub IsOutcome : ℕ → Task → Type 0
  IsOutcome b none = Unit
  IsOutcome b (some bytes) = P b bytes

  -- Whatever is held of a block satisfies `P`, and no more blocks are retained than the bound says.
  pub record Holds (ra : ReadAhead) : Type 0 where
    pub in_flight : AllEntries IsOutcome ra.window
    pub kept : AllEntries P ra.recent
    pub bounded : length ra.recent ≤ retain_blocks

  pub new_readahead-Holds : Holds new_readahead
  unfolding new_readahead
  new_readahead-Holds = record { in_flight = tt; kept = tt; bounded = omega arith }

  pub clear-Holds : (ra : ReadAhead) → Holds (clear ra)
  unfolding clear
  clear-Holds ra = record { in_flight = tt; kept = tt; bounded = omega arith }

  pub observe-Holds :
      (ra : ReadAhead) (offset size : ℕ) → Holds ra → Holds (observe ra offset size).0
  unfolding observe
  observe-Holds ra offset size h = elim (Bool-cases (offset == ra.expected_next)) [
    | inl next ↦
        rw (next, observe) (record { in_flight = h.in_flight; kept = h.kept; bounded = h.bounded })
    | inr other ↦ elim (Bool-cases (is_near offset ra.expected_next)) [
      | inl near ↦
          rw (other, near, observe)
            (record { in_flight = h.in_flight; kept = h.kept; bounded = h.bounded })
      | inr far ↦
          rw (other, far, observe) (record { in_flight = tt; kept = tt; bounded = omega arith })
    ]
  ]

  pub put-Holds :
      (ra : ReadAhead) (b : ℕ) (task : Task) → IsOutcome b task → Holds ra → Holds (put ra b task)
  unfolding put
  put-Holds ra b task p h = record {
    in_flight = insert-AllEntries IsOutcome b task ra.window p h.in_flight;
    kept = h.kept;
    bounded = h.bounded;
  }

  pub take_task-Holds : (ra : ReadAhead) (b : ℕ) → Holds ra → Holds (take_task ra b).1
  unfolding take_task
  take_task-Holds ra b h = record {
    in_flight = remove-AllEntries IsOutcome b ra.window h.in_flight;
    kept = h.kept;
    bounded = h.bounded;
  }

  pub take_task-IsOutcome :
      (ra : ReadAhead) (b : ℕ) (bytes : Bytes)
      → Holds ra
      → (take_task ra b).0 ≡ some (some bytes)
      → P b bytes
  unfolding take_task
  take_task-IsOutcome ra b bytes h e =
      get-AllEntries IsOutcome b (some bytes) ra.window h.in_flight e

  pub find_block-AllEntries :
      (b : ℕ) (bytes : Bytes) (recent : List (ℕ × Bytes))
      → AllEntries P recent
      → find_block b recent ≡ some bytes
      → P b bytes
  unfolding find_block
  find_block-AllEntries b bytes [] h e = cc
  find_block-AllEntries b bytes ((c, old) ∷ rest) h e =
      ground (arith, find_block-AllEntries b bytes rest h.1)

  replace_block-AllEntries :
      (b : ℕ) (bytes : Bytes) (recent : List (ℕ × Bytes))
      → P b bytes
      → AllEntries P recent
      → AllEntries P (replace_block b bytes recent)
        × (length (replace_block b bytes recent) ≡ length recent)
  unfolding replace_block
  replace_block-AllEntries b bytes [] p h = (tt, refl)
  replace_block-AllEntries b bytes ((c, old) ∷ rest) p h =
      ground (arith, replace_block-AllEntries b bytes rest p h.1)

  append-AllEntries :
      (entry : ℕ × Bytes) (recent : List (ℕ × Bytes))
      → P entry.0 entry.1
      → AllEntries P recent
      → AllEntries P (recent ++ entry ∷ [])
  append-AllEntries entry [] p h = (p, tt)
  append-AllEntries entry ((c, old) ∷ rest) p h = (h.0, append-AllEntries entry rest p h.1)

  push_recent-AllEntries :
      (entry : ℕ × Bytes) (recent : List (ℕ × Bytes))
      → P entry.0 entry.1
      → AllEntries P recent
      → length recent ≤ retain_blocks
      → AllEntries P (push_recent entry recent)
        × (length (push_recent entry recent) ≤ retain_blocks)
  unfolding push_recent
  push_recent-AllEntries entry [] p h l = ((p, tt), omega arith)
  push_recent-AllEntries entry ((c, old) ∷ rest) p h l = ground (
    arith,
    append-AllEntries entry rest p h.1,
    append-AllEntries entry ((c, old) ∷ rest) p h,
    length-append rest (entry ∷ []),
    length-append ((c, old) ∷ rest) (entry ∷ []),
  )

  pub retain_block-Holds :
      (ra : ReadAhead) (b : ℕ) (bytes : Bytes)
      → P b bytes
      → Holds ra
      → Holds (retain_block ra b bytes)
  unfolding retain_block
  retain_block-Holds ra b bytes p h = elim (Option-cases (find_block b ra.recent)) [
    | inl new ↦
        let (kept, bounded) = push_recent-AllEntries (b, bytes) ra.recent p h.kept h.bounded in
        rw (new, retain_block) (record { in_flight = h.in_flight; kept = kept; bounded = bounded })
    | inr (old, there) ↦
        let (kept, same) = replace_block-AllEntries b bytes ra.recent p h.kept in
        rw (there, retain_block)
          (record {
            in_flight = h.in_flight;
            kept = kept;
            bounded = omega (arith, same, h.bounded);
          })
  ]
