-- ===== src/Client/ReadAhead/Blocks.antt =====
-- Blocks of a file, put together: the assembly of `RemoteFs::read` of
-- crates/alloyfs-client/src/remote_fs.rs, over the blocks that the read has at hand.
use alloyfs.Base.{
  ℕ, zero, suc, ◌+◌, ◌-◌, ◌*◌, ◌≤◌, ◌<◌, min, ◌≡◌, refl, ap, sym, ◌∙◌, none, some, List, [], ◌∷◌,
  ◌++◌, length, take, drop, ltb, leb, arith, if◌then◌else◌, drop-drop, inl, inr, Bool-cases, nat_eq,
}
use mathlib.Core.List.{append_assoc, append-nil}
use alloyfs.Base.Table.{Table, get}
use alloyfs.Proto.Errors.{Result, ok, err, io}
use alloyfs.Proto.Messages.{Bytes}

module _ {A : Type 0} where
  take-nil : (n : ℕ) → take {A = A} n [] ≡ []
  take-nil zero = refl
  take-nil (suc n) = refl

  drop-nil : (n : ℕ) → drop {A = A} n [] ≡ []
  drop-nil zero = refl
  drop-nil (suc n) = refl

  take_all : (n : ℕ) (xs : List A) → length xs ≤ n → take n xs ≡ xs
  take_all zero [] h = refl
  take_all zero (x ∷ xs) h = absurd (omega arith)
  take_all (suc n) [] h = refl
  take_all (suc n) (x ∷ xs) h = ap (◌∷◌ x) (take_all n xs (omega arith))

  drop_all : (n : ℕ) (xs : List A) → length xs ≤ n → drop n xs ≡ []
  drop_all zero [] h = refl
  drop_all zero (x ∷ xs) h = absurd (omega arith)
  drop_all (suc n) [] h = refl
  drop_all (suc n) (x ∷ xs) h = drop_all n xs (omega arith)

  length-of-short : (n : ℕ) (xs : List A) → length (take n xs) < n → length xs ≤ n
  length-of-short zero xs h = absurd (omega arith)
  length-of-short (suc n) [] h = omega arith
  length-of-short (suc n) (x ∷ xs) h = omega (arith, length-of-short n xs (omega arith))

  take-add : (m n : ℕ) (xs : List A) → take (m + n) xs ≡ take m xs ++ take n (drop m xs)
  take-add zero n xs = ap (λ k. take k xs) (omega arith)
  take-add (suc m) n [] = ap (λ k. take k []) e ∙ sym (take-nil n)
    where
      e : suc m + n ≡ suc (m + n)
      e = omega arith
  take-add (suc m) n (x ∷ xs) = ap (λ k. take k (x ∷ xs)) e ∙ ap (◌∷◌ x) (take-add m n xs)
    where
      e : suc m + n ≡ suc (m + n)
      e = omega arith

  -- What is asked of a list that is longer than what is asked for.
  take_measured :
      (size m : ℕ) (xs : List A)
      → size ≤ m
      → take (min size (length (take m xs))) (take m xs) ≡ take size xs
  take_measured zero m xs h =
      let e : min zero (length (take m xs)) ≡ 0 = omega arith in ap (λ k. take k (take m xs)) e
  take_measured (suc size) zero xs h = absurd (omega arith)
  take_measured (suc size) (suc m) [] h = take-nil _
  take_measured (suc size) (suc m) (x ∷ xs) h =
      let e : min (suc size) (suc (length (take m xs))) ≡ suc (min size (length (take m xs))) =
        omega arith in
      ap (λ k. take k (x ∷ take m xs)) e ∙ ap (◌∷◌ x) (take_measured size m xs (omega arith))

  pub take_slice :
      (skip size m : ℕ) (xs : List A)
      → skip + size ≤ m
      → take (min (skip + size) (length (take m xs)) - skip) (drop skip (take m xs))
        ≡ take size (drop skip xs)
  take_slice zero size m xs h =
      let e : min (zero + size) (length (take m xs)) - zero ≡ min size (length (take m xs)) =
        omega arith in
      ap (λ k. take k (take m xs)) e ∙ take_measured size m xs (omega arith)
  take_slice (suc skip) size zero xs h = absurd (omega arith)
  take_slice (suc skip) size (suc m) [] h = take-nil _ ∙ sym (take-nil size)
  take_slice (suc skip) size (suc m) (x ∷ xs) h =
      let e : min (suc skip + size) (suc (length (take m xs))) - suc skip
          ≡ min (skip + size) (length (take m xs)) - skip =
        omega arith in
      ap (λ k. take k (drop skip (take m xs))) e ∙ take_slice skip size m xs (omega arith)

module _ (chunk : ℕ) where
  -- Block `b` of a file.
  abbrev pub block : Bytes → ℕ → Bytes
  block file b = take chunk (drop (b * chunk) file)

  -- `count` blocks from block `b` on, behind what is assembled already; a short block ends the file.
  unfoldable pub assemble : Table ℕ Bytes → (count b : ℕ) → Bytes → Result Bytes
  assemble ready zero b assembled = ok assembled
  assemble ready (suc count) b assembled = elim (get b ready) [
    | none ↦ err io
    | some bytes ↦
        if ltb (length bytes) chunk
        then ok (assembled ++ bytes)
        else assemble ready count (b + 1) (assembled ++ bytes)
  ]

  -- The bytes asked for, out of those assembled.
  unfoldable pub slice : (skip size : ℕ) → Bytes → Bytes
  slice skip size assembled =
      if leb (length assembled) skip
      then []
      else take (min (skip + size) (length assembled) - skip) (drop skip assembled)

  -- The blocks at hand from `b` on are those of the file.
  abbrev pub Covers : Bytes → Table ℕ Bytes → (count b : ℕ) → Type 0
  Covers file ready zero b = Unit
  Covers file ready (suc count) b =
      (get b ready ≡ some (block file b)) × Covers file ready count (b + 1)

  rest_of :
      (file : Bytes) (b : ℕ) → drop chunk (drop (b * chunk) file) ≡ drop ((b + 1) * chunk) file
  rest_of file b =
      let e : b * chunk + chunk ≡ (b + 1) * chunk = grind arith in
      drop-drop chunk (b * chunk) file ∙ ap (λ k. drop k file) e

  step_of :
      (file : Bytes) (count b : ℕ)
      → take (suc count * chunk) (drop (b * chunk) file)
        ≡ block file b ++ take (count * chunk) (drop ((b + 1) * chunk) file)
  step_of file count b =
      let e : suc count * chunk ≡ chunk + count * chunk = grind arith in
      ap (λ k. take k (drop (b * chunk) file)) e
      ∙ take-add chunk (count * chunk) (drop (b * chunk) file)
      ∙ ap (λ t. block file b ++ take (count * chunk) t) (rest_of file b)

  short_of :
      (file : Bytes) (count b : ℕ)
      → length (block file b) < chunk
      → take (suc count * chunk) (drop (b * chunk) file) ≡ block file b
  short_of file count b h =
      let whole : length (drop (b * chunk) file) ≤ chunk = length-of-short chunk _ h in
      let more : chunk ≤ suc count * chunk = grind arith in
      take_all _ _ (omega arith) ∙ sym (take_all chunk (drop (b * chunk) file) whole)

  pub assemble_lem :
      (file : Bytes) (ready : Table ℕ Bytes) (count b : ℕ) (assembled : Bytes)
      → Covers file ready count b
      → assemble ready count b assembled
        ≡ ok (assembled ++ take (count * chunk) (drop (b * chunk) file))
  unfolding assemble
  assemble_lem file ready zero b assembled c =
      let e : zero * chunk ≡ 0 = omega arith in
      ap ok
        (sym (append-nil assembled) ∙ sym (ap (λ k. assembled ++ take k (drop (b * chunk) file)) e))
  assemble_lem file ready (suc count) b assembled (here, c) =
      elim (Bool-cases (ltb (length (block file b)) chunk)) [
        | inl short ↦ rw (here, short, short_of file count b (ground arith), assemble) refl
        | inr long ↦
            rw (here, long, step_of file count b, assemble)
              (assemble_lem file ready count (b + 1) (assembled ++ block file b) c
                ∙ ap ok (append_assoc assembled (block file b) _))
      ]

  pub slice_lem :
      (skip size m : ℕ) (xs : Bytes)
      → skip + size ≤ m
      → slice skip size (take m xs) ≡ take size (drop skip xs)
  unfolding slice
  slice_lem skip size m xs h =
      let n = min (skip + size) (length (take m xs)) - skip in
      let same : take (min (skip + size) (length (take m xs)) - skip) (drop skip (take m xs))
          ≡ take size (drop skip xs) =
        take_slice skip size m xs h in
      elim (Bool-cases (leb (length (take m xs)) skip)) [
        | inl past ↦
            rw past (
              sym (take-nil n)
              ∙ sym (ap (take n) (drop_all skip (take m xs) (ground arith)))
              ∙ same)
        | inr within ↦ rw within same
      ]
