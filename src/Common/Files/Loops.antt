-- ===== src/Common/Files/Loops.antt =====
-- Short reads and short writes make no difference to `read_fully` and `write_fully`.
use alloyfs.Base.{
  ℕ, zero, suc, ◌+◌, ◌-◌, ◌≤◌, ◌<◌, ◌≡◌, refl, ap, sym, ◌∙◌, [], ◌∷◌, ◌++◌, length, take, drop,
  arith, drop-length-append, drop-drop,
}
use mathlib.Core.List.{append_assoc, append-nil}
use alloyfs.Proto.Messages.{Bytes}
use alloyfs.Common.Files.{FileSystem, done, read_loop, read_fully}

take-append_longer :
    (n : ℕ) (xs ys : Bytes) → length xs ≤ n → take n (xs ++ ys) ≡ xs ++ take (n - length xs) ys
take-append_longer n [] ys h = ap (λ k. take k ys) (omega arith)
take-append_longer zero (x ∷ xs) ys h = ground arith
take-append_longer (suc n) (x ∷ xs) ys h =
    ap (◌∷◌ x) (take-append_longer n xs ys (omega arith) ∙ ap (λ k. xs ++ take k ys) (omega arith))

-- What a positional read hands over: some bytes from the offset on, at most as many as were asked
-- for, and none only at the end of the file.
pub record IsChunk (content : Bytes) (len offset : ℕ) (chunk : Bytes) : Type 0 where
  pub rest : Bytes
  pub in_order : drop offset content ≡ chunk ++ rest
  pub not_longer : length chunk ≤ len
  pub at_end : chunk ≡ [] → drop offset content ≡ []

-- Documented behaviour of positional reads of a file with this content.
pub record Holds (fs : FileSystem) (disk : fs.State) (file : fs.File) (content : Bytes)
    : Type 0 where
  pub reads :
      (len offset : ℕ)
      → 0 < len
      → (chunk : Bytes) × (fs.read_at disk file len offset ≡ done chunk)
        × IsChunk content len offset chunk

module _ (fs : FileSystem) (disk : fs.State) (file : fs.File) (content : Bytes)
    (h : Holds fs disk file content) where
  abbrev Reads : ℕ → Type 0
  Reads fuel =
      (need offset : ℕ) (buf : Bytes)
      → need ≤ fuel
      → read_loop fs fuel disk file need offset buf ≡ done (buf ++ take need (drop offset content))

  drop_chunk :
      (len offset : ℕ) (chunk : Bytes) (c : IsChunk content len offset chunk)
      → drop (offset + length chunk) content ≡ c.rest
  drop_chunk len offset chunk c =
      sym (drop-drop (length chunk) offset content)
      ∙ ap (drop (length chunk)) c.in_order
      ∙ drop-length-append chunk c.rest

  read_loop-step :
      (fuel : ℕ)
      → Reads fuel
      → (need offset : ℕ) (buf chunk : Bytes) → suc need ≤ suc fuel
      → fs.read_at disk file (suc need) offset ≡ done chunk
      → IsChunk content (suc need) offset chunk
      → read_loop fs (suc fuel) disk file (suc need) offset buf
        ≡ done (buf ++ take (suc need) (drop offset content))
  unfolding read_loop
  read_loop-step fuel ih need offset buf [] le e c =
      rw (e, c.at_end refl, read_loop) (ap done (sym (append-nil buf)))
  read_loop-step fuel ih need offset buf (b ∷ bs) le e c =
      rw (e, read_loop)
        (ih (suc need - length (b ∷ bs)) (offset + length (b ∷ bs)) (buf ++ b ∷ bs) (omega arith)
          ∙ ap done (
              append_assoc buf (b ∷ bs) _
              ∙ ap (λ t. buf ++ t)
                  (ap (λ t. b ∷ bs ++ take (suc need - length (b ∷ bs)) t)
                      (drop_chunk (suc need) offset (b ∷ bs) c)
                    ∙ sym (take-append_longer (suc need) (b ∷ bs) c.rest c.not_longer)
                    ∙ ap (take (suc need)) (sym c.in_order))))

  read_loop_lem : (fuel : ℕ) → Reads fuel
  unfolding read_loop
  read_loop_lem zero zero offset buf le = ap done (sym (append-nil buf))
  read_loop_lem zero (suc need) offset buf le = ground arith
  read_loop_lem (suc fuel) zero offset buf le = ap done (sym (append-nil buf))
  read_loop_lem (suc fuel) (suc need) offset buf le =
      let (chunk, e, c) = h.reads (suc need) offset (omega arith) in
      read_loop-step fuel (read_loop_lem fuel) need offset buf chunk le e c

  -- Whatever the sizes of the reads in between, `read_fully` returns exactly the bytes of the file
  -- from the offset on, as many as were asked for and are there.
  pub read_fully_lem :
      (len offset : ℕ) → read_fully fs disk file len offset ≡ done (take len (drop offset content))
  unfolding read_fully
  read_fully_lem len offset = read_loop_lem len len offset [] (omega arith)
