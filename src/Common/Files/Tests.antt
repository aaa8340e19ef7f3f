-- ===== src/Common/Files/Tests.antt =====
-- The loops on a file that is read two bytes at a time.
use alloyfs.Base.{
  ℕ, zero, suc, ◌<◌, min, ◌≡◌, refl, sym, arith, [], ◌∷◌, take, drop, take-append-drop,
  length-take-min,
}
use alloyfs.Proto.Messages.{Bytes}
use alloyfs.Common.Files.{done, read_fully, read_loop, write_fully, write_loop}
use alloyfs.Common.Files.Loops.{Holds, read_fully_lem}
use alloyfs.Common.Files.Sample.{sample_fs}

abbrev content : Bytes
content = 1 ∷ 2 ∷ 3 ∷ 4 ∷ 5 ∷ []

nothing_taken : (n : ℕ) (xs : Bytes) → 0 < n → take n xs ≡ [] → xs ≡ []
nothing_taken zero xs h e = ground arith
nothing_taken (suc n) [] h e = refl
nothing_taken (suc n) (x ∷ xs) h e = ground arith

sample-Holds : (disk : Bytes) → Holds sample_fs disk tt disk
sample-Holds disk = record {
  reads = λ len offset pos. (
    take (min 2 len) (drop offset disk),
    refl,
    record {
      rest = drop (min 2 len) (drop offset disk);
      in_order = sym (take-append-drop (min 2 len) (drop offset disk));
      not_longer = omega (arith, length-take-min (min 2 len) (drop offset disk));
      at_end = nothing_taken (min 2 len) (drop offset disk) (omega arith);
    },
  );
}

read_fully_lem_example : read_fully sample_fs content tt 4 0 ≡ done (1 ∷ 2 ∷ 3 ∷ 4 ∷ [])
read_fully_lem_example = read_fully_lem sample_fs content tt content (sample-Holds content) 4 0

reads_to_end : read_fully sample_fs content tt 9 3 ≡ done (4 ∷ 5 ∷ [])
unfolding read_fully read_loop
reads_to_end = refl

writes_behind :
    write_fully sample_fs content tt (7 ∷ 8 ∷ []) 4 ≡ (done tt, 1 ∷ 2 ∷ 3 ∷ 4 ∷ 7 ∷ 8 ∷ [])
unfolding write_fully write_loop
writes_behind = refl
