-- ===== src/Client/Inodes/Tests.antt =====
-- The inode table at concrete paths.
use alloyfs.Base.{◌≡◌, ◌≢◌, refl, ◌⊎◌, none, some, [], ◌∷◌, arith, nat_eq}
use alloyfs.Base.Text.{Text, chars, text_eq, text_beq_iff, strip_prefix}
use alloyfs.Base.Table.{get}
use alloyfs.Proto.Path.{RelPath}
use alloyfs.Client.Inodes.{InodeTable, get_or_alloc, path_of, ino_of}
use alloyfs.Client.Inodes.Pairing.{IsPairing, get_or_alloc_lem}

abbrev one_file : InodeTable
one_file = record { by_ino = (2, chars "a") ∷ []; by_path = (chars "a", 2) ∷ []; next = 3 }

one_file-IsPairing : IsPairing one_file
unfolding path_of ino_of get
one_file-IsPairing = record {
  there = λ ino path e. ground (arith, text_beq_iff (chars "a") path);
  back = λ ino path e. ground (arith, text_beq_iff (chars "a") path);
  below = λ ino path e. ground arith;
}

get_or_alloc_lem_example :
    let (after, ino) = get_or_alloc one_file (chars "b") in
    (path_of after ino ≡ some (chars "b"))
    × (ino_of after (chars "b") ≡ some ino)
    × ((ino_of one_file (chars "b") ≡ some ino) ⊎ (path_of one_file ino ≡ none))
    × ((other : RelPath) → chars "b" ≢ other → ino_of after other ≡ ino_of one_file other)
    × IsPairing after
get_or_alloc_lem_example = get_or_alloc_lem one_file (chars "b") one_file-IsPairing (omega arith)

abbrev two_files : InodeTable
two_files = record {
  by_ino = (2, chars "a") ∷ (3, chars "b") ∷ [];
  by_path = (chars "a", 2) ∷ (chars "b", 3) ∷ [];
  next = 4;
}

a-ne-b : ◌≢◌ {A = Text} (chars "a") (chars "b")
a-ne-b e = ground (arith, text_beq_iff (chars "a") (chars "b"))

b_outside : strip_prefix (chars "a/") (chars "b") ≡ none
unfolding strip_prefix
b_outside = refl
