-- ===== src/Mount/Readdir/Tests.antt =====
-- Pages of a listing of two entries.
use alloyfs.Base.{ℕ, zero, suc, ◌≡◌, refl, ap, false, List, [], ◌∷◌, ◌++◌, length, arith}
use alloyfs.Proto.Messages.{Bytes}
use alloyfs.Mount.Abi.Words.{little_endian}
use alloyfs.Mount.Readdir.{Entry, op_readdir}
use alloyfs.Mount.Readdir.Pages.{IsPage, EndsBefore, op_readdir-IsPage, long_name_blocks}

abbrev named : Bytes → Entry
named name = record { name = name; nodeid = 7; isdir = false }

abbrev letters : ℕ → Bytes
letters zero = []
letters (suc n) = b'a' ∷ letters n

length-letters : (n : ℕ) → length (letters n) ≡ n
length-letters zero = refl
length-letters (suc n) = ap suc (length-letters n)

abbrev two : List Entry
two = named (b'a' ∷ []) ∷ named (b'b' ∷ b'c' ∷ []) ∷ []

op_readdir-IsPage_example :
    IsPage little_endian 4096 1
      (named (b'b' ∷ b'c' ∷ []) ∷ [])
      []
      (op_readdir little_endian two 3 4096)
op_readdir-IsPage_example =
    op_readdir-IsPage little_endian two 3 4096 (omega arith)
      (record { not_empty = omega arith; not_long = omega arith }, tt)

long_name_blocks_example :
    EndsBefore little_endian 0 two []
      (op_readdir little_endian (two ++ named (letters 256) ∷ two) 2 4096)
long_name_blocks_example =
    long_name_blocks little_endian (two ++ named (letters 256) ∷ two) two two (named (letters 256))
      2 4096 refl (omega (arith, length-letters 256))
