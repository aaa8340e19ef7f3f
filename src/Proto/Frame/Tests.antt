-- ===== src/Proto/Frame/Tests.antt =====
-- The codec over a small encoding: a ping of `n` is a 0 with `n` zeros behind it, a compressed frame
-- is a 1 with its block, and a block of nothing but zeros is compressed to its size alone.
use alloyfs.Base.{
  ℕ, zero, suc, ◌≡◌, refl, ap, Bool, true, ◌&&◌, Option, none, some, [], ◌∷◌, ◌++◌, length, drop,
  ◌==◌, ◌<◌, ◌^◌, ◌≤◌, arith, if◌then◌else◌, Bool-cases, inl, inr,
}
use alloyfs.Proto.Messages.{Frame, Bytes}
use alloyfs.Proto.Frame.{
  Codecs, Inflated, inflated, ok, u32_from_le, u32_to_le, decode, encode, payload_of, put_frame,
}
use alloyfs.Proto.Frame.Roundtrip.{AreCodecs, u32_from-to_le, encode_lem}

zeros : ℕ → Bytes
zeros zero = []
zeros (suc n) = 0 ∷ zeros n

length-zeros : (n : ℕ) → length (zeros n) ≡ n
unfolding zeros
length-zeros zero = refl
length-zeros (suc n) = ap suc (length-zeros n)

are_zeros : Bytes → Bool
are_zeros [] = true
are_zeros (b ∷ s) = b == 0 && are_zeros s

are_zeros-zeros : (n : ℕ) → are_zeros (zeros n) ≡ true
unfolding zeros are_zeros
are_zeros-zeros zero = refl
are_zeros-zeros (suc n) = are_zeros-zeros n

zeros-length : (p : Bytes) → are_zeros p ≡ true → zeros (length p) ≡ p
unfolding zeros are_zeros
zeros-length [] h = refl
zeros-length (b ∷ p) h = ground (arith, zeros-length p)

to_stdvec : Frame → Option Bytes
to_stdvec (Frame.ping n) = some (0 ∷ zeros n)
to_stdvec (Frame.compressed b) = some (1 ∷ b)
to_stdvec _ = none

from_bytes : Bytes → Option Frame
from_bytes [] = none
from_bytes (k ∷ s) =
    if k == 0
    then some (Frame.ping (length s))
    else if k == 1
    then some (Frame.compressed s)
    else none

squeeze : Bytes → Bytes
squeeze p = if are_zeros p then [] else p

compress : Bytes → Bytes
unfolding squeeze
compress p = u32_to_le (length p) ++ squeeze p

inflate : ℕ → Bytes → Inflated
inflate n [] = inflated (zeros n)
inflate n (b ∷ s) = inflated (b ∷ s)

abbrev small : Codecs
small = record {
  to_stdvec = to_stdvec;
  from_bytes = from_bytes;
  compress_prepend_size = compress;
  decompress_size_prepended = λ b. inflate (u32_from_le b) (drop 4 b);
}

reads_back : (f : Frame) (b : Bytes) → to_stdvec f ≡ some b → from_bytes b ≡ some f
unfolding to_stdvec from_bytes
reads_back (Frame.ping n) b h = ground (arith, length-zeros n)
reads_back (Frame.compressed s) b h = ground arith
reads_back _ b h = cc

inflate-squeeze : (p : Bytes) → inflate (length p) (squeeze p) ≡ inflated p
unfolding inflate squeeze are_zeros
inflate-squeeze [] = ground (arith, zeros-length [])
inflate-squeeze (b ∷ p) = elim (Bool-cases (are_zeros (b ∷ p))) [
  | inl all ↦ rw (all, zeros-length (b ∷ p) all)
  | inr some' ↦ rw some'
]

inflate-compress :
    (p : Bytes)
    → length p < 2 ^ 32
    → inflate (u32_from_le (compress p)) (drop 4 (compress p)) ≡ inflated p
unfolding compress
inflate-compress p h = rw (u32_from-to_le (length p) (squeeze p) h) (inflate-squeeze p)

compress-size : (p : Bytes) → length p < 2 ^ 32 → u32_from_le (compress p) ≡ length p
unfolding compress
compress-size p h = u32_from-to_le (length p) (squeeze p) h

compress-header : (p : Bytes) → 4 ≤ length (compress p)
unfolding compress
compress-header p = omega arith

small-AreCodecs : AreCodecs small
small-AreCodecs = record {
  reads_back = reads_back;
  inflates = inflate-compress;
  prepends_size = compress-size;
  has_header = compress-header;
}

-- A ping of 3, plain and followed by other bytes.
ping_wire : encode small true (Frame.ping 3) (9 ∷ []) ≡ ok (9 ∷ 4 ∷ 0 ∷ 0 ∷ 0 ∷ 0 ∷ 0 ∷ 0 ∷ 0 ∷ [])
unfolding encode payload_of put_frame to_stdvec zeros
ping_wire = refl

ping_squeezed :
    to_stdvec (Frame.compressed (compress (0 ∷ zeros 3))) ≡ some (1 ∷ 4 ∷ 0 ∷ 0 ∷ 0 ∷ [])
unfolding to_stdvec compress squeeze are_zeros zeros
ping_squeezed = refl

encode_lem_example :
    (sent : Bytes) × (encode small true (Frame.ping 3) (9 ∷ []) ≡ ok (9 ∷ sent))
    × ((rest : Bytes) → decode small (sent ++ rest) ≡ (ok (some (Frame.ping 3)), rest))
unfolding to_stdvec zeros
encode_lem_example =
    encode_lem small small-AreCodecs true (Frame.ping 3) (0 ∷ zeros 3) (1 ∷ 4 ∷ 0 ∷ 0 ∷ 0 ∷ [])
      (9 ∷ []) refl refl (omega arith) ping_squeezed (omega arith)

abbrev long : ℕ
long = 2000000

abbrev long_payload : Bytes
long_payload = 0 ∷ zeros long

to_stdvec-long : to_stdvec (Frame.ping long) ≡ some long_payload
unfolding to_stdvec
to_stdvec-long = refl

compress-long : length (compress long_payload) ≡ 4
unfolding compress squeeze are_zeros
compress-long = rw (are_zeros-zeros long)

squeezed-long :
    to_stdvec (Frame.compressed (compress long_payload)) ≡ some (1 ∷ compress long_payload)
unfolding to_stdvec
squeezed-long = refl
