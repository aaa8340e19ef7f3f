-- ===== src/Mount/Abi/Words.antt =====
-- `from_ne_bytes` and `to_ne_bytes` of Rust's unsigned integers, for either byte order.
use alloyfs.Base.{
  ℕ, zero, suc, ◌+◌, ◌*◌, ◌/◌, ◌%◌, ◌<◌, ◌≡◌, refl, ap, [], ◌∷◌, ◌++◌, length, length-append, arith,
}
use alloyfs.Proto.Messages.{Bytes}

pub data ByteOrder : Type 0 where
  little_endian big_endian : ByteOrder

abbrev to_le_bytes : ℕ → ℕ → Bytes
to_le_bytes zero n = []
to_le_bytes (suc w) n = n % 256 ∷ to_le_bytes w (n / 256)

abbrev from_le_bytes : Bytes → ℕ
from_le_bytes [] = 0
from_le_bytes (b ∷ bs) = b + 256 * from_le_bytes bs

abbrev reverse : Bytes → Bytes
reverse [] = []
reverse (b ∷ bs) = reverse bs ++ b ∷ []

-- The last argument is the number; the one before it is the number of bytes.
pub to_ne_bytes : ByteOrder → ℕ → ℕ → Bytes
to_ne_bytes little_endian w n = to_le_bytes w n
to_ne_bytes big_endian w n = reverse (to_le_bytes w n)

pub from_ne_bytes : ByteOrder → Bytes → ℕ
from_ne_bytes little_endian b = from_le_bytes b
from_ne_bytes big_endian b = from_le_bytes (reverse b)

abbrev pub zeros : ℕ → Bytes
zeros zero = []
zeros (suc n) = 0 ∷ zeros n

pub length-zeros : (n : ℕ) → length (zeros n) ≡ n
length-zeros zero = refl
length-zeros (suc n) = ap suc (length-zeros n)

-- The numbers that fit in so many bytes.
abbrev pub bound : ℕ → ℕ
bound zero = 1
bound (suc w) = 256 * bound w

length-to_le_bytes : (w n : ℕ) → length (to_le_bytes w n) ≡ w
length-to_le_bytes zero n = refl
length-to_le_bytes (suc w) n = ap suc (length-to_le_bytes w (n / 256))

from_le_bytes-to_le_bytes : (w n : ℕ) → n < bound w → from_le_bytes (to_le_bytes w n) ≡ n
from_le_bytes-to_le_bytes zero n h = omega arith
from_le_bytes-to_le_bytes (suc w) n h =
    omega (arith, from_le_bytes-to_le_bytes w (n / 256) (omega arith))

length-reverse : (b : Bytes) → length (reverse b) ≡ length b
length-reverse [] = refl
length-reverse (x ∷ b) = ground (arith, length-reverse b, length-append (reverse b) (x ∷ []))

reverse-append_one : (b : Bytes) (x : ℕ) → reverse (b ++ x ∷ []) ≡ x ∷ reverse b
reverse-append_one [] x = refl
reverse-append_one (y ∷ b) x = ap (λ r. r ++ y ∷ []) (reverse-append_one b x)

reverse-reverse : (b : Bytes) → reverse (reverse b) ≡ b
reverse-reverse [] = refl
reverse-reverse (x ∷ b) = ground (arith, reverse-append_one (reverse b) x, reverse-reverse b)

pub length-to_ne_bytes : (o : ByteOrder) (w n : ℕ) → length (to_ne_bytes o w n) ≡ w
unfolding to_ne_bytes
length-to_ne_bytes little_endian w n = length-to_le_bytes w n
length-to_ne_bytes big_endian w n =
    ground (arith, length-reverse (to_le_bytes w n), length-to_le_bytes w n)

pub from_ne_bytes-to_ne_bytes :
    (o : ByteOrder) (w n : ℕ) → n < bound w → from_ne_bytes o (to_ne_bytes o w n) ≡ n
unfolding to_ne_bytes from_ne_bytes
from_ne_bytes-to_ne_bytes little_endian w n h = from_le_bytes-to_le_bytes w n h
from_ne_bytes-to_ne_bytes big_endian w n h =
    ground (arith, reverse-reverse (to_le_bytes w n), from_le_bytes-to_le_bytes w n h)
