-- ===== src/Agent/Session/Token.antt =====
-- `token_eq` of crates/alloyfs-common/src/lib.rs: equality of secrets in constant time. The bytes of
-- a token are the characters of its text.
pub mod Equality
use Prim.Native.Nat.{bit_or, bit_xor}
use alloyfs.Base.{ℕ, Bool, false, List, [], ◌∷◌, length, not, ◌==◌, if◌then◌else◌}

-- The fold over the pairs of bytes.
unfoldable pub differences : ℕ → List ℕ → List ℕ → ℕ
differences acc [] b = acc
differences acc (x ∷ a) [] = acc
differences acc (x ∷ a) (y ∷ b) = differences (bit_or acc (bit_xor x y)) a b

unfoldable pub token_eq : List ℕ → List ℕ → Bool
token_eq a b = if not (length a == length b) then false else differences 0 a b == 0
