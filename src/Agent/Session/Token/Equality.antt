-- ===== src/Agent/Session/Token/Equality.antt =====
-- The comparison of secrets decides equality, although it never stops early.
use Prim.Native.Nat.{bit_or, bit_xor, bit_or-bitwise, bit_xor-bitwise, digits, differ}
use alloyfs.Base.{
  ℕ, zero, suc, ◌/◌, ◌%◌, ◌≤◌, ◌≡◌, refl, ap, sym, ◌∙◌, ◌↔◌, max, true, List, [], ◌∷◌, length, ◌==◌,
  ==_iff, arith, Bool-cases, inl, inr,
}
use alloyfs.Agent.Session.Token.{token_eq, differences}

differ-zero : (x y : ℕ) → differ x y ≡ 0 → x ≡ y
differ-zero zero y e = sym e
differ-zero (suc x) zero e = ground arith
differ-zero (suc x) (suc y) e = ap suc (differ-zero x y e)

differ_self : (x : ℕ) → differ x x ≡ 0
differ_self zero = refl
differ_self (suc x) = differ_self x

-- The digits of the exclusive or are all zero only of equal numbers.
digits-differ : (n a b : ℕ) → a ≤ n → digits (λ c. c) differ n a b ≡ 0 → a ≡ b
digits-differ zero a b le e = omega (arith, le, e)
digits-differ (suc n) zero b le e = sym e
digits-differ (suc n) (suc a) b le e =
    let high : digits (λ c. c) differ n (suc a / 2) (b / 2) ≡ 0 = omega (arith, e) in
    let low : differ (suc a % 2) (b % 2) ≡ 0 = omega (arith, e) in
    let halves = digits-differ n (suc a / 2) (b / 2) (omega arith) high in
    let last = differ-zero (suc a % 2) (b % 2) low in omega (arith, halves, last)

digits-differ_same : (n a : ℕ) → a ≤ n → digits (λ c. c) differ n a a ≡ 0
digits-differ_same zero a le = omega arith
digits-differ_same (suc n) zero le = refl
digits-differ_same (suc n) (suc a) le =
    omega (arith, digits-differ_same n (suc a / 2) (omega arith), differ_self (suc a % 2))

digits-max : (n a b : ℕ) → a ≤ n → digits (λ c. c) max n a b ≡ 0 → (a ≡ 0) × (b ≡ 0)
digits-max zero a b le e = (omega arith, e)
digits-max (suc n) zero b le e = (refl, e)
digits-max (suc n) (suc a) b le e =
    let high : digits (λ c. c) max n (suc a / 2) (b / 2) ≡ 0 = omega (arith, e) in
    let low : max (suc a % 2) (b % 2) ≡ 0 = omega (arith, e) in
    let (halves, halves') = digits-max n (suc a / 2) (b / 2) (omega arith) high in
    (omega (arith, halves, low), omega (arith, halves', low))

bit_xor-zero : (a b : ℕ) → (bit_xor a b ≡ 0) ↔ (a ≡ b)
bit_xor-zero a b =
    let same : bit_xor a b ≡ digits (λ c. c) differ a a b = λ i. bit_xor-bitwise a b i in
    (
      λ e. digits-differ a a b (omega arith) (sym same ∙ e),
      λ e. same ∙ ap (digits (λ c. c) differ a a) (sym e) ∙ digits-differ_same a a (omega arith),
    )

bit_or-zero : (a b : ℕ) → (bit_or a b ≡ 0) ↔ ((a ≡ 0) × (b ≡ 0))
bit_or-zero a b =
    let same : bit_or a b ≡ digits (λ c. c) max a a b = λ i. bit_or-bitwise a b i in
    (λ e. digits-max a a b (omega arith) (sym same ∙ e), λ (e, e'). same ∙ rw (e, e') refl)

differences_lem :
    (acc : ℕ) (a b : List ℕ)
    → length a ≡ length b
    → (differences acc a b ≡ 0) ↔ ((acc ≡ 0) × (a ≡ b))
unfolding differences
differences_lem acc [] [] e = (λ z. (z, refl), λ h. h.0)
differences_lem acc [] (y ∷ b) e = ground arith
differences_lem acc (x ∷ a) [] e = ground arith
differences_lem acc (x ∷ a) (y ∷ b) e = ground (
  arith,
  differences_lem (bit_or acc (bit_xor x y)) a b (omega (arith, e)),
  bit_or-zero acc (bit_xor x y),
  bit_xor-zero x y,
)

-- Two tokens compare as equal exactly when they are.
pub token_eq_lem : (a b : List ℕ) → (token_eq a b ≡ true) ↔ (a ≡ b)
unfolding token_eq
token_eq_lem a b = elim (Bool-cases (length a == length b)) [
  | inl e ↦
      ground (
        arith,
        e,
        ==_iff (length a) (length b),
        differences_lem 0 a b,
        ==_iff (differences 0 a b) 0,
      )
  | inr e ↦
      (λ h. ground (arith, e), λ s. ground (arith, e, ap length s, ==_iff (length a) (length b)))
]
