-- ===== src/Common/Action.antt =====
-- A computation over a shared state that may end with an error code: what `?` does in a function with
-- the result `Result<A, ErrorCode>`. What was written before the error stays written.
use alloyfs.Base.{Bool, true, false, Option, none, some, ◌≡◌, refl, if◌then◌else◌}
use alloyfs.Proto.Errors.{ErrorCode, Result, ok, err}

abbrev pub Action : Type 0 → Type 0 → Type 0
Action S A = S → Result A × S

module _ {S : Type 0} where
  abbrev pub continue : {A B : Type 0} → Result A × S → (A → Action S B) → Result B × S
  continue (ok a, s) k = k a s
  continue (err e, s) k = (err e, s)

  infixl 5 ◌>>=◌ ◌>>◌
  unfoldable pub ◌>>=◌ : {A B : Type 0} → Action S A → (A → Action S B) → Action S B
  ◌>>=◌ first k s = continue (first s) k

  abbrev pub ◌>>◌ : {A B : Type 0} → Action S A → Action S B → Action S B
  ◌>>◌ first second = first >>= λ _. second

  abbrev pub pure : {A : Type 0} → A → Action S A
  pure a s = (ok a, s)

  abbrev pub gets : {A : Type 0} → (S → A) → Action S A
  gets f s = (ok (f s), s)

  abbrev pub modify : (S → S) → Action S (Unit {0})
  modify f s = (ok tt, f s)

  abbrev pub lift : {A : Type 0} → Result A → Action S A
  lift r s = (r, s)

  -- `if condition { return Err(code) }`
  abbrev pub raise_if : Bool → ErrorCode → Action S (Unit {0})
  raise_if true code s = (err code, s)
  raise_if false code s = (ok tt, s)

  -- `ok_or`
  abbrev pub or_raise : {A : Type 0} → Option A → ErrorCode → Action S A
  or_raise none code s = (err code, s)
  or_raise (some a) code s = (ok a, s)

  -- A property of the state that a computation keeps, however it ends.
  abbrev pub Keeps {ℓ} : {A : Type 0} → (S → Type ℓ) → Action S A → Type ℓ
  Keeps P m = (s : S) → P s → P (m s).1

  Keeps-continue {ℓ} :
      {A B : Type 0} (P : S → Type ℓ) (r : Result A × S) (k : A → Action S B)
      → P r.1
      → ((a : A) → Keeps P (k a))
      → P (continue r k).1
  Keeps-continue P (ok a, s) k p h = h a s p
  Keeps-continue P (err e, s) k p h = p

  pub Keeps-bind {ℓ} :
      {A B : Type 0} (P : S → Type ℓ) (m : Action S A) (k : A → Action S B)
      → Keeps P m
      → ((a : A) → Keeps P (k a))
      → Keeps P (m >>= k)
  unfolding ◌>>=◌
  Keeps-bind P m k h h' s p = Keeps-continue P (m s) k (h s p) h'

  pub Keeps-raise_if {ℓ} :
      (P : S → Type ℓ) (b : Bool) (code : ErrorCode) → Keeps P (raise_if b code)
  Keeps-raise_if P true code s p = p
  Keeps-raise_if P false code s p = p

  pub Keeps-or_raise {ℓ} :
      {A : Type 0} (P : S → Type ℓ) (o : Option A) (code : ErrorCode) → Keeps P (or_raise o code)
  Keeps-or_raise P none code s p = p
  Keeps-or_raise P (some a) code s p = p

  -- What comes after a test has the test behind it.
  pub Keeps-unless {ℓ} :
      {A : Type 0} (P : S → Type ℓ) (b : Bool) (code : ErrorCode) (k : Unit {0} → Action S A)
      → (b ≡ false → Keeps P (k tt))
      → Keeps P (raise_if b code >>= k)
  unfolding ◌>>=◌
  Keeps-unless P true code k h s p = p
  Keeps-unless P false code k h s p = h refl s p

  pub Keeps-if {ℓ} :
      {A : Type 0} (P : S → Type ℓ) (b : Bool) (m n : Action S A)
      → Keeps P m
      → Keeps P n
      → Keeps P (if b then m else n)
  Keeps-if P true m n h h' = h
  Keeps-if P false m n h h' = h'
