-- ===== src/Client/Effect.antt =====
-- A computation over the state of the mount that may end with an error of the client: what `?` does
-- in a function with the result `Result<A, FsError>` of crates/alloyfs-client/src/error.rs.
use alloyfs.Base.{Bool, true, false, Option, none, some, ◌≡◌, refl, if◌then◌else◌}
use alloyfs.Proto.Errors.{ErrorCode, Result, ok, err}
use alloyfs.Client.Errno.{FsError, remote}

pub data FsResult {ℓ} (A : Type ℓ) : Type ℓ where
  success : A → FsResult A
  failure : FsError → FsResult A

abbrev pub Effect : Type 0 → Type 0 → Type 0
Effect S A = S → FsResult A × S

-- `From<ErrorCode> for FsError`
abbrev pub from_code {ℓ} : {A : Type ℓ} → Result A → FsResult A
from_code (ok a) = success a
from_code (err code) = failure (remote code)

module _ {S : Type 0} where
  abbrev pub continue : {A B : Type 0} → FsResult A × S → (A → Effect S B) → FsResult B × S
  continue (success a, s) k = k a s
  continue (failure e, s) k = (failure e, s)

  infixl 5 ◌>>=◌ ◌>>◌
  unfoldable pub ◌>>=◌ : {A B : Type 0} → Effect S A → (A → Effect S B) → Effect S B
  ◌>>=◌ first k s = continue (first s) k

  abbrev pub ◌>>◌ : {A B : Type 0} → Effect S A → Effect S B → Effect S B
  ◌>>◌ first second = first >>= λ _. second

  abbrev pub pure : {A : Type 0} → A → Effect S A
  pure a s = (success a, s)

  abbrev pub gets : {A : Type 0} → (S → A) → Effect S A
  gets f s = (success (f s), s)

  abbrev pub modify : (S → S) → Effect S (Unit {0})
  modify f s = (success tt, f s)

  -- `return Err(code.into())`
  abbrev pub raise : {A : Type 0} → ErrorCode → Effect S A
  raise code s = (failure (remote code), s)

  abbrev pub raise_if : Bool → ErrorCode → Effect S (Unit {0})
  raise_if true code = raise code
  raise_if false code = pure tt

  abbrev pub or_raise : {A : Type 0} → Option A → ErrorCode → Effect S A
  or_raise none code = raise code
  or_raise (some a) code = pure a

  -- A property of the state that a computation keeps, however it ends.
  abbrev pub Keeps {ℓ} : {A : Type 0} → (S → Type ℓ) → Effect S A → Type ℓ
  Keeps P m = (s : S) → P s → P (m s).1

  Keeps-continue {ℓ} :
      {A B : Type 0} (P : S → Type ℓ) (r : FsResult A × S) (k : A → Effect S B)
      → P r.1
      → ((a : A) → Keeps P (k a))
      → P (continue r k).1
  Keeps-continue P (success a, s) k p h = h a s p
  Keeps-continue P (failure e, s) k p h = p

  pub Keeps-bind {ℓ} :
      {A B : Type 0} (P : S → Type ℓ) (m : Effect S A) (k : A → Effect S B)
      → Keeps P m
      → ((a : A) → Keeps P (k a))
      → Keeps P (m >>= k)
  unfolding ◌>>=◌
  Keeps-bind P m k h h' s p = Keeps-continue P (m s) k (h s p) h'

  pub Keeps-or_raise {ℓ} :
      {A : Type 0} (P : S → Type ℓ) (o : Option A) (code : ErrorCode)
      → Keeps P (or_raise {A = A} o code)
  Keeps-or_raise P none code s p = p
  Keeps-or_raise P (some a) code s p = p

  pub Keeps-raise_if {ℓ} :
      (P : S → Type ℓ) (b : Bool) (code : ErrorCode) → Keeps P (raise_if b code)
  Keeps-raise_if P true code s p = p
  Keeps-raise_if P false code s p = p

  -- Both branches of a test, with its outcome.
  pub Keeps-if {ℓ} :
      {A : Type 0} (P : S → Type ℓ) (b : Bool) (m n : Effect S A)
      → (b ≡ true → Keeps P m)
      → (b ≡ false → Keeps P n)
      → Keeps P (if b then m else n)
  Keeps-if P true m n h h' = h refl
  Keeps-if P false m n h h' = h' refl

module _ {S : Type 0} where
  -- The computation succeeds, with such a result and such a state.
  abbrev pub Ends : {A : Type 0} → (A → S → Type 0) → FsResult A × S → Type 0
  Ends Q (success a, s) = Q a s
  Ends Q (failure e, s) = ⊥

  Ends-continue :
      {A B : Type 0} (Q : A → S → Type 0) (R : B → S → Type 0) (r : FsResult A × S)
      (k : A → Effect S B)
      → Ends Q r
      → ((a : A) (s : S) → Q a s → Ends R (k a s))
      → Ends R (continue r k)
  Ends-continue Q R (success a, s) k q h = h a s q
  Ends-continue Q R (failure e, s) k q h = absurd q

  pub Ends-bind :
      {A B : Type 0} (Q : A → S → Type 0) (R : B → S → Type 0) (m : Effect S A) (k : A → Effect S B)
      (s : S)
      → Ends Q (m s)
      → ((a : A) (s' : S) → Q a s' → Ends R (k a s'))
      → Ends R ((m >>= k) s)
  unfolding ◌>>=◌
  Ends-bind Q R m k s q h = Ends-continue Q R (m s) k q h

  pub Ends-result :
      {A : Type 0} (Q : A → S → Type 0) (r : FsResult A × S)
      → Ends Q r
      → (a : A) × (s : S) × (r ≡ (success a, s)) × Q a s
  Ends-result Q (success a, s) q = (a, s, refl, q)
  Ends-result Q (failure e, s) q = absurd q

  pub Ends-map :
      {A : Type 0} (Q R : A → S → Type 0) (r : FsResult A × S)
      → Ends Q r
      → ((a : A) (s : S) → Q a s → R a s)
      → Ends R r
  Ends-map Q R (success a, s) q f = f a s q
  Ends-map Q R (failure e, s) q f = absurd q

  -- A first computation whose outcome is known.
  pub Ends-step :
      {A B : Type 0} (R : B → S → Type 0) (m : Effect S A) (k : A → Effect S B) (s s' : S) (a : A)
      → m s ≡ (success a, s')
      → Ends R (k a s')
      → Ends R ((m >>= k) s)
  unfolding ◌>>=◌
  Ends-step R m k s s' a e h = rw e h
