-- ===== src/Server/Failures.antt =====
-- pkg/apperrors/errors.go: an error as the sentinel that `errors.Is` finds in it, and its message.
use gocourier.Common.{ℕ, ◌≡◌, refl, Bool, true, false, List, [], ◌∷◌, String, ◌==◌, template}

-- `other` is an error that wraps none of the sentinels.
pub data Kind : Type 0 where
  duplicate not_found validation transient permanent unauthorized circuit_open other : Kind

abbrev pub kind_number : Kind → ℕ
kind_number Kind.duplicate = 0
kind_number Kind.not_found = 1
kind_number Kind.validation = 2
kind_number Kind.transient = 3
kind_number Kind.permanent = 4
kind_number Kind.unauthorized = 5
kind_number Kind.circuit_open = 6
kind_number Kind.other = 7

pub record Failure : Type 0 where
  pub kind : Kind
  pub message : String

-- What a Go function returns: a value, or an error that is not nil.
pub data Outcome {ℓ} (A : Type ℓ) : Type ℓ where
  ok : A → Outcome A
  err : Failure → Outcome A

infixl 5 ◌>>=◌ ◌>>◌
abbrev pub ◌>>=◌ {ℓ κ} : {A : Type ℓ} {B : Type κ} → Outcome A → (A → Outcome B) → Outcome B
ok a >>= f = f a
err e >>= f = err e

abbrev pub ◌>>◌ {ℓ} : {B : Type ℓ} → Outcome (Unit {0}) → Outcome B → Outcome B
m >> k = m >>= λ _. k

-- `if test { return err }`.
abbrev pub fail_if : Bool → Failure → Outcome (Unit {0})
fail_if Bool.true e = err e
fail_if Bool.false e = ok tt

-- `errors.Is(err, sentinel)`.
abbrev pub is : Kind → Failure → Bool
is k e = kind_number e.kind == kind_number k

abbrev pub err_duplicate : Failure
err_duplicate = record { kind = Kind.duplicate; message = "duplicate idempotency key" }

abbrev pub err_not_found : Failure
err_not_found = record { kind = Kind.not_found; message = "not found" }

abbrev pub err_validation : Failure
err_validation = record { kind = Kind.validation; message = "validation error" }

abbrev pub err_transient : Failure
err_transient = record { kind = Kind.transient; message = "transient error" }

abbrev pub err_permanent : Failure
err_permanent = record { kind = Kind.permanent; message = "permanent error" }

abbrev pub err_unauthorized : Failure
err_unauthorized = record { kind = Kind.unauthorized; message = "unauthorized" }

abbrev pub err_circuit_open : Failure
err_circuit_open = record { kind = Kind.circuit_open; message = "circuit breaker open" }

unfoldable pub is_transient : Failure → Bool
is_transient e = is Kind.transient e

unfoldable pub is_permanent : Failure → Bool
is_permanent e = is Kind.permanent e

-- `fmt.Errorf(text)`, which wraps nothing.
abbrev pub errorf : List String → Failure
errorf parts = record { kind = Kind.other; message = template parts }

-- `fmt.Errorf("%w: text", e)`.
abbrev pub extended : Failure → String → Failure
extended e text = record e { message = template (e.message ∷ ": " ∷ text ∷ []) }

-- `fmt.Errorf("text: %w", e)`.
abbrev pub prefixed : String → Failure → Failure
prefixed text e = record e { message = template (text ∷ ": " ∷ e.message ∷ []) }

-- What a chain of outcomes returns, each of its links returned.
pub ok-of :
    {A B : Type 0} (m : Outcome A) (f : A → Outcome B) (b : B)
    → (m >>= f) ≡ ok b
    → (a : A) × (m ≡ ok a) × (f a ≡ ok b)
ok-of (ok a) f b h = (a, refl, h)
ok-of (err e) f b h = cc

pub guard-of :
    {B : Type 0} (c : Bool) (e : Failure) (m : Outcome B) (b : B)
    → (fail_if c e >> m) ≡ ok b
    → (c ≡ false) × (m ≡ ok b)
guard-of true e m b h = cc
guard-of false e m b h = (refl, h)
