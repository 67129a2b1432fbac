-- ===== src/Base/Errors.antt =====
-- Python's exceptions as values. A function that may raise returns a `Result`.
use Prim.Native.Nat.{ℕ}
use Prim.Native.String.{String}
use mathlib.Core.Path.{◌≡◌, refl, ap}
use native.Mathlib.Omega.{arith}
use mathlib.Core.Logic.{◌⊎◌, inl, inr}

-- The exceptions that the modelled code raises itself or lets pass. `system_exit` is `sys.exit`
-- with a message, `exit_error` is `sys.exit` with a caught exception, `exit_status` is `sys.exit` with a number, `exception` is `raise Exception(...)`,
-- and `api_exception` is the Kubernetes client's `ApiException` with its status.
pub data Error : Type 0 where
  key_error index_error type_error attribute_error value_error : Error
  unicode_error binascii_error system_error os_error recursion_error : Error
  system_exit exception : String → Error
  exit_status api_exception : ℕ → Error
  exit_error : Error → Error

pub data Result {ℓ} (A : Type ℓ) : Type ℓ where
  ok : A → Result A
  err : Error → Result A

-- The first exception ends a chain of calls.
infixl 5 ◌>>=◌ ◌>>◌
abbrev pub ◌>>=◌ {ℓ κ} : {A : Type ℓ} {B : Type κ} → Result A → (A → Result B) → Result B
err raised >>= next = err raised
ok returned >>= next = next returned

abbrev pub ◌>>◌ {ℓ κ} : {A : Type ℓ} {B : Type κ} → Result A → Result B → Result B
first >> second = first >>= λ _. second

-- A chain that returns has returned at each step.
pub ok_of_bind {ℓ κ} :
    {A : Type ℓ} {B : Type κ} (r : Result A) (next : A → Result B) (y : B)
    → (r >>= next) ≡ ok y
    → (x : A) × (r ≡ ok x) × (next x ≡ ok y)
ok_of_bind (err raised) next y h = absurd (ground arith)
ok_of_bind (ok x) next y h = (x, refl, h)

-- To split on a computed result and keep the equation.
pub Result-cases {ℓ} :
    {A : Type ℓ} (r : Result A) → ((a : A) × (r ≡ ok a)) ⊎ ((e : Error) × (r ≡ err e))
Result-cases (ok a) = inl (a, refl)
Result-cases (err e) = inr (e, refl)

pub ok-injective {ℓ} : {A : Type ℓ} (x y : A) → ok x ≡ ok y → x ≡ y
ok-injective x y h = ap (λ r. elim r [ ok z ↦ z | err raised ↦ x ]) h

pub err-injective {ℓ} : {A : Type ℓ} (x y : Error) → ◌≡◌ {A = Result A} (err x) (err y) → x ≡ y
err-injective x y h = ap (λ r. elim r [ ok z ↦ x | err raised ↦ raised ]) h

-- A chain whose first step raises, raises that.
pub err_of_bind {ℓ κ} :
    {A : Type ℓ} {B : Type κ} (r : Result A) (next : A → Result B) (raised e : Error)
    → r ≡ err raised
    → (r >>= next) ≡ err e
    → r ≡ err e
err_of_bind (ok x) next raised e f h = absurd (ground arith)
err_of_bind {B = B} (err given) next raised e f h = ap err (err-injective {A = B} given e h)
