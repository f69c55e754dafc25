-- ===== src/Error.antt =====
-- src/error.rs: the error of every fallible operation, and the chaining of `?`.
use kpexec.Prelude.{◌≡◌, refl, Option, none, some, ◌⊎◌, inl, inr}
pub use kpexec.Message.{Piece, text, debug, number, Message}
use kpexec.Status.{KpexecStatus, config_error, internal}

pub record KpexecError : Type 0 where
  pub status : KpexecStatus
  pub message : Message

pub data Result {ℓ} (A : Type ℓ) : Type ℓ where
  ok : A → Result A
  err : KpexecError → Result A

abbrev pub fail {ℓ} : {A : Type ℓ} → KpexecStatus → Message → Result A
fail status message = err (record { status = status; message = message })

abbrev pub config_err : Message → KpexecError
config_err message = record { status = config_error; message = message }

abbrev pub internal_err : Message → KpexecError
internal_err message = record { status = internal; message = message }

-- `Option::ok_or_else`.
abbrev pub ok_or {ℓ} : {A : Type ℓ} → Option A → KpexecError → Result A
ok_or (some a) e = ok a
ok_or none e = err e

infixl 5 ◌>>=◌
abbrev pub ◌>>=◌ {ℓ κ} : {A : Type ℓ} {B : Type κ} → Result A → (A → Result B) → Result B
err failure >>= next = err failure
ok value >>= next = next value

pub Result-cases {ℓ} :
    {A : Type ℓ} (r : Result A) → ((a : A) × (r ≡ ok a)) ⊎ ((e : KpexecError) × (r ≡ err e))
Result-cases (ok a) = inl (a, refl)
Result-cases (err e) = inr (e, refl)

infixl 5 ◌>>◌
abbrev pub ◌>>◌ {κ} : {B : Type κ} → Result (Unit {0}) → Result B → Result B
check >> next = check >>= λ _. next

-- A chain that succeeds has succeeded in its first step.
pub >>=-eq-ok {ℓ κ} :
    {A : Type ℓ} {B : Type κ} {b : B} (first : Result A) (next : A → Result B)
    → (first >>= next) ≡ ok b
    → (value : A) × (first ≡ ok value) × (next value ≡ ok b)
>>=-eq-ok (err failure) next h = cc
>>=-eq-ok (ok value) next h = (value, refl, h)
