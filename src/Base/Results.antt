-- ===== src/Base/Results.antt =====
-- The result of a handler: a value, or one of the errors that the programs report. An error aborts
-- the transaction, so it carries no state. The two error enums stand in the source's order.
use mathlib.Core.Path.{◌≡◌, refl}
use mathlib.Core.Logic.{◌⊎◌, inl, inr}
use mathlib.Core.Bool.{Bool, true, false}
use mathlib.Core.Option.{Option, none, some}

-- The codes of `crates/adapter-interface`.
pub data AdapterError : Type 0 where
  unauthorized zero_amount insufficient_shares math_overflow version_mismatch : AdapterError
  stale_oracle adapter_state_uninit adapter_data_too_large cpi_failed : AdapterError

-- The codes of `programs/dispatcher`.
pub data DispatcherError : Type 0 where
  unauthorized adapter_inactive version_mismatch registry_full name_too_long zero_amount :
      DispatcherError
  math_overflow not_executable missing_return_data adapter_mismatch stale_value : DispatcherError

-- What the framework and the runtime answer where the source names no code of its own.
pub data FrameworkError : Type 0 where
  constraint_seeds constraint_address constraint_executable constraint_mut : FrameworkError
  constraint_token_mint constraint_token_owner constraint_associated : FrameworkError
  account_not_signer account_not_initialized account_in_use invalid_program_id : FrameworkError
  account_not_enough_keys sysvar_unreadable token_transfer_failed create_account_failed :
      FrameworkError

pub data Error : Type 0 where
  of_dispatcher : DispatcherError → Error
  of_adapter : AdapterError → Error
  of_framework : FrameworkError → Error

-- What an instruction returns: `Ok(value)`, or `Err(error)`, which `?` hands on.
pub data Result {ℓ} (V : Type ℓ) : Type ℓ where
  ok : V → Result V
  err : Error → Result V

infixl 5 ◌>>=◌ ◌>>◌
-- `m?`, and then what uses its value.
abbrev pub ◌>>=◌ {ℓ κ} : {V : Type ℓ} {B : Type κ} → Result V → (V → Result B) → Result B
err error >>= next = err error
ok value >>= next = next value

-- A check and then the rest.
abbrev pub ◌>>◌ {ℓ} : {V : Type ℓ} → Result (Unit {0}) → Result V → Result V
check >> rest = check >>= λ _. rest

-- `require!(b, e)`.
abbrev pub require : Bool → Error → Result (Unit {0})
require false error = err error
require true error = ok tt

-- `o.ok_or(e)`.
abbrev pub ok_or {ℓ} : {A : Type ℓ} → Option A → Error → Result A
ok_or none e = err e
ok_or (some a) e = ok a

-- Inversion of a successful chain, one step at a time.
pub >>=-eq-ok {ℓ κ} :
    {V : Type ℓ} {B : Type κ} (step : Result V) (next : V → Result B) {last : B}
    → (step >>= next) ≡ ok last
    → (value : V) × (step ≡ ok value) × (next value ≡ ok last)
>>=-eq-ok (err error) next done = cc
>>=-eq-ok (ok value) next done = (value, refl, done)

pub require-eq-ok {κ} :
    {B : Type κ} (c : Bool) (e : Error) (k : Result B) {b : B}
    → (require c e >> k) ≡ ok b
    → (c ≡ true) × (k ≡ ok b)
require-eq-ok true e k h = (refl, h)
require-eq-ok false e k h = cc

pub ok_or-eq-ok {ℓ κ} :
    {A : Type ℓ} {B : Type κ} (o : Option A) (e : Error) (f : A → Result B) {b : B}
    → (ok_or o e >>= f) ≡ ok b
    → (a : A) × (o ≡ some a) × (f a ≡ ok b)
ok_or-eq-ok none e f h = cc
ok_or-eq-ok (some a) e f h = (a, refl, h)

pub ok_or-some {ℓ} : {A : Type ℓ} (o : Option A) (e : Error) {a : A} → ok_or o e ≡ ok a → o ≡ some a
ok_or-some none e h = cc
ok_or-some (some a) e h = cc

pub Result-cases {ℓ} :
    {A : Type ℓ} (r : Result A) → ((a : A) × (r ≡ ok a)) ⊎ ((e : Error) × (r ≡ err e))
Result-cases (ok a) = inl (a, refl)
Result-cases (err e) = inr (e, refl)
