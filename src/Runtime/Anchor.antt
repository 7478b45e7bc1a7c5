-- ===== src/Runtime/Anchor.antt =====
-- The constraints that the `#[derive(Accounts)]` structs state, as guards. A constraint with an
-- error after `@` reports that error; the others report the framework's. An account that the
-- program owns is loaded from the program's own store.
use solana_yield_adapter_sta.Base.{
  ℕ, ◌==◌, ◌&&◌, Bool, true, false, Option, none, some, List, [], ◌∷◌, ◌++◌, Pubkey, Store, lookup,
  Result, ok, Error, of_framework, ◌>>=◌, ◌>>◌, require, ok_or, constraint_seeds,
  constraint_executable, constraint_mut, constraint_associated, account_not_signer,
  account_not_initialized, account_in_use, invalid_program_id, create_account_failed,
  token_transfer_failed,
}
use solana_yield_adapter_sta.Runtime.{
  Runtime, Chain, AccountInfo, TokenAccount, Seed, byte, executable_at, token_at, mint_at,
}

unfoldable pub signer : AccountInfo → Result (Unit {0})
signer a = require a.is_signer (of_framework account_not_signer)

-- `mut`.
unfoldable pub writable : AccountInfo → Result (Unit {0})
writable a = require a.is_writable (of_framework constraint_mut)

unfoldable pub executable : Chain → AccountInfo → Result (Unit {0})
executable c a = require (executable_at c a.key) (of_framework constraint_executable)

-- `address = k @ e`, and `constraint = a.key() == k @ e`.
unfoldable pub address : AccountInfo → Pubkey → Error → Result (Unit {0})
address a k e = require (a.key == k) e

-- `Program<'info, T>` with the id of `T`.
unfoldable pub program : Chain → AccountInfo → Pubkey → Result (Unit {0})
program c a id = require (a.key == id && executable_at c a.key) (of_framework invalid_program_id)

-- `Account<'info, T>` for a `T` of the program itself.
unfoldable pub load_account {ℓ} : {V : Type ℓ} → Store V → AccountInfo → Result V
load_account s a = ok_or (lookup a.key s) (of_framework account_not_initialized)

unfoldable pub is_address : Option Pubkey → Pubkey → Bool
is_address none k = false
is_address (some j) k = j == k

unfoldable pub is_absent {ℓ} : {V : Type ℓ} → Option V → Bool
is_absent none = true
is_absent (some v) = false

module _ (rt : Runtime) where
  -- `Account<'info, TokenAccount>`, and its `reload`.
  unfoldable pub load_token : Chain → AccountInfo → Result TokenAccount
  load_token c a = ok_or (token_at rt c a.key) (of_framework account_not_initialized)

  -- `Account<'info, Mint>`.
  unfoldable pub load_mint : Chain → AccountInfo → Result (Unit {0})
  load_mint c a = require (mint_at rt c a.key) (of_framework account_not_initialized)

  -- `seeds = [..], bump = b`, in the program `id`.
  unfoldable pub seeds_with_bump : Pubkey → List Seed → ℕ → AccountInfo → Result (Unit {0})
  unfolding is_address
  seeds_with_bump id seeds b a =
      require (is_address (rt.create_program_address (seeds ++ byte b ∷ []) id) a.key)
        (of_framework constraint_seeds)

  -- `init, payer = p, space = n, seeds = [..], bump`: the bump, and the chain with the account.
  -- An account that the program already owns there refuses the creation.
  unfoldable pub init_account {ℓ} :
      {V : Type ℓ}
      → Pubkey
      → List Seed
      → ℕ
      → AccountInfo
      → AccountInfo
      → Store V
      → Chain
      → Result (ℕ × Chain)
  unfolding is_absent
  init_account id seeds space payer a s c = do
    let found = rt.find_program_address seeds id
    require (a.key == found.0) (of_framework constraint_seeds)
    require (is_absent (lookup a.key s)) (of_framework account_in_use)
    c' ← ok_or (rt.create_account a.key payer.key id space c) (of_framework create_account_failed)
    ok (found.1, c')

  -- `init, payer = p, associated_token::mint = m, associated_token::authority = o`.
  unfoldable pub init_associated_token :
      Pubkey → Pubkey → AccountInfo → AccountInfo → Chain → Result Chain
  init_associated_token mint authority payer a c = do
    require (a.key == rt.associated_token_address authority mint)
        (of_framework constraint_associated)
    ok_or (rt.create_token_account a.key payer.key authority mint c)
        (of_framework create_account_failed)

  -- `token::transfer(..)?`, called by the program `id`.
  unfoldable pub token_transfer :
      Pubkey → AccountInfo → AccountInfo → AccountInfo → ℕ → List (List Seed) → Chain → Result Chain
  token_transfer id from to authority amount seeds c =
      ok_or (rt.transfer id from.key to.key authority.key amount seeds c)
        (of_framework token_transfer_failed)
