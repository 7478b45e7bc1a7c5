-- ===== src/Adapters/Marginfi.antt =====
-- programs/marginfi-usdc: the adapter of a MarginFi bank. Its parts are the CPIs and the reading of
-- the accounts (marginfi_cpi.rs), the handlers (instructions/) and what the readings give.
pub mod Bank
pub mod Calls
pub mod Handlers
pub mod Balances
pub mod Value
pub mod Shares
pub mod Accounts
pub mod Program
use solana_yield_adapter_sta.Base.{ℕ, Pubkey}
use solana_yield_adapter_sta.Interface.{AdapterStateHeader}
use solana_yield_adapter_sta.Adapters

-- `declare_id!("5C6BQ9tJdyUjP8Dz1MxHXtYF8EuXX8nXZPLwZvwc6d93")`
abbrev pub id : Pubkey
id = 0xdacd524f2aba4a3686ed0ede8686384385bdd099626d9731087b50b42bfe453e

pub record AdapterState : Type 0 where
  pub header : AdapterStateHeader
  pub marginfi_group : Pubkey
  pub marginfi_account : Pubkey
  pub bank : Pubkey
  pub bump : ℕ

-- 8 + (32 + 32 + 8 + 8) + 32 + 32 + 32 + 1
abbrev pub state_space : ℕ
state_space = 185

abbrev pub Outcome : Type 0
Outcome = Adapters.Outcome AdapterState
