-- ===== src/Adapters/Maple.antt =====
-- programs/maple-syrup: the adapter that holds syrupUSDC, bought and sold on an Orca whirlpool. Its
-- parts are the swap and the reading of the pool (orca_cpi.rs), the handlers (instructions/), and the
-- price.
pub mod Orca
pub mod Calls
pub mod Handlers
pub mod Value
pub mod Shares
pub mod Accounts
pub mod Program
use solana_yield_adapter_sta.Base.{ℕ, Pubkey}
use solana_yield_adapter_sta.Interface.{AdapterStateHeader}
use solana_yield_adapter_sta.Adapters

-- `declare_id!("3Y1AddXDAnzw14UYpjLByWSJYTncMj7uFNJN9Egwzqh9")`
abbrev pub id : Pubkey
id = 0xc0978d182a380ea70de16d7b8f62d86f611c7f019cf02fa3fa589e3f1391a825

pub record AdapterState : Type 0 where
  pub header : AdapterStateHeader
  pub whirlpool : Pubkey
  pub syrup_token_account : Pubkey
  pub bump : ℕ

-- 8 + (32 + 32 + 8 + 8) + 32 + 32 + 1
abbrev pub state_space : ℕ
state_space = 153

abbrev pub Outcome : Type 0
Outcome = Adapters.Outcome AdapterState
