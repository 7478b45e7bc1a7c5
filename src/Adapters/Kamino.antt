-- ===== src/Adapters/Kamino.antt =====
-- programs/kamino-usdc: the adapter of a Kamino Lend reserve. Its parts are the CPIs and the reading
-- of the reserve (klend_cpi.rs), the handlers (instructions/) and what they do.
pub mod Klend
pub mod Handlers
pub mod Value
pub mod Shares
pub mod Accounts
pub mod Program
pub mod Callers
use solana_yield_adapter_sta.Base.{ℕ, Pubkey}
use solana_yield_adapter_sta.Interface.{AdapterStateHeader}
use solana_yield_adapter_sta.Adapters

-- `declare_id!("BSwbiwogeLmYLYXfYb3t4WWNDD3x5tJHCZyZJLVRLuf9")`
abbrev pub id : Pubkey
id = 0x2ced0b8740cf420536ce4f246948430363ee013ee3a601c803ddbf51d91f3a9b

pub record AdapterState : Type 0 where
  pub header : AdapterStateHeader
  pub kamino_reserve : Pubkey
  pub collateral_vault : Pubkey
  pub bump : ℕ

-- 8 + (32 + 32 + 8 + 8) + 32 + 32 + 1
abbrev pub state_space : ℕ
state_space = 153

abbrev pub Outcome : Type 0
Outcome = Adapters.Outcome AdapterState
