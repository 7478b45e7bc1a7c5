-- ===== src/Adapters/Drift.antt =====
-- programs/drift-if: the adapter that stakes in Drift's insurance fund for USDC. Its parts are the
-- CPIs and the reading of the accounts (drift_cpi.rs), the handlers (instructions/), and what they do.
pub mod Stake
pub mod Calls
pub mod Handlers
pub mod Value
pub mod Shares
pub mod Accounts
pub mod Program
use solana_yield_adapter_sta.Base.{ℕ, Pubkey}
use solana_yield_adapter_sta.Interface.{AdapterStateHeader}
use solana_yield_adapter_sta.Adapters

-- `declare_id!("CUa5e7HetWzXfn7czcFSsr8gd6SrfaK2dqzTC11jeGnF")`
abbrev pub id : Pubkey
id = 0x44230f12809aca902dfae699c84d9dfc30e623191b5a5988c77e53dc46a480aa

pub record AdapterState : Type 0 where
  pub header : AdapterStateHeader
  pub spot_market : Pubkey
  pub insurance_fund_stake : Pubkey
  pub user_stats : Pubkey
  pub bump : ℕ

-- 8 + (32 + 32 + 8 + 8) + 32 + 32 + 32 + 1
abbrev pub state_space : ℕ
state_space = 185

abbrev pub Outcome : Type 0
Outcome = Adapters.Outcome AdapterState
