-- ===== src/Adapters/Jupiter.antt =====
-- programs/jupiter-lp: the adapter that holds the liquidity token of Jupiter's perpetuals pool. Its
-- parts are the CPIs and the reading of the accounts (jup_cpi.rs), the handlers (instructions/), and
-- what they do.
pub mod Perps
pub mod Calls
pub mod Handlers
pub mod Value
pub mod Shares
pub mod Accounts
pub mod Program
use solana_yield_adapter_sta.Base.{ℕ, Pubkey}
use solana_yield_adapter_sta.Interface.{AdapterStateHeader}
use solana_yield_adapter_sta.Adapters

-- `declare_id!("DwqPJD68SpERitR6NNp9AaizEn5W7ERbDArCkPJqwmzq")`
abbrev pub id : Pubkey
id = 0x5a4c8dfef11fbf16c4e94c86d4eebfae126ee459cd07b249b6db6249b45058c0

pub record AdapterState : Type 0 where
  pub header : AdapterStateHeader
  pub pool : Pubkey
  pub custody : Pubkey
  pub lp_token_account : Pubkey
  pub lp_mint : Pubkey
  pub bump : ℕ

-- 8 + (32 + 32 + 8 + 8) + 32 + 32 + 32 + 32 + 1
abbrev pub state_space : ℕ
state_space = 217

abbrev pub Outcome : Type 0
Outcome = Adapters.Outcome AdapterState
