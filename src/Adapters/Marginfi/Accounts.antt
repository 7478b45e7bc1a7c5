-- ===== src/Adapters/Marginfi/Accounts.antt =====
-- The accounts of the four instructions, taken in the order of their structs
-- (programs/marginfi-usdc/src/instructions), and the request that a call makes with them.
use solana_yield_adapter_sta.Base.{arith, >>=-eq-ok, ◌≡◌, ◌>>=◌, List, Result, ok}
use solana_yield_adapter_sta.Runtime.{AccountInfo}
use solana_yield_adapter_sta.Interface.Wire.{Call, initialize, deposit, withdraw, current_value}
use solana_yield_adapter_sta.Adapters
use solana_yield_adapter_sta.Adapters.{initializing, depositing, withdrawing, valuing}
use solana_yield_adapter_sta.Adapters.Standard.{call_of, state_index, account_at}
use solana_yield_adapter_sta.Adapters.Marginfi.Handlers.{
  AdapterInitialize, AdapterDeposit, AdapterWithdraw, AdapterCurrentValue,
}

abbrev pub Request : Type 0
Request = Adapters.Request AdapterInitialize AdapterDeposit AdapterWithdraw AdapterCurrentValue

unfoldable pub take_initialize : List AccountInfo → Result AdapterInitialize
unfolding account_at
take_initialize infos = do
  instructions_sysvar ← account_at 0 infos
  position ← account_at 1 infos
  adapter_state ← account_at 2 infos
  rent_payer ← account_at 3 infos
  system_program ← account_at 4 infos
  marginfi_program ← account_at 5 infos
  marginfi_group ← account_at 6 infos
  marginfi_account ← account_at 7 infos
  bank ← account_at 8 infos
  ok (record {
    instructions_sysvar = instructions_sysvar;
    position = position;
    adapter_state = adapter_state;
    rent_payer = rent_payer;
    system_program = system_program;
    marginfi_program = marginfi_program;
    marginfi_group = marginfi_group;
    marginfi_account = marginfi_account;
    bank = bank;
  })

unfoldable pub take_deposit : List AccountInfo → Result AdapterDeposit
unfolding account_at
take_deposit infos = do
  instructions_sysvar ← account_at 0 infos
  position ← account_at 1 infos
  position_usdc_pool ← account_at 2 infos
  adapter_state ← account_at 3 infos
  marginfi_program ← account_at 4 infos
  marginfi_group ← account_at 5 infos
  marginfi_account ← account_at 6 infos
  bank ← account_at 7 infos
  liquidity_vault ← account_at 8 infos
  token_program ← account_at 9 infos
  ok (record {
    instructions_sysvar = instructions_sysvar;
    position = position;
    position_usdc_pool = position_usdc_pool;
    adapter_state = adapter_state;
    marginfi_program = marginfi_program;
    marginfi_group = marginfi_group;
    marginfi_account = marginfi_account;
    bank = bank;
    liquidity_vault = liquidity_vault;
    token_program = token_program;
  })

unfoldable pub take_withdraw : List AccountInfo → Result AdapterWithdraw
unfolding account_at
take_withdraw infos = do
  instructions_sysvar ← account_at 0 infos
  position ← account_at 1 infos
  position_usdc_pool ← account_at 2 infos
  adapter_state ← account_at 3 infos
  marginfi_program ← account_at 4 infos
  marginfi_group ← account_at 5 infos
  marginfi_account ← account_at 6 infos
  bank ← account_at 7 infos
  bank_liquidity_vault_authority ← account_at 8 infos
  liquidity_vault ← account_at 9 infos
  token_program ← account_at 10 infos
  oracle ← account_at 11 infos
  ok (record {
    instructions_sysvar = instructions_sysvar;
    position = position;
    position_usdc_pool = position_usdc_pool;
    adapter_state = adapter_state;
    marginfi_program = marginfi_program;
    marginfi_group = marginfi_group;
    marginfi_account = marginfi_account;
    bank = bank;
    bank_liquidity_vault_authority = bank_liquidity_vault_authority;
    liquidity_vault = liquidity_vault;
    token_program = token_program;
    oracle = oracle;
  })

unfoldable pub take_current_value : List AccountInfo → Result AdapterCurrentValue
unfolding account_at
take_current_value infos = do
  instructions_sysvar ← account_at 0 infos
  position ← account_at 1 infos
  adapter_state ← account_at 2 infos
  marginfi_account ← account_at 3 infos
  bank ← account_at 4 infos
  ok (record {
    instructions_sysvar = instructions_sysvar;
    position = position;
    adapter_state = adapter_state;
    marginfi_account = marginfi_account;
    bank = bank;
  })

unfoldable pub parse : Call → List AccountInfo → Result Request
parse (initialize d) infos = do a ← take_initialize infos; ok (initializing a d)
parse (deposit n d) infos = do a ← take_deposit infos; ok (depositing a n d)
parse (withdraw n d) infos = do a ← take_withdraw infos; ok (withdrawing a n d)
parse (current_value d) infos = do a ← take_current_value infos; ok (valuing a d)

unfoldable pub sysvar : Request → AccountInfo
sysvar (initializing a d) = a.instructions_sysvar
sysvar (depositing a n d) = a.instructions_sysvar
sysvar (withdrawing a n d) = a.instructions_sysvar
sysvar (valuing a d) = a.instructions_sysvar

unfoldable pub position : Request → AccountInfo
position (initializing a d) = a.position
position (depositing a n d) = a.position
position (withdrawing a n d) = a.position
position (valuing a d) = a.position

unfoldable pub state_account : Request → AccountInfo
state_account (initializing a d) = a.adapter_state
state_account (depositing a n d) = a.adapter_state
state_account (withdrawing a n d) = a.adapter_state
state_account (valuing a d) = a.adapter_state

pub parsed :
    (m : Call) (infos : List AccountInfo) (q : Request)
    → parse m infos ≡ ok q
    → (call_of q ≡ m)
      × (account_at 0 infos ≡ ok (sysvar q))
      × (account_at 1 infos ≡ ok (position q))
      × (account_at (state_index m) infos ≡ ok (state_account q))
unfolding parse sysvar position state_account call_of state_index take_initialize take_deposit
    take_withdraw take_current_value
parsed (initialize d) infos q h =
    let (a, e, rest) = >>=-eq-ok (take_initialize infos) _ h in ground arith
parsed (deposit n d) infos q h =
    let (a, e, rest) = >>=-eq-ok (take_deposit infos) _ h in ground arith
parsed (withdraw n d) infos q h =
    let (a, e, rest) = >>=-eq-ok (take_withdraw infos) _ h in ground arith
parsed (current_value d) infos q h =
    let (a, e, rest) = >>=-eq-ok (take_current_value infos) _ h in ground arith
