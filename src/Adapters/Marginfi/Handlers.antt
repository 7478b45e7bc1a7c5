-- ===== src/Adapters/Marginfi/Handlers.antt =====
-- The four instructions of the adapter (programs/marginfi-usdc/src/instructions). In each, `validate`
-- stands for the `#[derive(Accounts)]` struct and the other function for the handler.
use solana_yield_adapter_sta.Base.{
  ℕ, ltb, leb, none, some, List, Store, insert, checked_add, checked_sub, Result, ok, of_adapter,
  of_framework, ◌>>=◌, ◌>>◌, require, ok_or, AdapterError, u64_mod, constraint_address,
  if◌then◌else◌,
}
use solana_yield_adapter_sta.Runtime.{Runtime, Chain, AccountInfo, TokenAccount, content_of}
use solana_yield_adapter_sta.Runtime.Anchor.{
  signer, writable, executable, address, program, load_account, load_token, init_account,
}
use solana_yield_adapter_sta.Interface.{dispatcher_id, set_u64_return, verify_caller_is_dispatcher}
use solana_yield_adapter_sta.Adapters.{
  math_overflow, unauthorized, adapter_deposit_event, adapter_withdraw_event, adapter_value_event,
  adapter_state_seeds, check_state, check_writable_state, check_data,
}
use solana_yield_adapter_sta.Adapters.Marginfi.{id, AdapterState, state_space, Outcome}
use solana_yield_adapter_sta.Adapters.Marginfi.Bank.{
  init_account_pda, deposit, withdraw, account_asset_shares, bank_asset_share_value, shares_to_usdc,
}

pub record AdapterInitialize : Type 0 where
  pub instructions_sysvar : AccountInfo
  pub position : AccountInfo
  pub adapter_state : AccountInfo
  pub rent_payer : AccountInfo
  pub system_program : AccountInfo
  pub marginfi_program : AccountInfo
  pub marginfi_group : AccountInfo
  pub marginfi_account : AccountInfo
  pub bank : AccountInfo

pub record AdapterDeposit : Type 0 where
  pub instructions_sysvar : AccountInfo
  pub position : AccountInfo
  pub position_usdc_pool : AccountInfo
  pub adapter_state : AccountInfo
  pub marginfi_program : AccountInfo
  pub marginfi_group : AccountInfo
  pub marginfi_account : AccountInfo
  pub bank : AccountInfo
  pub liquidity_vault : AccountInfo
  pub token_program : AccountInfo

pub record AdapterWithdraw : Type 0 where
  pub instructions_sysvar : AccountInfo
  pub position : AccountInfo
  pub position_usdc_pool : AccountInfo
  pub adapter_state : AccountInfo
  pub marginfi_program : AccountInfo
  pub marginfi_group : AccountInfo
  pub marginfi_account : AccountInfo
  pub bank : AccountInfo
  pub bank_liquidity_vault_authority : AccountInfo
  pub liquidity_vault : AccountInfo
  pub token_program : AccountInfo
  pub oracle : AccountInfo

pub record AdapterCurrentValue : Type 0 where
  pub instructions_sysvar : AccountInfo
  pub position : AccountInfo
  pub adapter_state : AccountInfo
  pub marginfi_account : AccountInfo
  pub bank : AccountInfo

-- What the validated accounts of a deposit or a withdrawal hold on entry.
pub record Entry : Type 0 where
  pub state : AdapterState
  pub pool : TokenAccount

-- The state with another share count.
abbrev pub with_shares : ℕ → AdapterState → AdapterState
with_shares n st = record st { header = record (st.header) { total_shares = n } }

module _ (rt : Runtime) where
  -- The bump of the new state account, and the chain with it.
  unfoldable pub validate_initialize :
      AdapterInitialize → Store AdapterState → Chain → Result (ℕ × Chain)
  unfolding signer writable executable address program init_account
  validate_initialize a s c = do
    signer a.rent_payer
    program c a.system_program rt.system_program_id
    (bump, c₁) ←
        init_account rt id (adapter_state_seeds id a.position.key) state_space a.rent_payer
          a.adapter_state s c
    address a.instructions_sysvar rt.instructions_sysvar_id (of_framework constraint_address)
    writable a.rent_payer
    executable c a.marginfi_program
    writable a.marginfi_account
    ok (bump, c₁)

  unfoldable pub adapter_initialize :
      AdapterInitialize → List ℕ → Store AdapterState → Chain → Result Outcome
  unfolding check_data
  adapter_initialize a adapter_data s c = do
    (bump, c₁) ← validate_initialize a s c
    check_data adapter_data
    verify_caller_is_dispatcher rt a.instructions_sysvar dispatcher_id c₁
    c₂ ←
        init_account_pda rt a.marginfi_program a.marginfi_group a.marginfi_account a.position
          a.rent_payer a.instructions_sysvar a.system_program c₁
    let state : AdapterState = record {
      header = record {
        position = a.position.key;
        adapter_program = id;
        created_at = c₂.clock.unix_timestamp;
        total_shares = 0;
      };
      marginfi_group = a.marginfi_group.key;
      marginfi_account = a.marginfi_account.key;
      bank = a.bank.key;
      bump = bump;
    }
    ok (record { state = insert a.adapter_state.key state s; chain = c₂; event = none })

  unfoldable pub validate_deposit : AdapterDeposit → Store AdapterState → Chain → Result Entry
  unfolding writable executable address load_account load_token check_writable_state
  validate_deposit a s c = do
    pool ← load_token rt c a.position_usdc_pool
    state ← load_account s a.adapter_state
    address a.instructions_sysvar rt.instructions_sysvar_id (of_framework constraint_address)
    writable a.position_usdc_pool
    check_writable_state rt id state.header state.bump a.position a.adapter_state
    executable c a.marginfi_program
    address a.marginfi_group state.marginfi_group unauthorized
    writable a.marginfi_account
    address a.marginfi_account state.marginfi_account unauthorized
    writable a.bank
    address a.bank state.bank unauthorized
    writable a.liquidity_vault
    ok (record { state = state; pool = pool })

  unfoldable pub adapter_deposit :
      AdapterDeposit → ℕ → List ℕ → Store AdapterState → Chain → Result Outcome
  unfolding check_data
  adapter_deposit a amount adapter_data s c = do
    entry ← validate_deposit a s c
    require (ltb 0 amount) (of_adapter AdapterError.zero_amount)
    check_data adapter_data
    verify_caller_is_dispatcher rt a.instructions_sysvar dispatcher_id c
    c₁ ←
        deposit rt a.marginfi_program a.marginfi_group a.marginfi_account a.position a.bank
          a.position_usdc_pool a.liquidity_vault a.token_program amount c
    total_shares ← ok_or (checked_add u64_mod entry.state.header.total_shares amount) math_overflow
    ok (record {
      state = insert a.adapter_state.key (with_shares total_shares entry.state) s;
      chain = set_u64_return id amount c₁;
      event = some (adapter_deposit_event entry.state.header.position amount amount);
    })

  unfoldable pub validate_withdraw : AdapterWithdraw → Store AdapterState → Chain → Result Entry
  unfolding writable executable address load_account load_token check_writable_state
  validate_withdraw a s c = do
    pool ← load_token rt c a.position_usdc_pool
    state ← load_account s a.adapter_state
    address a.instructions_sysvar rt.instructions_sysvar_id (of_framework constraint_address)
    writable a.position_usdc_pool
    check_writable_state rt id state.header state.bump a.position a.adapter_state
    executable c a.marginfi_program
    address a.marginfi_group state.marginfi_group unauthorized
    writable a.marginfi_account
    address a.marginfi_account state.marginfi_account unauthorized
    writable a.bank
    address a.bank state.bank unauthorized
    writable a.liquidity_vault
    ok (record { state = state; pool = pool })

  unfoldable pub adapter_withdraw :
      AdapterWithdraw → ℕ → List ℕ → Store AdapterState → Chain → Result Outcome
  unfolding check_data load_token
  adapter_withdraw a shares adapter_data s c = do
    entry ← validate_withdraw a s c
    require (ltb 0 shares) (of_adapter AdapterError.zero_amount)
    check_data adapter_data
    verify_caller_is_dispatcher rt a.instructions_sysvar dispatcher_id c
    let booked = entry.state.header.total_shares
    let withdraw_all = leb booked shares
    c₁ ←
        withdraw rt a.marginfi_program a.marginfi_group a.marginfi_account a.position a.bank
          a.position_usdc_pool a.bank_liquidity_vault_authority a.liquidity_vault a.token_program
          a.oracle shares withdraw_all c
    pool ← load_token rt c₁ a.position_usdc_pool
    amount_out ← ok_or (checked_sub pool.amount entry.pool.amount) math_overflow
    total_shares ← (if withdraw_all then ok 0 else ok_or (checked_sub booked shares) math_overflow)
    ok (record {
      state = insert a.adapter_state.key (with_shares total_shares entry.state) s;
      chain = set_u64_return id amount_out c₁;
      event = some (adapter_withdraw_event entry.state.header.position shares amount_out);
    })

  unfoldable pub validate_current_value :
      AdapterCurrentValue → Store AdapterState → Chain → Result AdapterState
  unfolding address load_account check_state
  validate_current_value a s c = do
    state ← load_account s a.adapter_state
    address a.instructions_sysvar rt.instructions_sysvar_id (of_framework constraint_address)
    check_state rt id state.header state.bump a.position a.adapter_state
    address a.marginfi_account state.marginfi_account unauthorized
    address a.bank state.bank unauthorized
    ok state

  unfoldable pub adapter_current_value :
      AdapterCurrentValue → List ℕ → Store AdapterState → Chain → Result Outcome
  unfolding check_data content_of
  adapter_current_value a adapter_data s c = do
    state ← validate_current_value a s c
    check_data adapter_data
    verify_caller_is_dispatcher rt a.instructions_sysvar dispatcher_id c
    shares ← account_asset_shares (content_of c a.marginfi_account.key) state.bank
    share_value ← bank_asset_share_value (content_of c a.bank.key)
    value ← shares_to_usdc shares share_value
    ok (record {
      state = s;
      chain = set_u64_return id value c;
      event = some (adapter_value_event state.header.position value c.clock.slot);
    })
