-- ===== src/Adapters/Drift/Handlers.antt =====
-- The four instructions of the adapter (programs/drift-if/src/instructions). In each, `validate`
-- stands for the `#[derive(Accounts)]` struct and the other function for the handler.
use solana_yield_adapter_sta.Base.{
  ℕ, ltb, leb, none, some, List, Store, insert, checked_add, checked_sub, try_u64, Result, ok,
  of_adapter, of_framework, ◌>>=◌, ◌>>◌, require, ok_or, AdapterError, u64_mod, constraint_address,
}
use solana_yield_adapter_sta.Runtime.{Runtime, Chain, AccountInfo, TokenAccount, content_of}
use solana_yield_adapter_sta.Runtime.Anchor.{
  signer, writable, executable, address, program, load_account, load_token, init_account,
}
use solana_yield_adapter_sta.Interface.{dispatcher_id, set_u64_return, verify_caller_is_dispatcher}
use solana_yield_adapter_sta.Adapters.{
  math_overflow, unauthorized, adapter_deposit_event, adapter_withdraw_event, adapter_value_event,
  adapter_state_seeds, check_state, check_writable_state, check_data,
}
use solana_yield_adapter_sta.Adapters.Drift.{id, AdapterState, state_space, Outcome}
use solana_yield_adapter_sta.Adapters.Drift.Stake.{
  stake_shares, stake_value_usdc, init_user_stats, init_if_stake, add_stake, request_remove,
  remove_stake,
}

pub record AdapterInitialize : Type 0 where
  pub instructions_sysvar : AccountInfo
  pub position : AccountInfo
  pub adapter_state : AccountInfo
  pub rent_payer : AccountInfo
  pub system_program : AccountInfo
  pub drift_program : AccountInfo
  pub state : AccountInfo
  pub spot_market : AccountInfo
  pub user_stats : AccountInfo
  pub insurance_fund_stake : AccountInfo
  pub rent : AccountInfo

pub record AdapterDeposit : Type 0 where
  pub instructions_sysvar : AccountInfo
  pub position : AccountInfo
  pub position_usdc_pool : AccountInfo
  pub adapter_state : AccountInfo
  pub drift_program : AccountInfo
  pub state : AccountInfo
  pub spot_market : AccountInfo
  pub insurance_fund_stake : AccountInfo
  pub user_stats : AccountInfo
  pub spot_market_vault : AccountInfo
  pub insurance_fund_vault : AccountInfo
  pub drift_signer : AccountInfo
  pub token_program : AccountInfo

pub record AdapterWithdraw : Type 0 where
  pub instructions_sysvar : AccountInfo
  pub position : AccountInfo
  pub position_usdc_pool : AccountInfo
  pub adapter_state : AccountInfo
  pub drift_program : AccountInfo
  pub state : AccountInfo
  pub spot_market : AccountInfo
  pub insurance_fund_stake : AccountInfo
  pub user_stats : AccountInfo
  pub insurance_fund_vault : AccountInfo
  pub drift_signer : AccountInfo
  pub token_program : AccountInfo

pub record AdapterCurrentValue : Type 0 where
  pub instructions_sysvar : AccountInfo
  pub position : AccountInfo
  pub adapter_state : AccountInfo
  pub insurance_fund_stake : AccountInfo
  pub spot_market : AccountInfo
  pub insurance_fund_vault : AccountInfo

-- What the validated accounts of a deposit or a withdrawal hold on entry.
pub record Entry : Type 0 where
  pub pool : TokenAccount
  pub state : AdapterState

-- The state with another share count.
abbrev pub with_shares : ℕ → AdapterState → AdapterState
with_shares n st = record st { header = record (st.header) { total_shares = n } }

module _ (rt : Runtime) where
  -- The bump of the new state account, and the chain with it.
  unfoldable pub validate_initialize :
      AdapterInitialize → Store AdapterState → Chain → Result (ℕ × Chain)
  unfolding signer writable executable address program init_account
  validate_initialize a s c = do
    signer a.rent_payer
    program c a.system_program rt.system_program_id
    (bump, c₁) ←
        init_account rt id (adapter_state_seeds id a.position.key) state_space a.rent_payer
          a.adapter_state s c
    address a.instructions_sysvar rt.instructions_sysvar_id (of_framework constraint_address)
    writable a.rent_payer
    executable c a.drift_program
    writable a.state
    writable a.user_stats
    writable a.insurance_fund_stake
    address a.rent rt.rent_sysvar_id (of_framework constraint_address)
    ok (bump, c₁)

  unfoldable pub adapter_initialize :
      AdapterInitialize → List ℕ → Store AdapterState → Chain → Result Outcome
  unfolding check_data
  adapter_initialize a adapter_data s c = do
    (bump, c₁) ← validate_initialize a s c
    check_data adapter_data
    verify_caller_is_dispatcher rt a.instructions_sysvar dispatcher_id c₁
    c₂ ←
        init_user_stats rt a.drift_program a.user_stats a.state a.position a.rent_payer a.rent
          a.system_program c₁
    c₃ ←
        init_if_stake rt a.drift_program a.spot_market a.insurance_fund_stake a.user_stats a.state
          a.position a.rent_payer a.rent a.system_program c₂
    let state : AdapterState = record {
      header = record {
        position = a.position.key;
        adapter_program = id;
        created_at = c₃.clock.unix_timestamp;
        total_shares = 0;
      };
      spot_market = a.spot_market.key;
      insurance_fund_stake = a.insurance_fund_stake.key;
      user_stats = a.user_stats.key;
      bump = bump;
    }
    ok (record { state = insert a.adapter_state.key state s; chain = c₃; event = none })

  unfoldable pub validate_deposit : AdapterDeposit → Store AdapterState → Chain → Result Entry
  unfolding writable executable address load_account load_token check_writable_state
  validate_deposit a s c = do
    pool ← load_token rt c a.position_usdc_pool
    state ← load_account s a.adapter_state
    address a.instructions_sysvar rt.instructions_sysvar_id (of_framework constraint_address)
    writable a.position_usdc_pool
    check_writable_state rt id state.header state.bump a.position a.adapter_state
    executable c a.drift_program
    writable a.spot_market
    address a.spot_market state.spot_market unauthorized
    writable a.insurance_fund_stake
    address a.insurance_fund_stake state.insurance_fund_stake unauthorized
    writable a.user_stats
    address a.user_stats state.user_stats unauthorized
    writable a.spot_market_vault
    writable a.insurance_fund_vault
    ok (record { pool = pool; state = state })

  -- The shares are read from the stake account before and after the CPI.
  unfoldable pub adapter_deposit :
      AdapterDeposit → ℕ → List ℕ → Store AdapterState → Chain → Result Outcome
  unfolding check_data content_of
  adapter_deposit a amount adapter_data s c = do
    entry ← validate_deposit a s c
    require (ltb 0 amount) (of_adapter AdapterError.zero_amount)
    check_data adapter_data
    verify_caller_is_dispatcher rt a.instructions_sysvar dispatcher_id c
    before ← stake_shares (content_of c a.insurance_fund_stake.key)
    c₁ ←
        add_stake rt a.drift_program a.state a.spot_market a.insurance_fund_stake a.user_stats
          a.position a.spot_market_vault a.insurance_fund_vault a.drift_signer a.position_usdc_pool
          a.token_program amount c
    after ← stake_shares (content_of c₁ a.insurance_fund_stake.key)
    difference ← ok_or (checked_sub after before) math_overflow
    shares_minted ← ok_or (try_u64 difference) math_overflow
    total_shares ←
        ok_or (checked_add u64_mod entry.state.header.total_shares shares_minted) math_overflow
    ok (record {
      state = insert a.adapter_state.key (with_shares total_shares entry.state) s;
      chain = set_u64_return id shares_minted c₁;
      event = some (adapter_deposit_event entry.state.header.position amount shares_minted);
    })

  unfoldable pub validate_withdraw : AdapterWithdraw → Store AdapterState → Chain → Result Entry
  unfolding writable executable address load_account load_token check_writable_state
  validate_withdraw a s c = do
    pool ← load_token rt c a.position_usdc_pool
    state ← load_account s a.adapter_state
    address a.instructions_sysvar rt.instructions_sysvar_id (of_framework constraint_address)
    writable a.position_usdc_pool
    check_writable_state rt id state.header state.bump a.position a.adapter_state
    executable c a.drift_program
    writable a.spot_market
    address a.spot_market state.spot_market unauthorized
    writable a.insurance_fund_stake
    address a.insurance_fund_stake state.insurance_fund_stake unauthorized
    writable a.user_stats
    address a.user_stats state.user_stats unauthorized
    writable a.insurance_fund_vault
    ok (record { pool = pool; state = state })

  unfoldable pub adapter_withdraw :
      AdapterWithdraw → ℕ → List ℕ → Store AdapterState → Chain → Result Outcome
  unfolding check_data load_token
  adapter_withdraw a shares adapter_data s c = do
    entry ← validate_withdraw a s c
    require (ltb 0 shares) (of_adapter AdapterError.zero_amount)
    check_data adapter_data
    require (leb shares entry.state.header.total_shares)
        (of_adapter AdapterError.insufficient_shares)
    verify_caller_is_dispatcher rt a.instructions_sysvar dispatcher_id c
    c₁ ←
        request_remove rt a.drift_program a.spot_market a.insurance_fund_stake a.user_stats
          a.position a.insurance_fund_vault shares c
    c₂ ←
        remove_stake rt a.drift_program a.state a.spot_market a.insurance_fund_stake a.user_stats
          a.position a.insurance_fund_vault a.drift_signer a.position_usdc_pool a.token_program c₁
    pool ← load_token rt c₂ a.position_usdc_pool
    amount_out ← ok_or (checked_sub pool.amount entry.pool.amount) math_overflow
    total_shares ← ok_or (checked_sub entry.state.header.total_shares shares) math_overflow
    ok (record {
      state = insert a.adapter_state.key (with_shares total_shares entry.state) s;
      chain = set_u64_return id amount_out c₂;
      event = some (adapter_withdraw_event entry.state.header.position shares amount_out);
    })

  unfoldable pub validate_current_value :
      AdapterCurrentValue → Store AdapterState → Chain → Result AdapterState
  unfolding address load_account check_state
  validate_current_value a s c = do
    state ← load_account s a.adapter_state
    address a.instructions_sysvar rt.instructions_sysvar_id (of_framework constraint_address)
    check_state rt id state.header state.bump a.position a.adapter_state
    address a.insurance_fund_stake state.insurance_fund_stake unauthorized
    address a.spot_market state.spot_market unauthorized
    ok state

  unfoldable pub adapter_current_value :
      AdapterCurrentValue → List ℕ → Store AdapterState → Chain → Result Outcome
  unfolding check_data content_of
  adapter_current_value a adapter_data s c = do
    state ← validate_current_value a s c
    check_data adapter_data
    verify_caller_is_dispatcher rt a.instructions_sysvar dispatcher_id c
    value ←
        stake_value_usdc (content_of c a.insurance_fund_stake.key) (content_of c a.spot_market.key)
          (content_of c a.insurance_fund_vault.key)
    ok (record {
      state = s;
      chain = set_u64_return id value c;
      event = some (adapter_value_event state.header.position value c.clock.slot);
    })
