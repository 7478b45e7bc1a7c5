-- ===== src/Adapters/Kamino/Handlers.antt =====
-- The four instructions of the adapter (programs/kamino-usdc/src/instructions). In each, `validate`
-- stands for the `#[derive(Accounts)]` struct and the other function for the handler. A token account
-- that the struct loads keeps the amount that it had on entry until it is reloaded.
use solana_yield_adapter_sta.Base.{
  ℕ, ltb, leb, ◌==◌, none, some, List, Store, insert, min, checked_add, checked_sub, Result, ok,
  of_adapter, of_framework, ◌>>=◌, ◌>>◌, require, ok_or, AdapterError, u64_mod, constraint_address,
}
use solana_yield_adapter_sta.Runtime.{
  Runtime, Chain, AccountInfo, TokenAccount, content_of, owner_of,
}
use solana_yield_adapter_sta.Runtime.Anchor.{
  signer, writable, executable, address, program, load_account, load_token, load_mint, init_account,
  init_associated_token,
}
use solana_yield_adapter_sta.Interface.{dispatcher_id, set_u64_return, verify_caller_is_dispatcher}
use solana_yield_adapter_sta.Adapters.{
  math_overflow, unauthorized, adapter_deposit_event, adapter_withdraw_event, adapter_value_event,
  adapter_state_seeds, check_state, check_writable_state, check_data,
}
use solana_yield_adapter_sta.Adapters.Kamino.{id, AdapterState, state_space, Outcome}
use solana_yield_adapter_sta.Adapters.Kamino.Klend.{
  KlendAccounts, refresh_reserve, deposit_reserve_liquidity, redeem_reserve_collateral,
  collateral_value_usdc, reserve_last_update_slot,
}

pub record AdapterInitialize : Type 0 where
  pub instructions_sysvar : AccountInfo
  pub position : AccountInfo
  pub adapter_state : AccountInfo
  pub rent_payer : AccountInfo
  pub system_program : AccountInfo
  pub reserve : AccountInfo
  pub reserve_collateral_mint : AccountInfo
  pub collateral_vault : AccountInfo
  pub token_program : AccountInfo
  pub associated_token_program : AccountInfo

pub record AdapterDeposit : Type 0 where
  pub instructions_sysvar : AccountInfo
  pub position : AccountInfo
  pub position_usdc_pool : AccountInfo
  pub adapter_state : AccountInfo
  pub reserve : AccountInfo
  pub lending_market : AccountInfo
  pub lending_market_authority : AccountInfo
  pub reserve_liquidity_mint : AccountInfo
  pub reserve_liquidity_supply : AccountInfo
  pub reserve_collateral_mint : AccountInfo
  pub collateral_vault : AccountInfo
  pub collateral_token_program : AccountInfo
  pub liquidity_token_program : AccountInfo
  pub scope_prices : AccountInfo
  pub klend_program : AccountInfo

-- The struct of `adapter_withdraw` states the same accounts and constraints.
abbrev pub AdapterWithdraw : Type 0
AdapterWithdraw = AdapterDeposit

pub record AdapterCurrentValue : Type 0 where
  pub instructions_sysvar : AccountInfo
  pub position : AccountInfo
  pub adapter_state : AccountInfo
  pub reserve : AccountInfo
  pub lending_market : AccountInfo
  pub scope_prices : AccountInfo
  pub klend_program : AccountInfo

-- What the validated accounts of a deposit or a withdrawal hold on entry.
pub record Entry : Type 0 where
  pub state : AdapterState
  pub pool : TokenAccount
  pub vault : TokenAccount

-- The bundle that the handlers of deposit and withdraw build alike.
abbrev pub klend_accounts : AdapterDeposit → KlendAccounts
klend_accounts a = record {
  klend_program = a.klend_program;
  owner = a.position;
  reserve = a.reserve;
  lending_market = a.lending_market;
  lending_market_authority = a.lending_market_authority;
  reserve_liquidity_mint = a.reserve_liquidity_mint;
  reserve_liquidity_supply = a.reserve_liquidity_supply;
  reserve_collateral_mint = a.reserve_collateral_mint;
  user_liquidity = a.position_usdc_pool;
  user_collateral = a.collateral_vault;
  collateral_token_program = a.collateral_token_program;
  liquidity_token_program = a.liquidity_token_program;
  instruction_sysvar = a.instructions_sysvar;
  scope_prices = a.scope_prices;
}

-- The state with another share count.
abbrev pub with_shares : ℕ → AdapterState → AdapterState
with_shares n st = record st { header = record (st.header) { total_shares = n } }

module _ (rt : Runtime) where
  -- The bump of the new state account, and the chain with it and the collateral account.
  unfoldable pub validate_initialize :
      AdapterInitialize → Store AdapterState → Chain → Result (ℕ × Chain)
  unfolding signer writable address program load_mint init_account init_associated_token
  validate_initialize a s c = do
    signer a.rent_payer
    program c a.system_program rt.system_program_id
    load_mint rt c a.reserve_collateral_mint
    program c a.token_program rt.token_program_id
    program c a.associated_token_program rt.associated_token_program_id
    (bump, c₁) ←
        init_account rt id (adapter_state_seeds id a.position.key) state_space a.rent_payer
          a.adapter_state s c
    c₂ ←
        init_associated_token rt a.reserve_collateral_mint.key a.position.key a.rent_payer
          a.collateral_vault c₁
    address a.instructions_sysvar rt.instructions_sysvar_id (of_framework constraint_address)
    writable a.rent_payer
    ok (bump, c₂)

  unfoldable pub adapter_initialize :
      AdapterInitialize → List ℕ → Store AdapterState → Chain → Result Outcome
  unfolding validate_initialize check_data
  adapter_initialize a adapter_data s c = do
    (bump, c₁) ← validate_initialize a s c
    check_data adapter_data
    verify_caller_is_dispatcher rt a.instructions_sysvar dispatcher_id c₁
    let state : AdapterState = record {
      header = record {
        position = a.position.key;
        adapter_program = id;
        created_at = c.clock.unix_timestamp;
        total_shares = 0;
      };
      kamino_reserve = a.reserve.key;
      collateral_vault = a.collateral_vault.key;
      bump = bump;
    }
    ok (record { state = insert a.adapter_state.key state s; chain = c₁; event = none })

  unfoldable pub validate_deposit : AdapterDeposit → Store AdapterState → Chain → Result Entry
  unfolding writable executable address load_account load_token check_writable_state
  validate_deposit a s c = do
    pool ← load_token rt c a.position_usdc_pool
    state ← load_account s a.adapter_state
    vault ← load_token rt c a.collateral_vault
    address a.instructions_sysvar rt.instructions_sysvar_id (of_framework constraint_address)
    writable a.position_usdc_pool
    check_writable_state rt id state.header state.bump a.position a.adapter_state
    writable a.reserve
    address a.reserve state.kamino_reserve unauthorized
    writable a.reserve_liquidity_supply
    writable a.reserve_collateral_mint
    writable a.collateral_vault
    address a.collateral_vault state.collateral_vault unauthorized
    require (owner_of c a.reserve.key == a.klend_program.key) unauthorized
    executable c a.klend_program
    ok (record { state = state; pool = pool; vault = vault })

  unfoldable pub adapter_deposit :
      AdapterDeposit → ℕ → List ℕ → Store AdapterState → Chain → Result Outcome
  unfolding check_data load_token
  adapter_deposit a amount adapter_data s c = do
    entry ← validate_deposit a s c
    require (ltb 0 amount) (of_adapter AdapterError.zero_amount)
    check_data adapter_data
    verify_caller_is_dispatcher rt a.instructions_sysvar dispatcher_id c
    c₁ ← refresh_reserve rt a.klend_program a.reserve a.lending_market a.scope_prices c
    c₂ ← deposit_reserve_liquidity rt (klend_accounts a) amount c₁
    vault ← load_token rt c₂ a.collateral_vault
    shares_minted ← ok_or (checked_sub vault.amount entry.vault.amount) math_overflow
    total_shares ←
        ok_or (checked_add u64_mod entry.state.header.total_shares shares_minted) math_overflow
    ok (record {
      state = insert a.adapter_state.key (with_shares total_shares entry.state) s;
      chain = set_u64_return id shares_minted c₂;
      event = some (adapter_deposit_event entry.state.header.position amount shares_minted);
    })

  unfoldable pub validate_withdraw : AdapterWithdraw → Store AdapterState → Chain → Result Entry
  validate_withdraw = validate_deposit

  unfoldable pub adapter_withdraw :
      AdapterWithdraw → ℕ → List ℕ → Store AdapterState → Chain → Result Outcome
  unfolding check_data load_token validate_withdraw
  adapter_withdraw a shares adapter_data s c = do
    entry ← validate_withdraw a s c
    require (ltb 0 shares) (of_adapter AdapterError.zero_amount)
    check_data adapter_data
    require (leb shares entry.state.header.total_shares)
        (of_adapter AdapterError.insufficient_shares)
    verify_caller_is_dispatcher rt a.instructions_sysvar dispatcher_id c
    c₁ ← refresh_reserve rt a.klend_program a.reserve a.lending_market a.scope_prices c
    c₂ ← redeem_reserve_collateral rt (klend_accounts a) shares c₁
    pool ← load_token rt c₂ a.position_usdc_pool
    amount_out ← ok_or (checked_sub pool.amount entry.pool.amount) math_overflow
    total_shares ← ok_or (checked_sub entry.state.header.total_shares shares) math_overflow
    ok (record {
      state = insert a.adapter_state.key (with_shares total_shares entry.state) s;
      chain = set_u64_return id amount_out c₂;
      event = some (adapter_withdraw_event entry.state.header.position shares amount_out);
    })

  unfoldable pub validate_current_value :
      AdapterCurrentValue → Store AdapterState → Chain → Result AdapterState
  unfolding writable executable address load_account check_state
  validate_current_value a s c = do
    state ← load_account s a.adapter_state
    address a.instructions_sysvar rt.instructions_sysvar_id (of_framework constraint_address)
    check_state rt id state.header state.bump a.position a.adapter_state
    writable a.reserve
    address a.reserve state.kamino_reserve unauthorized
    require (owner_of c a.reserve.key == a.klend_program.key) unauthorized
    executable c a.klend_program
    ok state

  unfoldable pub adapter_current_value :
      AdapterCurrentValue → List ℕ → Store AdapterState → Chain → Result Outcome
  unfolding check_data content_of
  adapter_current_value a adapter_data s c = do
    state ← validate_current_value a s c
    check_data adapter_data
    verify_caller_is_dispatcher rt a.instructions_sysvar dispatcher_id c
    c₁ ← refresh_reserve rt a.klend_program a.reserve a.lending_market a.scope_prices c
    let reserve_data = content_of c₁ a.reserve.key
    value ← collateral_value_usdc reserve_data state.header.total_shares
    reserve_slot ← reserve_last_update_slot reserve_data
    let as_of_slot = min c₁.clock.slot reserve_slot
    ok (record {
      state = s;
      chain = set_u64_return id value c₁;
      event = some (adapter_value_event state.header.position value as_of_slot);
    })
