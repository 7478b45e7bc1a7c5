-- ===== src/Adapters/Jupiter/Handlers.antt =====
-- The four instructions of the adapter (programs/jupiter-lp/src/instructions). In each, `validate`
-- stands for the `#[derive(Accounts)]` struct and the other function for the handler.
use solana_yield_adapter_sta.Base.{
  ℕ, ltb, leb, none, some, List, Store, insert, checked_add, checked_sub, Result, ok, of_adapter,
  of_framework, ◌>>=◌, ◌>>◌, require, ok_or, AdapterError, u64_mod, constraint_address,
}
use solana_yield_adapter_sta.Runtime.{Runtime, Chain, AccountInfo, TokenAccount, content_of}
use solana_yield_adapter_sta.Runtime.Anchor.{
  signer, writable, executable, address, program, load_account, load_token, load_mint, init_account,
  init_associated_token,
}
use solana_yield_adapter_sta.Interface.{dispatcher_id, set_u64_return, verify_caller_is_dispatcher}
use solana_yield_adapter_sta.Adapters.{
  math_overflow, unauthorized, adapter_deposit_event, adapter_withdraw_event, adapter_value_event,
  adapter_state_seeds, check_state, check_writable_state, check_data,
}
use solana_yield_adapter_sta.Adapters.Jupiter.{id, AdapterState, state_space, Outcome}
use solana_yield_adapter_sta.Adapters.Jupiter.Perps.{
  LiquidityAccounts, add_liquidity, remove_liquidity, token_amount, lp_value_usdc,
}

pub record AdapterInitialize : Type 0 where
  pub instructions_sysvar : AccountInfo
  pub position : AccountInfo
  pub adapter_state : AccountInfo
  pub rent_payer : AccountInfo
  pub system_program : AccountInfo
  pub lp_token_mint : AccountInfo
  pub lp_token_account : AccountInfo
  pub pool : AccountInfo
  pub custody : AccountInfo
  pub token_program : AccountInfo
  pub associated_token_program : AccountInfo

pub record AdapterDeposit : Type 0 where
  pub instructions_sysvar : AccountInfo
  pub position : AccountInfo
  pub position_usdc_pool : AccountInfo
  pub adapter_state : AccountInfo
  pub jupiter_program : AccountInfo
  pub transfer_authority : AccountInfo
  pub perpetuals : AccountInfo
  pub pool : AccountInfo
  pub custody : AccountInfo
  pub doves_price : AccountInfo
  pub pythnet_price : AccountInfo
  pub custody_token_account : AccountInfo
  pub lp_token_mint : AccountInfo
  pub lp_token_account : AccountInfo
  pub token_program : AccountInfo
  pub event_authority : AccountInfo
  pub remaining_accounts : List AccountInfo

-- The struct of `adapter_withdraw` states the same accounts and constraints.
abbrev pub AdapterWithdraw : Type 0
AdapterWithdraw = AdapterDeposit

pub record AdapterCurrentValue : Type 0 where
  pub instructions_sysvar : AccountInfo
  pub position : AccountInfo
  pub adapter_state : AccountInfo
  pub lp_token_account : AccountInfo
  pub pool : AccountInfo
  pub lp_token_mint : AccountInfo

-- What the validated accounts of a deposit or a withdrawal hold on entry.
pub record Entry : Type 0 where
  pub pool : TokenAccount
  pub state : AdapterState
  pub lp : TokenAccount

-- The bundle that the handlers of deposit and withdraw build alike.
abbrev pub liquidity_accounts : AdapterDeposit → LiquidityAccounts
liquidity_accounts a = record {
  program = a.jupiter_program;
  owner = a.position;
  token_account = a.position_usdc_pool;
  lp_token_account = a.lp_token_account;
  transfer_authority = a.transfer_authority;
  perpetuals = a.perpetuals;
  pool = a.pool;
  custody = a.custody;
  doves_price = a.doves_price;
  pythnet_price = a.pythnet_price;
  custody_token_account = a.custody_token_account;
  lp_token_mint = a.lp_token_mint;
  token_program = a.token_program;
  event_authority = a.event_authority;
}

-- The state with another share count.
abbrev pub with_shares : ℕ → AdapterState → AdapterState
with_shares n st = record st { header = record (st.header) { total_shares = n } }

module _ (rt : Runtime) where
  -- The bump of the new state account, and the chain with it and the liquidity token account.
  unfoldable pub validate_initialize :
      AdapterInitialize → Store AdapterState → Chain → Result (ℕ × Chain)
  unfolding signer writable address program load_mint init_account init_associated_token
  validate_initialize a s c = do
    signer a.rent_payer
    program c a.system_program rt.system_program_id
    load_mint rt c a.lp_token_mint
    program c a.token_program rt.token_program_id
    program c a.associated_token_program rt.associated_token_program_id
    (bump, c₁) ←
        init_account rt id (adapter_state_seeds id a.position.key) state_space a.rent_payer
          a.adapter_state s c
    c₂ ←
        init_associated_token rt a.lp_token_mint.key a.position.key a.rent_payer a.lp_token_account
          c₁
    address a.instructions_sysvar rt.instructions_sysvar_id (of_framework constraint_address)
    writable a.rent_payer
    ok (bump, c₂)

  unfoldable pub adapter_initialize :
      AdapterInitialize → List ℕ → Store AdapterState → Chain → Result Outcome
  unfolding check_data
  adapter_initialize a adapter_data s c = do
    (bump, c₁) ← validate_initialize a s c
    check_data adapter_data
    verify_caller_is_dispatcher rt a.instructions_sysvar dispatcher_id c₁
    let state : AdapterState = record {
      header = record {
        position = a.position.key;
        adapter_program = id;
        created_at = c₁.clock.unix_timestamp;
        total_shares = 0;
      };
      pool = a.pool.key;
      custody = a.custody.key;
      lp_token_account = a.lp_token_account.key;
      lp_mint = a.lp_token_mint.key;
      bump = bump;
    }
    ok (record { state = insert a.adapter_state.key state s; chain = c₁; event = none })

  unfoldable pub validate_deposit : AdapterDeposit → Store AdapterState → Chain → Result Entry
  unfolding writable executable address load_account load_token check_writable_state
  validate_deposit a s c = do
    pool ← load_token rt c a.position_usdc_pool
    state ← load_account s a.adapter_state
    lp ← load_token rt c a.lp_token_account
    address a.instructions_sysvar rt.instructions_sysvar_id (of_framework constraint_address)
    writable a.position_usdc_pool
    check_writable_state rt id state.header state.bump a.position a.adapter_state
    executable c a.jupiter_program
    writable a.pool
    address a.pool state.pool unauthorized
    writable a.custody
    address a.custody state.custody unauthorized
    writable a.custody_token_account
    writable a.lp_token_mint
    writable a.lp_token_account
    address a.lp_token_account state.lp_token_account unauthorized
    ok (record { pool = pool; state = state; lp = lp })

  unfoldable pub adapter_deposit :
      AdapterDeposit → ℕ → List ℕ → Store AdapterState → Chain → Result Outcome
  unfolding check_data load_token
  adapter_deposit a amount adapter_data s c = do
    entry ← validate_deposit a s c
    require (ltb 0 amount) (of_adapter AdapterError.zero_amount)
    check_data adapter_data
    verify_caller_is_dispatcher rt a.instructions_sysvar dispatcher_id c
    c₁ ← add_liquidity rt (liquidity_accounts a) amount a.remaining_accounts c
    lp ← load_token rt c₁ a.lp_token_account
    shares_minted ← ok_or (checked_sub lp.amount entry.lp.amount) math_overflow
    total_shares ←
        ok_or (checked_add u64_mod entry.state.header.total_shares shares_minted) math_overflow
    ok (record {
      state = insert a.adapter_state.key (with_shares total_shares entry.state) s;
      chain = set_u64_return id shares_minted c₁;
      event = some (adapter_deposit_event entry.state.header.position amount shares_minted);
    })

  unfoldable pub validate_withdraw : AdapterWithdraw → Store AdapterState → Chain → Result Entry
  validate_withdraw = validate_deposit

  unfoldable pub adapter_withdraw :
      AdapterWithdraw → ℕ → List ℕ → Store AdapterState → Chain → Result Outcome
  unfolding check_data load_token
  adapter_withdraw a shares adapter_data s c = do
    entry ← validate_withdraw a s c
    require (ltb 0 shares) (of_adapter AdapterError.zero_amount)
    check_data adapter_data
    require (leb shares entry.state.header.total_shares)
        (of_adapter AdapterError.insufficient_shares)
    verify_caller_is_dispatcher rt a.instructions_sysvar dispatcher_id c
    c₁ ← remove_liquidity rt (liquidity_accounts a) shares a.remaining_accounts c
    pool ← load_token rt c₁ a.position_usdc_pool
    amount_out ← ok_or (checked_sub pool.amount entry.pool.amount) math_overflow
    total_shares ← ok_or (checked_sub entry.state.header.total_shares shares) math_overflow
    ok (record {
      state = insert a.adapter_state.key (with_shares total_shares entry.state) s;
      chain = set_u64_return id amount_out c₁;
      event = some (adapter_withdraw_event entry.state.header.position shares amount_out);
    })

  unfoldable pub validate_current_value :
      AdapterCurrentValue → Store AdapterState → Chain → Result AdapterState
  unfolding address load_account check_state
  validate_current_value a s c = do
    state ← load_account s a.adapter_state
    address a.instructions_sysvar rt.instructions_sysvar_id (of_framework constraint_address)
    check_state rt id state.header state.bump a.position a.adapter_state
    address a.lp_token_account state.lp_token_account unauthorized
    address a.pool state.pool unauthorized
    address a.lp_token_mint state.lp_mint unauthorized
    ok state

  unfoldable pub adapter_current_value :
      AdapterCurrentValue → List ℕ → Store AdapterState → Chain → Result Outcome
  unfolding check_data content_of
  adapter_current_value a adapter_data s c = do
    state ← validate_current_value a s c
    check_data adapter_data
    verify_caller_is_dispatcher rt a.instructions_sysvar dispatcher_id c
    lp_balance ← token_amount (content_of c a.lp_token_account.key)
    value ← lp_value_usdc (content_of c a.pool.key) (content_of c a.lp_token_mint.key) lp_balance
    ok (record {
      state = s;
      chain = set_u64_return id value c;
      event = some (adapter_value_event state.header.position value c.clock.slot);
    })
