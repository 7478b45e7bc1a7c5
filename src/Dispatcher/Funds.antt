-- ===== src/Dispatcher/Funds.antt =====
-- The instructions of a position: open_position.rs, deposit.rs, withdraw.rs and current_value.rs. In
-- each, `validate` stands for the `#[derive(Accounts)]` struct and the other function for the handler.
pub mod Gate
pub mod Deposits
pub mod Withdrawals
pub mod Readings
pub mod Openings
use solana_yield_adapter_sta.Base.{
  ℕ, ltb, ◌==◌, Bool, true, false, Option, none, some, List, [], ◌∷◌, ◌++◌, Pubkey, Store, lookup,
  insert, Result, ok, err, of_dispatcher, of_framework, ◌>>=◌, ◌>>◌, require, ok_or, if◌then◌else◌,
  DispatcherError, constraint_address, constraint_token_mint, constraint_token_owner,
}
use solana_yield_adapter_sta.Runtime.{Runtime, Chain, AccountInfo, TokenAccount, Seed, byte}
use solana_yield_adapter_sta.Runtime.Anchor.{
  signer, writable, executable, address, program, load_account, load_token, load_mint,
  seeds_with_bump, init_account, init_associated_token, token_transfer,
}
use solana_yield_adapter_sta.Interface.{adapter_interface_version, set_u64_return}
use solana_yield_adapter_sta.Dispatcher.{
  id, AdapterEntry, Position, Event, position_opened, deposited, withdrawn, value_read, State,
  Outcome, position_space, entry_seeds, position_seeds,
}
use solana_yield_adapter_sta.Dispatcher.Routing.{
  route_initialize, route_deposit, route_withdraw, route_current_value,
}

pub record OpenPosition : Type 0 where
  pub owner : AccountInfo
  pub adapter_entry : AccountInfo
  pub adapter_program : AccountInfo
  pub position : AccountInfo
  pub usdc_mint : AccountInfo
  pub position_usdc_pool : AccountInfo
  pub adapter_state : AccountInfo
  pub instructions_sysvar : AccountInfo
  pub system_program : AccountInfo
  pub token_program : AccountInfo
  pub associated_token_program : AccountInfo
  pub remaining_accounts : List AccountInfo

pub record Deposit : Type 0 where
  pub owner : AccountInfo
  pub adapter_entry : AccountInfo
  pub adapter_program : AccountInfo
  pub position : AccountInfo
  pub position_usdc_pool : AccountInfo
  pub owner_usdc_ata : AccountInfo
  pub adapter_state : AccountInfo
  pub instructions_sysvar : AccountInfo
  pub token_program : AccountInfo
  pub remaining_accounts : List AccountInfo

-- The struct of `withdraw` states the same accounts and constraints as that of `deposit`.
abbrev pub Withdraw : Type 0
Withdraw = Deposit

pub record CurrentValue : Type 0 where
  pub adapter_entry : AccountInfo
  pub adapter_program : AccountInfo
  pub position : AccountInfo
  pub adapter_state : AccountInfo
  pub instructions_sysvar : AccountInfo
  pub remaining_accounts : List AccountInfo

-- The seeds by which a position signs.
abbrev pub signer_seeds : Position → List (List Seed)
signer_seeds p = (position_seeds p.owner p.adapter_program ++ byte p.bump ∷ []) ∷ []

module _ (rt : Runtime) where
  -- The constraints on `adapter_entry`, which all four structs state alike.
  unfoldable pub check_entry : AdapterEntry → AccountInfo → AccountInfo → Result (Unit {0})
  unfolding seeds_with_bump
  check_entry entry adapter_program adapter_entry = do
    seeds_with_bump rt id (entry_seeds adapter_program.key) entry.bump adapter_entry
    require entry.is_active (of_dispatcher DispatcherError.adapter_inactive)

  unfoldable pub check_version : AdapterEntry → Result (Unit {0})
  check_version entry =
      require (entry.interface_version == adapter_interface_version)
        (of_dispatcher DispatcherError.version_mismatch)

  unfoldable pub check_sysvar : AccountInfo → Result (Unit {0})
  unfolding address
  check_sysvar a = address a rt.instructions_sysvar_id (of_framework constraint_address)

  -- The entry, the bump of the new position, and the chain with its account and its pool.
  unfoldable pub validate_open_position :
      OpenPosition → State → Chain → Result (AdapterEntry × ℕ × Chain)
  unfolding signer writable executable program load_account load_mint init_account
      init_associated_token
  validate_open_position a s c = do
    signer a.owner
    entry ← load_account s.entries a.adapter_entry
    load_mint rt c a.usdc_mint
    program c a.system_program rt.system_program_id
    program c a.token_program rt.token_program_id
    program c a.associated_token_program rt.associated_token_program_id
    (bump, c₁) ←
        init_account rt id (position_seeds a.owner.key a.adapter_program.key) position_space a.owner
          a.position s.positions c
    c₂ ← init_associated_token rt a.usdc_mint.key a.position.key a.owner a.position_usdc_pool c₁
    writable a.owner
    check_entry entry a.adapter_program a.adapter_entry
    executable c a.adapter_program
    writable a.adapter_state
    check_sysvar a.instructions_sysvar
    ok (entry, bump, c₂)

  unfoldable pub open_position : OpenPosition → State → Chain → Result Outcome
  open_position a s c = do
    (entry, bump, c₁) ← validate_open_position a s c
    check_version entry
    let p : Position = record {
      owner = a.owner.key;
      adapter_program = a.adapter_program.key;
      usdc_pool = a.position_usdc_pool.key;
      usdc_mint = a.usdc_mint.key;
      created_at = c.clock.unix_timestamp;
      bump = bump;
    }
    c₂ ←
        route_initialize rt a.adapter_program a.instructions_sysvar a.position a.adapter_state
          a.owner a.system_program a.remaining_accounts (signer_seeds p) c₁
    ok (record {
      state = record s { positions = insert a.position.key p s.positions };
      chain = c₂;
      event = some (position_opened a.owner.key a.adapter_program.key a.position.key);
    })

  -- The constraints that tie a position to its owner, its adapter and its token accounts.
  unfoldable pub check_position : Deposit → Position → TokenAccount → Result (Unit {0})
  unfolding writable address seeds_with_bump
  check_position a p ata = do
    seeds_with_bump rt id (position_seeds a.owner.key a.adapter_program.key) p.bump a.position
    writable a.position
    require (p.owner == a.owner.key) (of_dispatcher DispatcherError.unauthorized)
    writable a.position_usdc_pool
    address a.position_usdc_pool p.usdc_pool (of_dispatcher DispatcherError.adapter_mismatch)
    writable a.owner_usdc_ata
    require (ata.mint == p.usdc_mint) (of_framework constraint_token_mint)
    require (ata.authority == a.owner.key) (of_framework constraint_token_owner)

  unfoldable pub validate_deposit : Deposit → State → Chain → Result (AdapterEntry × Position)
  unfolding signer writable executable address program load_account load_token
  validate_deposit a s c = do
    signer a.owner
    entry ← load_account s.entries a.adapter_entry
    p ← load_account s.positions a.position
    pool ← load_token rt c a.position_usdc_pool
    ata ← load_token rt c a.owner_usdc_ata
    program c a.token_program rt.token_program_id
    writable a.owner
    check_entry entry a.adapter_program a.adapter_entry
    address a.adapter_program p.adapter_program (of_dispatcher DispatcherError.adapter_mismatch)
    executable c a.adapter_program
    check_position a p ata
    writable a.adapter_state
    check_sysvar a.instructions_sysvar
    ok (entry, p)

  unfoldable pub deposit : Deposit → ℕ → State → Chain → Result Outcome
  unfolding token_transfer
  deposit a amount s c = do
    (entry, p) ← validate_deposit a s c
    require (ltb 0 amount) (of_dispatcher DispatcherError.zero_amount)
    check_version entry
    c₁ ← token_transfer rt id a.owner_usdc_ata a.position_usdc_pool a.owner amount [] c
    (shares, c₂) ←
        route_deposit rt a.adapter_program a.instructions_sysvar a.position a.position_usdc_pool
          a.adapter_state a.remaining_accounts amount (signer_seeds p) c₁
    ok (record { state = s; chain = c₂; event = some (deposited a.position.key amount shares) })

  unfoldable pub validate_withdraw : Withdraw → State → Chain → Result (AdapterEntry × Position)
  validate_withdraw = validate_deposit

  -- The transfer of the redeemed amount from the pool to the owner, which is skipped at zero.
  unfoldable pub forward_to_owner : Withdraw → Position → ℕ → Chain → Result Chain
  unfolding token_transfer
  forward_to_owner a p amount_out c =
      if ltb 0 amount_out
      then token_transfer rt id a.position_usdc_pool a.owner_usdc_ata a.position amount_out
          (signer_seeds p) c
      else ok c

  unfoldable pub withdraw : Withdraw → ℕ → State → Chain → Result Outcome
  withdraw a shares s c = do
    (entry, p) ← validate_withdraw a s c
    require (ltb 0 shares) (of_dispatcher DispatcherError.zero_amount)
    check_version entry
    (amount_out, c₁) ←
        route_withdraw rt a.adapter_program a.instructions_sysvar a.position a.position_usdc_pool
          a.adapter_state a.remaining_accounts shares (signer_seeds p) c
    c₂ ← forward_to_owner a p amount_out c₁
    ok (record { state = s; chain = c₂; event = some (withdrawn a.position.key shares amount_out) })

  unfoldable pub validate_current_value :
      CurrentValue → State → Chain → Result (AdapterEntry × Position)
  unfolding executable address load_account seeds_with_bump
  validate_current_value a s c = do
    entry ← load_account s.entries a.adapter_entry
    p ← load_account s.positions a.position
    check_entry entry a.adapter_program a.adapter_entry
    address a.adapter_program p.adapter_program (of_dispatcher DispatcherError.adapter_mismatch)
    executable c a.adapter_program
    seeds_with_bump rt id (position_seeds p.owner a.adapter_program.key) p.bump a.position
    check_sysvar a.instructions_sysvar
    ok (entry, p)

  unfoldable pub current_value : CurrentValue → State → Chain → Result Outcome
  unfolding set_u64_return
  current_value a s c = do
    (entry, p) ← validate_current_value a s c
    check_version entry
    (value, c₁) ←
        route_current_value rt a.adapter_program a.instructions_sysvar a.position a.adapter_state
          a.remaining_accounts c
    ok (record {
      state = s;
      chain = set_u64_return id value c₁;
      event = some (value_read a.position.key value);
    })
