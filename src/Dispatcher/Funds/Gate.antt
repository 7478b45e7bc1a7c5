-- ===== src/Dispatcher/Funds/Gate.antt =====
-- What the accounts of a routed instruction have passed when it succeeds.
use solana_yield_adapter_sta.Base.{ℕ, ◌≡◌, true, none, some, [], ◌∷◌, ◌++◌, lookup, ok, arith}
use solana_yield_adapter_sta.Runtime.{
  Runtime, Chain, AccountInfo, TokenAccount, byte, executable_at, token_at,
}
use solana_yield_adapter_sta.Dispatcher.{
  id, AdapterEntry, Position, State, entry_seeds, position_seeds,
}
use solana_yield_adapter_sta.Dispatcher.Funds.{
  OpenPosition, Deposit, CurrentValue, check_entry, check_position, check_sysvar,
  validate_open_position, validate_deposit, validate_current_value,
}

module _ (rt : Runtime) where
  -- The entry stands at the address that belongs to the adapter program, and routing to it is open.
  pub record EntryGate (entry : AdapterEntry) (adapter_program adapter_entry : AccountInfo)
      : Type 0 where
    pub at_seeds :
        rt.create_program_address (entry_seeds adapter_program.key ++ byte entry.bump ∷ []) id
        ≡ some adapter_entry.key
    pub active : entry.is_active ≡ true

  check_entry-EntryGate :
      (entry : AdapterEntry) (adapter_program adapter_entry : AccountInfo)
      → check_entry rt entry adapter_program adapter_entry ≡ ok tt
      → EntryGate entry adapter_program adapter_entry
  unfolding check_entry
  check_entry-EntryGate entry p e h = record { at_seeds = ground arith; active = ground arith }

  EntryGate-check_entry :
      (entry : AdapterEntry) (adapter_program adapter_entry : AccountInfo)
      → EntryGate entry adapter_program adapter_entry
      → check_entry rt entry adapter_program adapter_entry ≡ ok tt
  unfolding check_entry
  EntryGate-check_entry entry p e g = ground arith

  -- The position belongs to the signing owner and to the adapter, and the token accounts are those
  -- that it names.
  pub record PositionGate (a : Deposit) (p : Position) (ata : TokenAccount) : Type 0 where
    pub at_seeds :
        rt.create_program_address
          (position_seeds a.owner.key a.adapter_program.key ++ byte p.bump ∷ [])
          id
        ≡ some a.position.key
    pub owned : p.owner ≡ a.owner.key
    pub pool : a.position_usdc_pool.key ≡ p.usdc_pool
    pub source_mint : ata.mint ≡ p.usdc_mint
    pub source_authority : ata.authority ≡ a.owner.key
    pub writes_position : a.position.is_writable ≡ true
    pub writes_pool : a.position_usdc_pool.is_writable ≡ true
    pub writes_source : a.owner_usdc_ata.is_writable ≡ true

  check_position-PositionGate :
      (a : Deposit) (p : Position) (ata : TokenAccount)
      → check_position rt a p ata ≡ ok tt
      → PositionGate a p ata
  unfolding check_position
  check_position-PositionGate a p ata h = record {
    at_seeds = ground arith;
    owned = ground arith;
    pool = ground arith;
    source_mint = ground arith;
    source_authority = ground arith;
    writes_position = ground arith;
    writes_pool = ground arith;
    writes_source = ground arith;
  }

  PositionGate-check_position :
      (a : Deposit) (p : Position) (ata : TokenAccount)
      → PositionGate a p ata
      → check_position rt a p ata ≡ ok tt
  unfolding check_position
  PositionGate-check_position a p ata g = ground arith

  pub record DepositGate (a : Deposit) (s : State) (c : Chain) (entry : AdapterEntry) (p : Position)
      : Type 0 where
    pub signed : a.owner.is_signer ≡ true
    pub entry_at : lookup a.adapter_entry.key s.entries ≡ some entry
    pub position_at : lookup a.position.key s.positions ≡ some p
    pub entry_gate : EntryGate entry a.adapter_program a.adapter_entry
    pub runs : executable_at c a.adapter_program.key ≡ true
    pub same_adapter : a.adapter_program.key ≡ p.adapter_program
    pub sysvar : a.instructions_sysvar.key ≡ rt.instructions_sysvar_id
    pub source : TokenAccount
    pub source_at : token_at rt c a.owner_usdc_ata.key ≡ some source
    pub position_gate : PositionGate a p source
    pub pool : TokenAccount
    pub pool_at : token_at rt c a.position_usdc_pool.key ≡ some pool
    pub token_program : a.token_program.key ≡ rt.token_program_id
    pub token_program_runs : executable_at c a.token_program.key ≡ true
    pub writes_owner : a.owner.is_writable ≡ true
    pub writes_state : a.adapter_state.is_writable ≡ true

  validate_deposit-source :
      (a : Deposit) (s : State) (c : Chain) (entry : AdapterEntry) (p : Position)
      → validate_deposit rt a s c ≡ ok (entry, p)
      → (source : TokenAccount) × (token_at rt c a.owner_usdc_ata.key ≡ some source)
        × (check_position rt a p source ≡ ok tt)
  unfolding validate_deposit
  validate_deposit-source a s c entry p h = ground arith

  validate_deposit-pool :
      (a : Deposit) (s : State) (c : Chain) (entry : AdapterEntry) (p : Position)
      → validate_deposit rt a s c ≡ ok (entry, p)
      → (pool : TokenAccount) × (token_at rt c a.position_usdc_pool.key ≡ some pool)
  unfolding validate_deposit
  validate_deposit-pool a s c entry p h = ground arith

  -- The accounts of a `deposit` or a `withdraw` that pass their constraints.
  pub validate_deposit-DepositGate :
      (a : Deposit) (s : State) (c : Chain) (entry : AdapterEntry) (p : Position)
      → validate_deposit rt a s c ≡ ok (entry, p)
      → DepositGate a s c entry p
  unfolding validate_deposit check_sysvar
  validate_deposit-DepositGate a s c entry p h =
      let (source, source_at, checked) = validate_deposit-source a s c entry p h in
      let (pool, pool_at) = validate_deposit-pool a s c entry p h in
      record {
        signed = ground arith;
        entry_at = ground arith;
        position_at = ground arith;
        entry_gate = check_entry-EntryGate entry a.adapter_program a.adapter_entry (ground arith);
        runs = ground arith;
        same_adapter = ground arith;
        sysvar = ground arith;
        source = source;
        source_at = source_at;
        position_gate = check_position-PositionGate a p source checked;
        pool = pool;
        pool_at = pool_at;
        token_program = ground arith;
        token_program_runs = ground arith;
        writes_owner = ground arith;
        writes_state = ground arith;
      }

  -- Accounts that meet these conditions are accepted.
  pub DepositGate-validate_deposit :
      (a : Deposit) (s : State) (c : Chain) (entry : AdapterEntry) (p : Position)
      → DepositGate a s c entry p
      → validate_deposit rt a s c ≡ ok (entry, p)
  unfolding validate_deposit check_sysvar
  DepositGate-validate_deposit a s c entry p g = ground (
    arith,
    EntryGate-check_entry entry a.adapter_program a.adapter_entry g.entry_gate,
    PositionGate-check_position a p g.source g.position_gate,
  )

  pub record OpenGate (a : OpenPosition) (s : State) (c : Chain) (entry : AdapterEntry) (bump : ℕ)
      : Type 0 where
    pub signed : a.owner.is_signer ≡ true
    pub entry_at : lookup a.adapter_entry.key s.entries ≡ some entry
    pub fresh : lookup a.position.key s.positions ≡ none
    pub found :
        rt.find_program_address (position_seeds a.owner.key a.adapter_program.key) id
        ≡ (a.position.key, bump)
    pub pool : a.position_usdc_pool.key ≡ rt.associated_token_address a.position.key a.usdc_mint.key
    pub entry_gate : EntryGate entry a.adapter_program a.adapter_entry
    pub runs : executable_at c a.adapter_program.key ≡ true
    pub sysvar : a.instructions_sysvar.key ≡ rt.instructions_sysvar_id

  pub validate_open_position-OpenGate :
      (a : OpenPosition) (s : State) (c c' : Chain) (entry : AdapterEntry) (bump : ℕ)
      → validate_open_position rt a s c ≡ ok (entry, bump, c')
      → OpenGate a s c entry bump
  unfolding validate_open_position check_sysvar
  validate_open_position-OpenGate a s c c' entry bump h = record {
    signed = ground arith;
    entry_at = ground arith;
    fresh = ground arith;
    found = ground arith;
    pool = ground arith;
    entry_gate = check_entry-EntryGate entry a.adapter_program a.adapter_entry (ground arith);
    runs = ground arith;
    sysvar = ground arith;
  }

  pub record ValueGate (a : CurrentValue) (s : State) (c : Chain) (entry : AdapterEntry)
      (p : Position) : Type 0 where
    pub entry_at : lookup a.adapter_entry.key s.entries ≡ some entry
    pub position_at : lookup a.position.key s.positions ≡ some p
    pub entry_gate : EntryGate entry a.adapter_program a.adapter_entry
    pub runs : executable_at c a.adapter_program.key ≡ true
    pub same_adapter : a.adapter_program.key ≡ p.adapter_program
    pub at_seeds :
        rt.create_program_address
          (position_seeds p.owner a.adapter_program.key ++ byte p.bump ∷ [])
          id
        ≡ some a.position.key
    pub sysvar : a.instructions_sysvar.key ≡ rt.instructions_sysvar_id

  pub validate_current_value-ValueGate :
      (a : CurrentValue) (s : State) (c : Chain) (entry : AdapterEntry) (p : Position)
      → validate_current_value rt a s c ≡ ok (entry, p)
      → ValueGate a s c entry p
  unfolding validate_current_value check_sysvar
  validate_current_value-ValueGate a s c entry p h = record {
    entry_at = ground arith;
    position_at = ground arith;
    entry_gate = check_entry-EntryGate entry a.adapter_program a.adapter_entry (ground arith);
    runs = ground arith;
    same_adapter = ground arith;
    at_seeds = ground arith;
    sysvar = ground arith;
  }
