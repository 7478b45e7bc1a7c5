-- ===== src/Dispatcher/Funds/Openings.antt =====
-- What a successful `open_position` has done.
use solana_yield_adapter_sta.Base.{
  ℕ, ◌≡◌, Option-cases, inl, inr, some, insert, ok, >>=-eq-ok, arith,
}
use solana_yield_adapter_sta.Runtime.{Runtime, Chain}
use solana_yield_adapter_sta.Dispatcher.{
  id, position_space, AdapterEntry, Position, State, Outcome, position_opened,
}
use solana_yield_adapter_sta.Dispatcher.Routing.{route_initialize}
use solana_yield_adapter_sta.Dispatcher.Funds.{
  OpenPosition, signer_seeds, check_version, validate_open_position, open_position,
}
use solana_yield_adapter_sta.Dispatcher.Funds.Gate.{OpenGate, validate_open_position-OpenGate}

-- The account that `open_position` writes.
abbrev pub opened_position : OpenPosition → Chain → ℕ → Position
opened_position a c bump = record {
  owner = a.owner.key;
  adapter_program = a.adapter_program.key;
  usdc_pool = a.position_usdc_pool.key;
  usdc_mint = a.usdc_mint.key;
  created_at = c.clock.unix_timestamp;
  bump = bump;
}

module _ (rt : Runtime) where
  -- An opening in its stages: the accounts are created on the chain, the position is signed for when
  -- the adapter is initialised, and the new position names its owner, its adapter and its pool.
  pub record Opened (a : OpenPosition) (s : State) (c : Chain) (out : Outcome)
      (entry : AdapterEntry) (bump : ℕ) (created : Chain) : Type 0 where
    pub gate : OpenGate rt a s c entry bump
    pub version : entry.interface_version ≡ 1
    pub creation :
        (c₁ : Chain) × (rt.create_account a.position.key a.owner.key id position_space c ≡ some c₁)
        × (rt.create_token_account a.position_usdc_pool.key a.owner.key a.position.key
              a.usdc_mint.key c₁
            ≡ some created)
    pub routed :
        route_initialize rt a.adapter_program a.instructions_sysvar a.position a.adapter_state
          a.owner a.system_program a.remaining_accounts
          (signer_seeds (opened_position a c bump))
          created
        ≡ ok out.chain
    pub state :
        out.state
        ≡ record s { positions = insert a.position.key (opened_position a c bump) s.positions }
    pub event : out.event ≡ some (position_opened a.owner.key a.adapter_program.key a.position.key)

  opening_creation :
      (a : OpenPosition) (s : State) (c created : Chain) (entry : AdapterEntry) (bump : ℕ)
      → validate_open_position rt a s c ≡ ok (entry, bump, created)
      → (c₁ : Chain) × (rt.create_account a.position.key a.owner.key id position_space c ≡ some c₁)
        × (rt.create_token_account a.position_usdc_pool.key a.owner.key a.position.key
              a.usdc_mint.key c₁
            ≡ some created)
  unfolding validate_open_position
  opening_creation a s c created entry bump h =
      elim (Option-cases (rt.create_account a.position.key a.owner.key id position_space c)) [
        | inl failed ↦ absurd (ground arith)
        | inr (c₁, e) ↦ (c₁, e, ground arith)
      ]

  -- A position that has been opened is the signer's, at the address found for the signer and the
  -- adapter, where there was none; the entry of the adapter is active with version 1; and the adapter
  -- was initialised on the chain on which the position's account and pool had been created.
  pub open_position-Opened :
      (a : OpenPosition) (s : State) (c : Chain) (out : Outcome)
      → open_position rt a s c ≡ ok out
      → (entry : AdapterEntry) × (bump : ℕ) × (created : Chain) × Opened a s c out entry bump
          created
  unfolding open_position check_version
  open_position-Opened a s c out h =
      let ((entry, bump, created), v, rest) = >>=-eq-ok (validate_open_position rt a s c) _ h in
      (
        entry,
        bump,
        created,
        record {
          gate = validate_open_position-OpenGate rt a s c created entry bump v;
          version = ground arith;
          creation = opening_creation a s c created entry bump v;
          routed = ground arith;
          state = ground arith;
          event = ground arith;
        },
      )
