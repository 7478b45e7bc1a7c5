-- ===== src/Tests/Kamino.antt =====
-- The Kamino adapter on the sample runtime, with a lending program that turns one unit of liquidity
-- into one share and back.
use solana_yield_adapter_sta.Base.{
  ℕ, zero, suc, ◌+◌, ◌*◌, ◌/◌, ◌≤◌, ◌<◌, ◌^◌, ◌≡◌, ◌==◌, refl, inr, Option, none, some, List, [],
  ◌∷◌, ◌++◌, drop, Pubkey, Store, lookup, insert, Result, ok, err, to_le_bytes, from_le_bytes,
  if◌then◌else◌, pos, arith, checked_add, checked_sub,
}
use solana_yield_adapter_sta.Runtime.{
  Runtime, Chain, AccountMeta, Instruction, byte, executable_at, token_at, content_of, owner_of,
}
use solana_yield_adapter_sta.Interface.{get_u64_return, set_u64_return, verify_caller_is_dispatcher}
use solana_yield_adapter_sta.Adapters.{adapter_state_seeds, read_u64, read_u128}
use solana_yield_adapter_sta.Adapters.Kamino.{id, AdapterState, Outcome}
use solana_yield_adapter_sta.Adapters.Kamino.Klend.{
  refresh_reserve, deposit_reserve_liquidity, redeem_reserve_collateral, collateral_value_usdc,
}
use solana_yield_adapter_sta.Adapters.Kamino.Handlers.{
  AdapterDeposit, Entry, adapter_deposit, adapter_withdraw, validate_deposit, validate_withdraw,
}
use solana_yield_adapter_sta.Adapters.Kamino.Value.{
  collateral_value_usdc-eq-ok, collateral_value_usdc-solvent,
}
use solana_yield_adapter_sta.Adapters.Kamino.Shares.{
  Booked, deposit-Booked, Redeemed, withdraw-Redeemed, adapter_withdraw-adapter_deposit,
}
use solana_yield_adapter_sta.Adapters.Guard.{SysvarLaws}
use solana_yield_adapter_sta.Samples.{
  signing, writing, reading, token_account, program_account, data_account, set_amount, add_amount,
  take_amount, hash, sample_runtime, sample_chain,
}

-- The key at an index of the metas.
abbrev key_at : List AccountMeta → ℕ → Pubkey
key_at metas i = elim (drop i metas) [ [] ↦ 0 | m ∷ rest ↦ m.pubkey ]

-- The amount behind the discriminator goes onto the account at one index; a redemption takes it from
-- the account before.
unfoldable pub lend : Instruction → Chain → Option Chain
lend ix c = elim ix.input [
  | [] ↦ none
  | b ∷ rest ↦
      let amount = from_le_bytes (drop 7 rest) in
      if b == 169
      then set_amount (key_at ix.accounts 8) (add_amount amount) c
      else if b == 234
      then (elim (set_amount (key_at ix.accounts 7) (take_amount amount) c) [
        | none ↦ none
        | some c' ↦ set_amount (key_at ix.accounts 8) (add_amount amount) c'
      ])
      else some c
]

unfoldable pub kamino_runtime : Runtime
unfolding sample_runtime lend
kamino_runtime = record sample_runtime { invoke_signed = λ caller ix infos seeds c. lend ix c }

unfoldable pub state_key : Pubkey
unfolding hash
state_key = hash (adapter_state_seeds id 50 ++ byte 255 ∷ [])

abbrev pub before : AdapterState
before = record {
  header = record { position = 50; adapter_program = id; created_at = pos 0; total_shares = 40 };
  kamino_reserve = 60;
  collateral_vault = 61;
  bump = 255;
}

abbrev pub states : Store AdapterState
states = (state_key, before) ∷ []

abbrev pub chain : Chain
chain = record sample_chain {
  accounts =
      (60, data_account 600 [])
      ∷ (600, program_account)
      ∷ (61, token_account 70 50 40)
      ∷ (62, token_account 20 50 500)
      ∷ [];
}

abbrev pub lending : AdapterDeposit
lending = record {
  instructions_sysvar = reading 11;
  position = signing 50;
  position_usdc_pool = writing 62;
  adapter_state = writing state_key;
  reserve = writing 60;
  lending_market = reading 63;
  lending_market_authority = reading 64;
  reserve_liquidity_mint = reading 20;
  reserve_liquidity_supply = writing 65;
  reserve_collateral_mint = writing 70;
  collateral_vault = writing 61;
  collateral_token_program = reading 14;
  liquidity_token_program = reading 14;
  scope_prices = reading 66;
  klend_program = reading 600;
}

abbrev pub outcome : Result Outcome → Outcome
outcome (ok out) = out
outcome (err e) = record { state = []; chain = chain; event = none }

unfoldable pub deposited : Result Outcome
unfolding adapter_deposit validate_deposit refresh_reserve deposit_reserve_liquidity token_at
    executable_at owner_of content_of set_u64_return verify_caller_is_dispatcher lookup insert
    checked_add checked_sub to_le_bytes from_le_bytes kamino_runtime set_amount
deposited = adapter_deposit kamino_runtime lending 300 [] states chain

abbrev pub lent : Outcome
lent = outcome deposited

pub lent-ok : adapter_deposit kamino_runtime lending 300 [] states chain ≡ ok lent
unfolding deposited state_key
lent-ok = refl

unfoldable pub redeemed : Result Outcome
unfolding adapter_withdraw validate_withdraw validate_deposit refresh_reserve
    redeem_reserve_collateral token_at executable_at owner_of content_of set_u64_return
    verify_caller_is_dispatcher lookup insert checked_add checked_sub to_le_bytes from_le_bytes
    kamino_runtime set_amount
redeemed = adapter_withdraw kamino_runtime lending 300 [] lent.state lent.chain

abbrev pub returned : Outcome
returned = outcome redeemed

pub returned-ok : adapter_withdraw kamino_runtime lending 300 [] lent.state lent.chain ≡ ok returned
unfolding deposited redeemed state_key
returned-ok = refl

lent-answer : get_u64_return id lent.chain ≡ some 300
unfolding deposited get_u64_return state_key
lent-answer = refl

deposit-Booked_example :
    (entry : Entry) × (minted : ℕ) × Booked kamino_runtime lending 300 states chain lent entry
      minted
deposit-Booked_example = deposit-Booked kamino_runtime lending 300 [] states chain lent lent-ok

withdraw-Redeemed_example :
    (entry : Entry) × (left : ℕ) × (amount_out : ℕ) × Redeemed kamino_runtime lending 300 lent.state
      lent.chain returned entry left amount_out
withdraw-Redeemed_example =
    withdraw-Redeemed kamino_runtime lending 300 [] lent.state lent.chain returned returned-ok

adapter_withdraw-adapter_deposit_example :
    (lookup state_key returned.state ≡ lookup state_key states) × (0 < 300)
adapter_withdraw-adapter_deposit_example =
    adapter_withdraw-adapter_deposit kamino_runtime lending lending 300 300 [] [] states chain
      lent.chain lent returned lent-ok lent-answer refl returned-ok

pub laws : SysvarLaws kamino_runtime
unfolding kamino_runtime
laws = record {
  create_account = λ k payer owner space c c' j i h. (refl, refl);
  create_token_account = λ k payer authority mint c c' j i h. (refl, refl);
}

-- A reserve with 1000 available, 5 borrowed and 500 shares in supply.
unfoldable zeros : ℕ → List ℕ
zeros zero = []
zeros (suc n) = 0 ∷ zeros n

abbrev reserve_data : List ℕ
reserve_data =
    zeros 224
    ++ (to_le_bytes 8 1000 ++ (to_le_bytes 16 (5 * 2 ^ 60) ++ (zeros 2344 ++ to_le_bytes 8 500)))

collateral_value_usdc-eq-ok_example : collateral_value_usdc reserve_data 10 ≡ ok 20
unfolding read_u64 read_u128 zeros to_le_bytes from_le_bytes
collateral_value_usdc-eq-ok_example = (collateral_value_usdc-eq-ok reserve_data 10 20).1 (
  1000,
  5 * 2 ^ 60,
  500,
  refl,
  refl,
  refl,
  inr (omega arith, omega arith, omega arith, omega arith, omega arith, omega arith),
)

collateral_value_usdc-solvent_example :
    (v : ℕ) × (w : ℕ) × (collateral_value_usdc reserve_data 10 ≡ ok v)
    × (collateral_value_usdc reserve_data 490 ≡ ok w)
    × (v + w ≤ 1000 + 5 * 2 ^ 60 / 2 ^ 60)
unfolding read_u64 read_u128 zeros to_le_bytes from_le_bytes
collateral_value_usdc-solvent_example =
    collateral_value_usdc-solvent reserve_data 1000 (5 * 2 ^ 60) 500 10 490 refl refl refl
      (omega arith) (omega arith) (omega arith) (omega arith)
