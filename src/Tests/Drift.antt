-- ===== src/Tests/Drift.antt =====
-- The Drift adapter with a program that stakes one share for each unit, and pays a removal out of a
-- fund of 90.
use solana_yield_adapter_sta.Base.{
  ◌≤◌, arith, ℕ, zero, suc, ◌+◌, ◌≡◌, ◌==◌, refl, Option, none, some, List, [], ◌∷◌, ◌++◌, take,
  drop, Store, Pubkey, Result, ok, err, lookup, insert, to_le_bytes, from_le_bytes, if◌then◌else◌,
  checked_add, checked_sub, try_u64, pos,
}
use solana_yield_adapter_sta.Runtime.{
  Runtime, Chain, AccountMeta, Instruction, byte, executable_at, token_at, content_of,
}
use solana_yield_adapter_sta.Interface.{set_u64_return, verify_caller_is_dispatcher}
use solana_yield_adapter_sta.Adapters.{adapter_state_seeds, read_u64, read_u128}
use solana_yield_adapter_sta.Adapters.Drift.Value.{stake_value_usdc-solvent}
use solana_yield_adapter_sta.Adapters.Drift.{id, AdapterState, Outcome}
use solana_yield_adapter_sta.Adapters.Drift.Stake.{
  stake_value_usdc, stake_shares, add_stake, request_remove, remove_stake,
}
use solana_yield_adapter_sta.Adapters.Drift.Handlers.{
  AdapterDeposit, AdapterWithdraw, Entry, adapter_deposit, adapter_withdraw, validate_deposit,
  validate_withdraw,
}
use solana_yield_adapter_sta.Adapters.Drift.Shares.{
  Staked, deposit-Staked, Unstaked, withdraw-Unstaked,
}
use solana_yield_adapter_sta.Samples.{
  signing, writing, reading, token_account, program_account, data_account, set_amount, add_amount,
  hash, sample_runtime, sample_chain,
}

unfoldable zeros : ℕ → List ℕ
zeros zero = []
zeros (suc n) = 0 ∷ zeros n

-- A stake account with these shares.
abbrev stake_content : ℕ → List ℕ
stake_content n = zeros 40 ++ to_le_bytes 16 n

abbrev key_at : List AccountMeta → ℕ → Pubkey
key_at metas i = elim (drop i metas) [ [] ↦ 0 | m ∷ rest ↦ m.pubkey ]

unfoldable fund_call : Instruction → Chain → Option Chain
unfolding zeros
fund_call ix c = elim ix.input [
  | [] ↦ none
  | b ∷ rest ↦
      let stake = key_at ix.accounts 2 in
      let shares = from_le_bytes (take 16 (drop 40 (content_of c stake))) in
      let amount = from_le_bytes (drop 9 rest) in
      if b == 251
      then some (record c {
        accounts = insert stake (data_account 600 (stake_content (shares + amount))) c.accounts;
      })
      else if b == 128
      then set_amount (key_at ix.accounts 7) (add_amount 90) c
      else some c
]

unfoldable fund_runtime : Runtime
unfolding sample_runtime fund_call
fund_runtime = record sample_runtime { invoke_signed = λ caller ix infos seeds c. fund_call ix c }

abbrev state_key : Pubkey
unfolding hash
state_key = hash (adapter_state_seeds id 50 ++ byte 255 ∷ [])

abbrev states : Store AdapterState
states =
    (
      state_key,
      record {
        header = record {
          position = 50;
          adapter_program = id;
          created_at = pos 0;
          total_shares = 40;
        };
        spot_market = 60;
        insurance_fund_stake = 61;
        user_stats = 62;
        bump = 255;
      },
    )
    ∷ []

abbrev chain : Chain
unfolding zeros to_le_bytes
chain = record sample_chain {
  accounts =
      (600, program_account)
      ∷ (61, data_account 600 (stake_content 40))
      ∷ (63, token_account 20 50 500)
      ∷ [];
}

abbrev staking : AdapterDeposit
staking = record {
  instructions_sysvar = reading 11;
  position = signing 50;
  position_usdc_pool = writing 63;
  adapter_state = writing state_key;
  drift_program = reading 600;
  state = reading 64;
  spot_market = writing 60;
  insurance_fund_stake = writing 61;
  user_stats = writing 62;
  spot_market_vault = writing 65;
  insurance_fund_vault = writing 66;
  drift_signer = reading 67;
  token_program = reading 14;
}

abbrev unstaking : AdapterWithdraw
unstaking = record {
  instructions_sysvar = reading 11;
  position = signing 50;
  position_usdc_pool = writing 63;
  adapter_state = writing state_key;
  drift_program = reading 600;
  state = reading 64;
  spot_market = writing 60;
  insurance_fund_stake = writing 61;
  user_stats = writing 62;
  insurance_fund_vault = writing 66;
  drift_signer = reading 67;
  token_program = reading 14;
}

abbrev outcome : Result Outcome → Outcome
outcome (ok out) = out
outcome (err e) = record { state = []; chain = chain; event = none }

unfoldable staked : Result Outcome
unfolding adapter_deposit validate_deposit add_stake stake_shares read_u128 token_at executable_at
    content_of set_u64_return verify_caller_is_dispatcher lookup insert checked_add checked_sub
    try_u64 to_le_bytes from_le_bytes fund_runtime zeros
staked = adapter_deposit fund_runtime staking 75 [] states chain

staked-ok : adapter_deposit fund_runtime staking 75 [] states chain ≡ ok (outcome staked)
unfolding staked
staked-ok = refl

deposit-Staked_example :
    (entry : Entry) × (paid : Chain) × (minted : ℕ) × Staked fund_runtime staking 75 states chain
      (outcome staked)
      entry
      paid
      minted
deposit-Staked_example =
    deposit-Staked fund_runtime staking 75 [] states chain (outcome staked) staked-ok

unfoldable unstaked : Result Outcome
unfolding adapter_withdraw validate_withdraw request_remove remove_stake token_at executable_at
    set_u64_return verify_caller_is_dispatcher lookup insert checked_sub to_le_bytes from_le_bytes
    fund_runtime set_amount
unstaked = adapter_withdraw fund_runtime unstaking 15 [] states chain

unstaked-ok : adapter_withdraw fund_runtime unstaking 15 [] states chain ≡ ok (outcome unstaked)
unfolding unstaked
unstaked-ok = refl

withdraw-Unstaked_example :
    (entry : Entry) × (removed : Chain) × (amount_out : ℕ) × Unstaked fund_runtime unstaking 15
      states chain
      (outcome unstaked)
      entry
      removed
      amount_out
withdraw-Unstaked_example =
    withdraw-Unstaked fund_runtime unstaking 15 [] states chain (outcome unstaked) unstaked-ok

abbrev market : List ℕ
market = zeros 336 ++ to_le_bytes 16 100

abbrev vault : List ℕ
vault = zeros 64 ++ to_le_bytes 8 1000

-- Ten and ninety of a hundred shares in a vault of a thousand.
stake_value_usdc-solvent_example :
    (v : ℕ) × (w : ℕ) × (stake_value_usdc (stake_content 10) market vault ≡ ok v)
    × (stake_value_usdc (stake_content 90) market vault ≡ ok w)
    × (v + w ≤ 1000)
unfolding read_u64 read_u128 zeros to_le_bytes from_le_bytes
stake_value_usdc-solvent_example =
    stake_value_usdc-solvent (stake_content 10) (stake_content 90) market vault 10 90 100 1000 refl
      refl refl refl (omega arith) (omega arith) (omega arith) (omega arith)
