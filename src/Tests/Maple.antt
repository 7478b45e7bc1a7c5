-- ===== src/Tests/Maple.antt =====
-- A whirlpool at a root price of one and a half, and a deposit on a pool that pays 70 syrupUSDC.
use solana_yield_adapter_sta.Base.{
  ℕ, zero, suc, ◌+◌, ◌*◌, ◌<◌, ◌≤◌, ◌^◌, ◌≡◌, refl, Option, none, List, [], ◌∷◌, ◌++◌, drop, Store,
  Pubkey, Result, ok, err, lookup, insert, to_le_bytes, from_le_bytes, checked_mul, checked_add,
  checked_sub, try_u64, arith, pos,
}
use solana_yield_adapter_sta.Runtime.{Runtime, Chain, Instruction, byte, executable_at, token_at}
use solana_yield_adapter_sta.Interface.{set_u64_return, verify_caller_is_dispatcher}
use solana_yield_adapter_sta.Adapters.{adapter_state_seeds, read_u128}
use solana_yield_adapter_sta.Adapters.Maple.{id, AdapterState, Outcome}
use solana_yield_adapter_sta.Adapters.Maple.Orca.{whirlpool_value_usdc, swap}
use solana_yield_adapter_sta.Adapters.Maple.Handlers.{
  AdapterDeposit, Entry, adapter_deposit, validate_deposit,
}
use solana_yield_adapter_sta.Adapters.Maple.Value.{whirlpool_value_usdc-le}
use solana_yield_adapter_sta.Adapters.Maple.Shares.{Bought, deposit-Bought}
use solana_yield_adapter_sta.Samples.{
  signing, writing, reading, token_account, program_account, set_amount, add_amount, hash,
  sample_runtime, sample_chain,
}

unfoldable zeros : ℕ → List ℕ
zeros zero = []
zeros (suc n) = 0 ∷ zeros n

abbrev whirlpool : List ℕ
whirlpool = zeros 65 ++ to_le_bytes 16 (3 * 2 ^ 63)

valued_at : whirlpool_value_usdc whirlpool 100 ≡ ok 225
unfolding whirlpool_value_usdc read_u128 checked_mul try_u64 zeros to_le_bytes from_le_bytes
valued_at = refl

whirlpool_value_usdc-le_example :
    (p : ℕ) × (read_u128 whirlpool 65 ≡ ok p)
    × (225 < 2 ^ 64)
    × (225 * 2 ^ 128 ≤ 100 * p * p)
    × (100 * p * p ≤ (225 + 1) * 2 ^ 128 + p * 2 ^ 64)
whirlpool_value_usdc-le_example = whirlpool_value_usdc-le whirlpool 100 225 (omega arith) valued_at

-- Pays into the account at the fourth meta.
unfoldable pool_call : Instruction → Chain → Option Chain
pool_call ix c = elim (drop 3 ix.accounts) [
  | [] ↦ none
  | m ∷ metas ↦ set_amount m.pubkey (add_amount 70) c
]

unfoldable pool_runtime : Runtime
unfolding sample_runtime pool_call
pool_runtime = record sample_runtime { invoke_signed = λ caller ix infos seeds c. pool_call ix c }

abbrev state_key : Pubkey
unfolding hash
state_key = hash (adapter_state_seeds id 50 ++ byte 255 ∷ [])

abbrev states : Store AdapterState
states =
    (
      state_key,
      record {
        header = record {
          position = 50;
          adapter_program = id;
          created_at = pos 0;
          total_shares = 40;
        };
        whirlpool = 60;
        syrup_token_account = 61;
        bump = 255;
      },
    )
    ∷ []

abbrev chain : Chain
chain = record sample_chain {
  accounts =
      (600, program_account) ∷ (61, token_account 70 50 40) ∷ (63, token_account 20 50 500) ∷ [];
}

abbrev buying : AdapterDeposit
buying = record {
  instructions_sysvar = reading 11;
  position = signing 50;
  position_usdc_pool = writing 63;
  adapter_state = writing state_key;
  orca_program = reading 600;
  whirlpool = writing 60;
  syrup_token_account = writing 61;
  vault_a = writing 64;
  vault_b = writing 65;
  tick_array_0 = writing 66;
  tick_array_1 = writing 67;
  tick_array_2 = writing 68;
  oracle = writing 69;
  token_program = reading 14;
}

abbrev outcome : Result Outcome → Outcome
outcome (ok out) = out
outcome (err e) = record { state = []; chain = chain; event = none }

unfoldable bought : Result Outcome
unfolding adapter_deposit validate_deposit swap token_at executable_at set_u64_return
    verify_caller_is_dispatcher lookup insert checked_add checked_sub to_le_bytes from_le_bytes
    pool_runtime set_amount
bought = adapter_deposit pool_runtime buying 75 [] states chain

bought-ok : adapter_deposit pool_runtime buying 75 [] states chain ≡ ok (outcome bought)
unfolding bought
bought-ok = refl

deposit-Bought_example :
    (entry : Entry) × (swapped : Chain) × (minted : ℕ) × Bought pool_runtime buying 75 states chain
      (outcome bought)
      entry
      swapped
      minted
deposit-Bought_example =
    deposit-Bought pool_runtime buying 75 [] states chain (outcome bought) bought-ok
