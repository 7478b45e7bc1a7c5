-- ===== src/Tests/Jupiter.antt =====
-- The Jupiter adapter with a pool that pays 70 of what it is asked for.
use solana_yield_adapter_sta.Base.{
  zero, suc, ◌+◌, ◌≤◌, arith, ℕ, ◌≡◌, ◌==◌, refl, Option, none, List, [], ◌∷◌, ◌++◌, drop, Store,
  Pubkey, Result, ok, err, lookup, insert, to_le_bytes, from_le_bytes, if◌then◌else◌, checked_add,
  checked_sub, pos,
}
use solana_yield_adapter_sta.Runtime.{
  Runtime, Chain, AccountMeta, Instruction, byte, executable_at, token_at,
}
use solana_yield_adapter_sta.Interface.{set_u64_return, verify_caller_is_dispatcher}
use solana_yield_adapter_sta.Adapters.{adapter_state_seeds, read_u64, read_u128}
use solana_yield_adapter_sta.Adapters.Jupiter.Value.{lp_value_usdc-solvent}
use solana_yield_adapter_sta.Adapters.Jupiter.{id, AdapterState, Outcome}
use solana_yield_adapter_sta.Adapters.Jupiter.Perps.{lp_value_usdc, add_liquidity, remove_liquidity}
use solana_yield_adapter_sta.Adapters.Jupiter.Handlers.{
  AdapterDeposit, Entry, adapter_deposit, adapter_withdraw, validate_deposit, validate_withdraw,
}
use solana_yield_adapter_sta.Adapters.Jupiter.Shares.{Joined, deposit-Joined, Left, withdraw-Left}
use solana_yield_adapter_sta.Samples.{
  signing, writing, reading, token_account, program_account, set_amount, add_amount, hash,
  sample_runtime, sample_chain,
}

abbrev key_at : List AccountMeta → ℕ → Pubkey
key_at metas i = elim (drop i metas) [ [] ↦ 0 | m ∷ rest ↦ m.pubkey ]

-- Liquidity pays into the account of the liquidity token, and its removal into the funding account.
unfoldable perps_call : Instruction → Chain → Option Chain
perps_call ix c = elim ix.input [
  | [] ↦ none
  | b ∷ rest ↦ set_amount (key_at ix.accounts (if b == 228 then 2 else 1)) (add_amount 70) c
]

unfoldable perps_runtime : Runtime
unfolding sample_runtime perps_call
perps_runtime = record sample_runtime { invoke_signed = λ caller ix infos seeds c. perps_call ix c }

abbrev state_key : Pubkey
unfolding hash
state_key = hash (adapter_state_seeds id 50 ++ byte 255 ∷ [])

abbrev states : Store AdapterState
states =
    (
      state_key,
      record {
        header = record {
          position = 50;
          adapter_program = id;
          created_at = pos 0;
          total_shares = 40;
        };
        pool = 60;
        custody = 61;
        lp_token_account = 62;
        lp_mint = 64;
        bump = 255;
      },
    )
    ∷ []

abbrev chain : Chain
chain = record sample_chain {
  accounts =
      (600, program_account) ∷ (62, token_account 64 50 40) ∷ (63, token_account 20 50 500) ∷ [];
}

abbrev joining : AdapterDeposit
joining = record {
  instructions_sysvar = reading 11;
  position = signing 50;
  position_usdc_pool = writing 63;
  adapter_state = writing state_key;
  jupiter_program = reading 600;
  transfer_authority = reading 65;
  perpetuals = reading 66;
  pool = writing 60;
  custody = writing 61;
  doves_price = reading 67;
  pythnet_price = reading 68;
  custody_token_account = writing 69;
  lp_token_mint = writing 64;
  lp_token_account = writing 62;
  token_program = reading 14;
  event_authority = reading 70;
  remaining_accounts = reading 71 ∷ [];
}

abbrev outcome : Result Outcome → Outcome
outcome (ok out) = out
outcome (err e) = record { state = []; chain = chain; event = none }

unfoldable joined : Result Outcome
unfolding adapter_deposit validate_deposit add_liquidity token_at executable_at set_u64_return
    verify_caller_is_dispatcher lookup insert checked_add checked_sub to_le_bytes from_le_bytes
    perps_runtime set_amount
joined = adapter_deposit perps_runtime joining 75 [] states chain

joined-ok : adapter_deposit perps_runtime joining 75 [] states chain ≡ ok (outcome joined)
unfolding joined
joined-ok = refl

deposit-Joined_example :
    (entry : Entry) × (moved : Chain) × (minted : ℕ) × Joined perps_runtime joining 75 states chain
      (outcome joined)
      entry
      moved
      minted
deposit-Joined_example =
    deposit-Joined perps_runtime joining 75 [] states chain (outcome joined) joined-ok

unfoldable parted : Result Outcome
unfolding adapter_withdraw validate_withdraw validate_deposit remove_liquidity token_at
    executable_at set_u64_return verify_caller_is_dispatcher lookup insert checked_sub to_le_bytes
    from_le_bytes perps_runtime set_amount
parted = adapter_withdraw perps_runtime joining 15 [] states chain

parted-ok : adapter_withdraw perps_runtime joining 15 [] states chain ≡ ok (outcome parted)
unfolding parted
parted-ok = refl

withdraw-Left_example :
    (entry : Entry) × (moved : Chain) × (amount_out : ℕ) × Left perps_runtime joining 15 states
      chain
      (outcome parted)
      entry
      moved
      amount_out
withdraw-Left_example =
    withdraw-Left perps_runtime joining 15 [] states chain (outcome parted) parted-ok

unfoldable zeros : ℕ → List ℕ
zeros zero = []
zeros (suc n) = 0 ∷ zeros n

abbrev pool_data : List ℕ
pool_data = zeros 180 ++ to_le_bytes 16 1000

abbrev mint_data : List ℕ
mint_data = zeros 36 ++ to_le_bytes 8 300

-- A hundred and two hundred of three hundred tokens on assets of a thousand.
lp_value_usdc-solvent_example :
    (v : ℕ) × (w : ℕ) × (lp_value_usdc pool_data mint_data 100 ≡ ok v)
    × (lp_value_usdc pool_data mint_data 200 ≡ ok w)
    × (v + w ≤ 1000)
unfolding read_u64 read_u128 zeros to_le_bytes from_le_bytes
lp_value_usdc-solvent_example =
    lp_value_usdc-solvent pool_data mint_data 100 200 1000 300 refl refl (omega arith) (omega arith)
      (omega arith) (omega arith)
