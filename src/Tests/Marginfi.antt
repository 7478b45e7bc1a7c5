-- ===== src/Tests/Marginfi.antt =====
-- The MarginFi adapter on the sample runtime, with a bank that keeps what it is given.
use solana_yield_adapter_sta.Base.{
  ℕ, zero, suc, ◌+◌, ◌*◌, ◌<◌, ◌≤◌, ◌^◌, ◌≡◌, ◌==◌, refl, Option, none, some, List, [], ◌∷◌, ◌++◌,
  drop, Pubkey, Store, lookup, insert, Result, ok, err, to_le_bytes, from_le_bytes, if◌then◌else◌,
  pos, arith, checked_add, checked_sub,
}
use solana_yield_adapter_sta.Runtime.{
  Runtime, Chain, Instruction, TokenAccount, byte, executable_at, token_at,
}
use solana_yield_adapter_sta.Interface.{set_u64_return, verify_caller_is_dispatcher}
use solana_yield_adapter_sta.Adapters.{adapter_state_seeds}
use solana_yield_adapter_sta.Adapters.Marginfi.{id, AdapterState, Outcome}
use solana_yield_adapter_sta.Adapters.Marginfi.Bank.{
  deposit, withdraw, byte_at, read_i128, account_asset_shares, shares_to_usdc,
}
use solana_yield_adapter_sta.Adapters.Marginfi.Handlers.{
  AdapterDeposit, AdapterWithdraw, Entry, adapter_deposit, adapter_withdraw, validate_deposit,
  validate_withdraw,
}
use solana_yield_adapter_sta.Adapters.Marginfi.Value.{shares_to_usdc-le}
use solana_yield_adapter_sta.Adapters.Marginfi.Balances.{Holds, account_asset_shares-first}
use solana_yield_adapter_sta.Adapters.Marginfi.Shares.{
  Credited, deposit-Credited, Debited, withdraw-Debited,
}
use solana_yield_adapter_sta.Samples.{
  signing, writing, reading, token_account, program_account, set_amount, add_amount, hash,
  sample_runtime, sample_chain,
}

-- A withdrawal pays 70 into the pool at the fifth meta; the other calls change nothing.
unfoldable bank_call : Instruction → Chain → Option Chain
bank_call ix c = elim ix.input [
  | [] ↦ none
  | b ∷ rest ↦ elim (drop 4 ix.accounts) [
    | [] ↦ none
    | m ∷ metas ↦ if b == 36 then set_amount m.pubkey (add_amount 70) c else some c
  ]
]

unfoldable bank_runtime : Runtime
unfolding sample_runtime bank_call
bank_runtime = record sample_runtime { invoke_signed = λ caller ix infos seeds c. bank_call ix c }

abbrev state_key : Pubkey
unfolding hash
state_key = hash (adapter_state_seeds id 50 ++ byte 255 ∷ [])

abbrev states : Store AdapterState
states =
    (
      state_key,
      record {
        header = record {
          position = 50;
          adapter_program = id;
          created_at = pos 0;
          total_shares = 40;
        };
        marginfi_group = 60;
        marginfi_account = 61;
        bank = 62;
        bump = 255;
      },
    )
    ∷ []

abbrev chain : Chain
chain = record sample_chain {
  accounts = (600, program_account) ∷ (63, token_account 20 50 500) ∷ [];
}

abbrev lending : AdapterDeposit
lending = record {
  instructions_sysvar = reading 11;
  position = signing 50;
  position_usdc_pool = writing 63;
  adapter_state = writing state_key;
  marginfi_program = reading 600;
  marginfi_group = reading 60;
  marginfi_account = writing 61;
  bank = writing 62;
  liquidity_vault = writing 64;
  token_program = reading 14;
}

abbrev repaying : AdapterWithdraw
repaying = record {
  instructions_sysvar = reading 11;
  position = signing 50;
  position_usdc_pool = writing 63;
  adapter_state = writing state_key;
  marginfi_program = reading 600;
  marginfi_group = reading 60;
  marginfi_account = writing 61;
  bank = writing 62;
  bank_liquidity_vault_authority = reading 65;
  liquidity_vault = writing 64;
  token_program = reading 14;
  oracle = reading 66;
}

abbrev outcome : Result Outcome → Outcome
outcome (ok out) = out
outcome (err e) = record { state = []; chain = chain; event = none }

unfoldable lent : Result Outcome
unfolding adapter_deposit validate_deposit deposit token_at executable_at set_u64_return
    verify_caller_is_dispatcher lookup insert checked_add to_le_bytes from_le_bytes bank_runtime
    set_amount
lent = adapter_deposit bank_runtime lending 25 [] states chain

lent-ok : adapter_deposit bank_runtime lending 25 [] states chain ≡ ok (outcome lent)
unfolding lent
lent-ok = refl

-- More shares than are booked, so everything is asked for.
unfoldable repaid : Result Outcome
unfolding adapter_withdraw validate_withdraw withdraw token_at executable_at set_u64_return
    verify_caller_is_dispatcher lookup insert checked_sub to_le_bytes from_le_bytes bank_runtime
    set_amount
repaid = adapter_withdraw bank_runtime repaying 90 [] states chain

repaid-ok : adapter_withdraw bank_runtime repaying 90 [] states chain ≡ ok (outcome repaid)
unfolding repaid
repaid-ok = refl

deposit-Credited_example :
    (entry : Entry) × (c : Chain) × Credited bank_runtime lending 25 states chain
      (outcome lent)
      entry
      c
deposit-Credited_example =
    deposit-Credited bank_runtime lending 25 [] states chain (outcome lent) lent-ok

withdraw-Debited_example :
    (entry : Entry) × (c : Chain) × (pool : TokenAccount) × (amount_out : ℕ) × Debited bank_runtime
      repaying 90 states chain
      (outcome repaid)
      entry
      c
      pool
      amount_out
withdraw-Debited_example =
    withdraw-Debited bank_runtime repaying 90 [] states chain (outcome repaid) repaid-ok

-- Ten shares at a share value of one and a half.
shares_to_usdc-le_example :
    (v : ℕ) × (shares_to_usdc (pos (10 * 2 ^ 48)) (pos (3 * 2 ^ 47)) ≡ ok v)
    × (v * 2 ^ 96 ≤ 10 * 2 ^ 48 * (3 * 2 ^ 47))
    × (10 * 2 ^ 48 * (3 * 2 ^ 47) < (v + 2) * 2 ^ 96)
shares_to_usdc-le_example = shares_to_usdc-le (10 * 2 ^ 48) (3 * 2 ^ 47) (omega arith)

unfoldable zeros : ℕ → List ℕ
zeros zero = []
zeros (suc n) = 0 ∷ zeros n

-- The balance at index 0 is not in use; the one at index 1 holds seven shares in bank 62.
abbrev account : List ℕ
account = zeros 176 ++ (1 ∷ (to_le_bytes 32 62 ++ (zeros 7 ++ (to_le_bytes 16 7 ++ zeros 1504))))

second : Holds account 62 1
unfolding zeros to_le_bytes from_le_bytes byte_at
second = record { active = 1; in_use = (refl, omega arith); of_bank = refl }

first_unused : (k : ℕ) → k < 1 → ¬ Holds account 62 k
unfolding zeros to_le_bytes byte_at
first_unused zero lt h = ground arith
first_unused (suc k) lt h = absurd (omega arith)

account_asset_shares-first_example : account_asset_shares account 62 ≡ read_i128 account 216
unfolding zeros to_le_bytes
account_asset_shares-first_example =
    (account_asset_shares-first account 62 (omega arith)).0 1 (omega arith) second first_unused
