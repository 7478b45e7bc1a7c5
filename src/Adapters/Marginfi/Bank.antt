-- ===== src/Adapters/Marginfi/Bank.antt =====
-- The CPIs to MarginFi and the layout of its accounts (marginfi_cpi.rs). A signed 128-bit word keeps
-- its sign: from 2^127 on, the word stands for itself less 2^128.
use solana_yield_adapter_sta.Base.{
  ℕ, zero, suc, ◌+◌, ◌-◌, ◌*◌, ◌/◌, ◌%◌, ◌^◌, ◌==◌, ltb, Bool, true, false, Option, none, some,
  List, [], ◌∷◌, ◌++◌, drop, Pubkey, to_le_bytes, from_le_bytes, checked_mul, u128_mod, Result, ok,
  ◌>>=◌, ok_or, if◌then◌else◌, ℤ, pos, negsuc,
}
use solana_yield_adapter_sta.Runtime.{
  Runtime, Chain, AccountInfo, Instruction, meta_new, meta_new_readonly,
}
use solana_yield_adapter_sta.Adapters.{math_overflow, cpi_failed, slice, read_u128}
use solana_yield_adapter_sta.Adapters.Marginfi.{id}

abbrev pub mfi_init_pda : List ℕ
mfi_init_pda = 87 ∷ 177 ∷ 91 ∷ 80 ∷ 218 ∷ 119 ∷ 245 ∷ 31 ∷ []

abbrev pub mfi_deposit : List ℕ
mfi_deposit = 171 ∷ 94 ∷ 235 ∷ 103 ∷ 82 ∷ 64 ∷ 212 ∷ 140 ∷ []

abbrev pub mfi_withdraw : List ℕ
mfi_withdraw = 36 ∷ 72 ∷ 74 ∷ 19 ∷ 210 ∷ 210 ∷ 192 ∷ 192 ∷ []

abbrev pub balances_off : ℕ
balances_off = 72

abbrev pub balance_size : ℕ
balance_size = 104

abbrev pub bal_active : ℕ
bal_active = 0

abbrev pub bal_bank_pk : ℕ
bal_bank_pk = 1

abbrev pub bal_asset_shares : ℕ
bal_asset_shares = 40

abbrev pub bank_asset_share_value_off : ℕ
bank_asset_share_value_off = 80

-- The signed reading of an unsigned 128-bit word.
unfoldable pub i128_of : ℕ → ℤ
i128_of n = if ltb n (2 ^ 127) then pos n else negsuc (2 ^ 128 - 1 - n)

unfoldable pub read_i128 : List ℕ → ℕ → Result ℤ
unfolding i128_of
read_i128 content off = do n ← read_u128 content off; ok (i128_of n)

-- `data.get(i)`.
unfoldable pub byte_at : List ℕ → ℕ → Option ℕ
byte_at content i = elim (drop i content) [ [] ↦ none | b ∷ rest ↦ some b ]

-- The loop over the balances, from one index on.
unfoldable pub asset_shares_from : List ℕ → Pubkey → ℕ → ℕ → Result ℤ
asset_shares_from acct_data bank zero i = ok (pos 0)
asset_shares_from acct_data bank (suc n) i =
    let rest = asset_shares_from acct_data bank n (i + 1) in
    let base = balances_off + i * balance_size in
    (do
      active ← ok_or (byte_at acct_data (base + bal_active)) math_overflow
      if active == 0 then rest else (do
        pk ← ok_or (slice acct_data (base + bal_bank_pk) 32) math_overflow
        if from_le_bytes pk == bank then read_i128 acct_data (base + bal_asset_shares) else rest))

unfoldable pub account_asset_shares : List ℕ → Pubkey → Result ℤ
account_asset_shares acct_data bank = asset_shares_from acct_data bank 16 0

unfoldable pub bank_asset_share_value : List ℕ → Result ℤ
bank_asset_share_value bank_data = read_i128 bank_data bank_asset_share_value_off

-- Positive operands; the others are worth nothing.
unfoldable pub shares_to_usdc : ℤ → ℤ → Result ℕ
shares_to_usdc (negsuc n) share_value = ok 0
shares_to_usdc (pos n) (negsuc k) = ok 0
shares_to_usdc (pos n) (pos k) = if n == 0 then ok 0 else if k == 0 then ok 0 else (do
  prod ← ok_or (checked_mul u128_mod (n / 2 ^ 16) (k / 2 ^ 16)) math_overflow
  ok (prod / 2 ^ 64 % 2 ^ 64))

module _ (rt : Runtime) where
  unfoldable pub init_account_pda :
      (program group marginfi_account authority fee_payer instructions_sysvar
        system_program : AccountInfo)
      → Chain
      → Result Chain
  unfolding meta_new meta_new_readonly
  init_account_pda program group marginfi_account authority fee_payer instructions_sysvar
        system_program c =
      let ix : Instruction = record {
        program_id = program.key;
        accounts =
            meta_new_readonly group.key false
            ∷ meta_new marginfi_account.key false
            ∷ meta_new_readonly authority.key true
            ∷ meta_new fee_payer.key true
            ∷ meta_new_readonly instructions_sysvar.key false
            ∷ meta_new_readonly system_program.key false
            ∷ [];
        input = mfi_init_pda ++ (to_le_bytes 2 0 ++ (0 ∷ []));
      } in
      let infos : List AccountInfo =
        program ∷ group ∷ marginfi_account ∷ authority ∷ fee_payer ∷ instructions_sysvar
        ∷ system_program ∷ [] in
      ok_or (rt.invoke_signed id ix infos [] c) cpi_failed

  unfoldable pub deposit :
      (program group marginfi_account authority bank signer_token_account liquidity_vault
        token_program : AccountInfo)
      → ℕ
      → Chain
      → Result Chain
  unfolding meta_new meta_new_readonly
  deposit program group marginfi_account authority bank signer_token_account liquidity_vault
        token_program amount c =
      let ix : Instruction = record {
        program_id = program.key;
        accounts =
            meta_new_readonly group.key false
            ∷ meta_new marginfi_account.key false
            ∷ meta_new_readonly authority.key true
            ∷ meta_new bank.key false
            ∷ meta_new signer_token_account.key false
            ∷ meta_new liquidity_vault.key false
            ∷ meta_new_readonly token_program.key false
            ∷ [];
        input = mfi_deposit ++ (to_le_bytes 8 amount ++ (0 ∷ []));
      } in
      let infos : List AccountInfo =
        program ∷ group ∷ marginfi_account ∷ authority ∷ bank ∷ signer_token_account
        ∷ liquidity_vault ∷ token_program ∷ [] in
      ok_or (rt.invoke_signed id ix infos [] c) cpi_failed

  unfoldable pub withdraw :
      (program group marginfi_account authority bank destination_token_account
        bank_liquidity_vault_authority liquidity_vault token_program oracle : AccountInfo)
      → ℕ
      → Bool
      → Chain
      → Result Chain
  unfolding meta_new meta_new_readonly
  withdraw program group marginfi_account authority bank destination_token_account
        bank_liquidity_vault_authority liquidity_vault token_program oracle amount withdraw_all c =
      let ix : Instruction = record {
        program_id = program.key;
        accounts =
            meta_new_readonly group.key false
            ∷ meta_new marginfi_account.key false
            ∷ meta_new_readonly authority.key true
            ∷ meta_new bank.key false
            ∷ meta_new destination_token_account.key false
            ∷ meta_new_readonly bank_liquidity_vault_authority.key false
            ∷ meta_new liquidity_vault.key false
            ∷ meta_new_readonly token_program.key false
            ∷ meta_new_readonly bank.key false
            ∷ meta_new_readonly oracle.key false
            ∷ [];
        input =
            mfi_withdraw ++ (to_le_bytes 8 amount ++ (1 ∷ (if withdraw_all then 1 else 0) ∷ []));
      } in
      let infos : List AccountInfo =
        program ∷ group ∷ marginfi_account ∷ authority ∷ bank ∷ destination_token_account
        ∷ bank_liquidity_vault_authority ∷ liquidity_vault ∷ token_program ∷ oracle ∷ [] in
      ok_or (rt.invoke_signed id ix infos [] c) cpi_failed
