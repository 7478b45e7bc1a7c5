-- ===== src/Adapters/Maple/Orca.antt =====
-- The swap CPI and the layout of a whirlpool (orca_cpi.rs).
use solana_yield_adapter_sta.Base.{
  ℕ, ◌/◌, ◌^◌, ◌==◌, Bool, true, false, List, [], ◌∷◌, ◌++◌, to_le_bytes, checked_mul, try_u64,
  u128_mod, Result, ok, ◌>>=◌, ok_or, if◌then◌else◌,
}
use solana_yield_adapter_sta.Runtime.{
  Runtime, Chain, AccountInfo, Instruction, meta_new, meta_new_readonly,
}
use solana_yield_adapter_sta.Adapters.{math_overflow, cpi_failed, read_u64, read_u128}
use solana_yield_adapter_sta.Adapters.Maple.{id}

abbrev pub orca_swap : List ℕ
orca_swap = 248 ∷ 198 ∷ 158 ∷ 145 ∷ 225 ∷ 117 ∷ 135 ∷ 200 ∷ []

abbrev pub min_sqrt_price : ℕ
min_sqrt_price = 4295048016

abbrev pub max_sqrt_price : ℕ
max_sqrt_price = 79226673515401279992447579055

abbrev pub wp_sqrt_price : ℕ
wp_sqrt_price = 65

abbrev pub token_amount_off : ℕ
token_amount_off = 64

unfoldable pub token_amount : List ℕ → Result ℕ
token_amount content = read_u64 content token_amount_off

unfoldable pub whirlpool_value_usdc : List ℕ → ℕ → Result ℕ
whirlpool_value_usdc wp_data syrup_balance = if syrup_balance == 0 then ok 0 else (do
  sp ← read_u128 wp_data wp_sqrt_price
  product ← ok_or (checked_mul u128_mod syrup_balance sp) math_overflow
  let step1 = product / 2 ^ 64
  product' ← ok_or (checked_mul u128_mod step1 sp) math_overflow
  ok_or (try_u64 (product' / 2 ^ 64)) math_overflow)

pub record SwapAccounts : Type 0 where
  pub program : AccountInfo
  pub token_program : AccountInfo
  pub authority : AccountInfo
  pub whirlpool : AccountInfo
  pub token_owner_a : AccountInfo
  pub vault_a : AccountInfo
  pub token_owner_b : AccountInfo
  pub vault_b : AccountInfo
  pub tick_array_0 : AccountInfo
  pub tick_array_1 : AccountInfo
  pub tick_array_2 : AccountInfo
  pub oracle : AccountInfo

module _ (rt : Runtime) where
  unfoldable pub swap : SwapAccounts → ℕ → Bool → Chain → Result Chain
  unfolding meta_new meta_new_readonly
  swap a amount a_to_b c =
      let sqrt_price_limit = if a_to_b then min_sqrt_price else max_sqrt_price in
      let ix : Instruction = record {
        program_id = a.program.key;
        accounts =
            meta_new_readonly a.token_program.key false
            ∷ meta_new_readonly a.authority.key true
            ∷ meta_new a.whirlpool.key false
            ∷ meta_new a.token_owner_a.key false
            ∷ meta_new a.vault_a.key false
            ∷ meta_new a.token_owner_b.key false
            ∷ meta_new a.vault_b.key false
            ∷ meta_new a.tick_array_0.key false
            ∷ meta_new a.tick_array_1.key false
            ∷ meta_new a.tick_array_2.key false
            ∷ meta_new a.oracle.key false
            ∷ [];
        input =
            orca_swap
            ++ (to_le_bytes 8 amount
                ++ (to_le_bytes 8 0
                    ++ (to_le_bytes 16 sqrt_price_limit ++ (1 ∷ (if a_to_b then 1 else 0) ∷ []))));
      } in
      let infos : List AccountInfo =
        a.program ∷ a.token_program ∷ a.authority ∷ a.whirlpool ∷ a.token_owner_a ∷ a.vault_a
        ∷ a.token_owner_b ∷ a.vault_b ∷ a.tick_array_0 ∷ a.tick_array_1 ∷ a.tick_array_2 ∷ a.oracle
        ∷ [] in
      ok_or (rt.invoke_signed id ix infos [] c) cpi_failed
