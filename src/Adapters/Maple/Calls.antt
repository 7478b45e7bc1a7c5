-- ===== src/Adapters/Maple/Calls.antt =====
-- What a swap sends.
use solana_yield_adapter_sta.Base.{
  ℕ, ◌≡◌, Bool, [], ◌∷◌, ◌++◌, to_le_bytes, ok, ok_or-some, if◌then◌else◌,
}
use solana_yield_adapter_sta.Runtime.{Runtime, Chain, meta_new, meta_new_readonly}
use solana_yield_adapter_sta.Adapters.Calls.{Sent, reads, writes, signs}
use solana_yield_adapter_sta.Adapters.Maple.{id}
use solana_yield_adapter_sta.Adapters.Maple.Orca.{
  orca_swap, min_sqrt_price, max_sqrt_price, SwapAccounts, swap,
}

module _ (rt : Runtime) where
  -- The call of a swap of the given amount, exactly in, without a floor on what it pays: from the
  -- first token to the second where `a_to_b` is set.
  abbrev pub SwapSent : SwapAccounts → ℕ → Bool → Chain → Chain → Type 0
  SwapSent a amount a_to_b c c' =
      Sent rt id a.program.key
        (reads a.token_program.key
          ∷ signs a.authority.key
          ∷ writes a.whirlpool.key
          ∷ writes a.token_owner_a.key
          ∷ writes a.vault_a.key
          ∷ writes a.token_owner_b.key
          ∷ writes a.vault_b.key
          ∷ writes a.tick_array_0.key
          ∷ writes a.tick_array_1.key
          ∷ writes a.tick_array_2.key
          ∷ writes a.oracle.key
          ∷ [])
        (orca_swap
          ++ (to_le_bytes 8 amount
              ++ (to_le_bytes 8 0
                  ++ (to_le_bytes 16 (if a_to_b then min_sqrt_price else max_sqrt_price)
                      ++ (1 ∷ (if a_to_b then 1 else 0) ∷ [])))))
        c c'

  pub swap-SwapSent :
      (a : SwapAccounts) (amount : ℕ) (a_to_b : Bool) (c c' : Chain)
      → swap rt a amount a_to_b c ≡ ok c'
      → SwapSent a amount a_to_b c c'
  unfolding swap meta_new meta_new_readonly
  swap-SwapSent a amount a_to_b c c' h = (_, ok_or-some _ _ h)
