-- ===== src/Adapters/Drift/Calls.antt =====
-- What the CPIs to Drift send when a stake is added and when it is removed.
use solana_yield_adapter_sta.Base.{ℕ, ◌≡◌, [], ◌∷◌, ◌++◌, to_le_bytes, ok, ok_or-some}
use solana_yield_adapter_sta.Runtime.{Runtime, Chain, AccountInfo, meta_new, meta_new_readonly}
use solana_yield_adapter_sta.Adapters.Calls.{Sent, reads, writes, signs}
use solana_yield_adapter_sta.Adapters.Drift.{id}
use solana_yield_adapter_sta.Adapters.Drift.Stake.{
  add_if_stake_disc, request_remove_if_stake_disc, remove_if_stake_disc, cpi, add_stake,
  request_remove, remove_stake,
}

module _ (rt : Runtime) where
  pub add_stake-Sent :
      (program state spot_market if_stake user_stats authority spot_market_vault if_vault
        drift_signer source token_program : AccountInfo)
      (amount : ℕ) (c c' : Chain)
      → add_stake rt program state spot_market if_stake user_stats authority spot_market_vault
          if_vault drift_signer source token_program amount c
        ≡ ok c'
      → Sent rt id program.key
          (reads state.key
            ∷ writes spot_market.key
            ∷ writes if_stake.key
            ∷ writes user_stats.key
            ∷ signs authority.key
            ∷ writes spot_market_vault.key
            ∷ writes if_vault.key
            ∷ reads drift_signer.key
            ∷ writes source.key
            ∷ reads token_program.key
            ∷ [])
          (add_if_stake_disc ++ (to_le_bytes 2 0 ++ to_le_bytes 8 amount))
          c
          c'
  unfolding add_stake cpi meta_new meta_new_readonly
  add_stake-Sent program state spot_market if_stake user_stats authority spot_market_vault if_vault
        drift_signer source token_program amount c c' h =
      (_, ok_or-some _ _ h)

  pub request_remove-Sent :
      (program spot_market if_stake user_stats authority if_vault : AccountInfo) (shares : ℕ)
      (c c' : Chain)
      → request_remove rt program spot_market if_stake user_stats authority if_vault shares c
        ≡ ok c'
      → Sent rt id program.key
          (writes spot_market.key
            ∷ writes if_stake.key
            ∷ writes user_stats.key
            ∷ signs authority.key
            ∷ writes if_vault.key
            ∷ [])
          (request_remove_if_stake_disc ++ (to_le_bytes 2 0 ++ to_le_bytes 8 shares))
          c
          c'
  unfolding request_remove cpi meta_new meta_new_readonly
  request_remove-Sent program spot_market if_stake user_stats authority if_vault shares c c' h =
      (_, ok_or-some _ _ h)

  pub remove_stake-Sent :
      (program state spot_market if_stake user_stats authority if_vault drift_signer destination
        token_program : AccountInfo)
      (c c' : Chain)
      → remove_stake rt program state spot_market if_stake user_stats authority if_vault
          drift_signer destination token_program c
        ≡ ok c'
      → Sent rt id program.key
          (reads state.key
            ∷ writes spot_market.key
            ∷ writes if_stake.key
            ∷ writes user_stats.key
            ∷ signs authority.key
            ∷ writes if_vault.key
            ∷ reads drift_signer.key
            ∷ writes destination.key
            ∷ reads token_program.key
            ∷ [])
          (remove_if_stake_disc ++ to_le_bytes 2 0)
          c
          c'
  unfolding remove_stake cpi meta_new meta_new_readonly
  remove_stake-Sent program state spot_market if_stake user_stats authority if_vault drift_signer
        destination token_program c c' h =
      (_, ok_or-some _ _ h)
