-- ===== src/Adapters/Jupiter/Calls.antt =====
-- What the CPIs that add and remove liquidity send.
use solana_yield_adapter_sta.Base.{
  ℕ, ◌≡◌, List, [], ◌∷◌, ◌++◌, map, append-nil, append_assoc, to_le_bytes, ok, ok_or-some, arith,
}
use solana_yield_adapter_sta.Runtime.{
  Runtime, Chain, AccountMeta, AccountInfo, meta_new, meta_new_readonly,
}
use solana_yield_adapter_sta.Adapters.Calls.{Sent, reads, writes, signs}
use solana_yield_adapter_sta.Adapters.Jupiter.{id}
use solana_yield_adapter_sta.Adapters.Jupiter.Perps.{
  jup_add_liquidity2, LiquidityAccounts, metas_and_infos, append_extra, call_perps, add_liquidity,
  jup_remove_liquidity2, remove_liquidity,
}

-- The extra accounts follow in their order, read-only.
append_extra-map :
    (metas : List AccountMeta) (infos extra : List AccountInfo)
    → append_extra metas infos extra ≡ (metas ++ map (λ a. reads a.key) extra, infos ++ extra)
unfolding append_extra meta_new_readonly
append_extra-map metas infos [] = ground (arith, append-nil metas, append-nil infos)
append_extra-map metas infos (acc ∷ extra) = ground (
  arith,
  append_extra-map (metas ++ reads acc.key ∷ []) (infos ++ acc ∷ []) extra,
  append_assoc metas (reads acc.key ∷ []) (map (λ a. reads a.key) extra),
  append_assoc infos (acc ∷ []) extra,
)

module _ (rt : Runtime) where
  -- The call with the given data on the accounts and the extra ones.
  abbrev pub PerpsSent : LiquidityAccounts → List ℕ → List AccountInfo → Chain → Chain → Type 0
  PerpsSent a input extra c c' =
      Sent rt id a.program.key
        ((signs a.owner.key
            ∷ writes a.token_account.key
            ∷ writes a.lp_token_account.key
            ∷ reads a.transfer_authority.key
            ∷ reads a.perpetuals.key
            ∷ writes a.pool.key
            ∷ writes a.custody.key
            ∷ reads a.doves_price.key
            ∷ reads a.pythnet_price.key
            ∷ writes a.custody_token_account.key
            ∷ writes a.lp_token_mint.key
            ∷ reads a.token_program.key
            ∷ reads a.event_authority.key
            ∷ reads a.program.key
            ∷ [])
          ++ map (λ b. reads b.key) extra)
        input c c'

  -- The call that adds the given amount, with no floor on what it pays and no swap before it.
  abbrev pub AddSent : LiquidityAccounts → ℕ → List AccountInfo → Chain → Chain → Type 0
  AddSent a amount =
      PerpsSent a (jup_add_liquidity2 ++ (to_le_bytes 8 amount ++ (to_le_bytes 8 0 ++ (0 ∷ []))))

  -- The call that removes the given shares, with no floor on what it pays.
  abbrev pub RemoveSent : LiquidityAccounts → ℕ → List AccountInfo → Chain → Chain → Type 0
  RemoveSent a shares =
      PerpsSent a (jup_remove_liquidity2 ++ (to_le_bytes 8 shares ++ to_le_bytes 8 0))

  pub add_liquidity-AddSent :
      (a : LiquidityAccounts) (amount : ℕ) (extra : List AccountInfo) (c c' : Chain)
      → add_liquidity rt a amount extra c ≡ ok c'
      → AddSent a amount extra c c'
  unfolding add_liquidity call_perps metas_and_infos meta_new meta_new_readonly
  add_liquidity-AddSent a amount extra c c' h =
      (_, rw (append_extra-map _ _ extra) at (ok_or-some _ _ h))

  pub remove_liquidity-RemoveSent :
      (a : LiquidityAccounts) (shares : ℕ) (extra : List AccountInfo) (c c' : Chain)
      → remove_liquidity rt a shares extra c ≡ ok c'
      → RemoveSent a shares extra c c'
  unfolding remove_liquidity call_perps metas_and_infos meta_new meta_new_readonly
  remove_liquidity-RemoveSent a shares extra c c' h =
      (_, rw (append_extra-map _ _ extra) at (ok_or-some _ _ h))
