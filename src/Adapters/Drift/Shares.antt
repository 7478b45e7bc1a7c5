-- ===== src/Adapters/Drift/Shares.antt =====
-- What deposit and withdraw do to the insurance fund shares that the state tracks.
use solana_yield_adapter_sta.Base.{
  [], ◌∷◌, ◌++◌, to_le_bytes, ℕ, ◌+◌, ◌-◌, ◌≤◌, ◌<◌, ◌≡◌, ◌^◌, List, some, Result, ok, Store,
  lookup, insert, checked_add, checked_sub, try_u64, Result-cases, Option-cases, inl, inr,
  >>=-eq-ok, arith,
}
use solana_yield_adapter_sta.Runtime.{Runtime, Chain, TokenAccount, token_at, content_of}
use solana_yield_adapter_sta.Runtime.Anchor.{load_token}
use solana_yield_adapter_sta.Interface.{dispatcher_id, set_u64_return, verify_caller_is_dispatcher}
use solana_yield_adapter_sta.Adapters.{check_state, adapter_deposit_event, adapter_withdraw_event}
use solana_yield_adapter_sta.Adapters.Drift.{id, AdapterState, Outcome}
use solana_yield_adapter_sta.Adapters.Drift.Stake.{
  add_if_stake_disc, request_remove_if_stake_disc, remove_if_stake_disc, stake_shares, add_stake,
  request_remove, remove_stake,
}
use solana_yield_adapter_sta.Adapters.Drift.Handlers.{
  AdapterDeposit, AdapterWithdraw, Entry, with_shares, validate_deposit, validate_withdraw,
  adapter_deposit, adapter_withdraw,
}
use solana_yield_adapter_sta.Adapters.Calls.{Sent, reads, writes, signs}
use solana_yield_adapter_sta.Adapters.Drift.Calls.{
  add_stake-Sent, request_remove-Sent, remove_stake-Sent,
}

module _ (rt : Runtime) where
  -- The CPIs with the accounts of an instruction.
  abbrev stakes : AdapterDeposit → ℕ → Chain → Result Chain
  stakes a amount c =
      add_stake rt a.drift_program a.state a.spot_market a.insurance_fund_stake a.user_stats
        a.position a.spot_market_vault a.insurance_fund_vault a.drift_signer a.position_usdc_pool
        a.token_program amount c

  abbrev requests : AdapterWithdraw → ℕ → Chain → Result Chain
  requests a shares c =
      request_remove rt a.drift_program a.spot_market a.insurance_fund_stake a.user_stats a.position
        a.insurance_fund_vault shares c

  abbrev removes : AdapterWithdraw → Chain → Result Chain
  removes a c =
      remove_stake rt a.drift_program a.state a.spot_market a.insurance_fund_stake a.user_stats
        a.position a.insurance_fund_vault a.drift_signer a.position_usdc_pool a.token_program c

  pub record Staked (a : AdapterDeposit) (amount : ℕ) (s : Store AdapterState) (c : Chain)
      (out : Outcome) (entry : Entry) (staked : Chain) (minted : ℕ) : Type 0 where
    pub state_at : lookup a.adapter_state.key s ≡ some entry.state
    pub owned : entry.state.header.position ≡ a.position.key
    pub stake : a.insurance_fund_stake.key ≡ entry.state.insurance_fund_stake
    pub market : a.spot_market.key ≡ entry.state.spot_market
    pub stats : a.user_stats.key ≡ entry.state.user_stats
    pub positive : 0 < amount
    pub caller : verify_caller_is_dispatcher rt a.instructions_sysvar dispatcher_id c ≡ ok tt
    pub called : stakes a amount c ≡ ok staked
    pub sent :
        Sent rt id a.drift_program.key
          (reads a.state.key
            ∷ writes a.spot_market.key
            ∷ writes a.insurance_fund_stake.key
            ∷ writes a.user_stats.key
            ∷ signs a.position.key
            ∷ writes a.spot_market_vault.key
            ∷ writes a.insurance_fund_vault.key
            ∷ reads a.drift_signer.key
            ∷ writes a.position_usdc_pool.key
            ∷ reads a.token_program.key
            ∷ [])
          (add_if_stake_disc ++ (to_le_bytes 2 0 ++ to_le_bytes 8 amount))
          c
          staked
    pub gained :
        (before : ℕ) × (stake_shares (content_of c a.insurance_fund_stake.key) ≡ ok before)
        × (stake_shares (content_of staked a.insurance_fund_stake.key) ≡ ok (before + minted))
    pub fits : entry.state.header.total_shares + minted < 2 ^ 64
    pub state :
        out.state
        ≡ insert a.adapter_state.key
            (with_shares (entry.state.header.total_shares + minted) entry.state)
            s
    pub chain : out.chain ≡ set_u64_return id minted staked
    pub event : out.event ≡ some (adapter_deposit_event entry.state.header.position amount minted)

  -- A deposit into Drift that succeeds was called by the dispatcher, has sent a stake of the
  -- positive amount, out of the position's USDC pool, on the spot market, the stake account and the user
  -- stats of the state, adds to the tracked shares exactly those by which that stake account has grown,
  -- below 2^64, and answers with them.
  pub deposit-Staked :
      (a : AdapterDeposit) (amount : ℕ) (d : List ℕ) (s : Store AdapterState) (c : Chain)
      (out : Outcome)
      → adapter_deposit rt a amount d s c ≡ ok out
      → (entry : Entry) × (staked : Chain) × (minted : ℕ) × Staked a amount s c out entry staked
          minted
  unfolding adapter_deposit checked_add checked_sub try_u64 validate_deposit check_state
  deposit-Staked a amount d s c out h =
      let (entry, v, rest) = >>=-eq-ok (validate_deposit rt a s c) _ h in
      elim (Result-cases (stake_shares (content_of c a.insurance_fund_stake.key))) [
        | inr (x, e) ↦ absurd (ground arith)
        | inl (before, e) ↦ elim (Result-cases (stakes a amount c)) [
          | inr (x, f) ↦ absurd (ground arith)
          | inl (staked, f) ↦
              elim (Result-cases (stake_shares (content_of staked a.insurance_fund_stake.key))) [
                | inr (x, g) ↦ absurd (ground arith)
                | inl (after, g) ↦
                    let lo : before ≤ after = ground arith in
                    let sum : before + (after - before) ≡ after = omega arith in
                    (
                      entry,
                      staked,
                      after - before,
                      record {
                        state_at = ground arith;
                        owned = ground arith;
                        stake = ground arith;
                        market = ground arith;
                        stats = ground arith;
                        positive = ground arith;
                        caller = ground arith;
                        called = f;
                        sent =
                            add_stake-Sent rt a.drift_program a.state a.spot_market
                              a.insurance_fund_stake a.user_stats a.position a.spot_market_vault
                              a.insurance_fund_vault a.drift_signer a.position_usdc_pool
                              a.token_program amount c staked f;
                        gained = (before, e, rw sum g);
                        fits = ground arith;
                        state = ground arith;
                        chain = ground arith;
                        event = ground arith;
                      },
                    )
              ]
        ]
      ]

  pub record Unstaked (a : AdapterWithdraw) (shares : ℕ) (s : Store AdapterState) (c : Chain)
      (out : Outcome) (entry : Entry) (removed : Chain) (amount_out : ℕ) : Type 0 where
    pub state_at : lookup a.adapter_state.key s ≡ some entry.state
    pub owned : entry.state.header.position ≡ a.position.key
    pub stake : a.insurance_fund_stake.key ≡ entry.state.insurance_fund_stake
    pub market : a.spot_market.key ≡ entry.state.spot_market
    pub stats : a.user_stats.key ≡ entry.state.user_stats
    pub usdc_before : token_at rt c a.position_usdc_pool.key ≡ some entry.pool
    pub positive : 0 < shares
    pub enough : shares ≤ entry.state.header.total_shares
    pub caller : verify_caller_is_dispatcher rt a.instructions_sysvar dispatcher_id c ≡ ok tt
    pub called :
        (requested : Chain) × (requests a shares c ≡ ok requested)
        × (removes a requested ≡ ok removed)
    pub sent :
        (requested : Chain) × Sent rt id a.drift_program.key
          (writes a.spot_market.key
            ∷ writes a.insurance_fund_stake.key
            ∷ writes a.user_stats.key
            ∷ signs a.position.key
            ∷ writes a.insurance_fund_vault.key
            ∷ [])
          (request_remove_if_stake_disc ++ (to_le_bytes 2 0 ++ to_le_bytes 8 shares))
          c
          requested
        × Sent rt id a.drift_program.key
            (reads a.state.key
              ∷ writes a.spot_market.key
              ∷ writes a.insurance_fund_stake.key
              ∷ writes a.user_stats.key
              ∷ signs a.position.key
              ∷ writes a.insurance_fund_vault.key
              ∷ reads a.drift_signer.key
              ∷ writes a.position_usdc_pool.key
              ∷ reads a.token_program.key
              ∷ [])
            (remove_if_stake_disc ++ to_le_bytes 2 0)
            requested
            removed
    pub gained :
        (usdc : TokenAccount) × (token_at rt removed a.position_usdc_pool.key ≡ some usdc)
        × (usdc.amount ≡ entry.pool.amount + amount_out)
    pub state :
        out.state
        ≡ insert a.adapter_state.key
            (with_shares (entry.state.header.total_shares - shares) entry.state)
            s
    pub chain : out.chain ≡ set_u64_return id amount_out removed
    pub event :
        out.event ≡ some (adapter_withdraw_event entry.state.header.position shares amount_out)

  -- A withdrawal from Drift that succeeds was called by the dispatcher, has sent the request to
  -- remove positive shares, at most the tracked ones, and then at once their removal into the position's
  -- USDC pool, both on the spot market, the stake account and the user stats of the state, takes them
  -- off the tracked ones, and answers with the USDC that the pool has gained.
  pub withdraw-Unstaked :
      (a : AdapterWithdraw) (shares : ℕ) (d : List ℕ) (s : Store AdapterState) (c : Chain)
      (out : Outcome)
      → adapter_withdraw rt a shares d s c ≡ ok out
      → (entry : Entry) × (removed : Chain) × (amount_out : ℕ) × Unstaked a shares s c out entry
          removed amount_out
  unfolding adapter_withdraw checked_sub validate_withdraw check_state load_token
  withdraw-Unstaked a shares d s c out h =
      let (entry, v, rest) = >>=-eq-ok (validate_withdraw rt a s c) _ h in
      elim (Result-cases (requests a shares c)) [
        | inr (x, e) ↦ absurd (ground arith)
        | inl (requested, e) ↦ elim (Result-cases (removes a requested)) [
          | inr (x, f) ↦ absurd (ground arith)
          | inl (removed, f) ↦ elim (Option-cases (token_at rt removed a.position_usdc_pool.key)) [
            | inl g ↦ absurd (ground arith)
            | inr (usdc, g) ↦
                let lo : entry.pool.amount ≤ usdc.amount = ground arith in
                (
                  entry,
                  removed,
                  usdc.amount - entry.pool.amount,
                  record {
                    state_at = ground arith;
                    owned = ground arith;
                    stake = ground arith;
                    market = ground arith;
                    stats = ground arith;
                    usdc_before = ground arith;
                    positive = ground arith;
                    enough = ground arith;
                    caller = ground arith;
                    called = (requested, e, f);
                    sent = (
                      requested,
                      request_remove-Sent rt a.drift_program a.spot_market a.insurance_fund_stake
                          a.user_stats a.position a.insurance_fund_vault shares c requested e,
                      remove_stake-Sent rt a.drift_program a.state a.spot_market
                          a.insurance_fund_stake a.user_stats a.position a.insurance_fund_vault
                          a.drift_signer a.position_usdc_pool a.token_program requested removed f,
                    );
                    gained = (usdc, g, omega arith);
                    state = ground arith;
                    chain = ground arith;
                    event = ground arith;
                  },
                )
          ]
        ]
      ]
