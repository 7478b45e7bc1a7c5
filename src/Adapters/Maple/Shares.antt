-- ===== src/Adapters/Maple/Shares.antt =====
-- What deposit and withdraw do to the syrupUSDC that the state tracks.
use solana_yield_adapter_sta.Base.{
  ℕ, ◌+◌, ◌-◌, ◌≤◌, ◌<◌, ◌≡◌, ◌^◌, true, false, List, some, ok, Store, lookup, insert, checked_add,
  checked_sub, Result-cases, Option-cases, inl, inr, >>=-eq-ok, arith,
}
use solana_yield_adapter_sta.Runtime.{Runtime, Chain, TokenAccount, token_at}
use solana_yield_adapter_sta.Runtime.Anchor.{load_token}
use solana_yield_adapter_sta.Interface.{dispatcher_id, set_u64_return, verify_caller_is_dispatcher}
use solana_yield_adapter_sta.Adapters.{check_state, adapter_deposit_event, adapter_withdraw_event}
use solana_yield_adapter_sta.Adapters.Maple.{id, AdapterState, Outcome}
use solana_yield_adapter_sta.Adapters.Maple.Orca.{swap}
use solana_yield_adapter_sta.Adapters.Maple.Calls.{SwapSent, swap-SwapSent}
use solana_yield_adapter_sta.Adapters.Maple.Handlers.{
  AdapterDeposit, AdapterWithdraw, Entry, swap_accounts, with_shares, validate_deposit,
  validate_withdraw, adapter_deposit, adapter_withdraw,
}

-- Whose accounts are swapped on: the position signs, the pool is that of the state, the first token's
-- account is the syrupUSDC account of the state, and the second one's is the position's USDC pool.
abbrev pub Sides : AdapterDeposit → AdapterState → Type 0
Sides a st =
    ((swap_accounts a).authority.key ≡ a.position.key)
    × ((swap_accounts a).whirlpool.key ≡ st.whirlpool)
    × ((swap_accounts a).token_owner_a.key ≡ st.syrup_token_account)
    × ((swap_accounts a).token_owner_b.key ≡ a.position_usdc_pool.key)

module _ (rt : Runtime) where
  pub record Bought (a : AdapterDeposit) (amount : ℕ) (s : Store AdapterState) (c : Chain)
      (out : Outcome) (entry : Entry) (swapped : Chain) (minted : ℕ) : Type 0 where
    pub state_at : lookup a.adapter_state.key s ≡ some entry.state
    pub owned : entry.state.header.position ≡ a.position.key
    pub pool : a.whirlpool.key ≡ entry.state.whirlpool
    pub syrup_account : a.syrup_token_account.key ≡ entry.state.syrup_token_account
    pub syrup_before : token_at rt c a.syrup_token_account.key ≡ some entry.syrup
    pub positive : 0 < amount
    pub caller : verify_caller_is_dispatcher rt a.instructions_sysvar dispatcher_id c ≡ ok tt
    pub called : swap rt (swap_accounts a) amount false c ≡ ok swapped
    pub sides : Sides a entry.state
    pub sent : SwapSent rt (swap_accounts a) amount false c swapped
    pub gained :
        (syrup : TokenAccount) × (token_at rt swapped a.syrup_token_account.key ≡ some syrup)
        × (syrup.amount ≡ entry.syrup.amount + minted)
    pub fits : entry.state.header.total_shares + minted < 2 ^ 64
    pub state :
        out.state
        ≡ insert a.adapter_state.key
            (with_shares (entry.state.header.total_shares + minted) entry.state)
            s
    pub chain : out.chain ≡ set_u64_return id minted swapped
    pub event : out.event ≡ some (adapter_deposit_event entry.state.header.position amount minted)

  -- A deposit into Maple that succeeds was called by the dispatcher, has sent a swap of the
  -- positive amount, from the position's USDC pool into the syrupUSDC account of the state and on the
  -- whirlpool of the state, adds to the tracked shares exactly what that account has gained, below 2^64,
  -- and answers with it.
  pub deposit-Bought :
      (a : AdapterDeposit) (amount : ℕ) (d : List ℕ) (s : Store AdapterState) (c : Chain)
      (out : Outcome)
      → adapter_deposit rt a amount d s c ≡ ok out
      → (entry : Entry) × (swapped : Chain) × (minted : ℕ) × Bought a amount s c out entry swapped
          minted
  unfolding adapter_deposit checked_add checked_sub validate_deposit check_state load_token
  deposit-Bought a amount d s c out h =
      let (entry, v, rest) = >>=-eq-ok (validate_deposit rt a s c) _ h in
      elim (Result-cases (swap rt (swap_accounts a) amount false c)) [
        | inr (x, e) ↦ absurd (ground arith)
        | inl (swapped, e) ↦ elim (Option-cases (token_at rt swapped a.syrup_token_account.key)) [
          | inl f ↦ absurd (ground arith)
          | inr (syrup, f) ↦
              let lo : entry.syrup.amount ≤ syrup.amount = ground arith in
              (
                entry,
                swapped,
                syrup.amount - entry.syrup.amount,
                record {
                  state_at = ground arith;
                  owned = ground arith;
                  pool = ground arith;
                  syrup_account = ground arith;
                  syrup_before = ground arith;
                  positive = ground arith;
                  caller = ground arith;
                  called = e;
                  sides = (ground arith, ground arith, ground arith, ground arith);
                  sent = swap-SwapSent rt (swap_accounts a) amount false c swapped e;
                  gained = (syrup, f, omega arith);
                  fits = ground arith;
                  state = ground arith;
                  chain = ground arith;
                  event = ground arith;
                },
              )
        ]
      ]

  pub record Sold (a : AdapterWithdraw) (shares : ℕ) (s : Store AdapterState) (c : Chain)
      (out : Outcome) (entry : Entry) (swapped : Chain) (amount_out : ℕ) : Type 0 where
    pub state_at : lookup a.adapter_state.key s ≡ some entry.state
    pub owned : entry.state.header.position ≡ a.position.key
    pub pool : a.whirlpool.key ≡ entry.state.whirlpool
    pub usdc_before : token_at rt c a.position_usdc_pool.key ≡ some entry.pool
    pub positive : 0 < shares
    pub enough : shares ≤ entry.state.header.total_shares
    pub caller : verify_caller_is_dispatcher rt a.instructions_sysvar dispatcher_id c ≡ ok tt
    pub called : swap rt (swap_accounts a) shares true c ≡ ok swapped
    pub sides : Sides a entry.state
    pub sent : SwapSent rt (swap_accounts a) shares true c swapped
    pub gained :
        (usdc : TokenAccount) × (token_at rt swapped a.position_usdc_pool.key ≡ some usdc)
        × (usdc.amount ≡ entry.pool.amount + amount_out)
    pub state :
        out.state
        ≡ insert a.adapter_state.key
            (with_shares (entry.state.header.total_shares - shares) entry.state)
            s
    pub chain : out.chain ≡ set_u64_return id amount_out swapped
    pub event :
        out.event ≡ some (adapter_withdraw_event entry.state.header.position shares amount_out)

  -- A withdrawal from Maple that succeeds was called by the dispatcher, swaps back positive shares, at
  -- most the tracked ones, takes them off these, and answers with the USDC that the pool has gained.
  pub withdraw-Sold :
      (a : AdapterWithdraw) (shares : ℕ) (d : List ℕ) (s : Store AdapterState) (c : Chain)
      (out : Outcome)
      → adapter_withdraw rt a shares d s c ≡ ok out
      → (entry : Entry) × (swapped : Chain) × (amount_out : ℕ) × Sold a shares s c out entry swapped
          amount_out
  unfolding adapter_withdraw checked_sub validate_withdraw validate_deposit check_state load_token
  withdraw-Sold a shares d s c out h =
      let (entry, v, rest) = >>=-eq-ok (validate_deposit rt a s c) _ h in
      elim (Result-cases (swap rt (swap_accounts a) shares true c)) [
        | inr (x, e) ↦ absurd (ground arith)
        | inl (swapped, e) ↦ elim (Option-cases (token_at rt swapped a.position_usdc_pool.key)) [
          | inl f ↦ absurd (ground arith)
          | inr (usdc, f) ↦
              let lo : entry.pool.amount ≤ usdc.amount = ground arith in
              (
                entry,
                swapped,
                usdc.amount - entry.pool.amount,
                record {
                  state_at = ground arith;
                  owned = ground arith;
                  pool = ground arith;
                  usdc_before = ground arith;
                  positive = ground arith;
                  enough = ground arith;
                  caller = ground arith;
                  called = e;
                  sides = (ground arith, ground arith, ground arith, ground arith);
                  sent = swap-SwapSent rt (swap_accounts a) shares true c swapped e;
                  gained = (usdc, f, omega arith);
                  state = ground arith;
                  chain = ground arith;
                  event = ground arith;
                },
              )
        ]
      ]
