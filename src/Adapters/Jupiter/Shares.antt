-- ===== src/Adapters/Jupiter/Shares.antt =====
-- What deposit and withdraw do to the liquidity tokens that the state tracks.
use solana_yield_adapter_sta.Base.{
  ℕ, ◌+◌, ◌-◌, ◌≤◌, ◌<◌, ◌≡◌, ◌^◌, List, some, ok, Store, lookup, insert, checked_add, checked_sub,
  Result-cases, Option-cases, inl, inr, >>=-eq-ok, arith,
}
use solana_yield_adapter_sta.Runtime.{Runtime, Chain, TokenAccount, token_at}
use solana_yield_adapter_sta.Runtime.Anchor.{load_token}
use solana_yield_adapter_sta.Interface.{dispatcher_id, set_u64_return, verify_caller_is_dispatcher}
use solana_yield_adapter_sta.Adapters.{check_state, adapter_deposit_event, adapter_withdraw_event}
use solana_yield_adapter_sta.Adapters.Jupiter.{id, AdapterState, Outcome}
use solana_yield_adapter_sta.Adapters.Jupiter.Perps.{add_liquidity, remove_liquidity}
use solana_yield_adapter_sta.Adapters.Jupiter.Calls.{
  AddSent, RemoveSent, add_liquidity-AddSent, remove_liquidity-RemoveSent,
}
use solana_yield_adapter_sta.Adapters.Jupiter.Handlers.{
  AdapterDeposit, AdapterWithdraw, Entry, liquidity_accounts, with_shares, validate_deposit,
  validate_withdraw, adapter_deposit, adapter_withdraw,
}

-- Whose accounts the liquidity goes through: the position signs and pays out of its USDC pool, and the
-- liquidity token's account, the pool and the custody are those of the state.
abbrev pub Sides : AdapterDeposit → AdapterState → Type 0
Sides a st =
    ((liquidity_accounts a).owner.key ≡ a.position.key)
    × ((liquidity_accounts a).token_account.key ≡ a.position_usdc_pool.key)
    × ((liquidity_accounts a).lp_token_account.key ≡ st.lp_token_account)
    × ((liquidity_accounts a).pool.key ≡ st.pool)
    × ((liquidity_accounts a).custody.key ≡ st.custody)

module _ (rt : Runtime) where
  pub record Joined (a : AdapterDeposit) (amount : ℕ) (s : Store AdapterState) (c : Chain)
      (out : Outcome) (entry : Entry) (moved : Chain) (minted : ℕ) : Type 0 where
    pub state_at : lookup a.adapter_state.key s ≡ some entry.state
    pub owned : entry.state.header.position ≡ a.position.key
    pub pool : a.pool.key ≡ entry.state.pool
    pub custody : a.custody.key ≡ entry.state.custody
    pub lp_account : a.lp_token_account.key ≡ entry.state.lp_token_account
    pub lp_before : token_at rt c a.lp_token_account.key ≡ some entry.lp
    pub positive : 0 < amount
    pub caller : verify_caller_is_dispatcher rt a.instructions_sysvar dispatcher_id c ≡ ok tt
    pub called : add_liquidity rt (liquidity_accounts a) amount a.remaining_accounts c ≡ ok moved
    pub sides : Sides a entry.state
    pub sent : AddSent rt (liquidity_accounts a) amount a.remaining_accounts c moved
    pub gained :
        (lp : TokenAccount) × (token_at rt moved a.lp_token_account.key ≡ some lp)
        × (lp.amount ≡ entry.lp.amount + minted)
    pub fits : entry.state.header.total_shares + minted < 2 ^ 64
    pub state :
        out.state
        ≡ insert a.adapter_state.key
            (with_shares (entry.state.header.total_shares + minted) entry.state)
            s
    pub chain : out.chain ≡ set_u64_return id minted moved
    pub event : out.event ≡ some (adapter_deposit_event entry.state.header.position amount minted)

  -- A deposit into Jupiter that succeeds was called by the dispatcher, has sent the addition of
  -- the positive amount, out of the position's USDC pool, on the pool, the custody and the liquidity token
  -- account of the state and with the remaining accounts read-only, adds to the tracked shares exactly
  -- what that token account has gained, below 2^64, and answers with it.
  pub deposit-Joined :
      (a : AdapterDeposit) (amount : ℕ) (d : List ℕ) (s : Store AdapterState) (c : Chain)
      (out : Outcome)
      → adapter_deposit rt a amount d s c ≡ ok out
      → (entry : Entry) × (moved : Chain) × (minted : ℕ) × Joined a amount s c out entry moved
          minted
  unfolding adapter_deposit checked_add checked_sub validate_deposit check_state load_token
  deposit-Joined a amount d s c out h =
      let (entry, v, rest) = >>=-eq-ok (validate_deposit rt a s c) _ h in
      elim (Result-cases (add_liquidity rt (liquidity_accounts a) amount a.remaining_accounts c)) [
        | inr (x, e) ↦ absurd (ground arith)
        | inl (moved, e) ↦ elim (Option-cases (token_at rt moved a.lp_token_account.key)) [
          | inl f ↦ absurd (ground arith)
          | inr (lp, f) ↦
              let lo : entry.lp.amount ≤ lp.amount = ground arith in
              (
                entry,
                moved,
                lp.amount - entry.lp.amount,
                record {
                  state_at = ground arith;
                  owned = ground arith;
                  pool = ground arith;
                  custody = ground arith;
                  lp_account = ground arith;
                  lp_before = ground arith;
                  positive = ground arith;
                  caller = ground arith;
                  called = e;
                  sides = (ground arith, ground arith, ground arith, ground arith, ground arith);
                  sent =
                      add_liquidity-AddSent rt (liquidity_accounts a) amount a.remaining_accounts c
                        moved e;
                  gained = (lp, f, omega arith);
                  fits = ground arith;
                  state = ground arith;
                  chain = ground arith;
                  event = ground arith;
                },
              )
        ]
      ]

  pub record Left (a : AdapterWithdraw) (shares : ℕ) (s : Store AdapterState) (c : Chain)
      (out : Outcome) (entry : Entry) (moved : Chain) (amount_out : ℕ) : Type 0 where
    pub state_at : lookup a.adapter_state.key s ≡ some entry.state
    pub owned : entry.state.header.position ≡ a.position.key
    pub pool : a.pool.key ≡ entry.state.pool
    pub usdc_before : token_at rt c a.position_usdc_pool.key ≡ some entry.pool
    pub positive : 0 < shares
    pub enough : shares ≤ entry.state.header.total_shares
    pub caller : verify_caller_is_dispatcher rt a.instructions_sysvar dispatcher_id c ≡ ok tt
    pub called : remove_liquidity rt (liquidity_accounts a) shares a.remaining_accounts c ≡ ok moved
    pub sides : Sides a entry.state
    pub sent : RemoveSent rt (liquidity_accounts a) shares a.remaining_accounts c moved
    pub gained :
        (usdc : TokenAccount) × (token_at rt moved a.position_usdc_pool.key ≡ some usdc)
        × (usdc.amount ≡ entry.pool.amount + amount_out)
    pub state :
        out.state
        ≡ insert a.adapter_state.key
            (with_shares (entry.state.header.total_shares - shares) entry.state)
            s
    pub chain : out.chain ≡ set_u64_return id amount_out moved
    pub event :
        out.event ≡ some (adapter_withdraw_event entry.state.header.position shares amount_out)

  -- A withdrawal from Jupiter that succeeds was called by the dispatcher, has sent the
  -- removal of positive shares, at most the tracked ones, from the liquidity token account, the pool and
  -- the custody of the state into the position's USDC pool, takes them off the tracked ones, and answers
  -- with the USDC that the pool has gained.
  pub withdraw-Left :
      (a : AdapterWithdraw) (shares : ℕ) (d : List ℕ) (s : Store AdapterState) (c : Chain)
      (out : Outcome)
      → adapter_withdraw rt a shares d s c ≡ ok out
      → (entry : Entry) × (moved : Chain) × (amount_out : ℕ) × Left a shares s c out entry moved
          amount_out
  unfolding adapter_withdraw checked_sub validate_withdraw validate_deposit check_state load_token
  withdraw-Left a shares d s c out h =
      let (entry, v, rest) = >>=-eq-ok (validate_deposit rt a s c) _ h in
      elim (Result-cases
        (remove_liquidity rt (liquidity_accounts a) shares a.remaining_accounts c)) [
          | inr (x, e) ↦ absurd (ground arith)
          | inl (moved, e) ↦ elim (Option-cases (token_at rt moved a.position_usdc_pool.key)) [
            | inl f ↦ absurd (ground arith)
            | inr (usdc, f) ↦
                let lo : entry.pool.amount ≤ usdc.amount = ground arith in
                (
                  entry,
                  moved,
                  usdc.amount - entry.pool.amount,
                  record {
                    state_at = ground arith;
                    owned = ground arith;
                    pool = ground arith;
                    usdc_before = ground arith;
                    positive = ground arith;
                    enough = ground arith;
                    caller = ground arith;
                    called = e;
                    sides = (ground arith, ground arith, ground arith, ground arith, ground arith);
                    sent =
                        remove_liquidity-RemoveSent rt (liquidity_accounts a) shares
                          a.remaining_accounts c moved e;
                    gained = (usdc, f, omega arith);
                    state = ground arith;
                    chain = ground arith;
                    event = ground arith;
                  },
                )
          ]
        ]
