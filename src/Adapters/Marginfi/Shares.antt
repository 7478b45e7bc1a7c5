-- ===== src/Adapters/Marginfi/Shares.antt =====
-- What deposit and withdraw do to the booked principal.
use solana_yield_adapter_sta.Base.{
  ◌⊎◌, [], ◌∷◌, ◌++◌, to_le_bytes, if◌then◌else◌, Bool-cases, ℕ, ◌+◌, ◌-◌, ◌≤◌, ◌<◌, ◌≡◌, ◌^◌, leb,
  List, some, ok, Store, lookup, insert, checked_add, checked_sub, Result-cases, Option-cases, inl,
  inr, >>=-eq-ok, arith,
}
use solana_yield_adapter_sta.Runtime.{Runtime, Chain, TokenAccount, token_at}
use solana_yield_adapter_sta.Runtime.Anchor.{load_token, load_account}
use solana_yield_adapter_sta.Interface.{dispatcher_id, set_u64_return, verify_caller_is_dispatcher}
use solana_yield_adapter_sta.Adapters.{check_state, adapter_deposit_event, adapter_withdraw_event}
use solana_yield_adapter_sta.Adapters.Marginfi.{id, AdapterState, Outcome}
use solana_yield_adapter_sta.Adapters.Marginfi.Bank.{mfi_deposit, mfi_withdraw, deposit, withdraw}
use solana_yield_adapter_sta.Adapters.Calls.{Sent, reads, writes, signs}
use solana_yield_adapter_sta.Adapters.Marginfi.Calls.{deposit-Sent, withdraw-Sent}
use solana_yield_adapter_sta.Adapters.Marginfi.Handlers.{
  AdapterDeposit, AdapterWithdraw, Entry, with_shares, validate_deposit, validate_withdraw,
  adapter_deposit, adapter_withdraw,
}

module _ (rt : Runtime) where
  pub record Credited (a : AdapterDeposit) (amount : ℕ) (s : Store AdapterState) (c : Chain)
      (out : Outcome) (entry : Entry) (lent : Chain) : Type 0 where
    pub state_at : lookup a.adapter_state.key s ≡ some entry.state
    pub owned : entry.state.header.position ≡ a.position.key
    pub account : a.marginfi_account.key ≡ entry.state.marginfi_account
    pub bank : a.bank.key ≡ entry.state.bank
    pub positive : 0 < amount
    pub caller : verify_caller_is_dispatcher rt a.instructions_sysvar dispatcher_id c ≡ ok tt
    pub called :
        deposit rt a.marginfi_program a.marginfi_group a.marginfi_account a.position a.bank
          a.position_usdc_pool a.liquidity_vault a.token_program amount c
        ≡ ok lent
    pub group : a.marginfi_group.key ≡ entry.state.marginfi_group
    pub sent :
        Sent rt id a.marginfi_program.key
          (reads a.marginfi_group.key
            ∷ writes a.marginfi_account.key
            ∷ signs a.position.key
            ∷ writes a.bank.key
            ∷ writes a.position_usdc_pool.key
            ∷ writes a.liquidity_vault.key
            ∷ reads a.token_program.key
            ∷ [])
          (mfi_deposit ++ (to_le_bytes 8 amount ++ (0 ∷ [])))
          c
          lent
    pub fits : entry.state.header.total_shares + amount < 2 ^ 64
    pub state :
        out.state
        ≡ insert a.adapter_state.key
            (with_shares (entry.state.header.total_shares + amount) entry.state)
            s
    pub chain : out.chain ≡ set_u64_return id amount lent
    pub event : out.event ≡ some (adapter_deposit_event entry.state.header.position amount amount)

  -- A deposit into MarginFi that succeeds was called by the dispatcher, sends the positive amount to
  -- MarginFi on the group, the account and the bank of the state, books exactly that amount, below 2^64, and answers with it.
  pub deposit-Credited :
      (a : AdapterDeposit) (amount : ℕ) (d : List ℕ) (s : Store AdapterState) (c : Chain)
      (out : Outcome)
      → adapter_deposit rt a amount d s c ≡ ok out
      → (entry : Entry) × (lent : Chain) × Credited a amount s c out entry lent
  unfolding adapter_deposit checked_add validate_deposit check_state load_account
  deposit-Credited a amount d s c out h =
      let (entry, v, rest) = >>=-eq-ok (validate_deposit rt a s c) _ h in
      elim (Result-cases (
        deposit rt a.marginfi_program a.marginfi_group a.marginfi_account a.position a.bank
          a.position_usdc_pool a.liquidity_vault a.token_program amount c)) [
            | inr (x, e) ↦ absurd (ground arith)
            | inl (lent, e) ↦ (
              entry,
              lent,
              record {
                state_at = ground arith;
                owned = ground arith;
                account = ground arith;
                bank = ground arith;
                positive = ground arith;
                caller = ground arith;
                called = e;
                group = ground arith;
                sent =
                    deposit-Sent rt a.marginfi_program a.marginfi_group a.marginfi_account
                      a.position a.bank a.position_usdc_pool a.liquidity_vault a.token_program
                      amount c lent e;
                fits = ground arith;
                state = ground arith;
                chain = ground arith;
                event = ground arith;
              },
            )
          ]

  -- What a withdrawal of `shares` asks MarginFi for, and what it leaves of the booked shares: from the
  -- booked ones on the flag for everything is set and nothing is left, and below them the flag is not
  -- set and the shares come off exactly.
  abbrev pub Asks : (booked shares left flag : ℕ) → Type 0
  Asks booked shares left flag =
      ((booked ≤ shares) × (flag ≡ 1) × (left ≡ 0))
      ⊎ ((shares < booked) × (flag ≡ 0) × (left + shares ≡ booked))

  asks :
      (booked shares : ℕ)
      → Asks booked shares (booked - shares) (if leb booked shares then 1 else 0)
  asks booked shares = elim (Bool-cases (leb booked shares)) [
    | inl all ↦ inl (ground arith, ground arith, ground arith)
    | inr some_left ↦ inr (ground arith, ground arith, ground arith)
  ]

  pub record Debited (a : AdapterWithdraw) (shares : ℕ) (s : Store AdapterState) (c : Chain)
      (out : Outcome) (entry : Entry) (repaid : Chain) (pool : TokenAccount) (amount_out : ℕ)
      : Type 0 where
    pub state_at : lookup a.adapter_state.key s ≡ some entry.state
    pub owned : entry.state.header.position ≡ a.position.key
    pub account : a.marginfi_account.key ≡ entry.state.marginfi_account
    pub bank : a.bank.key ≡ entry.state.bank
    pub pool_before : token_at rt c a.position_usdc_pool.key ≡ some entry.pool
    pub positive : 0 < shares
    pub caller : verify_caller_is_dispatcher rt a.instructions_sysvar dispatcher_id c ≡ ok tt
    pub called :
        withdraw rt a.marginfi_program a.marginfi_group a.marginfi_account a.position a.bank
          a.position_usdc_pool a.bank_liquidity_vault_authority a.liquidity_vault a.token_program
          a.oracle shares
          (leb entry.state.header.total_shares shares)
          c
        ≡ ok repaid
    pub group : a.marginfi_group.key ≡ entry.state.marginfi_group
    pub sent :
        (flag left : ℕ) × Sent rt id a.marginfi_program.key
          (reads a.marginfi_group.key
            ∷ writes a.marginfi_account.key
            ∷ signs a.position.key
            ∷ writes a.bank.key
            ∷ writes a.position_usdc_pool.key
            ∷ reads a.bank_liquidity_vault_authority.key
            ∷ writes a.liquidity_vault.key
            ∷ reads a.token_program.key
            ∷ reads a.bank.key
            ∷ reads a.oracle.key
            ∷ [])
          (mfi_withdraw ++ (to_le_bytes 8 shares ++ (1 ∷ flag ∷ [])))
          c
          repaid
        × Asks entry.state.header.total_shares shares left flag
        × (out.state ≡ insert a.adapter_state.key (with_shares left entry.state) s)
    pub pool_after : token_at rt repaid a.position_usdc_pool.key ≡ some pool
    pub gained : pool.amount ≡ entry.pool.amount + amount_out
    pub state :
        out.state
        ≡ insert a.adapter_state.key
            (with_shares (entry.state.header.total_shares - shares) entry.state)
            s
    pub chain : out.chain ≡ set_u64_return id amount_out repaid
    pub event :
        out.event ≡ some (adapter_withdraw_event entry.state.header.position shares amount_out)

  -- A withdrawal from MarginFi that succeeds was called by the dispatcher with positive shares and has
  -- sent these shares to MarginFi, on the group, the account and the bank of the state. Where they are at
  -- least the booked ones, the data has the flag for everything set and no booked shares are left; where
  -- they are fewer, the flag is not set and the booked shares go down by exactly them. It answers with
  -- what the pool has gained.
  pub withdraw-Debited :
      (a : AdapterWithdraw) (shares : ℕ) (d : List ℕ) (s : Store AdapterState) (c : Chain)
      (out : Outcome)
      → adapter_withdraw rt a shares d s c ≡ ok out
      → (entry : Entry) × (repaid : Chain) × (pool : TokenAccount) × (amount_out : ℕ) × Debited a
          shares s c out entry repaid pool amount_out
  unfolding adapter_withdraw checked_sub validate_withdraw check_state load_account load_token
  withdraw-Debited a shares d s c out h =
      let (entry, v, rest) = >>=-eq-ok (validate_withdraw rt a s c) _ h in
      elim (Result-cases (
        withdraw rt a.marginfi_program a.marginfi_group a.marginfi_account a.position a.bank
          a.position_usdc_pool a.bank_liquidity_vault_authority a.liquidity_vault a.token_program
          a.oracle shares (leb entry.state.header.total_shares shares) c)) [
            | inr (x, e) ↦ absurd (ground arith)
            | inl (repaid, e) ↦ elim (Option-cases (token_at rt repaid a.position_usdc_pool.key)) [
              | inl f ↦ absurd (ground arith)
              | inr (pool, f) ↦
                  let lo : entry.pool.amount ≤ pool.amount = ground arith in
                  (
                    entry,
                    repaid,
                    pool,
                    pool.amount - entry.pool.amount,
                    record {
                      state_at = ground arith;
                      owned = ground arith;
                      account = ground arith;
                      bank = ground arith;
                      pool_before = ground arith;
                      positive = ground arith;
                      caller = ground arith;
                      called = e;
                      group = ground arith;
                      sent = (
                        _,
                        entry.state.header.total_shares - shares,
                        withdraw-Sent rt a.marginfi_program a.marginfi_group a.marginfi_account
                            a.position a.bank a.position_usdc_pool a.bank_liquidity_vault_authority
                            a.liquidity_vault a.token_program a.oracle shares _ c repaid e,
                        asks entry.state.header.total_shares shares,
                        ground arith,
                      );
                      pool_after = f;
                      gained = omega arith;
                      state = ground arith;
                      chain = ground arith;
                      event = ground arith;
                    },
                  )
            ]
          ]
