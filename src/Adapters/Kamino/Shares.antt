-- ===== src/Adapters/Kamino/Shares.antt =====
-- What deposit and withdraw do to the share count of their state.
use solana_yield_adapter_sta.Base.{
  ℕ, Pubkey, sym, ◌+◌, ◌-◌, ◌≤◌, ◌<◌, ◌≡◌, ◌^◌, List, some, ok, Store, lookup, insert, checked_add,
  checked_sub, Result-cases, Option-cases, inl, inr, >>=-eq-ok, arith, lookup-insert_self, ◌∙◌, ap,
}
use solana_yield_adapter_sta.Runtime.{Runtime, Chain, TokenAccount, token_at}
use solana_yield_adapter_sta.Runtime.Anchor.{load_token}
use solana_yield_adapter_sta.Interface.{
  dispatcher_id, set_u64_return, get_u64_return, verify_caller_is_dispatcher,
}
use solana_yield_adapter_sta.Interface.Wire.{answer_read}
use solana_yield_adapter_sta.Adapters.{check_state, adapter_deposit_event, adapter_withdraw_event}
use solana_yield_adapter_sta.Adapters.Kamino.{id, AdapterState, Outcome}
use solana_yield_adapter_sta.Adapters.Kamino.Klend.{
  refresh_reserve, deposit_reserve_liquidity, redeem_reserve_collateral,
}
use solana_yield_adapter_sta.Adapters.Kamino.Handlers.{
  AdapterDeposit, AdapterWithdraw, Entry, with_shares, klend_accounts, validate_deposit,
  validate_withdraw, adapter_deposit, adapter_withdraw,
}

some_inj {ℓ} : {A : Type ℓ} {x y : A} → some x ≡ some y → x ≡ y
some_inj h = cc

-- Two updates of the same state, the second of which takes off what the first has added.
restored :
    (k : Pubkey) (s : Store AdapterState) (st st' : AdapterState) (left n : ℕ)
    → lookup k s ≡ some st
    → lookup k (insert k (with_shares (st.header.total_shares + n) st) s) ≡ some st'
    → st'.header.total_shares ≡ left + n
    → lookup k
        (insert k (with_shares left st') (insert k (with_shares (st.header.total_shares + n) st) s))
      ≡ lookup k s
restored k s st st' left n at at' e =
    let t = insert k (with_shares (st.header.total_shares + n) st) s in
    let w : with_shares (st.header.total_shares + n) st ≡ st' =
      some_inj (sym (lookup-insert_self k (with_shares (st.header.total_shares + n) st) s) ∙ at') in
    let l : left ≡ st.header.total_shares =
      let q : st.header.total_shares + n ≡ st'.header.total_shares =
        ap (λ x. x.header.total_shares) w in
      omega arith in
    lookup-insert_self k (with_shares left st') t
    ∙ ap some (ap (with_shares left) (sym w) ∙ ap (λ m. with_shares m st) l)
    ∙ sym at

restored_at :
    (k j : Pubkey) (s t u : Store AdapterState) (st st' : AdapterState) (left n : ℕ)
    → lookup k s ≡ some st
    → t ≡ insert k (with_shares (st.header.total_shares + n) st) s
    → j ≡ k
    → lookup j t ≡ some st'
    → st'.header.total_shares ≡ left + n
    → u ≡ insert j (with_shares left st') t
    → lookup k u ≡ lookup k s
restored_at k j s t u st st' left n at et ej at' e eu =
    let x : lookup k (insert k (with_shares (st.header.total_shares + n) st) s) ≡ some st' = cc in
    let y = restored k s st st' left n at x e in rw (eu, ej, et) y

module _ (rt : Runtime) where
  -- What the accounts of a deposit or a withdrawal hold on entry.
  pub record Loaded (a : AdapterDeposit) (s : Store AdapterState) (c : Chain) (entry : Entry)
      : Type 0 where
    pub state_at : lookup a.adapter_state.key s ≡ some entry.state
    pub pool_at : token_at rt c a.position_usdc_pool.key ≡ some entry.pool
    pub vault_at : token_at rt c a.collateral_vault.key ≡ some entry.vault
    pub reserve : a.reserve.key ≡ entry.state.kamino_reserve
    pub vault : a.collateral_vault.key ≡ entry.state.collateral_vault
    pub owned : entry.state.header.position ≡ a.position.key

  validate_deposit-Loaded :
      (a : AdapterDeposit) (s : Store AdapterState) (c : Chain) (entry : Entry)
      → validate_deposit rt a s c ≡ ok entry
      → Loaded a s c entry
  unfolding validate_deposit check_state
  validate_deposit-Loaded a s c entry h = record {
    state_at = ground arith;
    pool_at = ground arith;
    vault_at = ground arith;
    reserve = ground arith;
    vault = ground arith;
    owned = ground arith;
  }

  -- A deposit in its stages: the reserve is refreshed, the liquidity is deposited, and what the
  -- collateral account has gained is booked.
  pub record Booked (a : AdapterDeposit) (amount : ℕ) (s : Store AdapterState) (c : Chain)
      (out : Outcome) (entry : Entry) (minted : ℕ) : Type 0 where
    pub loaded : Loaded a s c entry
    pub positive : 0 < amount
    pub caller : verify_caller_is_dispatcher rt a.instructions_sysvar dispatcher_id c ≡ ok tt
    pub gained :
        (c₁ : Chain) × (c₂ : Chain) × (vault : TokenAccount) × (refresh_reserve rt a.klend_program
            a.reserve a.lending_market a.scope_prices c
          ≡ ok c₁)
        × (deposit_reserve_liquidity rt (klend_accounts a) amount c₁ ≡ ok c₂)
        × (token_at rt c₂ a.collateral_vault.key ≡ some vault)
        × (vault.amount ≡ entry.vault.amount + minted)
    pub fits : entry.state.header.total_shares + minted < 2 ^ 64
    pub state :
        out.state
        ≡ insert a.adapter_state.key
            (with_shares (entry.state.header.total_shares + minted) entry.state)
            s
    pub answered : get_u64_return id out.chain ≡ some minted
    pub event : out.event ≡ some (adapter_deposit_event entry.state.header.position amount minted)

  -- A deposit into Kamino that succeeds books, as new shares, exactly what the collateral account has
  -- gained over the lending program's deposit of the amount: the state changes in that count alone,
  -- which stays below 2^64, and the shares are what the caller reads as the answer. The amount was
  -- positive and the caller was the dispatcher.
  pub deposit-Booked :
      (a : AdapterDeposit) (amount : ℕ) (d : List ℕ) (s : Store AdapterState) (c : Chain)
      (out : Outcome)
      → adapter_deposit rt a amount d s c ≡ ok out
      → (entry : Entry) × (minted : ℕ) × Booked a amount s c out entry minted
  unfolding adapter_deposit load_token checked_add checked_sub
  deposit-Booked a amount d s c out h =
      let (entry, v, rest) = >>=-eq-ok (validate_deposit rt a s c) _ h in
      elim (Result-cases
        (refresh_reserve rt a.klend_program a.reserve a.lending_market a.scope_prices c)) [
          | inr (x, e) ↦ absurd (ground arith)
          | inl (c₁, e₁) ↦
              elim (Result-cases (deposit_reserve_liquidity rt (klend_accounts a) amount c₁)) [
                | inr (x, e) ↦ absurd (ground arith)
                | inl (c₂, e₂) ↦ elim (Option-cases (token_at rt c₂ a.collateral_vault.key)) [
                  | inl e ↦ absurd (ground arith)
                  | inr (vault, e₃) ↦
                      let minted = vault.amount - entry.vault.amount in
                      let lo : entry.vault.amount ≤ vault.amount = ground arith in
                      let hi : entry.state.header.total_shares + minted < 2 ^ 64 = ground arith in
                      let chain : out.chain ≡ set_u64_return id minted c₂ = ground arith in
                      (
                        entry,
                        minted,
                        record {
                          loaded = validate_deposit-Loaded a s c entry v;
                          positive = ground arith;
                          caller = ground arith;
                          gained = (c₁, c₂, vault, e₁, e₂, e₃, omega arith);
                          fits = hi;
                          state = ground arith;
                          answered = answer_read id minted out.chain c₂ (omega arith) chain;
                          event = ground arith;
                        },
                      )
                ]
              ]
        ]

  -- A withdrawal in its stages: the shares do not exceed the booked ones, the collateral is redeemed,
  -- and the caller is answered with what the pool has gained.
  pub record Redeemed (a : AdapterWithdraw) (shares : ℕ) (s : Store AdapterState) (c : Chain)
      (out : Outcome) (entry : Entry) (left amount_out : ℕ) : Type 0 where
    pub loaded : Loaded a s c entry
    pub positive : 0 < shares
    pub caller : verify_caller_is_dispatcher rt a.instructions_sysvar dispatcher_id c ≡ ok tt
    pub gained :
        (c₁ : Chain) × (c₂ : Chain) × (pool : TokenAccount) × (refresh_reserve rt a.klend_program
            a.reserve a.lending_market a.scope_prices c
          ≡ ok c₁)
        × (redeem_reserve_collateral rt (klend_accounts a) shares c₁ ≡ ok c₂)
        × (token_at rt c₂ a.position_usdc_pool.key ≡ some pool)
        × (pool.amount ≡ entry.pool.amount + amount_out)
        × (out.chain ≡ set_u64_return id amount_out c₂)
    pub burned : entry.state.header.total_shares ≡ left + shares
    pub state : out.state ≡ insert a.adapter_state.key (with_shares left entry.state) s
    pub event :
        out.event ≡ some (adapter_withdraw_event entry.state.header.position shares amount_out)

  -- A withdrawal from Kamino that succeeds takes exactly the requested shares, a positive number, off
  -- the booked ones, which they do not exceed, changes nothing else of the state, and answers with what
  -- the pool has gained over the lending program's redemption of these shares. The caller was the
  -- dispatcher.
  pub withdraw-Redeemed :
      (a : AdapterWithdraw) (shares : ℕ) (d : List ℕ) (s : Store AdapterState) (c : Chain)
      (out : Outcome)
      → adapter_withdraw rt a shares d s c ≡ ok out
      → (entry : Entry) × (left : ℕ) × (amount_out : ℕ) × Redeemed a shares s c out entry left
          amount_out
  unfolding adapter_withdraw load_token checked_add checked_sub validate_withdraw
  withdraw-Redeemed a shares d s c out h =
      let (entry, v, rest) = >>=-eq-ok (validate_deposit rt a s c) _ h in
      elim (Result-cases
        (refresh_reserve rt a.klend_program a.reserve a.lending_market a.scope_prices c)) [
          | inr (x, e) ↦ absurd (ground arith)
          | inl (c₁, e₁) ↦
              elim (Result-cases (redeem_reserve_collateral rt (klend_accounts a) shares c₁)) [
                | inr (x, e) ↦ absurd (ground arith)
                | inl (c₂, e₂) ↦ elim (Option-cases (token_at rt c₂ a.position_usdc_pool.key)) [
                  | inl e ↦ absurd (ground arith)
                  | inr (pool, e₃) ↦
                      let amount_out = pool.amount - entry.pool.amount in
                      let lo : entry.pool.amount ≤ pool.amount = ground arith in
                      let enough : shares ≤ entry.state.header.total_shares = ground arith in
                      (
                        entry,
                        entry.state.header.total_shares - shares,
                        amount_out,
                        record {
                          loaded = validate_deposit-Loaded a s c entry v;
                          positive = ground arith;
                          caller = ground arith;
                          gained = (c₁, c₂, pool, e₁, e₂, e₃, omega arith, ground arith);
                          burned = omega arith;
                          state = ground arith;
                          event = ground arith;
                        },
                      )
                ]
              ]
        ]

  -- A withdrawal of the shares that a deposit has just been answered with restores the adapter state
  -- of the position to what it was before the deposit, whatever the chain did in between.
  pub adapter_withdraw-adapter_deposit :
      (a : AdapterDeposit) (b : AdapterWithdraw) (amount shares : ℕ) (d e : List ℕ)
      (s : Store AdapterState) (c c' : Chain) (out out' : Outcome)
      → adapter_deposit rt a amount d s c ≡ ok out
      → get_u64_return id out.chain ≡ some shares
      → b.adapter_state.key ≡ a.adapter_state.key
      → adapter_withdraw rt b shares e out.state c' ≡ ok out'
      → (lookup a.adapter_state.key out'.state ≡ lookup a.adapter_state.key s) × (0 < shares)
  adapter_withdraw-adapter_deposit a b amount shares d e s c c' out out' h r same h' =
      let (entry, minted, dep) = deposit-Booked a amount d s c out h in
      let (entry', left, amount_out, red) = withdraw-Redeemed b shares e out.state c' out' h' in
      let n : minted ≡ shares = some_inj (sym dep.answered ∙ r) in
      (
        restored_at a.adapter_state.key b.adapter_state.key s out.state out'.state entry.state
            entry'.state left shares dep.loaded.state_at
            (dep.state
              ∙ ap
                  (λ m.
                    insert a.adapter_state.key
                      (with_shares (entry.state.header.total_shares + m) entry.state) s)
                  n)
            same red.loaded.state_at red.burned red.state,
        red.positive,
      )
