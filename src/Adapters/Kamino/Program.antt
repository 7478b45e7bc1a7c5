-- ===== src/Adapters/Kamino/Program.antt =====
-- The program as a whole (programs/kamino-usdc/src/lib.rs), and its contract as an adapter.
use solana_yield_adapter_sta.Base.{
  ℕ, ◌+◌, ◌-◌, ◌<◌, min, ◌≡◌, ◌^◌, refl, ap, ◌∙◌, true, List, some, ok, Store, insert, >>=-eq-ok,
  Result-cases, inl, inr, arith,
}
use solana_yield_adapter_sta.Runtime.{Runtime, Chain, content_of}
use solana_yield_adapter_sta.Runtime.Anchor.{init_account, init_associated_token}
use solana_yield_adapter_sta.Interface.{dispatcher_id, verify_caller_is_dispatcher}
use solana_yield_adapter_sta.Interface.Wire.{answer_read}
use solana_yield_adapter_sta.Adapters.{
  initializing, depositing, withdrawing, valuing, adapter_state_seeds, adapter_deposit_event,
  adapter_withdraw_event, check_state,
}
use solana_yield_adapter_sta.Adapters.Guard.{
  SysvarLaws, init_account-guard, init_associated_token-guard, init_account-fresh,
}
use solana_yield_adapter_sta.Adapters.Standard.{
  Adapter, Effect, Opened, Minted, Burned, Read, call_of,
}
use solana_yield_adapter_sta.Adapters.Kamino.{id, state_space, AdapterState, Outcome}
use solana_yield_adapter_sta.Adapters.Kamino.Handlers.{
  AdapterInitialize, AdapterDeposit, AdapterWithdraw, AdapterCurrentValue, validate_initialize,
  validate_deposit, validate_withdraw, validate_current_value, adapter_initialize, adapter_deposit,
  adapter_withdraw, adapter_current_value, with_shares,
}
use solana_yield_adapter_sta.Adapters.Kamino.Shares.{deposit-Booked, withdraw-Redeemed}
use solana_yield_adapter_sta.Adapters.Kamino.Callers.{serve}
use solana_yield_adapter_sta.Adapters.Kamino.Accounts.{
  sysvar, position, state_account, parsed, Request, parse,
}
use solana_yield_adapter_sta.Adapters.Kamino.Klend.{
  refresh_reserve, collateral_value_usdc, reserve_last_update_slot,
}
use solana_yield_adapter_sta.Adapters.Kamino.Value.{collateral_value_usdc-lt}

module _ (rt : Runtime) where
  initialized :
      (a : AdapterInitialize) (d : List ℕ) (s : Store AdapterState) (c : Chain) (out : Outcome)
      → adapter_initialize rt a d s c ≡ ok out
      → (bump : ℕ) × (c' : Chain) × (st : AdapterState) × (validate_initialize rt a s c
          ≡ ok (bump, c'))
        × (verify_caller_is_dispatcher rt a.instructions_sysvar dispatcher_id c' ≡ ok tt)
        × (out.state ≡ insert a.adapter_state.key st s)
        × (st.header.total_shares ≡ 0)
        × (st.header.position ≡ a.position.key)
        × (st.header.adapter_program ≡ id)
  unfolding adapter_initialize
  initialized a d s c out h =
      let ((bump, c'), v, rest) = >>=-eq-ok (validate_initialize rt a s c) _ h in
      let st : AdapterState = record {
        header = record {
          position = a.position.key;
          adapter_program = id;
          created_at = c.clock.unix_timestamp;
          total_shares = 0;
        };
        kamino_reserve = a.reserve.key;
        collateral_vault = a.collateral_vault.key;
        bump = bump;
      } in
      (bump, c', st, v, ground arith, ground arith, refl, refl, refl)

  created :
      (a : AdapterInitialize) (s : Store AdapterState) (c c' : Chain) (bump : ℕ)
      → validate_initialize rt a s c ≡ ok (bump, c')
      → (c₁ : Chain) × (init_account rt id
            (adapter_state_seeds id a.position.key)
            state_space
            a.rent_payer
            a.adapter_state
            s
            c
          ≡ ok (bump, c₁))
        × (init_associated_token rt a.reserve_collateral_mint.key a.position.key a.rent_payer
              a.collateral_vault c₁
            ≡ ok c')
        × (a.instructions_sysvar.key ≡ rt.instructions_sysvar_id)
  unfolding validate_initialize
  created a s c c' bump h =
      elim (Result-cases (
        init_account rt id (adapter_state_seeds id a.position.key) state_space a.rent_payer
          a.adapter_state s c)) [
            | inl ((b, c₁), e) ↦ (c₁, ground arith, ground arith, ground arith)
            | inr (x, e) ↦ absurd (ground arith)
          ]

  initialize-guarded :
      (laws : SysvarLaws rt) (a : AdapterInitialize) (d : List ℕ) (s : Store AdapterState)
      (c : Chain) (out : Outcome)
      → adapter_initialize rt a d s c ≡ ok out
      → (a.instructions_sysvar.key ≡ rt.instructions_sysvar_id)
        × (verify_caller_is_dispatcher rt a.instructions_sysvar dispatcher_id c ≡ ok tt)
  initialize-guarded laws a d s c out h =
      let (bump, c', st, v, check, _, _, _, _) = initialized a d s c out h in
      let (c₁, e, f, sysvar) = created a s c c' bump v in
      (
        sysvar,
        init_account-guard rt laws a.instructions_sysvar a.rent_payer a.adapter_state id
            (adapter_state_seeds id a.position.key) state_space s c c₁ bump e
            (init_associated_token-guard rt laws a.instructions_sysvar a.rent_payer
              a.collateral_vault a.reserve_collateral_mint.key a.position.key c₁ c' f check),
      )

  pub guarded :
      (laws : SysvarLaws rt) (q : Request) (s : Store AdapterState) (c : Chain) (out : Outcome)
      → serve rt q s c ≡ ok out
      → ((sysvar q).key ≡ rt.instructions_sysvar_id)
        × (verify_caller_is_dispatcher rt (sysvar q) dispatcher_id c ≡ ok tt)
  unfolding serve sysvar adapter_deposit adapter_withdraw adapter_current_value validate_deposit
      validate_withdraw validate_current_value
  guarded laws (initializing a d) s c out h = initialize-guarded laws a d s c out h
  guarded laws (depositing a n d) s c out h = (ground arith, ground arith)
  guarded laws (withdrawing a n d) s c out h = (ground arith, ground arith)
  guarded laws (valuing a d) s c out h = (ground arith, ground arith)

  initialize-Opened :
      (a : AdapterInitialize) (d : List ℕ) (s : Store AdapterState) (c : Chain) (out : Outcome)
      → adapter_initialize rt a d s c ≡ ok out
      → Opened (λ (st : AdapterState). st.header) id a.position.key a.adapter_state.key true s out
  initialize-Opened a d s c out h =
      let (bump, c', st, v, check, state, empty, owned, program) = initialized a d s c out h in
      let (c₁, e, f, sysvar) = created a s c c' bump v in
      record {
        after = st;
        fresh =
            init_account-fresh rt a.rent_payer a.adapter_state id
              (adapter_state_seeds id a.position.key) state_space s c c₁ bump e;
        state = state;
        empty = empty;
        owned = owned;
        program = program;
      }

  deposit-Minted :
      (a : AdapterDeposit) (n : ℕ) (d : List ℕ) (s : Store AdapterState) (c : Chain) (out : Outcome)
      → adapter_deposit rt a n d s c ≡ ok out
      → Minted (λ (st : AdapterState). st.header) id a.position.key a.adapter_state.key true n s out
  deposit-Minted a n d s c out h =
      let (entry, minted, w) = deposit-Booked rt a n d s c out h in
      record {
        before = entry.state;
        after = with_shares (entry.state.header.total_shares + minted) entry.state;
        shares = minted;
        found = w.loaded.state_at;
        owned = w.loaded.owned;
        state = w.state;
        changed = refl;
        positive = w.positive;
        fits = w.fits;
        answered = w.answered;
        event = w.event ∙ ap (λ p. some (adapter_deposit_event p n minted)) w.loaded.owned;
      }

  withdraw-Burned :
      (a : AdapterWithdraw) (n : ℕ) (d : List ℕ) (s : Store AdapterState) (c : Chain)
      (out : Outcome)
      → adapter_withdraw rt a n d s c ≡ ok out
      → Burned (λ (st : AdapterState). st.header) id a.position.key a.adapter_state.key true n s out
  withdraw-Burned a n d s c out h =
      let (entry, left, amount_out, w) = withdraw-Redeemed rt a n d s c out h in
      let rest : left ≡ entry.state.header.total_shares - n =
        let b = w.burned in omega (arith, b) in
      record {
        before = entry.state;
        after = with_shares left entry.state;
        amount_out = amount_out;
        chain = w.gained.1;
        found = w.loaded.state_at;
        owned = w.loaded.owned;
        state = w.state;
        changed = ap (λ m. record (entry.state.header) { total_shares = m }) rest;
        positive = w.positive;
        covered = λ h. let b = w.burned in omega (arith, b);
        answered = w.gained.7;
        event = w.event ∙ ap (λ p. some (adapter_withdraw_event p n amount_out)) w.loaded.owned;
      }

  value-Read :
      (a : AdapterCurrentValue) (d : List ℕ) (s : Store AdapterState) (c : Chain) (out : Outcome)
      → adapter_current_value rt a d s c ≡ ok out
      → Read (λ (st : AdapterState). st.header) id a.position.key a.adapter_state.key true s out
  unfolding adapter_current_value validate_current_value check_state
  value-Read a d s c out h =
      let (state, v, rest) = >>=-eq-ok (validate_current_value rt a s c) _ h in
      elim (Result-cases
        (refresh_reserve rt a.klend_program a.reserve a.lending_market a.scope_prices c)) [
          | inr (x, f) ↦ absurd (ground arith)
          | inl (c₁, e₀) ↦
              let reserve_data = content_of c₁ a.reserve.key in
              elim (Result-cases (collateral_value_usdc reserve_data state.header.total_shares)) [
                | inr (x, f) ↦ absurd (ground arith)
                | inl (value, e₁) ↦ elim (Result-cases (reserve_last_update_slot reserve_data)) [
                  | inr (x, f) ↦ absurd (ground arith)
                  | inl (slot, e₂) ↦
                      let small : value < 2 ^ 64 =
                        collateral_value_usdc-lt reserve_data state.header.total_shares value e₁ in
                      record {
                        value = value;
                        slot = min c₁.clock.slot slot;
                        state = ground arith;
                        answered = answer_read id value out.chain c₁ small (ground arith);
                        event = ground arith;
                      }
                ]
              ]
        ]

  pub effect :
      (q : Request) (s : Store AdapterState) (c : Chain) (out : Outcome)
      → serve rt q s c ≡ ok out
      → Effect
          (λ (st : AdapterState). st.header)
          id
          (position q).key
          (state_account q).key
          true
          (call_of q)
          s
          out
  unfolding serve position state_account call_of
  effect (initializing a d) s c out h = initialize-Opened a d s c out h
  effect (depositing a n d) s c out h = deposit-Minted a n d s c out h
  effect (withdrawing a n d) s c out h = withdraw-Burned a n d s c out h
  effect (valuing a d) s c out h = value-Read a d s c out h

abbrev pub adapter : Adapter
adapter = record {
  State = AdapterState;
  Request = Request;
  id = id;
  strict = true;
  header = λ st. st.header;
  call = call_of;
  sysvar = sysvar;
  position = position;
  state_account = state_account;
  parse = parse;
  serve = serve;
  parsed = parsed;
  guarded = guarded;
  effect = effect;
}
