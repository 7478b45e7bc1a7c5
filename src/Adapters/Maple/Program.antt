-- ===== src/Adapters/Maple/Program.antt =====
-- The program as a whole (programs/maple-syrup/src/lib.rs), and its contract as an adapter.
use solana_yield_adapter_sta.Base.{
  ℕ, ◌+◌, ◌-◌, ◌<◌, ◌≡◌, ◌^◌, refl, ap, ◌∙◌, true, List, some, Result, ok, Store, insert, >>=-eq-ok,
  Result-cases, inl, inr, arith,
}
use solana_yield_adapter_sta.Runtime.{Runtime, Chain, content_of}
use solana_yield_adapter_sta.Runtime.Anchor.{init_account, init_associated_token}
use solana_yield_adapter_sta.Interface.{dispatcher_id, verify_caller_is_dispatcher}
use solana_yield_adapter_sta.Interface.Wire.{answer_read}
use solana_yield_adapter_sta.Adapters.{
  initializing, depositing, withdrawing, valuing, adapter_state_seeds, adapter_deposit_event,
  adapter_withdraw_event, check_state,
}
use solana_yield_adapter_sta.Adapters.Guard.{
  SysvarLaws, init_account-guard, init_associated_token-guard, init_account-fresh,
}
use solana_yield_adapter_sta.Adapters.Standard.{
  Adapter, Effect, Opened, Minted, Burned, Read, call_of,
}
use solana_yield_adapter_sta.Adapters.Maple.{id, state_space, AdapterState, Outcome}
use solana_yield_adapter_sta.Adapters.Maple.Handlers.{
  AdapterInitialize, AdapterDeposit, AdapterWithdraw, AdapterCurrentValue, validate_initialize,
  validate_deposit, validate_withdraw, validate_current_value, adapter_initialize, adapter_deposit,
  adapter_withdraw, adapter_current_value, with_shares,
}
use solana_yield_adapter_sta.Adapters.Maple.Shares.{deposit-Bought, withdraw-Sold}
use solana_yield_adapter_sta.Adapters.Maple.Accounts.{
  sysvar, position, state_account, parsed, Request, parse,
}
use solana_yield_adapter_sta.Adapters.Maple.Orca.{token_amount, whirlpool_value_usdc}
use solana_yield_adapter_sta.Adapters.Maple.Value.{whirlpool_value_usdc-lt}

module _ (rt : Runtime) where
  unfoldable pub serve : Request → Store AdapterState → Chain → Result Outcome
  serve (initializing a d) = adapter_initialize rt a d
  serve (depositing a n d) = adapter_deposit rt a n d
  serve (withdrawing a n d) = adapter_withdraw rt a n d
  serve (valuing a d) = adapter_current_value rt a d

  initialized :
      (a : AdapterInitialize) (d : List ℕ) (s : Store AdapterState) (c : Chain) (out : Outcome)
      → adapter_initialize rt a d s c ≡ ok out
      → (bump : ℕ) × (c' : Chain) × (st : AdapterState) × (validate_initialize rt a s c
          ≡ ok (bump, c'))
        × (verify_caller_is_dispatcher rt a.instructions_sysvar dispatcher_id c' ≡ ok tt)
        × (out.state ≡ insert a.adapter_state.key st s)
        × (st.header.total_shares ≡ 0)
        × (st.header.position ≡ a.position.key)
        × (st.header.adapter_program ≡ id)
  unfolding adapter_initialize
  initialized a d s c out h =
      let ((bump, c'), v, rest) = >>=-eq-ok (validate_initialize rt a s c) _ h in
      let st : AdapterState = record {
        header = record {
          position = a.position.key;
          adapter_program = id;
          created_at = out.chain.clock.unix_timestamp;
          total_shares = 0;
        };
        whirlpool = a.whirlpool.key;
        syrup_token_account = a.syrup_token_account.key;
        bump = bump;
      } in
      (bump, c', st, v, ground arith, ground arith, refl, refl, refl)

  created :
      (a : AdapterInitialize) (s : Store AdapterState) (c c' : Chain) (bump : ℕ)
      → validate_initialize rt a s c ≡ ok (bump, c')
      → (c₁ : Chain) × (init_account rt id
            (adapter_state_seeds id a.position.key)
            state_space
            a.rent_payer
            a.adapter_state
            s
            c
          ≡ ok (bump, c₁))
        × (init_associated_token rt a.syrup_mint.key a.position.key a.rent_payer
              a.syrup_token_account c₁
            ≡ ok c')
        × (a.instructions_sysvar.key ≡ rt.instructions_sysvar_id)
  unfolding validate_initialize
  created a s c c' bump h =
      elim (Result-cases (
        init_account rt id (adapter_state_seeds id a.position.key) state_space a.rent_payer
          a.adapter_state s c)) [
            | inl ((b, c₁), e) ↦ (c₁, ground arith, ground arith, ground arith)
            | inr (x, e) ↦ absurd (ground arith)
          ]

  initialize-guarded :
      (laws : SysvarLaws rt) (a : AdapterInitialize) (d : List ℕ) (s : Store AdapterState)
      (c : Chain) (out : Outcome)
      → adapter_initialize rt a d s c ≡ ok out
      → (a.instructions_sysvar.key ≡ rt.instructions_sysvar_id)
        × (verify_caller_is_dispatcher rt a.instructions_sysvar dispatcher_id c ≡ ok tt)
  initialize-guarded laws a d s c out h =
      let (bump, c', st, v, check, _, _, _, _) = initialized a d s c out h in
      let (c₁, e, f, sysvar) = created a s c c' bump v in
      (
        sysvar,
        init_account-guard rt laws a.instructions_sysvar a.rent_payer a.adapter_state id
            (adapter_state_seeds id a.position.key) state_space s c c₁ bump e
            (init_associated_token-guard rt laws a.instructions_sysvar a.rent_payer
              a.syrup_token_account a.syrup_mint.key a.position.key c₁ c' f check),
      )

  pub guarded :
      (laws : SysvarLaws rt) (q : Request) (s : Store AdapterState) (c : Chain) (out : Outcome)
      → serve q s c ≡ ok out
      → ((sysvar q).key ≡ rt.instructions_sysvar_id)
        × (verify_caller_is_dispatcher rt (sysvar q) dispatcher_id c ≡ ok tt)
  unfolding serve sysvar adapter_deposit adapter_withdraw adapter_current_value validate_deposit
      validate_withdraw validate_current_value
  guarded laws (initializing a d) s c out h = initialize-guarded laws a d s c out h
  guarded laws (depositing a n d) s c out h = (ground arith, ground arith)
  guarded laws (withdrawing a n d) s c out h = (ground arith, ground arith)
  guarded laws (valuing a d) s c out h = (ground arith, ground arith)

  initialize-Opened :
      (a : AdapterInitialize) (d : List ℕ) (s : Store AdapterState) (c : Chain) (out : Outcome)
      → adapter_initialize rt a d s c ≡ ok out
      → Opened (λ (st : AdapterState). st.header) id a.position.key a.adapter_state.key true s out
  initialize-Opened a d s c out h =
      let (bump, c', st, v, check, state, empty, owned, program) = initialized a d s c out h in
      let (c₁, e, f, sysvar) = created a s c c' bump v in
      record {
        after = st;
        fresh =
            init_account-fresh rt a.rent_payer a.adapter_state id
              (adapter_state_seeds id a.position.key) state_space s c c₁ bump e;
        state = state;
        empty = empty;
        owned = owned;
        program = program;
      }

  deposit-Minted :
      (a : AdapterDeposit) (n : ℕ) (d : List ℕ) (s : Store AdapterState) (c : Chain) (out : Outcome)
      → adapter_deposit rt a n d s c ≡ ok out
      → Minted (λ (st : AdapterState). st.header) id a.position.key a.adapter_state.key true n s out
  deposit-Minted a n d s c out h =
      let (entry, next, minted, w) = deposit-Bought rt a n d s c out h in
      let small : minted < 2 ^ 64 = let f = w.fits in omega (arith, f) in
      record {
        before = entry.state;
        after = with_shares (entry.state.header.total_shares + minted) entry.state;
        shares = minted;
        found = w.state_at;
        owned = w.owned;
        state = w.state;
        changed = refl;
        positive = w.positive;
        fits = w.fits;
        answered = answer_read id minted out.chain next small w.chain;
        event = w.event ∙ ap (λ p. some (adapter_deposit_event p n minted)) w.owned;
      }

  withdraw-Burned :
      (a : AdapterWithdraw) (n : ℕ) (d : List ℕ) (s : Store AdapterState) (c : Chain)
      (out : Outcome)
      → adapter_withdraw rt a n d s c ≡ ok out
      → Burned (λ (st : AdapterState). st.header) id a.position.key a.adapter_state.key true n s out
  withdraw-Burned a n d s c out h =
      let (entry, next, amount_out, w) = withdraw-Sold rt a n d s c out h in
      record {
        before = entry.state;
        after = with_shares (entry.state.header.total_shares - n) entry.state;
        amount_out = amount_out;
        chain = next;
        found = w.state_at;
        owned = w.owned;
        state = w.state;
        changed = refl;
        positive = w.positive;
        covered = λ h. w.enough;
        answered = w.chain;
        event = w.event ∙ ap (λ p. some (adapter_withdraw_event p n amount_out)) w.owned;
      }

  value-Read :
      (a : AdapterCurrentValue) (d : List ℕ) (s : Store AdapterState) (c : Chain) (out : Outcome)
      → adapter_current_value rt a d s c ≡ ok out
      → Read (λ (st : AdapterState). st.header) id a.position.key a.adapter_state.key true s out
  unfolding adapter_current_value validate_current_value check_state
  value-Read a d s c out h =
      let (state, v, rest) = >>=-eq-ok (validate_current_value rt a s c) _ h in
      elim (Result-cases (token_amount (content_of c a.syrup_token_account.key))) [
        | inr (x, f) ↦ absurd (ground arith)
        | inl (balance, e0) ↦
            elim (Result-cases (whirlpool_value_usdc (content_of c a.whirlpool.key) balance)) [
              | inr (x, f) ↦ absurd (ground arith)
              | inl (value, e1) ↦
                  let small : value < 2 ^ 64 =
                    whirlpool_value_usdc-lt (content_of c a.whirlpool.key) balance value e1 in
                  record {
                    value = value;
                    slot = c.clock.slot;
                    state = ground arith;
                    answered = answer_read id value out.chain c small (ground arith);
                    event = ground arith;
                  }
            ]
      ]

  pub effect :
      (q : Request) (s : Store AdapterState) (c : Chain) (out : Outcome)
      → serve q s c ≡ ok out
      → Effect
          (λ (st : AdapterState). st.header)
          id
          (position q).key
          (state_account q).key
          true
          (call_of q)
          s
          out
  unfolding serve position state_account call_of
  effect (initializing a d) s c out h = initialize-Opened a d s c out h
  effect (depositing a n d) s c out h = deposit-Minted a n d s c out h
  effect (withdrawing a n d) s c out h = withdraw-Burned a n d s c out h
  effect (valuing a d) s c out h = value-Read a d s c out h

abbrev pub adapter : Adapter
adapter = record {
  State = AdapterState;
  Request = Request;
  id = id;
  strict = true;
  header = λ st. st.header;
  call = call_of;
  sysvar = sysvar;
  position = position;
  state_account = state_account;
  parse = parse;
  serve = serve;
  parsed = parsed;
  guarded = guarded;
  effect = effect;
}
