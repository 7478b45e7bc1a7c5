-- ===== src/Integration/Moving.antt =====
-- The instructions of a position, followed through the CPI: what each of them does to the state that
-- the adapter keeps for the position.
use solana_yield_adapter_sta.Base.{
  leb, Bool, true, false, Bool-cases, ◌⊎◌, inl, inr, ◌+◌, ◌-◌, ◌≤◌, arith, ℕ, ltb, ◌<◌, ◌≡◌, refl,
  sym, ap, ◌∙◌, ◌^◌, if◌then◌else◌, some, List, [], Store, ok,
}
use solana_yield_adapter_sta.Runtime.{Runtime, Chain, Seed}
use solana_yield_adapter_sta.Interface.{set_u64_return, get_u64_return}
use solana_yield_adapter_sta.Interface.Wire.{Call}
use solana_yield_adapter_sta.Dispatcher.{State, deposited, withdrawn, value_read, position_opened}
use solana_yield_adapter_sta.Dispatcher as Dispatcher
use solana_yield_adapter_sta.Dispatcher.Routing.Laws.{
  route_withdraw-Invoked, route_current_value-Invoked, route_initialize-Invoked,
}
use solana_yield_adapter_sta.Dispatcher.Funds.{
  OpenPosition, Deposit, Withdraw, CurrentValue, signer_seeds, open_position, deposit, withdraw,
  current_value,
}
use solana_yield_adapter_sta.Dispatcher.Funds.Deposits.{deposit-Invoked}
use solana_yield_adapter_sta.Dispatcher.Funds.Withdrawals.{withdraw-Withdrawn}
use solana_yield_adapter_sta.Dispatcher.Funds.Readings.{current_value-ValueRead}
use solana_yield_adapter_sta.Dispatcher.Funds.Openings.{opened_position, open_position-Opened}
use solana_yield_adapter_sta.Adapters as Adapters
use solana_yield_adapter_sta.Adapters.Standard.{
  account_at, state_index, Adapter, Opened, Minted, Burned, Read,
}
use solana_yield_adapter_sta.Integration.{info_of, CpiLaws, Done, routed-Done}

-- How the shares asked for come off a count. A program that is strict takes off exactly them; another
-- does so where it counts that many, and is left with none where it counts fewer.
abbrev pub TakenOff : Bool → (shares before after : ℕ) → Type 0
TakenOff true shares before after = before ≡ after + shares
TakenOff false shares before after =
    ((shares ≤ before) × (before ≡ after + shares)) ⊎ ((before < shares) × (after ≡ 0))

take_off :
    (strict : Bool) (shares before after : ℕ)
    → (strict ≡ true → shares ≤ before)
    → after ≡ before - shares
    → TakenOff strict shares before after
take_off true shares before after covered e = let c = covered refl in omega arith
take_off false shares before after covered e = elim (Bool-cases (leb shares before)) [
  | inl enough ↦ inl (ground arith, ground arith)
  | inr short ↦ inr (ground arith, ground arith)
]

module _ (A : Adapter) (rt rt' : Runtime) (stored : Chain → Store A.State) where
  -- Where a CPI to the adapter runs the entrypoint that its data names, and the deposit's adapter program
  -- is the adapter: a deposit of a u64 amount that succeeds has taken the amount from the owner's
  -- account into the pool, and has then added the shares in its event to the count that the adapter
  -- keeps at the state account of the deposit; nothing else in the header there has changed.
  pub deposit-Minted :
      (laws : CpiLaws A rt rt' stored) (a : Deposit) (amount : ℕ) (s : State) (c : Chain)
      (out : Dispatcher.Outcome)
      → a.adapter_program.key ≡ A.id
      → amount < 2 ^ 64
      → deposit rt a amount s c ≡ ok out
      → (paid : Chain) × (done : Adapters.Outcome A.State) × (mint : Minted A.header A.id
          a.position.key a.adapter_state.key A.strict amount
          (stored paid)
          done)
        × (rt.transfer Dispatcher.id a.owner_usdc_ata.key a.position_usdc_pool.key a.owner.key
              amount [] c
            ≡ some paid)
        × (stored out.chain ≡ done.state)
        × (out.event ≡ some (deposited a.position.key amount mint.shares))
  unfolding account_at state_index info_of
  deposit-Minted laws a amount s c out here fits h =
      let (p, shares, paid, at, pay, (ix, routes, made), read, event) =
        deposit-Invoked rt a amount s c out fits h in
      let d : Done A rt rt' stored (Call.deposit amount []) a.position.key a.adapter_state.key paid
          out.chain =
        routed-Done A rt rt' stored laws _ a.adapter_program _ a.remaining_accounts _ ix _ paid
          out.chain _ _ here routes made refl refl in
      let mint : Minted A.header A.id a.position.key a.adapter_state.key A.strict amount
          (stored paid) d.out =
        d.effect in
      let minted = mint.answered in
      let answer = d.answer in
      let same : shares ≡ mint.shares = cc in
      (
        paid,
        d.out,
        mint,
        pay,
        d.written,
        event ∙ ap (λ n. some (deposited a.position.key amount n)) same,
      )

  -- Where a CPI to the adapter runs the entrypoint that its data names, and the withdrawal's adapter
  -- program is the adapter: a withdrawal of a u64 of shares that succeeds has first had the adapter
  -- lower the count that it keeps at the state account of the withdrawal. An adapter that is strict
  -- counted at least these shares and has taken off exactly them; one that is not has taken off exactly
  -- them where it counted that many, and counts none where it counted fewer. The amount in the event is
  -- what the adapter answered, and exactly that was then moved from the pool to the owner's account, or
  -- nothing where it is zero.
  pub withdraw-Burned :
      (laws : CpiLaws A rt rt' stored) (a : Withdraw) (shares : ℕ) (s : State) (c : Chain)
      (out : Dispatcher.Outcome)
      → a.adapter_program.key ≡ A.id
      → shares < 2 ^ 64
      → withdraw rt a shares s c ≡ ok out
      → (redeemed : Chain) × (amount_out : ℕ) × (signers : List (List Seed))
        × (done : Adapters.Outcome A.State) × (burn : Burned A.header A.id a.position.key
            a.adapter_state.key A.strict shares
            (stored c)
            done)
        × TakenOff A.strict shares
            (A.header burn.before).total_shares
            (A.header burn.after).total_shares
        × (stored redeemed ≡ done.state)
        × (get_u64_return A.id done.chain ≡ some amount_out)
        × ((if ltb 0 amount_out
              then rt.transfer Dispatcher.id a.position_usdc_pool.key a.owner_usdc_ata.key
                  a.position.key amount_out signers redeemed
              else some redeemed)
            ≡ some out.chain)
        × (out.event ≡ some (withdrawn a.position.key shares amount_out))
  unfolding account_at state_index info_of
  withdraw-Burned laws a shares s c out here fits h =
      let (entry, p, amount_out, redeemed, w) = withdraw-Withdrawn rt a shares s c out h in
      let ((ix, routes, made), read) =
        route_withdraw-Invoked rt a.adapter_program a.instructions_sysvar a.position
          a.position_usdc_pool a.adapter_state a.remaining_accounts shares (signer_seeds p) c
          redeemed fits w.routed in
      let d : Done A rt rt' stored (Call.withdraw shares []) a.position.key a.adapter_state.key c
          redeemed =
        routed-Done A rt rt' stored laws _ a.adapter_program _ a.remaining_accounts _ ix _ c
          redeemed _ _ here routes made refl refl in
      let burn : Burned A.header A.id a.position.key a.adapter_state.key A.strict shares (stored c)
          d.out =
        d.effect in
      (
        redeemed,
        amount_out,
        signer_seeds p,
        d.out,
        burn,
        take_off A.strict shares _ _ burn.covered (ap (λ h. h.total_shares) burn.changed),
        d.written,
        sym d.answer ∙ sym (ap (λ k. get_u64_return k redeemed) here) ∙ read,
        w.forwarded,
        w.event,
      )

  -- Under the same conditions, a reading that succeeds leaves every account of the adapter as it was, and
  -- the value in its event, which is also the dispatcher's own answer, is what the adapter answered.
  pub current_value-Read :
      (laws : CpiLaws A rt rt' stored) (a : CurrentValue) (s : State) (c : Chain)
      (out : Dispatcher.Outcome)
      → a.adapter_program.key ≡ A.id
      → current_value rt a s c ≡ ok out
      → (priced : Chain) × (done : Adapters.Outcome A.State) × (value : Read A.header A.id
          a.position.key a.adapter_state.key A.strict
          (stored c)
          done)
        × (stored priced ≡ stored c)
        × (out.chain ≡ set_u64_return Dispatcher.id value.value priced)
        × (out.event ≡ some (value_read a.position.key value.value))
  unfolding account_at state_index info_of
  current_value-Read laws a s c out here h =
      let (entry, p, v, priced, r) = current_value-ValueRead rt a s c out h in
      let ((ix, routes, made), read) =
        route_current_value-Invoked rt a.adapter_program a.instructions_sysvar a.position
          a.adapter_state a.remaining_accounts c priced r.routed in
      let d : Done A rt rt' stored (Call.current_value []) a.position.key a.adapter_state.key c
          priced =
        routed-Done A rt rt' stored laws _ a.adapter_program _ a.remaining_accounts _ ix _ c priced
          _ _ here routes made refl refl in
      let value : Read A.header A.id a.position.key a.adapter_state.key A.strict (stored c) d.out =
        d.effect in
      let answer = d.answer in
      let answered = value.answered in
      let same : v ≡ value.value = cc in
      (
        priced,
        d.out,
        value,
        d.written ∙ value.state,
        r.chain ∙ ap (λ n. set_u64_return Dispatcher.id n priced) same,
        r.event ∙ ap (λ n. some (value_read a.position.key n)) same,
      )

  -- Under the same conditions, a position that is opened has, at the state account that its opening
  -- passed, an account of the adapter that was not there before: it names the position and the adapter,
  -- and counts no shares.
  pub open_position-Empty :
      (laws : CpiLaws A rt rt' stored) (a : OpenPosition) (s : State) (c : Chain)
      (out : Dispatcher.Outcome)
      → a.adapter_program.key ≡ A.id
      → open_position rt a s c ≡ ok out
      → (created : Chain) × (done : Adapters.Outcome A.State) × Opened A.header A.id a.position.key
          a.adapter_state.key A.strict
          (stored created)
          done
        × (stored out.chain ≡ done.state)
        × (out.event ≡ some (position_opened a.owner.key a.adapter_program.key a.position.key))
  unfolding account_at state_index info_of
  open_position-Empty laws a s c out here h =
      let (entry, bump, created, o) = open_position-Opened rt a s c out h in
      let (ix, routes, made) =
        route_initialize-Invoked rt a.adapter_program a.instructions_sysvar a.position
          a.adapter_state a.owner a.system_program a.remaining_accounts
          (signer_seeds (opened_position a c bump)) created out.chain o.routed in
      let d : Done A rt rt' stored (Call.initialize []) a.position.key a.adapter_state.key created
          out.chain =
        routed-Done A rt rt' stored laws _ a.adapter_program _ a.remaining_accounts _ ix _ created
          out.chain _ _ here routes made refl refl in
      (created, d.out, d.effect, d.written, o.event)
