-- ===== src/Dispatcher/Funds/Deposits.antt =====
-- What a successful `deposit` has done, and when it succeeds.
use solana_yield_adapter_sta.Base.{
  ℕ, ◌<◌, ◌≡◌, some, [], ok, Option-cases, Result-cases, inl, inr, >>=-eq-ok, arith,
}
use solana_yield_adapter_sta.Base.{◌↔◌, ◌^◌, lookup, ◌∷◌}
use solana_yield_adapter_sta.Interface.{get_u64_return}
use solana_yield_adapter_sta.Interface.Wire.{Call}
use solana_yield_adapter_sta.Dispatcher.Routing.Laws.{Invoked, fund_prefix, route_deposit-Invoked}
use solana_yield_adapter_sta.Runtime.{Runtime, Chain}
use solana_yield_adapter_sta.Dispatcher.{id, AdapterEntry, Position, State, Outcome, deposited}
use solana_yield_adapter_sta.Dispatcher.Routing.{route_deposit}
use solana_yield_adapter_sta.Dispatcher.Funds.{
  Deposit, signer_seeds, check_version, validate_deposit, deposit,
}
use solana_yield_adapter_sta.Dispatcher.Funds.Gate.{
  DepositGate, validate_deposit-DepositGate, DepositGate-validate_deposit,
}

module _ (rt : Runtime) where
  -- A deposit in its stages: the accounts pass, the owner pays the pool, the adapter is called on the
  -- chain that the payment left, and the dispatcher's own accounts stay as they were.
  pub record Deposited (a : Deposit) (amount : ℕ) (s : State) (c : Chain) (out : Outcome)
      (entry : AdapterEntry) (p : Position) (shares : ℕ) (paid : Chain) : Type 0 where
    pub gate : DepositGate rt a s c entry p
    pub version : entry.interface_version ≡ 1
    pub positive : 0 < amount
    pub payment :
        rt.transfer id a.owner_usdc_ata.key a.position_usdc_pool.key a.owner.key amount [] c
        ≡ some paid
    pub routed :
        route_deposit rt a.adapter_program a.instructions_sysvar a.position a.position_usdc_pool
          a.adapter_state a.remaining_accounts amount
          (signer_seeds p)
          paid
        ≡ ok (shares, out.chain)
    pub state : out.state ≡ s
    pub event : out.event ≡ some (deposited a.position.key amount shares)

  deposit_payment :
      (a : Deposit) (amount : ℕ) (s : State) (c : Chain) (out : Outcome) (entry : AdapterEntry)
      (p : Position)
      → validate_deposit rt a s c ≡ ok (entry, p)
      → deposit rt a amount s c ≡ ok out
      → (paid : Chain) × (rt.transfer id a.owner_usdc_ata.key a.position_usdc_pool.key a.owner.key
            amount [] c
          ≡ some paid)
  unfolding deposit check_version
  deposit_payment a amount s c out entry p v h =
      elim (Option-cases
        (rt.transfer id a.owner_usdc_ata.key a.position_usdc_pool.key a.owner.key amount [] c)) [
          | inl failed ↦ absurd (ground arith)
          | inr found ↦ found
        ]

  deposit_shares :
      (a : Deposit) (amount : ℕ) (s : State) (c : Chain) (out : Outcome) (entry : AdapterEntry)
      (p : Position) (paid : Chain)
      → validate_deposit rt a s c ≡ ok (entry, p)
      → rt.transfer id a.owner_usdc_ata.key a.position_usdc_pool.key a.owner.key amount [] c
        ≡ some paid
      → deposit rt a amount s c ≡ ok out
      → (shares : ℕ) × (route_deposit rt a.adapter_program a.instructions_sysvar a.position
            a.position_usdc_pool a.adapter_state a.remaining_accounts amount
            (signer_seeds p)
            paid
          ≡ ok (shares, out.chain))
  unfolding deposit check_version
  deposit_shares a amount s c out entry p paid v pay h =
      elim (Result-cases (
        route_deposit rt a.adapter_program a.instructions_sysvar a.position a.position_usdc_pool
          a.adapter_state a.remaining_accounts amount (signer_seeds p) paid)) [
            | inl (r, e) ↦ (r.0, ground arith)
            | inr (x, e) ↦ absurd (ground arith)
          ]

  pub deposit-Deposited :
      (a : Deposit) (amount : ℕ) (s : State) (c : Chain) (out : Outcome)
      → deposit rt a amount s c ≡ ok out
      → (entry : AdapterEntry) × (p : Position) × (shares : ℕ) × (paid : Chain) × Deposited a amount
          s c out entry p shares paid
  unfolding deposit check_version
  deposit-Deposited a amount s c out h =
      let ((entry, p), v, rest) = >>=-eq-ok (validate_deposit rt a s c) _ h in
      let (paid, pay) = deposit_payment a amount s c out entry p v h in
      let (shares, routed) = deposit_shares a amount s c out entry p paid v pay h in
      (
        entry,
        p,
        shares,
        paid,
        record {
          gate = validate_deposit-DepositGate rt a s c entry p v;
          version = ground arith;
          positive = ground arith;
          payment = pay;
          routed = routed;
          state = ground arith;
          event = ground arith;
        },
      )

  pub Deposited-deposit :
      (a : Deposit) (amount : ℕ) (s : State) (c : Chain) (out : Outcome) (entry : AdapterEntry)
      (p : Position) (shares : ℕ) (paid : Chain)
      → Deposited a amount s c out entry p shares paid
      → deposit rt a amount s c ≡ ok out
  unfolding deposit check_version
  Deposited-deposit a amount s c out entry p shares paid d =
      ground (arith, DepositGate-validate_deposit rt a s c entry p d.gate)

  -- A deposit succeeds with a given outcome exactly when it goes through its stages: the accounts pass
  -- their constraints, the entry has version 1, the amount is positive, the owner's payment into the
  -- pool succeeds, and the adapter, called on the chain after the payment, returns the shares; the
  -- outcome is then the chain after the call, the same dispatcher accounts, and the event with the
  -- amount and the shares.
  pub deposit-eq-ok :
      (a : Deposit) (amount : ℕ) (s : State) (c : Chain) (out : Outcome)
      → (deposit rt a amount s c ≡ ok out) ↔ (
          (entry : AdapterEntry) × (p : Position) × (shares : ℕ) × (paid : Chain) × Deposited a
            amount s c out entry p shares paid)
  deposit-eq-ok a amount s c out = (
    deposit-Deposited a amount s c out,
    λ (entry, p, shares, paid, d). Deposited-deposit a amount s c out entry p shares paid d,
  )

  -- When a deposit of a u64 amount succeeds, the owner has paid exactly that amount into the pool,
  -- and then the adapter program, and no other, was called: on the fixed four accounts followed by the
  -- remaining accounts as they came, with data that reads as a deposit of that amount, and with the
  -- seeds of the position; the shares in the event are those that the adapter returned.
  pub deposit-Invoked :
      (a : Deposit) (amount : ℕ) (s : State) (c : Chain) (out : Outcome)
      → amount < 2 ^ 64
      → deposit rt a amount s c ≡ ok out
      → (p : Position) × (shares : ℕ) × (paid : Chain) × (lookup a.position.key s.positions
          ≡ some p)
        × (rt.transfer id a.owner_usdc_ata.key a.position_usdc_pool.key a.owner.key amount [] c
            ≡ some paid)
        × Invoked rt
            (Call.deposit amount [])
            a.adapter_program
            (fund_prefix a.instructions_sysvar a.position a.position_usdc_pool a.adapter_state)
            (a.adapter_program ∷ a.instructions_sysvar ∷ a.position ∷ a.position_usdc_pool
              ∷ a.adapter_state ∷ [])
            a.remaining_accounts
            (signer_seeds p)
            paid
            out.chain
        × (get_u64_return a.adapter_program.key out.chain ≡ some shares)
        × (out.event ≡ some (deposited a.position.key amount shares))
  deposit-Invoked a amount s c out fits h =
      let (entry, p, shares, paid, d) = deposit-Deposited a amount s c out h in
      let (called, read) =
        route_deposit-Invoked rt a.adapter_program a.instructions_sysvar a.position
          a.position_usdc_pool a.adapter_state a.remaining_accounts amount (signer_seeds p) paid
          out.chain fits d.routed in
      (p, shares, paid, d.gate.position_at, d.payment, called, read, d.event)
