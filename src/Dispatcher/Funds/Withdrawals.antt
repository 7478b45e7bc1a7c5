-- ===== src/Dispatcher/Funds/Withdrawals.antt =====
-- What a successful `withdraw` has done, and when it succeeds.
use solana_yield_adapter_sta.Base.{
  ℕ, ◌<◌, ◌≡◌, ltb, some, ok, Result-cases, inl, inr, >>=-eq-ok, arith, if◌then◌else◌,
}
use solana_yield_adapter_sta.Base.{◌↔◌}
use solana_yield_adapter_sta.Runtime.{Runtime, Chain}
use solana_yield_adapter_sta.Dispatcher.{id, AdapterEntry, Position, State, Outcome, withdrawn}
use solana_yield_adapter_sta.Dispatcher.Routing.{route_withdraw}
use solana_yield_adapter_sta.Dispatcher.Funds.{
  Deposit, signer_seeds, check_version, validate_deposit, validate_withdraw, forward_to_owner,
  withdraw,
}
use solana_yield_adapter_sta.Dispatcher.Funds.Gate.{
  DepositGate, validate_deposit-DepositGate, DepositGate-validate_deposit,
}

module _ (rt : Runtime) where
  -- A withdrawal in its stages: the adapter is called first, and what it reports to have paid into the
  -- pool is then transferred from the pool to the owner's account, unless it is zero.
  pub record Withdrawn (a : Deposit) (shares : ℕ) (s : State) (c : Chain) (out : Outcome)
      (entry : AdapterEntry) (p : Position) (amount_out : ℕ) (redeemed : Chain) : Type 0 where
    pub gate : DepositGate rt a s c entry p
    pub version : entry.interface_version ≡ 1
    pub positive : 0 < shares
    pub routed :
        route_withdraw rt a.adapter_program a.instructions_sysvar a.position a.position_usdc_pool
          a.adapter_state a.remaining_accounts shares
          (signer_seeds p)
          c
        ≡ ok (amount_out, redeemed)
    pub forwarded :
        (if ltb 0 amount_out
          then rt.transfer id a.position_usdc_pool.key a.owner_usdc_ata.key a.position.key
              amount_out
              (signer_seeds p)
              redeemed
          else some redeemed)
        ≡ some out.chain
    pub state : out.state ≡ s
    pub event : out.event ≡ some (withdrawn a.position.key shares amount_out)

  withdraw_redeemed :
      (a : Deposit) (shares : ℕ) (s : State) (c : Chain) (out : Outcome) (entry : AdapterEntry)
      (p : Position)
      → validate_deposit rt a s c ≡ ok (entry, p)
      → withdraw rt a shares s c ≡ ok out
      → (r : ℕ × Chain) × (route_withdraw rt a.adapter_program a.instructions_sysvar a.position
            a.position_usdc_pool a.adapter_state a.remaining_accounts shares
            (signer_seeds p)
            c
          ≡ ok r)
  unfolding withdraw check_version validate_withdraw
  withdraw_redeemed a shares s c out entry p v h =
      elim (Result-cases (
        route_withdraw rt a.adapter_program a.instructions_sysvar a.position a.position_usdc_pool
          a.adapter_state a.remaining_accounts shares (signer_seeds p) c)) [
            | inl found ↦ found
            | inr (x, e) ↦ absurd (ground arith)
          ]

  pub withdraw-Withdrawn :
      (a : Deposit) (shares : ℕ) (s : State) (c : Chain) (out : Outcome)
      → withdraw rt a shares s c ≡ ok out
      → (entry : AdapterEntry) × (p : Position) × (amount_out : ℕ) × (redeemed : Chain) × Withdrawn
          a shares s c out entry p amount_out redeemed
  unfolding withdraw check_version validate_withdraw forward_to_owner
  withdraw-Withdrawn a shares s c out h =
      let ((entry, p), v, rest) = >>=-eq-ok (validate_deposit rt a s c) _ h in
      let ((amount_out, redeemed), routed) = withdraw_redeemed a shares s c out entry p v h in
      (
        entry,
        p,
        amount_out,
        redeemed,
        record {
          gate = validate_deposit-DepositGate rt a s c entry p v;
          version = ground arith;
          positive = ground arith;
          routed = routed;
          forwarded = ground arith;
          state = ground arith;
          event = ground arith;
        },
      )

  pub Withdrawn-withdraw :
      (a : Deposit) (shares : ℕ) (s : State) (c : Chain) (out : Outcome) (entry : AdapterEntry)
      (p : Position) (amount_out : ℕ) (redeemed : Chain)
      → Withdrawn a shares s c out entry p amount_out redeemed
      → withdraw rt a shares s c ≡ ok out
  unfolding withdraw check_version validate_withdraw forward_to_owner
  Withdrawn-withdraw a shares s c out entry p amount_out redeemed w =
      ground (arith, DepositGate-validate_deposit rt a s c entry p w.gate)

  -- A withdrawal succeeds with a given outcome exactly when it goes through its stages: the accounts
  -- pass their constraints, the entry has version 1, the shares are positive, the adapter is called
  -- first and returns an amount, and exactly that amount is then transferred from the pool to the
  -- owner's account under the seeds of the position, or nothing is transferred when it is zero.
  pub withdraw-eq-ok :
      (a : Deposit) (shares : ℕ) (s : State) (c : Chain) (out : Outcome)
      → (withdraw rt a shares s c ≡ ok out) ↔ (
          (entry : AdapterEntry) × (p : Position) × (amount_out : ℕ) × (redeemed : Chain)
          × Withdrawn a shares s c out entry p amount_out redeemed)
  withdraw-eq-ok a shares s c out = (
    withdraw-Withdrawn a shares s c out,
    λ (entry, p, amount_out, redeemed, w).
        Withdrawn-withdraw a shares s c out entry p amount_out redeemed w,
  )
