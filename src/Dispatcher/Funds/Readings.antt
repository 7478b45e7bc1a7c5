-- ===== src/Dispatcher/Funds/Readings.antt =====
-- What a successful `current_value` has done.
use solana_yield_adapter_sta.Base.{
  ℕ, [], ◌∷◌, ◌≡◌, some, ok, Result-cases, inl, inr, >>=-eq-ok, arith,
}
use solana_yield_adapter_sta.Runtime.{Runtime, Chain}
use solana_yield_adapter_sta.Interface.{set_u64_return, get_u64_return}
use solana_yield_adapter_sta.Interface.Wire.{Call}
use solana_yield_adapter_sta.Dispatcher.{id, AdapterEntry, Position, State, Outcome, value_read}
use solana_yield_adapter_sta.Dispatcher.Routing.{route_current_value}
use solana_yield_adapter_sta.Dispatcher.Routing.Laws.{
  Invoked, value_prefix, route_current_value-Invoked,
}
use solana_yield_adapter_sta.Dispatcher.Funds.{
  CurrentValue, check_version, validate_current_value, current_value,
}
use solana_yield_adapter_sta.Dispatcher.Funds.Gate.{ValueGate, validate_current_value-ValueGate}

module _ (rt : Runtime) where
  -- A reading in its stages: the adapter is called, by no seeds and on the position as a read-only
  -- account that does not sign, and the value is set again as the dispatcher's own return data.
  pub record ValueRead (a : CurrentValue) (s : State) (c : Chain) (out : Outcome)
      (entry : AdapterEntry) (p : Position) (value : ℕ) (priced : Chain) : Type 0 where
    pub gate : ValueGate rt a s c entry p
    pub version : entry.interface_version ≡ 1
    pub routed :
        route_current_value rt a.adapter_program a.instructions_sysvar a.position a.adapter_state
          a.remaining_accounts c
        ≡ ok (value, priced)
    pub called :
        Invoked rt
          (Call.current_value [])
          a.adapter_program
          (value_prefix a.instructions_sysvar a.position a.adapter_state)
          (a.adapter_program ∷ a.instructions_sysvar ∷ a.position ∷ a.adapter_state ∷ [])
          a.remaining_accounts
          []
          c
          priced
    pub answered : get_u64_return a.adapter_program.key priced ≡ some value
    pub chain : out.chain ≡ set_u64_return id value priced
    pub state : out.state ≡ s
    pub event : out.event ≡ some (value_read a.position.key value)

  current_value_routed :
      (a : CurrentValue) (s : State) (c : Chain) (out : Outcome) (entry : AdapterEntry)
      (p : Position)
      → validate_current_value rt a s c ≡ ok (entry, p)
      → current_value rt a s c ≡ ok out
      → (r : ℕ × Chain) × (route_current_value rt a.adapter_program a.instructions_sysvar a.position
            a.adapter_state a.remaining_accounts c
          ≡ ok r)
  unfolding current_value check_version
  current_value_routed a s c out entry p v h =
      elim (Result-cases (
        route_current_value rt a.adapter_program a.instructions_sysvar a.position a.adapter_state
          a.remaining_accounts c)) [ inl found ↦ found | inr (x, e) ↦ absurd (ground arith) ]

  -- A reading that succeeds has passed its gate, with an entry of version 1. It has called the adapter
  -- program with data that reads as `current_value`, by no signer seeds, on the sysvar, the position and
  -- the adapter state, none of which signs or is writable, followed by the remaining accounts as they
  -- came. The value is what the adapter set as its return data, and is set again as the dispatcher's
  -- own on the chain after the call; no account of the dispatcher changes.
  pub current_value-ValueRead :
      (a : CurrentValue) (s : State) (c : Chain) (out : Outcome)
      → current_value rt a s c ≡ ok out
      → (entry : AdapterEntry) × (p : Position) × (value : ℕ) × (priced : Chain) × ValueRead a s c
          out entry p value priced
  unfolding current_value check_version
  current_value-ValueRead a s c out h =
      let ((entry, p), v, rest) = >>=-eq-ok (validate_current_value rt a s c) _ h in
      let ((value, priced), routed) = current_value_routed a s c out entry p v h in
      let (called, answered) =
        route_current_value-Invoked rt a.adapter_program a.instructions_sysvar a.position
          a.adapter_state a.remaining_accounts c priced routed in
      (
        entry,
        p,
        value,
        priced,
        record {
          gate = validate_current_value-ValueGate rt a s c entry p v;
          version = ground arith;
          routed = routed;
          called = called;
          answered = answered;
          chain = ground arith;
          state = ground arith;
          event = ground arith;
        },
      )
