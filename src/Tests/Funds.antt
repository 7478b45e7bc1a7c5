-- ===== src/Tests/Funds.antt =====
-- A deposit, a withdrawal, a reading and an opening on the sample runtime.
use solana_yield_adapter_sta.Base.{ℕ, ◌≡◌, refl, [], ◌∷◌, lookup, Result, ok, some, arith}
use solana_yield_adapter_sta.Runtime.{Chain}
use solana_yield_adapter_sta.Interface.{get_u64_return}
use solana_yield_adapter_sta.Interface.Wire.{Call}
use solana_yield_adapter_sta.Dispatcher.{id, AdapterEntry, Position, Outcome, deposited}
use solana_yield_adapter_sta.Dispatcher.Routing.{route_withdraw}
use solana_yield_adapter_sta.Dispatcher.Routing.Laws.{Invoked, fund_prefix, route_withdraw-Invoked}
use solana_yield_adapter_sta.Dispatcher.Funds.{
  deposit, withdraw, current_value, open_position, signer_seeds,
}
use solana_yield_adapter_sta.Dispatcher.Funds.Deposits.{Deposited, deposit-eq-ok, deposit-Invoked}
use solana_yield_adapter_sta.Dispatcher.Funds.Withdrawals.{Withdrawn, withdraw-eq-ok}
use solana_yield_adapter_sta.Dispatcher.Funds.Readings.{ValueRead, current_value-ValueRead}
use solana_yield_adapter_sta.Dispatcher.Funds.Openings.{Opened, open_position-Opened}
use solana_yield_adapter_sta.Dispatcher.Invariant.{Entrypoint, execute}
use solana_yield_adapter_sta.Samples.{sample_runtime, sample_chain, adapter_key, reading, writing}
use solana_yield_adapter_sta.Tests.Setup.{
  perform, outcome, position_key, entry_key, registry_key, opening, funding, valuing, listed,
  opened, funded, opened-ok, funded-ok,
}

depositing : deposit sample_runtime funding 300 opened.state opened.chain ≡ ok funded
unfolding perform execute
depositing = funded-ok

deposit-eq-ok_example :
    (entry : AdapterEntry) × (p : Position) × (shares : ℕ) × (paid : Chain) × Deposited
      sample_runtime funding 300 opened.state opened.chain funded entry p shares paid
deposit-eq-ok_example =
    (deposit-eq-ok sample_runtime funding 300 opened.state opened.chain funded).0 depositing

deposit-Invoked_example :
    (p : Position) × (shares : ℕ) × (paid : Chain) × (lookup position_key opened.state.positions
      ≡ some p)
    × (sample_runtime.transfer id 21 funding.position_usdc_pool.key 1 300 [] opened.chain
        ≡ some paid)
    × Invoked sample_runtime
        (Call.deposit 300 [])
        funding.adapter_program
        (fund_prefix funding.instructions_sysvar funding.position funding.position_usdc_pool
          funding.adapter_state)
        (funding.adapter_program ∷ funding.instructions_sysvar ∷ funding.position
          ∷ funding.position_usdc_pool ∷ funding.adapter_state ∷ [])
        funding.remaining_accounts
        (signer_seeds p)
        paid
        funded.chain
    × (get_u64_return adapter_key funded.chain ≡ some shares)
    × (funded.event ≡ some (deposited position_key 300 shares))
deposit-Invoked_example =
    deposit-Invoked sample_runtime funding 300 opened.state opened.chain funded (omega arith)
      depositing

-- A withdrawal of 120 shares from the funded position.
abbrev withdrawn_out : Outcome
withdrawn_out = outcome (perform (Entrypoint.withdraw funding 120) funded.state funded.chain)

withdrawing : withdraw sample_runtime funding 120 funded.state funded.chain ≡ ok withdrawn_out
unfolding perform registry_key entry_key position_key
withdrawing = refl

withdraw-eq-ok_example :
    (entry : AdapterEntry) × (p : Position) × (amount_out : ℕ) × (redeemed : Chain) × Withdrawn
      sample_runtime funding 120 funded.state funded.chain withdrawn_out entry p amount_out redeemed
withdraw-eq-ok_example =
    (withdraw-eq-ok sample_runtime funding 120 funded.state funded.chain withdrawn_out).0
      withdrawing

abbrev read_out : Outcome
read_out = outcome (perform (Entrypoint.current_value valuing) funded.state funded.chain)

valued : current_value sample_runtime valuing funded.state funded.chain ≡ ok read_out
unfolding perform registry_key entry_key position_key
valued = refl

current_value-ValueRead_example :
    (entry : AdapterEntry) × (p : Position) × (value : ℕ) × (priced : Chain) × ValueRead
      sample_runtime valuing funded.state funded.chain read_out entry p value priced
current_value-ValueRead_example =
    current_value-ValueRead sample_runtime valuing funded.state funded.chain read_out valued

opening-ok : open_position sample_runtime opening listed.state listed.chain ≡ ok opened
unfolding perform execute
opening-ok = opened-ok

open_position-Opened_example :
    (entry : AdapterEntry) × (bump : ℕ) × (created : Chain) × Opened sample_runtime opening
      listed.state listed.chain opened entry bump created
open_position-Opened_example =
    open_position-Opened sample_runtime opening listed.state listed.chain opened opening-ok

abbrev routed : Result (ℕ × Chain)
routed =
    route_withdraw sample_runtime (reading adapter_key) (reading 11) (writing position_key)
      (writing 22) (writing 30) (reading 40 ∷ []) 120 [] sample_chain

abbrev routed_chain : Chain
routed_chain = record sample_chain {
  return_data = some (adapter_key, 120 ∷ 0 ∷ 0 ∷ 0 ∷ 0 ∷ 0 ∷ 0 ∷ 0 ∷ []);
}

routed-ok : routed ≡ ok (120, routed_chain)
unfolding perform position_key
routed-ok = refl

route_withdraw-Invoked_example :
    Invoked sample_runtime
      (Call.withdraw 120 [])
      (reading adapter_key)
      (fund_prefix (reading 11) (writing position_key) (writing 22) (writing 30))
      (reading adapter_key ∷ reading 11 ∷ writing position_key ∷ writing 22 ∷ writing 30 ∷ [])
      (reading 40 ∷ [])
      []
      sample_chain
      routed_chain
    × (get_u64_return adapter_key routed_chain ≡ some 120)
route_withdraw-Invoked_example =
    route_withdraw-Invoked sample_runtime (reading adapter_key) (reading 11) (writing position_key)
      (writing 22) (writing 30) (reading 40 ∷ []) 120 [] sample_chain routed_chain (omega arith)
      routed-ok
