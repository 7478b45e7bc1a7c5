-- ===== src/Tests/Governance.antt =====
-- Histories of the dispatcher on the sample runtime.
use solana_yield_adapter_sta.Base.{some, ◌++◌, ℕ, ◌≡◌, refl, true, [], ◌∷◌, ok, arith}
use solana_yield_adapter_sta.Runtime.{byte}
use solana_yield_adapter_sta.Dispatcher.{id, Registry, Outcome, registry_seeds}
use solana_yield_adapter_sta.Dispatcher.Governance.{pause_adapter, whitelist_adapter}
use solana_yield_adapter_sta.Dispatcher.Governance.Laws.{
  Admin, Whitelisted, whitelist_adapter-Whitelisted,
}
use solana_yield_adapter_sta.Dispatcher.Invariant.{
  Entrypoint, execute, no_accounts, Reach, here, next, Inv,
}
use solana_yield_adapter_sta.Dispatcher.Invariant.Preservation.{Reach-no_accounts-Inv}
use solana_yield_adapter_sta.Dispatcher.History.{Grows, Reach-Grows}
use solana_yield_adapter_sta.Dispatcher.Funds.{deposit}
use solana_yield_adapter_sta.Dispatcher.Pausing.{
  PdaLaws, IsListed, routed-IsListed, Refuses, pause_adapter-Refuses,
}
use solana_yield_adapter_sta.Samples.{hash, sample_runtime, sample_chain, adapter_key, reading}
use solana_yield_adapter_sta.Tests.Setup.{
  perform, outcome, entry_key, registry_key, setup, listing, pausing, opening, funding, set_up,
  listed, opened, funded, set_up-ok, listed-ok, opened-ok, funded-ok,
}

abbrev history : Reach sample_runtime no_accounts listed.state
unfolding perform
history =
    next (Entrypoint.whitelist_adapter listing (b'K' ∷ []) 1) set_up.chain
      (next (Entrypoint.initialize_registry setup) sample_chain here set_up-ok) listed-ok

abbrev opening_history : Reach sample_runtime listed.state opened.state
unfolding perform
opening_history = next (Entrypoint.open_position opening) listed.chain here opened-ok

abbrev long_history : Reach sample_runtime no_accounts opened.state
unfolding perform
long_history = next (Entrypoint.open_position opening) listed.chain history opened-ok

Reach-no_accounts-Inv_example : Inv sample_runtime opened.state
Reach-no_accounts-Inv_example = Reach-no_accounts-Inv sample_runtime opened.state long_history

Reach-Grows_example : Grows listed.state opened.state
Reach-Grows_example = Reach-Grows sample_runtime opening_history

sample_laws : PdaLaws sample_runtime
unfolding sample_runtime hash
sample_laws = record { found = λ seeds k b h. ground arith; apart = λ x y k b h h'. ground arith }

abbrev paused : Outcome
paused = outcome (perform (Entrypoint.pause_adapter pausing true) listed.state listed.chain)

paused-ok : pause_adapter sample_runtime pausing true listed.state listed.chain ≡ ok paused
unfolding perform registry_key entry_key
paused-ok = refl

pause_adapter-Refuses_example :
    Refuses sample_runtime entry_key paused.state
    × (r : Registry) × Admin sample_runtime pausing.admin pausing.registry listed.state r
    × (sample_runtime.create_program_address (registry_seeds ++ byte r.bump ∷ []) id
        ≡ some registry_key)
pause_adapter-Refuses_example =
    pause_adapter-Refuses sample_runtime pausing listed.state listed.chain paused paused-ok

deposit-ok : deposit sample_runtime funding 300 opened.state opened.chain ≡ ok funded
unfolding perform execute
deposit-ok = funded-ok

routed-IsListed_example : IsListed (reading adapter_key) opened.state opened.chain
routed-IsListed_example =
    (routed-IsListed sample_runtime opened.state opened.chain funded sample_laws
        (Reach-no_accounts-Inv sample_runtime opened.state long_history)).1
      funding 300 deposit-ok

whitelisting :
    whitelist_adapter sample_runtime listing (b'K' ∷ []) 1 set_up.state set_up.chain ≡ ok listed
unfolding perform execute
whitelisting = listed-ok

whitelist_adapter-Whitelisted_example :
    (r : Registry) × (bump : ℕ) × Whitelisted sample_runtime listing
      (b'K' ∷ [])
      1
      set_up.state
      set_up.chain
      listed
      r
      bump
whitelist_adapter-Whitelisted_example =
    whitelist_adapter-Whitelisted sample_runtime listing (b'K' ∷ []) 1 set_up.state set_up.chain
      listed whitelisting
