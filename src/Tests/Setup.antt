-- ===== src/Tests/Setup.antt =====
-- A dispatcher with one listed adapter and one open position, on the sample runtime.
use solana_yield_adapter_sta.Base.{
  ◌+◌, ◌≡◌, refl, none, [], ◌∷◌, ◌++◌, Pubkey, lookup, insert, Result, ok, err, checked_add,
  to_le_bytes, from_le_bytes,
}
use solana_yield_adapter_sta.Runtime.{Chain, byte, executable_at, token_at, mint_at}
use solana_yield_adapter_sta.Interface.{get_u64_return, set_u64_return}
use solana_yield_adapter_sta.Interface.Wire.{encode}
use solana_yield_adapter_sta.Dispatcher.{
  State, Outcome, registry_seeds, entry_seeds, position_seeds,
}
use solana_yield_adapter_sta.Dispatcher.Governance.{
  InitializeRegistry, WhitelistAdapter, PauseAdapter, initialize_registry, whitelist_adapter,
  pause_adapter,
}
use solana_yield_adapter_sta.Dispatcher.Funds.{
  OpenPosition, Deposit, CurrentValue, open_position, deposit, withdraw, current_value,
  check_version, validate_open_position, validate_deposit, check_position, check_entry,
  check_sysvar, validate_withdraw, forward_to_owner, validate_current_value,
}
use solana_yield_adapter_sta.Dispatcher.Routing.{
  forward, route_initialize, route_deposit, route_withdraw, route_current_value, fund_movement_ix,
}
use solana_yield_adapter_sta.Dispatcher.Invariant.{Entrypoint, execute, no_accounts}
use solana_yield_adapter_sta.Samples.{
  signing, writing, reading, adapter_key, hash, sample_runtime, sample_chain,
}

-- An entrypoint on the sample runtime; a test that unfolds this runs.
unfoldable pub perform : Entrypoint → State → Chain → Result Outcome
unfolding execute initialize_registry whitelist_adapter pause_adapter open_position deposit withdraw
    current_value check_version validate_open_position validate_deposit check_position check_entry
    check_sysvar validate_withdraw forward_to_owner validate_current_value forward route_initialize
    route_deposit route_withdraw route_current_value fund_movement_ix get_u64_return set_u64_return
    encode executable_at token_at mint_at lookup insert checked_add to_le_bytes from_le_bytes
    sample_runtime
perform e s c = execute sample_runtime e s c

abbrev pub outcome : Result Outcome → Outcome
outcome (ok out) = out
outcome (err e) = record { state = no_accounts; chain = sample_chain; event = none }

unfoldable pub registry_key : Pubkey
unfolding hash
registry_key = hash (registry_seeds ++ byte 255 ∷ [])

unfoldable pub entry_key : Pubkey
unfolding hash
entry_key = hash (entry_seeds adapter_key ++ byte 255 ∷ [])

unfoldable pub position_key : Pubkey
unfolding hash
position_key = hash (position_seeds 1 adapter_key ++ byte 255 ∷ [])

abbrev pub setup : InitializeRegistry
setup = record { admin = signing 1; registry = writing registry_key; system_program = reading 13 }

abbrev pub listing : WhitelistAdapter
listing = record {
  admin = signing 1;
  registry = writing registry_key;
  adapter_entry = writing entry_key;
  adapter_program = reading adapter_key;
  system_program = reading 13;
}

abbrev pub pausing : PauseAdapter
pausing = record {
  admin = signing 1;
  registry = writing registry_key;
  adapter_entry = writing entry_key;
}

abbrev pub opening : OpenPosition
opening = record {
  owner = signing 1;
  adapter_entry = reading entry_key;
  adapter_program = reading adapter_key;
  position = writing position_key;
  usdc_mint = reading 20;
  position_usdc_pool = writing (position_key + 20 + 7);
  adapter_state = writing 30;
  instructions_sysvar = reading 11;
  system_program = reading 13;
  token_program = reading 14;
  associated_token_program = reading 15;
  remaining_accounts = reading 40 ∷ [];
}

abbrev pub funding : Deposit
funding = record {
  owner = signing 1;
  adapter_entry = reading entry_key;
  adapter_program = reading adapter_key;
  position = writing position_key;
  position_usdc_pool = writing (position_key + 20 + 7);
  owner_usdc_ata = writing 21;
  adapter_state = writing 30;
  instructions_sysvar = reading 11;
  token_program = reading 14;
  remaining_accounts = reading 40 ∷ writing 41 ∷ [];
}

abbrev pub valuing : CurrentValue
valuing = record {
  adapter_entry = reading entry_key;
  adapter_program = reading adapter_key;
  position = reading position_key;
  adapter_state = reading 30;
  instructions_sysvar = reading 11;
  remaining_accounts = [];
}

-- The outcomes of the first three instructions.
abbrev pub set_up : Outcome
set_up = outcome (perform (Entrypoint.initialize_registry setup) no_accounts sample_chain)

abbrev pub listed : Outcome
listed =
    outcome (perform (Entrypoint.whitelist_adapter listing (b'K' ∷ []) 1) set_up.state set_up.chain)

abbrev pub opened : Outcome
opened = outcome (perform (Entrypoint.open_position opening) listed.state listed.chain)

abbrev pub funded : Outcome
funded = outcome (perform (Entrypoint.deposit funding 300) opened.state opened.chain)

pub set_up-ok : perform (Entrypoint.initialize_registry setup) no_accounts sample_chain ≡ ok set_up
unfolding perform registry_key
set_up-ok = refl

pub listed-ok :
    perform (Entrypoint.whitelist_adapter listing (b'K' ∷ []) 1) set_up.state set_up.chain
    ≡ ok listed
unfolding perform registry_key entry_key
listed-ok = refl

pub opened-ok : perform (Entrypoint.open_position opening) listed.state listed.chain ≡ ok opened
unfolding perform registry_key entry_key position_key
opened-ok = refl

pub funded-ok : perform (Entrypoint.deposit funding 300) opened.state opened.chain ≡ ok funded
unfolding perform registry_key entry_key position_key
funded-ok = refl
