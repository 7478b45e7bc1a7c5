-- ===== src/Tests/Programs.antt =====
-- What holds of every adapter, at the runs of the Kamino adapter: the opening of its state account, and
-- then a deposit.
use solana_yield_adapter_sta.Base.{
  true, ◌≡◌, ◌≢◌, refl, some, List, [], ◌∷◌, lookup, insert, Result, ok, arith, checked_add,
  checked_sub, to_le_bytes, from_le_bytes,
}
use solana_yield_adapter_sta.Runtime.{Chain, executable_at, token_at, mint_at, content_of, owner_of}
use solana_yield_adapter_sta.Interface.{set_u64_return, get_u64_return, verify_caller_is_dispatcher}
use solana_yield_adapter_sta.Adapters.{initializing, depositing}
use solana_yield_adapter_sta.Adapters.Standard.{call_of}
use solana_yield_adapter_sta.Adapters.Standard.Accepting.{FromDispatcher}
use solana_yield_adapter_sta.Adapters.Standard.Ledger.{
  Move, open_at, mint, History, here, next, ledger, replay, move_of,
}
use solana_yield_adapter_sta.Adapters.Standard.Conservation.{Balanced}
use solana_yield_adapter_sta.Adapters.Standard.Keeping.{Kept}
use solana_yield_adapter_sta.Adapters.Kamino.{Outcome}
use solana_yield_adapter_sta.Adapters.Kamino.Klend.{refresh_reserve, deposit_reserve_liquidity}
use solana_yield_adapter_sta.Adapters.Kamino.Handlers.{
  AdapterInitialize, adapter_initialize, adapter_deposit, validate_initialize, validate_deposit,
}
use solana_yield_adapter_sta.Adapters.Kamino.Program.{adapter}
use solana_yield_adapter_sta.Adapters.Kamino.Accounts.{state_account}
use solana_yield_adapter_sta.Adapters.Kamino.Callers.{serve}
use solana_yield_adapter_sta.Adapters.Programs.{
  kamino_usdc, programs-FromDispatcher, programs-frame, programs-replay, programs-Balanced,
  programs-Kept,
}
use solana_yield_adapter_sta.Samples.{
  program_account, signing, writing, reading, data_account, hash, set_amount,
}
use solana_yield_adapter_sta.Tests.Kamino.{
  kamino_runtime, state_key, before, states, chain, lending, outcome, deposited, lent, lent-ok,
  laws,
}

depositing-ok : adapter.serve kamino_runtime (depositing lending 300 []) states chain ≡ ok lent
unfolding serve
depositing-ok = lent-ok

programs-FromDispatcher_example : FromDispatcher kamino_runtime chain
programs-FromDispatcher_example =
    programs-FromDispatcher kamino_usdc kamino_runtime laws (depositing lending 300 []) states chain
      lent depositing-ok

other-ne : 7 ≢ state_key
unfolding state_key hash
other-ne e = omega arith

programs-frame_example : lookup 7 lent.state ≡ lookup 7 states
unfolding state_account
programs-frame_example =
    programs-frame kamino_usdc kamino_runtime (depositing lending 300 []) states chain lent 7
      depositing-ok other-ne

abbrev moves : List Move
moves = mint state_key 300 ∷ []

past : History adapter kamino_runtime states lent.state moves
unfolding move_of call_of state_account deposited get_u64_return state_key
past = next (depositing lending 300 []) chain here depositing-ok

programs-replay_example : ledger adapter lent.state ≡ replay moves (ledger adapter states)
programs-replay_example = programs-replay kamino_usdc kamino_runtime past

states-at : lookup state_key states ≡ some before
unfolding lookup state_key hash
states-at = refl

programs-Kept_example : Kept adapter.header state_key before lent.state
programs-Kept_example = programs-Kept kamino_usdc kamino_runtime state_key before past states-at

-- The opening of the state account, whose collateral account is at 61.
abbrev opening : AdapterInitialize
opening = record {
  instructions_sysvar = reading 11;
  position = signing 50;
  adapter_state = writing state_key;
  rent_payer = signing 1;
  system_program = reading 13;
  reserve = writing 60;
  reserve_collateral_mint = reading 4;
  collateral_vault = writing 61;
  token_program = reading 14;
  associated_token_program = reading 15;
}

abbrev opening_chain : Chain
opening_chain = record chain {
  accounts =
      (4, data_account 14 [])
      ∷ (13, program_account)
      ∷ (14, program_account)
      ∷ (15, program_account)
      ∷ [];
}

unfoldable initialized : Result Outcome
unfolding adapter_initialize validate_initialize token_at mint_at state_key hash executable_at
    owner_of content_of verify_caller_is_dispatcher lookup insert kamino_runtime
initialized = adapter_initialize kamino_runtime opening [] [] opening_chain

abbrev opened : Outcome
opened = outcome initialized

opened-ok : adapter.serve kamino_runtime (initializing opening []) [] opening_chain ≡ ok opened
unfolding serve initialized state_key
opened-ok = refl

unfoldable first_deposit : Result Outcome
unfolding adapter_deposit validate_deposit refresh_reserve deposit_reserve_liquidity token_at
    executable_at owner_of content_of set_u64_return verify_caller_is_dispatcher lookup insert
    checked_add checked_sub to_le_bytes from_le_bytes kamino_runtime set_amount
first_deposit = adapter_deposit kamino_runtime lending 300 [] opened.state chain

abbrev filled : Outcome
filled = outcome first_deposit

filled-ok : adapter.serve kamino_runtime (depositing lending 300 []) opened.state chain ≡ ok filled
unfolding serve first_deposit initialized state_key
filled-ok = refl

abbrev all_moves : List Move
all_moves = mint state_key 300 ∷ open_at state_key ∷ []

life : History adapter kamino_runtime [] filled.state all_moves
unfolding move_of call_of state_account first_deposit get_u64_return initialized
life =
    next (depositing lending 300 []) chain
      (next (initializing opening []) opening_chain here opened-ok) filled-ok

programs-Balanced_example :
    Balanced true state_key all_moves (ledger adapter filled.state state_key)
programs-Balanced_example = programs-Balanced kamino_usdc kamino_runtime state_key life
