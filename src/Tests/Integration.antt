-- ===== src/Tests/Integration.antt =====
-- A deposit and a withdrawal through the dispatcher into the Kamino adapter.
use solana_yield_adapter_sta.Base.{
  ℕ, Bool, true, false, to_le_bytes, from_le_bytes, checked_add, checked_sub, ◌≡◌, refl, none, some,
  List, [], ◌∷◌, ◌++◌, Pubkey, lookup, insert, Result, ok, err, if◌then◌else◌, ltb, pos, arith,
}
use solana_yield_adapter_sta.Runtime.{
  Chain, Seed, byte, content_of, owner_of, executable_at, token_at,
}
use solana_yield_adapter_sta.Interface.Wire.{decode}
use solana_yield_adapter_sta.Interface.{
  encode_deposit, encode_withdraw, get_u64_return, set_u64_return, verify_caller_is_dispatcher,
}
use solana_yield_adapter_sta.Dispatcher.{State, entry_seeds, position_seeds, deposited, withdrawn}
use solana_yield_adapter_sta.Dispatcher as Dispatcher
use solana_yield_adapter_sta.Dispatcher.Routing.{
  forward, route_deposit, route_withdraw, fund_movement_ix,
}
use solana_yield_adapter_sta.Dispatcher.Funds.{
  Deposit, deposit, withdraw, check_version, validate_deposit, check_position, check_entry,
  check_sysvar, validate_withdraw, forward_to_owner,
}
use solana_yield_adapter_sta.Adapters.{adapter_state_seeds}
use solana_yield_adapter_sta.Adapters as Adapters
use solana_yield_adapter_sta.Adapters.Standard.{account_at, Minted, Burned}
use solana_yield_adapter_sta.Adapters.Kamino.Klend.{
  refresh_reserve, deposit_reserve_liquidity, redeem_reserve_collateral,
}
use solana_yield_adapter_sta.Adapters.Kamino.Handlers as Kamino
use solana_yield_adapter_sta.Adapters.Kamino.{id, AdapterState}
use solana_yield_adapter_sta.Adapters.Kamino.Program.{adapter}
use solana_yield_adapter_sta.Adapters.Kamino.Callers.{serve}
use solana_yield_adapter_sta.Adapters.Kamino.Accounts.{parse, take_deposit, take_withdraw}
use solana_yield_adapter_sta.Integration.{info_of}
use solana_yield_adapter_sta.Integration.Moving.{TakenOff, deposit-Minted, withdraw-Burned}
use solana_yield_adapter_sta.Samples.{
  signing, writing, reading, data_account, program_account, token_account, set_amount, hash,
  sample_chain,
}
use solana_yield_adapter_sta.Tests.Kamino.{kamino_runtime}
use solana_yield_adapter_sta.Tests.Cpi.{
  stored, store, write, read, sign, size, served_as, requested, called, cpi, routing_runtime, laws,
}

unfoldable entry_key : Pubkey
unfolding hash
entry_key = hash (entry_seeds id ++ byte 255 ∷ [])

unfoldable position_key : Pubkey
unfolding hash
position_key = hash (position_seeds 1 id ++ byte 255 ∷ [])

unfoldable state_key : Pubkey
unfolding hash position_key
state_key = hash (adapter_state_seeds id position_key ++ byte 255 ∷ [])

-- The adapter is listed, and the owner has a position with no shares yet.
abbrev listed : State
listed = record {
  registries = [];
  entries =
      (
        entry_key,
        record {
          adapter_program = id;
          interface_version = 1;
          name = b'K' ∷ [];
          is_active = true;
          added_at = pos 0;
          bump = 255;
        },
      )
      ∷ [];
  positions =
      (
        position_key,
        record {
          owner = 1;
          adapter_program = id;
          usdc_pool = 62;
          usdc_mint = 20;
          created_at = pos 0;
          bump = 255;
        },
      )
      ∷ [];
}

abbrev empty_account : AdapterState
empty_account = record {
  header = record {
    position = position_key;
    adapter_program = id;
    created_at = pos 0;
    total_shares = 0;
  };
  kamino_reserve = 60;
  collateral_vault = 61;
  bump = 255;
}

unfoldable chain : Chain
unfolding store write state_key sign size
chain = store ((state_key, empty_account) ∷ []) (record sample_chain {
  accounts =
      (14, program_account)
      ∷ (id, program_account)
      ∷ (600, program_account)
      ∷ (60, data_account 600 [])
      ∷ (21, token_account 20 1 1000)
      ∷ (61, token_account 70 position_key 0)
      ∷ (62, token_account 20 position_key 0)
      ∷ [];
})

abbrev funding : Deposit
funding = record {
  owner = signing 1;
  adapter_entry = reading entry_key;
  adapter_program = reading id;
  position = writing position_key;
  position_usdc_pool = writing 62;
  owner_usdc_ata = writing 21;
  adapter_state = writing state_key;
  instructions_sysvar = reading 11;
  token_program = reading 14;
  remaining_accounts =
      writing 60
      ∷ reading 63
      ∷ reading 64
      ∷ reading 20
      ∷ writing 65
      ∷ writing 70
      ∷ writing 61
      ∷ reading 14
      ∷ reading 14
      ∷ reading 66
      ∷ reading 600
      ∷ [];
}

unfoldable perform : Bool → ℕ → Chain → Result Dispatcher.Outcome
unfolding deposit withdraw check_version validate_deposit check_position check_entry check_sysvar
    validate_withdraw forward_to_owner forward route_deposit route_withdraw fund_movement_ix
    get_u64_return set_u64_return executable_at token_at lookup insert checked_add checked_sub
    to_le_bytes from_le_bytes routing_runtime cpi stored store served_as requested called write read
    sign size content_of owner_of decode parse account_at encode_deposit encode_withdraw
    take_deposit take_withdraw info_of serve Kamino.adapter_deposit Kamino.adapter_withdraw
    Kamino.validate_deposit Kamino.validate_withdraw refresh_reserve deposit_reserve_liquidity
    redeem_reserve_collateral verify_caller_is_dispatcher set_amount
perform false n c = deposit routing_runtime funding n listed c
perform true n c = withdraw routing_runtime funding n listed c

abbrev outcome : Result Dispatcher.Outcome → Dispatcher.Outcome
outcome (ok out) = out
outcome (err e) = record { state = listed; chain = sample_chain; event = none }

abbrev funded : Dispatcher.Outcome
funded = outcome (perform false 300 chain)

depositing : deposit routing_runtime funding 300 listed chain ≡ ok funded
unfolding perform entry_key position_key state_key chain
depositing = refl

abbrev left : Dispatcher.Outcome
left = outcome (perform true 120 funded.chain)

withdrawing : withdraw routing_runtime funding 120 listed funded.chain ≡ ok left
unfolding perform entry_key position_key state_key chain
withdrawing = refl

deposit-Minted_example :
    (paid : Chain) × (done : Adapters.Outcome AdapterState) × (mint : Minted adapter.header id
      position_key state_key true 300
      (stored paid)
      done)
    × (routing_runtime.transfer Dispatcher.id 21 62 1 300 [] chain ≡ some paid)
    × (stored funded.chain ≡ done.state)
    × (funded.event ≡ some (deposited position_key 300 mint.shares))
deposit-Minted_example =
    deposit-Minted adapter routing_runtime kamino_runtime stored laws funding 300 listed chain
      funded refl (omega arith) depositing

withdraw-Burned_example :
    (redeemed : Chain) × (amount_out : ℕ) × (signers : List (List Seed)) × (done : Adapters.Outcome
      AdapterState)
    × (burn : Burned adapter.header id position_key state_key true 120 (stored funded.chain) done)
    × TakenOff true 120 burn.before.header.total_shares burn.after.header.total_shares
    × (stored redeemed ≡ done.state)
    × (get_u64_return id done.chain ≡ some amount_out)
    × ((if ltb 0 amount_out
          then routing_runtime.transfer Dispatcher.id 62 21 position_key amount_out signers redeemed
          else some redeemed)
        ≡ some left.chain)
    × (left.event ≡ some (withdrawn position_key 120 amount_out))
withdraw-Burned_example =
    withdraw-Burned adapter routing_runtime kamino_runtime stored laws funding 120 listed
      funded.chain left refl (omega arith) withdrawing

-- The count has gone up by what was deposited, and the owner has the withdrawn amount back.
counted :
    lookup state_key (stored funded.chain)
    ≡ some (record empty_account { header = record (empty_account.header) { total_shares = 300 } })
unfolding perform entry_key position_key state_key chain
counted = refl
