-- ===== src/Dispatcher/Governance.antt =====
-- The registry's instructions: initialize_registry.rs, whitelist_adapter.rs and pause_adapter.rs. In
-- each, `validate` stands for the `#[derive(Accounts)]` struct and `handler` for the handler; the
-- constraints run in the order of the struct, after the accounts are loaded and created.
pub mod Laws
use solana_yield_adapter_sta.Base.{
  ℕ, ltb, leb, ◌==◌, ◌+◌, ◌^◌, Bool, true, false, not, Option, none, some, List, [], ◌∷◌, length,
  Pubkey, Store, lookup, insert, checked_add, Result, ok, of_dispatcher, ◌>>=◌, ◌>>◌, require,
  ok_or, DispatcherError,
}
use solana_yield_adapter_sta.Runtime.{Runtime, Chain, AccountInfo}
use solana_yield_adapter_sta.Runtime.Anchor.{
  signer, writable, executable, program, load_account, seeds_with_bump, init_account,
}
use solana_yield_adapter_sta.Interface.{adapter_interface_version}
use solana_yield_adapter_sta.Dispatcher.{
  id, max_name_len, max_adapters, Registry, AdapterEntry, Event, adapter_whitelisted,
  adapter_paused, State, Outcome, registry_space, entry_space, registry_seeds, entry_seeds,
}

pub record InitializeRegistry : Type 0 where
  pub admin : AccountInfo
  pub registry : AccountInfo
  pub system_program : AccountInfo

pub record WhitelistAdapter : Type 0 where
  pub admin : AccountInfo
  pub registry : AccountInfo
  pub adapter_entry : AccountInfo
  pub adapter_program : AccountInfo
  pub system_program : AccountInfo

pub record PauseAdapter : Type 0 where
  pub admin : AccountInfo
  pub registry : AccountInfo
  pub adapter_entry : AccountInfo

module _ (rt : Runtime) where
  -- The bump of the new registry, and the chain with its account.
  unfoldable pub validate_initialize_registry :
      InitializeRegistry → State → Chain → Result (ℕ × Chain)
  unfolding signer writable program init_account
  validate_initialize_registry a s c = do
    signer a.admin
    program c a.system_program rt.system_program_id
    created ← init_account rt id registry_seeds registry_space a.admin a.registry s.registries c
    writable a.admin
    ok created

  unfoldable pub initialize_registry : InitializeRegistry → State → Chain → Result Outcome
  unfolding validate_initialize_registry
  initialize_registry a s c = do
    (bump, c') ← validate_initialize_registry a s c
    let registry : Registry = record { admin = a.admin.key; adapter_count = 0; bump = bump }
    ok (record {
      state = record s { registries = insert a.registry.key registry s.registries };
      chain = c';
      event = none;
    })

  -- The registry, the bump of the new entry, and the chain with the entry's account.
  unfoldable pub validate_whitelist_adapter :
      WhitelistAdapter → State → Chain → Result (Registry × ℕ × Chain)
  unfolding signer writable program executable load_account seeds_with_bump init_account
  validate_whitelist_adapter a s c = do
    signer a.admin
    registry ← load_account s.registries a.registry
    program c a.system_program rt.system_program_id
    (bump, c') ←
        init_account rt id (entry_seeds a.adapter_program.key) entry_space a.admin a.adapter_entry
          s.entries c
    writable a.admin
    seeds_with_bump rt id registry_seeds registry.bump a.registry
    writable a.registry
    require (registry.admin == a.admin.key) (of_dispatcher DispatcherError.unauthorized)
    executable c a.adapter_program
    ok (registry, bump, c')

  unfoldable pub whitelist_adapter : WhitelistAdapter → List ℕ → ℕ → State → Chain → Result Outcome
  unfolding validate_whitelist_adapter checked_add
  whitelist_adapter a name interface_version s c = do
    (registry, bump, c') ← validate_whitelist_adapter a s c
    require (leb (length name) max_name_len) (of_dispatcher DispatcherError.name_too_long)
    require (interface_version == adapter_interface_version)
        (of_dispatcher DispatcherError.version_mismatch)
    require (ltb registry.adapter_count max_adapters) (of_dispatcher DispatcherError.registry_full)
    let entry : AdapterEntry = record {
      adapter_program = a.adapter_program.key;
      interface_version = interface_version;
      name = name;
      is_active = true;
      added_at = c.clock.unix_timestamp;
      bump = bump;
    }
    adapter_count ←
        ok_or (checked_add (2 ^ 32) registry.adapter_count 1)
          (of_dispatcher DispatcherError.math_overflow)
    ok (record {
      state = record s {
        registries =
            insert a.registry.key (record registry { adapter_count = adapter_count }) s.registries;
        entries = insert a.adapter_entry.key entry s.entries;
      };
      chain = c';
      event = some (adapter_whitelisted a.adapter_program.key name interface_version);
    })

  unfoldable pub validate_pause_adapter : PauseAdapter → State → Result AdapterEntry
  unfolding signer writable load_account seeds_with_bump
  validate_pause_adapter a s = do
    signer a.admin
    registry ← load_account s.registries a.registry
    entry ← load_account s.entries a.adapter_entry
    seeds_with_bump rt id registry_seeds registry.bump a.registry
    require (registry.admin == a.admin.key) (of_dispatcher DispatcherError.unauthorized)
    seeds_with_bump rt id (entry_seeds entry.adapter_program) entry.bump a.adapter_entry
    writable a.adapter_entry
    ok entry

  unfoldable pub pause_adapter : PauseAdapter → Bool → State → Chain → Result Outcome
  unfolding validate_pause_adapter
  pause_adapter a paused s c = do
    entry ← validate_pause_adapter a s
    ok (record {
      state = record s {
        entries = insert a.adapter_entry.key (record entry { is_active = not paused }) s.entries;
      };
      chain = c;
      event = some (adapter_paused entry.adapter_program (not paused));
    })
