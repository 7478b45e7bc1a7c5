-- ===== src/Dispatcher/Governance/Laws.antt =====
-- What the registry's instructions require and what they write.
use solana_yield_adapter_sta.Base.{
  ℕ, ◌+◌, ◌≤◌, ◌<◌, ◌≡◌, Bool, true, not, none, some, List, [], ◌∷◌, ◌++◌, length, lookup, insert,
  ok, >>=-eq-ok, arith,
}
use solana_yield_adapter_sta.Runtime.{Runtime, Chain, AccountInfo, byte, executable_at}
use solana_yield_adapter_sta.Runtime.Anchor.{executable}
use solana_yield_adapter_sta.Dispatcher.{
  id, Registry, AdapterEntry, adapter_whitelisted, adapter_paused, State, Outcome, registry_seeds,
  entry_seeds,
}
use solana_yield_adapter_sta.Dispatcher.Governance.{
  InitializeRegistry, WhitelistAdapter, PauseAdapter, initialize_registry,
  validate_whitelist_adapter, whitelist_adapter, validate_pause_adapter, pause_adapter,
}

module _ (rt : Runtime) where
  -- The first account signed, and it is the admin that the registry at the second one names.
  pub record Admin (admin registry : AccountInfo) (s : State) (r : Registry) : Type 0 where
    pub signed : admin.is_signer ≡ true
    pub registry_at : lookup registry.key s.registries ≡ some r
    pub is_admin : r.admin ≡ admin.key

  pub record Initialized (a : InitializeRegistry) (s : State) (out : Outcome) (bump : ℕ)
      : Type 0 where
    pub signed : a.admin.is_signer ≡ true
    pub fresh : lookup a.registry.key s.registries ≡ none
    pub found : rt.find_program_address registry_seeds id ≡ (a.registry.key, bump)
    pub state : out.state ≡ record s {
      registries =
          insert a.registry.key
            (record { admin = a.admin.key; adapter_count = 0; bump = bump })
            s.registries;
    }

  pub initialize_registry-Initialized :
      (a : InitializeRegistry) (s : State) (c : Chain) (out : Outcome)
      → initialize_registry rt a s c ≡ ok out
      → (bump : ℕ) × Initialized a s out bump
  unfolding initialize_registry
  initialize_registry-Initialized a s c out h = (
    (rt.find_program_address registry_seeds id).1,
    record {
      signed = ground arith;
      fresh = ground arith;
      found = ground arith;
      state = ground arith;
    },
  )

  pub record Whitelisted (a : WhitelistAdapter) (name : List ℕ) (version : ℕ) (s : State)
      (c : Chain) (out : Outcome) (r : Registry) (bump : ℕ) : Type 0 where
    pub by_admin : Admin a.admin a.registry s r
    pub fresh : lookup a.adapter_entry.key s.entries ≡ none
    pub found :
        rt.find_program_address (entry_seeds a.adapter_program.key) id ≡ (a.adapter_entry.key, bump)
    pub runs : executable_at c a.adapter_program.key ≡ true
    pub short : length name ≤ 32
    pub current : version ≡ 1
    pub room : r.adapter_count < 256
    pub state : out.state ≡ record s {
      registries =
          insert a.registry.key (record r { adapter_count = r.adapter_count + 1 }) s.registries;
      entries =
          insert a.adapter_entry.key
            (record {
              adapter_program = a.adapter_program.key;
              interface_version = version;
              name = name;
              is_active = true;
              added_at = c.clock.unix_timestamp;
              bump = bump;
            })
            s.entries;
    }
    pub event : out.event ≡ some (adapter_whitelisted a.adapter_program.key name version)

  whitelist_adapter-validated :
      (a : WhitelistAdapter) (name : List ℕ) (version : ℕ) (s : State) (c : Chain) (out : Outcome)
      → whitelist_adapter rt a name version s c ≡ ok out
      → (r : Registry) × (bump : ℕ) × (c' : Chain) × (validate_whitelist_adapter rt a s c
          ≡ ok (r, bump, c'))
  unfolding whitelist_adapter
  whitelist_adapter-validated a name version s c out h =
      let (v, e, rest) = >>=-eq-ok (validate_whitelist_adapter rt a s c) _ h in (v.0, v.1, v.2, e)

  -- An adapter that has been listed was listed by the signing admin of the registry, with no entry
  -- before, at the address found for its program; the program is executable, the name has at most 32
  -- bytes, the version is 1 and fewer than 256 were listed. The entry is written as active and the
  -- registry counts one more.
  pub whitelist_adapter-Whitelisted :
      (a : WhitelistAdapter) (name : List ℕ) (version : ℕ) (s : State) (c : Chain) (out : Outcome)
      → whitelist_adapter rt a name version s c ≡ ok out
      → (r : Registry) × (bump : ℕ) × Whitelisted a name version s c out r bump
  unfolding whitelist_adapter executable
  whitelist_adapter-Whitelisted a name version s c out h =
      let (r, bump, c', v) = whitelist_adapter-validated a name version s c out h in
      (
        r,
        bump,
        record {
          by_admin = record {
            signed = ground arith;
            registry_at = ground arith;
            is_admin = ground arith;
          };
          fresh = ground arith;
          found = ground arith;
          runs = ground arith;
          short = ground arith;
          current = ground arith;
          room = ground arith;
          state = ground arith;
          event = ground arith;
        },
      )

  pub record Paused (a : PauseAdapter) (paused : Bool) (s : State) (c : Chain) (out : Outcome)
      (r : Registry) (entry : AdapterEntry) : Type 0 where
    pub by_admin : Admin a.admin a.registry s r
    pub registry_at_seeds :
        rt.create_program_address (registry_seeds ++ byte r.bump ∷ []) id ≡ some a.registry.key
    pub entry_at : lookup a.adapter_entry.key s.entries ≡ some entry
    pub at_seeds :
        rt.create_program_address (entry_seeds entry.adapter_program ++ byte entry.bump ∷ []) id
        ≡ some a.adapter_entry.key
    pub state : out.state ≡ record s {
      entries = insert a.adapter_entry.key (record entry { is_active = not paused }) s.entries;
    }
    pub chain : out.chain ≡ c
    pub event : out.event ≡ some (adapter_paused entry.adapter_program (not paused))

  validate_pause_adapter-registry :
      (a : PauseAdapter) (s : State) (entry : AdapterEntry)
      → validate_pause_adapter rt a s ≡ ok entry
      → (r : Registry) × (lookup a.registry.key s.registries ≡ some r)
  unfolding validate_pause_adapter
  validate_pause_adapter-registry a s entry h = ground arith

  pause_adapter-validated :
      (a : PauseAdapter) (paused : Bool) (s : State) (c : Chain) (out : Outcome)
      → pause_adapter rt a paused s c ≡ ok out
      → (r : Registry) × (entry : AdapterEntry) × (lookup a.registry.key s.registries ≡ some r)
        × (validate_pause_adapter rt a s ≡ ok entry)
  unfolding pause_adapter
  pause_adapter-validated a paused s c out h =
      let (entry, e, rest) = >>=-eq-ok (validate_pause_adapter rt a s) _ h in
      let (r, found) = validate_pause_adapter-registry a s entry e in (r, entry, found, e)

  pub pause_adapter-Paused :
      (a : PauseAdapter) (paused : Bool) (s : State) (c : Chain) (out : Outcome)
      → pause_adapter rt a paused s c ≡ ok out
      → (r : Registry) × (entry : AdapterEntry) × Paused a paused s c out r entry
  unfolding pause_adapter
  pause_adapter-Paused a paused s c out h =
      let (r, entry, found, v) = pause_adapter-validated a paused s c out h in
      (
        r,
        entry,
        record {
          by_admin = record { signed = ground arith; registry_at = found; is_admin = ground arith };
          registry_at_seeds = ground arith;
          entry_at = ground arith;
          at_seeds = ground arith;
          state = ground arith;
          chain = ground arith;
          event = ground arith;
        },
      )
