-- ===== src/Dispatcher/Invariant/Preservation.antt =====
-- Every entrypoint keeps the invariant of the dispatcher's accounts.
use solana_yield_adapter_sta.Base.{
  ℕ, ◌+◌, ◌≡◌, ◌==◌, refl, Bool, true, not, some, List, Pubkey, lookup, insert, lookup-insert,
  length-insert_new, length-insert_old, ok, Bool-cases, inl, inr, arith, sym, ap, ==→eq,
}
use mathlib.Core.Path.{subst, subst₂}
use solana_yield_adapter_sta.Runtime.{Runtime, Chain}
use solana_yield_adapter_sta.Dispatcher.{Registry, AdapterEntry, State, Outcome}
use solana_yield_adapter_sta.Dispatcher.Governance.{
  InitializeRegistry, WhitelistAdapter, PauseAdapter,
}
use solana_yield_adapter_sta.Dispatcher.Governance.Laws.{
  Initialized, initialize_registry-Initialized, Whitelisted, whitelist_adapter-Whitelisted, Paused,
  pause_adapter-Paused,
}
use solana_yield_adapter_sta.Dispatcher.Funds.{OpenPosition}
use solana_yield_adapter_sta.Dispatcher.Funds.Deposits.{deposit-Deposited}
use solana_yield_adapter_sta.Dispatcher.Funds.Withdrawals.{withdraw-Withdrawn}
use solana_yield_adapter_sta.Dispatcher.Funds.Readings.{current_value-ValueRead}
use solana_yield_adapter_sta.Dispatcher.Funds.Openings.{
  Opened, opened_position, open_position-Opened,
}
use solana_yield_adapter_sta.Dispatcher.Invariant.{
  Entrypoint, initialize_registry, whitelist_adapter, pause_adapter, open_position, deposit,
  withdraw, current_value, execute, no_accounts, Reach, here, next, registry_address, EntryOk,
  PositionOk, Inv,
}

-- A store keeps a property of its accounts when an account with the property is written.
insert-keeps {ℓ κ} :
    {V : Type ℓ} (P : Pubkey → V → Type κ) (k : Pubkey) (v : V) (m : List (Pubkey × V))
    → ((j : Pubkey) (w : V) → lookup j m ≡ some w → P j w)
    → P k v
    → (j : Pubkey) (w : V) → lookup j (insert k v m) ≡ some w
    → P j w
insert-keeps P k v m old new j w h = elim (Bool-cases (k == j)) [
  | inl same ↦ subst₂ P (==→eq k j same) (ground (arith, lookup-insert k j v m)) new
  | inr other ↦ old j w (ground (arith, lookup-insert k j v m))
]

-- The entry that `whitelist_adapter` writes.
abbrev listed : WhitelistAdapter → List ℕ → ℕ → Chain → ℕ → AdapterEntry
listed a name version c bump = record {
  adapter_program = a.adapter_program.key;
  interface_version = version;
  name = name;
  is_active = true;
  added_at = c.clock.unix_timestamp;
  bump = bump;
}

module _ (rt : Runtime) where
  -- A registry that is found stands at the one address.
  registry_at-address :
      (k : Pubkey) (s : State) (r : Registry)
      → Inv rt s
      → lookup k s.registries ≡ some r
      → k ≡ registry_address rt
  registry_at-address k s r v h = elim (Bool-cases (k == registry_address rt)) [
    | inl same ↦ ==→eq k (registry_address rt) same
    | inr other ↦ absurd (ground (arith, v.single k (ground arith)))
  ]

  initialize_registry-Inv :
      (a : InitializeRegistry) (s : State) (out : Outcome) (bump : ℕ)
      → Initialized rt a s out bump
      → Inv rt s
      → Inv rt out.state
  initialize_registry-Inv a s out bump i v =
      let r : Registry = record { admin = a.admin.key; adapter_count = 0; bump = bump } in
      let here : a.registry.key ≡ registry_address rt =
        ap (λ (q : Pubkey × ℕ). q.0) (sym i.found) in
      subst (Inv rt) (sym i.state) (record {
        single =
            λ k ne. ground (arith, lookup-insert a.registry.key k r s.registries, v.single k ne);
        counted =
            ground
              (arith, v.counted, lookup-insert a.registry.key (registry_address rt) r s.registries);
        bounded = v.bounded;
        entries = v.entries;
        positions = v.positions;
      })

  whitelist_adapter-Inv :
      (a : WhitelistAdapter) (name : List ℕ) (version : ℕ) (s : State) (c : Chain) (out : Outcome)
      (r : Registry) (bump : ℕ)
      → Whitelisted rt a name version s c out r bump
      → Inv rt s
      → Inv rt out.state
  whitelist_adapter-Inv a name version s c out r bump w v =
      let r' : Registry = record r { adapter_count = r.adapter_count + 1 } in
      let here : a.registry.key ≡ registry_address rt =
        registry_at-address a.registry.key s r v w.by_admin.registry_at in
      let grown =
        length-insert_new a.adapter_entry.key (listed a name version c bump) s.entries w.fresh in
      subst (Inv rt) (sym w.state) (record {
        single =
            λ k ne. ground (arith, lookup-insert a.registry.key k r' s.registries, v.single k ne);
        counted = ground (
          arith,
          v.counted,
          w.by_admin.registry_at,
          grown,
          lookup-insert a.registry.key (registry_address rt) r' s.registries,
        );
        bounded = ground (arith, v.counted, w.by_admin.registry_at, w.room, grown);
        entries =
            insert-keeps (EntryOk rt) a.adapter_entry.key (listed a name version c bump) s.entries
              v.entries (record { version = w.current; short = w.short; address = w.found });
        positions = v.positions;
      })

  pause_adapter-Inv :
      (a : PauseAdapter) (paused : Bool) (s : State) (c : Chain) (out : Outcome) (r : Registry)
      (entry : AdapterEntry)
      → Paused rt a paused s c out r entry
      → Inv rt s
      → Inv rt out.state
  pause_adapter-Inv a paused s c out r entry p v =
      let entry' : AdapterEntry = record entry { is_active = not paused } in
      let kept = length-insert_old a.adapter_entry.key entry' entry s.entries p.entry_at in
      let before = v.entries a.adapter_entry.key entry p.entry_at in
      subst (Inv rt) (sym p.state) (record {
        single = v.single;
        counted = ground (arith, v.counted, kept);
        bounded = ground (arith, v.bounded, kept);
        entries =
            insert-keeps (EntryOk rt) a.adapter_entry.key entry' s.entries v.entries
              (record { version = before.version; short = before.short; address = before.address });
        positions = v.positions;
      })

  open_position-Inv :
      (a : OpenPosition) (s : State) (c : Chain) (out : Outcome) (entry : AdapterEntry) (bump : ℕ)
      (created : Chain)
      → Opened rt a s c out entry bump created
      → Inv rt s
      → Inv rt out.state
  open_position-Inv a s c out entry bump created o v = subst (Inv rt) (sym o.state) (record {
    single = v.single;
    counted = v.counted;
    bounded = v.bounded;
    entries = v.entries;
    positions =
        insert-keeps (PositionOk rt) a.position.key (opened_position a c bump) s.positions
          v.positions (record { address = o.gate.found; pool = o.gate.pool });
  })

  same-Inv : {s t : State} → t ≡ s → Inv rt s → Inv rt t
  same-Inv e v = subst (Inv rt) (sym e) v

  -- Every successful entrypoint keeps the invariant, on whatever chain it runs.
  pub execute-Inv :
      (e : Entrypoint) (s : State) (c : Chain) (out : Outcome)
      → execute rt e s c ≡ ok out
      → Inv rt s
      → Inv rt out.state
  unfolding execute
  execute-Inv (initialize_registry a) s c out h v =
      let (bump, i) = initialize_registry-Initialized rt a s c out h in
      initialize_registry-Inv a s out bump i v
  execute-Inv (whitelist_adapter a name version) s c out h v =
      let (r, bump, w) = whitelist_adapter-Whitelisted rt a name version s c out h in
      whitelist_adapter-Inv a name version s c out r bump w v
  execute-Inv (pause_adapter a paused) s c out h v =
      let (r, entry, p) = pause_adapter-Paused rt a paused s c out h in
      pause_adapter-Inv a paused s c out r entry p v
  execute-Inv (open_position a) s c out h v =
      let (entry, bump, created, o) = open_position-Opened rt a s c out h in
      open_position-Inv a s c out entry bump created o v
  execute-Inv (deposit a amount) s c out h v =
      let (entry, p, shares, paid, d) = deposit-Deposited rt a amount s c out h in
      same-Inv d.state v
  execute-Inv (withdraw a shares) s c out h v =
      let (entry, p, amount, redeemed, w) = withdraw-Withdrawn rt a shares s c out h in
      same-Inv w.state v
  execute-Inv (current_value a) s c out h v =
      let (entry, p, value, priced, r) = current_value-ValueRead rt a s c out h in
      same-Inv r.state v

  -- In every state that a history of entrypoints reaches from one that holds the invariant, such as
  -- the one with no accounts, the invariant holds.
  pub Reach-Inv : {s t : State} → Inv rt s → Reach rt s t → Inv rt t
  Reach-Inv v here = v
  Reach-Inv v (next {t} {out} e c r h) = execute-Inv e t c out h (Reach-Inv v r)

no_accounts-Inv : (rt : Runtime) → Inv rt no_accounts
unfolding lookup
no_accounts-Inv rt = record {
  single = λ k ne. refl;
  counted = refl;
  bounded = omega arith;
  entries = λ k e h. absurd (ground arith);
  positions = λ k p h. absurd (ground arith);
}

-- Whatever history of successful entrypoints has led from a dispatcher without accounts to the given
-- accounts: at most one registry exists, at its own address, and its count is the number of entries,
-- at most 256; every entry has version 1, a name of at most 32 bytes and the address derived from its
-- adapter program; every position has the address derived from its owner and its adapter program, and
-- its pool is the associated token account of its mint.
pub Reach-no_accounts-Inv : (rt : Runtime) (t : State) → Reach rt no_accounts t → Inv rt t
Reach-no_accounts-Inv rt t r = Reach-Inv rt (no_accounts-Inv rt) r
