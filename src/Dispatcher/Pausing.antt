-- ===== src/Dispatcher/Pausing.antt =====
-- The registry as the gate of routing: who can be called, and that a pause stops every call.
use solana_yield_adapter_sta.Base.{
  ℕ, ◌≡◌, ◌≢◌, refl, sym, true, false, some, List, [], ◌∷◌, ◌++◌, Pubkey, lookup,
  lookup-insert_self, ok, arith, some,
}
use mathlib.Core.Path.{subst}
use solana_yield_adapter_sta.Runtime.{Runtime, Chain, AccountInfo, Seed, byte, executable_at}
use solana_yield_adapter_sta.Dispatcher.{
  id, Registry, AdapterEntry, State, Outcome, entry_seeds, registry_seeds,
}
use solana_yield_adapter_sta.Dispatcher.Governance.{PauseAdapter, pause_adapter}
use solana_yield_adapter_sta.Dispatcher.Governance.Laws.{Admin, pause_adapter-Paused}
use solana_yield_adapter_sta.Dispatcher.Funds.{
  OpenPosition, Deposit, CurrentValue, open_position, deposit, withdraw, current_value,
}
use solana_yield_adapter_sta.Dispatcher.Funds.Gate.{EntryGate}
use solana_yield_adapter_sta.Dispatcher.Funds.Deposits.{deposit-Deposited}
use solana_yield_adapter_sta.Dispatcher.Funds.Withdrawals.{withdraw-Withdrawn}
use solana_yield_adapter_sta.Dispatcher.Funds.Readings.{current_value-ValueRead}
use solana_yield_adapter_sta.Dispatcher.Funds.Openings.{open_position-Opened}
use solana_yield_adapter_sta.Dispatcher.Invariant.{Inv}

-- Documented behaviour of program-derived addresses: the address that is found for some seeds is the
-- one that these seeds give with its bump, and different adapter programs have different entries.
pub record PdaLaws (rt : Runtime) : Type 0 where
  pub found :
      (seeds : List Seed) (k : Pubkey) (b : ℕ)
      → rt.find_program_address seeds id ≡ (k, b)
      → rt.create_program_address (seeds ++ byte b ∷ []) id ≡ some k
  pub apart :
      (x y k : Pubkey) (b : ℕ)
      → rt.create_program_address (entry_seeds x ++ byte b ∷ []) id ≡ some k
      → rt.create_program_address (entry_seeds y ++ byte b ∷ []) id ≡ some k
      → x ≡ y

-- The admin has listed the program, with the version of this dispatcher, and has not paused it; and
-- the program can be executed.
pub record IsListed (adapter_program : AccountInfo) (s : State) (c : Chain) : Type 0 where
  pub entry : AdapterEntry
  pub at : Pubkey
  pub listed : lookup at s.entries ≡ some entry
  pub names : entry.adapter_program ≡ adapter_program.key
  pub version : entry.interface_version ≡ 1
  pub active : entry.is_active ≡ true
  pub runs : executable_at c adapter_program.key ≡ true

module _ (rt : Runtime) where
  EntryGate-IsListed :
      (program adapter_entry : AccountInfo) (s : State) (c : Chain) (entry : AdapterEntry)
      → PdaLaws rt
      → Inv rt s
      → lookup adapter_entry.key s.entries ≡ some entry
      → EntryGate rt entry program adapter_entry
      → entry.interface_version ≡ 1
      → executable_at c program.key ≡ true
      → IsListed program s c
  EntryGate-IsListed program adapter_entry s c entry laws v here gate version runs = record {
    entry = entry;
    at = adapter_entry.key;
    listed = here;
    names =
        laws.apart entry.adapter_program program.key adapter_entry.key entry.bump
          (laws.found (entry_seeds entry.adapter_program) adapter_entry.key entry.bump
            (v.entries adapter_entry.key entry here).address)
          gate.at_seeds;
    version = version;
    active = gate.active;
    runs = runs;
  }

  -- Where derived addresses obey `PdaLaws`, and in a state that holds the invariant, each of the four
  -- routed instructions succeeds only for an adapter program that the registry lists as active, with
  -- version 1, and that is executable.
  pub routed-IsListed :
      (s : State) (c : Chain) (out : Outcome)
      → PdaLaws rt
      → Inv rt s
      → ((a : OpenPosition) → open_position rt a s c ≡ ok out → IsListed a.adapter_program s c)
        × ((a : Deposit) (amount : ℕ)
            → deposit rt a amount s c ≡ ok out
            → IsListed a.adapter_program s c)
        × ((a : Deposit) (shares : ℕ)
            → withdraw rt a shares s c ≡ ok out
            → IsListed a.adapter_program s c)
        × ((a : CurrentValue) → current_value rt a s c ≡ ok out → IsListed a.adapter_program s c)
  routed-IsListed s c out laws v = (
    λ a h.
        let (entry, bump, created, o) = open_position-Opened rt a s c out h in
        EntryGate-IsListed a.adapter_program a.adapter_entry s c entry laws v o.gate.entry_at
          o.gate.entry_gate o.version o.gate.runs,
    λ a amount h.
        let (entry, p, shares, paid, d) = deposit-Deposited rt a amount s c out h in
        EntryGate-IsListed a.adapter_program a.adapter_entry s c entry laws v d.gate.entry_at
          d.gate.entry_gate d.version d.gate.runs,
    λ a shares h.
        let (entry, p, amount, redeemed, w) = withdraw-Withdrawn rt a shares s c out h in
        EntryGate-IsListed a.adapter_program a.adapter_entry s c entry laws v w.gate.entry_at
          w.gate.entry_gate w.version w.gate.runs,
    λ a h.
        let (entry, p, value, priced, r) = current_value-ValueRead rt a s c out h in
        EntryGate-IsListed a.adapter_program a.adapter_entry s c entry laws v r.gate.entry_at
          r.gate.entry_gate r.version r.gate.runs,
  )

  -- No routed instruction succeeds with the entry at the given address.
  abbrev pub Refuses : Pubkey → State → Type 0
  Refuses k s =
      ((a : OpenPosition) (c : Chain) (out : Outcome)
        → a.adapter_entry.key ≡ k
        → open_position rt a s c ≢ ok out)
      × ((a : Deposit) (amount : ℕ) (c : Chain) (out : Outcome)
          → a.adapter_entry.key ≡ k
          → deposit rt a amount s c ≢ ok out)
      × ((a : Deposit) (shares : ℕ) (c : Chain) (out : Outcome)
          → a.adapter_entry.key ≡ k
          → withdraw rt a shares s c ≢ ok out)
      × ((a : CurrentValue) (c : Chain) (out : Outcome)
          → a.adapter_entry.key ≡ k
          → current_value rt a s c ≢ ok out)

  inactive_gate :
      (k : Pubkey) (program adapter_entry : AccountInfo) (s : State) (e entry : AdapterEntry)
      → lookup k s.entries ≡ some e
      → e.is_active ≡ false
      → adapter_entry.key ≡ k
      → lookup adapter_entry.key s.entries ≡ some entry
      → EntryGate rt entry program adapter_entry
      → ⊥
  inactive_gate k program adapter_entry s e entry here off same found gate = ground arith

  inactive-Refuses :
      (k : Pubkey) (s : State) (e : AdapterEntry)
      → lookup k s.entries ≡ some e
      → e.is_active ≡ false
      → Refuses k s
  inactive-Refuses k s e here off = (
    λ a c out same h.
        let (entry, bump, created, o) = open_position-Opened rt a s c out h in
        inactive_gate k a.adapter_program a.adapter_entry s e entry here off same o.gate.entry_at
          o.gate.entry_gate,
    λ a amount c out same h.
        let (entry, p, shares, paid, d) = deposit-Deposited rt a amount s c out h in
        inactive_gate k a.adapter_program a.adapter_entry s e entry here off same d.gate.entry_at
          d.gate.entry_gate,
    λ a shares c out same h.
        let (entry, p, n, redeemed, w) = withdraw-Withdrawn rt a shares s c out h in
        inactive_gate k a.adapter_program a.adapter_entry s e entry here off same w.gate.entry_at
          w.gate.entry_gate,
    λ a c out same h.
        let (entry, p, value, priced, r) = current_value-ValueRead rt a s c out h in
        inactive_gate k a.adapter_program a.adapter_entry s e entry here off same r.gate.entry_at
          r.gate.entry_gate,
  )

  -- After a successful `pause_adapter` with `paused` set, none of the four routed instructions
  -- succeeds with that entry on any chain. The account passed as the admin signed the pause, and it is
  -- the admin that the registry account names, which stands at the registry's derived address.
  pub pause_adapter-Refuses :
      (a : PauseAdapter) (s : State) (c : Chain) (out : Outcome)
      → pause_adapter rt a true s c ≡ ok out
      → Refuses a.adapter_entry.key out.state
        × (r : Registry) × Admin rt a.admin a.registry s r
        × (rt.create_program_address (registry_seeds ++ byte r.bump ∷ []) id ≡ some a.registry.key)
  pause_adapter-Refuses a s c out h =
      let (r, entry, p) = pause_adapter-Paused rt a true s c out h in
      (
        inactive-Refuses a.adapter_entry.key out.state (record entry { is_active = false })
            (subst
              (λ (t : State).
                lookup a.adapter_entry.key t.entries ≡ some (record entry { is_active = false }))
              (sym p.state)
              (lookup-insert_self a.adapter_entry.key (record entry { is_active = false })
                s.entries))
            refl,
        r,
        p.by_admin,
        p.registry_at_seeds,
      )
