-- ===== src/Dispatcher/Invariant.antt =====
-- The accounts of the dispatcher over any history of its instructions. Between two of them the rest
-- of the chain changes as it will.
pub mod Preservation
use solana_yield_adapter_sta.Base.{
  ℕ, ◌≤◌, ◌≡◌, ◌≢◌, Bool, Option, none, some, List, [], length, Pubkey, lookup, Result, ok,
}
use solana_yield_adapter_sta.Runtime.{Runtime, Chain}
use solana_yield_adapter_sta.Dispatcher.{
  id, Registry, AdapterEntry, Position, State, Outcome, registry_seeds, entry_seeds, position_seeds,
}
use solana_yield_adapter_sta.Dispatcher.Governance
use solana_yield_adapter_sta.Dispatcher.Governance.{
  InitializeRegistry, WhitelistAdapter, PauseAdapter,
}
use solana_yield_adapter_sta.Dispatcher.Funds
use solana_yield_adapter_sta.Dispatcher.Funds.{OpenPosition, Deposit, Withdraw, CurrentValue}

-- The entrypoints of the program, with their accounts and arguments.
pub data Entrypoint : Type 0 where
  initialize_registry : InitializeRegistry → Entrypoint
  whitelist_adapter : WhitelistAdapter → List ℕ → ℕ → Entrypoint
  pause_adapter : PauseAdapter → Bool → Entrypoint
  open_position : OpenPosition → Entrypoint
  deposit : Deposit → ℕ → Entrypoint
  withdraw : Withdraw → ℕ → Entrypoint
  current_value : CurrentValue → Entrypoint

abbrev pub count_of : Option Registry → ℕ
count_of none = 0
count_of (some r) = r.adapter_count

-- Before the first instruction.
abbrev pub no_accounts : State
no_accounts = record { registries = []; entries = []; positions = [] }

module _ (rt : Runtime) where
  -- `#[program] mod dispatcher`.
  unfoldable pub execute : Entrypoint → State → Chain → Result Outcome
  execute (initialize_registry a) s c = Governance.initialize_registry rt a s c
  execute (whitelist_adapter a name version) s c =
      Governance.whitelist_adapter rt a name version s c
  execute (pause_adapter a paused) s c = Governance.pause_adapter rt a paused s c
  execute (open_position a) s c = Funds.open_position rt a s c
  execute (deposit a amount) s c = Funds.deposit rt a amount s c
  execute (withdraw a shares) s c = Funds.withdraw rt a shares s c
  execute (current_value a) s c = Funds.current_value rt a s c

  pub data Reach (s : State) : State → Type 0 where
    here : Reach s s
    next :
        {t : State} {out : Outcome} (e : Entrypoint) (c : Chain)
        → Reach s t
        → execute e t c ≡ ok out
        → Reach s out.state

  abbrev pub registry_address : Pubkey
  registry_address = (rt.find_program_address registry_seeds id).0

  pub record EntryOk (k : Pubkey) (e : AdapterEntry) : Type 0 where
    pub version : e.interface_version ≡ 1
    pub short : length e.name ≤ 32
    pub address : rt.find_program_address (entry_seeds e.adapter_program) id ≡ (k, e.bump)

  pub record PositionOk (k : Pubkey) (p : Position) : Type 0 where
    pub address :
        rt.find_program_address (position_seeds p.owner p.adapter_program) id ≡ (k, p.bump)
    pub pool : p.usdc_pool ≡ rt.associated_token_address k p.usdc_mint

  -- One registry at most, which counts the entries; at most 256 of these; and every account stands at
  -- the address that its own fields give.
  pub record Inv (s : State) : Type 0 where
    pub single : (k : Pubkey) → k ≢ registry_address → lookup k s.registries ≡ none
    pub counted : count_of (lookup registry_address s.registries) ≡ length s.entries
    pub bounded : length s.entries ≤ 256
    pub entries : (k : Pubkey) (e : AdapterEntry) → lookup k s.entries ≡ some e → EntryOk k e
    pub positions : (k : Pubkey) (p : Position) → lookup k s.positions ≡ some p → PositionOk k p
