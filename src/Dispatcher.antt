-- ===== src/Dispatcher.antt =====
-- The dispatcher (programs/dispatcher): its constants, accounts and events (constants.rs, state.rs,
-- events.rs). The children hold the router (routing.rs) and the handlers (instructions/), and prove
-- what they do.
pub mod Routing
pub mod Governance
pub mod Funds
pub mod Invariant
pub mod History
pub mod Pausing
use solana_yield_adapter_sta.Base.{ℕ, Bool, List, [], ◌∷◌, Option, Pubkey, Store, ℤ}
use solana_yield_adapter_sta.Runtime.{Chain, Seed, text, key}

-- `declare_id!("CDit4o9LeqFaxEMkS7mHDKkUxrhhr8K9kH4CYfqZxEok")`
abbrev pub id : Pubkey
id = 0x3c8228b872dfb2b52f9cb7717b9babd67fd0a4331531138cc3aead458e1b2a6

-- b"registry"
abbrev pub registry_seed : List ℕ
registry_seed = b'r' ∷ b'e' ∷ b'g' ∷ b'i' ∷ b's' ∷ b't' ∷ b'r' ∷ b'y' ∷ []

-- b"adapter_entry"
abbrev pub entry_seed : List ℕ
entry_seed =
    b'a' ∷ b'd' ∷ b'a' ∷ b'p' ∷ b't' ∷ b'e' ∷ b'r' ∷ b'_' ∷ b'e' ∷ b'n' ∷ b't' ∷ b'r' ∷ b'y' ∷ []

-- b"position"
abbrev pub position_seed : List ℕ
position_seed = b'p' ∷ b'o' ∷ b's' ∷ b'i' ∷ b't' ∷ b'i' ∷ b'o' ∷ b'n' ∷ []

abbrev pub max_name_len : ℕ
max_name_len = 32

abbrev pub max_adapters : ℕ
max_adapters = 256

pub record Registry : Type 0 where
  pub admin : Pubkey
  pub adapter_count : ℕ
  pub bump : ℕ

-- A name is the list of its bytes, which is what `name.len()` counts.
pub record AdapterEntry : Type 0 where
  pub adapter_program : Pubkey
  pub interface_version : ℕ
  pub name : List ℕ
  pub is_active : Bool
  pub added_at : ℤ
  pub bump : ℕ

pub record Position : Type 0 where
  pub owner : Pubkey
  pub adapter_program : Pubkey
  pub usdc_pool : Pubkey
  pub usdc_mint : Pubkey
  pub created_at : ℤ
  pub bump : ℕ

pub data Event : Type 0 where
  adapter_whitelisted : Pubkey → List ℕ → ℕ → Event
  adapter_paused : Pubkey → Bool → Event
  position_opened : Pubkey → Pubkey → Pubkey → Event
  deposited : Pubkey → ℕ → ℕ → Event
  withdrawn : Pubkey → ℕ → ℕ → Event
  value_read : Pubkey → ℕ → Event

-- The accounts that the dispatcher owns.
pub record State : Type 0 where
  pub registries : Store Registry
  pub entries : Store AdapterEntry
  pub positions : Store Position

-- What a successful instruction leaves: the dispatcher's accounts, the rest of the chain, and the
-- event that it emitted, if it emits one.
pub record Outcome : Type 0 where
  pub state : State
  pub chain : Chain
  pub event : Option Event

-- `8 + T::INIT_SPACE`: a string takes its longest length behind four bytes.
abbrev pub registry_space : ℕ
registry_space = 45

abbrev pub entry_space : ℕ
entry_space = 87

abbrev pub position_space : ℕ
position_space = 145

abbrev pub registry_seeds : List Seed
registry_seeds = text registry_seed ∷ []

abbrev pub entry_seeds : Pubkey → List Seed
entry_seeds adapter_program = text entry_seed ∷ key adapter_program ∷ []

abbrev pub position_seeds : Pubkey → Pubkey → List Seed
position_seeds owner adapter_program = text position_seed ∷ key owner ∷ key adapter_program ∷ []
