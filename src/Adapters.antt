-- ===== src/Adapters.antt =====
-- What the five adapters share (programs/*/src): the seeds and the checks of the state account, the
-- guard of the opaque argument, the events, and the reading of words from account data. Each adapter
-- has a module: the CPIs of its protocol, its handlers, and what these do.
pub mod Calls
pub mod Scaling
pub mod Guard
pub mod Standard
pub mod Kamino
pub mod Marginfi
pub mod Maple
pub mod Drift
pub mod Jupiter
pub mod Programs
use solana_yield_adapter_sta.Base.{
  ℕ, ◌+◌, leb, ◌==◌, Bool, Option, none, some, List, [], ◌∷◌, length, take, drop, Pubkey, Store,
  from_le_bytes, Result, ok, of_adapter, ◌>>=◌, ◌>>◌, require, ok_or, if◌then◌else◌, AdapterError,
  Error, ℤ, pos, negsuc, ltb, ◌-◌, ◌^◌,
}
use solana_yield_adapter_sta.Runtime.{Runtime, Chain, AccountInfo, Seed, text, key}
use solana_yield_adapter_sta.Runtime.Anchor.{writable, seeds_with_bump, address}
use solana_yield_adapter_sta.Interface.{
  adapter_state_seed, max_adapter_data_len, AdapterStateHeader,
}

abbrev pub math_overflow : Error
math_overflow = of_adapter AdapterError.math_overflow

abbrev pub unauthorized : Error
unauthorized = of_adapter AdapterError.unauthorized

abbrev pub cpi_failed : Error
cpi_failed = of_adapter AdapterError.cpi_failed

-- The events of an adapter (events.rs), which all five declare alike.
pub data Event : Type 0 where
  adapter_deposit_event : Pubkey → ℕ → ℕ → Event
  adapter_withdraw_event : Pubkey → ℕ → ℕ → Event
  adapter_value_event : Pubkey → ℕ → ℕ → Event

-- The accounts of the adapter and the chain after an instruction, and what it emitted.
pub record Outcome (S : Type 0) : Type 0 where
  pub state : Store S
  pub chain : Chain
  pub event : Option Event

-- The four instructions of a program, with their accounts (the struct of each) and arguments.
pub data Request (I D W V : Type 0) : Type 0 where
  initializing : I → List ℕ → Request I D W V
  depositing : D → ℕ → List ℕ → Request I D W V
  withdrawing : W → ℕ → List ℕ → Request I D W V
  valuing : V → List ℕ → Request I D W V

abbrev pub adapter_state_seeds : Pubkey → Pubkey → List Seed
adapter_state_seeds id position = text adapter_state_seed ∷ key id ∷ key position ∷ []

-- `seeds = [ADAPTER_STATE_SEED, crate::ID, position], bump = adapter_state.bump` and the constraint
-- on the position of the header.
unfoldable pub check_state :
    Runtime → Pubkey → AdapterStateHeader → ℕ → AccountInfo → AccountInfo → Result (Unit {0})
unfolding seeds_with_bump
check_state rt id header bump position adapter_state = do
  seeds_with_bump rt id (adapter_state_seeds id position.key) bump adapter_state
  require (header.position == position.key) unauthorized

-- The same for an account that is `mut` too, which is checked in between.
unfoldable pub check_writable_state :
    Runtime → Pubkey → AdapterStateHeader → ℕ → AccountInfo → AccountInfo → Result (Unit {0})
unfolding seeds_with_bump writable
check_writable_state rt id header bump position adapter_state = do
  seeds_with_bump rt id (adapter_state_seeds id position.key) bump adapter_state
  writable adapter_state
  require (header.position == position.key) unauthorized

-- `require!(adapter_data.len() <= MAX_ADAPTER_DATA_LEN, AdapterDataTooLarge)`.
unfoldable pub check_data : List ℕ → Result (Unit {0})
check_data adapter_data =
    require (leb (length adapter_data) max_adapter_data_len)
      (of_adapter AdapterError.adapter_data_too_large)

-- `data.get(off..off + w)`.
unfoldable pub slice : List ℕ → ℕ → ℕ → Option (List ℕ)
slice content off w =
    if leb (off + w) (length content) then some (take w (drop off content)) else none

-- The little-endian word of `w` bytes at an offset.
unfoldable pub read_word : ℕ → List ℕ → ℕ → Result ℕ
unfolding slice
read_word w content off = do
  bytes ← ok_or (slice content off w) math_overflow
  ok (from_le_bytes bytes)

unfoldable pub read_u64 : List ℕ → ℕ → Result ℕ
unfolding read_word
read_u64 content off = read_word 8 content off

unfoldable pub read_u128 : List ℕ → ℕ → Result ℕ
unfolding read_word
read_u128 content off = read_word 16 content off
