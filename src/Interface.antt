-- ===== src/Interface.antt =====
-- The contract between the dispatcher and the adapters (crates/adapter-interface/src/lib.rs): the
-- limits, the state header, the instruction encoders, the return-data codec and the check of the
-- caller. The children prove what these promise.
pub mod Wire
use solana_yield_adapter_sta.Base.{
  ℕ, ◌%◌, ◌^◌, ◌≡◌, ◌==◌, ◌||◌, not, Bool, true, false, Option, none, some, List, [], ◌∷◌, ◌++◌,
  length, Pubkey, ℤ, to_le_bytes, from_le_bytes, Result, ok, err, Error, of_adapter, of_framework,
  ◌>>=◌, ◌>>◌, require, ok_or, if◌then◌else◌, sysvar_unreadable, AdapterError,
}
use solana_yield_adapter_sta.Runtime.{Runtime, Chain, AccountInfo}

abbrev pub adapter_interface_version : ℕ
adapter_interface_version = 1

-- b"adapter_state"
abbrev pub adapter_state_seed : List ℕ
adapter_state_seed =
    b'a' ∷ b'd' ∷ b'a' ∷ b'p' ∷ b't' ∷ b'e' ∷ b'r' ∷ b'_' ∷ b's' ∷ b't' ∷ b'a' ∷ b't' ∷ b'e' ∷ []

abbrev pub max_adapter_data_len : ℕ
max_adapter_data_len = 256

abbrev pub max_value_staleness_slots : ℕ
max_value_staleness_slots = 60

-- CDit4o9LeqFaxEMkS7mHDKkUxrhhr8K9kH4CYfqZxEok
abbrev pub dispatcher_id : Pubkey
dispatcher_id = 0x3c8228b872dfb2b52f9cb7717b9babd67fd0a4331531138cc3aead458e1b2a6

pub record AdapterStateHeader : Type 0 where
  pub position : Pubkey
  pub adapter_program : Pubkey
  pub created_at : ℤ
  pub total_shares : ℕ

abbrev pub adapter_initialize : List ℕ
adapter_initialize = 125 ∷ 160 ∷ 35 ∷ 249 ∷ 117 ∷ 179 ∷ 167 ∷ 76 ∷ []

abbrev pub adapter_deposit : List ℕ
adapter_deposit = 190 ∷ 207 ∷ 72 ∷ 186 ∷ 232 ∷ 106 ∷ 46 ∷ 72 ∷ []

abbrev pub adapter_withdraw : List ℕ
adapter_withdraw = 121 ∷ 55 ∷ 72 ∷ 46 ∷ 185 ∷ 100 ∷ 173 ∷ 236 ∷ []

abbrev pub adapter_current_value : List ℕ
adapter_current_value = 67 ∷ 200 ∷ 59 ∷ 238 ∷ 163 ∷ 138 ∷ 170 ∷ 179 ∷ []

-- `data.len() as u32`, in four bytes.
unfoldable pub len_u32 : List ℕ → List ℕ
len_u32 bytes = to_le_bytes 4 (length bytes % 2 ^ 32)

unfoldable pub encode_vec : List ℕ → List ℕ → List ℕ
unfolding len_u32
encode_vec disc bytes = disc ++ (len_u32 bytes ++ bytes)

unfoldable pub encode_u64_vec : List ℕ → ℕ → List ℕ → List ℕ
unfolding len_u32
encode_u64_vec disc n bytes = disc ++ (to_le_bytes 8 n ++ (len_u32 bytes ++ bytes))

unfoldable pub encode_initialize : List ℕ → List ℕ
unfolding encode_vec
encode_initialize adapter_data = encode_vec adapter_initialize adapter_data

unfoldable pub encode_deposit : ℕ → List ℕ → List ℕ
unfolding encode_u64_vec
encode_deposit amount adapter_data = encode_u64_vec adapter_deposit amount adapter_data

unfoldable pub encode_withdraw : ℕ → List ℕ → List ℕ
unfolding encode_u64_vec
encode_withdraw shares adapter_data = encode_u64_vec adapter_withdraw shares adapter_data

unfoldable pub encode_current_value : List ℕ → List ℕ
unfolding encode_vec
encode_current_value adapter_data = encode_vec adapter_current_value adapter_data

-- `set_return_data(&value.to_le_bytes())`: the runtime records the calling program with the bytes.
unfoldable pub set_u64_return : Pubkey → ℕ → Chain → Chain
set_u64_return caller value c = record c { return_data = some (caller, to_le_bytes 8 value) }

unfoldable pub read_u64_return : Pubkey → Option (Pubkey × List ℕ) → Option ℕ
read_u64_return expected_program none = none
read_u64_return expected_program (some (caller, bytes)) =
    if not (caller == expected_program) || not (length bytes == 8)
    then none
    else some (from_le_bytes bytes)

unfoldable pub get_u64_return : Pubkey → Chain → Option ℕ
unfolding read_u64_return
get_u64_return expected_program c = read_u64_return expected_program c.return_data

unfoldable pub verify_caller_is_dispatcher :
    Runtime → AccountInfo → Pubkey → Chain → Result (Unit {0})
verify_caller_is_dispatcher rt sysvar dispatcher c = do
  idx ← ok_or (rt.load_current_index_checked sysvar.key c) (of_framework sysvar_unreadable)
  parent ← ok_or (rt.load_instruction_at_checked idx sysvar.key c) (of_framework sysvar_unreadable)
  require (parent.program_id == dispatcher) (of_adapter AdapterError.unauthorized)
