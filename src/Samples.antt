-- ===== src/Samples.antt =====
-- A small concrete runtime for the tests: token accounts in the SPL layout, program addresses that
-- are numbers computed from the seeds, and one adapter program that answers every call.
use solana_yield_adapter_sta.Base.{
  ℕ, ◌+◌, ◌-◌, ◌*◌, leb, ◌==◌, true, false, Option, none, some, List, [], ◌∷◌, ◌++◌, length, take,
  drop, Pubkey, lookup, insert, to_le_bytes, from_le_bytes, if◌then◌else◌, pos,
}
use solana_yield_adapter_sta.Runtime.{
  Runtime, Chain, Account, AccountInfo, Instruction, TokenAccount, Seed, text, key, byte,
}
use solana_yield_adapter_sta.Interface.{dispatcher_id}

-- Writable and signing, writable, and read-only accounts.
abbrev pub signing : Pubkey → AccountInfo
signing k = record { key = k; is_signer = true; is_writable = true }

abbrev pub writing : Pubkey → AccountInfo
writing k = record { key = k; is_signer = false; is_writable = true }

abbrev pub reading : Pubkey → AccountInfo
reading k = record { key = k; is_signer = false; is_writable = false }

abbrev pub token_content : Pubkey → Pubkey → ℕ → List ℕ
token_content mint authority amount =
    to_le_bytes 32 mint ++ (to_le_bytes 32 authority ++ (to_le_bytes 8 amount ++ []))

abbrev pub token_account : Pubkey → Pubkey → ℕ → Account
token_account mint authority amount = record {
  owner = 14;
  is_executable = false;
  content = token_content mint authority amount;
}

abbrev pub program_account : Account
program_account = record { owner = 1; is_executable = true; content = [] }

abbrev pub data_account : Pubkey → List ℕ → Account
data_account owner content = record { owner = owner; is_executable = false; content = content }

unfoldable pub unpack : Account → Option TokenAccount
unpack a =
    if leb 72 (length a.content)
    then some (record {
      mint = from_le_bytes (take 32 a.content);
      authority = from_le_bytes (take 32 (drop 32 a.content));
      amount = from_le_bytes (take 8 (drop 64 a.content));
    })
    else none

-- The chain after an amount has been added to, or taken from, a token account.
unfoldable pub set_amount : Pubkey → (ℕ → Option ℕ) → Chain → Option Chain
unfolding unpack
set_amount k change c = elim (lookup k c.accounts) [
  | none ↦ none
  | some a ↦ elim (unpack a) [
    | none ↦ none
    | some t ↦ elim (change t.amount) [
      | none ↦ none
      | some n ↦ some (record c {
        accounts = insert k (record a { content = token_content t.mint t.authority n }) c.accounts;
      })
    ]
  ]
]

abbrev pub add_amount : ℕ → ℕ → Option ℕ
add_amount n m = some (m + n)

abbrev pub take_amount : ℕ → ℕ → Option ℕ
take_amount n m = if leb n m then some (m - n) else none

unfoldable pub move_tokens : Pubkey → Pubkey → ℕ → Chain → Option Chain
unfolding set_amount
move_tokens from to n c = elim (set_amount from (take_amount n) c) [
  | none ↦ none
  | some c' ↦ set_amount to (add_amount n) c'
]

unfoldable pub hash : List Seed → ℕ
hash [] = 0
hash (text t ∷ seeds) = length t + 1000 * hash seeds
hash (key k ∷ seeds) = k + 1000 * hash seeds
hash (byte b ∷ seeds) = b + 1000 * hash seeds

-- The adapter program of the tests; it answers a deposit or a withdrawal with the number that it was
-- called with, and the other calls with the first eight bytes behind the discriminator.
abbrev pub adapter_key : Pubkey
adapter_key = 500

unfoldable pub answer : Instruction → Chain → Option Chain
answer ix c =
    if ix.program_id == adapter_key
    then some (record c {
      return_data = some (adapter_key, take 8 (drop 8 (ix.input ++ to_le_bytes 8 0)));
    })
    else none

unfoldable pub sample_runtime : Runtime
unfolding unpack move_tokens hash answer
sample_runtime = record {
  instructions_sysvar_id = 11;
  rent_sysvar_id = 12;
  system_program_id = 13;
  token_program_id = 14;
  associated_token_program_id = 15;
  create_program_address = λ seeds p. some (hash seeds);
  find_program_address = λ seeds p. (hash (seeds ++ byte 255 ∷ []), 255);
  associated_token_address = λ authority mint. authority + mint + 7;
  unpack_token = unpack;
  is_mint = λ a. length a.content == 0;
  load_current_index_checked = λ k c. some 0;
  load_instruction_at_checked =
      λ i k c. some (record { program_id = dispatcher_id; accounts = []; input = [] });
  invoke_signed = λ caller ix infos seeds c. answer ix c;
  transfer = λ caller from to authority n seeds c. move_tokens from to n c;
  create_account = λ k payer owner space c.
      some (record c { accounts = insert k (data_account owner []) c.accounts });
  create_token_account = λ k payer authority mint c.
      some (record c { accounts = insert k (token_account mint authority 0) c.accounts });
}

abbrev pub sample_chain : Chain
sample_chain = record {
  accounts =
      (13, program_account)
      ∷ (14, program_account)
      ∷ (15, program_account)
      ∷ (adapter_key, program_account)
      ∷ (20, data_account 14 [])
      ∷ (21, token_account 20 1 1000)
      ∷ [];
  clock = record { slot = 77; unix_timestamp = pos 1700000000 };
  return_data = none;
}
