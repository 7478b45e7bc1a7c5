-- ===== src/Runtime.antt =====
-- What the programs use of Solana, Anchor and the SPL token program: the accounts of the ledger,
-- instructions with their account metas, and, as the fields of `Runtime`, the calls that these
-- programs make of code which is not in the repository. Nothing is assumed of a `Runtime`; a
-- theorem that needs its documented behaviour has that as a hypothesis.
pub mod Anchor
use solana_yield_adapter_sta.Base.{
  ℕ, ◌≡◌, Bool, true, false, Option, none, some, List, [], Pubkey, Store, lookup, ℤ,
}

pub record AccountMeta : Type 0 where
  pub pubkey : Pubkey
  pub is_signer : Bool
  pub is_writable : Bool

-- `AccountMeta::new(k, s)` and `AccountMeta::new_readonly(k, s)`.
unfoldable pub meta_new : Pubkey → Bool → AccountMeta
meta_new k s = record { pubkey = k; is_signer = s; is_writable = true }

unfoldable pub meta_new_readonly : Pubkey → Bool → AccountMeta
meta_new_readonly k s = record { pubkey = k; is_signer = s; is_writable = false }

-- The handle of an account in one instruction; what the account holds stands in the chain.
pub record AccountInfo : Type 0 where
  pub key : Pubkey
  pub is_signer : Bool
  pub is_writable : Bool

pub record Instruction : Type 0 where
  pub program_id : Pubkey
  pub accounts : List AccountMeta
  pub input : List ℕ

pub data Seed : Type 0 where
  text : List ℕ → Seed
  key : Pubkey → Seed
  byte : ℕ → Seed

pub record Account : Type 0 where
  pub owner : Pubkey
  pub is_executable : Bool
  pub content : List ℕ

pub record Clock : Type 0 where
  pub slot : ℕ
  pub unix_timestamp : ℤ

-- An SPL token account, as `anchor_spl::token::TokenAccount` reads it.
pub record TokenAccount : Type 0 where
  pub mint : Pubkey
  pub authority : Pubkey
  pub amount : ℕ

-- What an instruction can see and change outside the accounts that its own program owns.
pub record Chain : Type 0 where
  pub accounts : Store Account
  pub clock : Clock
  pub return_data : Option (Pubkey × List ℕ)

-- An address with no account behaves as an empty account.
unfoldable pub content_of : Chain → Pubkey → List ℕ
content_of c k = elim (lookup k c.accounts) [ none ↦ [] | some a ↦ a.content ]

unfoldable pub owner_of : Chain → Pubkey → Pubkey
owner_of c k = elim (lookup k c.accounts) [ none ↦ 0 | some a ↦ a.owner ]

unfoldable pub executable_at : Chain → Pubkey → Bool
executable_at c k = elim (lookup k c.accounts) [ none ↦ false | some a ↦ a.is_executable ]

pub record Runtime : Type 0 where
  pub instructions_sysvar_id : Pubkey
  pub rent_sysvar_id : Pubkey
  pub system_program_id : Pubkey
  pub token_program_id : Pubkey
  pub associated_token_program_id : Pubkey
  -- seeds and program; the second gives the address with its bump
  pub create_program_address : List Seed → Pubkey → Option Pubkey
  pub find_program_address : List Seed → Pubkey → Pubkey × ℕ
  -- authority and mint
  pub associated_token_address : Pubkey → Pubkey → Pubkey
  pub unpack_token : Account → Option TokenAccount
  pub is_mint : Account → Bool
  -- the instructions sysvar, at the address that is passed for it
  pub load_current_index_checked : Pubkey → Chain → Option ℕ
  pub load_instruction_at_checked : ℕ → Pubkey → Chain → Option Instruction
  -- the calling program, the instruction, the account infos and the seeds of the signers
  pub invoke_signed :
      Pubkey → Instruction → List AccountInfo → List (List Seed) → Chain → Option Chain
  -- the calling program, then `from`, `to`, `authority`, the amount and the seeds of the signers
  pub transfer : Pubkey → Pubkey → Pubkey → Pubkey → ℕ → List (List Seed) → Chain → Option Chain
  -- the new account, its payer, its owner and its space
  pub create_account : Pubkey → Pubkey → Pubkey → ℕ → Chain → Option Chain
  -- the new token account, its payer, its authority and its mint
  pub create_token_account : Pubkey → Pubkey → Pubkey → Pubkey → Chain → Option Chain

module _ (rt : Runtime) where
  -- The token account at an address, where the data there is one.
  unfoldable pub token_at : Chain → Pubkey → Option TokenAccount
  token_at c k = elim (lookup k c.accounts) [ none ↦ none | some a ↦ rt.unpack_token a ]

  unfoldable pub mint_at : Chain → Pubkey → Bool
  mint_at c k = elim (lookup k c.accounts) [ none ↦ false | some a ↦ rt.is_mint a ]
