-- ===== src/Adapters/Guard.antt =====
-- The check of the caller, moved from the chain on which an account has just been created to the
-- chain that the instruction came with.
use solana_yield_adapter_sta.Base.{
  ℕ, ◌≡◌, sym, ◌∙◌, List, some, none, Pubkey, Store, lookup, ok, arith,
}
use solana_yield_adapter_sta.Runtime.{Runtime, Chain, AccountInfo, Seed}
use solana_yield_adapter_sta.Runtime.Anchor.{init_account, init_associated_token}
use solana_yield_adapter_sta.Interface.{dispatcher_id, verify_caller_is_dispatcher}
use solana_yield_adapter_sta.Interface.Wire.{verify_caller_is_dispatcher-eq-ok}

-- The creation of an account leaves the instructions of the transaction as they are.
pub record SysvarLaws (rt : Runtime) : Type 0 where
  pub create_account :
      (k payer owner : Pubkey) (space : ℕ) (c c' : Chain) (j i : ℕ)
      → rt.create_account k payer owner space c ≡ some c'
      → (rt.load_current_index_checked j c' ≡ rt.load_current_index_checked j c)
        × (rt.load_instruction_at_checked i j c' ≡ rt.load_instruction_at_checked i j c)
  pub create_token_account :
      (k payer authority mint : Pubkey) (c c' : Chain) (j i : ℕ)
      → rt.create_token_account k payer authority mint c ≡ some c'
      → (rt.load_current_index_checked j c' ≡ rt.load_current_index_checked j c)
        × (rt.load_instruction_at_checked i j c' ≡ rt.load_instruction_at_checked i j c)

module _ (rt : Runtime) where
  pub same_guard :
      (a : AccountInfo) (c c' : Chain)
      → ((j i : ℕ)
          → (rt.load_current_index_checked j c' ≡ rt.load_current_index_checked j c)
            × (rt.load_instruction_at_checked i j c' ≡ rt.load_instruction_at_checked i j c))
      → verify_caller_is_dispatcher rt a dispatcher_id c' ≡ ok tt
      → verify_caller_is_dispatcher rt a dispatcher_id c ≡ ok tt
  same_guard a c c' same h =
      let (idx, parent, e, e', p) = (verify_caller_is_dispatcher-eq-ok rt a dispatcher_id c').0 h in
      (verify_caller_is_dispatcher-eq-ok rt a dispatcher_id c).1
        (idx, parent, sym (same a.key idx).0 ∙ e, sym (same a.key idx).1 ∙ e', p)

  pub init_account-guard {ℓ} :
      {V : Type ℓ} (laws : SysvarLaws rt) (sysvar payer a : AccountInfo) (id : Pubkey)
      (seeds : List Seed) (space : ℕ) (s : Store V) (c c' : Chain) (bump : ℕ)
      → init_account rt id seeds space payer a s c ≡ ok (bump, c')
      → verify_caller_is_dispatcher rt sysvar dispatcher_id c' ≡ ok tt
      → verify_caller_is_dispatcher rt sysvar dispatcher_id c ≡ ok tt
  unfolding init_account
  init_account-guard laws sysvar payer a id seeds space s c c' bump h =
      let e : rt.create_account a.key payer.key id space c ≡ some c' = ground arith in
      same_guard sysvar c c' (λ j i. laws.create_account a.key payer.key id space c c' j i e)

  pub init_associated_token-guard :
      (laws : SysvarLaws rt) (sysvar payer a : AccountInfo) (mint authority : Pubkey) (c c' : Chain)
      → init_associated_token rt mint authority payer a c ≡ ok c'
      → verify_caller_is_dispatcher rt sysvar dispatcher_id c' ≡ ok tt
      → verify_caller_is_dispatcher rt sysvar dispatcher_id c ≡ ok tt
  unfolding init_associated_token
  init_associated_token-guard laws sysvar payer a mint authority c c' h =
      let e : rt.create_token_account a.key payer.key authority mint c ≡ some c' = ground arith in
      same_guard sysvar c c'
        (λ j i. laws.create_token_account a.key payer.key authority mint c c' j i e)

  -- Only an address with no account is initialised.
  pub init_account-fresh {ℓ} :
      {V : Type ℓ} (payer a : AccountInfo) (id : Pubkey) (seeds : List Seed) (space : ℕ)
      (s : Store V) (c c' : Chain) (bump : ℕ)
      → init_account rt id seeds space payer a s c ≡ ok (bump, c')
      → lookup a.key s ≡ none
  unfolding init_account
  init_account-fresh payer a id seeds space s c c' bump h = ground arith
