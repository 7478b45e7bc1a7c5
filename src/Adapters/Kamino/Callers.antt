-- ===== src/Adapters/Kamino/Callers.antt =====
-- Whom the four instructions of the adapter accept.
use solana_yield_adapter_sta.Base.{
  ℕ, ◌≡◌, sym, ap, ◌∙◌, insert, lookup-insert_other, >>=-eq-ok, ◌≢◌, Pubkey, inl, inr, Option-cases,
  List, some, Result, ok, Store, lookup, arith,
}
use solana_yield_adapter_sta.Runtime.{Runtime, Chain, Instruction}
use solana_yield_adapter_sta.Interface.{dispatcher_id, verify_caller_is_dispatcher}
use solana_yield_adapter_sta.Interface.Wire.{verify_caller_is_dispatcher-eq-ok}
use solana_yield_adapter_sta.Adapters.Kamino.Accounts.{sysvar, state_account, Request}
use solana_yield_adapter_sta.Adapters.{initializing, depositing, withdrawing, valuing}
use solana_yield_adapter_sta.Adapters.Guard.{SysvarLaws, same_guard}
use solana_yield_adapter_sta.Adapters.Kamino.{id, state_space, AdapterState, Outcome}
use solana_yield_adapter_sta.Adapters.Kamino.Handlers.{
  AdapterInitialize, validate_initialize, validate_deposit, validate_withdraw,
  validate_current_value, adapter_initialize, adapter_deposit, adapter_withdraw,
  adapter_current_value,
}
use solana_yield_adapter_sta.Adapters.Kamino.Shares.{deposit-Booked, withdraw-Redeemed}

module _ (rt : Runtime) where
  unfoldable pub serve : Request → Store AdapterState → Chain → Result Outcome
  serve (initializing a d) = adapter_initialize rt a d
  serve (depositing a n d) = adapter_deposit rt a n d
  serve (withdrawing a n d) = adapter_withdraw rt a n d
  serve (valuing a d) = adapter_current_value rt a d

  -- The runtime reads the instructions from the account with the sysvar's address.
  pub serve-sysvar :
      (q : Request) (s : Store AdapterState) (c : Chain) (out : Outcome)
      → serve q s c ≡ ok out
      → (sysvar q).key ≡ rt.instructions_sysvar_id
  unfolding serve sysvar adapter_initialize adapter_deposit adapter_withdraw adapter_current_value
      validate_initialize validate_deposit validate_withdraw validate_current_value
  serve-sysvar (initializing a d) s c out h = ground arith
  serve-sysvar (depositing a n d) s c out h = ground arith
  serve-sysvar (withdrawing a n d) s c out h = ground arith
  serve-sysvar (valuing a d) s c out h = ground arith

  pub created :
      (a : AdapterInitialize) (s : Store AdapterState) (c c₂ : Chain) (bump : ℕ)
      → validate_initialize rt a s c ≡ ok (bump, c₂)
      → (c₁ : Chain) × (rt.create_account a.adapter_state.key a.rent_payer.key id state_space c
          ≡ some c₁)
        × (rt.create_token_account a.collateral_vault.key a.rent_payer.key a.position.key
              a.reserve_collateral_mint.key c₁
            ≡ some c₂)
  unfolding validate_initialize
  created a s c c₂ bump h =
      elim (Option-cases
        (rt.create_account a.adapter_state.key a.rent_payer.key id state_space c)) [
          | inl failed ↦ absurd (ground arith)
          | inr (c₁, e) ↦ (c₁, e, ground arith)
        ]

  pub initialized :
      (a : AdapterInitialize) (d : List ℕ) (s : Store AdapterState) (c : Chain) (out : Outcome)
      → adapter_initialize rt a d s c ≡ ok out
      → (bump : ℕ) × (c₂ : Chain) × (validate_initialize rt a s c ≡ ok (bump, c₂))
        × (verify_caller_is_dispatcher rt a.instructions_sysvar dispatcher_id c₂ ≡ ok tt)
        × ((st : AdapterState) × (out.state ≡ insert a.adapter_state.key st s))
  unfolding adapter_initialize
  initialized a d s c out h =
      let ((bump, c₂), v, rest) = >>=-eq-ok (validate_initialize rt a s c) _ h in
      let st : AdapterState = record {
        header = record {
          position = a.position.key;
          adapter_program = id;
          created_at = c.clock.unix_timestamp;
          total_shares = 0;
        };
        kamino_reserve = a.reserve.key;
        collateral_vault = a.collateral_vault.key;
        bump = bump;
      } in
      (bump, c₂, v, ground arith, (st, ground arith))

  initialize-guard :
      (laws : SysvarLaws rt) (a : AdapterInitialize) (d : List ℕ) (s : Store AdapterState)
      (c : Chain) (out : Outcome)
      → adapter_initialize rt a d s c ≡ ok out
      → verify_caller_is_dispatcher rt a.instructions_sysvar dispatcher_id c ≡ ok tt
  initialize-guard laws a d s c out h =
      let (bump, c₂, v, guard, rest) = initialized a d s c out h in
      let (c₁, e₁, e₂) = created a s c c₂ bump v in
      same_guard rt a.instructions_sysvar c c₁
        (λ j i. laws.create_account a.adapter_state.key a.rent_payer.key id state_space c c₁ j i e₁)
        (same_guard rt a.instructions_sysvar c₁ c₂
          (λ j i.
            laws.create_token_account a.collateral_vault.key a.rent_payer.key a.position.key
              a.reserve_collateral_mint.key c₁ c₂ j i e₂)
          guard)

  -- What the guard of the caller has found, on the chain that the request came with.
  pub serve-guard :
      (laws : SysvarLaws rt) (q : Request) (s : Store AdapterState) (c : Chain) (out : Outcome)
      → serve q s c ≡ ok out
      → verify_caller_is_dispatcher rt (sysvar q) dispatcher_id c ≡ ok tt
  unfolding serve sysvar adapter_deposit adapter_withdraw adapter_current_value
  serve-guard laws (initializing a d) s c out h = initialize-guard laws a d s c out h
  serve-guard laws (depositing a n d) s c out h = ground arith
  serve-guard laws (withdrawing a n d) s c out h = ground arith
  serve-guard laws (valuing a d) s c out h = ground arith

  serve-frame :
      (q : Request) (s : Store AdapterState) (c : Chain) (out : Outcome) (k : Pubkey)
      → serve q s c ≡ ok out
      → k ≢ (state_account q).key
      → lookup k out.state ≡ lookup k s
  unfolding serve state_account adapter_initialize adapter_deposit adapter_withdraw
      adapter_current_value
  serve-frame (initializing a d) s c out k h ne =
      let (bump, c₂, v, guard, (st, e)) = initialized a d s c out h in
      rw e (lookup-insert_other k a.adapter_state.key st s ne)
  serve-frame (depositing a n d) s c out k h ne =
      let (entry, minted, w) = deposit-Booked rt a n d s c out h in
      rw w.state (lookup-insert_other k a.adapter_state.key _ s ne)
  serve-frame (withdrawing a n d) s c out k h ne =
      let (entry, left, amount_out, w) = withdraw-Redeemed rt a n d s c out h in
      rw w.state (lookup-insert_other k a.adapter_state.key _ s ne)
  serve-frame (valuing a d) s c out k h ne = ground arith

  -- Where creating accounts leaves the transaction's instructions alone, an instruction of the adapter
  -- that succeeds was reached from the dispatcher: the account that it was passed is the instructions
  -- sysvar, and the instruction that is current there is one of the dispatcher's program. It changes
  -- the state of no account but the one that it was passed.
  pub serve-dispatcher_id :
      (laws : SysvarLaws rt) (q : Request) (s : Store AdapterState) (c : Chain) (out : Outcome)
      → serve q s c ≡ ok out
      → ((idx : ℕ) × (parent : Instruction) × (rt.load_current_index_checked
              rt.instructions_sysvar_id c
            ≡ some idx)
          × (rt.load_instruction_at_checked idx rt.instructions_sysvar_id c ≡ some parent)
          × (parent.program_id ≡ dispatcher_id))
        × ((k : Pubkey) → k ≢ (state_account q).key → lookup k out.state ≡ lookup k s)
  serve-dispatcher_id laws q s c out h =
      let (idx, parent, e, e', p) =
        (verify_caller_is_dispatcher-eq-ok rt (sysvar q) dispatcher_id c).0
          (serve-guard laws q s c out h) in
      let k = serve-sysvar q s c out h in
      (
        (
          idx,
          parent,
          sym (ap (λ j. rt.load_current_index_checked j c) k) ∙ e,
          sym (ap (λ j. rt.load_instruction_at_checked idx j c) k) ∙ e',
          p,
        ),
        λ k ne. serve-frame q s c out k h ne,
      )
