-- ===== src/Adapters/Standard/Accepting.antt =====
-- Whom an adapter serves, and which accounts of its own it touches.
use solana_yield_adapter_sta.Base.{
  ℕ, Bool, ◌≡◌, ◌≢◌, sym, ap, ◌∙◌, some, Pubkey, Store, lookup, lookup-insert_other, ok,
}
use solana_yield_adapter_sta.Runtime.{Runtime, Chain, AccountInfo, Instruction}
use solana_yield_adapter_sta.Interface.{
  AdapterStateHeader, dispatcher_id, verify_caller_is_dispatcher,
}
use solana_yield_adapter_sta.Interface.Wire.{
  Call, initialize, deposit, withdraw, current_value, verify_caller_is_dispatcher-eq-ok,
}
use solana_yield_adapter_sta.Adapters.{Outcome}
use solana_yield_adapter_sta.Adapters.Guard.{SysvarLaws}
use solana_yield_adapter_sta.Adapters.Standard.{Adapter, Effect}

-- The top-level instruction that runs is one of the dispatcher's program, by the instructions sysvar.
abbrev pub FromDispatcher : Runtime → Chain → Type 0
FromDispatcher rt c =
    (idx : ℕ) × (parent : Instruction) × (rt.load_current_index_checked rt.instructions_sysvar_id c
      ≡ some idx)
    × (rt.load_instruction_at_checked idx rt.instructions_sysvar_id c ≡ some parent)
    × (parent.program_id ≡ dispatcher_id)

guard-FromDispatcher :
    (rt : Runtime) (sysvar : AccountInfo) (c : Chain)
    → sysvar.key ≡ rt.instructions_sysvar_id
    → verify_caller_is_dispatcher rt sysvar dispatcher_id c ≡ ok tt
    → FromDispatcher rt c
guard-FromDispatcher rt sysvar c k h =
    let (idx, parent, e, e', p) =
      (verify_caller_is_dispatcher-eq-ok rt sysvar dispatcher_id c).0 h in
    (
      idx,
      parent,
      sym (ap (λ j. rt.load_current_index_checked j c) k) ∙ e,
      sym (ap (λ j. rt.load_instruction_at_checked idx j c) k) ∙ e',
      p,
    )

-- An effect is on one account.
pub Effect-frame :
    {S : Type 0} (header : S → AdapterStateHeader) (id position at k : Pubkey) (strict : Bool)
    (m : Call) (s : Store S) (out : Outcome S)
    → Effect header id position at strict m s out
    → k ≢ at
    → lookup k out.state ≡ lookup k s
Effect-frame header id position at k strict (initialize d) s out e ne =
    rw e.state (lookup-insert_other k at e.after s ne)
Effect-frame header id position at k strict (deposit n d) s out e ne =
    rw e.state (lookup-insert_other k at e.after s ne)
Effect-frame header id position at k strict (withdraw n d) s out e ne =
    rw e.state (lookup-insert_other k at e.after s ne)
Effect-frame header id position at k strict (current_value d) s out e ne = ap (lookup k) e.state

module _ (A : Adapter) (rt : Runtime) where
  pub serve-FromDispatcher :
      (laws : SysvarLaws rt) (q : A.Request) (s : Store A.State) (c : Chain) (out : Outcome A.State)
      → A.serve rt q s c ≡ ok out
      → FromDispatcher rt c
  serve-FromDispatcher laws q s c out h =
      let (k, g) = A.guarded rt laws q s c out h in guard-FromDispatcher rt (A.sysvar q) c k g

  pub serve-frame :
      (q : A.Request) (s : Store A.State) (c : Chain) (out : Outcome A.State) (k : Pubkey)
      → A.serve rt q s c ≡ ok out
      → k ≢ (A.state_account q).key
      → lookup k out.state ≡ lookup k s
  serve-frame q s c out k h other =
      Effect-frame A.header A.id (A.position q).key (A.state_account q).key k A.strict (A.call q) s
        out (A.effect rt q s c out h) other
