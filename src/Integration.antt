-- ===== src/Integration.antt =====
-- The dispatcher together with an adapter: what the CPI of a routed instruction does to the accounts of
-- the adapter. The adapter is any program that keeps the contract.
pub mod Moving
use solana_yield_adapter_sta.Base.{
  ℕ, ◌≡◌, refl, sym, ap, ◌∙◌, Bool, Option, some, none, List, ◌++◌, map, Pubkey, Store, Result, ok,
}
use mathlib.Core.Path.{subst}
use solana_yield_adapter_sta.Runtime.{Runtime, Chain, AccountMeta, AccountInfo, Instruction, Seed}
use solana_yield_adapter_sta.Interface.{AdapterStateHeader, get_u64_return, read_u64_return}
use solana_yield_adapter_sta.Interface.Wire.{Call, decode}
use solana_yield_adapter_sta.Dispatcher
use solana_yield_adapter_sta.Dispatcher.Routing.{meta_of}
use solana_yield_adapter_sta.Dispatcher.Routing.Laws.{Routes}
use solana_yield_adapter_sta.Adapters.{Outcome}
use solana_yield_adapter_sta.Adapters.Standard.{Adapter, Effect, account_at, state_index}

-- The account that a callee is handed for a meta.
unfoldable pub info_of : AccountMeta → AccountInfo
info_of m = record { key = m.pubkey; is_signer = m.is_signer; is_writable = m.is_writable }

-- `stored` reads the accounts of the adapter off a chain, and `rt'` is the runtime as the adapter sees
-- it from within a call of the dispatcher.
module _ (A : Adapter) (rt rt' : Runtime) (stored : Chain → Store A.State) where
  -- A CPI to the adapter that succeeds has run the entrypoint that its data names, on the accounts of
  -- its metas, with no return data set; the adapter's accounts and its answer are then on the chain.
  pub record Runs (ix : Instruction) (c c' : Chain) : Type 0 where
    pub call : Call
    pub request : A.Request
    pub out : Outcome A.State
    pub read_as : decode ix.input ≡ some call
    pub taken : A.parse call (map info_of ix.accounts) ≡ ok request
    pub served : A.serve rt' request (stored c) (record c { return_data = none }) ≡ ok out
    pub written : stored c' ≡ out.state
    pub returned : c'.return_data ≡ out.chain.return_data

  pub record CpiLaws : Type 0 where
    pub runs :
        (ix : Instruction) (infos : List AccountInfo) (seeds : List (List Seed)) (c c' : Chain)
        → rt.invoke_signed Dispatcher.id ix infos seeds c ≡ some c'
        → ix.program_id ≡ A.id
        → Runs ix c c'

  -- What a routed call has done to the adapter.
  pub record Done (call : Call) (position at : Pubkey) (c c' : Chain) : Type 0 where
    pub out : Outcome A.State
    pub effect : Effect A.header A.id position at A.strict call (stored c) out
    pub written : stored c' ≡ out.state
    pub answer : get_u64_return A.id c' ≡ get_u64_return A.id out.chain

  same_answer :
      (c c' : Chain)
      → c'.return_data ≡ c.return_data
      → get_u64_return A.id c' ≡ get_u64_return A.id c
  unfolding get_u64_return
  same_answer c c' e = ap (read_u64_return A.id) e

  -- A routed call is the call that the adapter runs, on the state account and the position that the
  -- prefix has at their places.
  pub routed-Done :
      (laws : CpiLaws) (call : Call) (program : AccountInfo) (prefix : List AccountMeta)
      (remaining infos : List AccountInfo) (ix : Instruction) (seeds : List (List Seed))
      (c c' : Chain) (position state : AccountInfo)
      → program.key ≡ A.id
      → Routes call program prefix remaining ix
      → rt.invoke_signed Dispatcher.id ix infos seeds c ≡ some c'
      → account_at 1 (map info_of (prefix ++ map meta_of remaining)) ≡ ok position
      → account_at (state_index call) (map info_of (prefix ++ map meta_of remaining)) ≡ ok state
      → Done call position.key state.key c c'
  routed-Done laws call program prefix remaining infos ix seeds c c' position state here routes made
        pos st =
      let r = laws.runs ix infos seeds c c' made (routes.callee ∙ here) in
      let same : r.call ≡ call = (let read = routes.read_as in let own = r.read_as in cc) in
      let taken : A.parse call (map info_of (prefix ++ map meta_of remaining)) ≡ ok r.request =
        ap (λ l. A.parse call (map info_of l)) (sym routes.metas)
        ∙ ap (λ m. A.parse m (map info_of ix.accounts)) (sym same)
        ∙ r.taken in
      let (call_is, _, position_is, state_is) =
        A.parsed call (map info_of (prefix ++ map meta_of remaining)) r.request taken in
      let at_position : (A.position r.request).key ≡ position.key = cc in
      let at_state : (A.state_account r.request).key ≡ state.key = cc in
      let effect =
        A.effect rt' r.request (stored c) (record c { return_data = none }) r.out r.served in
      record {
        out = r.out;
        effect = rw at_state at (rw at_position at (rw call_is at effect));
        written = r.written;
        answer = same_answer r.out.chain c' r.returned;
      }
