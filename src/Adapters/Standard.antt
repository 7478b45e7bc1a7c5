-- ===== src/Adapters/Standard.antt =====
-- The contract of an adapter, as docs/SPEC.md states it for every program behind the dispatcher: its
-- four instructions, the order of the accounts that the dispatcher passes, whom it serves, and what
-- each call does to the share count of a position. An `Adapter` is a program together with the proofs
-- that it keeps the contract; the clients of the contract take it as a parameter.
pub mod Ledger
pub mod Accepting
pub mod Conservation
pub mod Keeping
use solana_yield_adapter_sta.Base.{
  ℕ, zero, suc, ◌+◌, ◌-◌, ◌≤◌, ◌<◌, ◌≡◌, ◌^◌, Bool, true, Option, none, some, List, [], ◌∷◌, drop,
  Pubkey, Store, lookup, insert, Result, ok, err, of_framework, account_not_enough_keys,
}
use solana_yield_adapter_sta.Runtime.{Runtime, Chain, AccountInfo}
use solana_yield_adapter_sta.Interface.{
  AdapterStateHeader, dispatcher_id, set_u64_return, get_u64_return, verify_caller_is_dispatcher,
}
use solana_yield_adapter_sta.Interface.Wire.{Call, initialize, deposit, withdraw, current_value}
use solana_yield_adapter_sta.Adapters.{
  Outcome, Request, initializing, depositing, withdrawing, valuing, adapter_deposit_event,
  adapter_withdraw_event, adapter_value_event,
}
use solana_yield_adapter_sta.Adapters.Guard.{SysvarLaws}

-- The account at an index of those that an instruction was given.
unfoldable pub account_at : ℕ → List AccountInfo → Result AccountInfo
account_at i [] = err (of_framework account_not_enough_keys)
account_at zero (a ∷ infos) = ok a
account_at (suc i) (a ∷ infos) = account_at i infos

-- The call of the standard that a request makes.
unfoldable pub call_of : {I D W V : Type 0} → Request I D W V → Call
call_of (initializing a d) = initialize d
call_of (depositing a n d) = deposit n d
call_of (withdrawing a n d) = withdraw n d
call_of (valuing a d) = current_value d

-- Where the standard has the account of the adapter state: behind the sysvar and the position, and
-- behind the pool too in the calls that move funds.
unfoldable pub state_index : Call → ℕ
state_index (initialize d) = 2
state_index (deposit n d) = 3
state_index (withdraw n d) = 3
state_index (current_value d) = 2

-- What each call does: to the accounts of the program, and what it answers. `strict` says of a
-- program that it refuses to burn more shares than there are.
module _ {S : Type 0} (header : S → AdapterStateHeader) (id position at : Pubkey)
    (strict : Bool) where
  pub record Opened (s : Store S) (out : Outcome S) : Type 0 where
    pub after : S
    pub fresh : lookup at s ≡ none
    pub state : out.state ≡ insert at after s
    pub empty : (header after).total_shares ≡ 0
    pub owned : (header after).position ≡ position
    pub program : (header after).adapter_program ≡ id

  pub record Minted (amount : ℕ) (s : Store S) (out : Outcome S) : Type 0 where
    pub before : S
    pub after : S
    pub shares : ℕ
    pub found : lookup at s ≡ some before
    pub owned : (header before).position ≡ position
    pub state : out.state ≡ insert at after s
    pub changed :
        header after
        ≡ record (header before) { total_shares = (header before).total_shares + shares }
    pub positive : 0 < amount
    pub fits : (header before).total_shares + shares < 2 ^ 64
    pub answered : get_u64_return id out.chain ≡ some shares
    pub event : out.event ≡ some (adapter_deposit_event position amount shares)

  pub record Burned (shares : ℕ) (s : Store S) (out : Outcome S) : Type 0 where
    pub before : S
    pub after : S
    pub amount_out : ℕ
    pub chain : Chain
    pub found : lookup at s ≡ some before
    pub owned : (header before).position ≡ position
    pub state : out.state ≡ insert at after s
    pub changed :
        header after
        ≡ record (header before) { total_shares = (header before).total_shares - shares }
    pub positive : 0 < shares
    pub covered : strict ≡ true → shares ≤ (header before).total_shares
    pub answered : out.chain ≡ set_u64_return id amount_out chain
    pub event : out.event ≡ some (adapter_withdraw_event position shares amount_out)

  pub record Read (s : Store S) (out : Outcome S) : Type 0 where
    pub value : ℕ
    pub slot : ℕ
    pub state : out.state ≡ s
    pub answered : get_u64_return id out.chain ≡ some value
    pub event : out.event ≡ some (adapter_value_event position value slot)

  abbrev pub Effect : Call → Store S → Outcome S → Type 0
  Effect (initialize d) s out = Opened s out
  Effect (deposit n d) s out = Minted n s out
  Effect (withdraw n d) s out = Burned n s out
  Effect (current_value d) s out = Read s out

pub record Adapter : Type 1 where
  pub State : Type 0
  pub Request : Type 0
  pub id : Pubkey
  pub strict : Bool
  pub header : State → AdapterStateHeader
  pub call : Request → Call
  pub sysvar : Request → AccountInfo
  pub position : Request → AccountInfo
  pub state_account : Request → AccountInfo
  -- the request that a call makes with the accounts of an instruction, in the order of the struct
  pub parse : Call → List AccountInfo → Result Request
  pub serve : Runtime → Request → Store State → Chain → Result (Outcome State)
  pub parsed :
      (m : Call) (infos : List AccountInfo) (q : Request)
      → parse m infos ≡ ok q
      → (call q ≡ m)
        × (account_at 0 infos ≡ ok (sysvar q))
        × (account_at 1 infos ≡ ok (position q))
        × (account_at (state_index m) infos ≡ ok (state_account q))
  pub guarded :
      (rt : Runtime) (laws : SysvarLaws rt) (q : Request) (s : Store State) (c : Chain)
      (out : Outcome State)
      → serve rt q s c ≡ ok out
      → ((sysvar q).key ≡ rt.instructions_sysvar_id)
        × (verify_caller_is_dispatcher rt (sysvar q) dispatcher_id c ≡ ok tt)
  pub effect :
      (rt : Runtime) (q : Request) (s : Store State) (c : Chain) (out : Outcome State)
      → serve rt q s c ≡ ok out
      → Effect header id (position q).key (state_account q).key strict (call q) s out
