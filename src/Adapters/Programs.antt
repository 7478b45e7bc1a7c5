-- ===== src/Adapters/Programs.antt =====
-- The five adapters of the repository, and what the contract gives for each of them.
use solana_yield_adapter_sta.Base.{some, ◌≡◌, ◌≢◌, List, [], Pubkey, Store, lookup, ok}
use solana_yield_adapter_sta.Runtime.{Runtime, Chain}
use solana_yield_adapter_sta.Adapters.{Outcome}
use solana_yield_adapter_sta.Adapters.Guard.{SysvarLaws}
use solana_yield_adapter_sta.Adapters.Standard.{Adapter}
use solana_yield_adapter_sta.Adapters.Standard.Accepting.{
  FromDispatcher, serve-FromDispatcher, serve-frame,
}
use solana_yield_adapter_sta.Adapters.Standard.Ledger.{Move, History, ledger, replay, ledger-replay}
use solana_yield_adapter_sta.Adapters.Standard.Conservation.{Balanced, History-Balanced}
use solana_yield_adapter_sta.Adapters.Standard.Keeping.{Kept, History-Kept}
use solana_yield_adapter_sta.Adapters.Kamino.Program as Kamino
use solana_yield_adapter_sta.Adapters.Marginfi.Program as Marginfi
use solana_yield_adapter_sta.Adapters.Maple.Program as Maple
use solana_yield_adapter_sta.Adapters.Drift.Program as Drift
use solana_yield_adapter_sta.Adapters.Jupiter.Program as Jupiter

pub data Program : Type 0 where
  kamino_usdc marginfi_usdc maple_syrup drift_if jupiter_lp : Program

abbrev pub adapter_of : Program → Adapter
adapter_of kamino_usdc = Kamino.adapter
adapter_of marginfi_usdc = Marginfi.adapter
adapter_of maple_syrup = Maple.adapter
adapter_of drift_if = Drift.adapter
adapter_of jupiter_lp = Jupiter.adapter

-- In each of the five adapters, where creating accounts leaves the transaction's instructions alone:
-- an instruction that succeeds runs under a top-level instruction of the dispatcher's program, by the
-- instructions sysvar.
pub programs-FromDispatcher :
    (p : Program) (rt : Runtime)
    → SysvarLaws rt
    → (q : (adapter_of p).Request) (s : Store (adapter_of p).State) (c : Chain)
      (out : Outcome (adapter_of p).State)
    → (adapter_of p).serve rt q s c ≡ ok out
    → FromDispatcher rt c
programs-FromDispatcher p rt laws q s c out h =
    serve-FromDispatcher (adapter_of p) rt laws q s c out h

-- In each of the five adapters, an instruction that succeeds leaves every state account as it was but
-- the one that it was passed.
pub programs-frame :
    (p : Program) (rt : Runtime) (q : (adapter_of p).Request) (s : Store (adapter_of p).State)
    (c : Chain) (out : Outcome (adapter_of p).State) (k : Pubkey)
    → (adapter_of p).serve rt q s c ≡ ok out
    → k ≢ ((adapter_of p).state_account q).key
    → lookup k out.state ≡ lookup k s
programs-frame p rt q s c out k h other = serve-frame (adapter_of p) rt q s c out k h other

-- Each of the five adapters implements the ledger of share counts: after any history of its calls, on
-- chains that change as they will in between, the counts in its accounts are those that the moves of
-- the history leave, each deposit minting what it answered and each withdrawal burning what it was
-- asked for, down to zero.
pub programs-replay :
    (p : Program) (rt : Runtime) {s t : Store (adapter_of p).State} {ms : List Move}
    → History (adapter_of p) rt s t ms
    → ledger (adapter_of p) t ≡ replay ms (ledger (adapter_of p) s)
programs-replay p rt = ledger-replay (adapter_of p) rt

-- In each of the five adapters, over any history from no accounts: the share count of an account is at
-- most what was minted there, and with what was burned it is at least that; outside MarginFi, what was
-- minted is exactly the count and what was burned. Nothing moves where there is no account.
pub programs-Balanced :
    (p : Program) (rt : Runtime) {t : Store (adapter_of p).State} {ms : List Move} (k : Pubkey)
    → History (adapter_of p) rt [] t ms
    → Balanced (adapter_of p).strict k ms (ledger (adapter_of p) t k)
programs-Balanced p rt k = History-Balanced (adapter_of p) rt k

-- In each of the five adapters, over any history, a state account that is there stays, and its header
-- changes in the share count alone.
pub programs-Kept :
    (p : Program) (rt : Runtime) {s t : Store (adapter_of p).State} {ms : List Move} (k : Pubkey)
    (st : (adapter_of p).State)
    → History (adapter_of p) rt s t ms
    → lookup k s ≡ some st
    → Kept (adapter_of p).header k st t
programs-Kept p rt k st past e = History-Kept (adapter_of p) rt k st past e
