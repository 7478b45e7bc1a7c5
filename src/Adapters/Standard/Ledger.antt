-- ===== src/Adapters/Standard/Ledger.antt =====
-- The share counts of an adapter as an abstract ledger, which the accounts of the program implement:
-- each address has a count or none, and a call moves one count.
use solana_yield_adapter_sta.Base.{
  ℕ, ◌+◌, ◌-◌, ◌≡◌, refl, ap, ◌∙◌, ◌==◌, Option, none, some, List, [], ◌∷◌, Pubkey, Store, lookup,
  insert, lookup-insert, ok, if◌then◌else◌, arith,
}
use mathlib.Core.Path.{fun_ext}
use solana_yield_adapter_sta.Runtime.{Runtime, Chain}
use solana_yield_adapter_sta.Interface.{get_u64_return}
use solana_yield_adapter_sta.Interface.Wire.{Call, initialize, deposit, withdraw, current_value}
use solana_yield_adapter_sta.Adapters.{Outcome}
use solana_yield_adapter_sta.Adapters.Standard.{Adapter, Effect}

abbrev pub Ledger : Type 0
Ledger = Pubkey → Option ℕ

pub data Move : Type 0 where
  open_at : Pubkey → Move
  mint burn : Pubkey → ℕ → Move
  no_move : Move

-- A ledger with another entry at one address.
unfoldable pub update : Ledger → Pubkey → Option ℕ → Ledger
update f k w j = if k == j then w else f j

unfoldable pub changed : (ℕ → ℕ) → Option ℕ → Option ℕ
changed f none = none
changed f (some n) = some (f n)

unfoldable pub apply : Move → Ledger → Ledger
unfolding update changed
apply (open_at k) f = update f k (some 0)
apply (mint k n) f = update f k (changed (λ m. m + n) (f k))
apply (burn k n) f = update f k (changed (λ m. m - n) (f k))
apply no_move f = f

-- The moves of a history, the last one first.
unfoldable pub replay : List Move → Ledger → Ledger
replay [] f = f
replay (m ∷ ms) f = apply m (replay ms f)

unfoldable pub count {ℓ} : {S : Type ℓ} → (S → ℕ) → Option S → Option ℕ
count shares none = none
count shares (some st) = some (shares st)

-- What has been minted, and what has been burned, at an address.
unfoldable pub minted : Pubkey → List Move → ℕ
minted k [] = 0
minted k (mint j n ∷ ms) = let rest = minted k ms in if j == k then rest + n else rest
minted k (open_at j ∷ ms) = minted k ms
minted k (burn j n ∷ ms) = minted k ms
minted k (no_move ∷ ms) = minted k ms

unfoldable pub burned : Pubkey → List Move → ℕ
burned k [] = 0
burned k (burn j n ∷ ms) = let rest = burned k ms in if j == k then rest + n else rest
burned k (open_at j ∷ ms) = burned k ms
burned k (mint j n ∷ ms) = burned k ms
burned k (no_move ∷ ms) = burned k ms

-- The count that an update writes, where it is read.
count-insert {ℓ} :
    {S : Type ℓ} (shares : S → ℕ) (k j : Pubkey) (st : S) (s : Store S)
    → count shares (lookup j (insert k st s))
      ≡ (if k == j then some (shares st) else count shares (lookup j s))
unfolding count
count-insert shares k j st s = ground (arith, lookup-insert k j st s)

answer_or_zero : Option ℕ → ℕ
answer_or_zero none = 0
answer_or_zero (some n) = n

module _ (A : Adapter) where
  -- The share count that a state account holds.
  abbrev pub shares_of : A.State → ℕ
  shares_of st = (A.header st).total_shares

  unfoldable pub ledger : Store A.State → Ledger
  ledger s k = count shares_of (lookup k s)

  -- The move that a call has made, which for a deposit is as large as its answer.
  unfoldable pub move_of : Pubkey → Call → Outcome A.State → Move
  unfolding answer_or_zero
  move_of at (initialize d) out = open_at at
  move_of at (deposit n d) out = mint at (answer_or_zero (get_u64_return A.id out.chain))
  move_of at (withdraw n d) out = burn at n
  move_of at (current_value d) out = no_move

  -- Writing a state is an update of the ledger.
  ledger-insert :
      (at : Pubkey) (st : A.State) (s t : Store A.State)
      → t ≡ insert at st s
      → ledger t ≡ update (ledger s) at (some (shares_of st))
  unfolding ledger update
  ledger-insert at st s t e = fun_ext λ j. rw e (count-insert shares_of at j st s)

  entry-changed :
      (f : ℕ → ℕ) (at : Pubkey) (st st' : A.State) (s : Store A.State)
      → lookup at s ≡ some st
      → shares_of st' ≡ f (shares_of st)
      → some (shares_of st') ≡ changed f (ledger s at)
  unfolding ledger changed count
  entry-changed f at st st' s found h = rw (found, h) refl

  -- Changing the count of a state that is there is a change of one entry.
  ledger-changed :
      (f : ℕ → ℕ) (at : Pubkey) (st st' : A.State) (s t : Store A.State)
      → lookup at s ≡ some st
      → t ≡ insert at st' s
      → shares_of st' ≡ f (shares_of st)
      → ledger t ≡ update (ledger s) at (changed f (ledger s at))
  ledger-changed f at st st' s t found e h =
      ledger-insert at st' s t e ∙ ap (update (ledger s) at) (entry-changed f at st st' s found h)

  module _ (rt : Runtime) where
    -- A run of successful requests, on chains that are arbitrary, with the moves they made.
    pub data History (s : Store A.State) : Store A.State → List Move → Type 0 where
      here : History s s []
      next :
          {t : Store A.State} {ms : List Move} {out : Outcome A.State} (q : A.Request) (c : Chain)
          → History s t ms
          → A.serve rt q t c ≡ ok out
          → History s out.state (move_of (A.state_account q).key (A.call q) out ∷ ms)

    -- One effect is one move of the ledger.
    pub Effect-apply :
        (position at : Pubkey) (m : Call) (s : Store A.State) (out : Outcome A.State)
        → Effect A.header A.id position at A.strict m s out
        → ledger out.state ≡ apply (move_of at m out) (ledger s)
    unfolding apply move_of answer_or_zero
    Effect-apply position at (initialize d) s out e =
        ledger-insert at e.after s out.state e.state
        ∙ ap (λ n. update (ledger s) at (some n)) e.empty
    Effect-apply position at (deposit n d) s out e = rw e.answered (
        ledger-changed (λ m. m + e.shares) at e.before e.after s out.state e.found e.state
          (ap (λ h. h.total_shares) e.changed))
    Effect-apply position at (withdraw n d) s out e =
        ledger-changed (λ m. m - n) at e.before e.after s out.state e.found e.state
          (ap (λ h. h.total_shares) e.changed)
    Effect-apply position at (current_value d) s out e = ap ledger e.state

    -- The accounts of an adapter implement the ledger: after any history of its calls, on chains that
    -- change as they will in between, the share counts that its accounts hold are those that the moves
    -- of the history leave, each deposit minting what it was answered with and each withdrawal burning
    -- what it asked for, down to zero.
    pub ledger-replay :
        {s t : Store A.State} {ms : List Move} → History s t ms → ledger t ≡ replay ms (ledger s)
    unfolding replay
    ledger-replay here = refl
    ledger-replay (next {t = t} {ms = ms} {out = out} q c past h) =
        Effect-apply (A.position q).key (A.state_account q).key (A.call q) t out
          (A.effect rt q t c out h)
        ∙ ap (apply (move_of (A.state_account q).key (A.call q) out)) (ledger-replay past)
