-- ===== src/Adapters/Standard/Conservation.antt =====
-- The count of a position against what was minted there and what was burned.
use solana_yield_adapter_sta.Base.{
  ℕ, ◌+◌, ◌-◌, ◌≤◌, ◌≡◌, refl, sym, ◌∙◌, ap, ◌==◌, ==→eq, Bool, true, false, Bool-cases, inl, inr,
  Option, none, some, List, [], ◌∷◌, Pubkey, Store, lookup, arith,
}
use mathlib.Core.Path.{subst}
use solana_yield_adapter_sta.Runtime.{Runtime}
use solana_yield_adapter_sta.Interface.Wire.{Call, initialize, deposit, withdraw, current_value}
use solana_yield_adapter_sta.Adapters.{Outcome}
use solana_yield_adapter_sta.Adapters.Standard.{Adapter, Effect}
use solana_yield_adapter_sta.Adapters.Standard.Ledger.{
  Ledger, Move, open_at, mint, burn, no_move, update, changed, apply, minted, burned, count, ledger,
  move_of, History, here, next, Effect-apply,
}

-- An equation that a strict program keeps, and of which another says nothing.
abbrev pub Exactly : Bool → ℕ → ℕ → Type 0
Exactly true a b = a ≡ b
Exactly false a b = Unit {0}

-- The count at an address against its moves; exactly so in a program that is strict.
abbrev pub Balanced : Bool → Pubkey → List Move → Option ℕ → Type 0
Balanced strict k ms none = (minted k ms ≡ 0) × (burned k ms ≡ 0)
Balanced strict k ms (some n) =
    (n ≤ minted k ms)
    × (minted k ms ≤ n + burned k ms)
    × Exactly strict (minted k ms) (n + burned k ms)

-- What a move finds in the ledger.
abbrev Allowed : Bool → Move → Ledger → Type 0
Allowed strict (open_at j) f = f j ≡ none
Allowed strict (mint j n) f = (m : ℕ) × (f j ≡ some m)
Allowed strict (burn j n) f = (m : ℕ) × (f j ≡ some m) × (strict ≡ true → n ≤ m)
Allowed strict no_move f = Unit {0}

-- The address that a move is at.
abbrev place : Move → Option Pubkey
place (open_at j) = some j
place (mint j n) = some j
place (burn j n) = some j
place no_move = none

-- A move at one address leaves the balance at another.
other_balance :
    (strict : Bool) (k j n : ℕ) (ms : List Move) (o : Option ℕ)
    → (j == k) ≡ false
    → Balanced strict k ms o
    → Balanced strict k (open_at j ∷ ms) o
      × Balanced strict k (mint j n ∷ ms) o
      × Balanced strict k (burn j n ∷ ms) o
unfolding minted burned
other_balance strict k j n ms none h b = rw h (b, b, b)
other_balance strict k j n ms (some m) h b = rw h (b, b, b)

-- The balance at the address of each move.
own_balance :
    (strict : Bool) (k n m : ℕ) (ms : List Move)
    → (Balanced strict k ms none → Balanced strict k (open_at k ∷ ms) (some 0))
      × (Balanced strict k ms (some m) → Balanced strict k (mint k n ∷ ms) (some (m + n)))
      × ((strict ≡ true → n ≤ m)
          → Balanced strict k ms (some m)
          → Balanced strict k (burn k n ∷ ms) (some (m - n)))
unfolding minted burned
own_balance true k n m ms = (
  λ (p, q). ground arith,
  λ (p, q, r). (ground arith, ground arith, ground arith),
  λ cov (p, q, r). let c = cov refl in (ground arith, ground arith, ground arith),
)
own_balance false k n m ms = (
  λ (p, q). ground arith,
  λ (p, q, r). (ground arith, ground arith, tt),
  λ cov (p, q, r). (ground arith, ground arith, tt),
)

-- What an update reads at its own address and at another.
update_own : (f : Ledger) (k : Pubkey) (w : Option ℕ) → update f k w k ≡ w
unfolding update
update_own f k w = ground arith

update_other : (f : Ledger) (j k : Pubkey) (w : Option ℕ) → (j == k) ≡ false → update f j w k ≡ f k
unfolding update
update_other f j k w h = rw h refl

no_move_balance :
    (strict : Bool) (k : Pubkey) (ms : List Move) (o : Option ℕ)
    → Balanced strict k ms o
    → Balanced strict k (no_move ∷ ms) o
unfolding minted burned
no_move_balance strict k ms none b = b
no_move_balance strict k ms (some n) b = b

-- A move that is allowed keeps the balance at its own address.
abbrev Keeps : Bool → Pubkey → List Move → Ledger → Move → Type 0
Keeps strict k ms f m =
    Allowed strict m f → Balanced strict k ms (f k) → Balanced strict k (m ∷ ms) (apply m f k)

own_Keeps :
    (strict : Bool) (k n : ℕ) (ms : List Move) (f : Ledger)
    → Keeps strict k ms f (open_at k)
      × Keeps strict k ms f (mint k n)
      × Keeps strict k ms f (burn k n)
unfolding apply changed
own_Keeps strict k n ms f = (
  λ e b.
      subst (Balanced strict k (open_at k ∷ ms)) (sym (update_own f k (some 0)))
        ((own_balance strict k n 0 ms).0 (subst (Balanced strict k ms) e b)),
  λ (m, e) b.
      subst (Balanced strict k (mint k n ∷ ms))
        (sym (update_own f k _ ∙ ap (changed (λ m. m + n)) e))
        ((own_balance strict k n m ms).1 (subst (Balanced strict k ms) e b)),
  λ (m, e, cov) b.
      subst (Balanced strict k (burn k n ∷ ms))
        (sym (update_own f k _ ∙ ap (changed (λ m. m - n)) e))
        ((own_balance strict k n m ms).2 cov (subst (Balanced strict k ms) e b)),
)

-- And at every other one.
other_Keeps :
    (strict : Bool) (k j n : ℕ) (ms : List Move) (f : Ledger)
    → (j == k) ≡ false
    → Keeps strict k ms f (open_at j)
      × Keeps strict k ms f (mint j n)
      × Keeps strict k ms f (burn j n)
unfolding apply
other_Keeps strict k j n ms f other = (
  λ al b.
      subst (Balanced strict k (open_at j ∷ ms)) (sym (update_other f j k _ other))
        (other_balance strict k j n ms (f k) other b).0,
  λ al b.
      subst (Balanced strict k (mint j n ∷ ms)) (sym (update_other f j k _ other))
        (other_balance strict k j n ms (f k) other b).1,
  λ al b.
      subst (Balanced strict k (burn j n ∷ ms)) (sym (update_other f j k _ other))
        (other_balance strict k j n ms (f k) other b).2,
)

any_Keeps :
    (strict : Bool) (k j n : ℕ) (ms : List Move) (f : Ledger)
    → Keeps strict k ms f (open_at j)
      × Keeps strict k ms f (mint j n)
      × Keeps strict k ms f (burn j n)
any_Keeps strict k j n ms f = elim (Bool-cases (j == k)) [
  | inl same ↦
      subst
        (λ i.
          Keeps strict k ms f (open_at i)
          × Keeps strict k ms f (mint i n)
          × Keeps strict k ms f (burn i n))
        (sym (==→eq j k same)) (own_Keeps strict k n ms f)
  | inr other ↦ other_Keeps strict k j n ms f other
]

move_Keeps :
    (strict : Bool) (k : Pubkey) (ms : List Move) (f : Ledger) (m : Move) → Keeps strict k ms f m
unfolding apply
move_Keeps strict k ms f no_move = λ al b. no_move_balance strict k ms (f k) b
move_Keeps strict k ms f (open_at j) = (any_Keeps strict k j 0 ms f).0
move_Keeps strict k ms f (mint j n) = (any_Keeps strict k j n ms f).1
move_Keeps strict k ms f (burn j n) = (any_Keeps strict k j n ms f).2

module _ (A : Adapter) where
  count_found :
      (at : Pubkey) (s : Store A.State) (st : A.State)
      → lookup at s ≡ some st
      → ledger A s at ≡ some (A.header st).total_shares
  unfolding ledger count
  count_found at s st e = rw e refl

  count_missing : (at : Pubkey) (s : Store A.State) → lookup at s ≡ none → ledger A s at ≡ none
  unfolding ledger count
  count_missing at s e = rw e refl

  -- The moves that the calls of an adapter make are allowed.
  Effect-Allowed :
      (position at : Pubkey) (m : Call) (s : Store A.State) (out : Outcome A.State)
      → Effect A.header A.id position at A.strict m s out
      → Allowed A.strict (move_of A at m out) (ledger A s)
  unfolding move_of
  Effect-Allowed position at (initialize d) s out e = count_missing at s e.fresh
  Effect-Allowed position at (deposit n d) s out e = (_, count_found at s e.before e.found)
  Effect-Allowed position at (withdraw n d) s out e =
      (_, count_found at s e.before e.found, e.covered)
  Effect-Allowed position at (current_value d) s out e = tt

  module _ (rt : Runtime) where
    -- Over any history of an adapter from no accounts, the share count of an account is at most what
    -- was minted there, and with what was burned there it is at least that; an adapter that is strict
    -- has minted exactly the count and what was burned. An address without an account has had neither.
    pub History-Balanced :
        {t : Store A.State} {ms : List Move} (k : Pubkey)
        → History A rt [] t ms
        → Balanced A.strict k ms (ledger A t k)
    unfolding ledger count lookup minted burned
    History-Balanced k here = (refl, refl)
    History-Balanced k (next {t = t} {ms = ms} {out = out} q c past h) =
        let e = A.effect rt q t c out h in
        let at = (A.state_account q).key in
        let m = move_of A at (A.call q) out in
        subst (λ (f : Ledger). Balanced A.strict k (m ∷ ms) (f k))
          (sym (Effect-apply A rt (A.position q).key at (A.call q) t out e))
          (move_Keeps A.strict k ms (ledger A t) m
            (Effect-Allowed (A.position q).key at (A.call q) t out e) (History-Balanced k past))
