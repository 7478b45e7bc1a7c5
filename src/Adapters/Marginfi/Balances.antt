-- ===== src/Adapters/Marginfi/Balances.antt =====
-- Which of the sixteen balances of a MarginFi account the reading of its asset shares finds.
use solana_yield_adapter_sta.Base.{
  ℕ, zero, suc, ◌+◌, ◌*◌, ◌≤◌, ◌<◌, ◌≡◌, inl, inr, ◌==◌, List, [], ◌∷◌, length, take, drop, some,
  Pubkey, from_le_bytes, ok, pos, arith, refl, ◌∙◌, Bool-cases, ==→eq, sym, ap,
}
use mathlib.Core.Path.{subst}
use solana_yield_adapter_sta.Adapters.{slice}
use solana_yield_adapter_sta.Adapters.Marginfi.Bank.{
  byte_at, read_i128, asset_shares_from, account_asset_shares,
}

-- The balance at an index is in use and belongs to the bank.
pub record Holds (acct_data : List ℕ) (bank : Pubkey) (i : ℕ) : Type 0 where
  pub active : ℕ
  pub in_use : (byte_at acct_data (72 + i * 104) ≡ some active) × (0 < active)
  pub of_bank : from_le_bytes (take 32 (drop (72 + i * 104 + 1) acct_data)) ≡ bank

byte_at-some : (xs : List ℕ) (i : ℕ) → i < length xs → (b : ℕ) × (byte_at xs i ≡ some b)
unfolding byte_at
byte_at-some [] i h = absurd (omega arith)
byte_at-some (x ∷ xs) zero h = (x, refl)
byte_at-some (x ∷ xs) (suc i) h = byte_at-some xs i (omega arith)

-- One step of the loop.
step-Holds :
    (acct_data : List ℕ) (bank : Pubkey) (n i : ℕ)
    → 72 + i * 104 + 104 ≤ length acct_data
    → Holds acct_data bank i
    → asset_shares_from acct_data bank (suc n) i ≡ read_i128 acct_data (72 + i * 104 + 40)
unfolding asset_shares_from slice
step-Holds acct_data bank n i long h = let (e, p) = h.in_use in let q = h.of_bank in ground arith

step-skip :
    (acct_data : List ℕ) (bank : Pubkey) (n i : ℕ)
    → 72 + i * 104 + 104 ≤ length acct_data
    → ¬ Holds acct_data bank i
    → asset_shares_from acct_data bank (suc n) i ≡ asset_shares_from acct_data bank n (i + 1)
unfolding asset_shares_from slice
step-skip acct_data bank n i long other =
    let (b, e) = byte_at-some acct_data (72 + i * 104) (omega arith) in
    let pk = from_le_bytes (take 32 (drop (72 + i * 104 + 1) acct_data)) in
    elim (Bool-cases (b == 0)) [
      | inl z ↦ ground arith
      | inr z ↦ elim (Bool-cases (pk == bank)) [
        | inl w ↦
            absurd
              (other (record { active = b; in_use = (e, ground arith); of_bank = ==→eq pk bank w }))
        | inr w ↦ ground arith
      ]
    ]

-- The first balance that holds, among those that are left.
from-Holds :
    (acct_data : List ℕ) (bank : Pubkey) (n i d j : ℕ)
    → 72 + (i + n) * 104 ≤ length acct_data
    → d < n
    → i + d ≡ j
    → Holds acct_data bank j
    → ((k : ℕ) → i ≤ k → k < j → ¬ Holds acct_data bank k)
    → asset_shares_from acct_data bank n i ≡ read_i128 acct_data (72 + j * 104 + 40)
from-Holds acct_data bank zero i d j long lt e h before = absurd (omega arith)
from-Holds acct_data bank (suc n) i zero j long lt e h before =
    let same : i ≡ j = omega arith in
    step-Holds acct_data bank n i (omega arith) (subst (Holds acct_data bank) (sym same) h)
    ∙ ap (λ k. read_i128 acct_data (72 + k * 104 + 40)) same
from-Holds acct_data bank (suc n) i (suc d) j long lt e h before =
    step-skip acct_data bank n i (omega arith) (before i (omega arith) (omega arith))
    ∙ from-Holds acct_data bank n (i + 1) d j (omega arith) (omega arith) (omega arith) h
        (λ k le lt'. before k (omega arith) lt')

from-none :
    (acct_data : List ℕ) (bank : Pubkey) (n i : ℕ)
    → 72 + (i + n) * 104 ≤ length acct_data
    → ((k : ℕ) → k < i + n → ¬ Holds acct_data bank k)
    → asset_shares_from acct_data bank n i ≡ ok (pos 0)
unfolding asset_shares_from
from-none acct_data bank zero i long others = refl
from-none acct_data bank (suc n) i long others =
    step-skip acct_data bank n i (omega arith) (others i (omega arith))
    ∙ from-none acct_data bank n (i + 1) (omega arith) (λ k lt. others k (omega arith))

-- In an account of at least 72 + 16 * 104 bytes, the asset shares that are read are those of the
-- first of the sixteen balances that is in use for the bank, and zero where there is none.
pub account_asset_shares-first :
    (acct_data : List ℕ) (bank : Pubkey)
    → 1736 ≤ length acct_data
    → ((i : ℕ)
        → i < 16
        → Holds acct_data bank i
        → ((k : ℕ) → k < i → ¬ Holds acct_data bank k)
        → account_asset_shares acct_data bank ≡ read_i128 acct_data (72 + i * 104 + 40))
      × (((k : ℕ) → k < 16 → ¬ Holds acct_data bank k)
          → account_asset_shares acct_data bank ≡ ok (pos 0))
unfolding account_asset_shares
account_asset_shares-first acct_data bank long = (
  λ i lt h before.
      from-Holds acct_data bank 16 0 i i (omega arith) lt (omega arith) h
        (λ k le lt'. before k lt'),
  λ others. from-none acct_data bank 16 0 (omega arith) others,
)
