-- ===== src/Base/Stores.antt =====
-- The accounts that a program owns, by their addresses: an association list.
use Prim.Native.Nat.{ℕ, ◌+◌}
use mathlib.Core.Path.{◌≡◌, refl}
use mathlib.Core.Option.{Option, none, some}
use mathlib.Core.List.{List, [], ◌∷◌}
use mathlib.Core.Logic.{◌≢◌}
use native.Mathlib.Omega.{arith}
use solana_yield_adapter_sta.Base.Logic.{◌==◌, if◌then◌else◌}
use solana_yield_adapter_sta.Base.Lists.{length}

-- A `Pubkey` is the number that its 32 bytes spell, the lowest byte first.
abbrev pub Pubkey : Type 0
Pubkey = ℕ

abbrev pub Store {ℓ} : Type ℓ → Type ℓ
Store V = List (Pubkey × V)

module _ {ℓ} {V : Type ℓ} where
  unfoldable pub lookup : Pubkey → Store V → Option V
  lookup k [] = none
  lookup k ((j, v) ∷ m) = if j == k then some v else lookup k m

  unfoldable pub insert : Pubkey → V → Store V → Store V
  insert k v [] = (k, v) ∷ []
  insert k v ((at, old) ∷ rest) = if at == k then (k, v) ∷ rest else (at, old) ∷ insert k v rest

  pub lookup-insert :
      (written read : Pubkey) (v : V) (accounts : Store V)
      → lookup read (insert written v accounts)
        ≡ (if written == read then some v else lookup read accounts)
  unfolding lookup insert
  lookup-insert written read v [] = refl
  lookup-insert written read v ((at, old) ∷ rest) =
      ground (arith, lookup-insert written read v rest)

  pub lookup-insert_self : (k : Pubkey) (v : V) (m : Store V) → lookup k (insert k v m) ≡ some v
  lookup-insert_self k v m = ground (arith, lookup-insert k k v m)

  pub lookup-insert_other :
      (k j : Pubkey) (v : V) (m : Store V) → k ≢ j → lookup k (insert j v m) ≡ lookup k m
  lookup-insert_other k j v m h = ground (arith, lookup-insert j k v m)

  pub length-insert_new :
      (k : Pubkey) (v : V) (m : Store V) → lookup k m ≡ none → length (insert k v m) ≡ length m + 1
  unfolding lookup insert
  length-insert_new k v [] h = omega arith
  length-insert_new k v ((j, w) ∷ m) h = ground (arith, length-insert_new k v m)

  pub length-insert_old :
      (k : Pubkey) (v w : V) (m : Store V) → lookup k m ≡ some w → length (insert k v m) ≡ length m
  unfolding lookup insert
  length-insert_old k v w [] h = ground arith
  length-insert_old k v w ((j, u) ∷ m) h = ground (arith, length-insert_old k v w m)
