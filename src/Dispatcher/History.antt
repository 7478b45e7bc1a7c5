-- ===== src/Dispatcher/History.antt =====
-- What no entrypoint undoes: accounts are never removed, and only some of their fields ever change.
use solana_yield_adapter_sta.Base.{
  ℕ, ◌+◌, ◌≤◌, ◌≡◌, ◌==◌, sym, Bool, not, none, some, List, Pubkey, lookup, insert, lookup-insert,
  ok, Bool-cases, inl, inr, arith, ==→eq,
}
use mathlib.Core.Path.{subst}
use solana_yield_adapter_sta.Runtime.{Runtime, Chain}
use solana_yield_adapter_sta.Dispatcher.{Registry, AdapterEntry, Position, State, Outcome}
use solana_yield_adapter_sta.Dispatcher.Governance.Laws.{
  initialize_registry-Initialized, whitelist_adapter-Whitelisted, pause_adapter-Paused,
}
use solana_yield_adapter_sta.Dispatcher.Funds.Deposits.{deposit-Deposited}
use solana_yield_adapter_sta.Dispatcher.Funds.Withdrawals.{withdraw-Withdrawn}
use solana_yield_adapter_sta.Dispatcher.Funds.Readings.{current_value-ValueRead}
use solana_yield_adapter_sta.Dispatcher.Funds.Openings.{open_position-Opened}
use solana_yield_adapter_sta.Dispatcher.Invariant.{
  Entrypoint, initialize_registry, whitelist_adapter, pause_adapter, open_position, deposit,
  withdraw, current_value, execute, Reach, here, next,
}

-- A registry keeps its admin and its bump, and its count does not fall; an entry changes in nothing
-- but `is_active`; a position does not change.
pub record Grows (s t : State) : Type 0 where
  pub registries :
      (k : Pubkey) (r : Registry)
      → lookup k s.registries ≡ some r
      → (n : ℕ) × (lookup k t.registries ≡ some (record r { adapter_count = n }))
        × (r.adapter_count ≤ n)
  pub entries :
      (k : Pubkey) (e : AdapterEntry)
      → lookup k s.entries ≡ some e
      → (active : Bool) × (lookup k t.entries ≡ some (record e { is_active = active }))
  pub positions :
      (k : Pubkey) (p : Position) → lookup k s.positions ≡ some p → lookup k t.positions ≡ some p

Grows-refl : (s : State) → Grows s s
Grows-refl s = record {
  registries = λ k r h. (r.adapter_count, h, omega arith);
  entries = λ k e h. (e.is_active, h);
  positions = λ k p h. h;
}

Grows-trans : {s t u : State} → Grows s t → Grows t u → Grows s u
Grows-trans g g' = record {
  registries = λ k r h.
      let (n, h', le) = g.registries k r h in
      let (n', h'', le') = g'.registries k (record r { adapter_count = n }) h' in
      (n', h'', omega arith);
  entries = λ k e h. let (b, h') = g.entries k e h in g'.entries k (record e { is_active = b }) h';
  positions = λ k p h. g'.positions k p (g.positions k p h);
}

-- Writing at a fresh address leaves every account that was there.
lookup-insert_fresh {ℓ} :
    {V : Type ℓ} (k j : Pubkey) (v w : V) (m : List (Pubkey × V))
    → lookup k m ≡ none
    → lookup j m ≡ some w
    → lookup j (insert k v m) ≡ some w
lookup-insert_fresh k j v w m fresh h = ground (arith, lookup-insert k j v m)

counted :
    (k : Pubkey) (x r : Registry) (j : Pubkey) (m : List (Pubkey × Registry))
    → lookup j m ≡ some r
    → lookup k m ≡ some x
    → (n : ℕ) × (lookup k (insert j (record r { adapter_count = r.adapter_count + 1 }) m)
        ≡ some (record x { adapter_count = n }))
      × (x.adapter_count ≤ n)
counted k x r j m hr hx =
    let law = lookup-insert j k (record r { adapter_count = r.adapter_count + 1 }) m in
    elim (Bool-cases (j == k)) [
      | inl hit ↦ (r.adapter_count + 1, ground (arith, law), ground (arith, ==→eq j k hit))
      | inr miss ↦ (x.adapter_count, ground (arith, law), omega arith)
    ]

toggled :
    (k : Pubkey) (x entry : AdapterEntry) (b : Bool) (j : Pubkey) (m : List (Pubkey × AdapterEntry))
    → lookup j m ≡ some entry
    → lookup k m ≡ some x
    → (active : Bool) × (lookup k (insert j (record entry { is_active = b }) m)
        ≡ some (record x { is_active = active }))
toggled k x entry b j m he hx =
    let law = lookup-insert j k (record entry { is_active = b }) m in
    elim (Bool-cases (j == k)) [
      | inl hit ↦ (b, ground (arith, law, ==→eq j k hit))
      | inr miss ↦ (x.is_active, ground (arith, law))
    ]

module _ (rt : Runtime) where
  execute-Grows :
      (e : Entrypoint) (s : State) (c : Chain) (out : Outcome)
      → execute rt e s c ≡ ok out
      → Grows s out.state
  unfolding execute
  execute-Grows (initialize_registry a) s c out h =
      let (bump, i) = initialize_registry-Initialized rt a s c out h in
      subst (Grows s) (sym i.state) (record {
        registries = λ k r hk. (
          r.adapter_count,
          lookup-insert_fresh a.registry.key k _ r s.registries i.fresh hk,
          omega arith,
        );
        entries = λ k x hk. (x.is_active, hk);
        positions = λ k p hk. hk;
      })
  execute-Grows (whitelist_adapter a name version) s c out h =
      let (r, bump, w) = whitelist_adapter-Whitelisted rt a name version s c out h in
      subst (Grows s) (sym w.state) (record {
        registries = λ k x hk. counted k x r a.registry.key s.registries w.by_admin.registry_at hk;
        entries = λ k x hk.
            (x.is_active, lookup-insert_fresh a.adapter_entry.key k _ x s.entries w.fresh hk);
        positions = λ k p hk. hk;
      })
  execute-Grows (pause_adapter a paused) s c out h =
      let (r, entry, p) = pause_adapter-Paused rt a paused s c out h in
      subst (Grows s) (sym p.state) (record {
        registries = λ k x hk. (x.adapter_count, hk, omega arith);
        entries =
            λ k x hk. toggled k x entry (not paused) a.adapter_entry.key s.entries p.entry_at hk;
        positions = λ k q hk. hk;
      })
  execute-Grows (open_position a) s c out h =
      let (entry, bump, created, o) = open_position-Opened rt a s c out h in
      subst (Grows s) (sym o.state) (record {
        registries = λ k x hk. (x.adapter_count, hk, omega arith);
        entries = λ k x hk. (x.is_active, hk);
        positions = λ k p hk. lookup-insert_fresh a.position.key k _ p s.positions o.gate.fresh hk;
      })
  execute-Grows (deposit a amount) s c out h =
      let (entry, p, shares, paid, d) = deposit-Deposited rt a amount s c out h in
      subst (Grows s) (sym d.state) (Grows-refl s)
  execute-Grows (withdraw a shares) s c out h =
      let (entry, p, amount, redeemed, w) = withdraw-Withdrawn rt a shares s c out h in
      subst (Grows s) (sym w.state) (Grows-refl s)
  execute-Grows (current_value a) s c out h =
      let (entry, p, value, priced, r) = current_value-ValueRead rt a s c out h in
      subst (Grows s) (sym r.state) (Grows-refl s)

  -- Over any history of successful entrypoints no account of the dispatcher is removed: a registry
  -- keeps its admin and its bump and its count does not fall, an entry changes in nothing but
  -- `is_active`, and a position does not change.
  pub Reach-Grows : {s t : State} → Reach rt s t → Grows s t
  Reach-Grows {s} here = Grows-refl s
  Reach-Grows (next {t} {out} e c r h) = Grows-trans (Reach-Grows r) (execute-Grows e t c out h)
