-- ===== src/Adapters/Standard/Keeping.antt =====
-- What no call undoes: a state account stays, and its header changes in the share count alone.
use solana_yield_adapter_sta.Base.{
  ℕ, ◌≡◌, refl, sym, ap, ◌∙◌, ◌==◌, ==→eq, Bool, Bool-cases, inl, inr, some, none, List, Pubkey,
  Store, lookup, insert, lookup-insert_self, arith,
}
use solana_yield_adapter_sta.Runtime.{Runtime}
use solana_yield_adapter_sta.Interface.{AdapterStateHeader}
use solana_yield_adapter_sta.Interface.Wire.{Call, initialize, deposit, withdraw, current_value}
use solana_yield_adapter_sta.Adapters.{Outcome}
use solana_yield_adapter_sta.Adapters.Standard.{Adapter, Effect}
use solana_yield_adapter_sta.Adapters.Standard.Accepting.{Effect-frame}
use solana_yield_adapter_sta.Adapters.Standard.Ledger.{Move, History, here, next}

some_inj {ℓ} : {A : Type ℓ} {x y : A} → some x ≡ some y → x ≡ y
some_inj h = cc

no_account {ℓ} :
    {S : Type ℓ} {st : S} (at k : Pubkey) (s : Store S)
    → at ≡ k
    → lookup at s ≡ none
    → lookup k s ≡ some st
    → ⊥
no_account at k s same f e = cc

module _ {S : Type 0} (header : S → AdapterStateHeader) where
  -- The account is still there, with the same header but for the count.
  abbrev pub Kept : Pubkey → S → Store S → Type 0
  Kept k st t =
      (st' : S) × (n : ℕ) × (lookup k t ≡ some st')
      × (header st' ≡ record (header st) { total_shares = n })

  -- A change of the count at an address keeps the account there.
  changed-Kept :
      (at k : Pubkey) (st before after : S) (n : ℕ) (s t : Store S)
      → at ≡ k
      → lookup at s ≡ some before
      → lookup k s ≡ some st
      → t ≡ insert at after s
      → header after ≡ record (header before) { total_shares = n }
      → Kept k st t
  changed-Kept at k st before after n s t same found e state changed =
      let b : before ≡ st = some_inj (sym found ∙ (ap (λ i. lookup i s) same ∙ e)) in
      (
        after,
        n,
        (ap (λ i. lookup i t) (sym same) ∙ ap (lookup at) state) ∙ lookup-insert_self at after s,
        changed ∙ ap (λ x. record (header x) { total_shares = n }) b,
      )

  own-Kept :
      (id position at k : Pubkey) (strict : Bool) (m : Call) (st : S) (s : Store S)
      (out : Outcome S)
      → Effect header id position at strict m s out
      → at ≡ k
      → lookup k s ≡ some st
      → Kept k st out.state
  own-Kept id position at k strict (initialize d) st s out eff same e =
      absurd (no_account at k s same eff.fresh e)
  own-Kept id position at k strict (deposit n d) st s out eff same e =
      changed-Kept at k st eff.before eff.after _ s out.state same eff.found e eff.state eff.changed
  own-Kept id position at k strict (withdraw n d) st s out eff same e =
      changed-Kept at k st eff.before eff.after _ s out.state same eff.found e eff.state eff.changed
  own-Kept id position at k strict (current_value d) st s out eff same e =
      (st, (header st).total_shares, ap (lookup k) eff.state ∙ e, refl)

  Effect-Kept :
      (id position at k : Pubkey) (strict : Bool) (m : Call) (st : S) (s : Store S)
      (out : Outcome S)
      → Effect header id position at strict m s out
      → lookup k s ≡ some st
      → Kept k st out.state
  Effect-Kept id position at k strict m st s out eff e = elim (Bool-cases (at == k)) [
    | inl same ↦ own-Kept id position at k strict m st s out eff (==→eq at k same) e
    | inr other ↦ (
      st,
      (header st).total_shares,
      Effect-frame header id position at k strict m s out eff (λ same. ground arith) ∙ e,
      refl,
    )
  ]

module _ (A : Adapter) (rt : Runtime) where
  pub History-Kept :
      {s t : Store A.State} {ms : List Move} (k : Pubkey) (st : A.State)
      → History A rt s t ms
      → lookup k s ≡ some st
      → Kept A.header k st t
  History-Kept k st here e = (st, (A.header st).total_shares, e, refl)
  History-Kept k st (next {t = t} {out = out} q c past h) e =
      let (st', n, e', same) = History-Kept k st past e in
      let (st'', n', e'', same') =
        Effect-Kept A.header A.id (A.position q).key (A.state_account q).key k A.strict (A.call q)
          st' t out (A.effect rt q t c out h) e' in
      (
        st'',
        n',
        e'',
        same' ∙ ap {A = AdapterStateHeader} (λ x. record x { total_shares = n' }) same,
      )
