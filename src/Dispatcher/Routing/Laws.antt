-- ===== src/Dispatcher/Routing/Laws.antt =====
-- What the router hands to an adapter.
use solana_yield_adapter_sta.Base.{
  ℕ, ◌<◌, ◌^◌, ◌≡◌, refl, true, false, Option, some, List, [], ◌∷◌, ◌++◌, map, append_assoc,
  append-nil, Pubkey, Result, ok, ok_or-some, arith, Error, err, ok_or, ◌>>=◌, none, ap,
}
use solana_yield_adapter_sta.Runtime.{
  Runtime, Chain, AccountMeta, AccountInfo, Instruction, Seed, meta_new, meta_new_readonly,
}
use solana_yield_adapter_sta.Interface.{get_u64_return}
use solana_yield_adapter_sta.Interface.Wire.{
  Call, initialize, deposit, withdraw, current_value, encode, decode, decode-encode, Fits,
}
use solana_yield_adapter_sta.Dispatcher.{id}
use solana_yield_adapter_sta.Dispatcher.Routing.{
  meta_of, forward, route_initialize, fund_movement_ix, route_deposit, route_withdraw,
  route_current_value,
}

-- The remaining accounts follow the prefix in their order, each with the flags that it came with.
pub forward-map :
    (metas : List AccountMeta) (infos remaining : List AccountInfo)
    → forward metas infos remaining ≡ (metas ++ map meta_of remaining, infos ++ remaining)
unfolding forward
forward-map metas infos [] = ground (arith, append-nil metas, append-nil infos)
forward-map metas infos (acc ∷ remaining) = ground (
  arith,
  forward-map (metas ++ meta_of acc ∷ []) (infos ++ acc ∷ []) remaining,
  append_assoc metas (meta_of acc ∷ []) (map meta_of remaining),
  append_assoc infos (acc ∷ []) remaining,
)

-- The CPI that a route makes: the adapter as the callee, the metas of a prefix and then those of the
-- remaining accounts, and instruction data that is read as the given call.
pub record Routes (call : Call) (adapter_program : AccountInfo) (prefix : List AccountMeta)
    (remaining : List AccountInfo) (ix : Instruction) : Type 0 where
  pub callee : ix.program_id ≡ adapter_program.key
  pub metas : ix.accounts ≡ prefix ++ map meta_of remaining
  pub read_as : decode ix.input ≡ some call

-- A call whose result is then read back from the return data.
read_back :
    (o : Option ℕ) (e : Error) (c₁ c' : Chain) {v : ℕ}
    → ◌>>=◌ {B = ℕ × Chain} (ok_or o e) (λ u. ok (u, c₁)) ≡ ok (v, c')
    → (o ≡ some v) × (c₁ ≡ c')
read_back none e c₁ c' h = cc
read_back (some u) e c₁ c' h = (ground arith, ground arith)

call_then_read :
    (m : Result Chain) (program : Pubkey) (e : Error) {v : ℕ} {c' : Chain}
    → (m >>= λ c₁. ◌>>=◌ {B = ℕ × Chain} (ok_or (get_u64_return program c₁) e) (λ u. ok (u, c₁)))
      ≡ ok (v, c')
    → (m ≡ ok c') × (get_u64_return program c' ≡ some v)
call_then_read (err x) program e h = cc
call_then_read (ok c₁) program e {v} {c'} h =
    let (read, same) = read_back (get_u64_return program c₁) e c₁ c' h in
    (ap ok same, rw same at read)

abbrev pub fund_prefix : (sysvar position pool state : AccountInfo) → List AccountMeta
fund_prefix sysvar position pool state =
    record { pubkey = sysvar.key; is_signer = false; is_writable = false }
    ∷ record { pubkey = position.key; is_signer = true; is_writable = true }
    ∷ record { pubkey = pool.key; is_signer = false; is_writable = true }
    ∷ record { pubkey = state.key; is_signer = false; is_writable = true }
    ∷ []

abbrev pub value_prefix : (sysvar position state : AccountInfo) → List AccountMeta
value_prefix sysvar position state =
    record { pubkey = sysvar.key; is_signer = false; is_writable = false }
    ∷ record { pubkey = position.key; is_signer = false; is_writable = false }
    ∷ record { pubkey = state.key; is_signer = false; is_writable = false }
    ∷ []

abbrev pub initialize_prefix : (sysvar position state payer system : AccountInfo) → List AccountMeta
initialize_prefix sysvar position state payer system =
    record { pubkey = sysvar.key; is_signer = false; is_writable = false }
    ∷ record { pubkey = position.key; is_signer = true; is_writable = false }
    ∷ record { pubkey = state.key; is_signer = false; is_writable = true }
    ∷ record { pubkey = payer.key; is_signer = true; is_writable = true }
    ∷ record { pubkey = system.key; is_signer = false; is_writable = false }
    ∷ []

module _ (rt : Runtime) where
  -- The CPI that was made, with the account infos it was given, signed by the given seeds.
  abbrev pub Invoked :
      Call
      → AccountInfo
      → List AccountMeta
      → List AccountInfo
      → List AccountInfo
      → List (List Seed)
      → Chain
      → Chain
      → Type 0
  Invoked call program prefix infos remaining seeds c c' =
      (ix : Instruction) × Routes call program prefix remaining ix
      × (rt.invoke_signed id ix (infos ++ remaining) seeds c ≡ some c')

  invoked :
      (call : Call) (program : AccountInfo) (prefix : List AccountMeta)
      (infos remaining : List AccountInfo) (seeds : List (List Seed)) (c c' : Chain)
      → Fits call
      → rt.invoke_signed id
          (record {
            program_id = program.key;
            accounts = (forward prefix infos remaining).0;
            input = encode call;
          })
          (forward prefix infos remaining).1
          seeds
          c
        ≡ some c'
      → Invoked call program prefix infos remaining seeds c c'
  invoked call program prefix infos remaining seeds c c' fits h = (
    record {
      program_id = program.key;
      accounts = prefix ++ map meta_of remaining;
      input = encode call;
    },
    record { callee = refl; metas = refl; read_as = decode-encode call fits },
    rw (forward-map prefix infos remaining) at h,
  )

  -- A deposit is routed to the adapter as a deposit of the same amount, signed for by the position,
  -- and the shares that it reports are what the adapter returned.
  pub route_deposit-Invoked :
      (program sysvar position pool state : AccountInfo) (remaining : List AccountInfo) (amount : ℕ)
      (seeds : List (List Seed)) (c c' : Chain) {shares : ℕ}
      → amount < 2 ^ 64
      → route_deposit rt program sysvar position pool state remaining amount seeds c
        ≡ ok (shares, c')
      → Invoked
          (deposit amount [])
          program
          (fund_prefix sysvar position pool state)
          (program ∷ sysvar ∷ position ∷ pool ∷ state ∷ [])
          remaining
          seeds
          c
          c'
        × (get_u64_return program.key c' ≡ some shares)
  unfolding route_deposit fund_movement_ix meta_new encode
  route_deposit-Invoked program sysvar position pool state remaining amount seeds c c' fits h =
      let (sent, read) = call_then_read _ program.key _ h in
      (
        invoked (deposit amount []) program _ _ remaining seeds c c' (fits, omega arith)
            (ok_or-some _ _ sent),
        read,
      )

  -- A withdrawal of a u64 of shares that is routed with success has called the adapter program, on the
  -- fixed accounts followed by the remaining accounts, with data that reads as a withdrawal of these
  -- shares and with the given seeds; the amount is what the adapter set as its return data.
  pub route_withdraw-Invoked :
      (program sysvar position pool state : AccountInfo) (remaining : List AccountInfo) (shares : ℕ)
      (seeds : List (List Seed)) (c c' : Chain) {amount_out : ℕ}
      → shares < 2 ^ 64
      → route_withdraw rt program sysvar position pool state remaining shares seeds c
        ≡ ok (amount_out, c')
      → Invoked
          (withdraw shares [])
          program
          (fund_prefix sysvar position pool state)
          (program ∷ sysvar ∷ position ∷ pool ∷ state ∷ [])
          remaining
          seeds
          c
          c'
        × (get_u64_return program.key c' ≡ some amount_out)
  unfolding route_withdraw fund_movement_ix meta_new encode
  route_withdraw-Invoked program sysvar position pool state remaining shares seeds c c' fits h =
      let (sent, read) = call_then_read _ program.key _ h in
      (
        invoked (withdraw shares []) program _ _ remaining seeds c c' (fits, omega arith)
            (ok_or-some _ _ sent),
        read,
      )

  pub route_current_value-Invoked :
      (program sysvar position state : AccountInfo) (remaining : List AccountInfo) (c c' : Chain)
      {value : ℕ}
      → route_current_value rt program sysvar position state remaining c ≡ ok (value, c')
      → Invoked
          (current_value [])
          program
          (value_prefix sysvar position state)
          (program ∷ sysvar ∷ position ∷ state ∷ [])
          remaining
          []
          c
          c'
        × (get_u64_return program.key c' ≡ some value)
  unfolding route_current_value meta_new_readonly encode
  route_current_value-Invoked program sysvar position state remaining c c' h =
      let (sent, read) = call_then_read _ program.key _ h in
      (
        invoked (current_value []) program _ _ remaining [] c c' (omega arith)
            (ok_or-some _ _ sent),
        read,
      )

  pub route_initialize-Invoked :
      (program sysvar position state payer system : AccountInfo) (remaining : List AccountInfo)
      (seeds : List (List Seed)) (c c' : Chain)
      → route_initialize rt program sysvar position state payer system remaining seeds c ≡ ok c'
      → Invoked
          (initialize [])
          program
          (initialize_prefix sysvar position state payer system)
          (program ∷ sysvar ∷ position ∷ state ∷ payer ∷ system ∷ [])
          remaining
          seeds
          c
          c'
  unfolding route_initialize meta_new encode
  route_initialize-Invoked program sysvar position state payer system remaining seeds c c' h =
      invoked (initialize []) program _ _ remaining seeds c c' (omega arith) (ok_or-some _ _ h)
