-- ===== src/Dispatcher/Routing.antt =====
-- The CPIs of the dispatcher (routing.rs): a fixed prefix of accounts for each instruction, then the
-- remaining accounts as they came. The result is read back from the return data.
pub mod Laws
use solana_yield_adapter_sta.Base.{
  ℕ, Bool, true, false, Option, List, [], ◌∷◌, ◌++◌, Pubkey, Result, ok, err, of_dispatcher, ◌>>=◌,
  ok_or, DispatcherError,
}
use solana_yield_adapter_sta.Runtime.{
  Runtime, Chain, AccountMeta, AccountInfo, Instruction, Seed, meta_new, meta_new_readonly,
}
use solana_yield_adapter_sta.Interface.{
  encode_initialize, encode_deposit, encode_withdraw, encode_current_value, get_u64_return,
}
use solana_yield_adapter_sta.Dispatcher.{id}

-- The meta that forwards an account with the flags that it came with.
unfoldable pub meta_of : AccountInfo → AccountMeta
meta_of acc = record { pubkey = acc.key; is_signer = acc.is_signer; is_writable = acc.is_writable }

unfoldable pub forward :
    List AccountMeta → List AccountInfo → List AccountInfo → List AccountMeta × List AccountInfo
unfolding meta_of
forward metas infos [] = (metas, infos)
forward metas infos (acc ∷ remaining) =
    forward (metas ++ meta_of acc ∷ []) (infos ++ acc ∷ []) remaining

module _ (rt : Runtime) where
  unfoldable pub route_initialize :
      (adapter_program instructions_sysvar position adapter_state rent_payer
        system_program : AccountInfo)
      → List AccountInfo
      → List (List Seed)
      → Chain
      → Result Chain
  unfolding meta_new meta_new_readonly
  route_initialize adapter_program instructions_sysvar position adapter_state rent_payer
        system_program remaining signer_seeds c =
      let metas : List AccountMeta =
        meta_new_readonly instructions_sysvar.key false
        ∷ meta_new_readonly position.key true
        ∷ meta_new adapter_state.key false
        ∷ meta_new rent_payer.key true
        ∷ meta_new_readonly system_program.key false
        ∷ [] in
      let infos : List AccountInfo =
        adapter_program ∷ instructions_sysvar ∷ position ∷ adapter_state ∷ rent_payer
        ∷ system_program ∷ [] in
      let both = forward metas infos remaining in
      let ix : Instruction = record {
        program_id = adapter_program.key;
        accounts = both.0;
        input = encode_initialize [];
      } in
      ok_or (rt.invoke_signed id ix both.1 signer_seeds c)
        (of_dispatcher DispatcherError.adapter_mismatch)

  unfoldable pub fund_movement_ix :
      List ℕ
      → (adapter_program instructions_sysvar position position_usdc_pool
          adapter_state : AccountInfo)
      → List AccountInfo
      → List (List Seed)
      → Chain
      → Result Chain
  unfolding meta_new meta_new_readonly
  fund_movement_ix input adapter_program instructions_sysvar position position_usdc_pool
        adapter_state remaining signer_seeds c =
      let metas : List AccountMeta =
        meta_new_readonly instructions_sysvar.key false
        ∷ meta_new position.key true
        ∷ meta_new position_usdc_pool.key false
        ∷ meta_new adapter_state.key false
        ∷ [] in
      let infos : List AccountInfo =
        adapter_program ∷ instructions_sysvar ∷ position ∷ position_usdc_pool ∷ adapter_state
        ∷ [] in
      let both = forward metas infos remaining in
      let ix : Instruction = record {
        program_id = adapter_program.key;
        accounts = both.0;
        input = input;
      } in
      ok_or (rt.invoke_signed id ix both.1 signer_seeds c)
        (of_dispatcher DispatcherError.adapter_mismatch)

  -- The value with the chain after the call.
  unfoldable pub route_deposit :
      (adapter_program instructions_sysvar position position_usdc_pool adapter_state : AccountInfo)
      → List AccountInfo
      → ℕ
      → List (List Seed)
      → Chain
      → Result (ℕ × Chain)
  route_deposit adapter_program instructions_sysvar position position_usdc_pool adapter_state
        remaining amount signer_seeds c =
      do
        c' ←
            fund_movement_ix (encode_deposit amount []) adapter_program instructions_sysvar position
              position_usdc_pool adapter_state remaining signer_seeds c
        shares ←
            ok_or (get_u64_return adapter_program.key c')
              (of_dispatcher DispatcherError.missing_return_data)
        ok (shares, c')

  unfoldable pub route_withdraw :
      (adapter_program instructions_sysvar position position_usdc_pool adapter_state : AccountInfo)
      → List AccountInfo
      → ℕ
      → List (List Seed)
      → Chain
      → Result (ℕ × Chain)
  route_withdraw adapter_program instructions_sysvar position position_usdc_pool adapter_state
        remaining shares signer_seeds c =
      do
        c' ←
            fund_movement_ix (encode_withdraw shares []) adapter_program instructions_sysvar
              position position_usdc_pool adapter_state remaining signer_seeds c
        amount_out ←
            ok_or (get_u64_return adapter_program.key c')
              (of_dispatcher DispatcherError.missing_return_data)
        ok (amount_out, c')

  unfoldable pub route_current_value :
      (adapter_program instructions_sysvar position adapter_state : AccountInfo)
      → List AccountInfo
      → Chain
      → Result (ℕ × Chain)
  unfolding meta_new_readonly
  route_current_value adapter_program instructions_sysvar position adapter_state remaining c = do
    let metas : List AccountMeta =
        meta_new_readonly instructions_sysvar.key false
        ∷ meta_new_readonly position.key false
        ∷ meta_new_readonly adapter_state.key false
        ∷ []
    let infos : List AccountInfo =
        adapter_program ∷ instructions_sysvar ∷ position ∷ adapter_state ∷ []
    let both = forward metas infos remaining
    let ix : Instruction = record {
      program_id = adapter_program.key;
      accounts = both.0;
      input = encode_current_value [];
    }
    c' ← ok_or (rt.invoke_signed id ix both.1 [] c) (of_dispatcher DispatcherError.adapter_mismatch)
    value ←
        ok_or (get_u64_return adapter_program.key c')
          (of_dispatcher DispatcherError.missing_return_data)
    ok (value, c')
