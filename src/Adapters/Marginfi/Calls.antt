-- ===== src/Adapters/Marginfi/Calls.antt =====
-- What the CPIs to MarginFi send.
use solana_yield_adapter_sta.Base.{
  ℕ, ◌≡◌, Bool, [], ◌∷◌, ◌++◌, to_le_bytes, ok, ok_or-some, if◌then◌else◌,
}
use solana_yield_adapter_sta.Runtime.{Runtime, Chain, AccountInfo, meta_new, meta_new_readonly}
use solana_yield_adapter_sta.Adapters.Calls.{Sent, reads, writes, signs}
use solana_yield_adapter_sta.Adapters.Marginfi.{id}
use solana_yield_adapter_sta.Adapters.Marginfi.Bank.{mfi_deposit, mfi_withdraw, deposit, withdraw}

module _ (rt : Runtime) where
  pub deposit-Sent :
      (program group marginfi_account authority bank source vault token_program : AccountInfo)
      (amount : ℕ) (c c' : Chain)
      → deposit rt program group marginfi_account authority bank source vault token_program amount c
        ≡ ok c'
      → Sent rt id program.key
          (reads group.key
            ∷ writes marginfi_account.key
            ∷ signs authority.key
            ∷ writes bank.key
            ∷ writes source.key
            ∷ writes vault.key
            ∷ reads token_program.key
            ∷ [])
          (mfi_deposit ++ (to_le_bytes 8 amount ++ (0 ∷ [])))
          c
          c'
  unfolding deposit meta_new meta_new_readonly
  deposit-Sent program group marginfi_account authority bank source vault token_program amount c c'
        h =
      (_, ok_or-some _ _ h)

  pub withdraw-Sent :
      (program group marginfi_account authority bank destination vault_authority vault token_program
        oracle : AccountInfo)
      (amount : ℕ) (withdraw_all : Bool) (c c' : Chain)
      → withdraw rt program group marginfi_account authority bank destination vault_authority vault
          token_program oracle amount withdraw_all c
        ≡ ok c'
      → Sent rt id program.key
          (reads group.key
            ∷ writes marginfi_account.key
            ∷ signs authority.key
            ∷ writes bank.key
            ∷ writes destination.key
            ∷ reads vault_authority.key
            ∷ writes vault.key
            ∷ reads token_program.key
            ∷ reads bank.key
            ∷ reads oracle.key
            ∷ [])
          (mfi_withdraw ++ (to_le_bytes 8 amount ++ (1 ∷ (if withdraw_all then 1 else 0) ∷ [])))
          c
          c'
  unfolding withdraw meta_new meta_new_readonly
  withdraw-Sent program group marginfi_account authority bank destination vault_authority vault
        token_program oracle amount withdraw_all c c' h =
      (_, ok_or-some _ _ h)
