-- ===== src/Adapters/Calls.antt =====
-- What a CPI of an adapter has sent: the program, the metas of the accounts and the instruction data.
use solana_yield_adapter_sta.Base.{ℕ, ◌≡◌, true, false, List, [], some, Pubkey}
use solana_yield_adapter_sta.Runtime.{Runtime, Chain, AccountMeta, AccountInfo}

abbrev pub reads : Pubkey → AccountMeta
reads k = record { pubkey = k; is_signer = false; is_writable = false }

abbrev pub writes : Pubkey → AccountMeta
writes k = record { pubkey = k; is_signer = false; is_writable = true }

abbrev pub signs : Pubkey → AccountMeta
signs k = record { pubkey = k; is_signer = true; is_writable = false }

-- The chain after a CPI of the program `id`, with no seeds of its own.
abbrev pub Sent :
    Runtime → (id program : Pubkey) → List AccountMeta → List ℕ → Chain → Chain → Type 0
Sent rt id program metas input c c' =
    (infos : List AccountInfo) × (rt.invoke_signed id
        (record { program_id = program; accounts = metas; input = input }) infos [] c
      ≡ some c')
