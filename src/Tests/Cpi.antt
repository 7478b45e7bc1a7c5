-- ===== src/Tests/Cpi.antt =====
-- A runtime whose CPI runs the entrypoint of the Kamino adapter. The adapter's accounts stand together
-- at one address of the chain.
use solana_yield_adapter_sta.Base.{
  ℕ, zero, suc, ◌≡◌, ◌==◌, refl, ap, ◌∙◌, none, Option, some, List, [], ◌∷◌, map, Pubkey, Store,
  insert, lookup-insert_self, Result, ok, err, if◌then◌else◌, ℤ, pos, negsuc, arith, Option-cases,
  Result-cases, inl, inr,
}
use solana_yield_adapter_sta.Runtime.{Runtime, Chain, Account, AccountInfo, Instruction, content_of}
use solana_yield_adapter_sta.Interface.Wire.{Call, decode}
use solana_yield_adapter_sta.Adapters.Kamino.{id, AdapterState, Outcome}
use solana_yield_adapter_sta.Adapters.Kamino.Program.{adapter}
use solana_yield_adapter_sta.Integration.{info_of, Runs, CpiLaws}
use solana_yield_adapter_sta.Samples.{data_account}
use solana_yield_adapter_sta.Tests.Kamino.{kamino_runtime}

-- The states as numbers, nine for each account.
unfoldable pub sign : ℤ → ℕ
sign (pos n) = 0
sign (negsuc n) = 1

unfoldable pub size : ℤ → ℕ
size (pos n) = n
size (negsuc n) = n

unfoldable integer : ℕ → ℕ → ℤ
integer zero n = pos n
integer (suc s) n = negsuc n

integer-sign : (i : ℤ) → integer (sign i) (size i) ≡ i
unfolding integer sign size
integer-sign (pos n) = refl
integer-sign (negsuc n) = refl

unfoldable pub write : Store AdapterState → List ℕ
unfolding sign size
write [] = []
write ((k, st) ∷ s) =
    k
    ∷ st.header.position
    ∷ st.header.adapter_program
    ∷ sign st.header.created_at
    ∷ size st.header.created_at
    ∷ st.header.total_shares
    ∷ st.kamino_reserve
    ∷ st.collateral_vault
    ∷ st.bump
    ∷ write s

unfoldable pub read : List ℕ → Store AdapterState
unfolding integer
read (k ∷ position ∷ program ∷ s ∷ created ∷ shares ∷ reserve ∷ vault ∷ bump ∷ rest) =
    (
      k,
      record {
        header = record {
          position = position;
          adapter_program = program;
          created_at = integer s created;
          total_shares = shares;
        };
        kamino_reserve = reserve;
        collateral_vault = vault;
        bump = bump;
      },
    )
    ∷ read rest
read _ = []

read-write : (s : Store AdapterState) → read (write s) ≡ s
unfolding read write
read-write [] = refl
read-write ((k, st) ∷ s) = rw (integer-sign st.header.created_at, read-write s) refl

-- The address at which the states stand.
abbrev pub shelf : Pubkey
shelf = 9

unfoldable pub stored : Chain → Store AdapterState
stored c = read (content_of c shelf)

unfoldable pub store : Store AdapterState → Chain → Chain
store s c = record c { accounts = insert shelf (data_account id (write s)) c.accounts }

stored-store : (s : Store AdapterState) (c : Chain) → stored (store s c) ≡ s
unfolding stored store content_of
stored-store s c =
    ap (λ (o : Option Account). read (elim o [ none ↦ [] | some a ↦ a.content ]))
      (lookup-insert_self shelf (data_account id (write s)) c.accounts)
    ∙ read-write s

-- The CPI to the adapter: its data names an entrypoint, and its metas are the accounts.
unfoldable pub served_as : Chain → Result Outcome → Option Chain
served_as c (err e) = none
served_as c (ok out) = some (store out.state out.chain)

unfoldable pub requested : Chain → Result adapter.Request → Option Chain
requested c (err e) = none
requested c (ok q) =
    served_as c (adapter.serve kamino_runtime q (stored c) (record c { return_data = none }))

unfoldable pub called : Chain → List AccountInfo → Option Call → Option Chain
called c infos none = none
called c infos (some call) = requested c (adapter.parse call infos)

unfoldable pub cpi : Instruction → Chain → Option Chain
unfolding served_as requested called
cpi ix c =
    if ix.program_id == id then called c (map info_of ix.accounts) (decode ix.input) else none

unfoldable pub routing_runtime : Runtime
unfolding cpi kamino_runtime
routing_runtime = record kamino_runtime { invoke_signed = λ caller ix infos seeds c. cpi ix c }

runs :
    (ix : Instruction) (c c' : Chain)
    → cpi ix c ≡ some c'
    → ix.program_id ≡ id
    → Runs adapter routing_runtime kamino_runtime stored ix c c'
unfolding cpi called requested served_as store
runs ix c c' h here = elim (Option-cases (decode ix.input)) [
  | inl none_read ↦ absurd (ground arith)
  | inr (call, read_as) ↦ elim (Result-cases (adapter.parse call (map info_of ix.accounts))) [
    | inr (e, refused) ↦ absurd (ground arith)
    | inl (q, taken) ↦
        elim (Result-cases
          (adapter.serve kamino_runtime q (stored c) (record c { return_data = none }))) [
            | inr (e, failed) ↦ absurd (ground arith)
            | inl (out, run) ↦
                let same : c' ≡ store out.state out.chain = ground arith in
                record {
                  call = call;
                  request = q;
                  out = out;
                  read_as = read_as;
                  taken = taken;
                  served = run;
                  written = ap stored same ∙ stored-store out.state out.chain;
                  returned = ap (λ c. c.return_data) same;
                }
          ]
  ]
]

pub laws : CpiLaws adapter routing_runtime kamino_runtime stored
unfolding routing_runtime
laws = record { runs = λ ix infos seeds c c' h here. runs ix c c' h here }
