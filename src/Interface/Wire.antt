-- ===== src/Interface/Wire.antt =====
-- What the encoders, the return-data codec and the check of the caller promise. The encoders are
-- held against a reader of Anchor instruction data: eight bytes of discriminator, then the
-- arguments in Borsh, a u64 in eight bytes and a byte vector behind its length in four.
use solana_yield_adapter_sta.Base.{
  ℕ, ◌%◌, ◌^◌, ◌<◌, ◌≡◌, ◌==◌, ◌&&◌, leb, Bool, true, false, Option, none, some, List, [], ◌∷◌,
  ◌++◌, length, take, drop, Pubkey, to_le_bytes, from_le_bytes, length-to_le_bytes,
  from_le_bytes-to_le_bytes, if◌then◌else◌, arith, ok, ◌↔◌, ok_or-eq-ok,
}
use solana_yield_adapter_sta.Runtime.{Runtime, Chain, AccountInfo, Instruction}
use solana_yield_adapter_sta.Interface.{
  adapter_initialize, adapter_deposit, adapter_withdraw, adapter_current_value, len_u32,
  encode_initialize, encode_deposit, encode_withdraw, encode_current_value, set_u64_return,
  get_u64_return, read_u64_return, verify_caller_is_dispatcher,
}
use mathlib.Core.Option

-- The four calls of the standard, with their arguments.
pub data Call : Type 0 where
  initialize current_value : List ℕ → Call
  deposit withdraw : ℕ → List ℕ → Call

unfoldable pub encode : Call → List ℕ
unfolding encode_initialize encode_deposit encode_withdraw encode_current_value
encode (initialize d) = encode_initialize d
encode (current_value d) = encode_current_value d
encode (deposit n d) = encode_deposit n d
encode (withdraw n d) = encode_withdraw n d

bytes_eq : List ℕ → List ℕ → Bool
bytes_eq [] [] = true
bytes_eq (x ∷ xs) (y ∷ ys) = x == y && bytes_eq xs ys
bytes_eq _ _ = false

decode_vec : List ℕ → Option (List ℕ)
decode_vec args =
    if leb 4 (length args) && (length (drop 4 args) == from_le_bytes (take 4 args))
    then some (drop 4 args)
    else none

decode_u64_vec : (ℕ → List ℕ → Call) → List ℕ → Option Call
unfolding decode_vec
decode_u64_vec make args =
    if leb 8 (length args)
    then Option.map (make (from_le_bytes (take 8 args))) (decode_vec (drop 8 args))
    else none

-- The reader of instruction data.
unfoldable pub decode : List ℕ → Option Call
unfolding bytes_eq decode_u64_vec
decode input =
    let disc = take 8 input in
    let args = drop 8 input in
    if bytes_eq disc adapter_initialize
    then Option.map initialize (decode_vec args)
    else if bytes_eq disc adapter_deposit
    then decode_u64_vec deposit args
    else if bytes_eq disc adapter_withdraw
    then decode_u64_vec withdraw args
    else if bytes_eq disc adapter_current_value
    then Option.map current_value (decode_vec args)
    else none

-- The arguments fit their types: a u64, and a vector whose length fits a u32.
abbrev pub Fits : Call → Type 0
Fits (initialize d) = length d < 2 ^ 32
Fits (current_value d) = length d < 2 ^ 32
Fits (deposit n d) = (n < 2 ^ 64) × (length d < 2 ^ 32)
Fits (withdraw n d) = (n < 2 ^ 64) × (length d < 2 ^ 32)

decode_vec-len_u32 : (d : List ℕ) → length d < 2 ^ 32 → decode_vec (len_u32 d ++ d) ≡ some d
unfolding decode_vec len_u32 to_le_bytes
decode_vec-len_u32 d h =
    ground (arith, from_le_bytes-to_le_bytes 4 (length d % 2 ^ 32) (omega arith))

decode_u64_vec-encode :
    (make : ℕ → List ℕ → Call) (n : ℕ) (d : List ℕ)
    → n < 2 ^ 64
    → length d < 2 ^ 32
    → decode_u64_vec make (to_le_bytes 8 n ++ (len_u32 d ++ d)) ≡ some (make n d)
unfolding decode_u64_vec to_le_bytes
decode_u64_vec-encode make n d hn hd =
    ground (arith, from_le_bytes-to_le_bytes 8 n hn, decode_vec-len_u32 d hd)

-- Every call of the standard whose arguments fit their types is read back from its encoding.
pub decode-encode : (call : Call) → Fits call → decode (encode call) ≡ some call
unfolding decode encode
decode-encode (initialize d) h = rw (decode_vec-len_u32 d h)
decode-encode (current_value d) h = rw (decode_vec-len_u32 d h)
decode-encode (deposit n d) h = decode_u64_vec-encode deposit n d h.0 h.1
decode-encode (withdraw n d) h = decode_u64_vec-encode withdraw n d h.0 h.1

-- What a program sets as its u64 is what the caller reads when it expects that program, and nothing
-- is read when it expects another.
pub get_u64_return-set_u64_return :
    (caller expected v : ℕ) (c : Chain)
    → v < 2 ^ 64
    → get_u64_return expected (set_u64_return caller v c)
      ≡ (if caller == expected then some v else none)
unfolding get_u64_return set_u64_return
get_u64_return-set_u64_return caller expected v c h =
    ground (arith, length-to_le_bytes 8 v, from_le_bytes-to_le_bytes 8 v h)

-- The answer that a program has just set, to a caller that expects it.
pub answer_read :
    (id v : ℕ) (x c : Chain) → v < 2 ^ 64 → x ≡ set_u64_return id v c → get_u64_return id x ≡ some v
answer_read id v x c small e = rw e (ground (arith, get_u64_return-set_u64_return id id v c small))

read_sound :
    (expected v : ℕ) (r : Option (Pubkey × List ℕ))
    → read_u64_return expected r ≡ some v
    → (bytes : List ℕ) × (r ≡ some (expected, bytes))
      × (length bytes ≡ 8)
      × (from_le_bytes bytes ≡ v)
unfolding read_u64_return
read_sound expected v none h = cc
read_sound expected v (some (caller, bytes)) h = (bytes, ground arith, ground arith, ground arith)

read_complete :
    (expected v : ℕ) (r : Option (Pubkey × List ℕ))
    → (bytes : List ℕ) × (r ≡ some (expected, bytes))
      × (length bytes ≡ 8)
      × (from_le_bytes bytes ≡ v)
    → read_u64_return expected r ≡ some v
unfolding read_u64_return
read_complete expected v r (bytes, e, l, n) = rw e (ground arith)

-- A value is read exactly when the return data is eight bytes set by the expected program, and it
-- is the number that these bytes spell, the lowest first.
pub get_u64_return-eq-some :
    (expected v : ℕ) (c : Chain)
    → (get_u64_return expected c ≡ some v) ↔ (
        (bytes : List ℕ) × (c.return_data ≡ some (expected, bytes))
        × (length bytes ≡ 8)
        × (from_le_bytes bytes ≡ v))
unfolding get_u64_return
get_u64_return-eq-some expected v c =
    (read_sound expected v c.return_data, λ h. read_complete expected v c.return_data h)

-- The check of the caller passes exactly when the instruction that the sysvar names as the current
-- one belongs to the given dispatcher.
pub verify_caller_is_dispatcher-eq-ok :
    (rt : Runtime) (sysvar : AccountInfo) (dispatcher : Pubkey) (c : Chain)
    → (verify_caller_is_dispatcher rt sysvar dispatcher c ≡ ok tt) ↔ (
        (idx : ℕ) × (parent : Instruction) × (rt.load_current_index_checked sysvar.key c ≡ some idx)
        × (rt.load_instruction_at_checked idx sysvar.key c ≡ some parent)
        × (parent.program_id ≡ dispatcher))
unfolding verify_caller_is_dispatcher
verify_caller_is_dispatcher-eq-ok rt sysvar dispatcher c = (
  λ h.
      let (idx, e, h') = ok_or-eq-ok _ _ _ h in
      let (parent, e', h'') = ok_or-eq-ok _ _ _ h' in (idx, parent, e, e', ground arith),
  λ (idx, parent, e, e', p). rw (e, e', p) (ground arith),
)
