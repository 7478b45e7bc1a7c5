-- ===== src/Tests/Wire.antt =====
-- The codec and the check of the caller at concrete inputs.
use solana_yield_adapter_sta.Base.{◌≡◌, refl, some, [], ◌∷◌, ok, arith, from_le_bytes}
use solana_yield_adapter_sta.Interface.{
  dispatcher_id, set_u64_return, get_u64_return, verify_caller_is_dispatcher,
}
use solana_yield_adapter_sta.Interface.Wire.{
  Call, encode, decode, decode-encode, get_u64_return-set_u64_return, get_u64_return-eq-some,
  verify_caller_is_dispatcher-eq-ok,
}
use solana_yield_adapter_sta.Samples.{sample_runtime, sample_chain, reading}

decode-encode_example :
    decode (encode (Call.deposit 300 (1 ∷ 2 ∷ []))) ≡ some (Call.deposit 300 (1 ∷ 2 ∷ []))
decode-encode_example = decode-encode (Call.deposit 300 (1 ∷ 2 ∷ [])) (omega arith, omega arith)

get_u64_return-set_u64_return_example :
    get_u64_return 5 (set_u64_return 5 777 sample_chain) ≡ some 777
get_u64_return-set_u64_return_example =
    get_u64_return-set_u64_return 5 5 777 sample_chain (omega arith)

-- 300 = 44 + 256
get_u64_return-eq-some_example :
    get_u64_return 5
      (record sample_chain { return_data = some (5, 44 ∷ 1 ∷ 0 ∷ 0 ∷ 0 ∷ 0 ∷ 0 ∷ 0 ∷ []) })
    ≡ some 300
unfolding from_le_bytes
get_u64_return-eq-some_example =
    (get_u64_return-eq-some 5 300
        (record sample_chain { return_data = some (5, 44 ∷ 1 ∷ 0 ∷ 0 ∷ 0 ∷ 0 ∷ 0 ∷ 0 ∷ []) })).1
      (44 ∷ 1 ∷ 0 ∷ 0 ∷ 0 ∷ 0 ∷ 0 ∷ 0 ∷ [], refl, refl, refl)

verify_caller_is_dispatcher-eq-ok_example :
    verify_caller_is_dispatcher sample_runtime (reading 11) dispatcher_id sample_chain ≡ ok tt
unfolding sample_runtime
verify_caller_is_dispatcher-eq-ok_example =
    (verify_caller_is_dispatcher-eq-ok sample_runtime (reading 11) dispatcher_id sample_chain).1
      (0, record { program_id = dispatcher_id; accounts = []; input = [] }, refl, refl, refl)
