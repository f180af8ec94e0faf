-- ===== src/Store/Tests.antt =====
-- Runs of the ciphers and of the store.
use tokenomics.Base.{String, ◌≡◌, refl, some, [], ◌∷◌, ok}
use text.Mathlib.TextBridge.{to_list, of_list}
use tokenomics.Base.Eq.{string_eq}
use tokenomics.Base.Dict.{lookup, insert}
use tokenomics.Policy.Resolve.{
  Policy, validate, compile_rules, compile_provider, compile_policies, compile_providers,
  compile_model_regex,
}
use tokenomics.Policy.Parse.{parse}
use tokenomics.Policy.Rule.{compile_rule, compile_matchers, compile_regex}
use tokenomics.Store.Crypto.{encrypt, decrypt, decrypt-encrypt}
use tokenomics.Store.Bolt.{
  create, create_tx, parse_policy, expiry_of, check_expiry, encrypt_policy, decrypt_policy,
  insert_new, commit, reload, cache_entries, entry_of, read_record,
}
use tokenomics.Store.Cache.{lookup_token}
use tokenomics.Store.Coherence.{creation, run-IsCoherent, live, stored}
use tokenomics.Store.Answers.{policy_at, run-lookup_token}
use tokenomics.Store.RoundTrip.{create-lookup_token}
use tokenomics.Store.Samples.{
  open_ciphers, open_ciphers-CryptoLaws, one_slot, one_slot-ServiceLaws, fresh_store, full_store,
}

encrypted :
    encrypt open_ciphers (some ("n" ∷ [])) "text" ("k" ∷ []) ≡ ok (of_list ("n" ∷ to_list "text"))
unfolding encrypt
encrypted = refl

decrypt-encrypt_example :
    decrypt open_ciphers (of_list ("n" ∷ to_list "text")) ("k" ∷ []) ≡ ok "text"
decrypt-encrypt_example =
    decrypt-encrypt open_ciphers open_ciphers-CryptoLaws ("n" ∷ []) "text"
      (of_list ("n" ∷ to_list "text")) ("k" ∷ []) refl encrypted

created : create one_slot fresh_store "a" "policy" "" "now" (some ("n" ∷ [])) ≡ (full_store, ok tt)
unfolding create create_tx parse_policy check_expiry encrypt_policy insert_new commit reload
    cache_entries entry_of read_record decrypt_policy expiry_of parse insert validate compile_rules
    compile_rule compile_matchers compile_regex compile_model_regex compile_providers
    compile_policies compile_provider
created = refl

run-IsCoherent_example :
    lookup "a" full_store.cache ≡ stored one_slot one_slot-ServiceLaws full_store "a"
run-IsCoherent_example =
    run-IsCoherent one_slot one_slot-ServiceLaws fresh_store full_store
      (creation "a" "policy" "" "now" (some ("n" ∷ []))) created "a"

run-lookup_token_example :
    (lookup_token one_slot full_store "a" "noon" "one").1 ≡ policy_at one_slot full_store "a" "noon"
run-lookup_token_example =
    run-lookup_token one_slot one_slot-ServiceLaws fresh_store full_store
      (creation "a" "policy" "" "now" (some ("n" ∷ []))) "a" "noon" "one" created

create-lookup_token_example :
    (p : Policy String) × (parse_policy one_slot "policy" ≡ ok p)
    × ((lookup_token one_slot full_store "a" "noon" "one").1
        ≡ live one_slot one_slot-ServiceLaws "noon"
            (some (record { policy = p; expires_at = expiry_of one_slot "" })))
create-lookup_token_example =
    create-lookup_token one_slot one_slot-ServiceLaws fresh_store full_store "a" "policy" "" "now"
      ("n" ∷ []) "noon" "one" refl created
