-- ===== src/Policy/Tests.antt =====
-- Policies over a toy matcher, where an expression matches the text that it is.
use tokenomics.Base.{String, ◌≡◌, refl, none, some, [], ◌∷◌, true, ok, any}
use tokenomics.Base.Eq.{string_eq, ◌==◌}
use tokenomics.Base.Dict.{lookup}
use tokenomics.Policy.Rule.{matches, match_regex, compile_rule, compile_matchers, compile_regex}
use tokenomics.Policy.Resolve.{
  Policy, merge_provider, ResolvedPolicy, base_resolved, first_policy, matches_model, matches_regex,
  resolve_for_model, search_providers, validate, compile_rules, compile_provider, compile_policies,
  compile_providers, compile_model_regex,
}
use tokenomics.Policy.Samples.{
  literal, secret_rule, small_model, large_model, raw_policy, ready_policy,
}
use tokenomics.Policy.Engine.{check_rules, check_rules_from, rule_matches_scope}
use tokenomics.Policy.Checks.{
  is_some, until_fail, all_matches, check_rules_lem, resolve_for_model-blocked,
}
use tokenomics.Policy.Validated.{IsValid, validate-IsValid}
use tokenomics.Policy.Resolution.{visited_first, resolve_for_model_unordered}

abbrev masking_policy : ResolvedPolicy String
unfolding base_resolved
masking_policy = record (base_resolved literal raw_policy) { rules = secret_rule ∷ [] }

validated : validate literal raw_policy ≡ ok ready_policy
unfolding validate compile_rules compile_rule compile_matchers compile_regex compile_model_regex
    compile_providers compile_policies compile_provider
validated = refl

validate-IsValid_example : IsValid literal ready_policy
validate-IsValid_example = validate-IsValid literal raw_policy ready_policy validated

blocked :
    is_some (check_rules literal (base_resolved literal ready_policy) "secret" "input").1 ≡ true
unfolding check_rules check_rules_from base_resolved rule_matches_scope matches match_regex
blocked = refl

resolve_for_model-blocked_example :
    check_rules literal (resolve_for_model literal ready_policy "small") "secret" "input"
    ≡ check_rules literal (base_resolved literal ready_policy) "secret" "input"
resolve_for_model-blocked_example =
    resolve_for_model-blocked literal ready_policy "small" "secret" "input" blocked

check_rules_lem_example :
    ((check_rules literal masking_policy "secret" "output").0
      ≡ until_fail literal (all_matches literal (secret_rule ∷ []) "secret" "output"))
    × (is_some (check_rules literal masking_policy "secret" "output").1
        ≡ any (λ m. m.action == "fail") (all_matches literal (secret_rule ∷ []) "secret" "output"))
unfolding base_resolved
check_rules_lem_example = check_rules_lem literal masking_policy "secret" "output"

unmatched : matches literal secret_rule "hello" ≡ none
unfolding matches match_regex
unmatched = refl

small_first : first_policy literal "small" (small_model ∷ []) ≡ some small_model
unfolding first_policy matches_model
small_first = refl

no_large : first_policy literal "small" (large_model ∷ []) ≡ none
unfolding first_policy matches_model matches_regex
no_large = refl

one_found : lookup "one" ready_policy.providers ≡ some (small_model ∷ [])
unfolding lookup
one_found = refl

abbrev two_small : Policy String
two_small = record ready_policy {
  providers = ("one", small_model ∷ []) ∷ ("two", small_model ∷ []) ∷ [];
}

resolve_for_model_unordered_example :
    (lookup "one" (visited_first literal "one" (small_model ∷ []) two_small.providers)
      ≡ lookup "one" two_small.providers)
    × (resolve_for_model literal
          (record two_small {
            providers = visited_first literal "one" (small_model ∷ []) two_small.providers;
          })
          "small"
        ≡ merge_provider literal
            (record (base_resolved literal two_small) { provider_name = "one" })
            small_model)
    × (lookup "one" (visited_first literal "two" (small_model ∷ []) two_small.providers)
        ≡ lookup "one" two_small.providers)
    × (resolve_for_model literal
          (record two_small {
            providers = visited_first literal "two" (small_model ∷ []) two_small.providers;
          })
          "small"
        ≡ merge_provider literal
            (record (base_resolved literal two_small) { provider_name = "two" })
            small_model)
unfolding lookup
resolve_for_model_unordered_example =
    resolve_for_model_unordered literal two_small "small" "one" "two" (small_model ∷ [])
      (small_model ∷ []) small_model small_model "one" refl refl small_first small_first

small_routed : search_providers literal "small" ready_policy.providers ≡ some ("one", small_model)
unfolding search_providers first_policy matches_model
small_routed = refl
