-- ===== src/Policy/Checks.antt =====
-- What `CheckRules` reports and when it blocks, and that a provider's policy cannot lift a block.
use tokenomics.Base.{
  String, Bool, true, false, List, [], ◌∷◌, ◌++◌, Option, none, some, ◌≡◌, refl, ℕ, ◌+◌, arith, any,
  if◌then◌else◌, Bool-cases, Option-cases, inl, inr,
}
use tokenomics.Base.Eq.{string_eq, ◌==◌}
use tokenomics.Policy.Regex.{Regex}
use tokenomics.Policy.Rule.{Rule, matches}
use tokenomics.Policy.Resolve.{
  Policy, ResolvedPolicy, base_resolved, merge_provider, resolve_for_model, search_providers,
  with_provider,
}
use tokenomics.Policy.Engine.{RuleMatch, rule_matches_scope, check_rules_from, check_rules}

abbrev pub is_some {ℓ} : {A : Type ℓ} → Option A → Bool
is_some none = false
is_some (some a) = true

module _ (re : Regex) where
  -- The rules in scope that match, each with its match: nothing stops the search.
  unfoldable pub all_matches : List (Rule re.Regexp) → String → String → List (RuleMatch re.Regexp)
  all_matches [] content scope = []
  all_matches (r ∷ rs) content scope =
      let rest = all_matches rs content scope in
      if rule_matches_scope r scope
      then elim (matches re r content) [
        | none ↦ rest
        | some msg ↦ record { rule = r; name = r.name; action = r.action; message = msg } ∷ rest
      ]
      else rest

  -- Up to the first one whose action is "fail", that one included.
  unfoldable pub until_fail : List (RuleMatch re.Regexp) → List (RuleMatch re.Regexp)
  until_fail [] = []
  until_fail (m ∷ ms) = if m.action == "fail" then m ∷ [] else m ∷ until_fail ms

  check_rules_from_lem :
      (i : ℕ) (rs : List (Rule re.Regexp)) (content scope : String)
      → ((check_rules_from re i rs content scope).0 ≡ until_fail (all_matches rs content scope))
        × (is_some (check_rules_from re i rs content scope).1
            ≡ any (λ m. m.action == "fail") (all_matches rs content scope))
  unfolding check_rules_from all_matches until_fail any
  check_rules_from_lem i [] content scope = (refl, refl)
  check_rules_from_lem i (r ∷ rs) content scope =
      let ih = check_rules_from_lem (i + 1) rs content scope in
      elim (Bool-cases (rule_matches_scope r scope)) [
        | inl here ↦ elim (Option-cases (matches re r content)) [
          | inl e ↦ ground (arith, ih)
          | inr (msg, e) ↦ ground (arith, ih)
        ]
        | inr there ↦ ground (arith, ih)
      ]

  -- `CheckRules` reports the matching rules in scope up to the first with action "fail", and it
  -- returns an error exactly when one of the matching rules in scope has that action.
  pub check_rules_lem :
      (rp : ResolvedPolicy re.Regexp) (content scope : String)
      → ((check_rules re rp content scope).0 ≡ until_fail (all_matches rp.rules content scope))
        × (is_some (check_rules re rp content scope).1
            ≡ any (λ m. m.action == "fail") (all_matches rp.rules content scope))
  unfolding check_rules
  check_rules_lem rp content scope = check_rules_from_lem 0 rp.rules content scope

  check_rules_from-append :
      (i : ℕ) (rs ps : List (Rule re.Regexp)) (content scope : String)
      → is_some (check_rules_from re i rs content scope).1 ≡ true
      → check_rules_from re i (rs ++ ps) content scope ≡ check_rules_from re i rs content scope
  unfolding check_rules_from
  check_rules_from-append i [] ps content scope h = cc
  check_rules_from-append i (r ∷ rs) ps content scope h =
      elim (Bool-cases (rule_matches_scope r scope)) [
        | inl here ↦ elim (Option-cases (matches re r content)) [
          | inl e ↦ ground (arith, check_rules_from-append (i + 1) rs ps content scope)
          | inr (msg, e) ↦ ground (arith, check_rules_from-append (i + 1) rs ps content scope)
        ]
        | inr there ↦ ground (arith, check_rules_from-append (i + 1) rs ps content scope)
      ]

  -- A content that the global rules block is blocked for every model, with the same report:
  -- whatever provider policy is merged in, its rules come after the global ones.
  pub resolve_for_model-blocked :
      (p : Policy re.Regexp) (model content scope : String)
      → is_some (check_rules re (base_resolved re p) content scope).1 ≡ true
      → check_rules re (resolve_for_model re p model) content scope
        ≡ check_rules re (base_resolved re p) content scope
  unfolding check_rules resolve_for_model base_resolved merge_provider
  resolve_for_model-blocked p model content scope h =
      elim (Option-cases (search_providers re model p.providers)) [
        | inl e ↦ rw (e, with_provider)
        | inr ((name, pp), e) ↦
            rw (e, with_provider) (check_rules_from-append 0 p.rules pp.rules content scope h)
      ]
