-- ===== src/Policy/Engine.antt =====
-- internal/policy/engine.go: what a resolved policy checks, masks and injects.
use tokenomics.Base.{
  String, Bool, true, false, not, ◌&&◌, ◌||◌, List, [], ◌∷◌, ◌++◌, Option, none, some, Result, ok,
  err, is_nil, if◌then◌else◌, ℕ, ◌+◌, map, any,
}
use tokenomics.Base.Eq.{string_eq, ◌==◌}
use tokenomics.Base.Dict.{Dict}
use tokenomics.Policy.Regex.{Regex}
use tokenomics.Policy.Rule.{Rule, MatchText, matches, mask_rule, or_else}
use tokenomics.Policy.Resolve.{ResolvedPolicy, Policy, resolve_provider}

-- `RuleMatch`
pub record RuleMatch (R : Type 0) : Type 0 where
  pub rule : Rule R
  pub name : String
  pub action : String
  pub message : MatchText

-- The error of `CheckRules` names the rule's position and the match.
pub record Blocked : Type 0 where
  pub index : ℕ
  pub message : MatchText

pub data ModelError : Type 0 where
  wrong_model unmatched_model : String → String → ModelError

unfoldable pub rule_matches_scope : {R : Type 0} → Rule R → String → Bool
rule_matches_scope r scope =
    let rule_scope = or_else r.scope "input" in
    if rule_scope == "both" then true else rule_scope == scope

module _ (re : Regex) where
  open re use {Regexp, match_string}

  unfoldable pub refuses : Option Regexp → String → Bool
  refuses none model = false
  refuses (some r) model = not (match_string r model)

  unfoldable pub check_model : ResolvedPolicy Regexp → String → Result ModelError (Unit {0})
  check_model rp model =
      if not (rp.model == "") && not (model == rp.model)
      then err (wrong_model model rp.model)
      else if refuses rp.compiled_model_regex model
      then err (unmatched_model model rp.model_regex)
      else ok tt

  -- The matches of `CheckRules` and its error, if a rule with action "fail" matched.
  unfoldable pub check_rules_from :
      ℕ → List (Rule Regexp) → String → String → List (RuleMatch Regexp) × Option Blocked
  check_rules_from i [] content scope = ([], none)
  check_rules_from i (r ∷ rs) content scope =
      let rest = check_rules_from (i + 1) rs content scope in
      if not (rule_matches_scope r scope) then rest else elim (matches re r content) [
        | none ↦ rest
        | some msg ↦
            let found : RuleMatch Regexp = record {
              rule = r;
              name = r.name;
              action = r.action;
              message = msg;
            } in
            if r.action == "fail"
            then (found ∷ [], some (record { index = i; message = msg }))
            else (found ∷ rest.0, rest.1)
      ]

  unfoldable pub check_rules :
      ResolvedPolicy Regexp → String → String → List (RuleMatch Regexp) × Option Blocked
  check_rules rp content scope = check_rules_from 0 rp.rules content scope

  unfoldable pub mask_content_with : List (Rule Regexp) → String → String → String
  mask_content_with [] content scope = content
  mask_content_with (r ∷ rs) content scope =
      mask_content_with rs
        (if not (r.action == "mask")
          then content
          else if not (rule_matches_scope r scope)
          then content
          else mask_rule re r content)
        scope

  unfoldable pub mask_content : ResolvedPolicy Regexp → String → String → String
  mask_content rp content scope = mask_content_with rp.rules content scope

  unfoldable pub has_output_rules : ResolvedPolicy Regexp → Bool
  has_output_rules rp = any (λ r. r.scope == "output" || r.scope == "both") rp.rules

  -- A message is a JSON object; `text` makes the JSON value of a string.
  unfoldable pub inject_prompts :
      {V : Type 0}
      → (String → V)
      → ResolvedPolicy Regexp
      → List (Dict String V)
      → List (Dict String V)
  inject_prompts text rp messages =
      if is_nil rp.prompts
      then messages
      else map (λ pm. ("role", text pm.role) ∷ ("content", text pm.content) ∷ []) rp.prompts
        ++ messages

  -- The methods of `Policy` itself, on the global fields.
  unfoldable pub check_global_model : Policy Regexp → String → Result ModelError (Unit {0})
  check_global_model p model = check_model (resolve_provider re p "") model

  unfoldable pub check_global_rules : Policy Regexp → String → Option Blocked
  check_global_rules p content = (check_rules (resolve_provider re p "") content "input").1
