-- ===== src/Policy/Rule.antt =====
-- internal/policy/policy.go, `Rule`: compiling, matching and masking. A matcher that the Go code keeps
-- as a nil pointer until `compile` is an `Option`, a slice of them a list.
use tokenomics.Base.{
  String, Bool, not, ◌||◌, List, [], ◌∷◌, map, Option, none, some, Result, ok, err, ◌>>=◌, is_nil,
  if◌then◌else◌,
}
use Prim.Native.String.{◌++◌ as ◌+++◌}
use tokenomics.Base.Eq.{string_eq, ◌==◌}
use tokenomics.Policy.Regex.{Regex}
use tokenomics.Policy.Pii.{
  PiiDetector, PiiError, compile_pii_detectors, detect_pii, mask_pii, detect_jailbreak_fast,
}

pub record Rule (R : Type 0) : Type 0 where
  pub name : String
  pub type : String
  pub pattern : String
  pub keywords : List String
  pub detect : List String
  pub action : String
  pub scope : String
  pub compiled_pattern : Option R
  pub compiled_keywords : List R
  pub compiled_pii : List (PiiDetector R)

pub data RuleError : Type 0 where
  invalid_action invalid_scope invalid_type invalid_regex invalid_keyword : String → RuleError
  pattern_required keyword_required detect_required jailbreak_has_fields : RuleError
  pii_error : PiiError → RuleError

-- What `matches` reports, as the values that go into its text; the empty text is `none`.
pub data MatchText : Type 0 where
  matched_regex jailbreak_attempt : String → MatchText
  matched_keyword : String → String → MatchText
  detected_pii : String → List String → MatchText

abbrev pub or_else : String → String → String
or_else s d = if s == "" then d else s

abbrev pub is_action : String → Bool
is_action a = a == "fail" || a == "warn" || a == "log" || a == "mask"

abbrev pub is_scope : String → Bool
is_scope s = s == "input" || s == "output" || s == "both"

module _ (re : Regex) where
  open re use {Regexp, compile, match_string, replace_all_string, quote_meta, source}

  unfoldable pub compile_keywords : List String → Result RuleError (List Regexp)
  compile_keywords [] = ok []
  compile_keywords (kw ∷ kws) = elim (compile ("(?i)\\b" +++ quote_meta kw +++ "\\b")) [
    | none ↦ err (invalid_keyword kw)
    | some r ↦ compile_keywords kws >>= λ rs. ok (r ∷ rs)
  ]

  unfoldable pub compile_regex : Rule Regexp → Result RuleError (Rule Regexp)
  compile_regex r = if r.pattern == "" then err pattern_required else elim (compile r.pattern) [
    | none ↦ err (invalid_regex r.pattern)
    | some c ↦ ok (record r { compiled_pattern = some c })
  ]

  unfoldable pub compile_keyword : Rule Regexp → Result RuleError (Rule Regexp)
  compile_keyword r =
      if is_nil r.keywords
      then err keyword_required
      else compile_keywords r.keywords >>= λ cs. ok (record r { compiled_keywords = cs })

  abbrev pub with_detectors :
      Rule Regexp → Result PiiError (List (PiiDetector Regexp)) → Result RuleError (Rule Regexp)
  with_detectors r (err e) = err (pii_error e)
  with_detectors r (ok ds) = ok (record r { compiled_pii = ds })

  unfoldable pub compile_pii : Rule Regexp → Result RuleError (Rule Regexp)
  compile_pii r =
      if is_nil r.detect
      then err detect_required
      else with_detectors r (compile_pii_detectors re r.detect)

  unfoldable pub compile_jailbreak : Rule Regexp → Result RuleError (Rule Regexp)
  compile_jailbreak r =
      if not (r.pattern == "") || not (is_nil r.keywords) || not (is_nil r.detect)
      then err jailbreak_has_fields
      else ok r

  unfoldable pub compile_matchers : Rule Regexp → Result RuleError (Rule Regexp)
  compile_matchers r =
      if r.type == "regex"
      then compile_regex r
      else if r.type == "keyword"
      then compile_keyword r
      else if r.type == "pii"
      then compile_pii r
      else if r.type == "jailbreak"
      then compile_jailbreak r
      else err (invalid_type r.type)

  -- The defaults are filled in where the code reaches them; a rule that is refused is dropped with
  -- its policy, so what it had filled in is not kept.
  unfoldable pub compile_rule : Rule Regexp → Result RuleError (Rule Regexp)
  compile_rule r =
      let action = or_else r.action "fail" in
      if not (is_action action)
      then err (invalid_action action)
      else (let scope = or_else r.scope "input" in
          if not (is_scope scope)
          then err (invalid_scope scope)
          else compile_matchers
              (record r { action = action; scope = scope; type = or_else r.type "regex" }))

  unfoldable pub first_match : List Regexp → String → Option Regexp
  first_match [] content = none
  first_match (r ∷ rs) content = if match_string r content then some r else first_match rs content

  unfoldable pub match_regex : Rule Regexp → String → Option MatchText
  match_regex r content = elim r.compiled_pattern [
    | none ↦ none
    | some c ↦
        if match_string c content then some (matched_regex (or_else r.name r.pattern)) else none
  ]

  unfoldable pub match_keyword : Rule Regexp → String → Option MatchText
  match_keyword r content = elim (first_match r.compiled_keywords content) [
    | none ↦ none
    | some kw ↦ some (matched_keyword (or_else r.name "keyword") (source kw))
  ]

  unfoldable pub match_pii : Rule Regexp → String → Option MatchText
  match_pii r content =
      let found = detect_pii re content r.compiled_pii in
      if is_nil found
      then none
      else some (detected_pii (or_else r.name "pii") (map (λ m. m.label) found))

  unfoldable pub match_jailbreak : Rule Regexp → String → Option MatchText
  match_jailbreak r content =
      if detect_jailbreak_fast re content
      then some (jailbreak_attempt (or_else r.name "jailbreak"))
      else none

  unfoldable pub matches : Rule Regexp → String → Option MatchText
  matches r content =
      if r.type == "regex"
      then match_regex r content
      else if r.type == "keyword"
      then match_keyword r content
      else if r.type == "pii"
      then match_pii r content
      else if r.type == "jailbreak"
      then match_jailbreak r content
      else none

  unfoldable pub mask_keywords : List Regexp → String → String
  mask_keywords [] content = content
  mask_keywords (kw ∷ kws) content = mask_keywords kws (replace_all_string kw content "[REDACTED]")

  unfoldable pub mask_regex : Option Regexp → String → String
  mask_regex none content = content
  mask_regex (some c) content = replace_all_string c content "[REDACTED]"

  unfoldable pub mask_rule : Rule Regexp → String → String
  mask_rule r content =
      if r.type == "regex"
      then mask_regex r.compiled_pattern content
      else if r.type == "keyword"
      then mask_keywords r.compiled_keywords content
      else if r.type == "pii"
      then mask_pii re content r.compiled_pii
      else if r.type == "jailbreak"
      then (if detect_jailbreak_fast re content then "[JAILBREAK_ATTEMPT_REDACTED]" else content)
      else content
