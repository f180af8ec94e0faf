-- ===== src/Policy/Parse.antt =====
-- internal/policy/policy.go, `Parse`: `unmarshal` is `json.Unmarshal` into a `Policy`, `none` its error.
use tokenomics.Base.{String, Option, none, some, Result, ok, err}
use tokenomics.Policy.Regex.{Regex}
use tokenomics.Policy.Resolve.{Policy, PolicyError, validate}

pub data ParseError : Type 0 where
  invalid_json : ParseError
  invalid_policy : PolicyError → ParseError

module _ (re : Regex) (unmarshal : String → Option (Policy re.Regexp)) where
  unfoldable pub parse : String → Result ParseError (Policy re.Regexp)
  parse data_text = elim (unmarshal data_text) [
    | none ↦ err invalid_json
    | some p ↦ elim (validate re p) [ ok p' ↦ ok p' | err e ↦ err (invalid_policy e) ]
  ]
