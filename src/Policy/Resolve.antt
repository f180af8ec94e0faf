-- ===== src/Policy/Resolve.antt =====
-- internal/policy/policy.go: `ProviderPolicy`, `Policy`, `ResolvedPolicy`, validation and resolution.
-- The map of providers is an association list: its order is the order in which `range` visits it.
use tokenomics.Base.{
  String, Bool, true, false, not, ◌&&◌, List, [], ◌∷◌, ◌++◌, Option, none, some, Result, ok, err,
  ◌>>=◌, is_nil, if◌then◌else◌, ℕ, ◌+◌,
}
use tokenomics.Base.Eq.{string_eq, ◌==◌}
use tokenomics.Base.Dict.{Dict, lookup}
use tokenomics.Base.Word.{Int64, lt64}
use tokenomics.RateLimit.Window.{RateLimitConfig}
use tokenomics.Policy.Regex.{Regex}
use tokenomics.Policy.Rule.{Rule, RuleError, compile_rule, or_else}

-- `Message`
pub record Message : Type 0 where
  pub role : String
  pub content : String

pub record MemoryConfig : Type 0 where
  pub enabled : Bool
  pub file_path : String
  pub file_name : String
  pub redis : Bool
  pub max_size_mb : Int64
  pub compress_old : Bool

pub record RetryConfig : Type 0 where
  pub max_retries : Int64
  pub fallbacks : List String
  pub retry_on : List Int64

pub record ProviderPolicy (R : Type 0) : Type 0 where
  pub base_key_env : String
  pub upstream_url : String
  pub max_tokens : Int64
  pub model : String
  pub model_regex : String
  pub prompts : List Message
  pub rules : List (Rule R)
  pub timeout : Int64
  pub compiled_model_regex : Option R

pub record Policy (R : Type 0) : Type 0 where
  pub base_key_env : String
  pub upstream_url : String
  pub max_tokens : Int64
  pub model : String
  pub model_regex : String
  pub prompts : List Message
  pub rules : List (Rule R)
  pub providers : Dict String (List (ProviderPolicy R))
  pub default_provider : String
  pub memory : MemoryConfig
  pub rate_limit : Option RateLimitConfig
  pub retry : Option RetryConfig
  pub timeout : Int64
  pub metadata : Dict String String
  pub compiled_model_regex : Option R

pub record ResolvedPolicy (R : Type 0) : Type 0 where
  pub base_key_env : String
  pub upstream_url : String
  pub max_tokens : Int64
  pub model : String
  pub model_regex : String
  pub provider_name : String
  pub prompts : List Message
  pub rules : List (Rule R)
  pub memory : MemoryConfig
  pub rate_limit : Option RateLimitConfig
  pub retry : Option RetryConfig
  pub timeout : Int64
  pub metadata : Dict String String
  pub compiled_model_regex : Option R

-- The errors of `Validate`, with the places that their messages name.
pub data PolicyError : Type 0 where
  base_key_required : PolicyError
  invalid_model_regex : String → PolicyError
  global_rule : ℕ → RuleError → PolicyError
  provider_key_required : String → ℕ → PolicyError
  provider_model_regex : String → ℕ → String → PolicyError
  provider_rule : String → ℕ → ℕ → RuleError → PolicyError

module _ (re : Regex) where
  open re use {Regexp, compile, match_string}

  -- `if s != "" { … regexp.Compile(s) … }`: the new pointer, which stays as it was for the empty text.
  unfoldable pub compile_model_regex :
      PolicyError → String → Option Regexp → Result PolicyError (Option Regexp)
  compile_model_regex e s old =
      if s == "" then ok old else elim (compile s) [ none ↦ err e | some r ↦ ok (some r) ]

  abbrev pub compiled {ℓ} :
      {E : Type ℓ} {A : Type 0} → (RuleError → E) → Result RuleError A → Result E A
  compiled e (ok r) = ok r
  compiled e (err x) = err (e x)

  unfoldable pub compile_rules :
      (ℕ → RuleError → PolicyError)
      → ℕ
      → List (Rule Regexp)
      → Result PolicyError (List (Rule Regexp))
  compile_rules e i [] = ok []
  compile_rules e i (r ∷ rs) = do
    r' ← compiled (e i) (compile_rule re r)
    rs' ← compile_rules e (i + 1) rs
    ok (r' ∷ rs')

  -- `ProviderPolicy.compile`
  unfoldable pub compile_provider :
      String → ℕ → ProviderPolicy Regexp → Result PolicyError (ProviderPolicy Regexp)
  compile_provider name i pp = do
    c ←
        compile_model_regex (provider_model_regex name i pp.model_regex) pp.model_regex
          pp.compiled_model_regex
    rs ← compile_rules (provider_rule name i) 0 pp.rules
    ok (record pp { compiled_model_regex = c; rules = rs })

  unfoldable pub compile_policies :
      String → ℕ → List (ProviderPolicy Regexp) → Result PolicyError (List (ProviderPolicy Regexp))
  compile_policies name i [] = ok []
  compile_policies name i (pp ∷ pps) =
      let rest = compile_policies name (i + 1) pps in
      if pp.base_key_env == ""
      then err (provider_key_required name i)
      else compile_provider name i pp >>= λ pp'. rest >>= λ pps'. ok (pp' ∷ pps')

  unfoldable pub compile_providers :
      Dict String (List (ProviderPolicy Regexp))
      → Result PolicyError (Dict String (List (ProviderPolicy Regexp)))
  compile_providers [] = ok []
  compile_providers ((name, pps) ∷ m) = do
    pps' ← compile_policies name 0 pps
    m' ← compile_providers m
    ok ((name, pps') ∷ m')

  unfoldable pub validate : Policy Regexp → Result PolicyError (Policy Regexp)
  validate p = if p.base_key_env == "" && is_nil p.providers then err base_key_required else (do
    c ← compile_model_regex (invalid_model_regex p.model_regex) p.model_regex p.compiled_model_regex
    rs ← compile_rules global_rule 0 p.rules
    ps ← compile_providers p.providers
    ok (record p { compiled_model_regex = c; rules = rs; providers = ps }))

  unfoldable pub matches_regex : Option Regexp → String → Bool
  matches_regex none model = false
  matches_regex (some r) model = match_string r model

  unfoldable pub matches_model : ProviderPolicy Regexp → String → Bool
  matches_model pp model =
      if not (pp.model == "") && (pp.model == model)
      then true
      else if matches_regex pp.compiled_model_regex model
      then true
      else (pp.model == "") && (pp.model_regex == "")

  unfoldable pub base_resolved : Policy Regexp → ResolvedPolicy Regexp
  base_resolved p = record {
    base_key_env = p.base_key_env;
    upstream_url = p.upstream_url;
    max_tokens = p.max_tokens;
    model = p.model;
    model_regex = p.model_regex;
    provider_name = "";
    prompts = p.prompts;
    rules = p.rules;
    memory = p.memory;
    rate_limit = p.rate_limit;
    retry = p.retry;
    timeout = p.timeout;
    metadata = p.metadata;
    compiled_model_regex = p.compiled_model_regex;
  }

  -- `compiledModelRegex` after the assignments for `Model` and then for `ModelRegex`.
  unfoldable pub merged_regex : ResolvedPolicy Regexp → ProviderPolicy Regexp → Option Regexp
  merged_regex r pp =
      if not (pp.model_regex == "")
      then pp.compiled_model_regex
      else if not (pp.model == "")
      then none
      else r.compiled_model_regex

  unfoldable pub merge_provider :
      ResolvedPolicy Regexp → ProviderPolicy Regexp → ResolvedPolicy Regexp
  merge_provider r pp = record r {
    base_key_env = or_else pp.base_key_env r.base_key_env;
    upstream_url = or_else pp.upstream_url r.upstream_url;
    max_tokens = if lt64 0 pp.max_tokens then pp.max_tokens else r.max_tokens;
    model = or_else pp.model r.model;
    model_regex = or_else pp.model_regex r.model_regex;
    compiled_model_regex = merged_regex r pp;
    timeout = if lt64 0 pp.timeout then pp.timeout else r.timeout;
    prompts = pp.prompts ++ r.prompts;
    rules = r.rules ++ pp.rules;
  }

  unfoldable pub first_policy :
      String → List (ProviderPolicy Regexp) → Option (ProviderPolicy Regexp)
  first_policy model [] = none
  first_policy model (pp ∷ pps) = if matches_model pp model then some pp else first_policy model pps

  -- The two nested loops of `ResolveForModel`, up to the first match.
  unfoldable pub search_providers :
      String → Dict String (List (ProviderPolicy Regexp)) → Option (String × ProviderPolicy Regexp)
  search_providers model [] = none
  search_providers model ((name, pps) ∷ m) = elim (first_policy model pps) [
    | some pp ↦ some (name, pp)
    | none ↦ search_providers model m
  ]

  abbrev pub with_provider :
      ResolvedPolicy Regexp → Option (String × ProviderPolicy Regexp) → ResolvedPolicy Regexp
  with_provider r none = r
  with_provider r (some (name, pp)) = merge_provider (record r { provider_name = name }) pp

  unfoldable pub resolve_for_model : Policy Regexp → String → ResolvedPolicy Regexp
  resolve_for_model p model = with_provider (base_resolved p) (search_providers model p.providers)

  abbrev first_of_provider :
      String → Option (List (ProviderPolicy Regexp)) → Option (String × ProviderPolicy Regexp)
  first_of_provider name none = none
  first_of_provider name (some []) = none
  first_of_provider name (some (pp ∷ pps)) = some (name, pp)

  unfoldable pub resolve_provider : Policy Regexp → String → ResolvedPolicy Regexp
  resolve_provider p name =
      if name == ""
      then base_resolved p
      else with_provider (base_resolved p) (first_of_provider name (lookup name p.providers))
