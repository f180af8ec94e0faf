-- ===== src/Policy/Samples.antt =====
-- Policies for the tests, over a toy matcher, where an expression matches the text that it is.
use tokenomics.Base.{String, refl, none, some, [], ◌∷◌, false, if◌then◌else◌, Bool-cases, inl, inr}
use tokenomics.Base.Eq.{string_eq, ◌==◌}
use tokenomics.Policy.Regex.{Regex, RegexLaws}
use tokenomics.Policy.Rule.{Rule}
use tokenomics.Policy.Resolve.{Policy, ProviderPolicy}

abbrev pub literal : Regex
literal = record {
  Regexp = String;
  compile = λ s. if s == "" then none else some s;
  match_string = λ r s. r == s;
  find_all_string = λ r s. if r == s then s ∷ [] else [];
  replace_all_string = λ r s t. if r == s then t else s;
  quote_meta = λ s. s;
  source = λ r. r;
  to_lower = λ s. s;
}

pub literal-RegexLaws : RegexLaws literal
literal-RegexLaws = record {
  replace_unmatched = λ r s t h. rw h refl;
  find_unmatched =
      λ r s h. elim (Bool-cases (r == s)) [ inr e ↦ e | inl e ↦ absurd (let e1 = rw e at h in cc) ];
}

abbrev pub secret_rule : Rule String
secret_rule = record {
  name = "no secrets";
  type = "regex";
  pattern = "secret";
  keywords = [];
  detect = [];
  action = "mask";
  scope = "both";
  compiled_pattern = some "secret";
  compiled_keywords = [];
  compiled_pii = [];
}

abbrev pub raw_rule : Rule String
raw_rule = record secret_rule { action = "fail"; scope = "input"; compiled_pattern = none }

abbrev pub blocking_rule : Rule String
blocking_rule = record secret_rule { action = "fail"; scope = "input" }

abbrev pub small_model : ProviderPolicy String
small_model = record {
  base_key_env = "SMALL_KEY";
  upstream_url = "";
  max_tokens = 0;
  model = "small";
  model_regex = "";
  prompts = [];
  rules = [];
  timeout = 0;
  compiled_model_regex = none;
}

abbrev pub large_model : ProviderPolicy String
large_model = record small_model { base_key_env = "LARGE_KEY"; model = "large" }

abbrev pub raw_policy : Policy String
raw_policy = record {
  base_key_env = "KEY";
  upstream_url = "";
  max_tokens = 0;
  model = "";
  model_regex = "";
  prompts = [];
  rules = raw_rule ∷ [];
  providers = ("one", small_model ∷ []) ∷ ("two", large_model ∷ []) ∷ [];
  default_provider = "";
  memory = record {
    enabled = false;
    file_path = "";
    file_name = "";
    redis = false;
    max_size_mb = 0;
    compress_old = false;
  };
  rate_limit = none;
  retry = none;
  timeout = 0;
  metadata = [];
  compiled_model_regex = none;
}

abbrev pub ready_policy : Policy String
ready_policy = record raw_policy { rules = blocking_rule ∷ [] }
