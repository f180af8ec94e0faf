-- ===== src/Policy/Regex.antt =====
-- Go's packages `regexp` and `strings`, which the policies call and this repository does not
-- implement: a parameter of the model. The laws are what their documentation says.
use tokenomics.Base.{String, ◌≡◌, Bool, false, List, [], Option}

pub record Regex : Type 1 where
  pub Regexp : Type 0
  -- `none` is the error of `regexp.Compile`.
  pub compile : String → Option Regexp
  pub match_string : Regexp → String → Bool
  pub find_all_string : Regexp → String → List String
  pub replace_all_string : Regexp → String → String → String
  pub quote_meta : String → String
  -- `Regexp.String`, the text of the expression.
  pub source : Regexp → String
  pub to_lower : String → String

-- Where an expression does not match, there is nothing to find and nothing to replace.
pub record RegexLaws (re : Regex) : Type 0 where
  pub replace_unmatched :
      (r : re.Regexp) (s by_text : String)
      → re.match_string r s ≡ false
      → re.replace_all_string r s by_text ≡ s
  pub find_unmatched :
      (r : re.Regexp) (s : String) → re.find_all_string r s ≡ [] → re.match_string r s ≡ false
