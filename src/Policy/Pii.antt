-- ===== src/Policy/Pii.antt =====
-- internal/policy/pii.go: the built-in patterns, their detectors, and the jailbreak patterns.
use tokenomics.Base.{
  String, Bool, List, [], ◌∷◌, ◌++◌, map, Option, none, some, Result, ok, err, ◌>>=◌, any,
}
use tokenomics.Base.Eq.{string_eq}
use tokenomics.Base.Dict.{Dict, lookup}
use tokenomics.Policy.Regex.{Regex}

-- The category of a detector, by its name, and the label for logs.
pub record PiiSpec : Type 0 where
  pub pattern : String
  pub label : String

unfoldable pub builtin_pii : Dict String PiiSpec
builtin_pii =
    ("ssn", record { pattern = "\\b\\d{3}-\\d{2}-\\d{4}\\b"; label = "Social Security Number" })
    ∷ (
      "credit_card",
      record {
        pattern = "\\b(?:4\\d{3}|5[1-5]\\d{2}|3[47]\\d{2}|6(?:011|5\\d{2}))\\d{4,}\\d{4,}\\b";
        label = "Credit Card Number";
      },
    )
    ∷ (
      "email",
      record {
        pattern = "\\b[A-Za-z0-9._%+\\-]+@[A-Za-z0-9.\\-]+\\.[A-Za-z]{2,}\\b";
        label = "Email Address";
      },
    )
    ∷ (
      "phone",
      record {
        pattern = "\\b(?:\\+?1[-.\\s]?)?\\(?\\d{3}\\)?[-.\\s]?\\d{3}[-.\\s]?\\d{4}\\b";
        label = "Phone Number";
      },
    )
    ∷ (
      "ip_address",
      record {
        pattern =
            "\\b(?:25[0-5]|2[0-4]\\d|[01]?\\d\\d?)\\.(?:25[0-5]|2[0-4]\\d|[01]?\\d\\d?)\\.(?:25[0-5]|2[0-4]\\d|[01]?\\d\\d?)\\.(?:25[0-5]|2[0-4]\\d|[01]?\\d\\d?)\\b";
        label = "IP Address";
      },
    )
    ∷ (
      "aws_key",
      record { pattern = "\\b(?:AKIA|ABIA|ACCA|ASIA)[0-9A-Z]{16}\\b"; label = "AWS Access Key" },
    )
    ∷ (
      "api_key",
      record {
        pattern = "\\b(?:sk|key|api|token|secret)[-_][A-Za-z0-9]{20,}\\b";
        label = "API Key";
      },
    )
    ∷ (
      "jwt",
      record {
        pattern = "\\beyJ[A-Za-z0-9_-]{10,}\\.[A-Za-z0-9_-]{10,}\\.[A-Za-z0-9_-]{10,}\\b";
        label = "JSON Web Token";
      },
    )
    ∷ (
      "private_key",
      record { pattern = "-----BEGIN (?:RSA |EC |DSA )?PRIVATE KEY-----"; label = "Private Key" },
    )
    ∷ (
      "connection_string",
      record {
        pattern = "\\b(?:mongodb|postgres|mysql|redis)://[^\\s]+\\b";
        label = "Database Connection String";
      },
    )
    ∷ (
      "github_token",
      record { pattern = "\\b(?:ghp|gho|ghs|ghr)_[A-Za-z0-9]{36,}\\b"; label = "GitHub Token" },
    )
    ∷ []

unfoldable pub jailbreak_patterns : List (String × String)
jailbreak_patterns =
    ("ignore_previous", "(?i)ignore\\s+(your\\s+)?previous\\s+(instructions|rules|guidelines)")
    ∷ (
      "forget_previous",
      "(?i)forget\\s+(all\\s+)?(previous|earlier|prior)\\s+(instructions|rules|constraints)",
    )
    ∷ (
      "disregard_instructions",
      "(?i)(disregard|abandon|drop|remove)\\s+(all\\s+)?(instructions|rules|constraints|guidelines)",
    )
    ∷ (
      "developer_mode",
      "(?i)(developer\\s+mode|test\\s+mode|debug\\s+mode|you\\s+are\\s+in\\s+\\w+\\s+mode)",
    )
    ∷ (
      "bypass_safety",
      "(?i)(bypass|disable|remove|override|circumvent)\\s+(all\\s+)?(safety|security|ethical|content\\s+)?filters?",
    )
    ∷ (
      "harmful_roleplay",
      "(?i)(act\\s+as|roleplay|pretend|imagine|assume|you\\s+are)\\s+(\\w+\\s+)*(unrestricted|unconstrained|unfiltered|jailbroken|hacker|evil|malicious|unethical)",
    )
    ∷ (
      "hypothetical_harm",
      "(?i)(hypothetically|for\\s+research|for\\s+academic|as\\s+a\\s+test|in\\s+a\\s+scenario).*(exploit|harmful|illegal|unethical|violence|hack)",
    )
    ∷ ("known_jailbreaks", "(?i)\\b(DAN|UCAR|Coach|AIM|STAN|TalkGPT|BadGPT|BadAI)\\s*:")
    ∷ []

pub record PiiDetector (R : Type 0) : Type 0 where
  pub pii_type : String
  pub pattern : R
  pub label : String

pub record PiiMatch : Type 0 where
  pub pii_type : String
  pub label : String
  pub value : String

pub data PiiError : Type 0 where
  unknown_pii_type bad_pii_pattern : String → PiiError

module _ (re : Regex) where
  open re use {Regexp, compile, match_string, find_all_string, replace_all_string, to_lower}

  -- Those of the patterns that compile, in order.
  unfoldable pub compile_all : List (String × String) → List Regexp
  compile_all [] = []
  compile_all ((name, p) ∷ ps) = elim (compile p) [
    | none ↦ compile_all ps
    | some r ↦ r ∷ compile_all ps
  ]

  unfoldable pub compiled_jailbreak_patterns : List Regexp
  compiled_jailbreak_patterns = compile_all jailbreak_patterns

  unfoldable pub detect_jailbreak_fast : String → Bool
  detect_jailbreak_fast content = any (λ r. match_string r content) compiled_jailbreak_patterns

  abbrev pub detector_of : String → String → Option PiiSpec → Result PiiError (PiiDetector Regexp)
  detector_of t pii_type none = err (unknown_pii_type t)
  detector_of t pii_type (some spec) = elim (compile spec.pattern) [
    | none ↦ err (bad_pii_pattern t)
    | some r ↦ ok (record { pii_type = pii_type; pattern = r; label = spec.label })
  ]

  unfoldable pub compile_pii_detectors : List String → Result PiiError (List (PiiDetector Regexp))
  compile_pii_detectors [] = ok []
  compile_pii_detectors (t ∷ ts) = do
    d ← detector_of t (to_lower t) (lookup (to_lower t) builtin_pii)
    ds ← compile_pii_detectors ts
    ok (d ∷ ds)

  unfoldable pub detect_pii : String → List (PiiDetector Regexp) → List PiiMatch
  detect_pii content [] = []
  detect_pii content (d ∷ ds) =
      map (λ f. record { pii_type = d.pii_type; label = d.label; value = f })
        (find_all_string d.pattern content)
      ++ detect_pii content ds

  unfoldable pub mask_pii : String → List (PiiDetector Regexp) → String
  mask_pii content [] = content
  mask_pii content (d ∷ ds) = mask_pii (replace_all_string d.pattern content "[REDACTED]") ds
