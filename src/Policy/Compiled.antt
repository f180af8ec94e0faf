-- ===== src/Policy/Compiled.antt =====
-- A policy that `Validate` accepts is compiled throughout: no rule is silently without its matcher.
use tokenomics.Base.{
  String, Bool, true, false, not, List, [], ◌∷◌, ◌≡◌, refl, arith, if◌then◌else◌, Bool-cases, inl,
  inr, is_nil, ok, err, Result, ◌>>=◌,
}
use tokenomics.Base.Eq.{string_eq, ◌==◌}
use tokenomics.Policy.Regex.{Regex}
use tokenomics.Policy.Pii.{PiiDetector, compile_pii_detectors}
use tokenomics.Policy.Rule.{
  Rule, is_action, is_scope, compile_rule, compile_matchers, compile_regex, compile_keyword,
  compile_keywords, compile_pii, compile_jailbreak, or_else,
}
use tokenomics.Policy.Checks.{is_some}

-- A chain that is fine is fine at each link.
pub >>=-eq-ok {ℓ κ ι} :
    {E : Type ι} {A : Type ℓ} {B : Type κ} (first : Result E A) (link : A → Result E B) {last : B}
    → (first >>= link) ≡ ok last
    → (a : A) × (first ≡ ok a) × (link a ≡ ok last)
>>=-eq-ok (err x) link h = cc
>>=-eq-ok (ok a) link h = (a, refl, h)

module _ (re : Regex) where
  -- The matcher that the type of a rule needs is there.
  abbrev pub has_matcher : Rule re.Regexp → Bool
  has_matcher r =
      if r.type == "regex"
      then is_some r.compiled_pattern
      else if r.type == "keyword"
      then not (is_nil r.compiled_keywords)
      else if r.type == "pii"
      then not (is_nil r.compiled_pii)
      else r.type == "jailbreak"

  pub record IsCompiled (r : Rule re.Regexp) : Type 0 where
    pub action : is_action r.action ≡ true
    pub scope : is_scope r.scope ≡ true
    pub matcher : has_matcher r ≡ true

  compile_keywords-cons :
      (kws : List String) (cs : List re.Regexp)
      → is_nil kws ≡ false
      → compile_keywords re kws ≡ ok cs
      → is_nil cs ≡ false
  unfolding compile_keywords
  compile_keywords-cons [] cs h e = cc
  compile_keywords-cons (kw ∷ kws) cs h e = ground arith

  compile_pii-cons :
      (ts : List String) (ds : List (PiiDetector re.Regexp))
      → is_nil ts ≡ false
      → compile_pii_detectors re ts ≡ ok ds
      → is_nil ds ≡ false
  unfolding compile_pii_detectors
  compile_pii-cons [] ds h e = cc
  compile_pii-cons (t ∷ ts) ds h e = ground arith

  compile_regex-matcher :
      (r r' : Rule re.Regexp)
      → compile_regex re r ≡ ok r'
      → (r'.type ≡ r.type)
        × (is_some r'.compiled_pattern ≡ true)
        × (r'.action ≡ r.action)
        × (r'.scope ≡ r.scope)
  unfolding compile_regex
  compile_regex-matcher r r' e = ground arith

  compile_keyword-matcher :
      (r r' : Rule re.Regexp)
      → compile_keyword re r ≡ ok r'
      → (r'.type ≡ r.type)
        × (is_nil r'.compiled_keywords ≡ false)
        × (r'.action ≡ r.action)
        × (r'.scope ≡ r.scope)
  unfolding compile_keyword
  compile_keyword-matcher r r' e =
      ground (arith, compile_keywords-cons r.keywords r'.compiled_keywords)

  compile_pii-matcher :
      (r r' : Rule re.Regexp)
      → compile_pii re r ≡ ok r'
      → (r'.type ≡ r.type)
        × (is_nil r'.compiled_pii ≡ false)
        × (r'.action ≡ r.action)
        × (r'.scope ≡ r.scope)
  unfolding compile_pii
  compile_pii-matcher r r' e = ground (arith, compile_pii-cons r.detect r'.compiled_pii)

  compile_jailbreak_same : (r r' : Rule re.Regexp) → compile_jailbreak re r ≡ ok r' → r' ≡ r
  unfolding compile_jailbreak
  compile_jailbreak_same r r' e = ground arith

  compile_matchers-matcher :
      (r r' : Rule re.Regexp)
      → compile_matchers re r ≡ ok r'
      → (has_matcher r' ≡ true) × (r'.action ≡ r.action) × (r'.scope ≡ r.scope)
  unfolding compile_matchers
  compile_matchers-matcher r r' e = ground (
    arith,
    compile_regex-matcher r r',
    compile_keyword-matcher r r',
    compile_pii-matcher r r',
    compile_jailbreak_same r r',
  )

  pub compile_rule-IsCompiled : (r r' : Rule re.Regexp) → compile_rule re r ≡ ok r' → IsCompiled r'
  unfolding compile_rule
  compile_rule-IsCompiled r r' e = elim (Bool-cases (is_action (or_else r.action "fail"))) [
    | inr bad ↦ absurd (let e1 = rw (bad, compile_rule) at e in cc)
    | inl action ↦ elim (Bool-cases (is_scope (or_else r.scope "input"))) [
      | inr bad ↦ absurd (let e1 = rw (action, bad, compile_rule) at e in cc)
      | inl scope ↦
          let e1 = rw (action, scope, compile_rule) at e in
          let (matcher, same_action, same_scope) = compile_matchers-matcher _ r' e1 in
          record { action = rw same_action action; scope = rw same_scope scope; matcher = matcher }
    ]
  ]
