-- ===== src/Policy/Validated.antt =====
-- What `Validate` promises of the policy that it accepts, globally and for each provider.
use tokenomics.Base.{
  String, true, false, ◌&&◌, List, [], ◌∷◌, Option, ◌≡◌, arith, All, Bool-cases, Result-cases, inl,
  inr, is_nil, ok, err, Result, ◌>>=◌, ℕ, ◌+◌,
}
use tokenomics.Base.Eq.{string_eq, ◌==◌}
use tokenomics.Base.Dict.{Dict}
use tokenomics.Policy.Regex.{Regex}
use tokenomics.Policy.Rule.{Rule, RuleError, compile_rule}
use tokenomics.Policy.Resolve.{
  Policy, ProviderPolicy, PolicyError, compile_rules, compile_provider, compile_policies,
  compile_providers, compile_model_regex, validate, compiled, provider_rule, global_rule,
  provider_model_regex, invalid_model_regex,
}
use tokenomics.Policy.Checks.{is_some}
use tokenomics.Policy.Compiled.{IsCompiled, compile_rule-IsCompiled, >>=-eq-ok}

module _ (re : Regex) where
  -- A model pattern is compiled if there is one.
  abbrev pub PatternReady : String → Option re.Regexp → Type 0
  PatternReady pattern c = (pattern == "") ≡ false → is_some c ≡ true

  -- A provider's policy names its key, and its rules and its pattern are compiled.
  pub record IsUsable (pp : ProviderPolicy re.Regexp) : Type 0 where
    pub key : (pp.base_key_env == "") ≡ false
    pub pattern : PatternReady pp.model_regex pp.compiled_model_regex
    pub rules : All (IsCompiled re) pp.rules

  abbrev pub AllUsable : Dict String (List (ProviderPolicy re.Regexp)) → Type 0
  AllUsable [] = Unit {0}
  AllUsable ((name, pps) ∷ m) = All IsUsable pps × AllUsable m

  pub record IsValid (p : Policy re.Regexp) : Type 0 where
    pub key_or_provider : ((p.base_key_env == "") && is_nil p.providers) ≡ false
    pub pattern : PatternReady p.model_regex p.compiled_model_regex
    pub rules : All (IsCompiled re) p.rules
    pub providers : AllUsable p.providers

  compiled-eq_ok :
      (f : RuleError → PolicyError) (x : Result RuleError (Rule re.Regexp)) (r : Rule re.Regexp)
      → compiled re f x ≡ ok r
      → x ≡ ok r
  compiled-eq_ok f (ok a) r e = ground arith
  compiled-eq_ok f (err a) r e = cc

  compile_rules-IsCompiled :
      (f : ℕ → RuleError → PolicyError) (i : ℕ) (rs rs' : List (Rule re.Regexp))
      → compile_rules re f i rs ≡ ok rs'
      → All (IsCompiled re) rs'
  unfolding compile_rules
  compile_rules-IsCompiled f i [] rs' e = ground arith
  compile_rules-IsCompiled f i (r ∷ rs) rs' e =
      let (r', e1, e2) =
        >>=-eq-ok (compiled re (f i) (compile_rule re r))
          (λ r'. compile_rules re f (i + 1) rs >>= λ rs'. ok (r' ∷ rs')) e in
      let (rs2, e3, e4) = >>=-eq-ok (compile_rules re f (i + 1) rs) (λ rs'. ok (r' ∷ rs')) e2 in
      let here = compile_rule-IsCompiled re r r' (compiled-eq_ok (f i) _ r' e1) in
      let rest = compile_rules-IsCompiled f (i + 1) rs rs2 e3 in ground (arith, here, rest)

  compile_model_regex-ready :
      (x : PolicyError) (pattern : String) (old c : Option re.Regexp)
      → compile_model_regex re x pattern old ≡ ok c
      → PatternReady pattern c
  unfolding compile_model_regex
  compile_model_regex-ready x pattern old c e = ground arith

  compile_provider-IsUsable :
      (name : String) (i : ℕ) (pp pp' : ProviderPolicy re.Regexp)
      → (pp.base_key_env == "") ≡ false
      → compile_provider re name i pp ≡ ok pp'
      → IsUsable pp'
  unfolding compile_provider
  compile_provider-IsUsable name i pp pp' key e =
      let x = provider_model_regex name i pp.model_regex in
      elim (Result-cases (compile_model_regex re x pp.model_regex pp.compiled_model_regex)) [
        | inr (z, e1) ↦ absurd (ground arith)
        | inl (c, e1) ↦ elim (Result-cases (compile_rules re (provider_rule name i) 0 pp.rules)) [
          | inr (z, e2) ↦ absurd (ground arith)
          | inl (rs, e2) ↦
              let pattern = compile_model_regex-ready x pp.model_regex _ c e1 in
              let rules = compile_rules-IsCompiled (provider_rule name i) 0 pp.rules rs e2 in
              ground (arith, pattern, rules)
        ]
      ]

  compile_policies-IsUsable :
      (name : String) (i : ℕ) (pps pps' : List (ProviderPolicy re.Regexp))
      → compile_policies re name i pps ≡ ok pps'
      → All IsUsable pps'
  unfolding compile_policies
  compile_policies-IsUsable name i [] pps' e = ground arith
  compile_policies-IsUsable name i (pp ∷ pps) pps' e = elim (Bool-cases (pp.base_key_env == "")) [
    | inl bad ↦ absurd (let e1 = rw (bad, compile_policies) at e in cc)
    | inr key ↦
        let e0 = rw (key, compile_policies) at e in
        let (pp1, e1, e2) =
          >>=-eq-ok (compile_provider re name i pp)
            (λ pp'. compile_policies re name (i + 1) pps >>= λ pps'. ok (pp' ∷ pps')) e0 in
        let (pps1, e3, e4) =
          >>=-eq-ok (compile_policies re name (i + 1) pps) (λ pps'. ok (pp1 ∷ pps')) e2 in
        let here = compile_provider-IsUsable name i pp pp1 key e1 in
        let rest = compile_policies-IsUsable name (i + 1) pps pps1 e3 in ground (arith, here, rest)
  ]

  compile_providers-AllUsable :
      (m m' : Dict String (List (ProviderPolicy re.Regexp)))
      → compile_providers re m ≡ ok m'
      → AllUsable m'
  unfolding compile_providers
  compile_providers-AllUsable [] m' e = ground arith
  compile_providers-AllUsable ((name, pps) ∷ m) m' e =
      let (pps1, e1, e2) =
        >>=-eq-ok (compile_policies re name 0 pps)
          (λ pps'. compile_providers re m >>= λ m'. ok ((name, pps') ∷ m')) e in
      let (m1, e3, e4) = >>=-eq-ok (compile_providers re m) (λ m'. ok ((name, pps1) ∷ m')) e2 in
      let here = compile_policies-IsUsable name 0 pps pps1 e1 in
      let rest = compile_providers-AllUsable m m1 e3 in ground (arith, here, rest)

  abbrev accepted :
      Policy re.Regexp
      → Option re.Regexp
      → List (Rule re.Regexp)
      → Dict String (List (ProviderPolicy re.Regexp))
      → Result PolicyError (Policy re.Regexp)
  accepted p c rs ps = ok (record p { compiled_model_regex = c; rules = rs; providers = ps })

  compile_providers-is_nil :
      (m m' : Dict String (List (ProviderPolicy re.Regexp)))
      → compile_providers re m ≡ ok m'
      → is_nil m' ≡ is_nil m
  unfolding compile_providers
  compile_providers-is_nil [] m' e = ground arith
  compile_providers-is_nil ((name, pps) ∷ m) m' e = ground arith

  accepted-IsValid :
      (p p' : Policy re.Regexp) (c : Option re.Regexp) (rs : List (Rule re.Regexp))
      (ps : Dict String (List (ProviderPolicy re.Regexp)))
      → accepted p c rs ps ≡ ok p'
      → ((p.base_key_env == "") && is_nil ps) ≡ false
      → PatternReady p.model_regex c
      → All (IsCompiled re) rs
      → AllUsable ps
      → IsValid p'
  accepted-IsValid p p' c rs ps e key pattern rules providers = ground arith

  -- A policy that `Validate` accepts comes out ready: it has a key or a provider, and every policy of
  -- a provider has a key; every rule, the global ones and the providers', has a known action and
  -- scope and the matcher that its type needs; and every model pattern that is set is compiled.
  pub validate-IsValid : (p p' : Policy re.Regexp) → validate re p ≡ ok p' → IsValid p'
  unfolding validate
  validate-IsValid p p' e = elim (Bool-cases ((p.base_key_env == "") && is_nil p.providers)) [
    | inl bad ↦ absurd (let e1 = rw (bad, validate) at e in cc)
    | inr key ↦
        let e0 = rw (key, validate) at e in
        let x = invalid_model_regex p.model_regex in
        let (c, e1, e2) =
          >>=-eq-ok (compile_model_regex re x p.model_regex p.compiled_model_regex)
            (λ c. compile_rules re global_rule 0 p.rules >>= λ rs.
              compile_providers re p.providers >>= λ ps. accepted p c rs ps)
            e0 in
        let (rs, e3, e4) =
          >>=-eq-ok (compile_rules re global_rule 0 p.rules)
            (λ rs. compile_providers re p.providers >>= λ ps. accepted p c rs ps) e2 in
        let (ps, e5, e6) =
          >>=-eq-ok (compile_providers re p.providers) (λ ps. accepted p c rs ps) e4 in
        let pattern = compile_model_regex-ready x p.model_regex _ c e1 in
        let rules = compile_rules-IsCompiled global_rule 0 p.rules rs e3 in
        let providers = compile_providers-AllUsable p.providers ps e5 in
        let same = compile_providers-is_nil p.providers ps e5 in
        accepted-IsValid p p' c rs ps e6 (rw same key) pattern rules providers
  ]
