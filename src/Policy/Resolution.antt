-- ===== src/Policy/Resolution.antt =====
-- `ResolveForModel` and the order in which Go's `range` visits the map of providers.
use tokenomics.Base.{
  String, true, false, List, [], ◌∷◌, none, some, ◌≡◌, refl, sym, ap, ◌∙◌, arith, Bool-cases,
  Option-cases, inl, inr, ◌⊎◌, ok,
}
use tokenomics.Base.Eq.{string_eq, ◌==◌, ==_iff}
use tokenomics.Base.Dict.{Dict, lookup, erase, lookup-erase}
use tokenomics.Policy.Regex.{Regex}
use tokenomics.Policy.Resolve.{
  Policy, ProviderPolicy, first_policy, search_providers, resolve_for_model, base_resolved,
  merge_provider, merged_regex, matches_model, matches_regex, with_provider,
}
use tokenomics.Policy.Engine.{check_model, refuses}

module _ (re : Regex) where
  -- No provider but `name` has a policy that matches the model.
  abbrev pub MatchesOnly : String → String → Dict String (List (ProviderPolicy re.Regexp)) → Type 0
  MatchesOnly model name [] = Unit {0}
  MatchesOnly model name ((j, pps) ∷ m) =
      ((j == name) ≡ false → first_policy re model pps ≡ none) × MatchesOnly model name m

  search_providers_only :
      (model name : String) (pps : List (ProviderPolicy re.Regexp)) (pp : ProviderPolicy re.Regexp)
      (m : Dict String (List (ProviderPolicy re.Regexp)))
      → MatchesOnly model name m
      → lookup name m ≡ some pps
      → first_policy re model pps ≡ some pp
      → search_providers re model m ≡ some (name, pp)
  unfolding search_providers lookup
  search_providers_only model name pps pp [] only found h = cc
  search_providers_only model name pps pp ((j, qs) ∷ m) only found h =
      elim (Bool-cases (j == name)) [
        | inl here ↦ ground (arith, ==_iff j name)
        | inr there ↦
            let skip = only.0 there in
            let rest = search_providers_only model name pps pp m only.1 in
            ground (arith, skip, rest)
      ]

  -- Where one provider alone has a policy that matches the model, `ResolveForModel` merges that
  -- provider's first matching policy into the global one, wherever the map visits it.
  resolve_for_model_only :
      (p : Policy re.Regexp) (model name : String) (pps : List (ProviderPolicy re.Regexp))
      (pp : ProviderPolicy re.Regexp)
      → MatchesOnly model name p.providers
      → lookup name p.providers ≡ some pps
      → first_policy re model pps ≡ some pp
      → resolve_for_model re p model
        ≡ merge_provider re (record (base_resolved re p) { provider_name = name }) pp
  unfolding resolve_for_model
  resolve_for_model_only p model name pps pp only found h =
      rw (search_providers_only model name pps pp p.providers only found h, with_provider)

  -- The providers in an order of visit that begins with one of them.
  abbrev pub visited_first :
      String
      → List (ProviderPolicy re.Regexp)
      → Dict String (List (ProviderPolicy re.Regexp))
      → Dict String (List (ProviderPolicy re.Regexp))
  visited_first name pps m = (name, pps) ∷ erase name m

  lookup-visited_first :
      (name j : String) (pps : List (ProviderPolicy re.Regexp))
      (m : Dict String (List (ProviderPolicy re.Regexp)))
      → lookup name m ≡ some pps
      → lookup j (visited_first name pps m) ≡ lookup j m
  unfolding lookup
  lookup-visited_first name j pps m found = elim (Bool-cases (name == j)) [
    | inl same ↦ rw same (sym found ∙ ap (λ k. lookup k m) ((==_iff name j).0 same))
    | inr other ↦ rw (other, lookup-erase name j m, other) refl
  ]

  resolve_for_model-visited_first :
      (p : Policy re.Regexp) (model name : String) (pps : List (ProviderPolicy re.Regexp))
      (pp : ProviderPolicy re.Regexp) (m : Dict String (List (ProviderPolicy re.Regexp)))
      → first_policy re model pps ≡ some pp
      → resolve_for_model re (record p { providers = visited_first name pps m }) model
        ≡ merge_provider re (record (base_resolved re p) { provider_name = name }) pp
  unfolding resolve_for_model search_providers base_resolved
  resolve_for_model-visited_first p model name pps pp m h = rw (h, with_provider) refl

  -- Where two providers, of however many, each have a policy that matches the model, there is for each of them
  -- an order in which the same map is visited, with the same policies under every name, so that
  -- `ResolveForModel` chooses it and merges its first matching policy into the global one.
  pub resolve_for_model_unordered :
      (p : Policy re.Regexp) (model a b : String) (ps qs : List (ProviderPolicy re.Regexp))
      (pp qq : ProviderPolicy re.Regexp) (j : String)
      → lookup a p.providers ≡ some ps
      → lookup b p.providers ≡ some qs
      → first_policy re model ps ≡ some pp
      → first_policy re model qs ≡ some qq
      → (lookup j (visited_first a ps p.providers) ≡ lookup j p.providers)
        × (resolve_for_model re (record p { providers = visited_first a ps p.providers }) model
            ≡ merge_provider re (record (base_resolved re p) { provider_name = a }) pp)
        × (lookup j (visited_first b qs p.providers) ≡ lookup j p.providers)
        × (resolve_for_model re (record p { providers = visited_first b qs p.providers }) model
            ≡ merge_provider re (record (base_resolved re p) { provider_name = b }) qq)
  resolve_for_model_unordered p model a b ps qs pp qq j has_a has_b e1 e2 = (
    lookup-visited_first a j ps p.providers has_a,
    resolve_for_model-visited_first p model a ps pp p.providers e1,
    lookup-visited_first b j qs p.providers has_b,
    resolve_for_model-visited_first p model b qs qq p.providers e2,
  )

  first_policy-matches :
      (model : String) (pps : List (ProviderPolicy re.Regexp)) (pp : ProviderPolicy re.Regexp)
      → first_policy re model pps ≡ some pp
      → matches_model re pp model ≡ true
  unfolding first_policy
  first_policy-matches model [] pp h = cc
  first_policy-matches model (q ∷ qs) pp h = elim (Bool-cases (matches_model re q model)) [
    | inl e ↦ ground arith
    | inr e ↦ let ih = first_policy-matches model qs pp in ground (arith, ih)
  ]

  search_providers-matches :
      (model name : String) (pp : ProviderPolicy re.Regexp)
      (m : Dict String (List (ProviderPolicy re.Regexp)))
      → search_providers re model m ≡ some (name, pp)
      → matches_model re pp model ≡ true
  unfolding search_providers
  search_providers-matches model name pp [] h = cc
  search_providers-matches model name pp ((j, qs) ∷ m) h =
      elim (Option-cases (first_policy re model qs)) [
        | inl e ↦ let ih = search_providers-matches model name pp m in ground (arith, ih)
        | inr (q, e) ↦ let here = first_policy-matches model qs q e in ground (arith, here)
      ]

  -- The policy names its models in one way: by name, or by a pattern where the global policy
  -- names none.
  abbrev pub NamesModels : Policy re.Regexp → ProviderPolicy re.Regexp → Type 0
  NamesModels p pp =
      (((pp.model == "") ≡ false)
        × ((pp.model_regex == "") ≡ true)
        × (pp.compiled_model_regex ≡ none))
      ⊎ (((pp.model == "") ≡ true) × ((pp.model_regex == "") ≡ false) × ((p.model == "") ≡ true))

  merge_provider-check_model :
      (p : Policy re.Regexp) (model name : String) (pp : ProviderPolicy re.Regexp)
      → matches_model re pp model ≡ true
      → NamesModels p pp
      → check_model re
          (merge_provider re (record (base_resolved re p) { provider_name = name }) pp)
          model
        ≡ ok tt
  unfolding check_model merge_provider base_resolved merged_regex matches_model matches_regex
      refuses
  merge_provider-check_model p model name pp m (inl (named, bare, no_regex)) =
      ground (arith, ==_iff pp.model model, ==_iff model pp.model)
  merge_provider-check_model p model name pp m (inr (unnamed, pattern, bare)) =
      elim (Option-cases pp.compiled_model_regex) [
        | inl e ↦ ground arith
        | inr (r, e) ↦ ground arith
      ]

  -- A model that `ResolveForModel` routes to a provider's policy passes `CheckModel` of the resolved
  -- policy, if that policy names its models in one way.
  resolve_for_model-check_model :
      (p : Policy re.Regexp) (model name : String) (pp : ProviderPolicy re.Regexp)
      → search_providers re model p.providers ≡ some (name, pp)
      → NamesModels p pp
      → check_model re (resolve_for_model re p model) model ≡ ok tt
  unfolding resolve_for_model
  resolve_for_model-check_model p model name pp h names =
      let m = search_providers-matches model name pp p.providers h in
      rw (h, with_provider) (merge_provider-check_model p model name pp m names)
