-- ===== src/Policy/Masking.antt =====
-- Masking touches only what a rule matches.
use tokenomics.Base.{
  String, true, List, [], ◌∷◌, ◌++◌, none, ◌≡◌, refl, arith, All, Bool-cases, Option-cases, inl,
  inr, is_nil, map,
}
use tokenomics.Base.Eq.{string_eq, ◌==◌}
use tokenomics.Policy.Regex.{Regex, RegexLaws}
use tokenomics.Policy.Pii.{PiiDetector, detect_pii, mask_pii}
use tokenomics.Policy.Rule.{
  Rule, matches, match_regex, match_keyword, match_pii, match_jailbreak, first_match, mask_rule,
  mask_regex, mask_keywords,
}
use tokenomics.Policy.Resolve.{ResolvedPolicy}
use tokenomics.Policy.Engine.{rule_matches_scope, mask_content, mask_content_with}

module _ (re : Regex) (laws : RegexLaws re) where
  mask_regex_unmatched :
      (r : Rule re.Regexp) (content : String)
      → match_regex re r content ≡ none
      → mask_regex re r.compiled_pattern content ≡ content
  unfolding match_regex mask_regex
  mask_regex_unmatched r content h = elim (Option-cases r.compiled_pattern) [
    | inl e ↦ ground arith
    | inr (c, e) ↦ ground (arith, laws.replace_unmatched c content "[REDACTED]")
  ]

  mask_keywords_unmatched :
      (rs : List re.Regexp) (content : String)
      → first_match re rs content ≡ none
      → mask_keywords re rs content ≡ content
  unfolding first_match mask_keywords
  mask_keywords_unmatched [] content h = refl
  mask_keywords_unmatched (r ∷ rs) content h = elim (Bool-cases (re.match_string r content)) [
    | inl hit ↦ ground arith
    | inr miss ↦
        rw (laws.replace_unmatched r content "[REDACTED]" miss)
          (mask_keywords_unmatched rs content (ground arith))
  ]

  append-nil_parts {ℓ} : {A : Type ℓ} (xs ys : List A) → xs ++ ys ≡ [] → (xs ≡ []) × (ys ≡ [])
  append-nil_parts [] ys h = (refl, h)
  append-nil_parts (x ∷ xs) ys h = cc

  map-nil {ℓ κ} : {A : Type ℓ} {B : Type κ} (f : A → B) (xs : List A) → map f xs ≡ [] → xs ≡ []
  map-nil f [] h = refl
  map-nil f (x ∷ xs) h = cc

  mask_pii_unmatched :
      (content : String) (ds : List (PiiDetector re.Regexp))
      → detect_pii re content ds ≡ []
      → mask_pii re content ds ≡ content
  unfolding detect_pii mask_pii
  mask_pii_unmatched content [] h = refl
  mask_pii_unmatched content (d ∷ ds) h =
      let (here, rest) = append-nil_parts _ (detect_pii re content ds) h in
      rw
        (laws.replace_unmatched d.pattern content "[REDACTED]"
          (laws.find_unmatched d.pattern content (map-nil _ _ here)))
        (mask_pii_unmatched content ds rest)

  is_nil_eq {ℓ} : {A : Type ℓ} (xs : List A) → is_nil xs ≡ true → xs ≡ []
  is_nil_eq [] h = refl
  is_nil_eq (x ∷ xs) h = cc

  match_keyword-none :
      (r : Rule re.Regexp) (content : String)
      → match_keyword re r content ≡ none
      → first_match re r.compiled_keywords content ≡ none
  unfolding match_keyword
  match_keyword-none r content h = ground arith

  match_pii-none :
      (r : Rule re.Regexp) (content : String)
      → match_pii re r content ≡ none
      → detect_pii re content r.compiled_pii ≡ []
  unfolding match_pii
  match_pii-none r content h = is_nil_eq _ (ground arith)

  -- A rule that does not match a content does not change it.
  mask_rule_unmatched :
      (r : Rule re.Regexp) (content : String)
      → matches re r content ≡ none
      → mask_rule re r content ≡ content
  unfolding matches mask_rule match_jailbreak
  mask_rule_unmatched r content h = ground (
    arith,
    mask_regex_unmatched r content,
    mask_keywords_unmatched r.compiled_keywords content,
    match_keyword-none r content,
    mask_pii_unmatched content r.compiled_pii,
    match_pii-none r content,
  )

  -- No rule in scope that masks has a match.
  abbrev pub NothingToMask : List (Rule re.Regexp) → String → String → Type 0
  NothingToMask rs content scope =
      All
        (λ r.
          (r.action == "mask") ≡ true
          → rule_matches_scope r scope ≡ true
          → matches re r content ≡ none)
        rs

  mask_content_with_unmatched :
      (rs : List (Rule re.Regexp)) (content scope : String)
      → NothingToMask rs content scope
      → mask_content_with re rs content scope ≡ content
  unfolding mask_content_with
  mask_content_with_unmatched [] content scope h = refl
  mask_content_with_unmatched (r ∷ rs) content scope h = elim (Bool-cases (r.action == "mask")) [
    | inr other ↦ rw other (mask_content_with_unmatched rs content scope h.1)
    | inl masks ↦ elim (Bool-cases (rule_matches_scope r scope)) [
      | inr away ↦ rw (masks, away) (mask_content_with_unmatched rs content scope h.1)
      | inl here ↦
          rw (masks, here, mask_rule_unmatched r content (h.0 masks here))
            (mask_content_with_unmatched rs content scope h.1)
    ]
  ]

  -- For a matcher that keeps its laws, masking leaves a content as it is when no rule in scope with
  -- action "mask" matches it.
  mask_content_unmatched :
      (rp : ResolvedPolicy re.Regexp) (content scope : String)
      → NothingToMask rp.rules content scope
      → mask_content re rp content scope ≡ content
  unfolding mask_content
  mask_content_unmatched rp content scope h = mask_content_with_unmatched rp.rules content scope h
