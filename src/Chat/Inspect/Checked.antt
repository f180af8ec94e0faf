-- ===== src/Chat/Inspect/Checked.antt =====
-- What goes on to the provider has passed the rules and been masked.
use tokenomics.Base.{
  String, false, ◌⊎◌, ◌≡◌, refl, List, [], ◌∷◌, Option, none, some, if◌then◌else◌, Bool-cases, inl,
  inr,
}
use tokenomics.Base.Eq.{string_eq, ◌==◌}
use tokenomics.Base.Dict.{Dict}
use tokenomics.Base.Json.{Json, Object, as_object, text_at}
use tokenomics.Policy.Regex.{Regex}
use tokenomics.Policy.Rule.{MatchText}
use tokenomics.Policy.Resolve.{ResolvedPolicy}
use tokenomics.Policy.Engine.{RuleMatch, Blocked, check_rules, mask_content}
use tokenomics.Chat.Inspect.{
  Notes, inspect_message, inspect_messages, inspect_object, judged, or_blocked,
}

-- The text of a message, as the loop reads it: empty where there is none.
abbrev pub content_of : {F : Type 0} → Option (Object F) → String
content_of none = ""
content_of (some msg) = text_at "content" msg

abbrev first : Option Blocked → Option Blocked → Option Blocked
first (some b) other = some b
first none other = other

module _ (re : Regex) {F : Type 0} (rp : ResolvedPolicy re.Regexp) where
  -- The violation of a message, and the first one of a list of messages.
  abbrev pub violation : Json F → Option Blocked
  violation j =
      let content = content_of (as_object (some j)) in
      if content == "" then none else (check_rules re rp content "input").1

  abbrev pub first_violation : List (Json F) → Option Blocked
  first_violation [] = none
  first_violation (j ∷ js) = first (violation j) (first_violation js)

  abbrev pub masked_content : Json F → String
  masked_content j =
      let content = content_of (as_object (some j)) in
      if content == "" then "" else mask_content re rp content "input"

  module _ (message : MatchText → String) (meta : Dict String String)
      (token_hash model : String) where
    judged-blocked :
        (msg : Object F) (content : String) (n : Notes)
        (r : List (RuleMatch re.Regexp) × Option Blocked)
        → (judged re message meta token_hash model rp msg content n r).2 ≡ r.1
    judged-blocked msg content n (ms, none) = refl
    judged-blocked msg content n (ms, some b) = refl

    inspect_message-blocked :
        (j : Json F) (n : Notes)
        → (inspect_message re message meta token_hash model rp j n).2 ≡ violation j
    unfolding inspect_message
    inspect_message-blocked j n = go (as_object (some j))
      where
        go :
            (o : Option (Object F))
            → (inspect_object re message meta token_hash model rp j o n).2
              ≡ (if content_of o == "" then none else (check_rules re rp (content_of o) "input").1)
        go none = refl
        go (some msg) = elim (Bool-cases (text_at "content" msg == "")) [
          | inl e ↦ rw e refl
          | inr e ↦ rw e (
              judged-blocked msg (text_at "content" msg) n
                (check_rules re rp (text_at "content" msg) "input"))
        ]

    -- The loop over the messages ends with an error exactly for a list with a text that the rules
    -- refuse, and the error is that of the first such text.
    pub inspect_messages-blocked :
        (js : List (Json F)) (n : Notes)
        → (inspect_messages re message meta token_hash model rp js n).2 ≡ first_violation js
    unfolding inspect_messages
    inspect_messages-blocked [] n = refl
    inspect_messages-blocked (j ∷ js) n =
        rw⁻¹ (inspect_message-blocked j n) (
          go (inspect_message re message meta token_hash model rp j n)
            (inspect_messages-blocked js))
      where
        go :
            (r : Json F × Notes × Option Blocked)
            → ((n' : Notes)
                → (inspect_messages re message meta token_hash model rp js n').2
                  ≡ first_violation js)
            → (or_blocked re message meta token_hash model rp r js
                (inspect_messages re message meta token_hash model rp js)).2
              ≡ first r.2 (first_violation js)
        go (j', n', some b) h = refl
        go (j', n', none) h = h n'

    -- What the loop makes of a message: one with a text has it masked, and any other goes on as it came.
    abbrev pub IsMasked : Json F → Json F → Type 0
    IsMasked j j' =
        (content_of (as_object (some j')) ≡ masked_content j)
        × (((content_of (as_object (some j)) == "") ≡ false) ⊎ (j' ≡ j))

    abbrev pub AreMasked : List (Json F) → List (Json F) → Type 0
    AreMasked [] js' = js' ≡ []
    AreMasked (j ∷ js) [] = ⊥
    AreMasked (j ∷ js) (j' ∷ js') = IsMasked j j' × AreMasked js js'
