-- ===== src/Chat/Tokens.antt =====
-- Counting tokens: internal/tokencount/counter.go over a tokenizer, internal/proxy/token_usage.go, and of
-- handler_chat.go what `countResponseTokens` reads of a response.
use tokenomics.Base.{String, Bool, List, [], ◌∷◌, Option, none, some, length, ℕ}
use tokenomics.Base.Eq.{string_eq}
use tokenomics.Base.Dict.{lookup, or_default}
use tokenomics.Base.Word.{Int64, add64, word_mod}
use tokenomics.Base.Json.{Json, text, Object, as_object, as_number}
use Prim.Native.Nat.{◌%◌}

-- tiktoken-go; `none` is an error.
pub record Tokenizer : Type 1 where
  pub Encoding : Type 0
  pub encoding_for_model : String → Option Encoding
  pub get_encoding : String → Option Encoding
  pub encode : Encoding → String → List ℕ

-- float64: `int(x)` and `x > 0`.
pub record Floats : Type 1 where
  pub Float : Type 0
  pub to_int : Float → Int64
  pub is_positive : Float → Bool

-- The sum, where neither count has failed.
abbrev pub plus : Option Int64 → Option Int64 → Option Int64
plus (some a) (some b) = some (add64 a b)
plus a b = none

module _ (tk : Tokenizer) where
  open tk use {Encoding, encoding_for_model, get_encoding, encode}

  abbrev or_try {ℓ} : {A : Type ℓ} → Option A → Option A → Option A
  or_try (some a) b = some a
  or_try none b = b

  -- The number of tokens of a text, with the fallback for models that are not known.
  unfoldable pub count : String → String → Option Int64
  count model content = elim (or_try (encoding_for_model model) (get_encoding "cl100k_base")) [
    | none ↦ none
    | some enc ↦ some (length (encode enc content) % word_mod)
  ]

  -- One value of a message: only texts are counted.
  abbrev pub count_value : {F : Type 0} → String → Json F → Option Int64
  count_value model (text s) = count model s
  count_value model j = some 0

  unfoldable pub count_values : {F : Type 0} → String → Object F → Option Int64
  count_values model [] = some 0
  count_values model ((k, j) ∷ o) = plus (count_value model j) (count_values model o)

  unfoldable pub count_each : {F : Type 0} → String → List (Object F) → Option Int64
  count_each model [] = some 0
  count_each model (o ∷ os) = plus (plus (some 3) (count_values model o)) (count_each model os)

  unfoldable pub count_messages : {F : Type 0} → String → List (Object F) → Option Int64
  count_messages model messages = plus (count_each model messages) (some 3)

module _ (fl : Floats) where
  open fl use {Float, to_int}

  abbrev pub int_of : Option Float → Option Int64
  int_of none = none
  int_of (some x) = some (to_int x)

  abbrev pub or_next : Option Int64 → Option Int64 → Option Int64
  or_next none other = other
  or_next (some n) other = some n

  -- The first of the keys that holds a number. Every number that encoding/json decodes is a float64.
  unfoldable pub read_token_count : Object Float → List String → Option Int64
  read_token_count usage [] = none
  read_token_count usage (key ∷ keys) =
      or_next (int_of (as_number (lookup key usage))) (read_token_count usage keys)

  abbrev pub counts_of : Object Float → List String → List String → Int64 × Int64
  counts_of usage input output =
      (or_default 0 (read_token_count usage input), or_default 0 (read_token_count usage output))

  abbrev pub usage_of_message : Option (Object Float) → Option (Object Float)
  usage_of_message none = none
  usage_of_message (some msg) = as_object (lookup "usage" msg)

  abbrev pub from_gemini : Option (Object Float) → Int64 × Int64
  from_gemini none = (0, 0)
  from_gemini (some usage) = counts_of usage ("promptTokenCount" ∷ []) ("candidatesTokenCount" ∷ [])

  abbrev pub from_message : Option (Object Float) → Int64 × Int64 → Int64 × Int64
  from_message none other = other
  from_message (some usage) other =
      counts_of usage ("input_tokens" ∷ "prompt_tokens" ∷ [])
        ("output_tokens" ∷ "completion_tokens" ∷ [])

  abbrev pub from_usage : Option (Object Float) → Int64 × Int64 → Int64 × Int64
  from_usage none other = other
  from_usage (some usage) other =
      counts_of usage ("input_tokens" ∷ "prompt_tokens" ∷ [])
        ("output_tokens" ∷ "completion_tokens" ∷ "candidates_token_count" ∷ [])

  -- The shapes of OpenAI and Anthropic, then of Anthropic's streams, then of Gemini.
  unfoldable pub extract_token_counts : Object Float → Int64 × Int64
  extract_token_counts resp = from_usage (as_object (lookup "usage" resp)) (
      from_message (usage_of_message (as_object (lookup "message" resp)))
        (from_gemini (as_object (lookup "usageMetadata" resp))))

  abbrev pub first_number : Option Float → Option Float → Option Float
  first_number none other = other
  first_number (some x) other = some x

  abbrev pub usage_tokens : Option (Object Float) → Option Float
  usage_tokens none = none
  usage_tokens (some usage) =
      first_number (as_number (lookup "output_tokens" usage))
        (as_number (lookup "completion_tokens" usage))

  -- `countResponseTokens` up to its call of `AddUsage`: the number that it reads, if there is one.
  unfoldable pub response_tokens : Option (Object Float) → Option Float
  response_tokens none = none
  response_tokens (some resp) = usage_tokens (as_object (lookup "usage" resp))
