-- ===== src/Chat/Meta.antt =====
-- internal/proxy/provider_meta.go, and of logging.go the identifiers of a response: what is read of a
-- provider's headers and of the JSON of its answer.
pub mod Agreement
use tokenomics.Base.{String, Bool, ◌&&◌, List, [], ◌∷◌, Option, none, some, if◌then◌else◌}
use tokenomics.Base.Eq.{string_eq, nat_eq, ◌==◌}
use tokenomics.Base.Dict.{lookup}
use tokenomics.Base.Word.{Int64}
use tokenomics.Base.Json.{Json, Object, as_object, as_array, as_text, as_number}
use tokenomics.Ledger.{ProviderMeta}
use tokenomics.Chat.{Header}
use tokenomics.Chat.Headers.{get_header}
use tokenomics.Chat.Tokens.{Floats}

abbrev pub empty_meta : ProviderMeta
empty_meta = record {
  cached_input_tokens = 0;
  cache_creation_tokens = 0;
  reasoning_tokens = 0;
  actual_model = "";
  finish_reason = "";
  rate_limit_remaining_requests = 0;
  rate_limit_remaining_tokens = 0;
  rate_limit_reset = "";
}

unfoldable pub is_empty_meta : ProviderMeta → Bool
is_empty_meta m =
    (m.cached_input_tokens == 0)
    && (m.cache_creation_tokens == 0)
    && (m.reasoning_tokens == 0)
    && m.actual_model == ""
    && m.finish_reason == ""
    && (m.rate_limit_remaining_requests == 0)
    && (m.rate_limit_remaining_tokens == 0)
    && m.rate_limit_reset == ""

module _ (canonical : String → String) (atoi : String → Option Int64) where
  -- The first header that is not empty and is a number.
  unfoldable pub parse_int_header : Header → List String → Int64
  parse_int_header h [] = 0
  parse_int_header h (key ∷ keys) =
      let rest = parse_int_header h keys in
      let v = get_header canonical key h in
      if v == "" then rest else elim (atoi v) [ none ↦ rest | some n ↦ n ]

  unfoldable pub first_header : Header → List String → String
  first_header h [] = ""
  first_header h (key ∷ keys) =
      let rest = first_header h keys in
      let v = get_header canonical key h in if v == "" then rest else v

  unfoldable pub upstream_request_id : Header → String
  upstream_request_id h =
      first_header h
        ("X-Request-Id" ∷ "Request-Id" ∷ "Apim-Request-Id" ∷ "Mistral-Correlation-Id" ∷ [])

  -- The limits that are left, which both functions read of the headers.
  unfoldable pub header_meta : Header → ProviderMeta
  header_meta h = record empty_meta {
    rate_limit_remaining_requests =
        parse_int_header h
          ("X-Ratelimit-Remaining-Requests" ∷ "Anthropic-Ratelimit-Requests-Remaining" ∷ []);
    rate_limit_remaining_tokens =
        parse_int_header h
          ("X-Ratelimit-Remaining-Tokens" ∷ "Anthropic-Ratelimit-Tokens-Remaining" ∷ []);
    rate_limit_reset = first_header h (
        "X-Ratelimit-Reset-Requests" ∷ "Anthropic-Ratelimit-Tokens-Reset"
        ∷ "X-Ratelimit-Reset-Tokens" ∷ []);
  }

-- `if v, ok := …; ok { … }`
abbrev pub when {ℓ κ} : {A : Type ℓ} {S : Type κ} → Option A → (A → S → S) → S → S
when none f s = s
when (some a) f s = f a s

abbrev pub or_none : ProviderMeta → Option ProviderMeta
or_none m = if is_empty_meta m then none else some m

module _ (fl : Floats) where
  open fl use {Float, to_int}

  abbrev pub field_of : String → Option (Object Float) → Option (Json Float)
  field_of k none = none
  field_of k (some o) = lookup k o

  -- `o[k][0]` as an object, where these have the right types.
  abbrev first_object : Option (List (Json Float)) → Option (Object Float)
  first_object (some (j ∷ js)) = as_object (some j)
  first_object _ = none

  abbrev pub first_of : String → Object Float → Option (Object Float)
  first_of k o = first_object (as_array (lookup k o))

  abbrev pub set_finish : String → ProviderMeta → ProviderMeta
  set_finish reason m = record m { finish_reason = reason }

  abbrev pub set_finish_if_empty : String → ProviderMeta → ProviderMeta
  set_finish_if_empty reason m = if m.finish_reason == "" then set_finish reason m else m

  abbrev pub set_model : String → ProviderMeta → ProviderMeta
  set_model model m = record m { actual_model = model }

  abbrev pub set_cached : Float → ProviderMeta → ProviderMeta
  set_cached x m = record m { cached_input_tokens = to_int x }

  abbrev pub set_reasoning : Float → ProviderMeta → ProviderMeta
  set_reasoning x m = record m { reasoning_tokens = to_int x }

  abbrev pub set_creation : Float → ProviderMeta → ProviderMeta
  set_creation x m = record m { cache_creation_tokens = to_int x }

  abbrev pub number_in : String → String → Object Float → Option Float
  number_in outer inner o = as_number (field_of inner (as_object (lookup outer o)))

  unfoldable pub usage_details : Object Float → ProviderMeta → ProviderMeta
  usage_details resp m =
      when (as_object (lookup "usage" resp))
        (λ usage m. when (as_number (lookup "cache_creation_input_tokens" usage)) set_creation (
          when (as_number (lookup "cache_read_input_tokens" usage)) set_cached (
            when (number_in "completion_tokens_details" "reasoning_tokens" usage) set_reasoning
              (when (number_in "prompt_tokens_details" "cached_tokens" usage) set_cached m))))
        m

  unfoldable pub gemini_usage_details : Object Float → ProviderMeta → ProviderMeta
  gemini_usage_details resp m =
      when (number_in "usageMetadata" "cachedContentTokenCount" resp) set_cached m

  unfoldable pub model_and_choice : Object Float → ProviderMeta → ProviderMeta
  model_and_choice resp m =
      when (as_text (field_of "finish_reason" (first_of "choices" resp))) set_finish
        (when (as_text (lookup "model" resp)) set_model m)

  unfoldable pub meta_from_body : Object Float → ProviderMeta → ProviderMeta
  meta_from_body resp m = gemini_usage_details resp (
      usage_details resp (
        when (as_text (field_of "finishReason" (first_of "candidates" resp))) set_finish_if_empty (
          when (as_text (lookup "stop_reason" resp)) set_finish_if_empty
            (model_and_choice resp m))))

  -- The body as JSON, where it is not empty and is an object; then the same for a stream's last chunk.
  unfoldable pub provider_meta : ProviderMeta → Option (Object Float) → Option ProviderMeta
  provider_meta from_headers resp = or_none (when resp meta_from_body from_headers)

  unfoldable pub stream_meta : ProviderMeta → Option (Object Float) → Option ProviderMeta
  stream_meta from_headers last_chunk =
      or_none (when last_chunk (λ o m. usage_details o (model_and_choice o m)) from_headers)

  -- `extractUpstreamID`
  unfoldable pub upstream_id_of : Option (Object Float) → String
  upstream_id_of none = ""
  upstream_id_of (some resp) = elim (as_text (lookup "id" resp)) [
    | some id ↦ id
    | none ↦ elim (as_text (lookup "responseId" resp)) [ some id ↦ id | none ↦ "" ]
  ]
