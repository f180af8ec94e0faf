-- ===== src/Chat/Meta/Agreement.antt =====
-- Where the metadata of a stream is that of a buffered answer.
use tokenomics.Base.{◌≡◌, refl, none, some}
use tokenomics.Base.Eq.{string_eq}
use tokenomics.Base.Dict.{lookup}
use tokenomics.Base.Json.{Object, as_text}
use tokenomics.Ledger.{ProviderMeta}
use tokenomics.Chat.Tokens.{Floats}
use tokenomics.Chat.Meta.{
  field_of, first_of, number_in, gemini_usage_details, meta_from_body, provider_meta, stream_meta,
}

module _ (fl : Floats) where
  -- For an object without the fields of Anthropic's and Gemini's answers ("stop_reason", a finish reason
  -- in "candidates", and the cached tokens of "usageMetadata"), the function for streams and the one for
  -- buffered answers read the same metadata.
  pub stream_meta-provider_meta :
      (from_headers : ProviderMeta) (resp : Object fl.Float)
      → as_text (lookup "stop_reason" resp) ≡ none
      → as_text (field_of fl "finishReason" (first_of fl "candidates" resp)) ≡ none
      → number_in fl "usageMetadata" "cachedContentTokenCount" resp ≡ none
      → stream_meta fl from_headers (some resp) ≡ provider_meta fl from_headers (some resp)
  unfolding stream_meta provider_meta meta_from_body gemini_usage_details
  stream_meta-provider_meta from_headers resp a b c = rw (a, b, c) refl
