-- ===== src/Chat/Counting.antt =====
-- What is charged for a response, against what the usage extraction reads of it.
use tokenomics.Base.{◌≡◌, Option, none, some, arith}
use tokenomics.Base.Eq.{string_eq}
use tokenomics.Base.Dict.{lookup, or_default}
use tokenomics.Base.Json.{Object, as_object, as_number}
use tokenomics.Base.Word.{Int64}
use tokenomics.Chat.Tokens.{
  Floats, int_of, or_next, first_number, from_usage, usage_tokens, read_token_count,
  extract_token_counts, response_tokens,
}

module _ (fl : Floats) where
  first_number-int_of :
      (a b : Option fl.Float) (x : fl.Float) (other : Option Int64)
      → first_number fl a b ≡ some x
      → or_default 0 (or_next fl (int_of fl a) (or_next fl (int_of fl b) other)) ≡ fl.to_int x
  first_number-int_of (some y) b x other h = ground arith
  first_number-int_of none (some y) x other h = ground arith
  first_number-int_of none none x other h = ground arith

  -- Where the proxy finds a number of output tokens to charge for a buffered response, it is the one
  -- that the usage extraction reads as the output tokens of the same response.
  pub response_tokens-extract_token_counts :
      (resp : Object fl.Float) (x : fl.Float)
      → response_tokens fl (some resp) ≡ some x
      → (extract_token_counts fl resp).1 ≡ fl.to_int x
  unfolding response_tokens extract_token_counts read_token_count
  response_tokens-extract_token_counts resp x h = go (as_object (lookup "usage" resp)) _ h
    where
      go :
          (u : Option (Object fl.Float)) (other : Int64 × Int64)
          → usage_tokens fl u ≡ some x
          → (from_usage fl u other).1 ≡ fl.to_int x
      go none other h = ground arith
      go (some usage) other h =
          first_number-int_of (as_number (lookup "output_tokens" usage))
            (as_number (lookup "completion_tokens" usage)) x _ h
