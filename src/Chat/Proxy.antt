-- ===== src/Chat/Proxy.antt =====
-- The state that a chat request works on, what it is told from outside, its log entry and its answers.
use tokenomics.Base.{String, Bool, List, [], ◌∷◌, ◌++◌, Option, none, is_nil, if◌then◌else◌}
use tokenomics.Base.Eq.{string_eq, ◌==◌}
use tokenomics.Base.Int.{ℤ}
use tokenomics.Base.Dict.{Dict, lookup, insert}
use tokenomics.Base.Word.{Int64}
use tokenomics.Base.Json.{Json, Object}
use tokenomics.Events.{Event, Value, words, whole}
use tokenomics.Session.Store.{SessionStore}
use tokenomics.RateLimit.Clock.{Time}
use tokenomics.RateLimit.Limiter.{RateLimiter, RateError}
use tokenomics.Policy.Regex.{Regex}
use tokenomics.Policy.Rule.{MatchText, or_else}
use tokenomics.Policy.Resolve.{Policy, ResolvedPolicy}
use tokenomics.Policy.Engine.{ModelError, Blocked}
use tokenomics.Ledger.{Ledger}
use tokenomics.Stats
use tokenomics.Stats.{UsageStats}
use tokenomics.Chat.{ProviderConfig, Header, Incoming, Outgoing, Response, Platform}
use tokenomics.Chat.Request.{PrepareError, config_or}
use tokenomics.Chat.Tokens.{Tokenizer, Floats}
use tokenomics.Chat.Inspect.{RuleMatchLog, safe_prefix}

-- Every way in which the handler itself answers with an error, with the values of its text.
pub data ChatError : Type 0 where
  body_unread invalid_json response_unread : ChatError
  rate_limited : RateError → ChatError
  model_refused : ModelError → ChatError
  content_refused : Blocked → ChatError
  over_budget : Int64 → Int64 → Int64 → ChatError
  unprepared : PrepareError → ChatError
  exhausted unreachable : Int64 → ChatError

-- What is not this repository's: the session store behind its interface, package regexp, the tokenizer,
-- the platform, the providers, and the texts of errors.
pub record Deps : Type 1 where
  pub re : Regex
  pub st : SessionStore
  pub tk : Tokenizer
  pub fl : Floats
  pub os : Platform (Json fl.Float)
  pub World : Type 0
  pub call : World → Outgoing os.Url → World × Option Response
  pub parse_duration : String → Option ℤ
  pub unmarshal : String → Option (Object fl.Float)
  pub scan : Response → List String
  pub atoi : String → Option Int64
  pub match_text : MatchText → String
  pub error_text : ChatError → String

-- `Handler`: what its requests share. The memory writers and the debug log are left out.
pub record Proxy (d : Deps) : Type 0 where
  pub limiter : RateLimiter
  pub sessions : d.st.State
  pub stats : UsageStats Time
  pub ledger : Option (Ledger Time)
  pub emitted : List Event
  pub world : d.World

-- The readings of the clock at the calls that take one.
pub record Readings : Type 0 where
  pub seen : Time
  pub allowed : Time
  pub acquired : Time
  pub input_recorded : Time
  pub output_recorded : Time
  pub counted : Time
  pub written : Time

-- `RequestLog`, less what it only copies of the request.
pub record RequestLog : Type 0 where
  pub model : String
  pub base_key_env : String
  pub upstream_url : String
  pub status_code : Int64
  pub duration_ms : Int64
  pub input_tokens : Int64
  pub output_tokens : Int64
  pub stream : Bool
  pub error : String
  pub retry_count : Int64
  pub fallback_model : String
  pub metadata : Dict String String
  pub rule_matches : List RuleMatchLog
  pub upstream_request_id : String
  pub upstream_id : String
  pub client_request_id : String

pub data Reply : Type 0 where
  http_error : Int64 → String → Reply
  relayed : Int64 → Header → String → Reply
  streamed : Int64 → Header → List String → Reply

-- What one request is about, as resolved before the rate limit is asked.
pub record Context (d : Deps) : Type 0 where
  pub incoming : Incoming
  pub times : Readings
  pub token_hash : String
  pub model : String
  pub resolved : ResolvedPolicy d.re.Regexp
  pub provider : Option ProviderConfig
  pub upstream : String
  pub base_key_env : String
  pub request_id : String
  pub meta : Dict String String

module _ (d : Deps) where
  open d use {re, error_text}

  -- The provider: the routing's, else the policy's default, else the handler's.
  unfoldable pub provider_name_of : ResolvedPolicy re.Regexp → Policy re.Regexp → String → String
  provider_name_of rp pol default_provider =
      or_else rp.provider_name (or_else pol.default_provider default_provider)

  unfoldable pub provider_config : Dict String ProviderConfig → String → Option ProviderConfig
  provider_config providers name = if name == "" then none else lookup name providers

  unfoldable pub upstream_of : ResolvedPolicy re.Regexp → Option ProviderConfig → String → String
  upstream_of rp cfg upstream =
      or_else rp.upstream_url (config_or (λ c. c.upstream_url) upstream cfg)

  unfoldable pub base_key_of : ResolvedPolicy re.Regexp → Option ProviderConfig → String
  base_key_of rp cfg = or_else rp.base_key_env (config_or (λ c. c.api_key_env) "" cfg)

  -- `for k, v := range m { into[k] = v }`
  unfoldable pub merge_metadata : Dict String String → Dict String String → Dict String String
  merge_metadata [] into = into
  merge_metadata ((k, v) ∷ m) into = merge_metadata m (insert k v into)

  unfoldable pub emit : Event → Proxy d → Proxy d
  emit e p = record p { emitted = p.emitted ++ e ∷ [] }

  abbrev pub about_request : Context d → String → Dict String Value
  about_request c model =
      ("token_hash", words (safe_prefix c.token_hash 16)) ∷ ("model", words model) ∷ []

  unfoldable pub count_stats : Context d → String → Int64 → Int64 → Bool → Proxy d → Proxy d
  count_stats c model input output is_error p = record p {
    stats =
        Stats.record_usage p.stats c.token_hash model c.base_key_env input output is_error
          c.times.counted;
  }

  -- An answer of the handler's own.
  unfoldable pub fail : Int64 → ChatError → Proxy d → RequestLog → Proxy d × Reply × RequestLog
  fail status e p log =
      let log' = record log { status_code = status; error = error_text e } in
      (p, http_error status (error_text e), log')

  unfoldable pub put_present : Dict String String → Dict String Value → Dict String Value
  put_present [] o = o
  put_present ((k, v) ∷ m) o = put_present m (if v == "" then o else insert k (words v) o)

  -- `emitOpenClawEvent`
  unfoldable pub emit_openclaw :
      String → Dict String String → Int64 → String → String → String → Proxy d → Proxy d
  emit_openclaw type meta status model token_hash error p =
      if is_nil meta
      then p
      else emit
          (record {
            type = type;
            payload =
                (let named = put_present meta (
                    ("token_hash", words (safe_prefix token_hash 16))
                    ∷ ("model", words model)
                    ∷ ("status", whole status)
                    ∷ []) in
                  if error == "" then named else insert "error" (words error) named);
          })
          p
