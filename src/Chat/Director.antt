-- ===== src/Chat/Director.antt =====
-- What the passthrough handler of internal/proxy/handler_passthrough.go hands to the reverse proxy and has back,
-- with the `Director` that exchanges the key.
use tokenomics.Base.{String, List, [], ◌∷◌, Option, none, some, if◌then◌else◌, ℕ, take}
use Prim.Native.String.{◌++◌ as ◌+++◌}
use tokenomics.Base.Eq.{string_eq, ◌==◌}
use tokenomics.Base.Dict.{Dict}
use tokenomics.Base.Word.{Int64, lt64}
use tokenomics.Base.Json.{Object}
use tokenomics.RateLimit.Clock.{Time}
use tokenomics.Chat.{ProviderConfig, Header}
use tokenomics.Chat.Headers.{set_header, del_header, set_headers}
use tokenomics.Chat.Request.{config_or, auth_scheme_of}
use tokenomics.Chat.Capture.{Bytes}
use tokenomics.Chat.Recorded.{Texts}
use tokenomics.Chat.Proxy.{Deps}

abbrev pub provider_headers : Option ProviderConfig → Dict String String
provider_headers none = []
provider_headers (some cfg) = cfg.headers

-- The request that the `Director` hands to the reverse proxy, of the one that came.
pub record Directed : Type 0 where
  pub method : String
  pub scheme : String
  pub host : String
  pub path : String
  pub raw_query : String
  pub headers : Header
  pub content_length : Int64

module _ (canonical : String → String) where
  unfoldable pub director_auth : Option ProviderConfig → String → Header → Header
  director_auth cfg real_key h =
      let scheme = auth_scheme_of cfg in
      if scheme == "header"
      then set_header canonical (config_or (λ c. c.auth_header) "Authorization" cfg) real_key h
      else if scheme == "query"
      then del_header canonical "Authorization" h
      else set_header canonical "Authorization" ("Bearer " +++ real_key) h

  unfoldable pub directed_headers : Option ProviderConfig → String → Header → Header
  directed_headers cfg real_key h = set_headers canonical (provider_headers cfg) (
      director_auth cfg real_key
        (del_header canonical "x-api-key" (del_header canonical "Authorization" h)))

-- A request as the server hands it over, its `ContentLength` an int64, -1 where it is not known; `none` is a body whose reading fails.
pub record Arrived : Type 0 where
  pub method : String
  pub path : String
  pub raw_query : String
  pub headers : Header
  pub content_length : Int64
  pub body : Option Bytes

-- What the reverse proxy does to the response writer: the calls of WriteHeader, the header, and the writes.
pub record Answer : Type 0 where
  pub codes : List Int64
  pub headers : Header
  pub writes : List Bytes

-- `httputil.ReverseProxy` with its transport, which may fail a body that is not as long as the content
-- length, and what else is of other packages.
pub record Relay (d : Deps) : Type 0 where
  pub serve : d.World → Directed → Option Bytes → d.World × Answer
  pub scheme_of : d.os.Url → String
  pub host_of : d.os.Url → String
  pub set_key : String → String → String
  pub texts : Texts
  pub unmarshal : Bytes → Option (Object d.fl.Float)

-- The readings of the clock at the events and at the ledger's entry.
pub record PassReadings : Type 0 where
  pub received : Time
  pub started : Time
  pub written : Time
  pub chunk : ℕ → Time
  pub body : Time
  pub done : Time

pub record Remembered : Type 0 where
  pub role : String
  pub model : String
  pub content : String

pub data PassReply : Type 0 where
  http_error : Int64 → String → PassReply
  relayed : Answer → PassReply

abbrev pub max_request_body_size : ℕ
max_request_body_size = 10485760

-- `loggingResponseWriter`: the first code that is written counts, and 200 where none is.
abbrev pub status_of : List Int64 → Int64
status_of [] = 200
status_of (code ∷ codes) = code

abbrev pub if_positive : Int64 → Int64 → Int64
if_positive n old = if lt64 0 n then n else old

abbrev pub body_or_nil : Option Bytes → Bytes
body_or_nil none = []
body_or_nil (some body) = take max_request_body_size body

-- The body that goes on: what was read of it, or the rest where reading failed.
abbrev pub if_read : Option Bytes → Bytes → Option Bytes
if_read none body = none
if_read (some b) body = some body
