-- ===== src/Chat.antt =====
-- internal/proxy/handler_chat.go and what it uses of the other files of internal/proxy: a chat request on
-- its way to the upstream provider and its answer on the way back.
pub mod Headers
pub mod Request
pub mod Retry
pub mod Tokens
pub mod Counting
pub mod Stream
pub mod Streaming
pub mod Meta
pub mod Inspect
pub mod Proxy
pub mod Answer
pub mod Handler
pub mod Serve
pub mod Capture
pub mod Recorded
pub mod Director
pub mod Relayed
pub mod Passthrough
pub mod Samples
mod Tests
use tokenomics.Base.{String, Bool, Option, List, ℕ}
use tokenomics.Base.Dict.{Dict}
use tokenomics.Base.Word.{Int64}

-- `config.ProviderConfig`
pub record ProviderConfig : Type 0 where
  pub upstream_url : String
  pub api_key_env : String
  pub base_url_env : String
  pub auth_header : String
  pub auth_scheme : String
  pub headers : Dict String String
  pub models : List String
  pub chat_path : String

-- `http.Header`: the values of each name, under its canonical spelling.
abbrev pub Header : Type 0
Header = Dict String (List String)

-- What the handler reads of an `*http.Request`; `none` is a body whose reading fails, and a body that is
-- longer than the limit is its first part. `flushes` tells whether the answer can be streamed.
pub record Incoming : Type 0 where
  pub method : String
  pub path : String
  pub raw_query : String
  pub headers : Header
  pub body : Option String
  pub flushes : Bool

-- What goes to the provider, for a type of URLs.
pub record Outgoing (U : Type 0) : Type 0 where
  pub method : String
  pub url : U
  pub headers : Header
  pub body : String

pub record Response : Type 0 where
  pub status_code : Int64
  pub headers : Header
  pub body : Option String

-- Packages net/url, encoding/json, compress/gzip, brotli, os and fmt, as far as a request is made with
-- them. `none` is an error; `with_key` sets the parameter `key` of a URL's query.
pub record Platform (F : Type 0) : Type 1 where
  pub Url : Type 0
  pub parse_url : String → Option Url
  pub set_path : String → Url → Url
  pub set_raw_query : String → Url → Url
  pub with_key : String → Url → Url
  pub marshal : Dict String F → Option String
  pub brotli : String → Option String
  pub gzip : String → Option String
  pub getenv : String → String
  pub itoa : ℕ → String
  pub canonical : String → String
  pub accepts : String → Url → Bool
