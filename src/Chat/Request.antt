-- ===== src/Chat/Request.antt =====
-- The body of the attempt loop up to the call: marshalling, compression (`CompressRequestBody` of
-- internal/proxy/compressor.go), the key from the environment, the URL and the headers.
pub mod Auth
use tokenomics.Base.{
  String, Bool, not, ◌&&◌, List, [], Option, none, some, Result, ok, err, ◌>>=◌, if◌then◌else◌, ltb,
}
use Prim.Native.String.{len, ◌++◌ as ◌+++◌}
use tokenomics.Base.Eq.{string_eq, ◌==◌}
use tokenomics.Base.Dict.{Dict, insert}
use tokenomics.Base.Json.{Json, Object, text}
use tokenomics.Chat.{ProviderConfig, Header, Incoming, Outgoing, Platform}
use tokenomics.Chat.Headers.{set_header, del_header, copy_headers, set_headers}

-- The answers 500 of the loop: "failed to marshal request" and so on.
pub data PrepareError : Type 0 where
  marshal_failed invalid_upstream_url request_failed : PrepareError
  base_key_unset : String → PrepareError

-- `if cfg != nil && cfg.f != "" { cfg.f } else { d }`
abbrev pub config_or : (ProviderConfig → String) → String → Option ProviderConfig → String
config_or f d none = d
config_or f d (some cfg) = if f cfg == "" then d else f cfg

unfoldable pub auth_scheme_of : Option ProviderConfig → String
auth_scheme_of cfg = config_or (λ c. c.auth_scheme) "bearer" cfg

module _ {F : Type 0} (os : Platform (Json F)) where
  open os use {
    Url, parse_url, set_path, set_raw_query, with_key, marshal, brotli, gzip, getenv, itoa,
    canonical, accepts,
  }

  -- A compressed body is taken where it is shorter.
  abbrev pub shorter : String → String → Option String → String × String → String × String
  shorter body encoding none other = other
  shorter body encoding (some c) other = if ltb (len c) (len body) then (c, encoding) else other

  -- The body and its encoding; the function has no path to an error.
  unfoldable pub compress_request_body : String → String × String
  compress_request_body body =
      if ltb (len body) 1024
      then (body, "")
      else shorter body "br" (brotli body) (shorter body "gzip" (gzip body) (body, ""))

  unfoldable pub upstream_url_for : Option ProviderConfig → Incoming → String → Url → Url
  upstream_url_for cfg r real_key url =
      let url' =
        set_raw_query r.raw_query (set_path (config_or (λ c. c.chat_path) r.path cfg) url) in
      if auth_scheme_of cfg == "query" then with_key real_key url' else url'

  unfoldable pub set_auth : Option ProviderConfig → String → Header → Header
  set_auth cfg real_key h =
      let scheme = auth_scheme_of cfg in
      if scheme == "header"
      then set_header canonical (config_or (λ c. c.auth_header) "Authorization" cfg) real_key h
      else if scheme == "query"
      then h
      else set_header canonical "Authorization" ("Bearer " +++ real_key) h

  abbrev pub extra_headers : Option ProviderConfig → Dict String String
  extra_headers none = []
  extra_headers (some cfg) = cfg.headers

  abbrev pub with_encoding : String → Header → Header
  with_encoding encoding h =
      if encoding == "" then h else set_header canonical "Content-Encoding" encoding h

  unfoldable pub client_headers : Header → Header
  client_headers h = del_header canonical "x-api-key" (del_header canonical "Authorization" h)

  -- The headers of the upstream request, from those of the client.
  unfoldable pub upstream_headers :
      Option ProviderConfig → Header → String → String → String → String → Header
  upstream_headers cfg client real_key body encoding request_id =
      set_header canonical "X-Client-Request-Id" request_id (
        with_encoding encoding (
          set_header canonical "Content-Length" (itoa (len body)) (
            set_headers canonical (extra_headers cfg)
              (set_auth cfg real_key (copy_headers canonical (client_headers client) [])))))

  abbrev pub or_error {ℓ} : {A : Type ℓ} → PrepareError → Option A → Result PrepareError A
  or_error e none = err e
  or_error e (some a) = ok a

  abbrev pub require : PrepareError → Bool → Result PrepareError (Unit {0})
  require e b = if b then ok tt else err e

  -- What the attempts of one request share.
  pub record Plan : Type 0 where
    pub incoming : Incoming
    pub provider : Option ProviderConfig
    pub upstream : String
    pub base_key_env : String
    pub request_id : String
    pub body : Object F

  -- One attempt's request for a model.
  unfoldable pub build_request : Plan → String → Result PrepareError (Outgoing Url)
  build_request plan try_model = do
    marshalled ← or_error marshal_failed (marshal (insert "model" (text try_model) plan.body))
    let (body, encoding) = compress_request_body marshalled
    let real_key = getenv plan.base_key_env
    _ ← require (base_key_unset plan.base_key_env) (not (real_key == ""))
    parsed ← or_error invalid_upstream_url (parse_url plan.upstream)
    let url = upstream_url_for plan.provider plan.incoming real_key parsed
    _ ← require request_failed (accepts plan.incoming.method url)
    ok (record {
      method = plan.incoming.method;
      url = url;
      headers =
          upstream_headers plan.provider plan.incoming.headers real_key body encoding
            plan.request_id;
      body = body;
    })
