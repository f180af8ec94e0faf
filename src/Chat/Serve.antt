-- ===== src/Chat/Serve.antt =====
-- `ServeHTTP` of internal/proxy/handler.go: from the token of a request to the handler of its path. The
-- debug log, the times and the client's address are left out; `hash_token` is HMAC-SHA256 in hexadecimal.
pub mod Deleted
mod Tests
use tokenomics.Base.{
  String, Bool, not, ◌&&◌, List, [], ◌∷◌, Option, none, some, Result, ok, err, if◌then◌else◌, ltb,
  ◌-◌,
}
use Prim.Native.String.{len, slice}
use text.Mathlib.Text.{starts_with}
use tokenomics.Base.Eq.{string_eq, ◌==◌}
use tokenomics.Base.Dict.{Dict}
use tokenomics.Base.Word.{Int64}
use tokenomics.Policy.Rule.{or_else}
use tokenomics.Policy.Resolve.{Policy}
use tokenomics.Chat.{Header, Incoming}
use tokenomics.Chat.Headers.{get_header}
use tokenomics.Chat.Inspect.{safe_prefix}
use tokenomics.Chat.Proxy.{Deps, Proxy, Readings}
use tokenomics.Chat.Handler.{Settings, Served, handle_chat_completions}

pub record OpenClawMetadata : Type 0 where
  pub agent_id : String
  pub agent_type : String
  pub team : String
  pub channel : String
  pub skill : String
  pub environment : String

unfoldable pub extract_open_claw_metadata : (String → String) → Header → OpenClawMetadata
extract_open_claw_metadata canonical h = record {
  agent_id = get_header canonical "X-OpenClaw-Agent-ID" h;
  agent_type = get_header canonical "X-OpenClaw-Agent-Type" h;
  team = get_header canonical "X-OpenClaw-Team" h;
  channel = get_header canonical "X-OpenClaw-Channel" h;
  skill = get_header canonical "X-OpenClaw-Skill" h;
  environment = get_header canonical "X-OpenClaw-Environment" h;
}

abbrev present : String → String → Dict String String → Dict String String
present name v m = if v == "" then m else (name, v) ∷ m

unfoldable pub open_claw_metadata_to_map : OpenClawMetadata → Dict String String
open_claw_metadata_to_map meta = present "agent_id" meta.agent_id (
    present "agent_type" meta.agent_type (
      present "team" meta.team (
        present "channel" meta.channel
          (present "skill" meta.skill (present "environment" meta.environment [])))))

-- The token of a request: the `x-api-key` header first, then Authorization with or without "Bearer ".
unfoldable pub raw_token : (String → String) → Header → String
raw_token canonical h =
    let key = get_header canonical "x-api-key" h in
    let auth = get_header canonical "Authorization" h in
    if not (key == "")
    then key
    else if auth == ""
    then ""
    else if starts_with auth "Bearer "
    then slice auth 7 (len auth)
    else auth

unfoldable pub is_chat_completions : String → Bool
is_chat_completions path =
    not (ltb (len path) 17) && slice path (len path - 17) (len path) == "/chat/completions"

-- What a refused request is answered and, but for the times and the client's address, logged.
pub record Refusal : Type 0 where
  pub status_code : Int64
  pub message : String
  pub error : String
  pub method : String
  pub path : String
  pub token_hash : String

abbrev pub refusal : Incoming → Int64 → String → String → String → Refusal
refusal incoming status message error shown = record {
  status_code = status;
  message = message;
  error = error;
  method = incoming.method;
  path = incoming.path;
  token_hash = shown;
}

abbrev pub missing_token : Incoming → Refusal
missing_token incoming =
    refusal incoming 401
      "missing or invalid token (use x-api-key header or Authorization bearer token)"
      "missing or invalid token" ""

abbrev pub store_lookup_error : Incoming → String → Refusal
store_lookup_error incoming hash =
    refusal incoming 500 "store lookup error" "store lookup error" (safe_prefix hash 16)

abbrev pub invalid_token : Incoming → String → Refusal
invalid_token incoming hash =
    refusal incoming 401 "invalid token" "invalid token" (safe_prefix hash 16)

-- How a request ends: refused, answered by the chat handler, or handed to the passthrough handler with the
-- policy, the token's hash, the upstream and the metadata.
pub data Answered (d : Deps) : Type 0 where
  refused : Refusal → Answered d
  chatted : Served d → Answered d
  passed : Proxy d → Policy d.re.Regexp → String → String → OpenClawMetadata → Answered d

-- `find` is `Lookup` of the token store, on the store's state; `none` stands for nil.
module _ (d : Deps) {S : Type 0} {E : Type 0}
    (find : S → String → S × Result E (Option (Policy d.re.Regexp))) (hash_token : String → String)
    (upstream_url : String) (h : Settings) where
  unfoldable pub upstream_for : Policy d.re.Regexp → String
  upstream_for pol = or_else pol.upstream_url upstream_url

  unfoldable pub serve_policy :
      Incoming → Readings → String → String → Policy d.re.Regexp → Proxy d → Answered d
  serve_policy incoming times request_id token_hash pol p =
      let meta = extract_open_claw_metadata d.os.canonical incoming.headers in
      if is_chat_completions incoming.path
      then chatted (
          handle_chat_completions d h incoming times pol token_hash (upstream_for pol) request_id
            (open_claw_metadata_to_map meta) p)
      else passed p pol token_hash (upstream_for pol) meta

  abbrev pub on_found :
      Incoming
      → Readings
      → String
      → String
      → Proxy d
      → S × Result E (Option (Policy d.re.Regexp))
      → S × Answered d
  on_found incoming times request_id token_hash p (s, err e) =
      (s, refused (store_lookup_error incoming token_hash))
  on_found incoming times request_id token_hash p (s, ok none) =
      (s, refused (invalid_token incoming token_hash))
  on_found incoming times request_id token_hash p (s, ok (some pol)) =
      (s, serve_policy incoming times request_id token_hash pol p)

  unfoldable pub serve_http : Incoming → Readings → String → Proxy d → S → S × Answered d
  serve_http incoming times request_id p s =
      let raw = raw_token d.os.canonical incoming.headers in
      if raw == ""
      then (s, refused (missing_token incoming))
      else on_found incoming times request_id (hash_token raw) p (find s (hash_token raw))
