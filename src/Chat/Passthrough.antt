-- ===== src/Chat/Passthrough.antt =====
-- internal/proxy/handler_passthrough.go: every path but chat completions goes to the provider as it came, with
-- the key exchanged.
pub mod Auth
pub mod Unchecked
mod Tests
use tokenomics.Base.{
  String, Bool, true, false, not, ◌&&◌, List, [], ◌∷◌, ◌++◌, Option, none, some, if◌then◌else◌, ℕ,
  suc, take, is_nil,
}
use Prim.Native.String.{◌++◌ as ◌+++◌}
use tokenomics.Base.Eq.{string_eq, ◌==◌}
use tokenomics.Base.Dict.{Dict}
use tokenomics.Base.Word.{Int64, lt64, word_mod}
use tokenomics.Base.Json.{Object, text_at}
use Prim.Native.Nat.{◌%◌}
use tokenomics.RateLimit.Clock.{Time}
use tokenomics.Policy.Rule.{or_else}
use tokenomics.Policy.Resolve.{Policy, ResolvedPolicy, resolve_provider}
use tokenomics.Ledger.{CommunicationEvent}
use tokenomics.Chat.{ProviderConfig, Header}
use tokenomics.Chat.Headers.{get_header, set_header, del_header, set_headers, safe_headers}
use tokenomics.Chat.Request.{config_or, auth_scheme_of}
use tokenomics.Chat.Stream.{max_memory_content_size}
use tokenomics.Chat.Tokens.{extract_token_counts}
use tokenomics.Chat.Capture.{Bytes, StreamingResponseWriter, new_streaming_response_writer, writes}
use tokenomics.Chat.Recorded.{
  Texts, record_communication_event, body_for_event, extract_sse_data_payloads,
  format_sse_for_memory, format_raw_for_memory,
}
use tokenomics.Chat.Inspect.{safe_prefix}
use tokenomics.Chat.Proxy.{
  Deps, Proxy, RequestLog, provider_name_of, provider_config, upstream_of, base_key_of,
}
use tokenomics.Chat.Answer.{record_entry}
use tokenomics.Chat.Handler.{Settings, new_log}
use tokenomics.Chat.Director.{
  Answer, Arrived, Directed, PassReadings, PassReply, Relay, Remembered, body_or_nil,
  directed_headers, director_auth, http_error, if_positive, if_read, max_request_body_size,
  provider_headers, relayed, status_of,
}
use tokenomics.Chat.Relayed.{
  About, answer_event, body_events, chunk_events, event_of, model_in, model_of, record_answer,
  record_event, remembered, request_event, tokens_of, with_counts,
}

module _ (d : Deps) (rl : Relay d) where
  open d.os use {canonical}

  abbrev pub unset_text : String → String
  unset_text name = "base key env " +++ rl.texts.quote name +++ " is not set"

  abbrev pub failed :
      String → RequestLog → Proxy d → Proxy d × PassReply × RequestLog × List Remembered
  failed message log p =
      (p, http_error 500 message, record log { status_code = 500; error = message }, [])

  unfoldable pub directed : Option ProviderConfig → String → d.os.Url → Arrived → Directed
  directed cfg real_key url r = record {
    method = r.method;
    scheme = rl.scheme_of url;
    host = rl.host_of url;
    path = r.path;
    raw_query =
        if auth_scheme_of cfg == "query" then rl.set_key r.raw_query real_key else r.raw_query;
    headers = directed_headers canonical cfg real_key r.headers;
    content_length = r.content_length;
  }

  -- With the URL parsed, and the body as it was read and as it goes on.
  unfoldable pub sent_to :
      Option ProviderConfig
      → String
      → About d rl
      → PassReadings
      → Arrived
      → RequestLog
      → Proxy d
      → d.os.Url
      → Bytes
      → Option Bytes
      → Proxy d × PassReply × RequestLog × List Remembered
  sent_to cfg real_key a times r log p url body going =
      let p' = request_event d rl a times.received r body p in
      let (w, answer) = rl.serve p'.world (directed cfg real_key url r) going in
      record_answer d rl a times r body log answer (record p' { world = w })

  abbrev pub sent :
      Option ProviderConfig
      → String
      → About d rl
      → PassReadings
      → Arrived
      → RequestLog
      → Proxy d
      → Option d.os.Url
      → Proxy d × PassReply × RequestLog × List Remembered
  sent cfg real_key a times r log p none = failed "invalid upstream URL" log p
  sent cfg real_key a times r log p (some url) =
      sent_to cfg real_key a times r log p url (body_or_nil r.body)
        (if_read r.body (body_or_nil r.body))

  unfoldable pub passthrough :
      Settings
      → PassReadings
      → Arrived
      → Policy d.re.Regexp
      → String
      → String
      → Dict String String
      → Proxy d
      → Proxy d × PassReply × RequestLog × List Remembered
  passthrough h times r pol token_hash upstream meta p =
      let resolved = resolve_provider d.re pol "" in
      let provider = provider_name_of d resolved pol h.default_provider in
      let cfg = provider_config d h.providers provider in
      let key_env = base_key_of d resolved cfg in
      let real_key = d.os.getenv key_env in
      let url = upstream_of d resolved cfg upstream in
      let a : About d rl = record {
        token_hash = token_hash;
        model = model_of d rl r.body;
        provider = provider;
      } in
      let log = record (new_log d meta) { base_key_env = key_env; upstream_url = url } in
      if real_key == ""
      then failed (unset_text key_env) log p
      else sent cfg real_key a times r log p (d.os.parse_url url)
