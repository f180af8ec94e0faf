-- ===== src/Chat/Answer.antt =====
-- `handleChatCompletions` from the end of its attempt loop: the response that is passed on, streamed or
-- buffered, or the answer when every attempt has failed. Memory files and communication events are left out.
use tokenomics.Base.{
  String, Bool, true, false, ◌&&◌, [], ◌∷◌, ◌++◌, Option, none, some, if◌then◌else◌, map,
}
use tokenomics.Base.Eq.{string_eq, nat_eq, ◌==◌}
use tokenomics.Base.Dict.{Dict}
use tokenomics.Base.Word.{Int64, lt64, le64}
use tokenomics.Events.{Event, Value, whole, flag}
use tokenomics.RateLimit.Limiter
use tokenomics.RateLimit.Clock.{Time}
use tokenomics.Ledger
use tokenomics.Ledger.{Ledger, RequestEntry, RuleMatchEntry, ProviderMeta}
use tokenomics.Chat.{Header, Response}
use tokenomics.Chat.Headers.{copy_headers, set_header}
use tokenomics.Chat.Tokens.{response_tokens}
use tokenomics.Chat.Stream.{Scan, start_scan, scan_lines, stream_tokens}
use tokenomics.Chat.Meta.{
  header_meta, provider_meta, stream_meta, upstream_id_of, upstream_request_id,
}
use tokenomics.Chat.Retry.{Attempts, Outcome, refused, answered}
use tokenomics.Chat.Inspect.{RuleMatchLog}
use tokenomics.Chat.Proxy.{
  Deps, Proxy, Context, RequestLog, Reply, http_error, relayed, streamed, response_unread,
  unprepared, exhausted, unreachable, emit, about_request, count_stats, fail,
}

module _ (d : Deps) where
  open d use {st, tk, fl, os, unmarshal, scan, atoi, error_text}

  abbrev entry_match : RuleMatchLog → RuleMatchEntry
  entry_match m = record { name = m.name; action = m.action; message = m.message }

  abbrev into_ledger : RequestEntry Time → Option (Ledger Time) → Option (Ledger Time)
  into_ledger e none = none
  into_ledger e (some l) = some (Ledger.record_request l e)

  -- `recordLedgerEntry`
  unfoldable pub record_entry :
      Time
      → String
      → String
      → RequestLog
      → String
      → Int64
      → Int64
      → Int64
      → Bool
      → Option ProviderMeta
      → Proxy d
      → Proxy d
  record_entry written token_hash provider log model input output status stream meta p = record p {
    ledger =
        into_ledger
          (record {
            timestamp = written;
            token_hash = token_hash;
            model = model;
            provider = provider;
            input_tokens = input;
            output_tokens = output;
            duration_ms = log.duration_ms;
            status_code = status;
            stream = stream;
            error = log.error;
            upstream_id = log.upstream_id;
            upstream_request_id = log.upstream_request_id;
            retry_count = log.retry_count;
            fallback_model = log.fallback_model;
            rule_matches = map entry_match log.rule_matches;
            metadata = log.metadata;
            provider_meta = meta;
          })
          p.ledger;
  }

  unfoldable pub record_ledger_entry :
      Context d
      → RequestLog
      → String
      → Int64
      → Int64
      → Int64
      → Bool
      → Option ProviderMeta
      → Proxy d
      → Proxy d
  unfolding record_entry
  record_ledger_entry c = record_entry c.times.written c.token_hash c.resolved.provider_name

  -- `AddUsage` for the output; its error is only logged.
  unfoldable pub add_output : Context d → Bool → Int64 → Proxy d → Proxy d
  add_output c counts n p = record p {
    sessions = if counts then (st.add_usage p.sessions c.token_hash n).0 else p.sessions;
  }

  unfoldable pub record_output : Context d → Int64 → Proxy d → Proxy d
  record_output c n p = record p {
    limiter =
        Limiter.record_tokens p.limiter c.token_hash c.resolved.rate_limit n
          c.times.output_recorded;
  }

  abbrev completed : Context d → String → Bool → Int64 → Int64 → Int64 → Dict String Value → Event
  completed c model stream status input output more = record {
    type = "request.completed";
    payload =
        about_request d c model
        ++ ("stream", flag stream)
          ∷ ("status_code", whole status)
          ∷ ("input_tokens", whole input)
          ∷ ("output_tokens", whole output)
          ∷ more;
  }

  abbrev stream_headers : Header → Header
  stream_headers h = set_header os.canonical "Connection" "keep-alive" (
      set_header os.canonical "Cache-Control" "no-cache" (
        set_header os.canonical "Content-Type" "text/event-stream"
          (copy_headers os.canonical h [])))

  -- What the scan leaves where the answer cannot be streamed.
  abbrev scanned : Bool → String → Response → Scan fl.Float
  scanned false m resp = start_scan
  scanned true m resp = scan_lines tk fl unmarshal m (scan resp) start_scan

  abbrev stream_reply : Bool → Response → Reply
  stream_reply false resp = http_error 500 "streaming not supported"
  stream_reply true resp = streamed resp.status_code (stream_headers resp.headers) (scan resp)

  unfoldable pub serve_stream :
      Context d → String → Response → Int64 → Proxy d → RequestLog → Proxy d × Reply × RequestLog
  serve_stream c m resp input p log =
      let s = scanned c.incoming.flushes m resp in
      let output = stream_tokens tk fl unmarshal s in
      let log' = record log {
        status_code = resp.status_code;
        output_tokens = output;
        upstream_id = s.upstream_id;
      } in
      (
        record_ledger_entry c log' m input output resp.status_code true
            (stream_meta fl (header_meta os.canonical atoi resp.headers) s.last_chunk)
            (emit d (completed c m true resp.status_code input output []) (
              record_output c output
                (count_stats d c m input output false (add_output c (lt64 0 output) output p)))),
        stream_reply c.incoming.flushes resp,
        log',
      )

  abbrev output_of : Option fl.Float → Bool × Int64
  output_of none = (false, 0)
  output_of (some x) = (fl.is_positive x, fl.to_int x)

  unfoldable pub serve_buffered :
      Context d
      → String
      → Response
      → String
      → Int64
      → Proxy d
      → RequestLog
      → Proxy d × Reply × RequestLog
  serve_buffered c m resp body input p log =
      let parsed = unmarshal body in
      let (counts, output) = output_of (response_tokens fl parsed) in
      let is_error = le64 400 resp.status_code in
      let log' = record log {
        status_code = resp.status_code;
        output_tokens = output;
        upstream_id = upstream_id_of fl parsed;
      } in
      (
        record_ledger_entry c log' m input output resp.status_code log.stream
            (provider_meta fl (header_meta os.canonical atoi resp.headers) parsed)
            (emit d
              (completed c m false resp.status_code input output (("error", flag is_error) ∷ []))
              (count_stats d c m input output is_error
                (record_output c output (add_output c counts output p)))),
        relayed resp.status_code (copy_headers os.canonical resp.headers []) body,
        log',
      )

  unfoldable pub serve_unread :
      Context d → String → Int64 → Proxy d → RequestLog → Proxy d × Reply × RequestLog
  serve_unread c m input p log =
      let (p', reply, log') = fail d 502 response_unread p log in
      (
        record_ledger_entry c log' m input 0 502 log.stream none
            (count_stats d c m input 0 true p'),
        reply,
        log',
      )

  abbrev pub serve_body :
      Context d
      → String
      → Response
      → Option String
      → Int64
      → Proxy d
      → RequestLog
      → Proxy d × Reply × RequestLog
  serve_body c m resp none input p log = serve_unread c m input p log
  serve_body c m resp (some body) input p log = serve_buffered c m resp body input p log

  -- The response that the loop passes on.
  unfoldable pub serve_answer :
      Context d
      → String
      → Response
      → Int64
      → Int64
      → Proxy d
      → RequestLog
      → Proxy d × Reply × RequestLog
  serve_answer c m resp retries input p log =
      let log' = record log {
        retry_count = retries;
        fallback_model = if m == c.model then log.fallback_model else m;
        upstream_request_id = upstream_request_id os.canonical atoi resp.headers;
      } in
      let p' =
        record (emit d
          (record {
            type = "budget.update";
            payload = about_request d c m ++ ("input_tokens", whole input) ∷ [];
          })
          p) {
            limiter =
                Limiter.record_tokens p.limiter c.token_hash c.resolved.rate_limit input
                  c.times.input_recorded;
          } in
      if log.stream && (resp.status_code == 200)
      then serve_stream c m resp input p' log'
      else serve_body c m resp resp.body input p' log'

  -- No attempt got a response to pass on. The body written is `lastBody`, which is never assigned.
  abbrev pub serve_last :
      Option Response → Int64 → Proxy d → RequestLog → Proxy d × Reply × RequestLog
  serve_last none retries p log = fail d 502 (unreachable retries) p log
  serve_last (some resp) retries p log = (
    p,
    relayed resp.status_code (copy_headers os.canonical resp.headers []) "",
    record log { status_code = resp.status_code; error = error_text (exhausted resp.status_code) },
  )

  unfoldable pub serve_failure :
      Context d
      → Option Response
      → Int64
      → Int64
      → Proxy d
      → RequestLog
      → Proxy d × Reply × RequestLog
  serve_failure c last retries input p log =
      serve_last last retries (count_stats d c c.model input 0 true p)
        (record log { retry_count = retries })

  -- How the request ends after the loop, and whether its reservation is kept.
  abbrev pub finish :
      Context d
      → Int64
      → RequestLog
      → Proxy d
      → Attempts d.World os.Url × Option Outcome
      → (Proxy d × Reply × RequestLog) × Bool
  finish c input log p (a, some (refused e)) =
      (fail d 500 (unprepared e) (record p { world = a.world }) log, false)
  finish c input log p (a, some (answered m resp)) =
      (serve_answer c m resp a.retry_count input (record p { world = a.world }) log, true)
  finish c input log p (a, none) = (
    serve_failure c a.last_response a.retry_count input (record p { world = a.world }) log,
    false,
  )
