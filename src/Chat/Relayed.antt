-- ===== src/Chat/Relayed.antt =====
-- What the passthrough handler records of a request and of its answer.
use tokenomics.Base.{
  String, Bool, true, false, List, [], ◌∷◌, ◌++◌, Option, none, some, if◌then◌else◌, ℕ, suc, take,
  is_nil,
}
use tokenomics.Base.Eq.{string_eq, ◌==◌}
use tokenomics.Base.Word.{Int64, word_mod}
use tokenomics.Base.Json.{Object, text_at}
use Prim.Native.Nat.{◌%◌}
use tokenomics.RateLimit.Clock.{Time}
use tokenomics.Ledger.{CommunicationEvent}
use tokenomics.Chat.{Header}
use tokenomics.Chat.Headers.{get_header, safe_headers}
use tokenomics.Chat.Stream.{max_memory_content_size}
use tokenomics.Chat.Tokens.{extract_token_counts}
use tokenomics.Chat.Capture.{Bytes, StreamingResponseWriter, new_streaming_response_writer, writes}
use tokenomics.Chat.Recorded.{
  record_communication_event, body_for_event, extract_sse_data_payloads, format_sse_for_memory,
  format_raw_for_memory,
}
use tokenomics.Chat.Inspect.{safe_prefix}
use tokenomics.Chat.Proxy.{Deps, Proxy, RequestLog}
use tokenomics.Chat.Answer.{record_entry}
use tokenomics.Chat.Director.{
  Answer, Arrived, PassReadings, PassReply, Relay, Remembered, if_positive, max_request_body_size,
  relayed, status_of,
}

module _ (d : Deps) (rl : Relay d) where
  open d.os use {canonical}

  abbrev pub model_in : Option (Object d.fl.Float) → String
  model_in none = ""
  model_in (some o) = text_at "model" o

  -- The model of a body that was read, where it is one JSON object.
  abbrev pub model_of : Option Bytes → String
  model_of none = ""
  model_of (some body) = model_in (rl.unmarshal (take max_request_body_size body))

  -- What the events of one request have in common.
  pub record About : Type 0 where
    pub token_hash : String
    pub model : String
    pub provider : String

  abbrev pub event_of : About → Time → String → CommunicationEvent Time
  event_of a at type = record {
    timestamp = at;
    type = type;
    token_hash = safe_prefix a.token_hash 16;
    model = a.model;
    provider = a.provider;
    method = "";
    path = "";
    status_code = 0;
    content_type = "";
    headers = [];
    body = "";
    body_bytes = 0;
    chunk_index = 0;
    stream = false;
    retry_count = 0;
    error = "";
  }

  abbrev pub record_event : CommunicationEvent Time → Proxy d → Proxy d
  record_event ev p = record p { ledger = record_communication_event ev p.ledger }

  unfoldable pub request_event : About → Time → Arrived → Bytes → Proxy d → Proxy d
  request_event a at r body p =
      let type = get_header canonical "Content-Type" r.headers in
      let (shown, size) = body_for_event canonical rl.texts type body max_memory_content_size in
      if is_nil body
      then p
      else record_event
          (record (event_of a at "request.received") {
            method = r.method;
            path = r.path;
            content_type = type;
            headers = safe_headers canonical r.headers;
            body = shown;
            body_bytes = size % word_mod;
          })
          p

  abbrev pub with_counts : Option (Object d.fl.Float) → Int64 × Int64 → Int64 × Int64
  with_counts none counts = counts
  with_counts (some o) (input, output) =
      let (input', output') = extract_token_counts d.fl o in
      (if_positive input' input, if_positive output' output)

  -- The tokens of an answer: those of a body that is one JSON object go before those of the stream.
  unfoldable pub tokens_of : StreamingResponseWriter → Int64 × Int64
  tokens_of sw =
      with_counts (if is_nil sw.raw_response then none else rl.unmarshal sw.raw_response)
        (sw.parsed.input_tokens, sw.parsed.output_tokens)

  -- What goes to the memory writer of the policy and to that of the ledger.
  unfoldable pub remembered :
      String → Arrived → Bytes → Header → StreamingResponseWriter → List Remembered
  remembered model r body answered sw =
      let type = get_header canonical "Content-Type" answered in
      let kept =
        if rl.texts.holds (rl.texts.lower type) "text/event-stream"
        then rl.texts.of_text (
            format_sse_for_memory canonical rl.texts
              (extract_sse_data_payloads canonical rl.texts sw.raw_response 512)
              sw.parsed.assistant_text sw.is_truncated)
        else sw.raw_response in
      if model == ""
      then []
      else (if is_nil body
          then []
          else record {
            role = "request";
            model = model;
            content =
                format_raw_for_memory canonical rl.texts "Request-Headers:"
                  (get_header canonical "Content-Type" r.headers) r.headers body
                  max_memory_content_size;
          }
            ∷ [])
        ++ (if is_nil sw.raw_response
            then []
            else record {
              role = "response";
              model = model;
              content =
                  format_raw_for_memory canonical rl.texts "Response-Headers:" type answered kept
                    max_memory_content_size;
            }
              ∷ [])

  -- An event about the answer.
  abbrev pub answer_event : About → Time → String → Int64 → Header → Bool → CommunicationEvent Time
  answer_event a at type status headers stream = record (event_of a at type) {
    status_code = status;
    content_type = get_header canonical "Content-Type" headers;
    headers = safe_headers canonical headers;
    stream = stream;
  }

  unfoldable pub chunk_events :
      About → PassReadings → Int64 → Header → ℕ → List Bytes → Proxy d → Proxy d
  chunk_events a times status answered i [] p = p
  chunk_events a times status answered i (payload ∷ ps) p =
      let type = get_header canonical "Content-Type" answered in
      let (shown, size) = body_for_event canonical rl.texts type payload max_memory_content_size in
      chunk_events a times status answered (suc i) ps (
        record_event
          (record (answer_event a (times.chunk i) "response.chunk" status answered true) {
            headers = [];
            body = shown;
            body_bytes = size % word_mod;
            chunk_index = suc i % word_mod;
          })
          p)

  unfoldable pub body_events :
      About → PassReadings → Int64 → Header → StreamingResponseWriter → Proxy d → Proxy d
  body_events a times status answered sw p =
      let type = get_header canonical "Content-Type" answered in
      let (shown, size) =
        body_for_event canonical rl.texts type sw.raw_response max_memory_content_size in
      record_event
        (record (answer_event a times.done "response.completed" status answered sw.is_streaming) {
          body_bytes = size % word_mod;
        })
        (record_event
          (record (answer_event a times.body "response.body" status answered sw.is_streaming) {
            body = shown;
            body_bytes = size % word_mod;
          })
          p)

  -- From the answer of the reverse proxy to the end.
  unfoldable pub record_answer :
      About
      → PassReadings
      → Arrived
      → Bytes
      → RequestLog
      → Answer
      → Proxy d
      → Proxy d × PassReply × RequestLog × List Remembered
  record_answer a times r body log answer p =
      let sw = writes d.fl rl.texts.trim rl.unmarshal answer.writes new_streaming_response_writer in
      let status = status_of answer.codes in
      let log' = record log { status_code = status } in
      let (input, output) = tokens_of sw in
      let started =
        record_event
          (answer_event a times.started "response.started" status answer.headers sw.is_streaming)
          p in
      let entered =
        record_entry d times.written a.token_hash a.provider log' a.model input output status
          sw.is_streaming none started in
      let chunks =
        if sw.is_streaming
        then extract_sse_data_payloads canonical rl.texts sw.raw_response 512
        else [] in
      (
        body_events a times status answer.headers sw
            (chunk_events a times status answer.headers 0 chunks entered),
        relayed answer,
        log',
        remembered a.model r body answer.headers sw,
      )
