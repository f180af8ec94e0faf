-- ===== src/Chat/Handler.antt =====
-- `handleChatCompletions` of internal/proxy/handler_chat.go, from the body that it reads to the deferred
-- calls. A stage that can end the request is given what the stages before it have left.
pub mod InFlight
pub mod Guards
pub mod Budgeted
use tokenomics.Base.{
  String, Bool, true, false, not, ◌&&◌, List, [], ◌∷◌, ◌++◌, Option, none, some, Result, ok, err,
  if◌then◌else◌, map, is_nil,
}
use tokenomics.Base.Eq.{string_eq, ◌==◌}
use tokenomics.Base.Dict.{Dict, insert}
use tokenomics.Base.Word.{Int64, lt64, le64}
use tokenomics.Base.Json.{
  Json, text, array, object, Object, text_at, array_at, bool_at, to_fields, to_items,
}
use tokenomics.Events.{Event, words, whole}
use tokenomics.RateLimit.Limiter
use tokenomics.RateLimit.Limiter.{RateLimiter, RateError}
use tokenomics.Budget
use tokenomics.Budget.{BudgetError}
use tokenomics.Policy.Resolve.{Policy, ResolvedPolicy, resolve_for_model}
use tokenomics.Policy.Engine.{ModelError, Blocked, check_model, inject_prompts}
use tokenomics.Chat.{ProviderConfig, Incoming, Outgoing, Response}
use tokenomics.Chat.Request.{Plan}
use tokenomics.Chat.Retry.{Attempts, Outcome, send}
use tokenomics.Chat.Tokens.{count_messages}
use tokenomics.Chat.Inspect.{Notes, no_notes, inspect_messages, typed_messages}
use tokenomics.Chat.Proxy.{
  Deps, Proxy, Context, Readings, RequestLog, Reply, ChatError, body_unread, invalid_json,
  rate_limited, model_refused, content_refused, over_budget, emit, about_request, count_stats, fail,
  emit_openclaw, merge_metadata, provider_name_of, provider_config, upstream_of, base_key_of,
}
use tokenomics.Chat.Answer.{finish}

-- The settings of a `Handler`.
pub record Settings : Type 0 where
  pub providers : Dict String ProviderConfig
  pub default_provider : String

-- `inputTokens = 0` where the count fails.
abbrev pub count_or_zero : Option Int64 → Int64
count_or_zero none = 0
count_or_zero (some n) = n

module _ (d : Deps) where
  open d use {re, st, tk, fl, os, call, parse_duration, unmarshal, match_text, error_text}

  abbrev pub Served : Type 0
  Served = Proxy d × Reply × RequestLog

  -- The answers 403 and 429 of the guards, which are counted as errors.
  unfoldable pub reject :
      Context d → String → Int64 → Int64 → ChatError → Proxy d → RequestLog → Served
  reject c model input status e p log = fail d status e (count_stats d c model input 0 true p) log

  -- The JSON that is sent, less the model.
  unfoldable pub outgoing_body : Object fl.Float → List (Object fl.Float) → Object fl.Float
  outgoing_body body messages =
      insert "messages" (array (to_items (map (λ o. object (to_fields o)) messages))) body

  -- The deferred release of a reservation that was not committed.
  unfoldable pub settle_input : Context d → Int64 → Served × Bool → Served
  settle_input c reserved ((p, reply, log), committed) = (
    record p {
      sessions =
          if lt64 0 reserved && not committed
          then Budget.release_reserved_input_budget st p.sessions c.token_hash reserved
          else p.sessions;
    },
    reply,
    log,
  )

  abbrev pub plan_of : Context d → Object fl.Float → Plan os
  plan_of c body = record {
    incoming = c.incoming;
    provider = c.provider;
    upstream = c.upstream;
    base_key_env = c.base_key_env;
    request_id = c.request_id;
    body = body;
  }

  -- The attempts, once `reserved` of the input is on the budget.
  unfoldable pub serve_attempts :
      Context d → Object fl.Float → Int64 → Int64 → Proxy d → RequestLog → Served
  serve_attempts c body input reserved p log =
      let log' = record log { stream = bool_at "stream" body; client_request_id = c.request_id } in
      settle_input c reserved
        (finish d c input log' p (send os call (plan_of c body) c.resolved.retry c.model p.world))

  abbrev pub on_reserved :
      Context d
      → Object fl.Float
      → Int64
      → Proxy d
      → RequestLog
      → st.State × Int64 × Option (BudgetError st.Error)
      → Served
  on_reserved c body input p log (s, used, none) =
      serve_attempts c body input input (record p { sessions = s }) log
  on_reserved c body input p log (s, used, some e) =
      let limit = c.resolved.max_tokens in
      reject c c.model input 429 (over_budget used input limit)
        (emit d
          (record {
            type = "budget.exceeded";
            payload =
                about_request d c c.model
                ++ ("used", whole used) ∷ ("input", whole input) ∷ ("limit", whole limit) ∷ [];
          })
          (record p { sessions = s }))
        log

  -- The budget, for the messages that go on.
  unfoldable pub serve_budget :
      Context d → Object fl.Float → List (Object fl.Float) → Proxy d → RequestLog → Served
  serve_budget c body messages p log =
      let input = count_or_zero (count_messages tk c.model messages) in
      let log' = record log { input_tokens = input } in
      let body' = outgoing_body body messages in
      if lt64 0 c.resolved.max_tokens
      then on_reserved c body' input p log'
          (Budget.reserve_input_budget st p.sessions c.token_hash input c.resolved.max_tokens)
      else serve_attempts c body' input 0 p log'

  abbrev pub on_inspected :
      Context d
      → Object fl.Float
      → Proxy d
      → RequestLog
      → List (Json fl.Float) × Notes × Option Blocked
      → Served
  on_inspected c body p log (js, n, some b) =
      reject c c.model 0 403 (content_refused b) (record p { emitted = p.emitted ++ n.events })
        (record log { rule_matches = log.rule_matches ++ n.rule_matches })
  on_inspected c body p log (js, n, none) =
      serve_budget c body (inject_prompts re text c.resolved (typed_messages js))
        (record p { emitted = p.emitted ++ n.events })
        (record log { rule_matches = log.rule_matches ++ n.rule_matches })

  abbrev pub on_model :
      Context d → Object fl.Float → Proxy d → RequestLog → Result ModelError (Unit {0}) → Served
  on_model c body p log (err e) = reject c c.model 0 403 (model_refused e) p log
  on_model c body p log (ok x) = on_inspected c body p log (
      inspect_messages re match_text c.meta c.token_hash c.model c.resolved
        (array_at "messages" body) no_notes)

  -- What runs between `Acquire` and the deferred `Release`.
  unfoldable pub serve_acquired : Context d → Object fl.Float → Proxy d → RequestLog → Served
  serve_acquired c body p log = on_model c body p log (check_model re c.resolved c.model)

  abbrev pub released : Context d → Served → Served
  released c (p, reply, log) = (
    record p { limiter = Limiter.release p.limiter c.token_hash c.resolved.rate_limit },
    reply,
    log,
  )

  abbrev pub on_allowed :
      Context d → Object fl.Float → Proxy d → RequestLog → RateLimiter × Option RateError → Served
  on_allowed c body p log (rl, some e) =
      reject c c.model 0 429 (rate_limited e)
        (emit d
          (record {
            type = "rate.exceeded";
            payload =
                about_request d c c.model ++ ("error", words (error_text (rate_limited e))) ∷ [];
          })
          (record p { limiter = rl }))
        log
  on_allowed c body p log (rl, none) = released c (
      serve_acquired c body
        (record p {
          limiter =
              Limiter.acquire parse_duration rl c.token_hash c.resolved.rate_limit c.times.acquired;
        })
        log)

  unfoldable pub serve_resolved : Context d → Object fl.Float → Proxy d → RequestLog → Served
  serve_resolved c body p log = on_allowed c body p log (
      Limiter.allow parse_duration p.limiter c.token_hash c.resolved.rate_limit c.times.seen
        c.times.allowed)

  abbrev pub new_log : Dict String String → RequestLog
  new_log meta = record {
    model = "";
    base_key_env = "";
    upstream_url = "";
    status_code = 0;
    duration_ms = 0;
    input_tokens = 0;
    output_tokens = 0;
    stream = false;
    error = "";
    retry_count = 0;
    fallback_model = "";
    metadata = meta;
    rule_matches = [];
    upstream_request_id = "";
    upstream_id = "";
    client_request_id = "";
  }

  -- The policy for the model, the provider and the URL. Where the request has OpenClaw metadata, the
  -- log's metadata is the same map, so the policy's are put into both.
  unfoldable pub resolve_context :
      Settings
      → Incoming
      → Readings
      → Policy re.Regexp
      → String
      → String
      → String
      → Dict String String
      → String
      → Context d
  resolve_context h incoming times pol token_hash upstream request_id meta model =
      let rp = resolve_for_model re pol model in
      let cfg = provider_config d h.providers (provider_name_of d rp pol h.default_provider) in
      record {
        incoming = incoming;
        times = times;
        token_hash = token_hash;
        model = model;
        resolved = rp;
        provider = cfg;
        upstream = upstream_of d rp cfg upstream;
        base_key_env = base_key_of d rp cfg;
        request_id = request_id;
        meta = if is_nil meta then [] else merge_metadata d rp.metadata meta;
      }

  abbrev pub parsed_body : Option String → Result ChatError (Object fl.Float)
  parsed_body none = err body_unread
  parsed_body (some body) = elim (unmarshal body) [ none ↦ err invalid_json | some o ↦ ok o ]

  -- The deferred event about the outcome, for a request with metadata.
  unfoldable pub report : String → Dict String String → Served → Served
  report token_hash meta (p, reply, log) =
      let ended = le64 200 log.status_code && lt64 log.status_code 300 in
      (
        emit_openclaw d (if ended then "openclaw.agent.success" else "openclaw.agent.error") meta
            log.status_code log.model token_hash (if ended then "" else log.error) p,
        reply,
        log,
      )

  abbrev pub on_body :
      Settings
      → Incoming
      → Readings
      → Policy re.Regexp
      → String
      → String
      → String
      → Dict String String
      → Proxy d
      → Result ChatError (Object fl.Float)
      → Served
  on_body h incoming times pol token_hash upstream request_id meta p (err e) =
      report token_hash meta (fail d 400 e p (new_log meta))
  on_body h incoming times pol token_hash upstream request_id meta p (ok body) =
      let model = text_at "model" body in
      let c = resolve_context h incoming times pol token_hash upstream request_id meta model in
      report token_hash c.meta (
        serve_resolved c body
          (emit_openclaw d "openclaw.agent.request" meta 0 model token_hash "" p)
          (record (new_log meta) {
            model = model;
            base_key_env = c.base_key_env;
            upstream_url = c.upstream;
            metadata = merge_metadata d c.resolved.metadata meta;
          }))

  unfoldable pub handle_chat_completions :
      Settings
      → Incoming
      → Readings
      → Policy re.Regexp
      → String
      → String
      → String
      → Dict String String
      → Proxy d
      → Served
  handle_chat_completions h incoming times pol token_hash upstream request_id meta p =
      on_body h incoming times pol token_hash upstream request_id meta p (parsed_body incoming.body)
