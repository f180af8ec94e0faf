-- ===== src/Ledger/Summary.antt =====
-- internal/ledger/ledger.go, `buildSummary` and `addToRollup`: one pass over the requests that keeps
-- the totals and the rollups by model, by provider and by token.
use tokenomics.Base.{
  String, Bool, not, List, [], ◌∷◌, ◌++◌, Option, none, some, any, if◌then◌else◌, nat_beq,
}
use tokenomics.Base.Eq.{string_eq, ◌==◌}
use tokenomics.Base.Dict.{Dict, lookup, insert, or_default}
use tokenomics.Base.Word.{Int64, add64, le64}
use tokenomics.Ledger.{
  Times, RuleMatchEntry, ProviderMeta, RequestEntry, CommunicationEvent, UsageRollup, TokenRollup,
  SessionTotals, SessionSummary, Ledger,
}

abbrev pub empty_rollup : UsageRollup
empty_rollup = record {
  request_count = 0;
  input_tokens = 0;
  output_tokens = 0;
  total_tokens = 0;
  cached_input_tokens = 0;
  cache_creation_tokens = 0;
  reasoning_tokens = 0;
}

-- The additions of `addToRollup` to the rollup that it found or made.
unfoldable pub grow : UsageRollup → Int64 → Int64 → Int64 → Int64 → Int64 → UsageRollup
grow r input output cached cache_create reasoning = record {
  request_count = add64 r.request_count 1;
  input_tokens = add64 r.input_tokens input;
  output_tokens = add64 r.output_tokens output;
  total_tokens = add64 r.total_tokens (add64 input output);
  cached_input_tokens = add64 r.cached_input_tokens cached;
  cache_creation_tokens = add64 r.cache_creation_tokens cache_create;
  reasoning_tokens = add64 r.reasoning_tokens reasoning;
}

unfoldable pub add_to_rollup :
    Dict String UsageRollup
    → String
    → Int64
    → Int64
    → Int64
    → Int64
    → Int64
    → Dict String UsageRollup
add_to_rollup m key input output cached cache_create reasoning =
    insert key
      (grow (or_default empty_rollup (lookup key m)) input output cached cache_create reasoning) m

-- `containsStr`
unfoldable pub contains_str : List String → String → Bool
contains_str ss s = any (λ x. x == s) ss

-- The loop over the rule matches of a request.
unfoldable pub count_violations : Int64 → List RuleMatchEntry → Int64
count_violations n [] = n
count_violations n (rm ∷ rms) = count_violations (if rm.action == "fail" then add64 n 1 else n) rms

-- A field of the provider's metadata, zero for the nil pointer.
abbrev pub meta_field : (ProviderMeta → Int64) → Option ProviderMeta → Int64
meta_field f none = 0
meta_field f (some pm) = f pm

module _ (times : Times) where
  open times use {Time, format, milliseconds}

  unfoldable pub add_to_totals : SessionTotals → RequestEntry Time → SessionTotals
  add_to_totals t req = record {
    usage =
        grow t.usage req.input_tokens req.output_tokens
          (meta_field (λ pm. pm.cached_input_tokens) req.provider_meta)
          (meta_field (λ pm. pm.cache_creation_tokens) req.provider_meta)
          (meta_field (λ pm. pm.reasoning_tokens) req.provider_meta);
    error_count = if le64 400 req.status_code then add64 t.error_count 1 else t.error_count;
    retry_count = add64 t.retry_count req.retry_count;
    rule_violation_count = count_violations t.rule_violation_count req.rule_matches;
    rate_limit_count =
        if nat_beq req.status_code 429 then add64 t.rate_limit_count 1 else t.rate_limit_count;
  }

  abbrev pub new_token_rollup : RequestEntry Time → TokenRollup
  new_token_rollup req = record {
    usage = empty_rollup;
    models_used = [];
    first_seen = format req.timestamp;
    last_seen = "";
  }

  -- The counts of a token: the three of the provider's metadata are not among them.
  unfoldable pub grow_token : TokenRollup → RequestEntry Time → TokenRollup
  grow_token tr req = record {
    usage = record (tr.usage) {
      request_count = add64 tr.usage.request_count 1;
      input_tokens = add64 tr.usage.input_tokens req.input_tokens;
      output_tokens = add64 tr.usage.output_tokens req.output_tokens;
      total_tokens = add64 tr.usage.total_tokens (add64 req.input_tokens req.output_tokens);
    };
    models_used =
        if not (contains_str tr.models_used req.model)
        then tr.models_used ++ req.model ∷ []
        else tr.models_used;
    first_seen = tr.first_seen;
    last_seen = format req.timestamp;
  }

  -- The body of the loop.
  unfoldable pub add_request : SessionSummary Time → RequestEntry Time → SessionSummary Time
  add_request s req =
      let cached = meta_field (λ pm. pm.cached_input_tokens) req.provider_meta in
      let cache_create = meta_field (λ pm. pm.cache_creation_tokens) req.provider_meta in
      let reasoning = meta_field (λ pm. pm.reasoning_tokens) req.provider_meta in
      record s {
        totals = add_to_totals s.totals req;
        by_model =
            add_to_rollup s.by_model req.model req.input_tokens req.output_tokens cached
              cache_create reasoning;
        by_provider =
            if not (req.provider == "")
            then add_to_rollup s.by_provider req.provider req.input_tokens req.output_tokens cached
                cache_create reasoning
            else s.by_provider;
        by_token =
            insert req.token_hash
              (grow_token (or_default (new_token_rollup req) (lookup req.token_hash s.by_token))
                req)
              s.by_token;
      }

  unfoldable pub add_requests : SessionSummary Time → List (RequestEntry Time) → SessionSummary Time
  add_requests s [] = s
  add_requests s (req ∷ reqs) = add_requests (add_request s req) reqs

  unfoldable pub new_summary :
      Ledger Time
      → List (RequestEntry Time)
      → List (CommunicationEvent Time)
      → Time
      → SessionSummary Time
  new_summary l requests comm_events ended_at = record {
    session_id = l.session_id;
    started_at = format l.started_at;
    ended_at = format ended_at;
    duration_ms = milliseconds l.started_at ended_at;
    git = l.git_info;
    totals = record {
      usage = empty_rollup;
      error_count = 0;
      retry_count = 0;
      rule_violation_count = 0;
      rate_limit_count = 0;
    };
    by_model = [];
    by_provider = [];
    by_token = [];
    requests = requests;
    communication_events = comm_events;
  }

  unfoldable pub build_summary :
      Ledger Time
      → List (RequestEntry Time)
      → List (CommunicationEvent Time)
      → Time
      → SessionSummary Time
  build_summary l requests comm_events ended_at =
      add_requests (new_summary l requests comm_events ended_at) requests

  -- The summary that `Close` writes; `commit_end` is what `snapshotGitEnd` found.
  unfoldable pub closing_summary : Ledger Time → String → Time → SessionSummary Time
  closing_summary l commit_end ended_at =
      build_summary (record l { git_info = record (l.git_info) { commit_end = commit_end } })
        l.requests l.communication_events ended_at
