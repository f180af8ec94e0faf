-- ===== src/Chat/Samples.antt =====
-- A platform, providers and a request for the tests. URLs are texts, a header's name is its own canonical
-- spelling, floats are natural numbers, and every text marshals to the same JSON.
use tokenomics.Base.{String, ℕ, suc, true, ltb, [], ◌∷◌, Option, none, some}
use tokenomics.Base.Json.{Json, Object, text, array, object, cons, nil, field, end}
use tokenomics.Session.Memory.{memory_sessions}
use tokenomics.RateLimit.Limiter.{new_rate_limiter}
use tokenomics.Policy.Samples.{literal, blocking_rule, secret_rule}
use tokenomics.Policy.Resolve.{ResolvedPolicy, RetryConfig}
use tokenomics.Policy.Samples.{ready_policy}
use tokenomics.Stats.{new_usage_stats}
use tokenomics.Chat.{Incoming, Outgoing, Response, Platform}
use tokenomics.Chat.Request.{Plan}
use tokenomics.Chat.Tokens.{Tokenizer, Floats}
use tokenomics.Chat.Proxy.{Deps, Proxy, Context, RequestLog}
use tokenomics.Chat.Handler.{new_log}

abbrev pub plain : Platform (Json ℕ)
plain = record {
  Url = String;
  parse_url = λ s. some s;
  set_path = λ p u. u;
  set_raw_query = λ q u. u;
  with_key = λ k u. u;
  marshal = λ o. some "{}";
  brotli = λ s. none;
  gzip = λ s. none;
  getenv = λ s. "real";
  itoa = λ n. "2";
  canonical = λ s. s;
  accepts = λ m u. true;
}

abbrev pub naturals : Floats
naturals = record { Float = ℕ; to_int = λ n. n; is_positive = λ n. ltb 0 n }

-- Every text is two tokens long.
abbrev pub pairs : Tokenizer
pairs = record {
  Encoding = String;
  encoding_for_model = λ m. none;
  get_encoding = λ s. some s;
  encode = λ e s. 1 ∷ 2 ∷ [];
}

abbrev pub incoming : Incoming
incoming = record {
  method = "POST";
  path = "/v1/chat/completions";
  raw_query = "";
  headers = ("Authorization", "Bearer wrapper" ∷ []) ∷ ("Accept", "text/html" ∷ []) ∷ [];
  body = some "{}";
  flushes = true;
}

abbrev pub busy : Response
busy = record { status_code = 429; headers = []; body = some "{}" }

-- Providers that always answer 429, and providers that never answer; the world counts the calls.
abbrev pub always_busy : ℕ → Outgoing String → ℕ × Option Response
always_busy w req = (suc w, some busy)

abbrev pub unreachable_host : ℕ → Outgoing String → ℕ × Option Response
unreachable_host w req = (suc w, none)

abbrev pub plan : Plan plain
plan = record {
  incoming = incoming;
  provider = none;
  upstream = "https://upstream";
  base_key_env = "KEY";
  request_id = "id";
  body = [];
}

abbrev pub two_retries : RetryConfig
two_retries = record { max_retries = 2; fallbacks = "small" ∷ []; retry_on = [] }

abbrev pub no_retries : RetryConfig
no_retries = record { max_retries = 0; fallbacks = "small" ∷ []; retry_on = [] }

abbrev pub deps : (ℕ → Outgoing String → ℕ × Option Response) → Deps
deps call = record {
  re = literal;
  st = memory_sessions;
  tk = pairs;
  fl = naturals;
  os = plain;
  World = ℕ;
  call = call;
  parse_duration = λ s. none;
  unmarshal = λ s. some [];
  scan = λ r. [];
  atoi = λ s. none;
  match_text = λ m. "matched";
  error_text = λ e. "error";
}

abbrev pub proxy : (call : ℕ → Outgoing String → ℕ × Option Response) → Proxy (deps call)
proxy call = record {
  limiter = new_rate_limiter;
  sessions = record { usage = ("hash", 7) ∷ [] };
  stats = new_usage_stats;
  ledger = none;
  emitted = [];
  world = 0;
}

abbrev pub resolved : ResolvedPolicy String
resolved = record {
  base_key_env = "KEY";
  upstream_url = "";
  max_tokens = 100;
  model = "";
  model_regex = "";
  provider_name = "";
  prompts = [];
  rules = blocking_rule ∷ record secret_rule { compiled_pattern = some "hidden" } ∷ [];
  memory = ready_policy.memory;
  rate_limit = some (record { rules = []; max_parallel = 2 });
  retry = some two_retries;
  timeout = 0;
  metadata = [];
  compiled_model_regex = none;
}

abbrev pub context : (call : ℕ → Outgoing String → ℕ × Option Response) → Context (deps call)
context call = record {
  incoming = incoming;
  times = record {
    seen = 1;
    allowed = 2;
    acquired = 3;
    input_recorded = 4;
    output_recorded = 5;
    counted = 6;
    written = 7;
  };
  token_hash = "hash";
  model = "large";
  resolved = resolved;
  provider = none;
  upstream = "https://upstream";
  base_key_env = "KEY";
  request_id = "id";
  meta = [];
}

abbrev pub message : String → Json ℕ
message s = object (field "role" (text "user") (field "content" (text s) end))

abbrev pub body : String → Object ℕ
body s = ("messages", array (cons (message s) nil)) ∷ []

abbrev pub log : RequestLog
log = new_log (deps always_busy) []
