-- ===== src/Ledger/Tests.antt =====
-- A ledger of three requests.
use tokenomics.Base.{refl, ℕ, ◌≡◌, List, [], ◌∷◌, none, some, false, String, ok}
use tokenomics.Ledger.{Times, RequestEntry, SessionSummary, Ledger}
use tokenomics.Ledger.Summary.{build_summary}
use tokenomics.Ledger.Rollups.{usage_of, of_token}
use tokenomics.Ledger.Analytics.{
  is_directory, SessionsDir, ends_with, load_sessions, metadata_value, team_and_channel,
  by_metadata_key, by_team_and_channel,
}
use tokenomics.Ledger.Analytics.Groups.{IsCounted, by_metadata_key-IsCounted}
use tokenomics.Ledger.Tokens.{token_usage, build_summary-by_token}

abbrev seconds : Times
seconds = record { Time = ℕ; format = λ t. "then"; milliseconds = λ a b. 1000 }

abbrev first_request : RequestEntry ℕ
first_request = record {
  timestamp = 1;
  token_hash = "a";
  model = "small";
  provider = "one";
  input_tokens = 10;
  output_tokens = 20;
  duration_ms = 5;
  status_code = 200;
  stream = false;
  error = "";
  upstream_id = "";
  upstream_request_id = "";
  retry_count = 0;
  fallback_model = "";
  rule_matches = [];
  metadata = [];
  provider_meta = some (record {
    cached_input_tokens = 4;
    cache_creation_tokens = 0;
    reasoning_tokens = 6;
    actual_model = "small";
    finish_reason = "stop";
    rate_limit_remaining_requests = 0;
    rate_limit_remaining_tokens = 0;
    rate_limit_reset = "";
  });
}

abbrev requests : List (RequestEntry ℕ)
requests =
    first_request
    ∷ record first_request { model = "large"; token_hash = "b"; status_code = 429 }
    ∷ record first_request { input_tokens = 1; provider_meta = none }
    ∷ []

abbrev some_ledger : Ledger ℕ
some_ledger = record {
  dir = ".tokenomics";
  session_id = "s";
  started_at = 0;
  git_info = record { branch = ""; commit_start = ""; commit_end = ""; repo_root = "" };
  memory = false;
  events = false;
  requests = requests;
  communication_events = [];
}

build_summary-by_token_example :
    token_usage "a" (build_summary seconds some_ledger requests [] 9).by_token
    ≡ record (usage_of (of_token seconds "a" requests)) {
      cached_input_tokens = 0;
      cache_creation_tokens = 0;
      reasoning_tokens = 0;
    }
build_summary-by_token_example = build_summary-by_token seconds some_ledger requests [] 9 "a"

-- Two requests of a team, and one of another: the joined texts of both channels are the same.
abbrev team_requests : List (RequestEntry ℕ)
team_requests =
    record first_request { metadata = ("team", "a") ∷ ("channel", "b/c") ∷ [] }
    ∷ record first_request { metadata = ("team", "a/b") ∷ ("channel", "c") ∷ [] }
    ∷ record first_request { metadata = ("team", "a") ∷ []; error = "late" }
    ∷ []

abbrev team_session : SessionSummary ℕ
team_session = build_summary seconds some_ledger team_requests [] 9

abbrev one_file : SessionsDir ℕ
one_file = record {
  stat = is_directory;
  entries = some (
      record { is_dir = false; name = "s.json"; session = some team_session }
      ∷ record { is_dir = false; name = "s.txt"; session = some team_session }
      ∷ record { is_dir = false; name = "t.json"; session = none }
      ∷ []);
}

abbrev as_found : List String → List String
as_found ss = ss

one_loaded : load_sessions one_file ≡ ok (team_session ∷ [])
unfolding load_sessions ends_with
one_loaded = refl

by_metadata_key-IsCounted_example :
    IsCounted
      (metadata_value "team")
      "a"
      (team_session ∷ [])
      (by_metadata_key as_found "team" one_file)
    × IsCounted team_and_channel "a" (team_session ∷ []) (by_team_and_channel as_found one_file)
by_metadata_key-IsCounted_example =
    by_metadata_key-IsCounted as_found one_file "team" "a" (team_session ∷ []) one_loaded
