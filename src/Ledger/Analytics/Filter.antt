-- ===== src/Ledger/Analytics/Filter.antt =====
-- `FilteredSessions` of internal/ledger/openclaw_analytics.go.
use tokenomics.Base.{
  String, Bool, false, not, ◌&&◌, ◌||◌, List, Option, none, some, Result, ok, ◌>>=◌, any, keep,
}
use text.Mathlib.Text.{starts_with}
use tokenomics.Base.Eq.{string_eq, ◌==◌}
use tokenomics.Base.Dict.{lookup}
use tokenomics.Ledger.{SessionSummary}
use tokenomics.Ledger.Analytics.{SessionsDir, LoadError, load_sessions}

-- Package time, of what the filter compares.
pub record FilterTimes (T : Type 0) : Type 0 where
  pub parse_time : String → Option T
  pub is_zero : T → Bool
  pub is_before : T → T → Bool

pub record SessionFilter (T : Type 0) : Type 0 where
  pub start_time : T
  pub end_time : T
  pub metadata_key : String
  pub metadata_val : String
  pub token_hash : String

module _ {T : Type 0} (times : FilterTimes T) (filter : SessionFilter T) where
  abbrev pub is_value : Option String → Bool
  is_value none = false
  is_value (some val) = val == filter.metadata_val

  abbrev pub is_started : Option T → Bool
  is_started none = false
  is_started (some t) = times.is_zero filter.start_time || not (times.is_before t filter.start_time)

  abbrev pub is_ended : Option T → Bool
  is_ended none = false
  is_ended (some t) = times.is_zero filter.end_time || not (times.is_before filter.end_time t)

  unfoldable pub passes_filter : SessionSummary T → Bool
  passes_filter session =
      is_started (times.parse_time session.started_at)
      && is_ended (times.parse_time session.ended_at)
      && (filter.metadata_key == "" && filter.metadata_val == ""
          || any (λ req. is_value (lookup filter.metadata_key req.metadata)) session.requests)
      && (filter.token_hash == ""
          || any (λ req. starts_with req.token_hash filter.token_hash) session.requests)

  unfoldable pub filtered_sessions : SessionsDir T → Result LoadError (List (SessionSummary T))
  filtered_sessions dir = do sessions ← load_sessions dir; ok (keep passes_filter sessions)
