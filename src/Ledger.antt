-- ===== src/Ledger.antt =====
-- internal/ledger/ledger.go: the records of a session and the operations that collect them. Go's
-- `time.Time` is a parameter; the memory writer and the files of the session are not modelled.
use tokenomics.Base.{String, Bool, List, [], ◌∷◌, ◌++◌, Option, none, some, ℕ}
use tokenomics.Base.Dict.{Dict}
use tokenomics.Base.Word.{Int64}
pub mod Summary
pub mod Rollups
pub mod Tokens
pub mod Analytics
mod Tests

-- `time.Time`: `format` writes a time as RFC 3339, and `milliseconds` is `endedAt.Sub(startedAt)`.
pub record Times : Type 1 where
  pub Time : Type 0
  pub format : Time → String
  pub milliseconds : Time → Time → Int64

pub record GitInfo : Type 0 where
  pub branch : String
  pub commit_start : String
  pub commit_end : String
  pub repo_root : String

pub record RuleMatchEntry : Type 0 where
  pub name : String
  pub action : String
  pub message : String

pub record ProviderMeta : Type 0 where
  pub cached_input_tokens : Int64
  pub cache_creation_tokens : Int64
  pub reasoning_tokens : Int64
  pub actual_model : String
  pub finish_reason : String
  pub rate_limit_remaining_requests : Int64
  pub rate_limit_remaining_tokens : Int64
  pub rate_limit_reset : String

pub record RequestEntry (T : Type 0) : Type 0 where
  pub timestamp : T
  pub token_hash : String
  pub model : String
  pub provider : String
  pub input_tokens : Int64
  pub output_tokens : Int64
  pub duration_ms : Int64
  pub status_code : Int64
  pub stream : Bool
  pub error : String
  pub upstream_id : String
  pub upstream_request_id : String
  pub retry_count : Int64
  pub fallback_model : String
  pub rule_matches : List RuleMatchEntry
  pub metadata : Dict String String
  pub provider_meta : Option ProviderMeta

pub record CommunicationEvent (T : Type 0) : Type 0 where
  pub timestamp : T
  pub type : String
  pub token_hash : String
  pub model : String
  pub provider : String
  pub method : String
  pub path : String
  pub status_code : Int64
  pub content_type : String
  pub headers : Dict String (List String)
  pub body : String
  pub body_bytes : Int64
  pub chunk_index : Int64
  pub stream : Bool
  pub retry_count : Int64
  pub error : String

pub record UsageRollup : Type 0 where
  pub request_count : Int64
  pub input_tokens : Int64
  pub output_tokens : Int64
  pub total_tokens : Int64
  pub cached_input_tokens : Int64
  pub cache_creation_tokens : Int64
  pub reasoning_tokens : Int64

-- The embedded `UsageRollup` is the field `usage`.
pub record TokenRollup : Type 0 where
  pub usage : UsageRollup
  pub models_used : List String
  pub first_seen : String
  pub last_seen : String

pub record SessionTotals : Type 0 where
  pub usage : UsageRollup
  pub error_count : Int64
  pub retry_count : Int64
  pub rule_violation_count : Int64
  pub rate_limit_count : Int64

pub record SessionSummary (T : Type 0) : Type 0 where
  pub session_id : String
  pub started_at : String
  pub ended_at : String
  pub duration_ms : Int64
  pub git : GitInfo
  pub totals : SessionTotals
  pub by_model : Dict String UsageRollup
  pub by_provider : Dict String UsageRollup
  pub by_token : Dict String TokenRollup
  pub requests : List (RequestEntry T)
  pub communication_events : List (CommunicationEvent T)

-- `Ledger`, without its memory writer and its mutex.
pub record Ledger (T : Type 0) : Type 0 where
  pub dir : String
  pub session_id : String
  pub started_at : T
  pub git_info : GitInfo
  pub memory : Bool
  pub events : Bool
  pub requests : List (RequestEntry T)
  pub communication_events : List (CommunicationEvent T)

unfoldable pub record_request : {T : Type 0} → Ledger T → RequestEntry T → Ledger T
record_request l entry = record l { requests = l.requests ++ entry ∷ [] }
