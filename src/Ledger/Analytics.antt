-- ===== src/Ledger/Analytics.antt =====
-- internal/ledger/openclaw_analytics.go: the sessions on disk, grouped by what the metadata of their requests
-- say, or filtered. A set of texts is a map into Bool.
pub mod Groups
pub mod Filter
use tokenomics.Base.{
  String, Bool, true, false, not, ◌&&◌, ◌||◌, List, [], ◌∷◌, ◌++◌, Option, none, some, Result, ok,
  err, ◌>>=◌, any, keep, map, length, if◌then◌else◌, leb, ◌-◌,
}
use Prim.Native.Nat.{◌%◌}
use Prim.Native.String.{len, slice, ◌++◌ as ◌+++◌}
use text.Mathlib.Text.{starts_with}
use tokenomics.Base.Eq.{string_eq, ◌==◌}
use tokenomics.Base.Dict.{Dict, lookup, insert, or_default}
use tokenomics.Base.Word.{Int64, add64, word_mod}
use tokenomics.Ledger.{RequestEntry, SessionSummary}
use tokenomics.Ledger.Summary.{meta_field}

-- What `os.Stat` tells of the directory of sessions, and its entries, each with the session that is decoded from
-- the file, unless it cannot be read or decoded.
pub data Stat : Type 0 where
  not_exist stat_failed not_directory is_directory : Stat

pub record DirEntry (T : Type 0) : Type 0 where
  pub is_dir : Bool
  pub name : String
  pub session : Option (SessionSummary T)

pub record SessionsDir (T : Type 0) : Type 0 where
  pub stat : Stat
  pub entries : Option (List (DirEntry T))

unfoldable pub ends_with : String → String → Bool
ends_with s suffix = leb (len suffix) (len s) && slice s (len s - len suffix) (len s) == suffix

pub data LoadError : Type 0 where
  stat_error no_directory read_error : LoadError

-- `OpenClawMetricValue`
pub record MetricValue : Type 0 where
  pub value : String
  pub request_count : Int64
  pub input_tokens : Int64
  pub output_tokens : Int64
  pub total_tokens : Int64
  pub cached_input_tokens : Int64
  pub cache_creation_tokens : Int64
  pub reasoning_tokens : Int64
  pub error_count : Int64
  pub sessions : Int64
  pub models_used : List String

abbrev pub new_metric : String → MetricValue
new_metric value = record {
  value = value;
  request_count = 0;
  input_tokens = 0;
  output_tokens = 0;
  total_tokens = 0;
  cached_input_tokens = 0;
  cache_creation_tokens = 0;
  reasoning_tokens = 0;
  error_count = 0;
  sessions = 0;
  models_used = [];
}

-- The three maps of the loop.
pub record Metrics : Type 0 where
  pub metrics : Dict String MetricValue
  pub seen_sessions : Dict String (Dict String Bool)
  pub models_per_value : Dict String (Dict String Bool)

unfoldable pub begin_value : String → Metrics → Metrics
begin_value value g = at_value (lookup value g.metrics)
  where
    at_value : Option MetricValue → Metrics
    at_value (some m) = g
    at_value none = record {
      metrics = insert value (new_metric value) g.metrics;
      seen_sessions = insert value [] g.seen_sessions;
      models_per_value = insert value [] g.models_per_value;
    }

-- `sets[value][x] = true`
unfoldable pub mark :
    String → String → Dict String (Dict String Bool) → Dict String (Dict String Bool)
mark value x sets = insert value (insert x true (or_default [] (lookup value sets))) sets

module _ {T : Type 0} where
  unfoldable pub grow_metric : MetricValue → RequestEntry T → MetricValue
  grow_metric m req = record m {
    request_count = add64 m.request_count 1;
    input_tokens = add64 m.input_tokens req.input_tokens;
    output_tokens = add64 m.output_tokens req.output_tokens;
    total_tokens = add64 m.total_tokens (add64 req.input_tokens req.output_tokens);
    cached_input_tokens =
        add64 m.cached_input_tokens (meta_field (λ pm. pm.cached_input_tokens) req.provider_meta);
    cache_creation_tokens =
        add64 m.cache_creation_tokens
          (meta_field (λ pm. pm.cache_creation_tokens) req.provider_meta);
    reasoning_tokens =
        add64 m.reasoning_tokens (meta_field (λ pm. pm.reasoning_tokens) req.provider_meta);
    error_count = if req.error == "" then m.error_count else add64 m.error_count 1;
  }

  -- The body of the loop, for a request with a value.
  unfoldable pub count_entry : String → String → RequestEntry T → Metrics → Metrics
  count_entry session_id value req g =
      let g' = begin_value value g in
      record {
        metrics =
            insert value (grow_metric (or_default (new_metric value) (lookup value g'.metrics)) req)
              g'.metrics;
        seen_sessions = mark value session_id g'.seen_sessions;
        models_per_value =
            if req.model == ""
            then g'.models_per_value
            else mark value req.model g'.models_per_value;
      }

  abbrev pub count_valued : String → Option String → RequestEntry T → Metrics → Metrics
  count_valued session_id none req g = g
  count_valued session_id (some value) req g = count_entry session_id value req g

  unfoldable pub count_entries :
      (RequestEntry T → Option String) → String → List (RequestEntry T) → Metrics → Metrics
  count_entries value_of session_id [] g = g
  count_entries value_of session_id (req ∷ reqs) g =
      count_entries value_of session_id reqs (count_valued session_id (value_of req) req g)

  unfoldable pub count_sessions :
      (RequestEntry T → Option String) → List (SessionSummary T) → Metrics → Metrics
  count_sessions value_of [] g = g
  count_sessions value_of (s ∷ ss) g =
      count_sessions value_of ss (count_entries value_of s.session_id s.requests g)

  -- The value under a key, where it is set.
  unfoldable pub metadata_value : String → RequestEntry T → Option String
  metadata_value key req = set (lookup key req.metadata)
    where
      set : Option String → Option String
      set none = none
      set (some value) = if value == "" then none else some value

  unfoldable pub team_and_channel : RequestEntry T → Option String
  team_and_channel req =
      let team = or_default "" (lookup "team" req.metadata) in
      let channel = or_default "" (lookup "channel" req.metadata) in
      if team == "" || channel == "" then none else some (team +++ "/" +++ channel)

  unfoldable pub load_sessions : SessionsDir T → Result LoadError (List (SessionSummary T))
  load_sessions dir = at_stat dir.stat
    where
      decoded : List (DirEntry T) → List (SessionSummary T)
      decoded [] = []
      decoded (entry ∷ entries) = with_entry (decoded entries) entry.session
        where
          with_entry : List (SessionSummary T) → Option (SessionSummary T) → List (SessionSummary T)
          with_entry rest none = rest
          with_entry rest (some s) =
              if entry.is_dir || not (ends_with entry.name ".json") then rest else s ∷ rest

      read_dir : Option (List (DirEntry T)) → Result LoadError (List (SessionSummary T))
      read_dir none = err read_error
      read_dir (some entries) = ok (decoded entries)

      at_stat : Stat → Result LoadError (List (SessionSummary T))
      at_stat not_exist = ok []
      at_stat stat_failed = err stat_error
      at_stat not_directory = err no_directory
      at_stat is_directory = read_dir dir.entries

-- Package sort is a parameter: nothing rests on it.
module _ (sort_strings : List String → List String) where
  abbrev pub models_of : Dict String Bool → List String → List String
  models_of [] unset = unset
  models_of (m ∷ ms) unset = sort_strings (map (λ (model, seen). model) (m ∷ ms))

  unfoldable pub finish_metric : Metrics → String → MetricValue → MetricValue
  finish_metric g value m = record m {
    sessions = length (or_default [] (lookup value g.seen_sessions)) % word_mod;
    models_used = models_of (or_default [] (lookup value g.models_per_value)) m.models_used;
  }

  unfoldable pub finish_metrics : Metrics → Dict String MetricValue → Dict String MetricValue
  finish_metrics g [] = []
  finish_metrics g ((value, m) ∷ ms) = (value, finish_metric g value m) ∷ finish_metrics g ms

  unfoldable pub grouped :
      {T : Type 0}
      → (RequestEntry T → Option String)
      → List (SessionSummary T)
      → Dict String MetricValue
  grouped value_of sessions =
      let g =
        count_sessions value_of sessions
          (record { metrics = []; seen_sessions = []; models_per_value = [] }) in
      finish_metrics g g.metrics

  unfoldable pub by_metadata_key :
      {T : Type 0} → String → SessionsDir T → Result LoadError (Dict String MetricValue)
  by_metadata_key key dir = do
    sessions ← load_sessions dir
    ok (grouped (metadata_value key) sessions)

  unfoldable pub by_team_and_channel :
      {T : Type 0} → SessionsDir T → Result LoadError (Dict String MetricValue)
  by_team_and_channel dir = do sessions ← load_sessions dir; ok (grouped team_and_channel sessions)
