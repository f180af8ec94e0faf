-- ===== src/Stats.antt =====
-- internal/proxy/stats.go: the usage by model and key and by token. The handler's totals are taken over
-- the entries as the map holds them: sorting them for the answer changes no sum.
use tokenomics.Base.{
  String, ℕ, Bool, true, ◌&&◌, List, [], ◌∷◌, Option, none, some, if◌then◌else◌, ◌≡◌, ltb, ◌↔◌,
  arith,
}
use Prim.Native.String.{len, slice}
use tokenomics.Base.Eq.{Eq, string_eq, ◌==◌, ==_iff}
use tokenomics.Base.Dict.{Dict, lookup, insert, or_default}
use tokenomics.Base.Word.{Int64, add64}
pub mod Totals

pub record StatsKey : Type 0 where
  pub model : String
  pub base_key_env : String

abbrev pub same_key : StatsKey → StatsKey → Bool
same_key x y = x.model == y.model && x.base_key_env == y.base_key_env

pub same_key_iff : (x y : StatsKey) → (same_key x y ≡ true) ↔ (x ≡ y)
same_key_iff x y = ground (arith, ==_iff x.model y.model, ==_iff x.base_key_env y.base_key_env)

instance abbrev pub stats_key_eq : Eq StatsKey
stats_key_eq = record { same = same_key; same_iff = same_key_iff }

pub record UsageEntry : Type 0 where
  pub model : String
  pub base_key_env : String
  pub request_count : Int64
  pub input_tokens : Int64
  pub output_tokens : Int64
  pub total_tokens : Int64
  pub error_count : Int64

-- `T` is `time.Time`.
pub record SessionEntry (T : Type 0) : Type 0 where
  pub token_hash : String
  pub request_count : Int64
  pub input_tokens : Int64
  pub output_tokens : Int64
  pub total_tokens : Int64
  pub error_count : Int64
  pub last_model : String
  pub base_key_env : String
  pub first_seen : T
  pub last_seen : T

pub record UsageStats (T : Type 0) : Type 0 where
  pub entries : Dict StatsKey UsageEntry
  pub session_entries : Dict String (SessionEntry T)

unfoldable pub new_usage_stats : {T : Type 0} → UsageStats T
new_usage_stats = record { entries = []; session_entries = [] }

abbrev pub new_entry : String → String → UsageEntry
new_entry model base_key_env = record {
  model = model;
  base_key_env = base_key_env;
  request_count = 0;
  input_tokens = 0;
  output_tokens = 0;
  total_tokens = 0;
  error_count = 0;
}

unfoldable pub grow_entry : Int64 → Int64 → Bool → UsageEntry → UsageEntry
grow_entry input output is_error e = record e {
  request_count = add64 e.request_count 1;
  input_tokens = add64 e.input_tokens input;
  output_tokens = add64 e.output_tokens output;
  total_tokens = add64 e.total_tokens (add64 input output);
  error_count = if is_error then add64 e.error_count 1 else e.error_count;
}

-- The first 16 bytes of a longer hash.
unfoldable pub display_hash : String → String
display_hash token_hash = if ltb 16 (len token_hash) then slice token_hash 0 16 else token_hash

module _ {T : Type 0} where
  -- `Record` writes the last model and the last time right after.
  abbrev pub new_session : String → String → T → SessionEntry T
  new_session hash base_key_env now = record {
    token_hash = hash;
    request_count = 0;
    input_tokens = 0;
    output_tokens = 0;
    total_tokens = 0;
    error_count = 0;
    last_model = "";
    base_key_env = base_key_env;
    first_seen = now;
    last_seen = now;
  }

  unfoldable pub grow_session : String → Int64 → Int64 → Bool → T → SessionEntry T → SessionEntry T
  grow_session model input output is_error now e = record e {
    request_count = add64 e.request_count 1;
    input_tokens = add64 e.input_tokens input;
    output_tokens = add64 e.output_tokens output;
    total_tokens = add64 e.total_tokens (add64 input output);
    last_model = model;
    last_seen = now;
    error_count = if is_error then add64 e.error_count 1 else e.error_count;
  }

  unfoldable pub record_usage :
      UsageStats T → String → String → String → Int64 → Int64 → Bool → T → UsageStats T
  record_usage u token_hash model base_key_env input output is_error now =
      let key : StatsKey = record { model = model; base_key_env = base_key_env } in
      let hash = display_hash token_hash in
      record {
        entries =
            insert key
              (grow_entry input output is_error
                (or_default (new_entry model base_key_env) (lookup key u.entries)))
              u.entries;
        session_entries =
            insert hash
              (grow_session model input output is_error now
                (or_default (new_session hash base_key_env now) (lookup hash u.session_entries)))
              u.session_entries;
      }

-- One of the sums of `StatsHandler`, from what it is so far.
unfoldable pub sum_entries : (UsageEntry → Int64) → Int64 → Dict StatsKey UsageEntry → Int64
sum_entries f n [] = n
sum_entries f n ((k, e) ∷ m) = sum_entries f (add64 n (f e)) m

pub record StatsTotals : Type 0 where
  pub request_count : Int64
  pub input_tokens : Int64
  pub output_tokens : Int64
  pub total_tokens : Int64
  pub error_count : Int64

unfoldable pub stats_totals : {T : Type 0} → UsageStats T → StatsTotals
stats_totals u = record {
  request_count = sum_entries (λ e. e.request_count) 0 u.entries;
  input_tokens = sum_entries (λ e. e.input_tokens) 0 u.entries;
  output_tokens = sum_entries (λ e. e.output_tokens) 0 u.entries;
  total_tokens = sum_entries (λ e. e.total_tokens) 0 u.entries;
  error_count = sum_entries (λ e. e.error_count) 0 u.entries;
}
