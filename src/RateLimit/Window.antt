-- ===== src/RateLimit/Window.antt =====
-- `windowCounter` and its methods. The methods change the counter through a pointer: here each returns
-- the new counter. A slice holds fewer than 2 ^ 63 entries, so `count++` over one does not wrap.
use tokenomics.Base.{
  ℕ, Bool, List, [], ◌∷◌, ◌++◌, String, Option, none, some, if◌then◌else◌, length, keep,
}
use tokenomics.Base.Eq.{string_eq, ◌==◌}
use tokenomics.Base.Int.{ℤ, pos, leb_ℤ}
use tokenomics.Base.Word.{Int64, add64}
use tokenomics.RateLimit.Clock.{Time, sub_time, after_cutoff, second, minute, hour}

-- policy.RateLimitRule
pub record RateLimitRule : Type 0 where
  pub requests : Int64
  pub tokens : Int64
  pub window : String
  pub strategy : String

-- policy.RateLimitConfig
pub record RateLimitConfig : Type 0 where
  pub rules : List RateLimitRule
  pub max_parallel : Int64

pub record TokenEntry : Type 0 where
  pub t : Time
  pub count : Int64

pub record WindowCounter : Type 0 where
  pub requests : List Time
  pub tokens : List TokenEntry
  pub rule : RateLimitRule
  pub duration : ℤ
  pub fixed_start : Time
  pub fixed_requests : Int64
  pub fixed_tokens : Int64

-- `time.ParseDuration` is a parameter: `none` is its error.
unfoldable pub parse_window : (String → Option ℤ) → String → ℤ
parse_window parse_duration w =
    if w == "1s"
    then pos second
    else if w == "1m"
    then pos minute
    else if w == ""
    then pos minute
    else if w == "1h"
    then pos hour
    else if w == "24h"
    then pos 86_400_000_000_000
    else elim (parse_duration w) [ none ↦ pos minute | some d ↦ d ]

unfoldable pub new_window : (String → Option ℤ) → RateLimitRule → WindowCounter
new_window parse_duration r = record {
  requests = [];
  tokens = [];
  rule = r;
  duration = parse_window parse_duration r.window;
  fixed_start = 0;
  fixed_requests = 0;
  fixed_tokens = 0;
}

unfoldable pub is_fixed : WindowCounter → Bool
is_fixed wc = wc.rule.strategy == "fixed"

unfoldable pub count_sliding_requests : WindowCounter → Time → ℕ
count_sliding_requests wc now = length (keep (λ t. after_cutoff t now wc.duration) wc.requests)

unfoldable pub sum_counts : Int64 → List TokenEntry → Int64
sum_counts count [] = count
sum_counts count (te ∷ tes) = sum_counts (add64 count te.count) tes

unfoldable pub count_sliding_tokens : WindowCounter → Time → Int64
count_sliding_tokens wc now =
    sum_counts 0 (keep (λ te. after_cutoff te.t now wc.duration) wc.tokens)

-- The first lines of `countFixedRequests`, `countFixedTokens` and of the fixed branch of `addTokens`.
unfoldable pub roll : WindowCounter → Time → WindowCounter
roll wc now =
    if leb_ℤ wc.duration (sub_time now wc.fixed_start)
    then record wc { fixed_start = now; fixed_requests = 0; fixed_tokens = 0 }
    else wc

unfoldable pub count_fixed_requests : WindowCounter → Time → WindowCounter × Int64
count_fixed_requests wc now = let wc' = roll wc now in (wc', wc'.fixed_requests)

unfoldable pub count_fixed_tokens : WindowCounter → Time → WindowCounter × Int64
count_fixed_tokens wc now = let wc' = roll wc now in (wc', wc'.fixed_tokens)

unfoldable pub count_requests : WindowCounter → Time → WindowCounter × Int64
count_requests wc now =
    if is_fixed wc then count_fixed_requests wc now else (wc, count_sliding_requests wc now)

unfoldable pub count_tokens : WindowCounter → Time → WindowCounter × Int64
count_tokens wc now =
    if is_fixed wc then count_fixed_tokens wc now else (wc, count_sliding_tokens wc now)

unfoldable pub add_request : WindowCounter → Time → WindowCounter
add_request wc now =
    if is_fixed wc then record wc { fixed_requests = add64 wc.fixed_requests 1 } else record wc {
      requests = keep (λ t. after_cutoff t now wc.duration) (wc.requests ++ now ∷ []);
    }

unfoldable pub add_tokens : WindowCounter → Time → Int64 → WindowCounter
add_tokens wc now count =
    if is_fixed wc
    then (let wc' = roll wc now in record wc' { fixed_tokens = add64 wc'.fixed_tokens count })
    else record wc {
      tokens =
          keep (λ te. after_cutoff te.t now wc.duration)
            (wc.tokens ++ record { t = now; count = count } ∷ []);
    }
