-- ===== src/RateLimit/Limiter.antt =====
-- `RateLimiter` and its exported methods. Each call is one step: what it does to the bucket behind the
-- pointer is written back to the map. The two readings of the clock in `Allow` are two arguments.
use tokenomics.Base.{
  ℕ, Bool, false, List, [], ◌∷◌, String, Option, none, some, if◌then◌else◌, is_nil, ◌&&◌, not, map,
}
use tokenomics.Base.Eq.{string_eq, nat_eq, ◌==◌}
use tokenomics.Base.Int.{ℤ, pos, ltb_ℤ}
use tokenomics.Base.Word.{Int64, add64, neg64, lt64, le64}
use tokenomics.Base.Dict.{Dict, lookup, insert}
use tokenomics.RateLimit.Clock.{Time, is_zero, sub_time, minute}
use tokenomics.RateLimit.Window.{
  RateLimitConfig, WindowCounter, new_window, count_requests, count_tokens, add_request, add_tokens,
}

pub record TokenBucket : Type 0 where
  pub windows : List WindowCounter
  pub parallel : Int64
  pub max_parallel : Int64
  pub last_seen : Time

pub record RateLimiter : Type 0 where
  pub buckets : Dict String TokenBucket
  pub last_gc : Time

-- The errors of `Allow`, with the values that their messages carry.
pub data RateError : Type 0 where
  too_many_parallel : Int64 → Int64 → RateError
  too_many_requests too_many_tokens : Int64 → String → Int64 → RateError

unfoldable pub new_rate_limiter : RateLimiter
new_rate_limiter = record { buckets = []; last_gc = 0 }

abbrev pub stale_after : ℕ
stale_after = 86_400_000_000_000

unfoldable pub is_stale : Time → TokenBucket → Bool
is_stale now b =
    if lt64 0 b.parallel
    then false
    else not (is_zero b.last_seen) && ltb_ℤ (pos stale_after) (sub_time now b.last_seen)

unfoldable pub drop_stale : Time → Dict String TokenBucket → Dict String TokenBucket
drop_stale now [] = []
drop_stale now ((k, b) ∷ m) = if is_stale now b then drop_stale now m else (k, b) ∷ drop_stale now m

unfoldable pub gc_stale_buckets : RateLimiter → Time → RateLimiter
gc_stale_buckets rl now =
    if not (is_zero rl.last_gc) && ltb_ℤ (sub_time now rl.last_gc) (pos minute)
    then rl
    else record { buckets = drop_stale now rl.buckets; last_gc = now }

unfoldable pub new_bucket : (String → Option ℤ) → RateLimitConfig → Time → TokenBucket
new_bucket parse_duration cfg now = record {
  windows = map (new_window parse_duration) cfg.rules;
  parallel = 0;
  max_parallel = cfg.max_parallel;
  last_seen = now;
}

unfoldable pub put_bucket : RateLimiter → String → TokenBucket → RateLimiter
put_bucket rl k b = record rl { buckets = insert k b rl.buckets }

abbrev pub seen_or_new :
    (String → Option ℤ) → RateLimitConfig → Time → Option TokenBucket → TokenBucket
seen_or_new parse_duration cfg now none = new_bucket parse_duration cfg now
seen_or_new parse_duration cfg now (some b) = record b { last_seen = now }

unfoldable pub get_bucket :
    (String → Option ℤ) → RateLimiter → String → RateLimitConfig → Time → RateLimiter × TokenBucket
get_bucket parse_duration rl token_hash cfg now =
    let rl' = gc_stale_buckets rl now in
    let b = seen_or_new parse_duration cfg now (lookup token_hash rl'.buckets) in
    (put_bucket rl' token_hash b, b)

-- One round of the checking loop: the counter as the counting leaves it, and the error, if any.
unfoldable pub check_tokens : WindowCounter → Time → WindowCounter × Option RateError
check_tokens wc now =
    if lt64 0 wc.rule.tokens
    then (let (wc', count) = count_tokens wc now in
        (
          wc',
          if le64 wc.rule.tokens count
              then some (too_many_tokens count wc.rule.window wc.rule.tokens)
              else none,
        ))
    else (wc, none)

unfoldable pub check_window : WindowCounter → Time → WindowCounter × Option RateError
check_window wc now =
    if lt64 0 wc.rule.requests
    then (let (wc', count) = count_requests wc now in
        if le64 wc.rule.requests count
        then (wc', some (too_many_requests count wc.rule.window wc.rule.requests))
        else check_tokens wc' now)
    else check_tokens wc now

abbrev pub or_rest :
    WindowCounter × Option RateError
    → List WindowCounter
    → List WindowCounter × Option RateError
    → List WindowCounter × Option RateError
or_rest (wc, some e) wcs rest = (wc ∷ wcs, some e)
or_rest (wc, none) wcs rest = (wc ∷ rest.0, rest.1)

-- The loop stops at the first window that is full.
unfoldable pub check_windows : List WindowCounter → Time → List WindowCounter × Option RateError
check_windows [] now = ([], none)
check_windows (wc ∷ wcs) now = or_rest (check_window wc now) wcs (check_windows wcs now)

unfoldable pub record_request : Time → WindowCounter → WindowCounter
record_request now wc = if lt64 0 wc.rule.requests then add_request wc now else wc

abbrev pub allow_windows :
    RateLimiter
    → String
    → TokenBucket
    → Time
    → List WindowCounter × Option RateError
    → RateLimiter × Option RateError
allow_windows rl k b now (wcs, some e) = (put_bucket rl k (record b { windows = wcs }), some e)
allow_windows rl k b now (wcs, none) =
    (put_bucket rl k (record b { windows = map (record_request now) wcs }), none)

unfoldable pub allow_bucket :
    RateLimiter → String → TokenBucket → Time → RateLimiter × Option RateError
allow_bucket rl k b now =
    if lt64 0 b.max_parallel && le64 b.max_parallel b.parallel
    then (rl, some (too_many_parallel b.parallel b.max_parallel))
    else allow_windows rl k b now (check_windows b.windows now)

unfoldable pub is_unlimited : RateLimitConfig → Bool
is_unlimited cfg = is_nil cfg.rules && (cfg.max_parallel == 0)

-- `none` is the nil configuration, and as a result the nil error.
unfoldable pub allow :
    (String → Option ℤ)
    → RateLimiter
    → String
    → Option RateLimitConfig
    → Time
    → Time
    → RateLimiter × Option RateError
allow parse_duration rl token_hash none seen now = (rl, none)
allow parse_duration rl token_hash (some cfg) seen now =
    if is_unlimited cfg
    then (rl, none)
    else (let (rl', b) = get_bucket parse_duration rl token_hash cfg seen in
        allow_bucket rl' token_hash b now)

unfoldable pub charge_tokens : Time → Int64 → WindowCounter → WindowCounter
charge_tokens now tokens wc = if lt64 0 wc.rule.tokens then add_tokens wc now tokens else wc

abbrev pub on_bucket : (TokenBucket → TokenBucket) → RateLimiter → String → RateLimiter
on_bucket f rl k = elim (lookup k rl.buckets) [ none ↦ rl | some b ↦ put_bucket rl k (f b) ]

unfoldable pub record_tokens :
    RateLimiter → String → Option RateLimitConfig → Int64 → Time → RateLimiter
record_tokens rl token_hash none tokens now = rl
record_tokens rl token_hash (some cfg) tokens now =
    if is_nil cfg.rules
    then rl
    else if tokens == 0
    then rl
    else on_bucket (λ b. record b { windows = map (charge_tokens now tokens) b.windows }) rl
        token_hash

unfoldable pub acquire :
    (String → Option ℤ) → RateLimiter → String → Option RateLimitConfig → Time → RateLimiter
acquire parse_duration rl token_hash none now = rl
acquire parse_duration rl token_hash (some cfg) now =
    if cfg.max_parallel == 0
    then rl
    else (let (rl', b) = get_bucket parse_duration rl token_hash cfg now in
        put_bucket rl' token_hash (record b { parallel = add64 b.parallel 1 }))

unfoldable pub release : RateLimiter → String → Option RateLimitConfig → RateLimiter
release rl token_hash none = rl
release rl token_hash (some cfg) =
    if cfg.max_parallel == 0
    then rl
    else on_bucket (λ b. record b { parallel = add64 b.parallel (neg64 1) }) rl token_hash
