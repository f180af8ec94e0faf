-- ===== src/RateLimit/Bounded.antt =====
-- The invariant of the windows, carried through every method of the limiter.
use tokenomics.Base.{
  ◌≡◌, List, [], ◌∷◌, Option, none, some, arith, String, All, map, Option-cases, inl, inr,
}
use tokenomics.Base.Int.{ℤ}
use tokenomics.Base.Eq.{string_eq}
use tokenomics.Base.Dict.{Dict, lookup, insert}
use tokenomics.Base.Word.{Int64, add64, neg64}
use tokenomics.RateLimit.Clock.{Time}
use tokenomics.RateLimit.Window.{RateLimitRule, RateLimitConfig, WindowCounter, new_window}
use tokenomics.RateLimit.Limiter.{
  RateLimiter, TokenBucket, check_window, check_windows, record_request, charge_tokens, drop_stale,
  gc_stale_buckets, new_bucket, put_bucket, get_bucket, allow_bucket, allow, record_tokens, acquire,
  release, new_rate_limiter, seen_or_new,
}
use tokenomics.RateLimit.Calls.{Call, allows, records, acquires, releases, step, run}
use tokenomics.RateLimit.Invariant.{
  Within, check_window-Within, check_window-Ready, record_request-Within, charge_tokens-Within,
  new_window-Within,
}

abbrev pub BucketWithin : TokenBucket → Type 0
BucketWithin b = All Within b.windows

abbrev pub DictWithin : Dict String TokenBucket → Type 0
DictWithin [] = Unit {0}
DictWithin ((k, b) ∷ m) = BucketWithin b × DictWithin m

abbrev pub IsBounded : RateLimiter → Type 0
IsBounded rl = DictWithin rl.buckets

check_windows-Within :
    (wcs : List WindowCounter) (now : Time) → All Within wcs → All Within (check_windows wcs now).0
unfolding check_windows
check_windows-Within [] now v = tt
check_windows-Within (wc ∷ wcs) now v = elim (Option-cases (check_window wc now).1) [
  | inl e ↦ ground (arith, check_window-Within wc now v.0, check_windows-Within wcs now v.1)
  | inr (x, e) ↦ ground (arith, check_window-Within wc now v.0)
]

recorded-Within :
    (wcs : List WindowCounter) (now : Time)
    → All Within wcs
    → (check_windows wcs now).1 ≡ none
    → All Within (map (record_request now) (check_windows wcs now).0)
unfolding check_windows
recorded-Within [] now v h = tt
recorded-Within (wc ∷ wcs) now v h = elim (Option-cases (check_window wc now).1) [
  | inl e ↦ ground (
    arith,
    record_request-Within (check_window wc now).0 now (check_window-Within wc now v.0)
        (check_window-Ready wc now v.0 e),
    recorded-Within wcs now v.1,
  )
  | inr (x, e) ↦ ground arith
]

charged-Within :
    (wcs : List WindowCounter) (now : Time) (n : Int64)
    → All Within wcs
    → All Within (map (charge_tokens now n) wcs)
charged-Within [] now n v = tt
charged-Within (wc ∷ wcs) now n v =
    (charge_tokens-Within wc now n v.0, charged-Within wcs now n v.1)

new_windows-Within :
    (parse : String → Option ℤ) (rs : List RateLimitRule) → All Within (map (new_window parse) rs)
new_windows-Within parse [] = tt
new_windows-Within parse (r ∷ rs) = (new_window-Within parse r, new_windows-Within parse rs)

insert-DictWithin :
    (k : String) (b : TokenBucket) (m : Dict String TokenBucket)
    → BucketWithin b
    → DictWithin m
    → DictWithin (insert k b m)
unfolding insert
insert-DictWithin k b [] hb hm = (hb, tt)
insert-DictWithin k b ((j, c) ∷ m) hb hm = ground (arith, insert-DictWithin k b m hb hm.1)

lookup-DictWithin :
    (k : String) (b : TokenBucket) (m : Dict String TokenBucket)
    → DictWithin m
    → lookup k m ≡ some b
    → BucketWithin b
unfolding lookup
lookup-DictWithin k b [] hm e = cc
lookup-DictWithin k b ((j, c) ∷ m) hm e = ground (arith, lookup-DictWithin k b m hm.1)

drop_stale-DictWithin :
    (now : Time) (m : Dict String TokenBucket) → DictWithin m → DictWithin (drop_stale now m)
unfolding drop_stale
drop_stale-DictWithin now [] hm = tt
drop_stale-DictWithin now ((j, c) ∷ m) hm = ground (arith, drop_stale-DictWithin now m hm.1)

gc-IsBounded : (rl : RateLimiter) (now : Time) → IsBounded rl → IsBounded (gc_stale_buckets rl now)
unfolding gc_stale_buckets
gc-IsBounded rl now v = ground (arith, drop_stale-DictWithin now rl.buckets v)

put-IsBounded :
    (rl : RateLimiter) (k : String) (b : TokenBucket)
    → IsBounded rl
    → BucketWithin b
    → IsBounded (put_bucket rl k b)
unfolding put_bucket
put-IsBounded rl k b v hb = insert-DictWithin k b rl.buckets hb v

module _ (parse : String → Option ℤ) where
  get_bucket-Within :
      (rl : RateLimiter) (k : String) (cfg : RateLimitConfig) (now : Time)
      → IsBounded rl
      → IsBounded (get_bucket parse rl k cfg now).0 × BucketWithin (get_bucket parse rl k cfg now).1
  unfolding get_bucket new_bucket
  get_bucket-Within rl k cfg now v =
      let v' = gc-IsBounded rl now v in
      elim (Option-cases (lookup k (gc_stale_buckets rl now).buckets)) [
        | inl e ↦
            rw (e, seen_or_new)
              (let w = new_windows-Within parse cfg.rules in
                (put-IsBounded (gc_stale_buckets rl now) k _ v' w, w))
        | inr (b, e) ↦
            rw (e, seen_or_new)
              (let w = lookup-DictWithin k b _ v' e in
                (put-IsBounded (gc_stale_buckets rl now) k _ v' w, w))
      ]

  allow_bucket-IsBounded :
      (rl : RateLimiter) (k : String) (b : TokenBucket) (now : Time)
      → IsBounded rl
      → BucketWithin b
      → IsBounded (allow_bucket rl k b now).0
  unfolding allow_bucket
  allow_bucket-IsBounded rl k b now v hb = elim (Option-cases (check_windows b.windows now).1) [
    | inl e ↦ ground (
      arith,
      put-IsBounded rl k
          (record b { windows = map (record_request now) (check_windows b.windows now).0 }) v
          (recorded-Within b.windows now hb e),
    )
    | inr (x, e) ↦ ground (
      arith,
      put-IsBounded rl k (record b { windows = (check_windows b.windows now).0 }) v
          (check_windows-Within b.windows now hb),
    )
  ]

  allow-IsBounded :
      (rl : RateLimiter) (k : String) (cfg : Option RateLimitConfig) (seen now : Time)
      → IsBounded rl
      → IsBounded (allow parse rl k cfg seen now).0
  unfolding allow
  allow-IsBounded rl k none seen now v = v
  allow-IsBounded rl k (some cfg) seen now v =
      let (v', hb) = get_bucket-Within rl k cfg seen v in
      ground (
        arith,
        allow_bucket-IsBounded (get_bucket parse rl k cfg seen).0 k
            (get_bucket parse rl k cfg seen).1 now v' hb,
      )

  record_tokens-IsBounded :
      (rl : RateLimiter) (k : String) (cfg : Option RateLimitConfig) (n : Int64) (now : Time)
      → IsBounded rl
      → IsBounded (record_tokens rl k cfg n now)
  unfolding record_tokens
  record_tokens-IsBounded rl k none n now v = v
  record_tokens-IsBounded rl k (some cfg) n now v = elim (Option-cases (lookup k rl.buckets)) [
    | inl e ↦ ground arith
    | inr (b, e) ↦ ground (
      arith,
      put-IsBounded rl k (record b { windows = map (charge_tokens now n) b.windows }) v
          (charged-Within b.windows now n (lookup-DictWithin k b rl.buckets v e)),
    )
  ]

  acquire-IsBounded :
      (rl : RateLimiter) (k : String) (cfg : Option RateLimitConfig) (now : Time)
      → IsBounded rl
      → IsBounded (acquire parse rl k cfg now)
  unfolding acquire
  acquire-IsBounded rl k none now v = v
  acquire-IsBounded rl k (some cfg) now v =
      let (v', hb) = get_bucket-Within rl k cfg now v in
      let b = (get_bucket parse rl k cfg now).1 in
      ground (
        arith,
        put-IsBounded (get_bucket parse rl k cfg now).0 k
            (record b { parallel = add64 b.parallel 1 }) v' hb,
      )

  release-IsBounded :
      (rl : RateLimiter) (k : String) (cfg : Option RateLimitConfig)
      → IsBounded rl
      → IsBounded (release rl k cfg)
  unfolding release
  release-IsBounded rl k none v = v
  release-IsBounded rl k (some cfg) v = elim (Option-cases (lookup k rl.buckets)) [
    | inl e ↦ ground arith
    | inr (b, e) ↦ ground (
      arith,
      put-IsBounded rl k (record b { parallel = add64 b.parallel (neg64 1) }) v
          (lookup-DictWithin k b rl.buckets v e),
    )
  ]

  step-IsBounded : (rl : RateLimiter) (c : Call) → IsBounded rl → IsBounded (step parse rl c)
  unfolding step
  step-IsBounded rl (allows k cfg seen now) v = allow-IsBounded rl k cfg seen now v
  step-IsBounded rl (records k cfg n now) v = record_tokens-IsBounded rl k cfg n now v
  step-IsBounded rl (acquires k cfg now) v = acquire-IsBounded rl k cfg now v
  step-IsBounded rl (releases k cfg) v = release-IsBounded rl k cfg v

  run_from-IsBounded :
      (rl : RateLimiter) (cs : List Call) → IsBounded rl → IsBounded (run parse rl cs)
  unfolding run
  run_from-IsBounded rl [] v = v
  run_from-IsBounded rl (c ∷ cs) v = run_from-IsBounded (step parse rl c) cs (step-IsBounded rl c v)

  -- After any calls of a new limiter, at any times and in any order, no window has recorded more
  -- requests than its rule admits: the slice of a sliding window and the count of a fixed one stay
  -- within a positive limit that is not negative as an int64.
  pub run-IsBounded : (cs : List Call) → IsBounded (run parse new_rate_limiter cs)
  unfolding new_rate_limiter
  run-IsBounded cs = run_from-IsBounded new_rate_limiter cs tt
