-- ===== src/RateLimit/Race.antt =====
-- `Allow` reads the count of requests in flight and `Acquire` raises it, in two critical sections. What
-- happens to requests that come between the two.
use tokenomics.Base.{
  ℕ, suc, zero, ◌+◌, ◌<◌, ◌≡◌, refl, ◌∙◌, List, [], ◌∷◌, ◌++◌, Option, none, some, arith, String,
  Option-cases, inl, inr, false, if◌then◌else◌, Bool, ap,
}
use tokenomics.Base.Int.{ℤ}
use tokenomics.Base.Eq.{string_eq, nat_eq, ◌==◌, ==_refl}
use tokenomics.Base.Dict.{Dict, lookup, insert}
use tokenomics.Base.Word.{Int64, IsNonneg, lt64, le64, half_mod}
use tokenomics.RateLimit.Clock.{Time}
use tokenomics.RateLimit.Window.{RateLimitConfig}
use tokenomics.RateLimit.Limiter.{
  RateLimiter, TokenBucket, drop_stale, gc_stale_buckets, new_bucket, put_bucket, get_bucket,
  allow_bucket, allow, seen_or_new, check_windows, is_unlimited, new_rate_limiter,
}
use tokenomics.RateLimit.Calls.{Call, allows, acquires, step, run}
use tokenomics.RateLimit.InFlight.{held_after, ArePaired, run-in_flight}
use tokenomics.RateLimit.Parallel.{in_flight}

abbrev pub repeat : ℕ → Call → List Call
repeat zero c = []
repeat (suc n) c = c ∷ repeat n c

-- No window, nobody in flight, and room for `m`.
record IsIdle (m : Int64) (b : TokenBucket) : Type 0 where
  windows : b.windows ≡ []
  parallel : b.parallel ≡ 0
  limit : b.max_parallel ≡ m

abbrev DictIdle : Int64 → Dict String TokenBucket → Type 0
DictIdle m [] = Unit {0}
DictIdle m ((k, b) ∷ d) = IsIdle m b × DictIdle m d

insert-DictIdle :
    (m : Int64) (k : String) (b : TokenBucket) (d : Dict String TokenBucket)
    → IsIdle m b
    → DictIdle m d
    → DictIdle m (insert k b d)
unfolding insert
insert-DictIdle m k b [] hb hd = (hb, tt)
insert-DictIdle m k b ((j, c) ∷ d) hb hd = ground (arith, insert-DictIdle m k b d hb hd.1)

lookup-DictIdle :
    (m : Int64) (k : String) (b : TokenBucket) (d : Dict String TokenBucket)
    → DictIdle m d
    → lookup k d ≡ some b
    → IsIdle m b
unfolding lookup
lookup-DictIdle m k b [] hd e = cc
lookup-DictIdle m k b ((j, c) ∷ d) hd e = ground (arith, lookup-DictIdle m k b d hd.1)

drop-DictIdle :
    (m : Int64) (now : Time) (d : Dict String TokenBucket)
    → DictIdle m d
    → DictIdle m (drop_stale now d)
unfolding drop_stale
drop-DictIdle m now [] hd = tt
drop-DictIdle m now ((j, c) ∷ d) hd = ground (arith, drop-DictIdle m now d hd.1)

gc-Idle :
    (m : Int64) (rl : RateLimiter) (now : Time)
    → DictIdle m rl.buckets
    → DictIdle m (gc_stale_buckets rl now).buckets
unfolding gc_stale_buckets
gc-Idle m rl now v = ground (arith, drop-DictIdle m now rl.buckets v)

module _ (parse : String → Option ℤ) (k : String) (cfg : RateLimitConfig)
    (no_rules : cfg.rules ≡ []) (limited : 0 < cfg.max_parallel)
    (nonneg : IsNonneg cfg.max_parallel) where
  get_bucket-Idle :
      (rl : RateLimiter) (now : Time)
      → DictIdle cfg.max_parallel rl.buckets
      → DictIdle cfg.max_parallel (get_bucket parse rl k cfg now).0.buckets
        × IsIdle cfg.max_parallel (get_bucket parse rl k cfg now).1
  unfolding get_bucket new_bucket put_bucket
  get_bucket-Idle rl now v =
      let g = gc-Idle cfg.max_parallel rl now v in
      elim (Option-cases (lookup k (gc_stale_buckets rl now).buckets)) [
        | inl e ↦
            let idle : IsIdle cfg.max_parallel (new_bucket parse cfg now) = record {
              windows = rw no_rules;
              parallel = refl;
              limit = refl;
            } in
            rw (e, seen_or_new) (insert-DictIdle cfg.max_parallel k _ _ idle g, idle)
        | inr (b, e) ↦
            let was = lookup-DictIdle cfg.max_parallel k b _ g e in
            let idle : IsIdle cfg.max_parallel (record b { last_seen = now }) = record {
              windows = was.windows;
              parallel = was.parallel;
              limit = was.limit;
            } in
            rw (e, seen_or_new) (insert-DictIdle cfg.max_parallel k _ _ idle g, idle)
      ]

  allow_bucket-Idle :
      (rl : RateLimiter) (b : TokenBucket) (now : Time)
      → DictIdle cfg.max_parallel rl.buckets
      → IsIdle cfg.max_parallel b
      → ((allow_bucket rl k b now).1 ≡ none)
        × DictIdle cfg.max_parallel (allow_bucket rl k b now).0.buckets
  unfolding allow_bucket check_windows put_bucket lt64 le64
  allow_bucket-Idle rl b now v idle =
      let h =
        insert-DictIdle cfg.max_parallel k (record b { windows = [] }) rl.buckets
          (record { windows = refl; parallel = idle.parallel; limit = idle.limit }) v in
      ground (arith, idle.windows, idle.parallel, idle.limit, h)

  allow-Idle :
      (rl : RateLimiter) (seen now : Time)
      → DictIdle cfg.max_parallel rl.buckets
      → ((allow parse rl k (some cfg) seen now).1 ≡ none)
        × DictIdle cfg.max_parallel (allow parse rl k (some cfg) seen now).0.buckets
  unfolding allow is_unlimited
  allow-Idle rl seen now v =
      let (g, idle) = get_bucket-Idle rl seen v in
      ground (
        arith,
        allow_bucket-Idle (get_bucket parse rl k cfg seen).0 (get_bucket parse rl k cfg seen).1 now
            g idle,
      )

  burst :
      (n : ℕ) (rl : RateLimiter) (t : Time)
      → DictIdle cfg.max_parallel rl.buckets
      → DictIdle cfg.max_parallel (run parse rl (repeat n (allows k (some cfg) t t))).buckets
  unfolding run step
  burst zero rl t v = v
  burst (suc n) rl t v = burst n _ t (allow-Idle rl t t v).1

  -- However many requests are already between `Allow` and `Acquire`, the next one is allowed too.
  allow-burst :
      (n : ℕ) (t : Time)
      → (allow parse
          (run parse new_rate_limiter (repeat n (allows k (some cfg) t t)))
          k
          (some cfg)
          t
          t).1
        ≡ none
  unfolding new_rate_limiter
  allow-burst n t = (allow-Idle _ t t (burst n new_rate_limiter t tt)).0

  acquired : ◌≡◌ {A = Bool} (cfg.max_parallel == 0) false
  acquired = ground arith

  held-repeat :
      (n : ℕ) (f : String → ℕ) (t : Time)
      → held_after f (repeat n (acquires k (some cfg) t)) k ≡ f k + n
  held-repeat zero f t = omega arith
  held-repeat (suc n) f t =
      rw (acquired, held_after)
        (held-repeat n (λ j. if k == j then f k + 1 else f j) t ∙ rw (==_refl k) (omega arith))

  paired-repeat :
      (n : ℕ) (f : String → ℕ) (t : Time)
      → f k + n < half_mod
      → ArePaired f (repeat n (acquires k (some cfg) t))
  paired-repeat zero f t h = tt
  paired-repeat (suc n) f t h = (
    omega arith,
    rw acquired
        (paired-repeat n (λ j. if k == j then f k + 1 else f j) t (rw (==_refl k) (omega arith))),
  )

  held-allows :
      (n : ℕ) (f : String → ℕ) (t : Time) (cs : List Call)
      → held_after f (repeat n (allows k (some cfg) t t) ++ cs) ≡ held_after f cs
  held-allows zero f t cs = refl
  held-allows (suc n) f t cs = held-allows n f t cs

  paired-allows :
      (n : ℕ) (f : String → ℕ) (t : Time) (cs : List Call)
      → ArePaired f cs
      → ArePaired f (repeat n (allows k (some cfg) t t) ++ cs)
  paired-allows zero f t cs h = h
  paired-allows (suc n) f t cs h = (tt, paired-allows n f t cs h)

  -- For a configuration without rules and with a positive limit on the requests in flight: when `n`
  -- requests, fewer than 2 ^ 63, pass `Allow` of a new limiter at one time before any of them reaches
  -- `Acquire`, the next one still passes too, and `n` requests are in flight once all have acquired,
  -- whatever the limit is.
  pub allow-burst_in_flight :
      (n : ℕ) (t : Time)
      → n < half_mod
      → ((allow parse
            (run parse new_rate_limiter (repeat n (allows k (some cfg) t t)))
            k
            (some cfg)
            t
            t).1
          ≡ none)
        × (in_flight
              (run parse new_rate_limiter
                (repeat n (allows k (some cfg) t t) ++ repeat n (acquires k (some cfg) t)))
              k
            ≡ n)
  allow-burst_in_flight n t h = (
    allow-burst n t,
    run-in_flight parse (repeat n (allows k (some cfg) t t) ++ repeat n (acquires k (some cfg) t)) k
          (paired-allows n (λ j. 0) t _ (paired-repeat n (λ j. 0) t (omega arith)))
        ∙ ap (λ f. f k) (held-allows n (λ j. 0) t (repeat n (acquires k (some cfg) t)))
        ∙ held-repeat n (λ j. 0) t
        ∙ omega arith,
  )
