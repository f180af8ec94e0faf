-- ===== src/RateLimit/InFlight.antt =====
-- The methods of the limiter and the count of requests in flight, then any run of them.
use tokenomics.Base.{
  ℕ, ◌+◌, ◌-◌, ◌<◌, ◌≡◌, refl, List, [], ◌∷◌, Option, none, some, arith, String, Option-cases, inl,
  inr, false, Bool-cases, if◌then◌else◌, map,
}
use tokenomics.Base.Int.{ℤ}
use tokenomics.Base.Eq.{string_eq, nat_eq, ◌==◌}
use tokenomics.Base.Dict.{lookup}
use tokenomics.Base.Word.{Int64, IsNonneg, add64, neg64}
use tokenomics.RateLimit.Clock.{Time}
use tokenomics.RateLimit.Window.{RateLimitConfig, WindowCounter}
use tokenomics.RateLimit.Limiter.{
  RateLimiter, TokenBucket, gc_stale_buckets, new_bucket, get_bucket, allow_bucket, allow,
  record_tokens, acquire, release, seen_or_new, check_windows, on_bucket, record_request,
  charge_tokens, new_rate_limiter,
}
use tokenomics.RateLimit.Calls.{Call, allows, records, acquires, releases, step, run}
use tokenomics.RateLimit.Parallel.{
  in_flight, Leaves, put-Leaves, same-Leaves, gc-Leaves, parallel_of-nonneg,
}

module _ (parse : String → Option ℤ) where
  get_bucket-Leaves :
      (rl : RateLimiter) (n : String → Int64) (k : String) (cfg : RateLimitConfig) (now : Time)
      → Leaves rl n
      → Leaves (get_bucket parse rl k cfg now).0 n
        × ((get_bucket parse rl k cfg now).1.parallel ≡ n k)
  unfolding get_bucket new_bucket in_flight
  get_bucket-Leaves rl n k cfg now v =
      let g = gc-Leaves rl n now v in
      elim (Option-cases (lookup k (gc_stale_buckets rl now).buckets)) [
        | inl e ↦
            let same : 0 ≡ n k = ground (arith, g.counted k) in
            rw (e, seen_or_new) (same-Leaves (gc_stale_buckets rl now) n k _ same g, same)
        | inr (b, e) ↦
            let same : b.parallel ≡ n k = ground (arith, g.counted k) in
            rw (e, seen_or_new) (same-Leaves (gc_stale_buckets rl now) n k _ same g, same)
      ]

  allow_bucket-Leaves :
      (rl : RateLimiter) (n : String → Int64) (k : String) (b : TokenBucket) (now : Time)
      → b.parallel ≡ n k
      → Leaves rl n
      → Leaves (allow_bucket rl k b now).0 n
  unfolding allow_bucket
  allow_bucket-Leaves rl n k b now e v =
      let wcs : List WindowCounter = (check_windows b.windows now).0 in
      ground (
        arith,
        same-Leaves rl n k (record b { windows = wcs }) e v,
        same-Leaves rl n k (record b { windows = map (record_request now) wcs }) e v,
      )

  pub allow-Leaves :
      (rl : RateLimiter) (n : String → Int64) (k : String) (cfg : Option RateLimitConfig)
      (seen now : Time)
      → Leaves rl n
      → Leaves (allow parse rl k cfg seen now).0 n
  unfolding allow
  allow-Leaves rl n k none seen now v = v
  allow-Leaves rl n k (some cfg) seen now v =
      let (g, same) = get_bucket-Leaves rl n k cfg seen v in
      ground (
        arith,
        allow_bucket-Leaves (get_bucket parse rl k cfg seen).0 n k
            (get_bucket parse rl k cfg seen).1 now same g,
      )

  pub record_tokens-Leaves :
      (rl : RateLimiter) (n : String → Int64) (k : String) (cfg : Option RateLimitConfig)
      (count : Int64) (now : Time)
      → Leaves rl n
      → Leaves (record_tokens rl k cfg count now) n
  unfolding record_tokens in_flight
  record_tokens-Leaves rl n k none count now v = v
  record_tokens-Leaves rl n k (some cfg) count now v = elim (Option-cases (lookup k rl.buckets)) [
    | inl e ↦ ground arith
    | inr (b, e) ↦
        let same : b.parallel ≡ n k = ground (arith, v.counted k) in
        ground (
          arith,
          same-Leaves rl n k (record b { windows = map (charge_tokens now count) b.windows }) same
              v,
        )
  ]

  -- A call that counts changes the count of its own token.
  pub acquire-Leaves :
      (rl : RateLimiter) (n : String → Int64) (k : String) (cfg : RateLimitConfig) (now : Time)
      → (cfg.max_parallel == 0) ≡ false
      → IsNonneg (n k + 1)
      → Leaves rl n
      → Leaves (acquire parse rl k (some cfg) now) (λ j. if k == j then n k + 1 else n j)
  unfolding acquire add64
  acquire-Leaves rl n k cfg now counts room v =
      let (g, same) = get_bucket-Leaves rl n k cfg now v in
      rw counts (put-Leaves (get_bucket parse rl k cfg now).0 n k _ (n k + 1) (omega arith) room g)

  pub release-Leaves :
      (rl : RateLimiter) (n : String → Int64) (k : String) (cfg : RateLimitConfig)
      → (cfg.max_parallel == 0) ≡ false
      → 0 < n k
      → Leaves rl n
      → Leaves (release rl k (some cfg)) (λ j. if k == j then n k - 1 else n j)
  unfolding release add64 neg64 in_flight
  release-Leaves rl n k cfg counts busy v = elim (Option-cases (lookup k rl.buckets)) [
    | inl e ↦ absurd (ground (arith, v.counted k))
    | inr (b, e) ↦
        let same : b.parallel ≡ n k = ground (arith, v.counted k) in
        let small = parallel_of-nonneg k rl.buckets v.counts in
        rw (counts, on_bucket, e) (put-Leaves rl n k _ (n k - 1) (ground arith) (ground arith) v)
  ]

-- The reference: how many requests hold each token, counted from the calls alone.
abbrev pub held : Call → (String → ℕ) → String → ℕ
held (allows k cfg seen now) n = n
held (records k cfg count now) n = n
held (acquires k none now) n = n
held (acquires k (some cfg) now) n =
    if cfg.max_parallel == 0 then n else λ j. if k == j then n k + 1 else n j
held (releases k none) n = n
held (releases k (some cfg)) n =
    if cfg.max_parallel == 0 then n else λ j. if k == j then n k - 1 else n j

abbrev pub held_after : (String → ℕ) → List Call → String → ℕ
held_after n [] = n
held_after n (c ∷ cs) = held_after (held c n) cs

-- A release that counts follows an acquisition that counts, and the count stays below 2 ^ 63. Where a token has
-- no limit of parallel requests, neither counts.
abbrev pub IsPaired : (String → ℕ) → Call → Type 0
IsPaired n (allows k cfg seen now) = Unit {0}
IsPaired n (records k cfg count now) = Unit {0}
IsPaired n (acquires k none now) = Unit {0}
IsPaired n (acquires k (some cfg) now) = (cfg.max_parallel == 0) ≡ false → IsNonneg (n k + 1)
IsPaired n (releases k none) = Unit {0}
IsPaired n (releases k (some cfg)) = (cfg.max_parallel == 0) ≡ false → 0 < n k

abbrev pub ArePaired : (String → ℕ) → List Call → Type 0
ArePaired n [] = Unit {0}
ArePaired n (c ∷ cs) = IsPaired n c × ArePaired (held c n) cs

module _ (parse : String → Option ℤ) where
  step-Leaves :
      (rl : RateLimiter) (n : String → ℕ) (c : Call)
      → IsPaired n c
      → Leaves rl n
      → Leaves (step parse rl c) (held c n)
  unfolding step
  step-Leaves rl n (allows k cfg seen now) p v = allow-Leaves parse rl n k cfg seen now v
  step-Leaves rl n (records k cfg count now) p v = record_tokens-Leaves parse rl n k cfg count now v
  step-Leaves rl n (acquires k none now) p v = unfold acquire in v
  step-Leaves rl n (acquires k (some cfg) now) p v = elim (Bool-cases (cfg.max_parallel == 0)) [
    | inl free ↦ unfold acquire in rw free v
    | inr counts ↦ let r = acquire-Leaves parse rl n k cfg now counts (p counts) v in rw counts r
  ]
  step-Leaves rl n (releases k none) p v = unfold release in v
  step-Leaves rl n (releases k (some cfg)) p v = elim (Bool-cases (cfg.max_parallel == 0)) [
    | inl free ↦ unfold release in rw free v
    | inr counts ↦ let r = release-Leaves parse rl n k cfg counts (p counts) v in rw counts r
  ]

  run-Leaves :
      (rl : RateLimiter) (n : String → ℕ) (cs : List Call)
      → ArePaired n cs
      → Leaves rl n
      → Leaves (run parse rl cs) (held_after n cs)
  unfolding run
  run-Leaves rl n [] p v = v
  run-Leaves rl n (c ∷ cs) p v =
      run-Leaves (step parse rl c) (held c n) cs p.1 (step-Leaves rl n c p.0 v)

  -- After any calls of a new limiter in which every release under a limit of parallel requests follows
  -- an acquisition of its own under one and fewer than 2 ^ 63 are held at a time, the count of requests in
  -- flight of a token hash is the number of its acquisitions under a limit less that of such releases: no
  -- collection of stale buckets loses one, and the calls without a limit change none.
  pub run-in_flight :
      (cs : List Call) (k : String)
      → ArePaired (λ j. 0) cs
      → in_flight (run parse new_rate_limiter cs) k ≡ held_after (λ j. 0) cs k
  unfolding in_flight lookup new_rate_limiter
  run-in_flight cs k p =
      (run-Leaves new_rate_limiter (λ j. 0) cs p
          (record { counted = λ j. refl; counts = tt })).counted
        k
