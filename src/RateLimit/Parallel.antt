-- ===== src/RateLimit/Parallel.antt =====
-- The count of requests in flight: what the four methods do to it, whatever the order of the calls.
use tokenomics.Base.{◌≡◌, refl, ◌∙◌, [], ◌∷◌, Option, none, some, arith, String, if◌then◌else◌}
use tokenomics.Base.Eq.{string_eq, nat_eq, ◌==◌, ==_iff}
use tokenomics.Base.Dict.{Dict, lookup, insert, lookup-insert}
use tokenomics.Base.Word.{Int64, IsNonneg, lt64}
use tokenomics.RateLimit.Clock.{Time}
use tokenomics.RateLimit.Limiter.{
  RateLimiter, TokenBucket, is_stale, drop_stale, gc_stale_buckets, put_bucket,
}

-- The counter of a token's bucket, zero where there is no bucket.
abbrev pub parallel_of : Option TokenBucket → Int64
parallel_of none = 0
parallel_of (some b) = b.parallel

unfoldable pub in_flight : RateLimiter → String → Int64
in_flight rl k = parallel_of (lookup k rl.buckets)

in_flight-put :
    (rl : RateLimiter) (k j : String) (b : TokenBucket)
    → in_flight (put_bucket rl k b) j ≡ (if k == j then b.parallel else in_flight rl j)
unfolding in_flight put_bucket
in_flight-put rl k j b = ground (arith, lookup-insert k j b rl.buckets)

-- Every bucket of the map has a count that is not negative, and a key of its own.
abbrev pub Counts : Dict String TokenBucket → Type 0
Counts [] = Unit {0}
Counts ((k, b) ∷ m) = IsNonneg b.parallel × (lookup k m ≡ none) × Counts m

lookup-drop_stale-none :
    (now : Time) (k : String) (m : Dict String TokenBucket)
    → lookup k m ≡ none
    → lookup k (drop_stale now m) ≡ none
unfolding lookup drop_stale
lookup-drop_stale-none now k [] h = refl
lookup-drop_stale-none now k ((j, b) ∷ m) h = ground (arith, lookup-drop_stale-none now k m)

-- The collection of stale buckets changes no count: a bucket in flight stays, and one that goes
-- stood at zero.
drop_stale-parallel :
    (now : Time) (k : String) (m : Dict String TokenBucket)
    → Counts m
    → parallel_of (lookup k (drop_stale now m)) ≡ parallel_of (lookup k m)
unfolding lookup drop_stale is_stale lt64
drop_stale-parallel now k [] c = refl
drop_stale-parallel now k ((j, b) ∷ m) c =
    ground (arith, drop_stale-parallel now k m c.2, ==_iff j k)

drop_stale-Counts :
    (now : Time) (m : Dict String TokenBucket) → Counts m → Counts (drop_stale now m)
unfolding drop_stale
drop_stale-Counts now [] c = tt
drop_stale-Counts now ((j, b) ∷ m) c =
    ground (arith, drop_stale-Counts now m c.2, lookup-drop_stale-none now j m)

insert-Counts :
    (k : String) (b : TokenBucket) (m : Dict String TokenBucket)
    → IsNonneg b.parallel
    → Counts m
    → Counts (insert k b m)
unfolding insert lookup
insert-Counts k b [] h c = (h, refl, tt)
insert-Counts k b ((j, d) ∷ m) h c =
    ground (arith, insert-Counts k b m h c.2, lookup-insert k j b m, ==_iff j k, ==_iff k j)

gc-in_flight :
    (rl : RateLimiter) (now : Time) (j : String)
    → Counts rl.buckets
    → in_flight (gc_stale_buckets rl now) j ≡ in_flight rl j
unfolding gc_stale_buckets in_flight
gc-in_flight rl now j c = ground (arith, drop_stale-parallel now j rl.buckets c)

gc-Counts :
    (rl : RateLimiter) (now : Time) → Counts rl.buckets → Counts (gc_stale_buckets rl now).buckets
unfolding gc_stale_buckets
gc-Counts rl now c = ground (arith, drop_stale-Counts now rl.buckets c)

pub parallel_of-nonneg :
    (k : String) (m : Dict String TokenBucket) → Counts m → IsNonneg (parallel_of (lookup k m))
unfolding lookup
parallel_of-nonneg k [] c = omega arith
parallel_of-nonneg k ((j, d) ∷ m) c = ground (arith, parallel_of-nonneg k m c.2)

-- A call whose parts stay shut leaves the counts as `n` says, at the keys and in the map.
pub record Leaves (rl : RateLimiter) (n : String → Int64) : Type 0 where
  pub counted : (j : String) → in_flight rl j ≡ n j
  pub counts : Counts rl.buckets

pub put-Leaves :
    (rl : RateLimiter) (n : String → Int64) (k : String) (b : TokenBucket) (m : Int64)
    → b.parallel ≡ m
    → IsNonneg m
    → Leaves rl n
    → Leaves (put_bucket rl k b) (λ j. if k == j then m else n j)
unfolding put_bucket
put-Leaves rl n k b m e h v = record {
  counted = λ j. ground (arith, in_flight-put rl k j b, v.counted j);
  counts = insert-Counts k b rl.buckets (rw e h) v.counts;
}

-- Writing back a bucket with the count that it had changes nothing.
pub same-Leaves :
    (rl : RateLimiter) (n : String → Int64) (k : String) (b : TokenBucket)
    → b.parallel ≡ n k
    → Leaves rl n
    → Leaves (put_bucket rl k b) n
unfolding put_bucket in_flight
same-Leaves rl n k b e v = record {
  counted = λ j. ground (arith, in_flight-put rl k j b, v.counted j, ==_iff k j);
  counts =
      insert-Counts k b rl.buckets
        (rw (e, ← v.counted k) (parallel_of-nonneg k rl.buckets v.counts)) v.counts;
}

pub gc-Leaves :
    (rl : RateLimiter) (n : String → Int64) (now : Time)
    → Leaves rl n
    → Leaves (gc_stale_buckets rl now) n
gc-Leaves rl n now v = record {
  counted = λ j. gc-in_flight rl now j v.counts ∙ v.counted j;
  counts = gc-Counts rl now v.counts;
}
