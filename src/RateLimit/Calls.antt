-- ===== src/RateLimit/Calls.antt =====
-- The limiter under any sequence of calls, from any requests, in any order, at any times.
use tokenomics.Base.{List, [], ◌∷◌, Option, String}
use tokenomics.Base.Int.{ℤ}
use tokenomics.Base.Word.{Int64}
use tokenomics.RateLimit.Clock.{Time}
use tokenomics.RateLimit.Window.{RateLimitConfig}
use tokenomics.RateLimit.Limiter.{RateLimiter, allow, record_tokens, acquire, release}

pub data Call : Type 0 where
  allows : String → Option RateLimitConfig → Time → Time → Call
  records : String → Option RateLimitConfig → Int64 → Time → Call
  acquires : String → Option RateLimitConfig → Time → Call
  releases : String → Option RateLimitConfig → Call

module _ (parse : String → Option ℤ) where
  unfoldable pub step : RateLimiter → Call → RateLimiter
  step rl (allows k cfg seen now) = (allow parse rl k cfg seen now).0
  step rl (records k cfg n now) = record_tokens rl k cfg n now
  step rl (acquires k cfg now) = acquire parse rl k cfg now
  step rl (releases k cfg) = release rl k cfg

  unfoldable pub run : RateLimiter → List Call → RateLimiter
  run rl [] = rl
  run rl (c ∷ cs) = run (step rl c) cs
