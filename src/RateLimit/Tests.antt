-- ===== src/RateLimit/Tests.antt =====
-- The rate limiter on concrete rules, times and calls.
use tokenomics.Base.{String, ◌≡◌, refl, none, some, arith, List, [], ◌∷◌, ◌++◌, Option}
use tokenomics.Base.Int.{ℤ, pos}
use tokenomics.Base.Word.{lt64}
use tokenomics.RateLimit.Clock.{Time, second}
use tokenomics.RateLimit.Window.{RateLimitRule, RateLimitConfig, parse_window, new_window}
use tokenomics.RateLimit.Limiter.{new_rate_limiter, allow}
use tokenomics.RateLimit.Sliding.{IsSliding, Runs, admitted, admitted_by_history, IsSparse}
use tokenomics.RateLimit.History.{admitted-by_history, admitted-IsSparse}
use tokenomics.RateLimit.Calls.{Call, allows, acquires, releases, run}
use tokenomics.RateLimit.Bounded.{IsBounded, run-IsBounded}
use tokenomics.RateLimit.Parallel.{in_flight}
use tokenomics.RateLimit.InFlight.{held_after, run-in_flight}
use tokenomics.RateLimit.Race.{repeat, allow-burst_in_flight}

abbrev no_durations : String → Option ℤ
no_durations s = none

abbrev two_a_second : RateLimitRule
two_a_second = record { requests = 2; tokens = 0; window = "1s"; strategy = "sliding" }

two_a_second-IsSliding : IsSliding two_a_second
unfolding lt64
two_a_second-IsSliding = record {
  sliding = refl;
  limits = refl;
  bounded = omega arith;
  no_tokens = refl;
}

two_a_second-window : parse_window no_durations "1s" ≡ pos second
unfolding parse_window
two_a_second-window = refl

abbrev arrivals : List Time
arrivals = 5 ∷ 6 ∷ 7 ∷ 1_000_000_005 ∷ 1_000_000_006 ∷ 1_000_000_006 ∷ []

arrivals-Runs : Runs 0 arrivals
arrivals-Runs =
    (omega arith, (omega arith, (omega arith, (omega arith, (omega arith, (omega arith, tt))))))

admitted-by_history_example :
    admitted (new_window no_durations two_a_second) arrivals
    ≡ admitted_by_history second 2 [] arrivals
admitted-by_history_example =
    admitted-by_history no_durations two_a_second second two_a_second-IsSliding two_a_second-window
      arrivals arrivals-Runs

admitted-IsSparse_example :
    IsSparse second 2 (admitted (new_window no_durations two_a_second) arrivals)
admitted-IsSparse_example =
    admitted-IsSparse no_durations two_a_second second two_a_second-IsSliding two_a_second-window
      arrivals arrivals-Runs

abbrev two_parallel : RateLimitConfig
two_parallel = record { rules = two_a_second ∷ []; max_parallel = 2 }

abbrev some_calls : List Call
some_calls =
    allows "a" (some two_parallel) 5 5
    ∷ acquires "a" (some two_parallel) 6
    ∷ allows "a" (some two_parallel) 7 7
    ∷ acquires "a" (some two_parallel) 8
    ∷ releases "a" (some two_parallel)
    ∷ acquires "b" none 9
    ∷ releases "b" none
    ∷ []

run-IsBounded_example : IsBounded (run no_durations new_rate_limiter some_calls)
run-IsBounded_example = run-IsBounded no_durations some_calls

run-in_flight_example :
    in_flight (run no_durations new_rate_limiter some_calls) "a"
    ≡ held_after (λ j. 0) some_calls "a"
run-in_flight_example =
    run-in_flight no_durations some_calls "a"
      (tt, ((λ e. omega arith), (tt, ((λ e. omega arith), ((λ e. omega arith), (tt, (tt, tt)))))))

abbrev only_parallel : RateLimitConfig
only_parallel = record { rules = []; max_parallel = 2 }

allow-burst_in_flight_example :
    ((allow no_durations
        (run no_durations new_rate_limiter (repeat 3 (allows "a" (some only_parallel) 5 5)))
        "a"
        (some only_parallel)
        5
        5).1
      ≡ none)
    × (in_flight
          (run no_durations new_rate_limiter (
            repeat 3 (allows "a" (some only_parallel) 5 5)
            ++ repeat 3 (acquires "a" (some only_parallel) 5)))
          "a"
        ≡ 3)
allow-burst_in_flight_example =
    allow-burst_in_flight no_durations "a" only_parallel refl (omega arith) (omega arith) 3 5
      (omega arith)
