-- ===== src/Chat/Handler/InFlight.antt =====
-- What a chat request leaves of the rate limiter, on every path.
use tokenomics.Base.{
  String, true, ◌&&◌, ◌≡◌, refl, ◌+◌, ◌-◌, List, Option, none, some, Result, ok, err, Bool-cases,
  inl, inr, if◌then◌else◌, arith, ap, ◌∙◌,
}
use tokenomics.Base.Eq.{string_eq, nat_eq, ◌==◌, ==_refl, ==_iff}
use tokenomics.Base.Word.{Int64, IsNonneg, lt64}
use tokenomics.Base.Json.{Json, Object}
use tokenomics.RateLimit.Clock.{Time}
use tokenomics.RateLimit.Limiter.{RateLimiter, RateError, record_tokens, allow, acquire, release}
use tokenomics.RateLimit.Parallel.{Leaves}
use tokenomics.RateLimit.Window.{RateLimitConfig}
use tokenomics.Base.Int.{ℤ}
use tokenomics.RateLimit.InFlight.{
  allow-Leaves, record_tokens-Leaves, acquire-Leaves, release-Leaves,
}
use tokenomics.Budget.{BudgetError, reserve_input_budget}
use tokenomics.Policy.Engine.{ModelError, Blocked, check_model}
use tokenomics.Chat.{Response}
use tokenomics.Chat.Retry.{Attempts, Outcome, refused, answered, send}
use tokenomics.Chat.Inspect.{Notes}
use tokenomics.Chat.Proxy.{Deps, Proxy, Context, RequestLog, emit, count_stats, fail}
use tokenomics.Chat.Answer.{
  record_ledger_entry, add_output, record_output, serve_stream, serve_buffered, serve_unread,
  serve_body, serve_answer, serve_last, serve_failure, finish,
}
use tokenomics.Chat.Handler.{
  Served, settle_input, serve_attempts, on_reserved, serve_budget, reject, on_inspected, on_model,
  serve_acquired, plan_of, on_allowed, serve_resolved,
}

-- Between `Acquire` and `Release` the limiter is only charged with tokens.
module _ (d : Deps) (c : Context d) (P : RateLimiter → Type 0)
    (charged : (rl : RateLimiter) (n : Int64) (t : Time)
      → P rl
      → P (record_tokens rl c.token_hash c.resolved.rate_limit n t)) where
  abbrev Kept : Served d → Type 0
  Kept r = P r.0.limiter

  serve_stream-Kept :
      (m : String) (resp : Response) (input : Int64) (p : Proxy d) (log : RequestLog)
      → P p.limiter
      → Kept (serve_stream d c m resp input p log)
  unfolding serve_stream record_ledger_entry emit record_output count_stats add_output
  serve_stream-Kept m resp input p log h = charged p.limiter _ c.times.output_recorded h

  serve_body-Kept :
      (m : String) (resp : Response) (body : Option String) (input : Int64) (p : Proxy d)
      (log : RequestLog)
      → P p.limiter
      → Kept (serve_body d c m resp body input p log)
  unfolding serve_buffered serve_unread record_ledger_entry emit record_output count_stats
      add_output fail
  serve_body-Kept m resp none input p log h = h
  serve_body-Kept m resp (some body) input p log h = charged p.limiter _ c.times.output_recorded h

  serve_answer-Kept :
      (m : String) (resp : Response) (retries input : Int64) (p : Proxy d) (log : RequestLog)
      → P p.limiter
      → Kept (serve_answer d c m resp retries input p log)
  unfolding serve_answer emit
  serve_answer-Kept m resp retries input p log h =
      let h' = charged p.limiter input c.times.input_recorded h in
      elim (Bool-cases (log.stream && (resp.status_code == 200))) [
        | inl e ↦ rw e (serve_stream-Kept m resp input _ _ h')
        | inr e ↦ rw e (serve_body-Kept m resp resp.body input _ _ h')
      ]

  finish-Kept :
      (input : Int64) (log : RequestLog) (p : Proxy d)
      (r : Attempts d.World d.os.Url × Option Outcome)
      → P p.limiter
      → Kept (finish d c input log p r).0
  unfolding serve_failure fail count_stats
  finish-Kept input log p (a, some (refused e)) h = h
  finish-Kept input log p (a, some (answered m resp)) h =
      serve_answer-Kept m resp a.retry_count input (record p { world = a.world }) log h
  finish-Kept input log p (a, none) h = last a.last_response
    where
      last :
          (o : Option Response)
          → Kept (
              serve_last d o a.retry_count
                (count_stats d c c.model input 0 true (record p { world = a.world }))
                (record log { retry_count = a.retry_count }))
      last none = h
      last (some resp) = h

  serve_attempts-Kept :
      (body : Object d.fl.Float) (input reserved : Int64) (p : Proxy d) (log : RequestLog)
      → P p.limiter
      → Kept (serve_attempts d c body input reserved p log)
  unfolding serve_attempts settle_input
  serve_attempts-Kept body input reserved p log h =
      finish-Kept input _ p (send d.os d.call (plan_of d c body) c.resolved.retry c.model p.world) h

  on_reserved-Kept :
      (body : Object d.fl.Float) (input : Int64) (p : Proxy d) (log : RequestLog)
      (r : d.st.State × Int64 × Option (BudgetError d.st.Error))
      → P p.limiter
      → Kept (on_reserved d c body input p log r)
  unfolding reject fail count_stats emit
  on_reserved-Kept body input p log (s, used, none) h =
      serve_attempts-Kept body input input (record p { sessions = s }) log h
  on_reserved-Kept body input p log (s, used, some e) h = h

  serve_budget-Kept :
      (body : Object d.fl.Float) (messages : List (Object d.fl.Float)) (p : Proxy d)
      (log : RequestLog)
      → P p.limiter
      → Kept (serve_budget d c body messages p log)
  unfolding serve_budget
  serve_budget-Kept body messages p log h = elim (Bool-cases (lt64 0 c.resolved.max_tokens)) [
    | inl e ↦ rw e (
        on_reserved-Kept _ _ p _
          (reserve_input_budget d.st p.sessions c.token_hash _ c.resolved.max_tokens) h)
    | inr e ↦ rw e (serve_attempts-Kept _ _ 0 p _ h)
  ]

  on_inspected-Kept :
      (body : Object d.fl.Float) (p : Proxy d) (log : RequestLog)
      (r : List (Json d.fl.Float) × Notes × Option Blocked)
      → P p.limiter
      → Kept (on_inspected d c body p log r)
  unfolding reject fail count_stats
  on_inspected-Kept body p log (js, n, some b) h = h
  on_inspected-Kept body p log (js, n, none) h = serve_budget-Kept body _ _ _ h

  serve_acquired-Kept :
      (body : Object d.fl.Float) (p : Proxy d) (log : RequestLog)
      → P p.limiter
      → Kept (serve_acquired d c body p log)
  unfolding serve_acquired reject fail count_stats
  serve_acquired-Kept body p log h = on_checked (check_model d.re c.resolved c.model)
    where
      on_checked : (r : Result ModelError (Unit {0})) → Kept (on_model d c body p log r)
      on_checked (err e) = h
      on_checked (ok x) = on_inspected-Kept body p log _ h

one_more_less :
    (n : String → Int64) (k j : String)
    → (if k == j then (if k == k then n k + 1 else n k) - 1 else if k == j then n k + 1 else n j)
      ≡ n j
one_more_less n k j = elim (Bool-cases (k == j)) [
  | inl e ↦ rw (e, ==_refl k) (omega (arith, ap n ((==_iff k j).0 e)))
  | inr e ↦ rw e refl
]

-- What is done between the two calls counts nothing in and nothing out.
release-acquire :
    (parse : String → Option ℤ) (rl after : RateLimiter) (k : String) (cfg : Option RateLimitConfig)
    (t : Time) (n : String → Int64)
    → IsNonneg (n k + 1)
    → ((m : String → Int64) → Leaves (acquire parse rl k cfg t) m → Leaves after m)
    → Leaves rl n
    → Leaves (release after k cfg) n
unfolding acquire release
release-acquire parse rl after k none t n room h v = h n v
release-acquire parse rl after k (some cfg) t n room h v =
    elim (Bool-cases (cfg.max_parallel == 0)) [
      | inl free ↦ rw free (h n (rw free v))
      | inr counts ↦
          let n' : String → Int64 = λ j. if k == j then n k + 1 else n j in
          let between = h n' (unfold acquire in acquire-Leaves parse rl n k cfg t counts room v) in
          let back =
            release-Leaves parse after n' k cfg counts (ground (arith, ==_refl k)) between in
          record { counted = λ j. back.counted j ∙ one_more_less n k j; counts = back.counts }
    ]

module _ (d : Deps) (c : Context d) where
  -- A chat request gives back what it acquired, on every path: however it is answered, the number of
  -- requests in flight of each token hash is afterwards what it was, where there is room for one more.
  pub serve_resolved-Leaves :
      (body : Object d.fl.Float) (p : Proxy d) (log : RequestLog) (n : String → Int64)
      → IsNonneg (n c.token_hash + 1)
      → Leaves p.limiter n
      → Leaves (serve_resolved d c body p log).0.limiter n
  unfolding serve_resolved reject fail count_stats emit
  serve_resolved-Leaves body p log n room v =
      on_answer
        (allow d.parse_duration p.limiter c.token_hash c.resolved.rate_limit c.times.seen
          c.times.allowed)
        (allow-Leaves d.parse_duration p.limiter n c.token_hash c.resolved.rate_limit c.times.seen
          c.times.allowed v)
    where
      on_answer :
          (r : RateLimiter × Option RateError)
          → Leaves r.0 n
          → Leaves (on_allowed d c body p log r).0.limiter n
      on_answer (rl, some e) h = h
      on_answer (rl, none) h =
          release-acquire d.parse_duration rl _ c.token_hash c.resolved.rate_limit c.times.acquired
            n room
            (λ m g.
              serve_acquired-Kept d c (λ x. Leaves x m)
                (λ x k t.
                  record_tokens-Leaves d.parse_duration x m c.token_hash c.resolved.rate_limit k t)
                body _ log g)
            h
