-- ===== src/Chat/Handler/Guards.antt =====
-- Requests that a guard ends before anything is sent.
use tokenomics.Base.{◌≡◌, refl, List, Option, none, some, Result, ok, err, arith, ◌∙◌}
use tokenomics.Base.Json.{Json, Object, array_at}
use tokenomics.RateLimit.Limiter.{RateLimiter, RateError, allow}
use tokenomics.Policy.Engine.{ModelError, Blocked, check_model}
use tokenomics.Chat.Inspect.{Notes, no_notes, inspect_messages}
use tokenomics.Chat.Inspect.Checked.{first_violation, inspect_messages-blocked}
use tokenomics.Chat.Proxy.{Deps, Proxy, Context, RequestLog, emit, count_stats, fail}
use tokenomics.Chat.Handler.{
  Served, reject, on_inspected, on_model, serve_acquired, on_allowed, serve_resolved,
}

module _ (d : Deps) (c : Context d) where
  -- Nothing has been sent and nothing charged.
  abbrev pub IsUntouched : Proxy d → Served d → Type 0
  IsUntouched p r = (r.0.world ≡ p.world) × (r.0.sessions ≡ p.sessions)

  on_inspected-IsUntouched :
      (body : Object d.fl.Float) (p : Proxy d) (log : RequestLog)
      (r : List (Json d.fl.Float) × Notes × Option Blocked) (b : Blocked)
      → r.2 ≡ some b
      → IsUntouched p (on_inspected d c body p log r)
  unfolding reject fail count_stats
  on_inspected-IsUntouched body p log (js, n, some b') b h = (refl, refl)
  on_inspected-IsUntouched body p log (js, n, none) b h = ground arith

  serve_acquired-IsUntouched :
      (body : Object d.fl.Float) (p : Proxy d) (log : RequestLog) (b : Blocked)
      → first_violation d.re c.resolved (array_at "messages" body) ≡ some b
      → IsUntouched p (serve_acquired d c body p log)
  unfolding serve_acquired reject fail count_stats
  serve_acquired-IsUntouched body p log b h = on_checked (check_model d.re c.resolved c.model)
    where
      on_checked : (r : Result ModelError (Unit {0})) → IsUntouched p (on_model d c body p log r)
      on_checked (err e) = (refl, refl)
      on_checked (ok x) =
          on_inspected-IsUntouched body p log
            (inspect_messages d.re d.match_text c.meta c.token_hash c.model c.resolved
              (array_at "messages" body) no_notes)
            b
            (inspect_messages-blocked d.re c.resolved d.match_text c.meta c.token_hash c.model
                (array_at "messages" body) no_notes
              ∙ h)

  -- A request with a message that the rules of its policy refuse calls no provider and charges no
  -- session, whatever the limiter and the check of the model say of it.
  pub serve_resolved-IsUntouched :
      (body : Object d.fl.Float) (p : Proxy d) (log : RequestLog) (b : Blocked)
      → first_violation d.re c.resolved (array_at "messages" body) ≡ some b
      → IsUntouched p (serve_resolved d c body p log)
  unfolding serve_resolved reject fail count_stats emit
  serve_resolved-IsUntouched body p log b h = on_answer (
      allow d.parse_duration p.limiter c.token_hash c.resolved.rate_limit c.times.seen
        c.times.allowed)
    where
      on_answer : (r : RateLimiter × Option RateError) → IsUntouched p (on_allowed d c body p log r)
      on_answer (rl, some e) = (refl, refl)
      on_answer (rl, none) = serve_acquired-IsUntouched body _ log b h
