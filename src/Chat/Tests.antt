-- ===== src/Chat/Tests.antt =====
-- Chat requests over a sample platform.
use tokenomics.Base.{
  inr, List, ℕ, String, ◌≡◌, refl, suc, ◌*◌, ◌≤◌, ◌<◌, [], ◌∷◌, none, some, ok, arith, length,
}
use tokenomics.Base.Eq.{string_eq, ==_ne}
use tokenomics.Base.Dict.{lookup}
use tokenomics.Base.Json.{Json, text, array, cons, nil, number, object, field, end}
use tokenomics.Base.Word.{lt64, add64}
use tokenomics.Session.Memory.{memory_laws, read}
use tokenomics.RateLimit.Limiter.{new_rate_limiter}
use tokenomics.RateLimit.Parallel.{in_flight, Leaves}
use tokenomics.Policy.Rule.{matches, match_regex}
use tokenomics.Policy.Engine.{check_rules, check_rules_from, rule_matches_scope}
use tokenomics.Chat.{Outgoing, Response}
use tokenomics.Chat.Request.{build_request, upstream_headers}
use tokenomics.Chat.Request.Auth.{credential, upstream_headers-authorization}
use tokenomics.Chat.Retry.{
  answered, send, models_to_try, max_attempts, rounds, try_models, try_model, attempt,
}
use tokenomics.Chat.Retry.Bounds.{send-sent}
use tokenomics.Chat.Retry.Answers.{send_answers, send_unretried}
use tokenomics.Chat.Tokens.{response_tokens, extract_token_counts}
use tokenomics.Chat.Counting.{response_tokens-extract_token_counts}
use tokenomics.Chat.Handler.{serve_resolved, serve_budget}
use tokenomics.Chat.Handler.InFlight.{serve_resolved-Leaves}
use tokenomics.Chat.Handler.Guards.{IsUntouched, serve_resolved-IsUntouched}
use tokenomics.Chat.Handler.Budgeted.{serve_budget_unanswered}
use tokenomics.Chat.Samples.{
  plain, naturals, incoming, busy, always_busy, unreachable_host, plan, two_retries, no_retries,
  deps, proxy, context, message, body, log,
}

send-sent_example :
    length (send plain unreachable_host plan (some two_retries) "large" 0).0.sent
    ≤ suc (length two_retries.fallbacks) * suc two_retries.max_retries
send-sent_example = send-sent plain unreachable_host plan two_retries "large" 0 (omega arith)

every_request : (m : String) → (req : Outgoing String) × (build_request plain plan m ≡ ok req)
unfolding build_request
every_request m = (_, refl)

some_round : 0 < rounds (max_attempts (some two_retries))
unfolding rounds max_attempts lt64 add64
some_round = omega arith

send_answers_example :
    (m : String) × (resp : Response) × ((send plain always_busy plan (some two_retries) "large" 0).1
      ≡ some (answered m resp))
send_answers_example =
    send_answers plain always_busy plan (some two_retries) "large" 0 every_request
      (λ v req. (busy, refl)) some_round

send_unretried_example :
    (send plain always_busy plan (some no_retries) "large" 0).1 ≡ some (answered "large" busy)
send_unretried_example =
    let (req, e) = every_request "large" in
    send_unretried plain always_busy plan no_retries "large" 0 req busy refl e refl

upstream_headers-authorization_example :
    lookup "Authorization" (upstream_headers plain none incoming.headers "real" "{}" "" "id")
    ≡ credential plain none "real" "Authorization"
upstream_headers-authorization_example =
    upstream_headers-authorization plain none incoming.headers "real" "{}" "" "id"
      (refl, (refl, tt)) tt (==_ne "Content-Length" "Authorization" refl)
      (==_ne "Content-Encoding" "Authorization" refl)
      (==_ne "X-Client-Request-Id" "Authorization" refl)

response_tokens-extract_token_counts_example :
    (extract_token_counts naturals
      (("usage", object (field "completion_tokens" (number 9) end)) ∷ [])).1
    ≡ 9
unfolding response_tokens lookup
response_tokens-extract_token_counts_example =
    response_tokens-extract_token_counts naturals
      (("usage", object (field "completion_tokens" (number 9) end)) ∷ []) 9 refl

abbrev hidden_and_blocks : List (Json ℕ)
hidden_and_blocks =
    message "hidden"
    ∷ object (field "role" (text "user") (field "content" (array (cons (text "hidden") nil)) end))
    ∷ []

unused : Leaves new_rate_limiter (λ j. 0)
unfolding in_flight lookup new_rate_limiter
unused = record { counted = λ j. refl; counts = tt }

serve_resolved-Leaves_example :
    Leaves
      (serve_resolved
        (deps always_busy)
        (context always_busy)
        (body "hello")
        (proxy always_busy)
        log).0.limiter
      (λ j. 0)
serve_resolved-Leaves_example =
    serve_resolved-Leaves (deps always_busy) (context always_busy) (body "hello")
      (proxy always_busy) log (λ j. 0) (omega arith) unused

serve_resolved-IsUntouched_example :
    IsUntouched (deps always_busy) (context always_busy) (proxy always_busy) (
      serve_resolved
        (deps always_busy)
        (context always_busy)
        (body "secret")
        (proxy always_busy)
        log)
unfolding check_rules check_rules_from rule_matches_scope matches match_regex lookup
serve_resolved-IsUntouched_example =
    serve_resolved-IsUntouched (deps always_busy) (context always_busy) (body "secret")
      (proxy always_busy) log _ refl

serve_budget_unanswered_example :
    read
      (serve_budget
        (deps unreachable_host)
        (context unreachable_host)
        (body "hello")
        []
        (proxy unreachable_host)
        log).0.sessions
      "hash"
    ≡ read (proxy unreachable_host).sessions "hash"
unfolding send try_models try_model attempt build_request models_to_try rounds max_attempts lt64
    add64 read lookup
serve_budget_unanswered_example =
    serve_budget_unanswered (deps unreachable_host) memory_laws (context unreachable_host)
      (body "hello") [] (proxy unreachable_host) log "hash" (omega arith)
      (inr (λ m resp e. ground arith))
