-- ===== src/Chat/Retry.antt =====
-- `shouldRetry` and the two loops of `handleChatCompletions` over the models to try and the attempts at
-- each. `call` is `client.Do` in a world that it changes; the timeout is the world's.
pub mod Bounds
pub mod Answers
use tokenomics.Base.{
  String, Bool, false, not, ◌&&◌, ◌||◌, ℕ, zero, suc, List, [], ◌∷◌, ◌++◌, Option, none, some,
  Result, ok, err, is_nil, any, if◌then◌else◌, ltb,
}
use tokenomics.Base.Eq.{string_eq, nat_eq, ◌==◌}
use tokenomics.Base.Word.{Int64, add64, lt64}
use tokenomics.Base.Json.{Json}
use tokenomics.Policy.Resolve.{RetryConfig}
use tokenomics.Chat.{Outgoing, Response, Platform}
use tokenomics.Chat.Request.{Plan, PrepareError, build_request}

abbrev pub default_retry_on : List Int64
default_retry_on = 429 ∷ 500 ∷ 502 ∷ 503 ∷ []

unfoldable pub should_retry : Option RetryConfig → Int64 → Bool
should_retry none status_code = false
should_retry (some cfg) status_code =
    if cfg.max_retries == 0
    then false
    else any (λ code. status_code == code)
        (if is_nil cfg.retry_on then default_retry_on else cfg.retry_on)

unfoldable pub models_to_try : String → Option RetryConfig → List String
models_to_try model none = model ∷ []
models_to_try model (some cfg) = model ∷ cfg.fallbacks

-- `modelsToTry[len(modelsToTry)-1]`
unfoldable pub last_model : String → List String → String
last_model model [] = model
last_model model (m ∷ ms) = last_model m ms

unfoldable pub max_attempts : Option RetryConfig → Int64
max_attempts none = 1
max_attempts (some cfg) = if lt64 0 cfg.max_retries then add64 1 cfg.max_retries else 1

-- The rounds of `for attempt := 0; attempt < n; attempt++`.
unfoldable pub rounds : Int64 → ℕ
rounds n = if lt64 0 n then n else 0

-- The variables of the loop; `sent` is what has gone to providers so far.
pub record Attempts (W U : Type 0) : Type 0 where
  pub world : W
  pub sent : List (Outgoing U)
  pub last_response : Option Response
  pub retry_count : Int64

-- How the loop is left from within: an answer 500, or a response to pass on.
pub data Outcome : Type 0 where
  refused : PrepareError → Outcome
  answered : String → Response → Outcome

abbrev pub and_then {ℓ κ} :
    {S : Type ℓ} {A : Type κ} → S × Option A → (S → S × Option A) → S × Option A
and_then (s, some o) f = (s, some o)
and_then (s, none) f = f s

module _ {F : Type 0} (os : Platform (Json F)) {W : Type 0}
    (call : W → Outgoing os.Url → W × Option Response) where
  -- What one attempt makes of the result of its call; `more` tells whether another attempt follows.
  abbrev pub after_call :
      Option RetryConfig
      → String
      → Bool
      → String
      → Attempts W os.Url
      → W × Option Response
      → Attempts W os.Url × Option Outcome
  after_call cfg last more try_model s (w, none) =
      (record s { world = w; retry_count = add64 s.retry_count 1 }, none)
  after_call cfg last more try_model s (w, some resp) =
      if should_retry cfg resp.status_code && (more || not (try_model == last))
      then (
        record s { world = w; last_response = some resp; retry_count = add64 s.retry_count 1 },
        none,
      )
      else (record s { world = w }, some (answered try_model resp))

  abbrev pub after_build :
      Option RetryConfig
      → String
      → Bool
      → String
      → Attempts W os.Url
      → Result PrepareError (Outgoing os.Url)
      → Attempts W os.Url × Option Outcome
  after_build cfg last more try_model s (err e) = (s, some (refused e))
  after_build cfg last more try_model s (ok req) =
      after_call cfg last more try_model (record s { sent = s.sent ++ req ∷ [] }) (call s.world req)

  unfoldable pub attempt :
      Plan os
      → Option RetryConfig
      → String
      → Bool
      → String
      → Attempts W os.Url
      → Attempts W os.Url × Option Outcome
  attempt plan cfg last more try_model s =
      after_build cfg last more try_model s (build_request os plan try_model)

  -- The inner loop, by the attempts that are left.
  unfoldable pub try_model :
      Plan os
      → Option RetryConfig
      → String
      → String
      → ℕ
      → Attempts W os.Url
      → Attempts W os.Url × Option Outcome
  try_model plan cfg last model zero s = (s, none)
  try_model plan cfg last model (suc n) s =
      and_then (attempt plan cfg last (ltb 0 n) model s) (try_model plan cfg last model n)

  unfoldable pub try_models :
      Plan os
      → Option RetryConfig
      → String
      → ℕ
      → List String
      → Attempts W os.Url
      → Attempts W os.Url × Option Outcome
  try_models plan cfg last n [] s = (s, none)
  try_models plan cfg last n (m ∷ ms) s =
      and_then (try_model plan cfg last m n s) (try_models plan cfg last n ms)

  abbrev pub new_attempts : W → Attempts W os.Url
  new_attempts w = record { world = w; sent = []; last_response = none; retry_count = 0 }

  -- Both loops, for the model that the client asked for.
  unfoldable pub send :
      Plan os → Option RetryConfig → String → W → Attempts W os.Url × Option Outcome
  send plan cfg model w =
      let models = models_to_try model cfg in
      try_models plan cfg (last_model model models) (rounds (max_attempts cfg)) models
        (new_attempts w)
