-- ===== src/Chat/Retry/Bounds.antt =====
-- How often the loops of a request call providers.
use tokenomics.Base.{
  String, Bool, ◌≡◌, refl, ℕ, zero, suc, ◌+◌, ◌*◌, ◌≤◌, ◌<◌, sym, List, [], ◌∷◌, ◌++◌, Option, none,
  some, Result, ok, err, length, length-append, arith, ltb,
}
use tokenomics.Base.Word.{add64, lt64, half_mod}
use tokenomics.Base.Json.{Json}
use tokenomics.Policy.Resolve.{RetryConfig}
use tokenomics.Chat.{Outgoing, Response, Platform}
use tokenomics.Chat.Request.{Plan, PrepareError, build_request}
use tokenomics.Chat.Retry.{
  Attempts, and_then, attempt, after_call, after_build, try_model, try_models, send, models_to_try,
  max_attempts, rounds, last_model, new_attempts,
}

and_then_le {ℓ κ} :
    {S : Type ℓ} {A : Type κ} (f : S → ℕ) (r : S × Option A) (k : S → S × Option A) (b c : ℕ)
    → f r.0 ≤ b
    → ((s : S) → f (k s).0 ≤ f s + c)
    → f (and_then r k).0 ≤ b + c
and_then_le f (s, none) k b c h step = omega (arith, step s)
and_then_le f (s, some o) k b c h step = omega arith

module _ {F : Type 0} (os : Platform (Json F)) {W : Type 0}
    (call : W → Outgoing os.Url → W × Option Response) (plan : Plan os) (cfg : Option RetryConfig)
    (last : String) where
  after_call-sent :
      (more : Bool) (m : String) (s : Attempts W os.Url) (r : W × Option Response)
      → (after_call os call cfg last more m s r).0.sent ≡ s.sent
  after_call-sent more m s (w, none) = refl
  after_call-sent more m s (w, some resp) = ground arith

  after_build-sent :
      (more : Bool) (m : String) (s : Attempts W os.Url) (r : Result PrepareError (Outgoing os.Url))
      → length (after_build os call cfg last more m s r).0.sent ≤ length s.sent + 1
  after_build-sent more m s (err e) = omega arith
  after_build-sent more m s (ok req) =
      rw (after_call-sent more m (record s { sent = s.sent ++ req ∷ [] }) (call s.world req))
        (omega (arith, length-append s.sent (req ∷ [])))

  try_model-sent :
      (m : String) (n : ℕ) (s : Attempts W os.Url)
      → length (try_model os call plan cfg last m n s).0.sent ≤ length s.sent + n
  unfolding try_model attempt
  try_model-sent m zero s = omega arith
  try_model-sent m (suc n) s = omega (
    arith,
    and_then_le (λ a. length a.sent) (attempt os call plan cfg last (ltb 0 n) m s)
        (try_model os call plan cfg last m n) (length s.sent + 1) n
        (after_build-sent (ltb 0 n) m s (build_request os plan m)) (try_model-sent m n),
  )

  try_models-sent :
      (n : ℕ) (ms : List String) (s : Attempts W os.Url)
      → length (try_models os call plan cfg last n ms s).0.sent ≤ length s.sent + length ms * n
  unfolding try_models
  try_models-sent n [] s = omega arith
  try_models-sent n (m ∷ ms) s = ground (
    arith,
    and_then_le (λ a. length a.sent) (try_model os call plan cfg last m n s)
        (try_models os call plan cfg last n ms) (length s.sent + n) (length ms * n)
        (try_model-sent m n s) (try_models-sent n ms),
  )

module _ {F : Type 0} (os : Platform (Json F)) {W : Type 0}
    (call : W → Outgoing os.Url → W × Option Response) (plan : Plan os) where
  send-sent_le :
      (cfg : Option RetryConfig) (model : String) (w : W)
      → length (send os call plan cfg model w).0.sent
        ≤ length (models_to_try model cfg) * rounds (max_attempts cfg)
  unfolding send
  send-sent_le cfg model w =
      let ms = models_to_try model cfg in
      omega (
        arith,
        try_models-sent os call plan cfg (last_model model ms) (rounds (max_attempts cfg)) ms
            (new_attempts os call w),
      )

  rounds-max_attempts :
      (c : RetryConfig)
      → suc c.max_retries < half_mod
      → rounds (max_attempts (some c)) ≡ suc c.max_retries
  unfolding rounds max_attempts add64 lt64
  rounds-max_attempts c h = ground arith

  -- Where the configured number of retries is not negative and below the largest int64, a request
  -- makes at most (1 + fallbacks) * (1 + max_retries) calls of providers, whatever they answer.
  pub send-sent :
      (c : RetryConfig) (model : String) (w : W)
      → suc c.max_retries < half_mod
      → length (send os call plan (some c) model w).0.sent
        ≤ suc (length c.fallbacks) * suc c.max_retries
  unfolding models_to_try
  send-sent c model w h = rw (sym (rounds-max_attempts c h)) (send-sent_le (some c) model w)

  -- Without a retry configuration a request makes at most one call.
  pub send-sent_none : (model : String) (w : W) → length (send os call plan none model w).0.sent ≤ 1
  unfolding models_to_try rounds max_attempts lt64
  send-sent_none model w = omega (arith, send-sent_le none model w)
