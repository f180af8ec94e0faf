-- ===== src/Chat/Retry/Answers.antt =====
-- Which response the loops of a request pass on.
use tokenomics.Base.{
  String, Bool, true, false, Bool-cases, ◌≡◌, refl, ℕ, zero, suc, ◌<◌, List, [], ◌∷◌, ◌++◌, Option,
  none, some, Result, ok, err, ◌⊎◌, inl, inr, arith, subst, ltb,
}
use tokenomics.Base.Eq.{string_eq, ◌==◌, ==_iff, ==_refl}
use tokenomics.Base.Word.{lt64}
use tokenomics.Base.Json.{Json}
use tokenomics.Policy.Resolve.{RetryConfig}
use tokenomics.Chat.{Outgoing, Response, Platform}
use tokenomics.Chat.Request.{Plan, PrepareError, build_request}
use tokenomics.Chat.Retry.{
  Attempts, Outcome, answered, refused, and_then, attempt, after_call, after_build, try_model,
  try_models, send, models_to_try, max_attempts, rounds, should_retry, last_model, new_attempts,
}

-- What holds of the outcome, if there is one.
abbrev Holds {ℓ κ} : {A : Type ℓ} → (A → Type κ) → Option A → Type κ
Holds P none = Unit
Holds P (some a) = P a

abbrev IsSome {ℓ} : {A : Type ℓ} → Option A → Type ℓ
IsSome {A} o = (a : A) × (o ≡ some a)

and_then-Holds {ℓ κ ι} :
    {S : Type ℓ} {A : Type κ} (P : A → Type ι) (r : S × Option A) (k : S → S × Option A)
    → Holds P r.1
    → ((s : S) → Holds P (k s).1)
    → Holds P (and_then r k).1
and_then-Holds P (s, none) k h step = step s
and_then-Holds P (s, some a) k h step = h

and_then-some {ℓ κ} :
    {S : Type ℓ} {A : Type κ} (r : S × Option A) (k : S → S × Option A) (a : A)
    → r.1 ≡ some a
    → (and_then r k).1 ≡ some a
and_then-some (s, some b) k a e = e
and_then-some (s, none) k a e = ground arith

and_then-IsSome {ℓ κ} :
    {S : Type ℓ} {A : Type κ} (r : S × Option A) (k : S → S × Option A)
    → IsSome r.1 ⊎ ((s : S) → IsSome (k s).1)
    → IsSome (and_then r k).1
and_then-IsSome (s, some a) k h = (a, refl)
and_then-IsSome (s, none) k (inr step) = step s
and_then-IsSome (s, none) k (inl (a, e)) = ground arith

first_tried :
    (model : String) (cfg : Option RetryConfig)
    → (ms : List String) × (models_to_try model cfg ≡ model ∷ ms)
unfolding models_to_try
first_tried model none = ([], refl)
first_tried model (some c) = (c.fallbacks, refl)

module _ {F : Type 0} (os : Platform (Json F)) {W : Type 0}
    (call : W → Outgoing os.Url → W × Option Response) (plan : Plan os) (cfg : Option RetryConfig)
    (last : String) where
  -- A response passed on is final, and an answer 500 comes from a request that could not be built.
  abbrev IsFinal : Outcome → Type 0
  IsFinal (refused e) = (m : String) × (build_request os plan m ≡ err e)
  IsFinal (answered m resp) = (should_retry cfg resp.status_code ≡ false) ⊎ (m ≡ last)

  after_call-IsFinal :
      (more : Bool) (m : String) (s : Attempts W os.Url) (r : W × Option Response)
      → Holds (IsFinal) (after_call os call cfg last more m s r).1
  after_call-IsFinal more m s (w, none) = tt
  after_call-IsFinal true m s (w, some resp) =
      elim (Bool-cases (should_retry cfg resp.status_code)) [
        | inl e ↦ rw e tt
        | inr e ↦ rw e (inl e)
      ]
  after_call-IsFinal false m s (w, some resp) =
      elim (Bool-cases (should_retry cfg resp.status_code)) [
        | inl e ↦ rw e (elim (Bool-cases (m == last)) [
          | inl d ↦ rw d (inr ((==_iff m last).0 d))
          | inr d ↦ rw d tt
        ])
        | inr e ↦ rw e (inl e)
      ]

  attempt-IsFinal :
      (more : Bool) (m : String) (s : Attempts W os.Url)
      → Holds (IsFinal) (attempt os call plan cfg last more m s).1
  unfolding attempt
  attempt-IsFinal more m s = go (build_request os plan m) refl
    where
      go :
          (r : Result PrepareError (Outgoing os.Url))
          → build_request os plan m ≡ r
          → Holds IsFinal (after_build os call cfg last more m s r).1
      go (err e) h = (m, h)
      go (ok req) h =
          after_call-IsFinal more m (record s { sent = s.sent ++ req ∷ [] }) (call s.world req)

  try_model-IsFinal :
      (m : String) (n : ℕ) (s : Attempts W os.Url)
      → Holds (IsFinal) (try_model os call plan cfg last m n s).1
  unfolding try_model
  try_model-IsFinal m zero s = tt
  try_model-IsFinal m (suc n) s =
      and_then-Holds (IsFinal) (attempt os call plan cfg last (ltb 0 n) m s)
        (try_model os call plan cfg last m n) (attempt-IsFinal (ltb 0 n) m s)
        (try_model-IsFinal m n)

  try_models-IsFinal :
      (n : ℕ) (ms : List String) (s : Attempts W os.Url)
      → Holds (IsFinal) (try_models os call plan cfg last n ms s).1
  unfolding try_models
  try_models-IsFinal n [] s = tt
  try_models-IsFinal n (m ∷ ms) s =
      and_then-Holds (IsFinal) (try_model os call plan cfg last m n s)
        (try_models os call plan cfg last n ms) (try_model-IsFinal m n s) (try_models-IsFinal n ms)

  -- The platform builds every request, and every call gets a response.
  module _ (built : (m : String) → (req : Outgoing os.Url) × (build_request os plan m ≡ ok req))
      (served : (w : W) (req : Outgoing os.Url)
        → (resp : Response) × ((call w req).1 ≡ some resp)) where
    after_call-last :
        (s : Attempts W os.Url) (r : W × Option Response)
        → IsSome r.1
        → IsSome (after_call os call cfg last false last s r).1
    after_call-last s (w, none) (resp, e) = ground arith
    after_call-last s (w, some resp) e = elim (Bool-cases (should_retry cfg resp.status_code)) [
      | inl d ↦ rw (d, ==_refl last) (answered last resp, refl)
      | inr d ↦ rw d (answered last resp, refl)
    ]

    attempt-last : (s : Attempts W os.Url) → IsSome (attempt os call plan cfg last false last s).1
    unfolding attempt
    attempt-last s =
        let (req, e) = built last in
        rw e (
          after_call-last (record s { sent = s.sent ++ req ∷ [] }) (call s.world req)
            (served s.world req))

    try_model-last :
        (n : ℕ) (s : Attempts W os.Url)
        → 0 < n
        → IsSome (try_model os call plan cfg last last n s).1
    unfolding try_model
    try_model-last zero s h = ground arith
    try_model-last (suc zero) s h =
        and_then-IsSome (attempt os call plan cfg last (ltb 0 0) last s)
          (try_model os call plan cfg last last 0) (inl (attempt-last s))
    try_model-last (suc (suc n)) s h =
        and_then-IsSome (attempt os call plan cfg last (ltb 0 (suc n)) last s)
          (try_model os call plan cfg last last (suc n))
          (inr (λ s'. try_model-last (suc n) s' (omega arith)))

    try_models-last :
        (n : ℕ) (m : String) (ms : List String) (s : Attempts W os.Url)
        → 0 < n
        → last_model m ms ≡ last
        → IsSome (try_models os call plan cfg last n (m ∷ ms) s).1
    unfolding try_models last_model
    try_models-last n m [] s h e =
        and_then-IsSome (try_model os call plan cfg last m n s)
          (try_models os call plan cfg last n []) (inl (rw e (try_model-last n s h)))
    try_models-last n m (m' ∷ ms) s h e =
        and_then-IsSome (try_model os call plan cfg last m n s)
          (try_models os call plan cfg last n (m' ∷ ms))
          (inr (λ s'. try_models-last n m' ms s' h e))

module _ {F : Type 0} (os : Platform (Json F)) {W : Type 0}
    (call : W → Outgoing os.Url → W × Option Response) (plan : Plan os) (cfg : Option RetryConfig)
    (model : String) (w : W) where
  final :
      Holds
        (IsFinal os call plan cfg (last_model model (models_to_try model cfg)))
        (send os call plan cfg model w).1
  unfolding send
  final =
      let ms = models_to_try model cfg in
      try_models-IsFinal os call plan cfg (last_model model ms) (rounds (max_attempts cfg)) ms
        (new_attempts os call w)

  -- A response that the loops pass on has a status that is not to be retried, or it comes from the
  -- last of the models to try.
  pub send_final :
      (m : String) (resp : Response)
      → (send os call plan cfg model w).1 ≡ some (answered m resp)
      → (should_retry cfg resp.status_code ≡ false)
        ⊎ (m ≡ last_model model (models_to_try model cfg))
  send_final m resp e =
      subst (Holds (IsFinal os call plan cfg (last_model model (models_to_try model cfg)))) e final

  answer_of :
      ((m : String) → (req : Outgoing os.Url) × (build_request os plan m ≡ ok req))
      → (o : Option Outcome) → IsSome o
      → Holds (IsFinal os call plan cfg (last_model model (models_to_try model cfg))) o
      → (m : String) × (resp : Response) × (o ≡ some (answered m resp))
  answer_of built none (a, e) h = ground arith
  answer_of built (some (answered m resp)) e h = (m, resp, refl)
  answer_of built (some (refused x)) e (m, h) = let (req, b) = built m in ground arith

  module _ (built : (m : String) → (req : Outgoing os.Url) × (build_request os plan m ≡ ok req))
      (served : (v : W) (req : Outgoing os.Url) → (resp : Response) × ((call v req).1 ≡ some resp))
      (h : 0 < rounds (max_attempts cfg)) where
    try_models-IsSome :
        (ms : List String)
        → IsSome
            (try_models os call plan cfg
              (last_model model (model ∷ ms))
              (rounds (max_attempts cfg))
              (model ∷ ms)
              (new_attempts os call w)).1
    unfolding last_model
    try_models-IsSome ms =
        try_models-last os call plan cfg (last_model model ms) built served
          (rounds (max_attempts cfg)) model ms (new_attempts os call w) h refl

    send-IsSome : IsSome (send os call plan cfg model w).1
    unfolding send
    send-IsSome = let (ms, e) = first_tried model cfg in rw e (try_models-IsSome ms)

    -- Where every request can be built, every call gets a response, whatever its status, and the
    -- configuration allows an attempt, the loops end with a response to pass on.
    pub send_answers :
        (m : String) × (resp : Response) × ((send os call plan cfg model w).1
          ≡ some (answered m resp))
    send_answers = answer_of built (send os call plan cfg model w).1 send-IsSome final

module _ {F : Type 0} (os : Platform (Json F)) {W : Type 0}
    (call : W → Outgoing os.Url → W × Option Response) (plan : Plan os) where
  -- A first response whose status is not to be retried is the one passed on.
  send_first :
      (cfg : Option RetryConfig) (model : String) (w : W) (req : Outgoing os.Url) (resp : Response)
      → 0 < rounds (max_attempts cfg)
      → build_request os plan model ≡ ok req
      → (call w req).1 ≡ some resp
      → should_retry cfg resp.status_code ≡ false
      → (send os call plan cfg model w).1 ≡ some (answered model resp)
  unfolding send try_models try_model attempt
  send_first cfg model w req resp h b e d =
      let (ms, f) = first_tried model cfg in
      rw f (
        and_then-some
          (try_model os call plan cfg (last_model model (model ∷ ms)) model
            (rounds (max_attempts cfg)) (new_attempts os call w))
          (try_models os call plan cfg (last_model model (model ∷ ms)) (rounds (max_attempts cfg))
            ms)
          (answered model resp)
          (round (last_model model (model ∷ ms)) (rounds (max_attempts cfg)) h))
    where
      called :
          (last : String) (more : Bool) (s : Attempts W os.Url) (r : W × Option Response)
          → r.1 ≡ some resp
          → (after_call os call cfg last more model s r).1 ≡ some (answered model resp)
      called last more s (v, none) e = ground arith
      called last more s (v, some resp') e = ground (arith, d)

      round :
          (last : String) (n : ℕ)
          → 0 < n
          → (try_model os call plan cfg last model n (new_attempts os call w)).1
            ≡ some (answered model resp)
      round last zero h = ground arith
      round last (suc n) h =
          and_then-some (attempt os call plan cfg last (ltb 0 n) model (new_attempts os call w))
            (try_model os call plan cfg last model n) (answered model resp)
            (rw b (
              called last (ltb 0 n) (record (new_attempts os call w) { sent = req ∷ [] })
                (call w req) e))

  -- With `max_retries` 0 the first response is passed on, whatever its status is: the configured
  -- fallbacks are not tried once the request for the client's model has been built and answered.
  pub send_unretried :
      (c : RetryConfig) (model : String) (w : W) (req : Outgoing os.Url) (resp : Response)
      → c.max_retries ≡ 0
      → build_request os plan model ≡ ok req
      → (call w req).1 ≡ some resp
      → (send os call plan (some c) model w).1 ≡ some (answered model resp)
  unfolding should_retry rounds max_attempts lt64
  send_unretried c model w req resp h b e =
      send_first (some c) model w req resp (ground arith) b e (ground arith)
