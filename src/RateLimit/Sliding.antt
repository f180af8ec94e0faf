-- ===== src/RateLimit/Sliding.antt =====
-- A sliding window of requests: the pruned slice decides as the whole history would, and no span of
-- the window's length ever holds more admitted requests than the rule allows.
use tokenomics.Base.{
  ℕ, ◌+◌, ◌≤◌, ◌<◌, ◌≡◌, refl, sym, ◌∙◌, Bool, true, false, List, [], ◌∷◌, ◌++◌, Option, none, some,
  arith, if◌then◌else◌, length, keep, leb, ltb, ◌&&◌, keep-append, length-append,
}
use mathlib.Core.Path.{fun_ext}
use tokenomics.Base.Eq.{string_eq, ◌==◌}
use tokenomics.Base.Int.{pos}
use tokenomics.Base.Word.{Int64, IsNonneg, lt64, le64}
use tokenomics.RateLimit.Clock.{Time, after_cutoff, after_cutoff_pos}
use tokenomics.RateLimit.Window.{
  RateLimitRule, WindowCounter, is_fixed, count_sliding_requests, count_requests, add_request,
}
use tokenomics.RateLimit.Limiter.{
  RateError, too_many_requests, check_window, check_tokens, record_request,
}

-- One request at one window, as `Allow` treats it: check, and record if nothing is full.
abbrev settle : Time → WindowCounter × Option RateError → WindowCounter × Bool
settle now (wc, some e) = (wc, false)
settle now (wc, none) = (record_request now wc, true)

unfoldable pub serve : WindowCounter → Time → WindowCounter × Bool
serve wc now = settle now (check_window wc now)

-- The requests that a run of the window admits, oldest first.
unfoldable pub admitted : WindowCounter → List Time → List Time
admitted wc [] = []
admitted wc (now ∷ later) =
    let (wc', taken) = serve wc now in
    if taken then now ∷ admitted wc' later else admitted wc' later

abbrev pub fresh : ℕ → Time → Time → Bool
fresh w now t = ltb now (t + w)

-- The reference: decide by everything that was ever admitted, and never forget.
unfoldable pub admitted_by_history : ℕ → Int64 → List Time → List Time → List Time
unfolding keep
admitted_by_history w limit history [] = []
admitted_by_history w limit history (now ∷ later) =
    if leb limit (length (keep (fresh w now) history))
    then admitted_by_history w limit history later
    else now ∷ admitted_by_history w limit (history ++ now ∷ []) later

-- The clock does not run backwards from `start`.
abbrev pub Runs : Time → List Time → Type 0
Runs start [] = Unit {0}
Runs start (now ∷ later) = (start ≤ now) × Runs now later

-- Within the span of length `w` that ends at `t'`.
abbrev pub in_span : ℕ → Time → Time → Bool
in_span w t' t = leb t t' && ltb t' (t + w)

keep-fresh_twice :
    (w a b : ℕ) (xs : List Time)
    → a ≤ b
    → keep (fresh w b) (keep (fresh w a) xs) ≡ keep (fresh w b) xs
unfolding keep
keep-fresh_twice w a b [] h = refl
keep-fresh_twice w a b (x ∷ xs) h = ground (arith, keep-fresh_twice w a b xs)

pub length-keep-fresh_mono :
    (w a b : ℕ) (xs : List Time)
    → a ≤ b
    → length (keep (fresh w b) xs) ≤ length (keep (fresh w a) xs)
unfolding keep
length-keep-fresh_mono w a b [] h = omega arith
length-keep-fresh_mono w a b (x ∷ xs) h = ground (arith, length-keep-fresh_mono w a b xs)

length-keep-span_le :
    (w a b : ℕ) (xs : List Time)
    → a ≤ b
    → length (keep (in_span w b) xs) ≤ length (keep (fresh w a) xs)
unfolding keep
length-keep-span_le w a b [] h = omega arith
length-keep-span_le w a b (x ∷ xs) h = ground (arith, length-keep-span_le w a b xs)

-- What is kept of the slice at every later time is what would be kept of the history.
abbrev pub Tracks : ℕ → Time → List Time → List Time → Type 0
Tracks w last kept history =
    (now : Time) → last ≤ now → keep (fresh w now) kept ≡ keep (fresh w now) history

pub Tracks-append :
    (w last now : ℕ) (kept history : List Time)
    → last ≤ now
    → Tracks w last kept history
    → Tracks w now (keep (fresh w now) (kept ++ now ∷ [])) (history ++ now ∷ [])
Tracks-append w last now kept history h tr now' h' =
    keep-fresh_twice w now now' (kept ++ now ∷ []) h'
    ∙ keep-append (fresh w now') kept (now ∷ [])
    ∙ rw (tr now' (omega arith)) (sym (keep-append (fresh w now') history (now ∷ [])))

-- Every span of length `w` holds at most `limit` of the history.
abbrev pub IsSparse : ℕ → ℕ → List Time → Type 0
IsSparse w limit history = (t' : Time) → length (keep (in_span w t') history) ≤ limit

pub span-append :
    (w limit now : ℕ) (history : List Time)
    → length (keep (fresh w now) history) < limit
    → IsSparse w limit history
    → IsSparse w limit (history ++ now ∷ [])
unfolding keep
span-append w limit now history room sparse t' =
    rw (keep-append (in_span w t') history (now ∷ [])) (
      ground (
        arith,
        sparse t',
        length-append (keep (in_span w t') history) (now ∷ []),
        length-append (keep (in_span w t') history) [],
        length-keep-span_le w now t' history,
      ))

keep-after_cutoff :
    (w now : ℕ) (xs : List Time) → keep (λ t. after_cutoff t now (pos w)) xs ≡ keep (fresh w now) xs
keep-after_cutoff w now xs = rw (fun_ext (λ t. after_cutoff_pos t now w))

-- A rule that limits requests only, over a sliding window of length `w`.
pub record IsSliding (rule : RateLimitRule) : Type 0 where
  pub sliding : (rule.strategy == "fixed") ≡ false
  pub limits : lt64 0 rule.requests ≡ true
  pub bounded : IsNonneg rule.requests
  pub no_tokens : lt64 0 rule.tokens ≡ false

-- The counter when the slice holds `kept`.
abbrev pub window_of : RateLimitRule → ℕ → List Time → WindowCounter
window_of rule w kept = record {
  requests = kept;
  tokens = [];
  rule = rule;
  duration = pos w;
  fixed_start = 0;
  fixed_requests = 0;
  fixed_tokens = 0;
}

module _ (rule : RateLimitRule) (w : ℕ) (ok_rule : IsSliding rule) where
  pub le64-limit : (n : ℕ) → n ≤ rule.requests → le64 rule.requests n ≡ leb rule.requests n
  unfolding le64
  le64-limit n h = ground (arith, ok_rule.bounded)

  check-window_of :
      (kept : List Time) (now : Time)
      → check_window (window_of rule w kept) now ≡ (
          if le64 rule.requests (length (keep (fresh w now) kept))
          then (
            window_of rule w kept,
            some (too_many_requests (length (keep (fresh w now) kept)) rule.window rule.requests),
          )
          else (window_of rule w kept, none))
  unfolding check_window check_tokens count_requests is_fixed count_sliding_requests
  check-window_of kept now =
      rw (ok_rule.limits, ok_rule.sliding, keep-after_cutoff w now kept, ok_rule.no_tokens)

  record-window_of :
      (kept : List Time) (now : Time)
      → record_request now (window_of rule w kept)
        ≡ window_of rule w (keep (fresh w now) (kept ++ now ∷ []))
  unfolding record_request add_request is_fixed
  record-window_of kept now =
      rw (ok_rule.limits, ok_rule.sliding, keep-after_cutoff w now (kept ++ now ∷ []))

  pub serve-window_of :
      (kept : List Time) (now : Time)
      → length (keep (fresh w now) kept) ≤ rule.requests
      → serve (window_of rule w kept) now ≡ (
          if leb rule.requests (length (keep (fresh w now) kept))
          then (window_of rule w kept, false)
          else (window_of rule w (keep (fresh w now) (kept ++ now ∷ [])), true))
  unfolding serve
  serve-window_of kept now small =
      rw (check-window_of kept now, le64-limit _ small) (ground (arith, record-window_of kept now))
