-- ===== src/RateLimit/Invariant.antt =====
-- What holds of every window of every bucket, whatever is called and whatever the clock says.
use tokenomics.Base.{
  ◌+◌, ◌≤◌, ◌<◌, ◌≡◌, List, [], ◌∷◌, ◌++◌, Option, none, arith, String, length, keep, Bool-cases,
  inl, inr, true, false, Bool, length-append, length-keep-le, keep-append,
}
use tokenomics.Base.Int.{ℤ}
use tokenomics.Base.Eq.{string_eq}
use tokenomics.Base.Word.{Int64, IsNonneg, lt64, le64, add64}
use tokenomics.RateLimit.Clock.{Time, after_cutoff}
use tokenomics.RateLimit.Window.{
  RateLimitRule, WindowCounter, new_window, is_fixed, roll, count_requests, count_tokens,
  count_fixed_requests, count_fixed_tokens, count_sliding_requests, add_request, add_tokens,
}
use tokenomics.RateLimit.Limiter.{check_window, check_tokens, record_request, charge_tokens}

-- Neither the fixed counter nor the slice holds more requests than the rule allows.
pub record IsWithin (wc : WindowCounter) : Type 0 where
  pub fixed : wc.fixed_requests ≤ wc.rule.requests
  pub sliding : length wc.requests ≤ wc.rule.requests

-- For a rule whose limit is not negative.
abbrev pub Within : WindowCounter → Type 0
Within wc = IsNonneg wc.rule.requests → IsWithin wc

-- There is room for one more request.
pub record HasRoom (now : Time) (wc : WindowCounter) : Type 0 where
  pub fixed : is_fixed wc ≡ true → wc.fixed_requests < wc.rule.requests
  pub sliding : is_fixed wc ≡ false → count_sliding_requests wc now < wc.rule.requests

abbrev pub Ready : Time → WindowCounter → Type 0
Ready now wc = IsNonneg wc.rule.requests → lt64 0 wc.rule.requests ≡ true → HasRoom now wc

roll-Within : (wc : WindowCounter) (now : Time) → Within wc → Within (roll wc now)
unfolding roll
roll-Within wc now v = ground arith

roll-Ready : (wc : WindowCounter) (now : Time) → Ready now wc → Ready now (roll wc now)
unfolding roll lt64 is_fixed count_sliding_requests
roll-Ready wc now v = ground arith

check_tokens-Within : (wc : WindowCounter) (now : Time) → Within wc → Within (check_tokens wc now).0
unfolding check_tokens count_tokens count_fixed_tokens
check_tokens-Within wc now v = ground (arith, roll-Within wc now v)

check_tokens-Ready :
    (wc : WindowCounter) (now : Time) → Ready now wc → Ready now (check_tokens wc now).0
unfolding check_tokens count_tokens count_fixed_tokens
check_tokens-Ready wc now v = ground (arith, roll-Ready wc now v)

pub check_window-Within :
    (wc : WindowCounter) (now : Time) → Within wc → Within (check_window wc now).0
unfolding check_window count_requests count_fixed_requests
check_window-Within wc now v = ground (
  arith,
  check_tokens-Within wc now v,
  roll-Within wc now v,
  check_tokens-Within (roll wc now) now (roll-Within wc now v),
)

roll-rule : (wc : WindowCounter) (now : Time) → (roll wc now).rule ≡ wc.rule
unfolding roll
roll-rule wc now = ground arith

roll_kept : (wc : WindowCounter) (now : Time) → is_fixed (roll wc now) ≡ is_fixed wc
unfolding is_fixed
roll_kept wc now = rw (roll-rule wc now)

count-sliding-le :
    (wc : WindowCounter) (now : Time) → count_sliding_requests wc now ≤ length wc.requests
unfolding count_sliding_requests
count-sliding-le wc now = length-keep-le _ wc.requests

-- Counting below the limit leaves room.
counted-Ready :
    (wc : WindowCounter) (now : Time)
    → Within wc
    → le64 wc.rule.requests (count_requests wc now).1 ≡ false
    → Ready now (count_requests wc now).0
unfolding count_requests count_fixed_requests le64
counted-Ready wc now v h hn hr = elim (Bool-cases (is_fixed wc)) [
  | inl f ↦ ground (arith, roll-Within wc now v, roll-rule wc now, roll_kept wc now)
  | inr f ↦ ground (arith, v, count-sliding-le wc now)
]

check_tokens-rule : (wc : WindowCounter) (now : Time) → (check_tokens wc now).0.rule ≡ wc.rule
unfolding check_tokens count_tokens count_fixed_tokens
check_tokens-rule wc now = ground (arith, roll-rule wc now)

pub check_window-Ready :
    (wc : WindowCounter) (now : Time)
    → Within wc
    → (check_window wc now).1 ≡ none
    → Ready now (check_window wc now).0
unfolding check_window
check_window-Ready wc now v h = elim (Bool-cases (lt64 0 wc.rule.requests)) [
  | inl limited ↦ elim (Bool-cases (le64 wc.rule.requests (count_requests wc now).1)) [
    | inl full ↦ ground arith
    | inr room ↦
        ground
          (arith, check_tokens-Ready (count_requests wc now).0 now (counted-Ready wc now v room))
  ]
  | inr free ↦ ground (arith, check_tokens-rule wc now)
]

-- A slice with room for one more request, pruned, is still within the rule.
keep-push-le :
    (p : Time → Bool) (xs : List Time) (now : Time)
    → length (keep p (xs ++ now ∷ [])) ≤ length (keep p xs) + 1
keep-push-le p xs now =
    rw (keep-append p xs (now ∷ []))
      (omega (arith, length-append (keep p xs) (keep p (now ∷ [])), length-keep-le p (now ∷ [])))

pub record_request-Within :
    (wc : WindowCounter) (now : Time) → Within wc → Ready now wc → Within (record_request now wc)
unfolding record_request add_request count_sliding_requests add64
record_request-Within wc now v r =
    ground (arith, keep-push-le (λ t. after_cutoff t now wc.duration) wc.requests now)

pub charge_tokens-Within :
    (wc : WindowCounter) (now : Time) (n : Int64) → Within wc → Within (charge_tokens now n wc)
unfolding charge_tokens add_tokens
charge_tokens-Within wc now n v = ground (arith, roll-Within wc now v)

pub new_window-Within :
    (parse : String → Option ℤ) (r : RateLimitRule) → Within (new_window parse r)
unfolding new_window
new_window-Within parse r h = ground arith
