-- ===== src/RateLimit/Clock.antt =====
-- The parts of Go's package `time` that ratelimit.go computes with. An instant is its nanoseconds since
-- the zero time; a duration is an int64 of nanoseconds, so `Sub` saturates and negation wraps once.
use tokenomics.Base.{ℕ, suc, ◌+◌, ◌-◌, ◌^◌, ◌≤◌, ◌≡◌, Bool, arith, ltb, nat_beq, if◌then◌else◌, leb}
use tokenomics.Base.Int.{ℤ, pos, negsuc, pos_part, neg_part, sub_ℕ, ltb_ℤ}

abbrev pub Time : Type 0
Time = ℕ

abbrev pub is_zero : Time → Bool
is_zero t = nat_beq t 0

abbrev pub max_duration : ℕ
max_duration = 2 ^ 63 - 1

abbrev pub saturate : ℕ → ℕ
saturate n = if ltb max_duration n then max_duration else n

-- `a.Sub(b)`
unfoldable pub sub_time : Time → Time → ℤ
sub_time a b = elim (sub_ℕ a b) [ pos n ↦ pos (saturate n) | negsuc n ↦ negsuc (saturate n) ]

-- `-d`
unfoldable pub neg_duration : ℤ → ℤ
neg_duration (pos n) = sub_ℕ 0 n
neg_duration (negsuc n) = if nat_beq n max_duration then negsuc n else pos (suc n)

-- `now.Add(d)`
unfoldable pub add_time : Time → ℤ → ℤ
add_time now d = sub_ℕ (now + pos_part d) (neg_part d)

-- `t.After(now.Add(-d))`
unfoldable pub after_cutoff : Time → Time → ℤ → Bool
unfolding add_time neg_duration
after_cutoff t now d = ltb_ℤ (add_time now (neg_duration d)) (pos t)

abbrev pub second : ℕ
second = 1_000_000_000

abbrev pub minute : ℕ
minute = 60_000_000_000

abbrev pub hour : ℕ
hour = 3_600_000_000_000

-- For a duration that is not negative: `t` is less than `w` old at `now`.
pub after_cutoff_pos : (t now w : ℕ) → after_cutoff t now (pos w) ≡ ltb now (t + w)
unfolding after_cutoff
after_cutoff_pos t now w = ground arith

pub sub_time_pos :
    (a b : Time) (w : ℕ)
    → b ≤ a
    → w ≤ max_duration
    → leb w (pos_part (sub_time a b)) ≡ leb (b + w) a
unfolding sub_time
sub_time_pos a b w h hw = ground arith
