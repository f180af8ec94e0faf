-- ===== src/RateLimit/History.antt =====
-- Runs of one sliding window: the code, which forgets, against the reference, which does not.
use tokenomics.Base.{
  ℕ, ◌≤◌, ◌<◌, ◌≡◌, refl, List, [], ◌∷◌, ◌++◌, Option, arith, String, length, keep, leb,
  keep-append, length-append, Bool-cases, inl, inr, true, false, if◌then◌else◌, ap,
}
use mathlib.Core.List.{append_assoc, append-nil}
use tokenomics.Base.Int.{ℤ, pos}
use tokenomics.RateLimit.Clock.{Time}
use tokenomics.RateLimit.Window.{RateLimitRule, new_window, parse_window}
use tokenomics.RateLimit.Sliding.{
  IsSliding, IsSparse, Runs, Tracks, Tracks-append, fresh, span-append, window_of, serve-window_of,
  admitted, admitted_by_history, length-keep-fresh_mono, serve,
}

module _ (rule : RateLimitRule) (w : ℕ) (ok_rule : IsSliding rule) where
  -- The slice stands for the history, which is within the rule.
  record Simulates (last : Time) (kept history : List Time) : Type 0 where
    tracks : Tracks w last kept history
    room : length (keep (fresh w last) history) ≤ rule.requests
    sparse : IsSparse w rule.requests history

  refused :
      (last now : Time) (kept history : List Time)
      → last ≤ now
      → Simulates last kept history
      → Simulates now kept history
  refused last now kept history h v = record {
    tracks = λ later le. v.tracks later (omega arith);
    room = omega (arith, v.room, length-keep-fresh_mono w last now history);
    sparse = v.sparse;
  }

  taken :
      (last now : Time) (kept history : List Time)
      → last ≤ now
      → length (keep (fresh w now) history) < rule.requests
      → Simulates last kept history
      → Simulates now (keep (fresh w now) (kept ++ now ∷ [])) (history ++ now ∷ [])
  unfolding keep
  taken last now kept history h lt v = record {
    tracks = Tracks-append w last now kept history h v.tracks;
    room = rw (keep-append (fresh w now) history (now ∷ [])) (
        ground (
          arith,
          length-append (keep (fresh w now) history) (now ∷ []),
          length-append (keep (fresh w now) history) [],
        ));
    sparse = span-append w rule.requests now history lt v.sparse;
  }

  serve_lem :
      (last now : Time) (kept history : List Time)
      → last ≤ now
      → Simulates last kept history
      → serve (window_of rule w kept) now ≡ (
          if leb rule.requests (length (keep (fresh w now) history))
          then (window_of rule w kept, false)
          else (window_of rule w (keep (fresh w now) (kept ++ now ∷ [])), true))
  serve_lem last now kept history h v = rw (← v.tracks now h) (
      serve-window_of rule w ok_rule kept now
        (rw (v.tracks now h) (omega (arith, v.room, length-keep-fresh_mono w last now history))))

  admitted_from :
      (last : Time) (kept history times : List Time)
      → Runs last times
      → Simulates last kept history
      → (admitted (window_of rule w kept) times ≡ admitted_by_history w rule.requests history times)
        × IsSparse w rule.requests (history ++ admitted (window_of rule w kept) times)
  unfolding admitted admitted_by_history
  admitted_from last kept history [] r v = (refl, rw append-nil v.sparse)
  admitted_from last kept history (now ∷ later) r v =
      elim (Bool-cases (leb rule.requests (length (keep (fresh w now) history)))) [
        | inl full ↦
            rw (serve_lem last now kept history r.0 v, full)
              (admitted_from now kept history later r.1 (refused last now kept history r.0 v))
        | inr some_room ↦
            let next =
              admitted_from now (keep (fresh w now) (kept ++ now ∷ [])) (history ++ now ∷ []) later
                r.1 (taken last now kept history r.0 (ground arith) v) in
            rw (serve_lem last now kept history r.0 v, some_room)
              (ap (λ xs. now ∷ xs) next.0, rw append_assoc at next.1)
      ]

  start : Simulates 0 [] []
  unfolding keep
  start = record { tracks = λ now h. refl; room = omega arith; sparse = λ t'. omega arith }

module _ (parse_duration : String → Option ℤ) (rule : RateLimitRule) (w : ℕ)
    (ok_rule : IsSliding rule) (parsed : parse_window parse_duration rule.window ≡ pos w)
    (times : List Time) (runs : Runs 0 times) where
  fresh_window : new_window parse_duration rule ≡ window_of rule w []
  unfolding new_window
  fresh_window = rw parsed

  -- A sliding window that limits requests and not tokens, asked at times that never go back, admits
  -- exactly the requests that find fewer than the limit admitted within the window before them.
  pub admitted-by_history :
      admitted (new_window parse_duration rule) times ≡ admitted_by_history w rule.requests [] times
  admitted-by_history =
      rw fresh_window (admitted_from rule w ok_rule 0 [] [] times runs (start rule w ok_rule)).0

  -- A sliding window that limits requests and not tokens, asked at times that never go back, never
  -- admits more requests than its limit within any span of the window's length.
  pub admitted-IsSparse : IsSparse w rule.requests (admitted (new_window parse_duration rule) times)
  admitted-IsSparse =
      rw fresh_window (admitted_from rule w ok_rule 0 [] [] times runs (start rule w ok_rule)).1
