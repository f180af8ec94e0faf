-- ===== src/Stats/Totals.antt =====
-- What `Record` adds to the totals of `StatsHandler`.
use tokenomics.Base.{
  String, Bool, [], ◌∷◌, Option, none, some, ◌≡◌, refl, ap, ◌∙◌, sym, arith, Bool-cases, inl, inr,
}
use tokenomics.Base.Eq.{◌==◌}
use tokenomics.Base.Dict.{Dict, lookup, insert, or_default}
use tokenomics.Base.Word.{Int64, add64, add64_assoc}
use tokenomics.Stats.{
  StatsKey, stats_key_eq, UsageEntry, UsageStats, new_entry, grow_entry, record_usage, sum_entries,
  stats_totals,
}

-- The count under a key, zero where there is none.
abbrev old_count : (UsageEntry → Int64) → Option UsageEntry → Int64
old_count f none = 0
old_count f (some e) = f e

sum_entries_add :
    (f : UsageEntry → Int64) (n c : Int64) (m : Dict StatsKey UsageEntry)
    → sum_entries f (add64 n c) m ≡ add64 (sum_entries f n m) c
unfolding sum_entries
sum_entries_add f n c [] = refl
sum_entries_add f n c ((k, e) ∷ m) =
    let swap : add64 (add64 n c) (f e) ≡ add64 (add64 n (f e)) c = unfold add64 in omega arith in
    ap (λ x. sum_entries f x m) swap ∙ sum_entries_add f (add64 n (f e)) c m

sum_entries-insert :
    (f : UsageEntry → Int64) (n c : Int64) (k : StatsKey) (e : UsageEntry)
    (m : Dict StatsKey UsageEntry)
    → f e ≡ add64 (old_count f (lookup k m)) c
    → sum_entries f n (insert k e m) ≡ add64 (sum_entries f n m) c
unfolding sum_entries insert lookup
sum_entries-insert f n c k e [] h = unfold add64 in omega (arith, h)
sum_entries-insert f n c k e ((j, old) ∷ m) h = elim (Bool-cases (j == k)) [
  | inl here ↦
      let h' : f e ≡ add64 (f old) c = rw here at h in
      let path = ap (add64 n) h' ∙ sym (add64_assoc n (f old) c) in
      rw here (ap (λ x. sum_entries f x m) path ∙ sum_entries_add f (add64 n (f old)) c m)
  | inr there ↦
      let h' : f e ≡ add64 (old_count f (lookup k m)) c = rw there at h in
      rw there (sum_entries-insert f (add64 n (f old)) c k e m h')
]

module _ {T : Type 0} (u : UsageStats T) (token_hash model base_key_env : String)
    (input output : Int64) (is_error : Bool) (now : T) where
  abbrev key : StatsKey
  key = record { model = model; base_key_env = base_key_env }

  abbrev grown : Option UsageEntry → UsageEntry
  grown o = grow_entry input output is_error (or_default (new_entry model base_key_env) o)

  grown_lem :
      (o : Option UsageEntry)
      → ((grown o).request_count ≡ add64 (old_count (λ e. e.request_count) o) 1)
        × ((grown o).input_tokens ≡ add64 (old_count (λ e. e.input_tokens) o) input)
        × ((grown o).output_tokens ≡ add64 (old_count (λ e. e.output_tokens) o) output)
        × ((grown o).total_tokens ≡ add64 (old_count (λ e. e.total_tokens) o) (add64 input output))
  unfolding grow_entry
  grown_lem none = (refl, refl, refl, refl)
  grown_lem (some e) = (refl, refl, refl, refl)

  -- Whatever was recorded before, and under whichever model, key and token, `Record` raises the
  -- totals of `StatsHandler` by one request, by its input tokens, by its output tokens and by the sum
  -- of the two, as int64 adds.
  record_usage-stats_totals :
      (let u' = record_usage u token_hash model base_key_env input output is_error now in
        ((stats_totals u').request_count ≡ add64 (stats_totals u).request_count 1)
        × ((stats_totals u').input_tokens ≡ add64 (stats_totals u).input_tokens input)
        × ((stats_totals u').output_tokens ≡ add64 (stats_totals u).output_tokens output)
        × ((stats_totals u').total_tokens
            ≡ add64 (stats_totals u).total_tokens (add64 input output)))
  unfolding record_usage stats_totals
  record_usage-stats_totals =
      let o = lookup key u.entries in
      let (h1, h2, h3, h4) = grown_lem o in
      (
        sum_entries-insert (λ e. e.request_count) 0 1 key (grown o) u.entries h1,
        sum_entries-insert (λ e. e.input_tokens) 0 input key (grown o) u.entries h2,
        sum_entries-insert (λ e. e.output_tokens) 0 output key (grown o) u.entries h3,
        sum_entries-insert (λ e. e.total_tokens) 0 (add64 input output) key (grown o) u.entries h4,
      )
