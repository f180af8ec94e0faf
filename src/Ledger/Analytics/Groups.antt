-- ===== src/Ledger/Analytics/Groups.antt =====
-- What the analytics count under a value.
use tokenomics.Base.{
  String, Bool, false, List, [], ◌∷◌, ◌++◌, Option, none, some, Option-cases, Bool-cases, inl, inr,
  Result, ok, err, if◌then◌else◌, ◌≡◌, refl, sym, ap, ◌∙◌, arith, keep, keep-append,
}
use tokenomics.Base.Eq.{string_eq, ◌==◌, ==_iff}
use tokenomics.Base.Dict.{Dict, lookup, or_default, lookup-insert}
use tokenomics.Base.Word.{Int64, IsWord, add64, add64-zero, add64-IsWord}
use tokenomics.Ledger.{RequestEntry, SessionSummary, UsageRollup}
use tokenomics.Ledger.Summary.{empty_rollup, grow}
use tokenomics.Ledger.Rollups.{
  total_of, usage_of, grow_request, usage_after, usage_after-empty, add_from, add_from-zero,
}
use tokenomics.Ledger.Analytics.{
  SessionsDir, LoadError, MetricValue, new_metric, Metrics, begin_value, grow_metric, count_entry,
  count_valued, count_entries, count_sessions, metadata_value, team_and_channel, load_sessions,
  finish_metrics, finish_metric, grouped, by_metadata_key, by_team_and_channel,
}

-- The counts of a metric, errors last.
abbrev pub Counts : Type 0
Counts = UsageRollup × Int64

abbrev metric_counts : MetricValue → Counts
metric_counts m = (
  record {
    request_count = m.request_count;
    input_tokens = m.input_tokens;
    output_tokens = m.output_tokens;
    total_tokens = m.total_tokens;
    cached_input_tokens = m.cached_input_tokens;
    cache_creation_tokens = m.cache_creation_tokens;
    reasoning_tokens = m.reasoning_tokens;
  },
  m.error_count,
)

-- The counts under a value, zero where there is no metric.
abbrev pub counts_at : String → Dict String MetricValue → Counts
counts_at v ms = metric_counts (or_default (new_metric v) (lookup v ms))

begin_value-counts_at :
    (k v : String) (g : Metrics) → counts_at v (begin_value k g).metrics ≡ counts_at v g.metrics
unfolding begin_value
begin_value-counts_at k v g = elim (Option-cases (lookup k g.metrics)) [
  | inr (m, e) ↦ rw e refl
  | inl e ↦ elim (Bool-cases (k == v)) [
    | inr ne ↦ rw (e, lookup-insert k v (new_metric k) g.metrics, ne) refl
    | inl same ↦
        rw (e, lookup-insert k v (new_metric k) g.metrics, same)
          (ap (λ o. metric_counts (or_default (new_metric v) o))
            (sym (ap (λ x. lookup x g.metrics) (sym ((==_iff k v).0 same)) ∙ e)))
  ]
]

counts_at-finish_metrics :
    (sort : List String → List String) (g : Metrics) (v : String) (ms : Dict String MetricValue)
    → counts_at v (finish_metrics sort g ms) ≡ counts_at v ms
unfolding finish_metrics lookup finish_metric
counts_at-finish_metrics sort g v [] = refl
counts_at-finish_metrics sort g v ((k, m) ∷ ms) = elim (Bool-cases (k == v)) [
  | inl e ↦ rw e refl
  | inr e ↦ rw e (counts_at-finish_metrics sort g v ms)
]

abbrev pub is_at : String → Option String → Bool
is_at v none = false
is_at v (some k) = k == v

module _ {T : Type 0} where
  abbrev grow_counts : Counts → RequestEntry T → Counts
  grow_counts (u, e) req = (grow_request u req, if req.error == "" then e else add64 e 1)

  count_entry-counts_at :
      (sid k v : String) (req : RequestEntry T) (g : Metrics)
      → counts_at v (count_entry sid k req g).metrics
        ≡ (if k == v then grow_counts (counts_at v g.metrics) req else counts_at v g.metrics)
  unfolding count_entry grow_metric grow
  count_entry-counts_at sid k v req g =
      let old = or_default (new_metric k) (lookup k (begin_value k g).metrics) in
      let inserted = lookup-insert k v (grow_metric old req) (begin_value k g).metrics in
      elim (Bool-cases (k == v)) [
        | inr ne ↦ rw (inserted, ne) (begin_value-counts_at k v g)
        | inl same ↦
            rw (inserted, same)
              (ap (λ c. grow_counts c req)
                (begin_value-counts_at k k g
                  ∙ ap (λ x. counts_at x g.metrics) ((==_iff k v).0 same)))
      ]

  abbrev counts_after : Counts → List (RequestEntry T) → Counts
  counts_after c [] = c
  counts_after c (req ∷ reqs) = counts_after (grow_counts c req) reqs

  -- The requests that have the value.
  abbrev pub requests_at :
      (RequestEntry T → Option String) → String → List (RequestEntry T) → List (RequestEntry T)
  requests_at value_of v reqs = keep (λ req. is_at v (value_of req)) reqs

  count_valued-counts_at :
      (o : Option String) (sid v : String) (req : RequestEntry T) (g : Metrics)
      → counts_at v (count_valued sid o req g).metrics
        ≡ (if is_at v o then grow_counts (counts_at v g.metrics) req else counts_at v g.metrics)
  count_valued-counts_at none sid v req g = refl
  count_valued-counts_at (some k) sid v req g = count_entry-counts_at sid k v req g

  count_entries-counts_at :
      (value_of : RequestEntry T → Option String) (sid v : String) (reqs : List (RequestEntry T))
      (g : Metrics)
      → counts_at v (count_entries value_of sid reqs g).metrics
        ≡ counts_after (counts_at v g.metrics) (requests_at value_of v reqs)
  unfolding count_entries keep
  count_entries-counts_at value_of sid v [] g = refl
  count_entries-counts_at value_of sid v (req ∷ reqs) g =
      let g' = count_valued sid (value_of req) req g in
      let ih = count_entries-counts_at value_of sid v reqs g' in
      let first = count_valued-counts_at (value_of req) sid v req g in
      ih
      ∙ ap (λ c. counts_after c (requests_at value_of v reqs)) first
      ∙ elim (Bool-cases (is_at v (value_of req))) [ inl e ↦ rw e refl | inr e ↦ rw e refl ]

  abbrev pub requests_of : List (SessionSummary T) → List (RequestEntry T)
  requests_of [] = []
  requests_of (s ∷ ss) = s.requests ++ requests_of ss

  counts_after-append :
      (c : Counts) (xs ys : List (RequestEntry T))
      → counts_after c (xs ++ ys) ≡ counts_after (counts_after c xs) ys
  counts_after-append c [] ys = refl
  counts_after-append c (x ∷ xs) ys = counts_after-append (grow_counts c x) xs ys

  count_sessions-counts_at :
      (value_of : RequestEntry T → Option String) (v : String) (ss : List (SessionSummary T))
      (g : Metrics)
      → counts_at v (count_sessions value_of ss g).metrics
        ≡ counts_after (counts_at v g.metrics) (requests_at value_of v (requests_of ss))
  unfolding count_sessions keep
  count_sessions-counts_at value_of v [] g = refl
  count_sessions-counts_at value_of v (s ∷ ss) g =
      let g' = count_entries value_of s.session_id s.requests g in
      let here = requests_at value_of v s.requests in
      let others = requests_at value_of v (requests_of ss) in
      let c = counts_at v g.metrics in
      count_sessions-counts_at value_of v ss g'
      ∙ ap (λ x. counts_after x others)
          (count_entries-counts_at value_of s.session_id v s.requests g)
      ∙ sym (counts_after-append c here others)
      ∙ ap (counts_after c)
          (sym (keep-append (λ req. is_at v (value_of req)) s.requests (requests_of ss)))

  abbrev pub error_of : RequestEntry T → Int64
  error_of req = if req.error == "" then 0 else 1

  counts_after-add_from :
      (u : UsageRollup) (e : Int64) (reqs : List (RequestEntry T))
      → IsWord e
      → counts_after (u, e) reqs ≡ (usage_after u reqs, add_from e error_of reqs)
  unfolding usage_after add_from
  counts_after-add_from u e [] h = refl
  counts_after-add_from u e (req ∷ reqs) h = elim (Bool-cases (req.error == "")) [
    | inl ok_ ↦ rw (ok_, add64-zero e h) (counts_after-add_from (grow_request u req) e reqs h)
    | inr bad ↦
        rw bad (counts_after-add_from (grow_request u req) (add64 e 1) reqs (add64-IsWord e 1))
  ]

  -- The counts of the requests, each by itself.
  abbrev pub counted : List (RequestEntry T) → Counts
  counted reqs = (usage_of reqs, total_of error_of reqs)

  counts_after-zero :
      (reqs : List (RequestEntry T)) → counts_after (empty_rollup, 0) reqs ≡ counted reqs
  counts_after-zero reqs =
      counts_after-add_from empty_rollup 0 reqs (omega arith)
      ∙ cc (usage_after-empty reqs, add_from-zero error_of reqs)

  grouped-counted :
      (sort : List String → List String) (value_of : RequestEntry T → Option String) (v : String)
      (ss : List (SessionSummary T))
      → counts_at v (grouped sort value_of ss) ≡ counted (requests_at value_of v (requests_of ss))
  unfolding grouped lookup
  grouped-counted sort value_of v ss =
      let start : Metrics = record { metrics = []; seen_sessions = []; models_per_value = [] } in
      let g = count_sessions value_of ss start in
      counts_at-finish_metrics sort g v g.metrics
      ∙ count_sessions-counts_at value_of v ss start
      ∙ counts_after-zero (requests_at value_of v (requests_of ss))

  -- The metrics have for the value the counts of the requests with it.
  abbrev pub IsCounted :
      (RequestEntry T → Option String)
      → String
      → List (SessionSummary T)
      → Result LoadError (Dict String MetricValue)
      → Type 0
  IsCounted value_of v ss (err e) = ⊥
  IsCounted value_of v ss (ok ms) =
      counts_at v ms ≡ counted (requests_at value_of v (requests_of ss))

  -- Where the sessions can be loaded, both succeed. The counts that `ByMetadataKey` then has for a value are those of
  -- all the requests, of any session, whose metadata have the value under the key, and those that `ByTeamAndChannel`
  -- has are those of the requests whose team and channel, joined, are it: zero where no request has it.
  pub by_metadata_key-IsCounted :
      (sort : List String → List String) (dir : SessionsDir T) (key v : String)
      (ss : List (SessionSummary T))
      → load_sessions dir ≡ ok ss
      → IsCounted (metadata_value key) v ss (by_metadata_key sort key dir)
        × IsCounted team_and_channel v ss (by_team_and_channel sort dir)
  unfolding by_metadata_key by_team_and_channel
  by_metadata_key-IsCounted sort dir key v ss loaded =
      rw loaded
        (grouped-counted sort (metadata_value key) v ss, grouped-counted sort team_and_channel v ss)
