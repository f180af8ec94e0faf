-- ===== src/Ledger/Rollups.antt =====
-- Each rollup of a session's summary is the sum over the requests of its key.
use tokenomics.Base.{
  String, false, List, [], ◌∷◌, if◌then◌else◌, ◌≡◌, refl, ap, sym, ◌∙◌, arith, keep, Bool-cases,
  inl, inr,
}
use tokenomics.Base.Eq.{string_eq, ◌==◌, ==_iff}
use tokenomics.Base.Dict.{Dict, lookup, or_default, lookup-insert}
use tokenomics.Base.Word.{Int64, add64, add64_assoc, add64_comm, add64-zero, add64-IsWord, IsWord}
use tokenomics.Ledger.{Times, RequestEntry, CommunicationEvent, UsageRollup, SessionSummary, Ledger}
use tokenomics.Ledger.Summary.{
  empty_rollup, grow, add_to_rollup, meta_field, add_to_totals, add_request, add_requests,
  new_summary, build_summary,
}

module _ {T : Type 0} where
  -- The wrapped sum of a count over the requests.
  unfoldable pub total_of : (RequestEntry T → Int64) → List (RequestEntry T) → Int64
  total_of f [] = 0
  total_of f (req ∷ reqs) = add64 (f req) (total_of f reqs)

  -- The rollup of the requests, each count by itself.
  unfoldable pub usage_of : List (RequestEntry T) → UsageRollup
  usage_of reqs = record {
    request_count = total_of (λ req. 1) reqs;
    input_tokens = total_of (λ req. req.input_tokens) reqs;
    output_tokens = total_of (λ req. req.output_tokens) reqs;
    total_tokens = total_of (λ req. add64 req.input_tokens req.output_tokens) reqs;
    cached_input_tokens =
        total_of (λ req. meta_field (λ pm. pm.cached_input_tokens) req.provider_meta) reqs;
    cache_creation_tokens =
        total_of (λ req. meta_field (λ pm. pm.cache_creation_tokens) req.provider_meta) reqs;
    reasoning_tokens =
        total_of (λ req. meta_field (λ pm. pm.reasoning_tokens) req.provider_meta) reqs;
  }

  abbrev pub grow_request : UsageRollup → RequestEntry T → UsageRollup
  grow_request u req =
      grow u req.input_tokens req.output_tokens
        (meta_field (λ pm. pm.cached_input_tokens) req.provider_meta)
        (meta_field (λ pm. pm.cache_creation_tokens) req.provider_meta)
        (meta_field (λ pm. pm.reasoning_tokens) req.provider_meta)

  -- The same, as the code goes: on top of a rollup, from the first request on.
  unfoldable pub usage_after : UsageRollup → List (RequestEntry T) → UsageRollup
  usage_after u [] = u
  usage_after u (req ∷ reqs) = usage_after (grow_request u req) reqs

  unfoldable pub add_from : Int64 → (RequestEntry T → Int64) → List (RequestEntry T) → Int64
  add_from n f [] = n
  add_from n f (req ∷ reqs) = add_from (add64 n (f req)) f reqs

  add_from-total_of :
      (n : Int64) (f : RequestEntry T → Int64) (reqs : List (RequestEntry T))
      → IsWord n
      → add_from n f reqs ≡ add64 n (total_of f reqs)
  unfolding add_from total_of
  add_from-total_of n f [] h = sym (add64-zero n h)
  add_from-total_of n f (req ∷ reqs) h =
      add_from-total_of (add64 n (f req)) f reqs (add64-IsWord n (f req))
      ∙ add64_assoc n (f req) (total_of f reqs)

  total_of-IsWord :
      (f : RequestEntry T → Int64) (reqs : List (RequestEntry T)) → IsWord (total_of f reqs)
  unfolding total_of
  total_of-IsWord f [] = omega arith
  total_of-IsWord f (req ∷ reqs) = add64-IsWord (f req) (total_of f reqs)

  pub add_from-zero :
      (f : RequestEntry T → Int64) (reqs : List (RequestEntry T))
      → add_from 0 f reqs ≡ total_of f reqs
  add_from-zero f reqs =
      add_from-total_of 0 f reqs (omega arith)
      ∙ add64_comm 0 (total_of f reqs)
      ∙ add64-zero (total_of f reqs) (total_of-IsWord f reqs)

  usage_after-add_from :
      (u : UsageRollup) (reqs : List (RequestEntry T))
      → usage_after u reqs ≡ record {
        request_count = add_from u.request_count (λ req. 1) reqs;
        input_tokens = add_from u.input_tokens (λ req. req.input_tokens) reqs;
        output_tokens = add_from u.output_tokens (λ req. req.output_tokens) reqs;
        total_tokens =
            add_from u.total_tokens (λ req. add64 req.input_tokens req.output_tokens) reqs;
        cached_input_tokens =
            add_from u.cached_input_tokens
              (λ req. meta_field (λ pm. pm.cached_input_tokens) req.provider_meta)
              reqs;
        cache_creation_tokens =
            add_from u.cache_creation_tokens
              (λ req. meta_field (λ pm. pm.cache_creation_tokens) req.provider_meta)
              reqs;
        reasoning_tokens =
            add_from u.reasoning_tokens
              (λ req. meta_field (λ pm. pm.reasoning_tokens) req.provider_meta)
              reqs;
      }
  unfolding usage_after add_from grow
  usage_after-add_from u [] = refl
  usage_after-add_from u (req ∷ reqs) = usage_after-add_from (grow_request u req) reqs

  pub usage_after-empty :
      (reqs : List (RequestEntry T)) → usage_after empty_rollup reqs ≡ usage_of reqs
  unfolding usage_of
  usage_after-empty reqs = simp (usage_after-add_from empty_rollup reqs, add_from-zero)

-- The rollup under a key, empty where there is none.
abbrev pub rollup : String → Dict String UsageRollup → UsageRollup
rollup k m = or_default empty_rollup (lookup k m)

rollup-add_to_rollup :
    (m : Dict String UsageRollup) (k j : String) (i o c w r : Int64)
    → rollup j (add_to_rollup m k i o c w r)
      ≡ (if k == j then grow (rollup j m) i o c w r else rollup j m)
unfolding add_to_rollup
rollup-add_to_rollup m k j i o c w r =
    let u = grow (rollup k m) i o c w r in
    elim (Bool-cases (k == j)) [
      | inl e ↦
          rw (lookup-insert k j u m, e) (ap (λ x. grow (rollup x m) i o c w r) ((==_iff k j).0 e))
      | inr e ↦ rw (lookup-insert k j u m, e) refl
    ]

module _ (times : Times) where
  open times use {Time}

  abbrev pub of_model : String → List (RequestEntry Time) → List (RequestEntry Time)
  of_model k reqs = keep (λ req. req.model == k) reqs

  abbrev pub of_provider : String → List (RequestEntry Time) → List (RequestEntry Time)
  of_provider k reqs = keep (λ req. req.provider == k) reqs

  abbrev pub of_token : String → List (RequestEntry Time) → List (RequestEntry Time)
  of_token k reqs = keep (λ req. req.token_hash == k) reqs

  by_model-add_requests :
      (s : SessionSummary Time) (reqs : List (RequestEntry Time)) (k : String)
      → rollup k (add_requests times s reqs).by_model
        ≡ usage_after (rollup k s.by_model) (of_model k reqs)
  unfolding add_requests add_request usage_after keep
  by_model-add_requests s [] k = refl
  by_model-add_requests s (req ∷ reqs) k =
      let step =
        rollup-add_to_rollup s.by_model req.model k req.input_tokens req.output_tokens
          (meta_field (λ pm. pm.cached_input_tokens) req.provider_meta)
          (meta_field (λ pm. pm.cache_creation_tokens) req.provider_meta)
          (meta_field (λ pm. pm.reasoning_tokens) req.provider_meta) in
      let ih = by_model-add_requests (add_request times s req) reqs k in
      elim (Bool-cases (req.model == k)) [
        | inl e ↦ rw (ih, step, e) refl
        | inr e ↦ rw (ih, step, e) refl
      ]

  by_provider-add_requests :
      (s : SessionSummary Time) (reqs : List (RequestEntry Time)) (k : String)
      → (k == "") ≡ false
      → rollup k (add_requests times s reqs).by_provider
        ≡ usage_after (rollup k s.by_provider) (of_provider k reqs)
  unfolding add_requests add_request usage_after keep
  by_provider-add_requests s [] k h = refl
  by_provider-add_requests s (req ∷ reqs) k h =
      let step =
        rollup-add_to_rollup s.by_provider req.provider k req.input_tokens req.output_tokens
          (meta_field (λ pm. pm.cached_input_tokens) req.provider_meta)
          (meta_field (λ pm. pm.cache_creation_tokens) req.provider_meta)
          (meta_field (λ pm. pm.reasoning_tokens) req.provider_meta) in
      let ih = by_provider-add_requests (add_request times s req) reqs k h in
      elim (Bool-cases (req.provider == "")) [
        | inl empty ↦
            let e : (req.provider == k) ≡ false =
              ground (arith, ==_iff req.provider k, ==_iff req.provider "", ==_iff k "") in
            rw (ih, empty, e) refl
        | inr named ↦ elim (Bool-cases (req.provider == k)) [
          | inl e ↦ rw (ih, named, step, e) refl
          | inr e ↦ rw (ih, named, step, e) refl
        ]
      ]

  usage-add_requests :
      (s : SessionSummary Time) (reqs : List (RequestEntry Time))
      → (add_requests times s reqs).totals.usage ≡ usage_after s.totals.usage reqs
  unfolding add_requests add_request add_to_totals usage_after
  usage-add_requests s [] = refl
  usage-add_requests s (req ∷ reqs) = usage-add_requests (add_request times s req) reqs

  -- The totals of a session's summary are the wrapped sums over all its requests.
  build_summary-totals :
      (l : Ledger Time) (reqs : List (RequestEntry Time)) (evs : List (CommunicationEvent Time))
      (ended_at : Time)
      → (build_summary times l reqs evs ended_at).totals.usage ≡ usage_of reqs
  unfolding build_summary new_summary
  build_summary-totals l reqs evs ended_at =
      usage-add_requests (new_summary times l reqs evs ended_at) reqs ∙ usage_after-empty reqs

  -- The rollup of a model holds the wrapped sums over the requests for that model, and is empty
  -- where no request named it.
  build_summary-by_model :
      (l : Ledger Time) (reqs : List (RequestEntry Time)) (evs : List (CommunicationEvent Time))
      (ended_at : Time) (k : String)
      → rollup k (build_summary times l reqs evs ended_at).by_model ≡ usage_of (of_model k reqs)
  unfolding build_summary new_summary lookup
  build_summary-by_model l reqs evs ended_at k =
      by_model-add_requests (new_summary times l reqs evs ended_at) reqs k
      ∙ usage_after-empty (of_model k reqs)

  -- The rollup of a provider with a name holds the wrapped sums over the requests to that provider.
  build_summary-by_provider :
      (l : Ledger Time) (reqs : List (RequestEntry Time)) (evs : List (CommunicationEvent Time))
      (ended_at : Time) (k : String)
      → (k == "") ≡ false
      → rollup k (build_summary times l reqs evs ended_at).by_provider
        ≡ usage_of (of_provider k reqs)
  unfolding build_summary new_summary lookup
  build_summary-by_provider l reqs evs ended_at k h =
      by_provider-add_requests (new_summary times l reqs evs ended_at) reqs k h
      ∙ usage_after-empty (of_provider k reqs)
