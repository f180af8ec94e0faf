-- ===== src/Ledger/Tokens.antt =====
-- The rollups by token, which leave out three of the counts.
use tokenomics.Base.{
  String, List, [], ◌∷◌, Option, none, some, if◌then◌else◌, ◌≡◌, refl, ap, ◌∙◌, keep, Bool-cases,
  inl, inr,
}
use tokenomics.Base.Eq.{string_eq, ◌==◌, ==_iff}
use tokenomics.Base.Dict.{Dict, lookup, or_default, lookup-insert}
use tokenomics.Base.Word.{add64}
use tokenomics.Ledger.{
  Times, RequestEntry, CommunicationEvent, UsageRollup, TokenRollup, SessionSummary, Ledger,
}
use tokenomics.Ledger.Summary.{
  empty_rollup, grow_token, add_request, add_requests, new_summary, build_summary, new_token_rollup,
}
use tokenomics.Ledger.Rollups.{usage_of, add_from, add_from-zero, of_token}

abbrev pub usage_or_empty : Option TokenRollup → UsageRollup
usage_or_empty none = empty_rollup
usage_or_empty (some tr) = tr.usage

-- The counts under a token hash, empty where there is none.
abbrev pub token_usage : String → Dict String TokenRollup → UsageRollup
token_usage k m = usage_or_empty (lookup k m)

module _ (times : Times) where
  open times use {Time}

  -- The four counts that the loop adds to a token's rollup.
  abbrev count_request : UsageRollup → RequestEntry Time → UsageRollup
  count_request u req = record u {
    request_count = add64 u.request_count 1;
    input_tokens = add64 u.input_tokens req.input_tokens;
    output_tokens = add64 u.output_tokens req.output_tokens;
    total_tokens = add64 u.total_tokens (add64 req.input_tokens req.output_tokens);
  }

  unfoldable counted : UsageRollup → List (RequestEntry Time) → UsageRollup
  counted u [] = u
  counted u (req ∷ reqs) = counted (count_request u req) reqs

  counted-add_from :
      (u : UsageRollup) (reqs : List (RequestEntry Time))
      → counted u reqs ≡ record u {
        request_count = add_from u.request_count (λ req. 1) reqs;
        input_tokens = add_from u.input_tokens (λ req. req.input_tokens) reqs;
        output_tokens = add_from u.output_tokens (λ req. req.output_tokens) reqs;
        total_tokens =
            add_from u.total_tokens (λ req. add64 req.input_tokens req.output_tokens) reqs;
      }
  unfolding counted add_from
  counted-add_from u [] = refl
  counted-add_from u (req ∷ reqs) = counted-add_from (count_request u req) reqs

  usage-or_default :
      (req : RequestEntry Time) (o : Option TokenRollup)
      → (grow_token times (or_default (new_token_rollup times req) o) req).usage
        ≡ count_request (usage_or_empty o) req
  unfolding grow_token
  usage-or_default req none = refl
  usage-or_default req (some tr) = refl

  token_usage-add_request :
      (s : SessionSummary Time) (req : RequestEntry Time) (k : String)
      → token_usage k (add_request times s req).by_token ≡ (
          if req.token_hash == k
          then count_request (token_usage k s.by_token) req
          else token_usage k s.by_token)
  unfolding add_request
  token_usage-add_request s req k =
      let tr =
        grow_token times
          (or_default (new_token_rollup times req) (lookup req.token_hash s.by_token)) req in
      elim (Bool-cases (req.token_hash == k)) [
        | inl e ↦
            rw (lookup-insert req.token_hash k tr s.by_token, e)
              (usage-or_default req (lookup req.token_hash s.by_token)
                ∙ ap (λ x. count_request (token_usage x s.by_token) req)
                    ((==_iff req.token_hash k).0 e))
        | inr e ↦ rw (lookup-insert req.token_hash k tr s.by_token, e) refl
      ]

  by_token-add_requests :
      (s : SessionSummary Time) (reqs : List (RequestEntry Time)) (k : String)
      → token_usage k (add_requests times s reqs).by_token
        ≡ counted (token_usage k s.by_token) (of_token times k reqs)
  unfolding add_requests counted keep
  by_token-add_requests s [] k = refl
  by_token-add_requests s (req ∷ reqs) k =
      let ih = by_token-add_requests (add_request times s req) reqs k in
      let step = token_usage-add_request s req k in
      elim (Bool-cases (req.token_hash == k)) [
        | inl e ↦ rw (ih, step, e) refl
        | inr e ↦ rw (ih, step, e) refl
      ]

  -- The rollup of a token holds the wrapped sums of the requests, the input, the output and the
  -- total over the requests with that token hash; its three counts from the provider's metadata
  -- stay zero, whatever the requests report.
  pub build_summary-by_token :
      (l : Ledger Time) (reqs : List (RequestEntry Time)) (evs : List (CommunicationEvent Time))
      (ended_at : Time) (k : String)
      → token_usage k (build_summary times l reqs evs ended_at).by_token
        ≡ record (usage_of (of_token times k reqs)) {
          cached_input_tokens = 0;
          cache_creation_tokens = 0;
          reasoning_tokens = 0;
        }
  unfolding build_summary new_summary lookup usage_of
  build_summary-by_token l reqs evs ended_at k =
      by_token-add_requests (new_summary times l reqs evs ended_at) reqs k
      ∙ counted-add_from empty_rollup (of_token times k reqs)
      ∙ simp (add_from-zero)
