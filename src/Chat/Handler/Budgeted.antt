-- ===== src/Chat/Handler/Budgeted.antt =====
-- What a chat request leaves on its token's budget.
use tokenomics.Base.{
  String, Bool, true, false, ◌≡◌, ◌≢◌, refl, List, Option, none, some, Bool-cases, inl, inr, ◌⊎◌,
  if◌then◌else◌, arith, ap,
}
use tokenomics.Base.Eq.{string_eq, ◌==◌, ==_refl, ==_iff}
use tokenomics.Base.Word.{Int64, IsWord, neg64, lt64, le64, add64-neg64, add64-IsWord}
use tokenomics.Base.Json.{Object, bool_at}
use tokenomics.Session.Store.{SessionStore, Laws}
use tokenomics.Budget.{BudgetError, reserve_input_budget, release_reserved_input_budget}
use tokenomics.Chat.{Response}
use tokenomics.Chat.Retry.{Attempts, Outcome, refused, answered, send}
use tokenomics.Chat.Tokens.{Tokenizer, plus, count_messages, count_each}
use tokenomics.Chat.Proxy.{Deps, Proxy, Context, RequestLog, emit, count_stats, fail}
use tokenomics.Chat.Answer.{serve_last, serve_failure, finish}
use tokenomics.Chat.Handler.{
  Served, settle_input, serve_attempts, on_reserved, serve_budget, reject, plan_of, outgoing_body,
  count_or_zero,
}

plus-IsWord : (a b : Option Int64) → IsWord (count_or_zero (plus a b))
plus-IsWord none b = omega arith
plus-IsWord (some a) none = omega arith
plus-IsWord (some a) (some b) = add64-IsWord a b

count_messages-IsWord :
    (tk : Tokenizer) {F : Type 0} (model : String) (messages : List (Object F))
    → IsWord (count_or_zero (count_messages tk model messages))
unfolding count_messages
count_messages-IsWord tk model messages = plus-IsWord (count_each tk model messages) (some 3)

-- What is reserved and released again leaves every token's usage as it was.
module _ (st : SessionStore) (laws : Laws st) where
  open laws use {usage}

  -- What is added and taken away again is no change, at any token.
  add-add_neg :
      (s : st.State) (k j : String) (n : Int64)
      → IsWord n
      → IsWord (usage s k)
      → usage (st.add_usage (st.add_usage s k n).0 k (neg64 n)).0 j ≡ usage s j
  add-add_neg s k j n hn hw = elim (Bool-cases (k == j)) [
    | inl e ↦
        rw
          (
            laws.add_state (st.add_usage s k n).0 k j (neg64 n),
            e,
            laws.add_state s k k n,
            ==_refl k,
            add64-neg64 (usage s k) n hw hn,
          )
          (ap (usage s) ((==_iff k j).0 e))
    | inr e ↦
        rw (laws.add_state (st.add_usage s k n).0 k j (neg64 n), e, laws.add_state s k j n, e) refl
  ]

  release-reserve :
      (s : st.State) (k j : String) (n max : Int64)
      → IsWord n
      → IsWord (usage s k)
      → (reserve_input_budget st s k n max).2 ≡ none
      → usage
          (if lt64 0 n
            then release_reserved_input_budget st (reserve_input_budget st s k n max).0 k n
            else (reserve_input_budget st s k n max).0)
          j
        ≡ usage s j
  unfolding reserve_input_budget release_reserved_input_budget le64 lt64
  release-reserve s k j n max hn hw h =
      ground (arith, laws.get_lem s k, laws.add_result s k n, add-add_neg s k j n hn hw)

  reserve-refused :
      (s : st.State) (k j : String) (n max : Int64)
      → (reserve_input_budget st s k n max).2 ≢ none
      → usage (reserve_input_budget st s k n max).0 j ≡ usage s j
  unfolding reserve_input_budget
  reserve-refused s k j n max h = ground (arith, laws.get_lem s k, laws.add_result s k n)

module _ (d : Deps) (laws : Laws d.st) (c : Context d) where
  open laws use {usage}

  -- The loop's end without a response to pass on keeps nothing.
  finish-unanswered :
      (input : Int64) (log : RequestLog) (p : Proxy d)
      (r : Attempts d.World d.os.Url × Option Outcome)
      → ((m : String) (resp : Response) → r.1 ≢ some (answered m resp))
      → ((finish d c input log p r).1 ≡ false)
        × ((finish d c input log p r).0.0.sessions ≡ p.sessions)
  unfolding serve_failure fail count_stats
  finish-unanswered input log p (a, some (refused e)) h = (refl, refl)
  finish-unanswered input log p (a, some (answered m resp)) h = absurd (h m resp refl)
  finish-unanswered input log p (a, none) h = (refl, last a.last_response)
    where
      last :
          (o : Option Response)
          → (serve_last d o a.retry_count
              (count_stats d c c.model input 0 true (record p { world = a.world }))
              (record log { retry_count = a.retry_count })).0.sessions
            ≡ p.sessions
      last none = refl
      last (some resp) = refl

  settled :
      (reserved : Int64) (r : Served d × Bool) (s : d.st.State)
      → r.1 ≡ false
      → r.0.0.sessions ≡ s
      → (settle_input d c reserved r).0.sessions ≡ (
          if lt64 0 reserved then release_reserved_input_budget d.st s c.token_hash reserved else s)
  unfolding settle_input
  settled reserved r s e f = elim (Bool-cases (lt64 0 reserved)) [
    | inl g ↦ rw (e, f, g) refl
    | inr g ↦ rw (e, f, g) refl
  ]

  -- The result of the loops that the request would run.
  abbrev pub sent_for : Object d.fl.Float → List (Object d.fl.Float) → Proxy d → Option Outcome
  sent_for body messages p =
      (send d.os d.call (plan_of d c (outgoing_body d body messages)) c.resolved.retry c.model
        p.world).1

  serve_attempts-sessions :
      (body : Object d.fl.Float) (input reserved : Int64) (p : Proxy d) (log : RequestLog)
      → ((m : String) (resp : Response)
          → (send d.os d.call (plan_of d c body) c.resolved.retry c.model p.world).1
            ≢ some (answered m resp))
      → (serve_attempts d c body input reserved p log).0.sessions ≡ (
          if lt64 0 reserved
          then release_reserved_input_budget d.st p.sessions c.token_hash reserved
          else p.sessions)
  unfolding serve_attempts
  serve_attempts-sessions body input reserved p log h =
      let log' : RequestLog = record log {
        stream = bool_at "stream" body;
        client_request_id = c.request_id;
      } in
      let r = send d.os d.call (plan_of d c body) c.resolved.retry c.model p.world in
      let (e, f) = finish-unanswered input log' p r h in
      settled reserved (finish d c input log' p r) p.sessions e f

  on_reserved-usage :
      (body : Object d.fl.Float) (input : Int64) (p : Proxy d) (log : RequestLog)
      (r : d.st.State × Int64 × Option (BudgetError d.st.Error)) (j : String) (u : Int64)
      → (r.2 ≡ none
          → (m : String) (resp : Response)
          → (send d.os d.call (plan_of d c body) c.resolved.retry c.model p.world).1
            ≢ some (answered m resp))
      → (r.2 ≢ none → usage r.0 j ≡ u)
      → (r.2 ≡ none
          → usage
              (if lt64 0 input
                then release_reserved_input_budget d.st r.0 c.token_hash input
                else r.0)
              j
            ≡ u)
      → usage (on_reserved d c body input p log r).0.sessions j ≡ u
  unfolding serve_attempts reject fail count_stats emit
  on_reserved-usage body input p log (s, used, some e) j u h kept undone = kept (ground arith)
  on_reserved-usage body input p log (s, used, none) j u h kept undone =
      rw (serve_attempts-sessions body input input (record p { sessions = s }) log (h refl))
        (undone refl)

  -- The refusal of the request's reservation, where the token has a budget.
  abbrev pub budget_refusal : List (Object d.fl.Float) → Proxy d → Option (BudgetError d.st.Error)
  budget_refusal messages p =
      if lt64 0 c.resolved.max_tokens
      then (reserve_input_budget d.st p.sessions c.token_hash
          (count_or_zero (count_messages d.tk c.model messages)) c.resolved.max_tokens).2
      else none

  -- For a store that keeps its laws: a request that the budget refuses, whatever the providers would
  -- answer, or for which the attempts end without a response to pass on, leaves the usage of every token
  -- hash as it was.
  pub serve_budget_unanswered :
      (body : Object d.fl.Float) (messages : List (Object d.fl.Float)) (p : Proxy d)
      (log : RequestLog) (j : String)
      → IsWord (usage p.sessions c.token_hash)
      → (budget_refusal messages p ≢ none)
        ⊎ ((m : String) (resp : Response) → sent_for body messages p ≢ some (answered m resp))
      → usage (serve_budget d c body messages p log).0.sessions j ≡ usage p.sessions j
  unfolding serve_budget
  serve_budget_unanswered body messages p log j hw h =
      let input = count_or_zero (count_messages d.tk c.model messages) in
      let max = c.resolved.max_tokens in
      let body' = outgoing_body d body messages in
      let log' : RequestLog = record log { input_tokens = input } in
      elim (Bool-cases (lt64 0 max)) [
        | inl e ↦ rw e (
            on_reserved-usage body' input p log'
              (reserve_input_budget d.st p.sessions c.token_hash input max) j (usage p.sessions j)
              (λ allowed. unanswered h (rw e allowed))
              (λ k. reserve-refused d.st laws p.sessions c.token_hash j input max k)
              (λ k.
                release-reserve d.st laws p.sessions c.token_hash j input max
                  (count_messages-IsWord d.tk c.model messages) hw k))
        | inr e ↦
            rw (e, serve_attempts-sessions body' input 0 p log' (unanswered h (rw e refl)))
              (unfold lt64 in refl)
      ]
    where
      unanswered :
          (budget_refusal messages p ≢ none)
            ⊎ ((m : String) (resp : Response) → sent_for body messages p ≢ some (answered m resp))
          → budget_refusal messages p ≡ none
          → (m : String) (resp : Response) → sent_for body messages p ≢ some (answered m resp)
      unanswered (inl refused_) e = absurd (refused_ e)
      unanswered (inr h') e = h'
