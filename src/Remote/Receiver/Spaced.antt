-- ===== src/Remote/Receiver/Spaced.antt =====
-- Which requests start a sync, and when.
use tokenomics.Base.{
  String, Bool, true, false, not, ◌&&◌, List, [], ◌∷◌, Option, none, some, Bool-cases, inl, inr,
  ◌+◌, ◌≤◌, ◌≡◌, ◌⊎◌, refl, arith, All,
}
use tokenomics.Base.Eq.{string_eq, ◌==◌, ==_iff}
use tokenomics.Base.Int.{pos, ltb_ℤ}
use tokenomics.RateLimit.Clock.{Time, second, sub_time}
use tokenomics.Remote.Receiver.{
  Signing, ReceiverConfig, WebhookRequest, ReceiverReply, WebhookReceiver, is_token_event,
  verify_signature, on_event, on_read_body, serve_webhook,
}

elapsed : (a b : Time) → b ≤ a → ltb_ℤ (sub_time a b) (pos second) ≡ false → b + second ≤ a
unfolding sub_time
elapsed a b h e = ground arith

module _ (sg : Signing) where
  -- The requests that a receiver with the configuration takes for those of the central server.
  pub record IsTrusted (cfg : ReceiverConfig) (r : WebhookRequest) : Type 0 where
    is_post : r.method ≡ "POST"
    knows_secret : (cfg.secret ≡ "") ⊎ (r.secret ≡ cfg.secret)
    body : String
    has_body : r.body ≡ some body
    is_signed :
        (cfg.signing_key ≡ "") ⊎ (verify_signature sg body r.signature cfg.signing_key ≡ true)
    type : String
    has_type : sg.event_type body ≡ some type
    of_token : is_token_event type ≡ true

  -- The requests that start a sync.
  abbrev pub starting : WebhookRequest → Option String → List WebhookRequest → List WebhookRequest
  starting r none rs = rs
  starting r (some type) rs = r ∷ rs

  unfoldable pub starts : List WebhookRequest → WebhookReceiver → List WebhookRequest
  starts [] wr = []
  starts (r ∷ rs) wr =
      let (wr', reply, type) = serve_webhook sg r wr in starting r type (starts rs wr')

  -- The clock does not go back, from the time on.
  abbrev pub IsOrdered : Time → List WebhookRequest → Type 0
  IsOrdered t [] = Unit
  IsOrdered t (r ∷ rs) = (t ≤ r.since) × (r.since ≤ r.now) × IsOrdered r.now rs

  abbrev pub IsSpaced : Time → List WebhookRequest → Type 0
  IsSpaced t [] = Unit
  IsSpaced t (r ∷ rs) = (t + second ≤ r.now) × IsSpaced r.now rs

  -- What one request does: it starts nothing and leaves the receiver, or it is trusted, in time, and noted.
  abbrev IsServed :
      WebhookRequest → WebhookReceiver → WebhookReceiver × ReceiverReply × Option String → Type 0
  IsServed r wr (wr', reply, none) = wr' ≡ wr
  IsServed r wr (wr', reply, some type) =
      (wr' ≡ record wr { last_sync = r.now })
      × IsTrusted wr.cfg r
      × (ltb_ℤ (sub_time r.since wr.last_sync) (pos second) ≡ false)

  unless : (a b : String) (t : Bool) → (not (a == b) && not t) ≡ false → (a ≡ b) ⊎ (t ≡ true)
  unless a b t e = elim (Bool-cases (a == b)) [
    | inl same ↦ inl ((==_iff a b).0 same)
    | inr other ↦ inr (right other)
  ]
    where
      right : (a == b) ≡ false → t ≡ true
      right other = ground (arith, e)

  on_event-IsServed :
      (r : WebhookRequest) (wr : WebhookReceiver) (o : Option String)
      → ((type : String) → o ≡ some type → is_token_event type ≡ true → IsTrusted wr.cfg r)
      → IsServed r wr (on_event sg r wr o)
  on_event-IsServed r wr none trusted = refl
  on_event-IsServed r wr (some type) trusted = elim (Bool-cases (is_token_event type)) [
    | inr e ↦ rw e refl
    | inl e ↦ elim (Bool-cases (ltb_ℤ (sub_time r.since wr.last_sync) (pos second))) [
      | inl soon ↦ rw (e, soon) refl
      | inr late ↦ rw (e, late) (refl, trusted type refl e, late)
    ]
  ]

  on_read_body-IsServed :
      (r : WebhookRequest) (wr : WebhookReceiver) (o : Option String)
      → r.method ≡ "POST"
      → r.body ≡ o
      → IsServed r wr (on_read_body sg r wr o)
  on_read_body-IsServed r wr none post e = refl
  on_read_body-IsServed r wr (some body) post e =
      elim (Bool-cases (not (wr.cfg.secret == "") && not (r.secret == wr.cfg.secret))) [
        | inl wrong ↦ rw wrong refl
        | inr fits ↦
            let verified = verify_signature sg body r.signature wr.cfg.signing_key in
            elim (Bool-cases (not (wr.cfg.signing_key == "") && not verified)) [
              | inl bad ↦ rw (fits, bad) refl
              | inr good ↦
                  rw (fits, good)
                    (on_event-IsServed r wr (sg.event_type body) (λ type has of_token. record {
                      is_post = post;
                      knows_secret =
                          same_secret (unless wr.cfg.secret "" (r.secret == wr.cfg.secret) fits);
                      body = body;
                      has_body = e;
                      is_signed = unless wr.cfg.signing_key "" verified good;
                      type = type;
                      has_type = has;
                      of_token = of_token;
                    }))
            ]
      ]
    where
      same_secret :
          (wr.cfg.secret ≡ "") ⊎ ((r.secret == wr.cfg.secret) ≡ true)
          → (wr.cfg.secret ≡ "") ⊎ (r.secret ≡ wr.cfg.secret)
      same_secret (inl e) = inl e
      same_secret (inr e) = inr ((==_iff r.secret wr.cfg.secret).0 e)

  serve_webhook-IsServed :
      (r : WebhookRequest) (wr : WebhookReceiver) → IsServed r wr (serve_webhook sg r wr)
  unfolding serve_webhook
  serve_webhook-IsServed r wr = elim (Bool-cases (r.method == "POST")) [
    | inr wrong ↦ rw wrong refl
    | inl fits ↦ rw fits (on_read_body-IsServed r wr r.body ((==_iff r.method "POST").0 fits) refl)
  ]

  abbrev IsRight : WebhookReceiver → List WebhookRequest → Type 0
  IsRight wr rs = IsSpaced wr.last_sync rs × All (IsTrusted wr.cfg) rs

  IsOrdered-le : (t u : Time) (rs : List WebhookRequest) → t ≤ u → IsOrdered u rs → IsOrdered t rs
  IsOrdered-le t u [] le h = tt
  IsOrdered-le t u (r ∷ rs) le h = (omega (arith, h.0), h.1, h.2)

  starting-IsRight :
      (r : WebhookRequest) (rs : List WebhookRequest) (wr : WebhookReceiver)
      (q : WebhookReceiver × ReceiverReply × Option String)
      → IsOrdered wr.last_sync (r ∷ rs)
      → IsServed r wr q
      → ((wr' : WebhookReceiver) → IsOrdered wr'.last_sync rs → IsRight wr' (starts rs wr'))
      → IsRight wr (starting r q.2 (starts rs q.0))
  starting-IsRight r rs wr (wr', reply, none) ordered served ih =
      rw served
        (ih wr (IsOrdered-le wr.last_sync r.now rs (omega (arith, ordered.0, ordered.1)) ordered.2))
  starting-IsRight r rs wr (wr', reply, some type) ordered served ih =
      let later : WebhookReceiver = record wr { last_sync = r.now } in
      let rest = ih later ordered.2 in
      rw served.0 (
        (omega (arith, elapsed r.since wr.last_sync ordered.0 served.2, ordered.1), rest.0),
        (served.1, rest.1),
      )

  -- While the clock does not go back, the requests that start a sync, out of any sequence of requests, are each a
  -- POST that has the secret and the signature that are configured and an event of a token, and they are at least
  -- a second apart, the first of them from the last sync before.
  pub starts-IsSpaced :
      (rs : List WebhookRequest) (wr : WebhookReceiver)
      → IsOrdered wr.last_sync rs
      → IsSpaced wr.last_sync (starts rs wr) × All (IsTrusted wr.cfg) (starts rs wr)
  unfolding starts
  starts-IsSpaced [] wr ordered = (tt, tt)
  starts-IsSpaced (r ∷ rs) wr ordered =
      starting-IsRight r rs wr (serve_webhook sg r wr) ordered (serve_webhook-IsServed r wr)
        (starts-IsSpaced rs)
