-- ===== src/Events/Webhook.antt =====
-- internal/events/webhook.go: `WebhookEmitter`. Its queue is a buffered channel, which its worker empties;
-- each send and each receipt is one step. What the worker has taken to deliver is kept beside the state.
pub mod Order
use tokenomics.Base.{
  String, Bool, true, false, not, ◌&&◌, ◌||◌, ℕ, zero, suc, ◌-◌, List, [], ◌∷◌, ◌++◌, Option, none,
  some, any, is_nil, length, ltb, if◌then◌else◌, ◌≡◌,
}
use Prim.Native.String.{len, slice, ◌++◌ as ◌+++◌}
use text.Mathlib.Text.{starts_with}
use tokenomics.Base.Eq.{string_eq, nat_eq, ◌==◌}
use tokenomics.Base.Dict.{Dict}
use tokenomics.Base.Word.{Int64, lt64, le64}
use tokenomics.Events.{Event}

pub record WebhookConfig : Type 0 where
  pub url : String
  pub secret : String
  pub signing_key : String
  pub events : List String
  pub timeout_sec : Int64
  pub insecure : Bool

abbrev pub queue_capacity : ℕ
queue_capacity = 256

pub record WebhookEmitter : Type 0 where
  pub cfg : WebhookConfig
  pub queue : List Event
  pub closing : Bool
  pub stopped : Bool
  pub taken : List Event

unfoldable pub new_webhook_emitter : WebhookConfig → WebhookEmitter
new_webhook_emitter cfg = record {
  cfg = cfg;
  queue = [];
  closing = false;
  stopped = false;
  taken = [];
}

unfoldable pub matches_pattern : String → String → Bool
matches_pattern event_type pattern =
    if pattern == event_type
    then true
    else slice pattern (len pattern - 1) (len pattern) == "*"
      && starts_with event_type (slice pattern 0 (len pattern - 1))

unfoldable pub matches_filter : List String → String → Bool
matches_filter events event_type =
    if is_nil events then true else any (matches_pattern event_type) events

-- `Emit`, which never waits: an event is dropped where the buffer is full.
unfoldable pub emit : Event → WebhookEmitter → WebhookEmitter
emit event w =
    if not (matches_filter w.cfg.events event.type)
    then w
    else if ltb (length w.queue) queue_capacity
    then record w { queue = w.queue ++ event ∷ [] }
    else w

-- The worker's receipt of an event, which it then delivers.
abbrev pub take_first : List Event → WebhookEmitter → WebhookEmitter
take_first [] w = w
take_first (event ∷ rest) w = record w { queue = rest; taken = w.taken ++ event ∷ [] }

unfoldable pub work : WebhookEmitter → WebhookEmitter
work w = if w.stopped then w else take_first w.queue w

-- `close(w.done)`, and the worker's return, once it finds the queue empty.
unfoldable pub close : WebhookEmitter → WebhookEmitter
close w = record w { closing = true }

unfoldable pub stop : WebhookEmitter → WebhookEmitter
stop w = if w.closing && is_nil w.queue then record w { stopped = true } else w

-- Emitters, the worker and `Close`, in any order.
pub data Action : Type 0 where
  emits : Event → Action
  works closes stops : Action

unfoldable pub act : Action → WebhookEmitter → WebhookEmitter
act (emits event) w = emit event w
act works w = work w
act closes w = close w
act stops w = stop w

unfoldable pub act_all : List Action → WebhookEmitter → WebhookEmitter
act_all [] w = w
act_all (a ∷ cs) w = act_all cs (act a w)

-- `deliver`, over `post`, which sends the event in a world and yields the status, if there is one.
-- `sign` is HMAC-SHA256 in hexadecimal.
pub record Posting : Type 0 where
  pub url : String
  pub headers : Dict String String
  pub body : String

module _ {W : Type 0} (sign : String → String → String) (accepts : String → Bool)
    (post : W → Posting → W × Option Int64) where
  abbrev optional : String → String → Dict String String
  optional name v = if v == "" then [] else (name, v) ∷ []

  unfoldable pub posting_of : WebhookConfig → String → Event → String → Posting
  posting_of cfg id event body = record {
    url = cfg.url;
    headers =
        ("Content-Type", "application/json")
          ∷ ("User-Agent", "Tokenomics-Webhook/1.0")
          ∷ ("X-Event-ID", id)
          ∷ ("X-Event-Type", event.type)
          ∷ optional "X-Webhook-Secret" cfg.secret
        ++ (if cfg.signing_key == ""
            then []
            else ("X-Webhook-Signature", "sha256=" +++ sign body cfg.signing_key) ∷ []);
    body = body;
  }

  -- Whether a status ends the delivery: success, or a client error other than 429.
  unfoldable pub is_final : Option Int64 → Bool
  is_final none = false
  is_final (some status) =
      (le64 200 status && lt64 status 300)
      || (le64 400 status && lt64 status 500 && not (status == 429))

  abbrev after_post : W × Option Int64 → (W → W × List Posting) → Posting → W × List Posting
  after_post (w, status) retry p =
      let (w', ps) = retry w in if is_final status then (w, p ∷ []) else (w', p ∷ ps)

  -- The attempts that are left, and what they send; the waits between them are the world's.
  unfoldable pub attempts : Posting → ℕ → W → W × List Posting
  attempts p zero w = (w, [])
  attempts p (suc n) w = after_post (post w p) (attempts p n) p

  unfoldable pub deliver : WebhookConfig → String → Event → String → W → W × List Posting
  deliver cfg id event body w =
      if accepts cfg.url then attempts (posting_of cfg id event body) 3 w else (w, [])
