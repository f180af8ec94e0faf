-- ===== src/Remote/Receiver.antt =====
-- internal/remote/webhook_receiver.go: the events that the central server posts start a sync, which runs beside the
-- answer.
pub mod Spaced
mod Tests
use tokenomics.Base.{
  String, Bool, true, false, not, ◌&&◌, List, [], ◌∷◌, Option, none, some, Result, ok, err, ℕ,
  if◌then◌else◌,
}
use Prim.Native.String.{len, slice}
use text.Mathlib.Text.{starts_with}
use tokenomics.Base.Eq.{string_eq, ◌==◌}
use tokenomics.Base.Int.{ℤ, pos, ltb_ℤ}
use tokenomics.RateLimit.Clock.{Time, second, sub_time}
use tokenomics.Remote.{TokenStore, TokenResponse, sync_to}

-- Packages encoding/hex, crypto/hmac with SHA-256, and encoding/json: the type of an event.
pub record Signing : Type 1 where
  pub Mac : Type 0
  pub decode_hex : String → Option Mac
  pub sum : String → String → Mac
  pub equal : Mac → Mac → Bool
  pub event_type : String → Option String

pub record ReceiverConfig : Type 0 where
  pub path : String
  pub secret : String
  pub signing_key : String

-- A request, its body `none` where reading it fails, with the readings of the clock.
pub record WebhookRequest : Type 0 where
  pub method : String
  pub secret : String
  pub signature : String
  pub body : Option String
  pub since : Time
  pub now : Time

pub data ReceiverReply : Type 0 where
  method_not_allowed unread unauthorized invalid_signature invalid_json ignored debounced accepted :
      ReceiverReply

pub record WebhookReceiver : Type 0 where
  pub cfg : ReceiverConfig
  pub last_sync : Time

unfoldable pub path_at : ReceiverConfig → String
path_at cfg = if cfg.path == "" then "/v1/webhook" else cfg.path

unfoldable pub is_token_event : String → Bool
is_token_event event_type = starts_with event_type "token."

module _ (sg : Signing) where
  abbrev matches_mac : String → String → Option sg.Mac → Bool
  matches_mac body key none = false
  matches_mac body key (some received) = sg.equal received (sg.sum key body)

  unfoldable pub verify_signature : String → String → String → Bool
  verify_signature body header key =
      if starts_with header "sha256="
      then matches_mac body key (sg.decode_hex (slice header 7 (len header)))
      else false

  -- The answer, and the type of the event for which a sync is started.
  abbrev pub Received : Type 0
  Received = WebhookReceiver × ReceiverReply × Option String

  abbrev pub on_event : WebhookRequest → WebhookReceiver → Option String → Received
  on_event r wr none = (wr, invalid_json, none)
  on_event r wr (some type) =
      if not (is_token_event type)
      then (wr, ignored, none)
      else if ltb_ℤ (sub_time r.since wr.last_sync) (pos second)
      then (wr, debounced, none)
      else (record wr { last_sync = r.now }, accepted, some type)

  abbrev pub on_read_body : WebhookRequest → WebhookReceiver → Option String → Received
  on_read_body r wr none = (wr, unread, none)
  on_read_body r wr (some body) =
      if not (wr.cfg.secret == "") && not (r.secret == wr.cfg.secret)
      then (wr, unauthorized, none)
      else if not (wr.cfg.signing_key == "")
          && not (verify_signature body r.signature wr.cfg.signing_key)
      then (wr, invalid_signature, none)
      else on_event r wr (sg.event_type body)

  unfoldable pub serve_webhook : WebhookRequest → WebhookReceiver → Received
  serve_webhook r wr =
      if not (r.method == "POST") then (wr, method_not_allowed, none) else on_read_body r wr r.body

-- `sync`: with a client, the tokens that it fetches; without, the store reads its database again.
module _ (st : TokenStore) (reload : st.State → st.State) where
  unfoldable pub sync_store :
      {E : Type 0} → Option (Result E (List TokenResponse)) → st.State → st.State
  sync_store none s = reload s
  sync_store (some fetched) s = (sync_to st fetched s).0
