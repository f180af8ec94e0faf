-- ===== src/Remote/Receiver/Tests.antt =====
-- A signed event, and another half a second later.
use tokenomics.Base.{String, List, [], ◌∷◌, some, All, ◌≡◌, refl, arith}
use tokenomics.Base.Eq.{string_eq, ◌==◌}
use tokenomics.RateLimit.Clock.{sub_time}
use tokenomics.Remote.Receiver.{
  Signing, ReceiverConfig, WebhookRequest, WebhookReceiver, is_token_event, verify_signature,
  serve_webhook,
}
use tokenomics.Remote.Receiver.Spaced.{IsTrusted, IsSpaced, starts, starts-IsSpaced}

abbrev plain_signing : Signing
plain_signing = record {
  Mac = String;
  decode_hex = λ s. some s;
  sum = λ key body. key;
  equal = λ a b. a == b;
  event_type = λ body. some body;
}

abbrev signed : ReceiverConfig
signed = record { path = ""; secret = "s"; signing_key = "k" }

abbrev first_event : WebhookRequest
first_event = record {
  method = "POST";
  secret = "s";
  signature = "sha256=k";
  body = some "token.created";
  since = 5_000_000_000;
  now = 5_000_000_001;
}

abbrev events : List WebhookRequest
events =
    first_event
    ∷ record first_event { since = 5_500_000_000; now = 5_500_000_001 }
    ∷ record first_event { signature = "sha256=x"; since = 7_000_000_000; now = 7_000_000_001 }
    ∷ []

abbrev new_receiver : WebhookReceiver
new_receiver = record { cfg = signed; last_sync = 0 }

one_start : starts plain_signing events new_receiver ≡ first_event ∷ []
unfolding starts serve_webhook verify_signature is_token_event sub_time
one_start = refl

starts-IsSpaced_example :
    IsSpaced plain_signing 0 (starts plain_signing events new_receiver)
    × All (IsTrusted plain_signing signed) (starts plain_signing events new_receiver)
starts-IsSpaced_example =
    starts-IsSpaced plain_signing events new_receiver
      (omega arith, omega arith, (omega arith, omega arith, (omega arith, omega arith, tt)))
