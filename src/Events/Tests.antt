-- ===== src/Events/Tests.antt =====
-- Webhooks on concrete events.
use tokenomics.Base.{List, ◌≡◌, refl, [], ◌∷◌, true, false, any}
use tokenomics.Base.Eq.{string_eq}
use tokenomics.Events.{Event}
use tokenomics.Events.Webhook.{
  WebhookConfig, new_webhook_emitter, matches_filter, matches_pattern, emit, work, close, stop,
  Action, emits, works, closes, stops, act, act_all,
}
use tokenomics.Events.Webhook.Order.{IsServed, act_all-IsServed}

abbrev token_events : WebhookConfig
token_events = record {
  url = "https://hook";
  secret = "";
  signing_key = "";
  events = "token.*" ∷ [];
  timeout_sec = 0;
  insecure = false;
}

created : Event
created = record { type = "token.created"; payload = [] }

wildcard_matches : matches_filter ("token.*" ∷ []) "token.created" ≡ true
unfolding matches_filter matches_pattern any
wildcard_matches = refl

other : Event
other = record { type = "rule.match"; payload = [] }

abbrev some_actions : List Action
some_actions = emits created ∷ emits other ∷ works ∷ emits created ∷ closes ∷ works ∷ stops ∷ []

both_taken :
    act_all some_actions (new_webhook_emitter token_events)
    ≡ record (new_webhook_emitter token_events) {
      closing = true;
      stopped = true;
      taken = created ∷ created ∷ [];
    }
unfolding act_all act emit work close stop new_webhook_emitter matches_filter matches_pattern any
    created other
both_taken = refl

act_all-IsServed_example :
    IsServed token_events some_actions (act_all some_actions (new_webhook_emitter token_events))
act_all-IsServed_example = act_all-IsServed token_events some_actions
