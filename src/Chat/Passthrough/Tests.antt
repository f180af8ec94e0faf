-- ===== src/Chat/Passthrough/Tests.antt =====
-- A request for "/v1/messages" under a policy, to a provider that answers 200.
use tokenomics.Base.{◌≡◌, false, [], ◌∷◌, none, some, suc}
use tokenomics.Base.Eq.{string_eq}
use tokenomics.Base.Dict.{lookup}
use tokenomics.Chat.Samples.{incoming, always_busy, deps}
use tokenomics.Chat.Handler.{Settings}
use tokenomics.Chat.Recorded.{Texts}
use tokenomics.Chat.Director.{Relay, Arrived, PassReadings, directed_headers}
use tokenomics.Chat.Passthrough.Auth.{own_credential, directed_headers-authorization}

abbrev texts : Texts
texts = record {
  trim = λ bs. bs;
  to_text = λ bs. "";
  of_text = λ s. [];
  quote = λ s. s;
  is_utf8 = λ bs. false;
  trim_text = λ s. s;
  lower = λ s. s;
  holds = λ s t. false;
  itoa = λ n. "2";
}

abbrev relay : Relay (deps always_busy)
relay = record {
  serve = λ w req body. (suc w, record { codes = 200 ∷ []; headers = []; writes = (10 ∷ []) ∷ [] });
  scheme_of = λ u. "https";
  host_of = λ u. u;
  set_key = λ q k. q;
  texts = texts;
  unmarshal = λ bs. none;
}

abbrev at_seconds : PassReadings
at_seconds = record { received = 1; started = 2; written = 3; chunk = λ i. 4; body = 5; done = 6 }

abbrev messages : Arrived
messages = record {
  method = "POST";
  path = "/v1/messages";
  raw_query = "";
  headers = incoming.headers;
  content_length = 2;
  body = some (123 ∷ 125 ∷ []);
}

abbrev settings : Settings
settings = record { providers = []; default_provider = "" }

directed_headers-authorization_example :
    lookup "Authorization" (directed_headers (λ s. s) none "real" incoming.headers)
    ≡ own_credential (λ s. s) none "real"
directed_headers-authorization_example =
    directed_headers-authorization (λ s. s) none "real" incoming.headers tt
