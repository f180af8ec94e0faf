-- ===== src/Chat/Serve/Tests.antt =====
-- A request with the token "wrapper", which hashes to "a" and is deleted; and where a token stands.
use tokenomics.Base.{◌≡◌, refl, false, [], ◌∷◌}
use tokenomics.Base.Eq.{string_eq, ◌==◌}
use tokenomics.Base.Dict.{lookup}
use tokenomics.Store.Samples.{one_slot, one_slot-ServiceLaws, fresh_store, full_store, deleted}
use tokenomics.Chat.Headers.{get_header}
use tokenomics.Chat.Handler.{Settings}
use tokenomics.Chat.Samples.{incoming, always_busy, deps, proxy, context}
use tokenomics.Chat.Serve.{raw_token, serve_http, refused, invalid_token}
use tokenomics.Chat.Serve.Deleted.{find_in, delete-serve_http}

abbrev settings : Settings
settings = record { providers = []; default_provider = "" }

bearer : raw_token (λ s. s) (("Authorization", "Bearer wrapper" ∷ []) ∷ []) ≡ "wrapper"
unfolding raw_token get_header lookup
bearer = refl

key_first :
    raw_token (λ s. s) (("Authorization", "Bearer wrapper" ∷ []) ∷ ("x-api-key", "key" ∷ []) ∷ [])
    ≡ "key"
unfolding raw_token get_header lookup
key_first = refl

presented : (raw_token (λ s. s) incoming.headers == "") ≡ false
unfolding raw_token get_header lookup
presented = refl

delete-serve_http_example :
    (serve_http
      (deps always_busy)
      (find_in (deps always_busy) one_slot "noon" "one")
      (λ token. "a")
      "https://upstream"
      settings
      incoming
      (context always_busy).times
      "id"
      (proxy always_busy)
      fresh_store).1
    ≡ refused (invalid_token incoming "a")
delete-serve_http_example =
    delete-serve_http (deps always_busy) one_slot one_slot-ServiceLaws (λ token. "a")
      "https://upstream" settings "noon" "one" full_store fresh_store incoming
      (context always_busy).times "id" (proxy always_busy) presented deleted
