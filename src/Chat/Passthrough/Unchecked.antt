-- ===== src/Chat/Passthrough/Unchecked.antt =====
-- What is passed through meets none of the policy's checks.
use tokenomics.Base.{String, ◌≡◌, Option, some, List, take}
use tokenomics.Base.Eq.{string_eq}
use tokenomics.Base.Dict.{Dict}
use tokenomics.Policy.Resolve.{Policy, resolve_provider}
use tokenomics.Chat.{ProviderConfig}
use tokenomics.Chat.Capture.{Bytes}
use tokenomics.Chat.Proxy.{
  Deps, Proxy, RequestLog, provider_name_of, provider_config, upstream_of, base_key_of,
}
use tokenomics.Chat.Handler.{Settings}
use tokenomics.Chat.Passthrough.{directed}
use tokenomics.Chat.Director.{
  Relay, Arrived, Answer, Remembered, PassReply, relayed, max_request_body_size,
}

module _ (d : Deps) (rl : Relay d) where
  -- Two states that differ in the ledger alone.
  record Same (a b : Proxy d) : Type 0 where
    world : a.world ≡ b.world
    sessions : a.sessions ≡ b.sessions
    limiter : a.limiter ≡ b.limiter
    stats : a.stats ≡ b.stats

  -- The provider, its key and its URL, as a request that is passed through finds them.
  abbrev pub provider_for : Settings → Policy d.re.Regexp → Option ProviderConfig
  provider_for h pol =
      provider_config d h.providers
        (provider_name_of d (resolve_provider d.re pol "") pol h.default_provider)

  abbrev pub key_for : Settings → Policy d.re.Regexp → String
  key_for h pol = d.os.getenv (base_key_of d (resolve_provider d.re pol "") (provider_for h pol))

  abbrev pub url_for : Settings → Policy d.re.Regexp → String → Option d.os.Url
  url_for h pol upstream =
      d.os.parse_url (upstream_of d (resolve_provider d.re pol "") (provider_for h pol) upstream)

  -- What the reverse proxy makes of a request, of the content length that came, with the body that was read.
  abbrev pub outcome :
      Option ProviderConfig → String → d.os.Url → Arrived → Bytes → d.World → d.World × Answer
  outcome cfg real_key url r body w =
      rl.serve w (directed d rl cfg real_key url r) (some (take max_request_body_size body))

  -- A result whose request has met the provider alone, in a state that was `p`.
  pub record IsPassed (p : Proxy d) (met : d.World × Answer)
      (res : Proxy d × PassReply × RequestLog × List Remembered) : Type 0 where
    pub world : res.0.world ≡ met.0
    pub reply : res.1 ≡ relayed met.1
    pub sessions : res.0.sessions ≡ p.sessions
    pub limiter : res.0.limiter ≡ p.limiter
    pub stats : res.0.stats ≡ p.stats
