-- ===== src/Chat/Passthrough/Auth.antt =====
-- The credentials of a request that is passed through.
use tokenomics.Base.{String, ◌≡◌, ◌∙◌, Option, none, some, if◌then◌else◌, arith, List, [], ◌∷◌}
use Prim.Native.String.{◌++◌ as ◌+++◌}
use tokenomics.Base.Eq.{string_eq, ◌==◌, ==_refl}
use tokenomics.Base.Dict.{lookup, erase, lookup-erase}
use tokenomics.Chat.{ProviderConfig, Header}
use tokenomics.Chat.Headers.{del_header, Spares, lookup-set_header, lookup-set_headers}
use tokenomics.Chat.Request.{config_or, auth_scheme_of}
use tokenomics.Chat.Director.{provider_headers, director_auth, directed_headers}

module _ (canonical : String → String) where
  -- What the provider's scheme makes of the key, under the name "Authorization".
  abbrev pub own_credential : Option ProviderConfig → String → Option (List String)
  own_credential cfg real_key =
      if auth_scheme_of cfg == "header"
      then (if canonical (config_or (λ c. c.auth_header) "Authorization" cfg)
            == canonical "Authorization"
          then some (real_key ∷ [])
          else none)
      else if auth_scheme_of cfg == "query"
      then none
      else some (("Bearer " +++ real_key) ∷ [])

  lookup-director_auth :
      (cfg : Option ProviderConfig) (real_key : String) (h : Header)
      → lookup (canonical "Authorization") h ≡ none
      → lookup (canonical "Authorization") (director_auth canonical cfg real_key h)
        ≡ own_credential cfg real_key
  unfolding director_auth del_header
  lookup-director_auth cfg real_key h e =
      let at = canonical "Authorization" in
      ground (
        arith,
        ==_refl at,
        lookup-set_header canonical (config_or (λ c. c.auth_header) "Authorization" cfg) at real_key
            h,
        lookup-set_header canonical "Authorization" at ("Bearer " +++ real_key) h,
        lookup-erase at at h,
      )

  -- Where the provider's own extra headers hold no Authorization: what is passed through carries the
  -- Authorization that the provider's scheme makes of the real key, or none, whatever the client has sent
  -- in that header.
  pub directed_headers-authorization :
      (cfg : Option ProviderConfig) (real_key : String) (client : Header)
      → Spares canonical (canonical "Authorization") (provider_headers cfg)
      → lookup (canonical "Authorization") (directed_headers canonical cfg real_key client)
        ≡ own_credential cfg real_key
  unfolding directed_headers del_header
  directed_headers-authorization cfg real_key client spare =
      let at = canonical "Authorization" in
      let key = canonical "x-api-key" in
      let stripped = erase key (erase at client) in
      let gone : lookup at stripped ≡ none =
        ground
          (arith, ==_refl at, lookup-erase key at (erase at client), lookup-erase at at client) in
      lookup-set_headers canonical at (provider_headers cfg)
        (director_auth canonical cfg real_key stripped) spare
      ∙ lookup-director_auth cfg real_key stripped gone
