-- ===== src/Chat/Request/Auth.antt =====
-- The credentials of a request to a provider.
use tokenomics.Base.{
  String, ◌≡◌, ◌≢◌, refl, List, [], ◌∷◌, Option, none, some, if◌then◌else◌, arith, All, Bool-cases,
  inl, inr, ◌∙◌,
}
use Prim.Native.String.{len, ◌++◌ as ◌+++◌}
use tokenomics.Base.Eq.{string_eq, ◌==◌, ==_iff}
use tokenomics.Base.Dict.{lookup, erase}
use tokenomics.Base.Json.{Json}
use tokenomics.Chat.{ProviderConfig, Header, Platform}
use tokenomics.Chat.Headers.{
  set_header, del_header, copy_headers, set_headers, Spares, lookup-set_header, lookup-copy_headers,
  lookup-set_headers,
}
use tokenomics.Chat.Request.{
  config_or, auth_scheme_of, set_auth, extra_headers, with_encoding, client_headers,
  upstream_headers,
}

module _ {F : Type 0} (os : Platform (Json F)) where
  open os use {canonical}

  -- Every name is spelled canonically, as net/http hands a request's headers over.
  abbrev IsCanonical : Header → Type 0
  IsCanonical h = All (λ p. canonical p.0 ≡ p.0) h

  erase-IsCanonical : (k : String) (h : Header) → IsCanonical h → IsCanonical (erase k h)
  unfolding erase
  erase-IsCanonical k [] c = tt
  erase-IsCanonical k ((j, v) ∷ h) c = elim (Bool-cases (j == k)) [
    | inl e ↦ rw e (erase-IsCanonical k h c.1)
    | inr e ↦ rw e (c.0, erase-IsCanonical k h c.1)
  ]

  erase-Spares : (k : String) (h : Header) → IsCanonical h → Spares canonical k (erase k h)
  unfolding erase
  erase-Spares k [] c = tt
  erase-Spares k ((j, v) ∷ h) c = elim (Bool-cases (j == k)) [
    | inl e ↦ rw e (erase-Spares k h c.1)
    | inr e ↦ rw e (ground (arith, c.0, ==_iff j k), erase-Spares k h c.1)
  ]

  erase-Spares_still :
      (k at : String) (h : Header) → Spares canonical at h → Spares canonical at (erase k h)
  unfolding erase
  erase-Spares_still k at [] c = tt
  erase-Spares_still k at ((j, v) ∷ h) c = elim (Bool-cases (j == k)) [
    | inl e ↦ rw e (erase-Spares_still k at h c.1)
    | inr e ↦ rw e (c.0, erase-Spares_still k at h c.1)
  ]

  -- What the provider's scheme puts under a name, given the key.
  abbrev pub credential : Option ProviderConfig → String → String → Option (List String)
  credential cfg real_key at =
      if auth_scheme_of cfg == "header"
      then (if canonical (config_or (λ c. c.auth_header) "Authorization" cfg) == at
          then some (real_key ∷ [])
          else none)
      else if auth_scheme_of cfg == "query"
      then none
      else (if canonical "Authorization" == at then some (("Bearer " +++ real_key) ∷ []) else none)

  lookup-set_auth :
      (cfg : Option ProviderConfig) (real_key at : String) (h : Header)
      → lookup at h ≡ none
      → lookup at (set_auth os cfg real_key h) ≡ credential cfg real_key at
  unfolding set_auth
  lookup-set_auth cfg real_key at h e = ground (
    arith,
    lookup-set_header canonical (config_or (λ c. c.auth_header) "Authorization" cfg) at real_key h,
    lookup-set_header canonical "Authorization" at ("Bearer " +++ real_key) h,
  )

  lookup-client_headers :
      (client : Header)
      → IsCanonical client
      → lookup (canonical "Authorization") (copy_headers canonical (client_headers os client) [])
        ≡ none
  unfolding client_headers del_header lookup
  lookup-client_headers client c =
      let at = canonical "Authorization" in
      lookup-copy_headers canonical at (client_headers os client) []
        (erase-Spares_still (canonical "x-api-key") at (erase at client) (erase-Spares at client c))

  lookup-set_other :
      (k at v : String) (h : Header)
      → canonical k ≢ at
      → lookup at (set_header canonical k v h) ≡ lookup at h
  lookup-set_other k at v h ne =
      ground (arith, lookup-set_header canonical k at v h, ==_iff (canonical k) at)

  lookup-with_encoding :
      (encoding at : String) (h : Header)
      → canonical "Content-Encoding" ≢ at
      → lookup at (with_encoding os encoding h) ≡ lookup at h
  lookup-with_encoding encoding at h ne = elim (Bool-cases (encoding == "")) [
    | inl e ↦ rw e refl
    | inr e ↦ rw e (lookup-set_other "Content-Encoding" at encoding h ne)
  ]

  -- Where the client's headers are spelled canonically, and neither the provider's extra headers nor
  -- the three that the proxy sets are named "Authorization": the Authorization header of the request
  -- to a provider is the one that the provider's scheme makes of the real key, whatever the client has
  -- sent, so the client's wrapper token never goes out in it.
  pub upstream_headers-authorization :
      (cfg : Option ProviderConfig) (client : Header) (real_key body encoding request_id : String)
      → IsCanonical client
      → Spares canonical (canonical "Authorization") (extra_headers os cfg)
      → canonical "Content-Length" ≢ canonical "Authorization"
      → canonical "Content-Encoding" ≢ canonical "Authorization"
      → canonical "X-Client-Request-Id" ≢ canonical "Authorization"
      → lookup
          (canonical "Authorization")
          (upstream_headers os cfg client real_key body encoding request_id)
        ≡ credential cfg real_key (canonical "Authorization")
  unfolding upstream_headers
  upstream_headers-authorization cfg client real_key body encoding request_id c spare l e r =
      let at = canonical "Authorization" in
      let copied = copy_headers canonical (client_headers os client) [] in
      let authed = set_auth os cfg real_key copied in
      let extended = set_headers canonical (extra_headers os cfg) authed in
      let sized = set_header canonical "Content-Length" (os.itoa (len body)) extended in
      lookup-set_other "X-Client-Request-Id" at request_id (with_encoding os encoding sized) r
      ∙ lookup-with_encoding encoding at sized e
      ∙ lookup-set_other "Content-Length" at (os.itoa (len body)) extended l
      ∙ lookup-set_headers canonical at (extra_headers os cfg) authed spare
      ∙ lookup-set_auth cfg real_key at copied (lookup-client_headers client c)
