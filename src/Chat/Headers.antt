-- ===== src/Chat/Headers.antt =====
-- The methods of `http.Header` over a canonical spelling of names, and the repository's functions on headers:
-- `copyHeaders` of internal/proxy/handler.go, `safeHeaders` of handler_chat.go and `cloneHeadersForEvent` of
-- ledger_events.go.
use tokenomics.Base.{
  String, ◌≡◌, ◌≢◌, refl, List, [], ◌∷◌, ◌++◌, Option, none, some, if◌then◌else◌, arith, All,
}
use tokenomics.Base.Eq.{string_eq, ◌==◌, ==_iff}
use tokenomics.Base.Dict.{Dict, lookup, insert, erase, or_default, lookup-insert, lookup-erase}
use tokenomics.Chat.{Header}

module _ (canonical : String → String) where
  unfoldable pub set_header : String → String → Header → Header
  set_header k v h = insert (canonical k) (v ∷ []) h

  unfoldable pub del_header : String → Header → Header
  del_header k h = erase (canonical k) h

  unfoldable pub add_header : String → String → Header → Header
  add_header k v h = insert (canonical k) (or_default [] (lookup (canonical k) h) ++ v ∷ []) h

  abbrev first_value : Option (List String) → String
  first_value (some (v ∷ vs)) = v
  first_value _ = ""

  unfoldable pub get_header : String → Header → String
  get_header k h = first_value (lookup (canonical k) h)

  unfoldable pub add_values : String → List String → Header → Header
  add_values k [] dst = dst
  add_values k (v ∷ vs) dst = add_values k vs (add_header k v dst)

  unfoldable pub copy_headers : Header → Header → Header
  copy_headers [] dst = dst
  copy_headers ((k, vs) ∷ src) dst = copy_headers src (add_values k vs dst)

  unfoldable pub safe_headers : Header → Header
  safe_headers h =
      del_header "Api-Key"
        (del_header "x-api-key" (del_header "X-Api-Key" (del_header "Authorization" h)))

  -- `for k, v := range headers { h.Set(k, v) }`
  unfoldable pub set_headers : Dict String String → Header → Header
  set_headers [] h = h
  set_headers ((k, v) ∷ m) h = set_headers m (set_header k v h)

  -- No name of the list is spelled, once canonical, as the given key.
  abbrev pub Spares {ℓ} : {V : Type ℓ} → String → Dict String V → Type 0
  Spares k m = All (λ p. canonical p.0 ≢ k) m

  pub lookup-set_header :
      (k at v : String) (h : Header)
      → lookup at (set_header k v h) ≡ (if canonical k == at then some (v ∷ []) else lookup at h)
  unfolding set_header
  lookup-set_header k at v h = lookup-insert (canonical k) at (v ∷ []) h

  pub lookup-add_values :
      (k at : String) (vs : List String) (h : Header)
      → canonical k ≢ at
      → lookup at (add_values k vs h) ≡ lookup at h
  unfolding add_values add_header
  lookup-add_values k at [] h ne = refl
  lookup-add_values k at (v ∷ vs) h ne = ground (
    arith,
    ==_iff (canonical k) at,
    lookup-add_values k at vs (add_header k v h) ne,
    lookup-insert (canonical k) at (or_default [] (lookup (canonical k) h) ++ v ∷ []) h,
  )

  pub lookup-copy_headers :
      (at : String) (src dst : Header)
      → Spares at src
      → lookup at (copy_headers src dst) ≡ lookup at dst
  unfolding copy_headers
  lookup-copy_headers at [] dst h = refl
  lookup-copy_headers at ((k, vs) ∷ src) dst h =
      rw (lookup-copy_headers at src (add_values k vs dst) h.1) (lookup-add_values k at vs dst h.0)

  pub lookup-set_headers :
      (at : String) (m : Dict String String) (h : Header)
      → Spares at m
      → lookup at (set_headers m h) ≡ lookup at h
  unfolding set_headers
  lookup-set_headers at [] h spare = refl
  lookup-set_headers at ((k, v) ∷ m) h spare = ground (
    arith,
    ==_iff (canonical k) at,
    lookup-set_header k at v h,
    lookup-set_headers at m (set_header k v h) spare.1,
  )

  pub lookup-safe_headers :
      (at : String) (h : Header)
      → lookup at (safe_headers h) ≡ (
          if canonical "Api-Key" == at
          then none
          else if canonical "x-api-key" == at
          then none
          else if canonical "X-Api-Key" == at
          then none
          else if canonical "Authorization" == at
          then none
          else lookup at h)
  unfolding safe_headers del_header
  lookup-safe_headers at h = ground (
    arith,
    lookup-erase (canonical "Api-Key") at (
        erase (canonical "x-api-key")
          (erase (canonical "X-Api-Key") (erase (canonical "Authorization") h))),
    lookup-erase (canonical "x-api-key") at
        (erase (canonical "X-Api-Key") (erase (canonical "Authorization") h)),
    lookup-erase (canonical "X-Api-Key") at (erase (canonical "Authorization") h),
    lookup-erase (canonical "Authorization") at h,
  )
