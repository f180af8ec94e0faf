-- ===== src/Remote/Clients.antt =====
-- The handlers of internal/remote/remote.go for the webhook clients, over the registry, which may be missing.
use tokenomics.Base.{String, Option, none, some, Result, ok, err, ℕ, List, if◌then◌else◌}
use Prim.Native.String.{len, slice}
use text.Mathlib.Text.{starts_with}
use tokenomics.Base.Eq.{string_eq, ◌==◌}
use tokenomics.Remote.{authenticate}
use tokenomics.Remote.Registry.{
  Bucket, ClientRegistration, ClientRegistry, RegistryError, register, unregister, get_client,
  list_clients,
}

-- The answers; the text of an error is left out.
pub data ClientAnswer : Type 0 where
  rejected : ℕ → ClientAnswer
  client_list : List ClientRegistration → ClientAnswer
  one_client registered_client : ClientRegistration → ClientAnswer
  deleted : ClientAnswer

module _ (b : Bucket) where
  abbrev ClientServed : Type 0
  ClientServed = Option (ClientRegistry b) × ClientAnswer

  abbrev client_listed : Result b.DbError (List ClientRegistration) → ClientAnswer
  client_listed (err e) = rejected 500
  client_listed (ok cs) = client_list cs

  unfoldable pub serve_client_list : Option (ClientRegistry b) → ClientAnswer
  serve_client_list none = rejected 404
  serve_client_list (some cr) = client_listed (list_clients b cr)

  abbrev client_registered :
      ClientRegistry b × Result (RegistryError b.DbError) ClientRegistration → ClientServed
  client_registered (cr, err e) = (some cr, rejected 400)
  client_registered (cr, ok reg) = (some cr, registered_client reg)

  -- The registration, `none` where its JSON is invalid.
  unfoldable pub register_client :
      String → String → Option ClientRegistration → Option (ClientRegistry b) → ClientServed
  register_client id now req none = (none, rejected 404)
  register_client id now none (some cr) = (some cr, rejected 400)
  register_client id now (some req) (some cr) = client_registered (register b id now req cr)

  abbrev found_client : Option (Option ClientRegistration) → ClientAnswer
  found_client none = rejected 500
  found_client (some none) = rejected 404
  found_client (some (some client)) = one_client client

  unfoldable pub serve_client : String → Option (ClientRegistry b) → ClientAnswer
  serve_client id none = rejected 404
  serve_client id (some cr) = found_client (get_client b id cr)

  abbrev unregistered :
      ClientRegistry b × Result (RegistryError b.DbError) (Unit {0}) → ClientServed
  unregistered (cr, err e) = (some cr, rejected 404)
  unregistered (cr, ok u) = (some cr, deleted)

  unfoldable pub delete_client : String → Option (ClientRegistry b) → ClientServed
  delete_client id none = (none, rejected 404)
  delete_client id (some cr) = unregistered (unregister b id cr)

  abbrev if_allowed : Option ℕ → Option (ClientRegistry b) → ClientServed → ClientServed
  if_allowed none cr served = served
  if_allowed (some status) cr served = (cr, rejected status)

  unfoldable pub handle_clients :
      String
      → String
      → String
      → String
      → String
      → Option ClientRegistration
      → Option (ClientRegistry b)
      → ClientServed
  handle_clients api_key auth method id now req cr = if_allowed (authenticate api_key auth) cr (
      if method == "GET"
      then (cr, serve_client_list cr)
      else if method == "POST"
      then register_client id now req cr
      else (cr, rejected 405))

  unfoldable pub handle_client_by_id :
      String → String → String → String → Option (ClientRegistry b) → ClientServed
  handle_client_by_id api_key auth method path cr =
      let id = if starts_with path "/api/v1/clients/" then slice path 16 (len path) else path in
      if_allowed (authenticate api_key auth) cr (
        if id == ""
        then (cr, rejected 400)
        else if method == "GET"
        then (cr, serve_client id cr)
        else if method == "DELETE"
        then delete_client id cr
        else (cr, rejected 405))
