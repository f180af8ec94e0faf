-- ===== src/Remote/Tests.antt =====
-- Synchronising a bolt store that holds the token "a" with a remote that lists "b", and a registry of one client.
use tokenomics.Base.Dict.{Dict, lookup, insert, erase, lookup-insert, lookup-erase}
use tokenomics.Base.Reach.{here, next}
use tokenomics.Remote.Registry.{
  Bucket, ClientRegistration, ClientRegistry, register, list_clients, readable_clients,
  validate_webhook_url, Step, registers, unregisters, finishes, to_start, to_stop, Serving,
  finish_call, start_emitter, stop_emitter, store_client, remove_client, is_stopping,
}
use tokenomics.Remote.Registry.Running.{
  BucketLaws, is_present, is_served, is_starting, IsServed, Reach-IsServed,
}
use tokenomics.Base.{String, true, false, arith, ◌≡◌, refl, ok, [], ◌∷◌, some}
use tokenomics.Base.Eq.{string_eq, ==_ne}
use tokenomics.Store.Samples.{one_slot, one_slot-ServiceLaws, full_store}
use tokenomics.Remote.{TokenStore, TokenResponse, sync_to}
use tokenomics.Remote.Additive.{sync_to-get}
use tokenomics.Remote.Bolt.{bolt_tokens, bolt-Laws}

abbrev local : TokenStore
local = bolt_tokens one_slot (λ i. "now") (λ i. some ("n" ∷ []))

abbrev listed : TokenResponse
listed = record { token_hash = "b"; policy = "policy"; created_at = "now"; expires_at = "" }

sync_to-get_example :
    local.get (sync_to local {E = String} (ok (listed ∷ [])) (full_store, 0)).0 "a"
    ≡ local.get (full_store, 0) "a"
sync_to-get_example =
    sync_to-get local (bolt-Laws one_slot one_slot-ServiceLaws (λ i. "now") (λ i. some ("n" ∷ [])))
      String (listed ∷ []) (full_store, 0) "a" (==_ne "b" "a" refl, tt)

-- A bucket with no limit, as an association list.
abbrev listing : Bucket
listing = record {
  Db = Dict String ClientRegistration;
  DbError = String;
  Data = ClientRegistration;
  get = λ db k. lookup k db;
  put = λ db k v. ok (insert k v db);
  remove = λ db k. ok (erase k db);
  entries = λ db. ok db;
  marshal = λ reg. some reg;
  unmarshal = λ v. some v;
  parse_url = λ s. some ("https", s);
}

listing-BucketLaws : BucketLaws listing
listing-BucketLaws = record {
  get-put = λ db db' k j v e. ground (arith, lookup-insert k j v db);
  get-remove = λ db db' k j e. ground (arith, lookup-erase k j db);
}

abbrev client : ClientRegistration
client = record {
  id = "";
  url = "https://client";
  secret = "";
  signing_key = "";
  events = [];
  insecure = false;
  created_at = "";
}

abbrev no_clients : ClientRegistry listing
no_clients = record { db = []; emitters = []; retired = [] }

abbrev one_client : ClientRegistry listing
one_client = (register listing "cl_1" "now" client no_clients).0

registered :
    list_clients listing one_client ≡ ok (record client { id = "cl_1"; created_at = "now" } ∷ [])
unfolding list_clients readable_clients register validate_webhook_url insert store_client
    start_emitter
registered = refl

abbrev named : ClientRegistration
named = record client { id = "cl_1"; created_at = "now" }

abbrev idle : Serving listing
idle = record { registry = no_clients; pending = [] }

abbrev stored_only : Serving listing
stored_only = record {
  registry = record no_clients { db = ("cl_1", named) ∷ [] };
  pending = to_start named ∷ [];
}

abbrev removed_only : Serving listing
removed_only = record { registry = no_clients; pending = to_stop "cl_1" ∷ to_start named ∷ [] }

abbrev start_left : Serving listing
start_left = record {
  registry = finish_call listing (to_stop "cl_1") no_clients;
  pending = to_start named ∷ [];
}

-- A client that is unregistered before its emitter is started: the emitter then runs for no stored client.
abbrev left_running : Serving listing
left_running = record {
  registry = finish_call listing (to_start named) (finish_call listing (to_stop "cl_1") no_clients);
  pending = [];
}

runs_unstored :
    (is_present (lookup "cl_1" left_running.registry.emitters) ≡ true)
    × (is_present (lookup "cl_1" left_running.registry.db) ≡ false)
unfolding finish_call start_emitter stop_emitter lookup insert erase
runs_unstored = (refl, refl)

idle-IsServed : IsServed listing idle
unfolding lookup
idle-IsServed id = refl

Reach-IsServed_example :
    is_served listing
      (is_present (lookup "cl_1" left_running.registry.db))
      (is_present (lookup "cl_1" left_running.registry.emitters))
      (is_starting listing "cl_1" left_running.pending)
      (is_stopping listing "cl_1" left_running.pending)
    ≡ true
unfolding store_client remove_client validate_webhook_url insert erase lookup finish_call
Reach-IsServed_example =
    let first : Step listing idle stored_only = registers "cl_1" "now" client refl refl in
    let second : Step listing stored_only removed_only = unregisters "cl_1" refl in
    let third : Step listing removed_only start_left =
      finishes [] (to_start named ∷ []) (to_stop "cl_1") refl refl in
    let fourth : Step listing start_left left_running = finishes [] [] (to_start named) refl refl in
    Reach-IsServed listing listing-BucketLaws {x = idle} {y = left_running} idle-IsServed
      (next (next (next (next here first) second) third) fourth) "cl_1"
