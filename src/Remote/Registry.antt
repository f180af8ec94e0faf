-- ===== src/Remote/Registry.antt =====
-- internal/remote/client_registry.go: the webhook clients, kept in a bucket of bbolt and each with an emitter
-- that runs. A write of the bucket and the change of the emitters after it are one step.
pub mod Running
use tokenomics.Base.{
  String, Bool, true, false, List, [], ◌∷◌, ◌++◌, Option, none, some, Result, ok, err, ◌>>=◌,
  if◌then◌else◌, ◌≡◌, not, ◌&&◌, map,
}
use tokenomics.Base.Eq.{string_eq, ◌==◌}
use tokenomics.Base.Dict.{Dict, lookup, insert, erase}
use tokenomics.Events.{Event}
use tokenomics.Events.Webhook
use tokenomics.Events.Webhook.{WebhookConfig, WebhookEmitter, new_webhook_emitter}

pub record ClientRegistration : Type 0 where
  pub id : String
  pub url : String
  pub secret : String
  pub signing_key : String
  pub events : List String
  pub insecure : Bool
  pub created_at : String

-- Package bbolt and encoding/json on the bucket `webhook_clients`, and `url.Parse`, as its scheme and host.
pub record Bucket : Type 1 where
  pub Db : Type 0
  pub DbError : Type 0
  pub Data : Type 0
  pub get : Db → String → Option Data
  pub put : Db → String → Data → Result DbError Db
  pub remove : Db → String → Result DbError Db
  pub entries : Db → Result DbError (List (String × Data))
  pub marshal : ClientRegistration → Option Data
  pub unmarshal : Data → Option ClientRegistration
  pub parse_url : String → Option (String × String)

unfoldable pub registration_to_config : ClientRegistration → WebhookConfig
registration_to_config reg = record {
  url = reg.url;
  secret = reg.secret;
  signing_key = reg.signing_key;
  events = reg.events;
  insecure = reg.insecure;
  timeout_sec = 10;
}

pub data UrlError : Type 0 where
  unparsed wrong_scheme no_host : UrlError

abbrev pub checked_url : Option (String × String) → Option UrlError
checked_url none = some unparsed
checked_url (some (scheme, host)) =
    if not (scheme == "http") && not (scheme == "https")
    then some wrong_scheme
    else if host == ""
    then some no_host
    else none

pub data RegistryError (E : Type 0) : Type 0 where
  url_required not_marshalled client_not_found : RegistryError E
  invalid_url : UrlError → RegistryError E
  not_stored not_deleted : E → RegistryError E

abbrev pub on_each {ℓ κ} : {K : Type ℓ} {V : Type κ} → (V → V) → Dict K V → Dict K V
on_each f [] = []
on_each f ((k, v) ∷ m) = (k, f v) ∷ on_each f m

abbrev pub closed : Option WebhookEmitter → List WebhookEmitter
closed none = []
closed (some w) = Webhook.close w ∷ []

abbrev close_each : Dict String WebhookEmitter → List WebhookEmitter
close_each [] = []
close_each ((id, w) ∷ m) = Webhook.close w ∷ close_each m

module _ (b : Bucket) where
  open b use {Db, DbError, Data, get, put, remove, entries, marshal, unmarshal, parse_url}

  -- `ClientRegistry`; the emitters that it has closed are kept beside it.
  pub record ClientRegistry : Type 0 where
    pub db : Db
    pub emitters : Dict String WebhookEmitter
    pub retired : List WebhookEmitter

  unfoldable pub validate_webhook_url : String → Option UrlError
  validate_webhook_url url = checked_url (parse_url url)

  unfoldable pub readable_clients : List (String × Data) → List ClientRegistration
  readable_clients [] = []
  readable_clients ((k, v) ∷ es) = elim (unmarshal v) [
    | none ↦ readable_clients es
    | some reg ↦ reg ∷ readable_clients es
  ]

  unfoldable pub list_clients : ClientRegistry → Result DbError (List ClientRegistration)
  list_clients cr = entries cr.db >>= λ es. ok (readable_clients es)

  abbrev pub start_all :
      List ClientRegistration → Dict String WebhookEmitter → Dict String WebhookEmitter
  start_all [] m = m
  start_all (c ∷ cs) m =
      start_all cs (insert c.id (new_webhook_emitter (registration_to_config c)) m)

  unfoldable pub new_client_registry : Db → Result DbError ClientRegistry
  new_client_registry db = list_clients (record { db = db; emitters = []; retired = [] }) >>= λ cs.
      ok (record { db = db; emitters = start_all cs []; retired = [] })

  abbrev pub stored :
      ClientRegistration
      → Result DbError Db
      → Result (RegistryError DbError) (Db × ClientRegistration)
  stored reg (err e) = err (not_stored e)
  stored reg (ok db) = ok (db, reg)

  abbrev pub marshalled :
      ClientRegistration
      → Db
      → Option Data
      → Result (RegistryError DbError) (Db × ClientRegistration)
  marshalled reg db none = err not_marshalled
  marshalled reg db (some v) = stored reg (put db reg.id v)

  abbrev pub validated :
      ClientRegistration
      → Db
      → Option UrlError
      → Result (RegistryError DbError) (Db × ClientRegistration)
  validated reg db (some e) = err (invalid_url e)
  validated reg db none = marshalled reg db (marshal reg)

  -- `Register` up to the write of the bucket, with the random identifier and the time.
  unfoldable pub store_client :
      String
      → String
      → ClientRegistration
      → Db
      → Result (RegistryError DbError) (Db × ClientRegistration)
  store_client id now reg db =
      if reg.url == ""
      then err url_required
      else validated (record reg { id = id; created_at = now }) db (validate_webhook_url reg.url)

  -- What `Register` does after it, under the lock.
  unfoldable pub start_emitter : ClientRegistration → ClientRegistry → ClientRegistry
  start_emitter reg cr = record cr {
    emitters = insert reg.id (new_webhook_emitter (registration_to_config reg)) cr.emitters;
  }

  abbrev pub started :
      ClientRegistry
      → Result (RegistryError DbError) (Db × ClientRegistration)
      → ClientRegistry × Result (RegistryError DbError) ClientRegistration
  started cr (err e) = (cr, err e)
  started cr (ok (db, reg)) = (start_emitter reg (record cr { db = db }), ok reg)

  -- `Register`, where no other call comes between its two parts.
  unfoldable pub register :
      String
      → String
      → ClientRegistration
      → ClientRegistry
      → ClientRegistry × Result (RegistryError DbError) ClientRegistration
  register id now reg cr = started cr (store_client id now reg cr.db)

  abbrev pub removed : Result DbError Db → Result (RegistryError DbError) Db
  removed (err e) = err (not_deleted e)
  removed (ok db) = ok db

  abbrev pub known : String → Db → Option Data → Result (RegistryError DbError) Db
  known id db none = err client_not_found
  known id db (some v) = removed (remove db id)

  -- The transaction of `Unregister`.
  unfoldable pub remove_client : String → Db → Result (RegistryError DbError) Db
  remove_client id db = known id db (get db id)

  -- What `Unregister` does after it, under the lock.
  unfoldable pub stop_emitter : String → ClientRegistry → ClientRegistry
  stop_emitter id cr = record cr {
    emitters = erase id cr.emitters;
    retired = cr.retired ++ closed (lookup id cr.emitters);
  }

  abbrev pub stopped :
      ClientRegistry
      → String
      → Result (RegistryError DbError) Db
      → ClientRegistry × Result (RegistryError DbError) (Unit {0})
  stopped cr id (err e) = (cr, err e)
  stopped cr id (ok db) = (stop_emitter id (record cr { db = db }), ok tt)

  -- `Unregister`, where no other call comes between its two parts.
  unfoldable pub unregister :
      String → ClientRegistry → ClientRegistry × Result (RegistryError DbError) (Unit {0})
  unregister id cr = stopped cr id (remove_client id cr.db)

  -- `Get`; none is an error of the JSON, and `some none` a client that is not there.
  unfoldable pub get_client : String → ClientRegistry → Option (Option ClientRegistration)
  get_client id cr = elim (get cr.db id) [
    | none ↦ some none
    | some v ↦ elim (unmarshal v) [ none ↦ none | some reg ↦ some (some reg) ]
  ]

  -- `Emit`: an emitter gives no error.
  unfoldable pub emit : Event → ClientRegistry → ClientRegistry
  emit event cr = record cr { emitters = on_each (Webhook.emit event) cr.emitters }

  -- `Close`, less the closing of the database.
  unfoldable pub close_registry : ClientRegistry → ClientRegistry
  close_registry cr = record cr { emitters = []; retired = cr.retired ++ close_each cr.emitters }

  -- The second parts of calls that have changed the bucket and wait for the lock.
  pub data Pending : Type 0 where
    to_start : ClientRegistration → Pending
    to_stop : String → Pending

  -- The registry with the calls that are under way.
  pub record Serving : Type 0 where
    pub registry : ClientRegistry
    pub pending : List Pending

  unfoldable pub finish_call : Pending → ClientRegistry → ClientRegistry
  finish_call (to_start reg) cr = start_emitter reg cr
  finish_call (to_stop id) cr = stop_emitter id cr

  abbrev pub registering :
      Serving → Result (RegistryError DbError) (Db × ClientRegistration) → Serving
  registering x (err e) = x
  registering x (ok (db, reg)) = record {
    registry = record (x.registry) { db = db };
    pending = to_start reg ∷ x.pending;
  }

  abbrev pub unregistering : String → Serving → Result (RegistryError DbError) Db → Serving
  unregistering id x (err e) = x
  unregistering id x (ok db) = record {
    registry = record (x.registry) { db = db };
    pending = to_stop id ∷ x.pending;
  }

  -- An identifier for which an emitter is still to be stopped.
  abbrev pub is_stopping : String → List Pending → Bool
  is_stopping id [] = false
  is_stopping id (to_start reg ∷ ps) = is_stopping id ps
  is_stopping id (to_stop k ∷ ps) = if k == id then true else is_stopping id ps

  -- The two parts of the calls that the server makes of a registry, and events, in any order. The identifier of a
  -- registration, 16 random bytes, is none of a client whose removal is under way.
  pub data Step (x y : Serving) : Type 0 where
    registers :
        (id now : String) (reg : ClientRegistration)
        → is_stopping id x.pending ≡ false
        → y ≡ registering x (store_client id now reg x.registry.db)
        → Step x y
    unregisters : (id : String) → y ≡ unregistering id x (remove_client id x.registry.db) → Step x y
    finishes :
        (ps qs : List Pending) (q : Pending)
        → x.pending ≡ ps ++ q ∷ qs
        → y ≡ record { registry = finish_call q x.registry; pending = ps ++ qs }
        → Step x y
    emits : (event : Event) → y ≡ record x { registry = emit event x.registry } → Step x y
