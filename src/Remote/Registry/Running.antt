-- ===== src/Remote/Registry/Running.antt =====
-- Which clients of the registry have an emitter that runs.
use tokenomics.Base.{
  List, ◌++◌, not, ◌&&◌, ◌||◌, subst, String, Bool, true, false, [], ◌∷◌, Option, none, some,
  Result, ok, err, if◌then◌else◌, ◌≡◌, refl, arith, Bool-cases, inl, inr,
}
use tokenomics.Base.Eq.{string_eq, ◌==◌, ==_iff}
use tokenomics.Base.Dict.{Dict, lookup, lookup-insert, lookup-erase}
use tokenomics.Base.Reach.{Reach, Reach_inv}
use tokenomics.Events.Webhook
use tokenomics.Events.Webhook.{WebhookEmitter}
use tokenomics.Remote.Registry.{
  ClientRegistration, Bucket, ClientRegistry, UrlError, registration_to_config, on_each, stored,
  marshalled, validated, validate_webhook_url, store_client, start_emitter, removed, known,
  remove_client, stop_emitter, emit, Pending, to_start, to_stop, Serving, finish_call, registering,
  unregistering, is_stopping, Step, registers, unregisters, finishes, emits,
}

abbrev pub is_present {ℓ} : {A : Type ℓ} → Option A → Bool
is_present none = false
is_present (some a) = true

-- What bbolt documents of its reads after a write.
pub record BucketLaws (b : Bucket) : Type 0 where
  pub get-put :
      (db db' : b.Db) (k j : String) (v : b.Data)
      → b.put db k v ≡ ok db'
      → b.get db' j ≡ (if k == j then some v else b.get db j)
  pub get-remove :
      (db db' : b.Db) (k j : String)
      → b.remove db k ≡ ok db'
      → b.get db' j ≡ (if k == j then none else b.get db j)

lookup-on_each :
    {V : Type 0} (f : V → V) (id : String) (m : Dict String V)
    → is_present (lookup id (on_each f m)) ≡ is_present (lookup id m)
unfolding lookup
lookup-on_each f id [] = refl
lookup-on_each f id ((k, v) ∷ m) = ground (arith, lookup-on_each f id m)

module _ (b : Bucket) where
  -- An identifier whose emitter is still to be started.
  abbrev pub is_starting : String → List (Pending b) → Bool
  is_starting id [] = false
  is_starting id (to_start reg ∷ ps) = if reg.id == id then true else is_starting id ps
  is_starting id (to_stop k ∷ ps) = is_starting id ps

  -- What the calls under way and the map of emitters say of an identifier: a stored client has an emitter that
  -- runs or is still to be started, and none whose emitter is to be stopped is stored.
  abbrev pub is_served : Bool → Bool → Bool → Bool → Bool
  is_served stored running starting stopping =
      (not stored || running || starting) && (not stopping || not stored)

  abbrev pub IsServed : Serving b → Type 0
  IsServed x =
      (id : String)
      → is_served (is_present (b.get x.registry.db id)) (is_present (lookup id x.registry.emitters))
          (is_starting id x.pending) (is_stopping b id x.pending)
        ≡ true

  is_starting-append :
      (id : String) (ps qs : List (Pending b))
      → is_starting id (ps ++ qs) ≡ (is_starting id ps || is_starting id qs)
  is_starting-append id [] qs = refl
  is_starting-append id (to_start reg ∷ ps) qs = ground (arith, is_starting-append id ps qs)
  is_starting-append id (to_stop k ∷ ps) qs = is_starting-append id ps qs

  is_stopping-append :
      (id : String) (ps qs : List (Pending b))
      → is_stopping b id (ps ++ qs) ≡ (is_stopping b id ps || is_stopping b id qs)
  is_stopping-append id [] qs = refl
  is_stopping-append id (to_start reg ∷ ps) qs = is_stopping-append id ps qs
  is_stopping-append id (to_stop k ∷ ps) qs = ground (arith, is_stopping-append id ps qs)

module _ (b : Bucket) (laws : BucketLaws b) where
  stored-IsServed :
      (x : Serving b) (reg : ClientRegistration) (v : b.Data) (r : Result b.DbError b.Db)
      → b.put x.registry.db reg.id v ≡ r
      → is_stopping b reg.id x.pending ≡ false
      → IsServed b x
      → IsServed b (registering b x (stored b reg r))
  stored-IsServed x reg v (err e) h fresh served id = served id
  stored-IsServed x reg v (ok db) h fresh served id =
      ground (arith, served id, laws.get-put x.registry.db db reg.id id v h, ==_iff reg.id id)

  marshalled-IsServed :
      (x : Serving b) (reg : ClientRegistration) (o : Option b.Data)
      → is_stopping b reg.id x.pending ≡ false
      → IsServed b x
      → IsServed b (registering b x (marshalled b reg x.registry.db o))
  marshalled-IsServed x reg none fresh served = served
  marshalled-IsServed x reg (some v) fresh served =
      stored-IsServed x reg v (b.put x.registry.db reg.id v) refl fresh served

  validated-IsServed :
      (x : Serving b) (reg : ClientRegistration) (o : Option UrlError)
      → is_stopping b reg.id x.pending ≡ false
      → IsServed b x
      → IsServed b (registering b x (validated b reg x.registry.db o))
  validated-IsServed x reg (some e) fresh served = served
  validated-IsServed x reg none fresh served =
      marshalled-IsServed x reg (b.marshal reg) fresh served

  registering-IsServed :
      (id now : String) (reg : ClientRegistration) (x : Serving b)
      → is_stopping b id x.pending ≡ false
      → IsServed b x
      → IsServed b (registering b x (store_client b id now reg x.registry.db))
  unfolding store_client
  registering-IsServed id now reg x fresh served = elim (Bool-cases (reg.url == "")) [
    | inl e ↦ rw e served
    | inr e ↦ rw e (
        validated-IsServed x (record reg { id = id; created_at = now })
          (validate_webhook_url b reg.url) fresh served)
  ]

  removed-IsServed :
      (x : Serving b) (id : String) (r : Result b.DbError b.Db)
      → b.remove x.registry.db id ≡ r
      → IsServed b x
      → IsServed b (unregistering b id x (removed b r))
  removed-IsServed x id (err e) h served j = served j
  removed-IsServed x id (ok db) h served j =
      ground (arith, served j, laws.get-remove x.registry.db db id j h)

  known-IsServed :
      (x : Serving b) (id : String) (o : Option b.Data)
      → IsServed b x
      → IsServed b (unregistering b id x (known b id x.registry.db o))
  known-IsServed x id none served = served
  known-IsServed x id (some v) served =
      removed-IsServed x id (b.remove x.registry.db id) refl served

  finish_call-IsServed :
      (cr : ClientRegistry b) (ps qs : List (Pending b)) (q : Pending b)
      → IsServed b (record { registry = cr; pending = ps ++ q ∷ qs })
      → IsServed b (record { registry = finish_call b q cr; pending = ps ++ qs })
  unfolding finish_call start_emitter stop_emitter
  finish_call-IsServed cr ps qs (to_start reg) served id = ground (
    arith,
    served id,
    is_starting-append b id ps (to_start reg ∷ qs),
    is_starting-append b id ps qs,
    is_stopping-append b id ps (to_start reg ∷ qs),
    is_stopping-append b id ps qs,
    lookup-insert reg.id id (Webhook.new_webhook_emitter (registration_to_config reg)) cr.emitters,
  )
  finish_call-IsServed cr ps qs (to_stop k) served id = ground (
    arith,
    served id,
    is_starting-append b id ps (to_stop k ∷ qs),
    is_starting-append b id ps qs,
    is_stopping-append b id ps (to_stop k ∷ qs),
    is_stopping-append b id ps qs,
    lookup-erase k id cr.emitters,
  )

  Step-IsServed : (x y : Serving b) → Step b x y → IsServed b x → IsServed b y
  unfolding remove_client emit
  Step-IsServed x y (registers id now reg fresh e) served =
      rw e (registering-IsServed id now reg x fresh served)
  Step-IsServed x y (unregisters id e) served =
      rw e (known-IsServed x id (b.get x.registry.db id) served)
  Step-IsServed x y (finishes ps qs q at e) served = rw e (
      finish_call-IsServed x.registry ps qs q
        (subst (λ l. IsServed b (record { registry = x.registry; pending = l })) at served))
  Step-IsServed x y (emits event e) served =
      rw e (λ id.
        ground (arith, served id, lookup-on_each (Webhook.emit event) id x.registry.emitters))

  -- However clients are registered and unregistered and events emitted, failures of the bucket included, and however the
  -- parts of the calls before and under the lock interleave: where every stored client starts with an emitter
  -- that runs or that a call is still to start, and no client whose emitter a call is to stop is stored, it stays so,
  -- while a registration has no identifier whose removal is under way.
  pub Reach-IsServed : {x y : Serving b} → IsServed b x → Reach (Step b) x y → IsServed b y
  Reach-IsServed served r = Reach_inv (IsServed b) Step-IsServed served r
