-- ===== src/Store/Bolt.antt =====
-- internal/store/bolt.go: the operations of `BoltStore`, each giving the store that it leaves. The
-- mutex, the events that it emits, the log and the watch of the file are not modelled.
use tokenomics.Base.{
  String, Bool, false, not, ◌&&◌, List, [], ◌∷◌, Option, none, some, Result, ok, err, ◌>>=◌,
  if◌then◌else◌,
}
use tokenomics.Base.Eq.{string_eq, ◌==◌}
use tokenomics.Base.Dict.{Dict, insert}
use tokenomics.Policy.Regex.{Regex}
use tokenomics.Policy.Resolve.{Policy}
use tokenomics.Policy.Parse.{ParseError, parse}
use tokenomics.Store.Crypto.{CryptoError, encrypt, decrypt, derive_key}
use tokenomics.Store.Services.{Services, BoltRecord}

-- `cacheEntry`
pub record CacheEntry (P T : Type 0) : Type 0 where
  pub policy : P
  pub expires_at : T

pub record TokenRecord (P : Type 0) : Type 0 where
  pub token_hash : String
  pub policy : P
  pub policy_raw : String
  pub created_at : String
  pub expires_at : String

pub data StoreError (E : Type 0) : Type 0 where
  parse_failed : ParseError → StoreError E
  encrypt_failed decrypt_failed : CryptoError → StoreError E
  invalid_expires_at marshal_failed unmarshal_failed no_encryption_key : StoreError E
  already_exists token_not_found : StoreError E
  db_failed reload_failed : E → StoreError E

module _ {re : Regex} (svc : Services re) where
  open svc use {
    crypto, unmarshal_policy, Time, zero_time, is_zero, after, parse_time, Data, marshal, unmarshal,
    Db, DbError, get, put, remove, entries,
  }

  abbrev pub Entry : Type 0
  Entry = CacheEntry (Policy re.Regexp) Time

  abbrev pub Error : Type 0
  Error = StoreError DbError

  pub record BoltStore : Type 0 where
    pub db : Db
    pub encryption_key : Option (List svc.crypto.Byte)
    pub cache : Dict String Entry

  unfoldable pub new_bolt_store : Db → String → BoltStore
  new_bolt_store db secret = record {
    db = db;
    encryption_key = if not (secret == "") then some (derive_key crypto secret) else none;
    cache = [];
  }

  abbrev pub failing {ℓ κ ι} :
      {A : Type ℓ} {E : Type κ} {F : Type ι} → (E → F) → Result E A → Result F A
  failing f (ok a) = ok a
  failing f (err e) = err (f e)

  abbrev pub or_fail {ℓ κ} : {A : Type ℓ} {E : Type κ} → E → Option A → Result E A
  or_fail e none = err e
  or_fail e (some a) = ok a

  unfoldable pub encrypt_policy :
      Option (List svc.crypto.Byte)
      → Option (List svc.crypto.Byte)
      → String
      → Result Error (String × String)
  encrypt_policy none fresh json = ok (json, "")
  encrypt_policy (some key) fresh json =
      failing encrypt_failed (encrypt crypto fresh json key) >>= λ enc. ok ("", enc)

  unfoldable pub decrypt_policy : Option (List svc.crypto.Byte) → BoltRecord → Result Error String
  decrypt_policy key rec =
      if not (rec.encrypted == "")
      then elim key [
        | none ↦ err no_encryption_key
        | some k ↦ failing decrypt_failed (decrypt crypto rec.encrypted k)
      ]
      else ok rec.policy_json

  unfoldable pub parse_policy : String → Result Error (Policy re.Regexp)
  parse_policy json = failing parse_failed (parse re unmarshal_policy json)

  -- The steps that `Get`, `List` and `Reload` share: the record, its text and its policy.
  unfoldable pub read_record :
      Option (List svc.crypto.Byte) → Data → Result Error (BoltRecord × String × Policy re.Regexp)
  read_record key v = do
    rec ← or_fail unmarshal_failed (unmarshal v)
    json ← decrypt_policy key rec
    p ← parse_policy json
    ok (rec, json, p)

  unfoldable pub expiry_of : String → Time
  expiry_of s =
      if not (s == "") then elim (parse_time s) [ none ↦ zero_time | some t ↦ t ] else zero_time

  -- What `Reload` caches for a record: nothing, if it cannot be read.
  unfoldable pub entry_of : Option (List svc.crypto.Byte) → Data → Option Entry
  entry_of key v = elim (read_record key v) [
    | err e ↦ none
    | ok (rec, json, p) ↦ some (record { policy = p; expires_at = expiry_of rec.expires_at })
  ]

  unfoldable pub cache_entries :
      Option (List svc.crypto.Byte) → Dict String Entry → List (String × Data) → Dict String Entry
  cache_entries key m [] = m
  cache_entries key m ((k, v) ∷ es) = elim (entry_of key v) [
    | none ↦ cache_entries key m es
    | some e ↦ cache_entries key (insert k e m) es
  ]

  unfoldable pub reload : BoltStore → BoltStore × Result Error (Unit {0})
  reload s = elim (entries s.db) [
    | err e ↦ (s, err (reload_failed e))
    | ok es ↦ (record s { cache = cache_entries s.encryption_key [] es }, ok tt)
  ]

  -- A transaction that failed changes nothing; the cache follows one that did not.
  unfoldable pub commit : BoltStore → Result Error Db → BoltStore × Result Error (Unit {0})
  commit s (err e) = (s, err e)
  commit s (ok db) = reload (record s { db = db })

  unfoldable pub check_expiry : String → Bool → Result Error (Unit {0})
  check_expiry expires_at allowed =
      if not (expires_at == "") && not allowed
      then (or_fail invalid_expires_at (parse_time expires_at) >>= λ t. ok tt)
      else ok tt

  unfoldable pub insert_new : Db → String → Data → Result Error Db
  insert_new db hash v = elim (get db hash) [
    | some old ↦ err already_exists
    | none ↦ failing db_failed (put db hash v)
  ]

  -- `now` is the current time as text, and `fresh` the nonce that `rand.Reader` gives.
  unfoldable pub create_tx :
      BoltStore
      → String
      → String
      → String
      → String
      → Option (List svc.crypto.Byte)
      → Result Error Db
  create_tx s hash json expires_at now fresh = do
    p ← parse_policy json
    u ← check_expiry expires_at false
    enc ← encrypt_policy s.encryption_key fresh json
    v ← or_fail marshal_failed (
        marshal (record {
          policy_json = enc.0;
          encrypted = enc.1;
          created_at = now;
          expires_at = expires_at;
        }))
    insert_new s.db hash v

  unfoldable pub create :
      BoltStore
      → String
      → String
      → String
      → String
      → Option (List svc.crypto.Byte)
      → BoltStore × Result Error (Unit {0})
  create s hash json expires_at now fresh = commit s (create_tx s hash json expires_at now fresh)

  unfoldable pub get_token :
      BoltStore → String → Result Error (Option (TokenRecord (Policy re.Regexp)))
  get_token s hash = elim (get s.db hash) [
    | none ↦ ok none
    | some v ↦ read_record s.encryption_key v >>= λ r. ok (
        some (record {
          token_hash = hash;
          policy = r.2;
          policy_raw = r.1;
          created_at = (r.0).created_at;
          expires_at = (r.0).expires_at;
        }))
  ]

  unfoldable pub new_expiry : String → String → String
  new_expiry expires_at old =
      if expires_at == "clear" then "" else if not (expires_at == "") then expires_at else old

  unfoldable pub new_policy :
      Option (List svc.crypto.Byte)
      → Option (List svc.crypto.Byte)
      → String
      → BoltRecord
      → Result Error BoltRecord
  new_policy key fresh json rec =
      if not (json == "")
      then (encrypt_policy key fresh json >>= λ enc.
          ok (record rec { policy_json = enc.0; encrypted = enc.1 }))
      else ok rec

  unfoldable pub check_policy : String → Result Error (Unit {0})
  check_policy json = if not (json == "") then (parse_policy json >>= λ p. ok tt) else ok tt

  unfoldable pub update_tx :
      BoltStore → String → String → String → Option (List svc.crypto.Byte) → Result Error Db
  update_tx s hash json expires_at fresh = do
    u ← check_policy json
    w ← check_expiry expires_at (expires_at == "clear")
    existing ← or_fail token_not_found (get s.db hash)
    rec ← or_fail unmarshal_failed (unmarshal existing)
    rec' ← new_policy s.encryption_key fresh json rec
    v ←
        or_fail marshal_failed
          (marshal (record rec' { expires_at = new_expiry expires_at rec'.expires_at }))
    failing db_failed (put s.db hash v)

  unfoldable pub update :
      BoltStore
      → String
      → String
      → String
      → Option (List svc.crypto.Byte)
      → BoltStore × Result Error (Unit {0})
  update s hash json expires_at fresh = commit s (update_tx s hash json expires_at fresh)

  unfoldable pub delete_tx : BoltStore → String → Result Error Db
  delete_tx s hash = elim (get s.db hash) [
    | none ↦ err token_not_found
    | some v ↦ failing db_failed (remove s.db hash)
  ]

  unfoldable pub delete : BoltStore → String → BoltStore × Result Error (Unit {0})
  delete s hash = commit s (delete_tx s hash)

  -- `List`, over the entries of the bucket.
  unfoldable pub readable :
      Option (List svc.crypto.Byte) → List (String × Data) → List (TokenRecord (Policy re.Regexp))
  readable key [] = []
  readable key ((k, v) ∷ es) = elim (read_record key v) [
    | err e ↦ readable key es
    | ok (rec, json, p) ↦
        record {
          token_hash = k;
          policy = p;
          policy_raw = json;
          created_at = rec.created_at;
          expires_at = rec.expires_at;
        }
        ∷ readable key es
  ]

  unfoldable pub list_tokens : BoltStore → Result Error (List (TokenRecord (Policy re.Regexp)))
  list_tokens s = failing db_failed (entries s.db) >>= λ es. ok (readable s.encryption_key es)
