-- ===== src/Remote/Bolt.antt =====
-- The bolt store as the `TokenStore` that the remote server and client work on, and its laws. Each write
-- reads the clock and the random source once more: the second component counts these readings.
use tokenomics.Base.{
  String, ◌≡◌, ◌≢◌, refl, sym, ◌∙◌, ap, ℕ, suc, List, map, Option, none, some, Result, ok, err,
  false, ◌>>=◌, Option-cases, Result-cases, inl, inr, arith,
}
use tokenomics.Base.Eq.{string_eq, ◌==◌, ==_iff}
use tokenomics.Policy.Regex.{Regex}
use tokenomics.Policy.Compiled.{>>=-eq-ok}
use tokenomics.Policy.Resolve.{Policy}
use tokenomics.Store.Services.{Services, ServiceLaws}
use tokenomics.Store.Bolt.{
  BoltStore, Error, TokenRecord, create_tx, update_tx, create, update, commit, reload, insert_new,
  failing, or_fail, get_token, list_tokens, read_record, parse_policy, check_expiry, check_policy,
  encrypt_policy, token_not_found, unmarshal_failed, db_failed, marshal_failed, new_policy,
}
use tokenomics.Remote.{Token, TokenStore}
use tokenomics.Remote.Additive.{Laws}

abbrev token_of : {P : Type 0} → TokenRecord P → Token
token_of r = record {
  token_hash = r.token_hash;
  policy_raw = r.policy_raw;
  created_at = r.created_at;
  expires_at = r.expires_at;
}

abbrev result_map {ℓ κ ι} :
    {E : Type ι} {A : Type ℓ} {B : Type κ} → (A → B) → Result E A → Result E B
result_map f (ok a) = ok (f a)
result_map f (err e) = err e

abbrev option_map {ℓ κ} : {A : Type ℓ} {B : Type κ} → (A → B) → Option A → Option B
option_map f none = none
option_map f (some a) = some (f a)

module _ {re : Regex} (svc : Services re) where
  abbrev pub bolt_tokens : (ℕ → String) → (ℕ → Option (List svc.crypto.Byte)) → TokenStore
  bolt_tokens now fresh = record {
    State = BoltStore svc × ℕ;
    Error = Error svc;
    create = λ s hash json expires_at.
        (let (s', r) = create svc s.0 hash json expires_at (now s.1) (fresh s.1) in
          ((s', suc s.1), r));
    get = λ s hash. result_map (option_map token_of) (get_token svc s.0 hash);
    update = λ s hash json expires_at.
        (let (s', r) = update svc s.0 hash json expires_at (fresh s.1) in ((s', suc s.1), r));
    list = λ s. result_map (map token_of) (list_tokens svc s.0);
  }

  module _ (laws : ServiceLaws svc) where
    open svc use {Db, Data, get, put, entries}

    put-get :
        (old db : Db) (k j : String) (v : Data)
        → k ≢ j
        → failing svc {F = Error svc} db_failed (put old k v) ≡ ok db
        → get db j ≡ get old j
    put-get old db k j v ne = go (put old k v) refl
      where
        go :
            (r : Result svc.DbError Db)
            → put old k v ≡ r
            → failing svc {F = Error svc} db_failed r ≡ ok db
            → get db j ≡ get old j
        go (err x) h e = ground arith
        go (ok db') h e = ground (arith, laws.get-put old db' k j v h, ==_iff k j)

    insert_new-get :
        (old db : Db) (k j : String) (v : Data)
        → k ≢ j
        → insert_new svc old k v ≡ ok db
        → get db j ≡ get old j
    unfolding insert_new
    insert_new-get old db k j v ne = elim (Option-cases (get old k)) [
      | inl e ↦ rw (insert_new, e) (put-get old db k j v ne)
      | inr (x, e) ↦ rw (insert_new, e) (λ h. ground arith)
    ]

    -- A transaction that keeps what is under the other hashes.
    create_tx-get :
        (s : BoltStore svc) (k j json expires_at now : String)
        (fresh : Option (List svc.crypto.Byte)) (db : Db)
        → k ≢ j
        → create_tx svc s k json expires_at now fresh ≡ ok db
        → get db j ≡ get s.db j
    unfolding create_tx
    create_tx-get s k j json expires_at now fresh db ne e =
        let (p, e1, e2) = >>=-eq-ok (parse_policy svc json) _ e in
        let (u, e3, e4) = >>=-eq-ok (check_expiry svc expires_at false) _ e2 in
        let (enc, e5, e6) = >>=-eq-ok (encrypt_policy svc s.encryption_key fresh json) _ e4 in
        let (v, e7, e8) = >>=-eq-ok (or_fail svc marshal_failed (svc.marshal _)) _ e6 in
        insert_new-get s.db db k j v ne e8

    update_tx-get :
        (s : BoltStore svc) (k j json expires_at : String) (fresh : Option (List svc.crypto.Byte))
        (db : Db)
        → k ≢ j
        → update_tx svc s k json expires_at fresh ≡ ok db
        → get db j ≡ get s.db j
    unfolding update_tx
    update_tx-get s k j json expires_at fresh db ne e =
        let (u, e1, e2) = >>=-eq-ok (check_policy svc json) _ e in
        let (w, e3, e4) = >>=-eq-ok (check_expiry svc expires_at (expires_at == "clear")) _ e2 in
        let (x, e5, e6) = >>=-eq-ok (or_fail svc token_not_found (get s.db k)) _ e4 in
        let (rec, e7, e8) = >>=-eq-ok (or_fail svc unmarshal_failed (svc.unmarshal x)) _ e6 in
        let (rec', e9, e10) = >>=-eq-ok (new_policy svc s.encryption_key fresh json rec) _ e8 in
        let (v, e11, e12) = >>=-eq-ok (or_fail svc marshal_failed (svc.marshal _)) _ e10 in
        put-get s.db db k j v ne e12

    -- `Get` reads the database and the key, which a commit leaves but for what it writes.
    abbrev shown :
        Option (List svc.crypto.Byte)
        → String
        → Option Data
        → Result (Error svc) (Option (TokenRecord (Policy re.Regexp)))
    shown key hash o = elim o [
      | none ↦ ok none
      | some v ↦ read_record svc key v >>= λ r. ok (
          some (record {
            token_hash = hash;
            policy = r.2;
            policy_raw = r.1;
            created_at = (r.0).created_at;
            expires_at = (r.0).expires_at;
          }))
    ]

    get_token-shown :
        (s : BoltStore svc) (j : String) → get_token svc s j ≡ shown s.encryption_key j (get s.db j)
    unfolding get_token
    get_token-shown s j = refl

    reload-get_token :
        (s : BoltStore svc) (j : String)
        → get_token svc (reload svc s).0 j ≡ shown s.encryption_key j (get s.db j)
    unfolding reload
    reload-get_token s j = elim (Result-cases (entries s.db)) [
      | inl (es, e) ↦ rw (reload, e) (get_token-shown _ j)
      | inr (x, e) ↦ rw (reload, e) (get_token-shown s j)
    ]

    commit-get_token :
        (s : BoltStore svc) (r : Result (Error svc) Db) (j : String)
        → ((db : Db) → r ≡ ok db → get db j ≡ get s.db j)
        → get_token svc (commit svc s r).0 j ≡ get_token svc s j
    unfolding commit
    commit-get_token s (err e) j h = refl
    commit-get_token s (ok db) j h =
        reload-get_token (record s { db = db }) j
        ∙ ap (shown s.encryption_key j) (h db refl)
        ∙ sym (get_token-shown s j)

    -- The bolt store implements the interface.
    pub bolt-Laws :
        (now : ℕ → String) (fresh : ℕ → Option (List svc.crypto.Byte))
        → Laws (bolt_tokens now fresh)
    unfolding create update
    bolt-Laws now fresh = record {
      get-create = λ s hash policy expires_at other ne. ap (result_map (option_map token_of)) (
          commit-get_token s.0 _ other
            (λ db. create_tx-get s.0 hash other policy expires_at (now s.1) (fresh s.1) db ne));
      get-update = λ s hash policy expires_at other ne. ap (result_map (option_map token_of)) (
          commit-get_token s.0 _ other
            (λ db. update_tx-get s.0 hash other policy expires_at (fresh s.1) db ne));
    }
