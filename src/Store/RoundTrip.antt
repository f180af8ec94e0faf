-- ===== src/Store/RoundTrip.antt =====
-- What `Create` stores `Lookup` finds, encrypted or not, and what `Delete` removed it does not.
use tokenomics.Base.{
  String, false, List, Option, none, some, Result, ok, err, ◌≡◌, refl, subst, sym, ◌∙◌, ap, arith,
  Option-cases, Result-cases, inl, inr, length,
}
use tokenomics.Base.Eq.{string_eq, ==_refl}
use tokenomics.Policy.Regex.{Regex}
use tokenomics.Policy.Resolve.{Policy}
use tokenomics.Policy.Compiled.{>>=-eq-ok}
use tokenomics.Store.Crypto.{encrypt, decrypt-encrypt, encrypt_nonempty}
use tokenomics.Store.Services.{Services, ServiceLaws, BoltRecord}
use tokenomics.Store.Bolt.{
  BoltStore, Entry, Error, entry_of, read_record, reload, commit, create_tx, create, delete_tx,
  delete, failing, or_fail, encrypt_policy, decrypt_policy, parse_policy, check_expiry, expiry_of,
  insert_new, db_failed, marshal_failed,
}
use tokenomics.Store.Cache.{lookup_token}
use tokenomics.Store.Coherence.{bind, live, lookup_token-IsCoherent, commit-IsCoherent}

module _ {re : Regex} (svc : Services re) (laws : ServiceLaws svc) where
  open svc use {Data, Db, get, put, remove, entries, Time, crypto}

  failing-eq_ok {ℓ κ ι} :
      {A : Type ℓ} {E : Type κ} {F : Type ι} (f : E → F) (x : Result E A) (a : A)
      → failing svc f x ≡ ok a
      → x ≡ ok a
  failing-eq_ok f (ok b) a e = ground arith
  failing-eq_ok f (err b) a e = cc

  or_fail-eq_ok {ℓ κ} :
      {A : Type ℓ} {E : Type κ} (x : E) (o : Option A) (a : A) → or_fail svc x o ≡ ok a → o ≡ some a
  or_fail-eq_ok x none a e = cc
  or_fail-eq_ok x (some b) a e = ground arith

  -- The database and the key that a commit without an error leaves.
  commit-db :
      (s s' : BoltStore svc) (r : Result (Error svc) Db)
      → commit svc s r ≡ (s', ok tt)
      → (r ≡ ok s'.db) × (s'.encryption_key ≡ s.encryption_key)
  unfolding commit reload
  commit-db s s' (err x) e = absurd (ground arith)
  commit-db s s' (ok db) e = elim (Result-cases (entries db)) [
    | inr (x, e1) ↦ absurd (ground arith)
    | inl (es, e1) ↦ ground arith
  ]

  delete_tx-removed :
      (s : BoltStore svc) (db : Db) (hash : String)
      → delete_tx svc s hash ≡ ok db
      → get db hash ≡ none
  unfolding delete_tx
  delete_tx-removed s db hash e = elim (Option-cases (get s.db hash)) [
    | inl e1 ↦ absurd (ground arith)
    | inr (v, e1) ↦
        let e2 = failing-eq_ok db_failed (remove s.db hash) db (rw (delete_tx, e1) at e) in
        let removed = laws.get-remove s.db db hash hash e2 in ground (arith, removed, ==_refl hash)
  ]

  -- A token that `Delete` removed without an error is not found.
  pub delete-lookup_token :
      (s s' : BoltStore svc) (hash : String) (now later : Time)
      → delete svc s hash ≡ (s', ok tt)
      → (lookup_token svc s' hash now later).1 ≡ none
  unfolding delete
  delete-lookup_token s s' hash now later e =
      let coherent = commit-IsCoherent svc laws s s' _ e in
      let (tx, key) = commit-db s s' (delete_tx svc s hash) e in
      let gone = delete_tx-removed s s'.db hash tx in
      lookup_token-IsCoherent svc laws s' hash now later coherent ∙ rw gone refl

  -- What is written for a text is read back from the record.
  decrypt_policy-encrypt_policy :
      (key : Option (List svc.crypto.Byte)) (fresh : List svc.crypto.Byte)
      (json plain enc at expires_at : String)
      → length fresh ≡ crypto.nonce_size
      → encrypt_policy svc key (some fresh) json ≡ ok (plain, enc)
      → decrypt_policy svc key (record {
        policy_json = plain;
        encrypted = enc;
        created_at = at;
        expires_at = expires_at;
      })
        ≡ ok json
  unfolding encrypt_policy decrypt_policy
  decrypt_policy-encrypt_policy none fresh json plain enc at expires_at size e =
      let unmarked : "" ≡ enc = ground arith in
      let text : json ≡ plain = ground arith in rw (sym unmarked, sym text) refl
  decrypt_policy-encrypt_policy (some key) fresh json plain enc at expires_at size e =
      elim (Result-cases (encrypt crypto (some fresh) json key)) [
        | inr (x, e1) ↦ absurd (ground arith)
        | inl (encoded, e1) ↦
            let same : encoded ≡ enc = ground arith in
            let back = decrypt-encrypt crypto laws.crypto fresh json encoded key size e1 in
            let marked = encrypt_nonempty crypto laws.crypto fresh json encoded key size e1 in
            rw (sym same, marked, back) refl
      ]

  insert_new-get :
      (b db : Db) (hash : String) (v : Data)
      → insert_new svc b hash v ≡ ok db
      → get db hash ≡ some v
  unfolding insert_new
  insert_new-get b db hash v e = elim (Option-cases (get b hash)) [
    | inr (old, e1) ↦ absurd (ground arith)
    | inl e1 ↦
        let e2 = failing-eq_ok db_failed (put b hash v) db (rw (insert_new, e1) at e) in
        let written = laws.get-put b db hash hash v e2 in ground (arith, written, ==_refl hash)
  ]

  entry_of-readable :
      (key : Option (List svc.crypto.Byte)) (v : Data) (rec : BoltRecord) (json : String)
      (p : Policy re.Regexp)
      → svc.unmarshal v ≡ some rec
      → decrypt_policy svc key rec ≡ ok json
      → parse_policy svc json ≡ ok p
      → entry_of svc key v ≡ some (record { policy = p; expires_at = expiry_of svc rec.expires_at })
  unfolding entry_of read_record
  entry_of-readable key v rec json p e1 e2 e3 = rw (entry_of, read_record, e1, e2, e3) refl

  -- The transaction of a `Create` without an error leaves a readable record with the policy.
  create_tx-entry_of :
      (s : BoltStore svc) (db : Db) (hash json expires_at at : String)
      (fresh : List svc.crypto.Byte)
      → length fresh ≡ crypto.nonce_size
      → create_tx svc s hash json expires_at at (some fresh) ≡ ok db
      → (p : Policy re.Regexp) × (parse_policy svc json ≡ ok p)
        × (bind (get db hash) (entry_of svc s.encryption_key)
            ≡ some (record { policy = p; expires_at = expiry_of svc expires_at }))
  unfolding create_tx
  create_tx-entry_of s db hash json expires_at at fresh size e =
      let (p, e1, e2) = >>=-eq-ok (parse_policy svc json) _ e in
      let (u, e3, e4) = >>=-eq-ok (check_expiry svc expires_at false) _ e2 in
      let (enc, e5, e6) = >>=-eq-ok (encrypt_policy svc s.encryption_key (some fresh) json) _ e4 in
      let (v, e7, e8) = >>=-eq-ok (or_fail svc marshal_failed (svc.marshal _)) _ e6 in
      let parsed = laws.unmarshal-marshal _ v (or_fail-eq_ok marshal_failed _ v e7) in
      let back =
        decrypt_policy-encrypt_policy s.encryption_key fresh json enc.0 enc.1 at expires_at size
          e5 in
      let readable = entry_of-readable s.encryption_key v _ json p parsed back e1 in
      (p, e1, rw (insert_new-get s.db db hash v e8) readable)

  -- After a `Create` without an error, with a nonce of the size that GCM asks for, `Lookup` of the
  -- same hash returns the policy that was given, until the given time has passed, whether or not
  -- the store encrypts.
  pub create-lookup_token :
      (s s' : BoltStore svc) (hash json expires_at at : String) (fresh : List svc.crypto.Byte)
      (now later : Time)
      → length fresh ≡ crypto.nonce_size
      → create svc s hash json expires_at at (some fresh) ≡ (s', ok tt)
      → (p : Policy re.Regexp) × (parse_policy svc json ≡ ok p)
        × ((lookup_token svc s' hash now later).1
            ≡ live svc laws now
                (some (record { policy = p; expires_at = expiry_of svc expires_at })))
  unfolding create
  create-lookup_token s s' hash json expires_at at fresh now later size e =
      let coherent = commit-IsCoherent svc laws s s' _ e in
      let (tx, key) = commit-db s s' (create_tx svc s hash json expires_at at (some fresh)) e in
      let (p, parsed, held) = create_tx-entry_of s s'.db hash json expires_at at fresh size tx in
      let entry : Entry svc = record { policy = p; expires_at = expiry_of svc expires_at } in
      let held' = subst (λ x. bind (get s'.db hash) (entry_of svc x) ≡ some entry) (sym key) held in
      (
        p,
        parsed,
        lookup_token-IsCoherent svc laws s' hash now later coherent ∙ ap (live svc laws now) held',
      )
