-- ===== src/Store/Answers.antt =====
-- What `Lookup` answers after an operation, said of the database alone.
use tokenomics.Base.{
  String, ◌≡◌, refl, ap, sym, ◌∙◌, Option, none, some, Result, ok, err, if◌then◌else◌, List,
  Bool-cases, Option-cases, Result-cases, inl, inr,
}
use tokenomics.Base.Eq.{string_eq, ◌==◌}
use tokenomics.Policy.Regex.{Regex}
use tokenomics.Policy.Resolve.{Policy}
use tokenomics.Policy.Parse.{parse}
use tokenomics.Store.Crypto.{decrypt}
use tokenomics.Store.Services.{Services, ServiceLaws, BoltRecord}
use tokenomics.Store.Bolt.{
  BoltStore, entry_of, read_record, decrypt_policy, parse_policy, expiry_of,
}
use tokenomics.Store.Cache.{lookup_token}
use tokenomics.Store.Coherence.{bind, live, Operation, run, run-IsCoherent, lookup_token-IsCoherent}

abbrev pub if_ok {ℓ κ} : {E : Type κ} {A : Type ℓ} → Result E A → Option A
if_ok (ok a) = some a
if_ok (err e) = none

module _ {re : Regex} (svc : Services re) where
  open svc use {Time, is_zero, after, parse_time, unmarshal}

  -- The text of a record's policy, decrypted where it is encrypted and there is a key.
  abbrev pub text_of : Option (List svc.crypto.Byte) → BoltRecord → Option String
  text_of key rec =
      if rec.encrypted == ""
      then some rec.policy_json
      else bind key (λ k. if_ok (decrypt svc.crypto rec.encrypted k))

  -- A record can be read where its text is that of a valid policy.
  abbrev pub readable_policy :
      Option (List svc.crypto.Byte) → svc.Data → Option (BoltRecord × Policy re.Regexp)
  readable_policy key v = bind (unmarshal v) (λ rec.
      bind (text_of key rec)
        (λ json. bind (if_ok (parse re svc.unmarshal_policy json)) (λ p. some (rec, p))))

  -- An expiry that is empty, is no time, or is the zero time is none.
  abbrev pub unless_after : Time → Policy re.Regexp → Option Time → Option (Policy re.Regexp)
  unless_after now p none = some p
  unless_after now p (some t) = if is_zero t then some p else if after now t then none else some p

  abbrev pub unexpired : Time → BoltRecord × Policy re.Regexp → Option (Policy re.Regexp)
  unexpired now (rec, p) =
      if rec.expires_at == "" then some p else unless_after now p (parse_time rec.expires_at)

  -- The policy of a token hash by the database, at a time.
  abbrev pub policy_at : BoltStore svc → String → Time → Option (Policy re.Regexp)
  policy_at s hash now =
      bind (bind (svc.get s.db hash) (readable_policy s.encryption_key)) (unexpired now)

module _ {re : Regex} (svc : Services re) (laws : ServiceLaws svc) where
  open svc use {Time, parse_time}

  live-unexpired :
      (now : Time) (rec : BoltRecord) (p : Policy re.Regexp)
      → live svc laws now (some (record { policy = p; expires_at = expiry_of svc rec.expires_at }))
        ≡ unexpired svc now (rec, p)
  unfolding expiry_of
  live-unexpired now rec p = elim (Bool-cases (rec.expires_at == "")) [
    | inl e ↦ rw (e, laws.zero) refl
    | inr e ↦ elim (Option-cases (parse_time rec.expires_at)) [
      | inl none_ ↦ rw (e, none_, laws.zero) refl
      | inr (t, some_) ↦ rw (e, some_) refl
    ]
  ]

  decrypt_policy-text_of :
      (key : Option (List svc.crypto.Byte)) (rec : BoltRecord)
      → if_ok (decrypt_policy svc key rec) ≡ text_of svc key rec
  unfolding decrypt_policy
  decrypt_policy-text_of none rec = elim (Bool-cases (rec.encrypted == "")) [
    | inl e ↦ rw e refl
    | inr e ↦ rw e refl
  ]
  decrypt_policy-text_of (some k) rec = elim (Bool-cases (rec.encrypted == "")) [
    | inl e ↦ rw e refl
    | inr e ↦ elim (Result-cases (decrypt svc.crypto rec.encrypted k)) [
      | inl (json, d) ↦ rw (e, d) refl
      | inr (x, d) ↦ rw (e, d) refl
    ]
  ]

  entry_of-readable_lem :
      (key : Option (List svc.crypto.Byte)) (v : svc.Data) (now : Time)
      → live svc laws now (entry_of svc key v)
        ≡ bind (readable_policy svc key v) (unexpired svc now)
  unfolding entry_of read_record parse_policy
  entry_of-readable_lem key v now = elim (Option-cases (svc.unmarshal v)) [
    | inl e ↦ rw (entry_of, read_record, e) refl
    | inr (rec, e) ↦ elim (Result-cases (decrypt_policy svc key rec)) [
      | inr (x, d) ↦
          let text = sym (decrypt_policy-text_of key rec) ∙ ap if_ok d in
          rw (entry_of, read_record, e, d, text) refl
      | inl (json, d) ↦
          let text = sym (decrypt_policy-text_of key rec) ∙ ap if_ok d in
          elim (Result-cases (parse re svc.unmarshal_policy json)) [
            | inr (x, f) ↦ rw (entry_of, read_record, e, d, text, parse_policy, f) refl
            | inl (p, f) ↦
                rw (entry_of, read_record, e, d, text, parse_policy, f) (live-unexpired now rec p)
          ]
    ]
  ]

  bind-live :
      (o : Option svc.Data) (key : Option (List svc.crypto.Byte)) (now : Time)
      → live svc laws now (bind o (entry_of svc key))
        ≡ bind (bind o (readable_policy svc key)) (unexpired svc now)
  bind-live none key now = refl
  bind-live (some v) key now = entry_of-readable_lem key v now

  -- After `Create`, `Update` or `Delete` has returned without an error, `Lookup` of any token hash
  -- returns, at any time: where the database holds a record under the hash whose text, decrypted where it is encrypted,
  -- is that of a valid policy, that policy, unless the record has an expiry and the time is after it; and
  -- nothing otherwise. The second reading of the clock has no part in the answer.
  pub run-lookup_token :
      (s s' : BoltStore svc) (op : Operation svc laws) (hash : String) (now later : Time)
      → run svc laws s op ≡ (s', ok tt)
      → (lookup_token svc s' hash now later).1 ≡ policy_at svc s' hash now
  run-lookup_token s s' op hash now later done =
      lookup_token-IsCoherent svc laws s' hash now later (run-IsCoherent svc laws s s' op done)
      ∙ bind-live (svc.get s'.db hash) s'.encryption_key now
