-- ===== src/Store/Coherence.antt =====
-- The cache shows the readable records of the database, and `Lookup` those that have not expired.
use tokenomics.Base.{
  true, false, String, List, [], ◌∷◌, Option, none, some, Result, ok, err, if◌then◌else◌, ◌≡◌, refl,
  sym, ◌∙◌, ap, subst, arith, Bool-cases, Option-cases, Result-cases, inl, inr,
}
use tokenomics.Base.Eq.{string_eq, ◌==◌, ==_iff}
use tokenomics.Base.Dict.{Dict, lookup, insert, lookup-insert}
use tokenomics.Policy.Regex.{Regex}
use tokenomics.Policy.Resolve.{Policy}
use tokenomics.Store.Services.{Services, ServiceLaws, IsDistinct}
use tokenomics.Store.Bolt.{
  BoltStore, Entry, Error, entry_of, cache_entries, reload, commit, create, update, delete,
}
use tokenomics.Store.Cache.{lookup_token, is_expired}

abbrev pub bind {ℓ κ} : {A : Type ℓ} {B : Type κ} → Option A → (A → Option B) → Option B
bind none f = none
bind (some a) f = f a

abbrev pub or_else_entry {ℓ} : {A : Type ℓ} → Option A → Option A → Option A
or_else_entry none o = o
or_else_entry (some a) o = some a

or_else_entry-none {ℓ} : {A : Type ℓ} (o : Option A) → or_else_entry o none ≡ o
or_else_entry-none none = refl
or_else_entry-none (some a) = refl

module _ {re : Regex} (svc : Services re) (laws : ServiceLaws svc) where
  open svc use {Data, get, entries, Time, is_zero, after}

  -- What the database holds under a hash, as `Reload` would cache it.
  abbrev pub stored : BoltStore svc → String → Option (Entry svc)
  stored s hash = bind (get s.db hash) (entry_of svc s.encryption_key)

  abbrev pub IsCoherent : BoltStore svc → Type 0
  IsCoherent s = (hash : String) → lookup hash s.cache ≡ stored s hash

  lookup-cache_entries :
      (key : Option (List svc.crypto.Byte)) (m : Dict String (Entry svc))
      (es : List (String × Data)) (k : String)
      → IsDistinct es
      → lookup k (cache_entries svc key m es)
        ≡ or_else_entry (bind (lookup k es) (entry_of svc key)) (lookup k m)
  unfolding cache_entries lookup
  lookup-cache_entries key m [] k d = refl
  lookup-cache_entries key m ((j, v) ∷ es) k (fresh, d) = elim (Option-cases (entry_of svc key v)) [
    | inl e ↦
        let ih = lookup-cache_entries key m es k d in
        elim (Bool-cases (j == k)) [
          | inl same ↦
              let gone = ap (λ x. lookup x es) (sym ((==_iff j k).0 same)) ∙ fresh in
              rw (cache_entries, e, ih, gone, same, e) refl
          | inr other ↦ rw (cache_entries, e, ih, other) refl
        ]
    | inr (entry, e) ↦
        let ih = lookup-cache_entries key (insert j entry m) es k d in
        elim (Bool-cases (j == k)) [
          | inl same ↦
              let gone = ap (λ x. lookup x es) (sym ((==_iff j k).0 same)) ∙ fresh in
              rw (cache_entries, e, ih, gone, lookup-insert j k entry m, same, e) refl
          | inr other ↦ rw (cache_entries, e, ih, lookup-insert j k entry m, other) refl
        ]
  ]

  -- After a reload without an error the cache shows the database.
  pub reload-IsCoherent : (s s' : BoltStore svc) → reload svc s ≡ (s', ok tt) → IsCoherent s'
  unfolding reload lookup
  reload-IsCoherent s s' e hash = elim (Result-cases (entries s.db)) [
    | inr (x, e1) ↦ absurd (ground arith)
    | inl (es, e1) ↦
        let distinct = laws.entries-IsDistinct s.db es e1 in
        let same = laws.entries_lem s.db es hash e1 in
        let shown = lookup-cache_entries s.encryption_key [] es hash distinct in
        let there : lookup hash (cache_entries svc s.encryption_key [] es) ≡ stored s hash =
          shown ∙ or_else_entry-none _ ∙ ap (λ o. bind o (entry_of svc s.encryption_key)) same in
        subst (λ x. lookup hash x.cache ≡ stored x hash) (ap (λ x. x.0) (rw (reload, e1) at e))
          there
  ]

  pub commit-IsCoherent :
      (s s' : BoltStore svc) (r : Result (Error svc) svc.Db)
      → commit svc s r ≡ (s', ok tt)
      → IsCoherent s'
  unfolding commit
  commit-IsCoherent s s' (err x) e = absurd (ground arith)
  commit-IsCoherent s s' (ok db) e = reload-IsCoherent (record s { db = db }) s' e

  -- The operations that change the database.
  pub data Operation : Type 0 where
    creation : String → String → String → String → Option (List svc.crypto.Byte) → Operation
    change : String → String → String → Option (List svc.crypto.Byte) → Operation
    deletion : String → Operation

  abbrev pub run : BoltStore svc → Operation → BoltStore svc × Result (Error svc) (Unit {0})
  run s (creation hash json expires_at now fresh) = create svc s hash json expires_at now fresh
  run s (change hash json expires_at fresh) = update svc s hash json expires_at fresh
  run s (deletion hash) = delete svc s hash

  -- When `Create`, `Update` or `Delete` returns without an error, every token hash has in the cache
  -- just what the database then holds for it, whatever the cache showed before.
  pub run-IsCoherent :
      (s s' : BoltStore svc) (op : Operation) → run s op ≡ (s', ok tt) → IsCoherent s'
  unfolding create update delete
  run-IsCoherent s s' (creation hash json expires_at now fresh) e = commit-IsCoherent s s' _ e
  run-IsCoherent s s' (change hash json expires_at fresh) e = commit-IsCoherent s s' _ e
  run-IsCoherent s s' (deletion hash) e = commit-IsCoherent s s' _ e

  -- The policy of what is stored, unless it has an expiry and the time is after it.
  abbrev pub live : Time → Option (Entry svc) → Option (Policy re.Regexp)
  live now none = none
  live now (some entry) =
      if is_zero entry.expires_at
      then some entry.policy
      else if after now entry.expires_at
      then none
      else some entry.policy

  live-expired :
      (now : Time) (entry : Entry svc)
      → is_expired svc now entry ≡ true
      → none ≡ live now (some entry)
  unfolding is_expired
  live-expired now entry e = ground arith

  live-fresh :
      (now : Time) (entry : Entry svc)
      → is_expired svc now entry ≡ false
      → some entry.policy ≡ live now (some entry)
  unfolding is_expired
  live-fresh now entry e = ground arith

  pub lookup_token-IsCoherent :
      (s : BoltStore svc) (hash : String) (now later : Time)
      → IsCoherent s
      → (lookup_token svc s hash now later).1 ≡ live now (stored s hash)
  unfolding lookup_token
  lookup_token-IsCoherent s hash now later coherent =
      let same = coherent hash in
      elim (Option-cases (stored s hash)) [
        | inl e ↦ rw (lookup_token, same, e) refl
        | inr (entry, e) ↦ elim (Bool-cases (is_expired svc now entry)) [
          | inl old ↦ rw (lookup_token, same, e, old) (live-expired now entry old)
          | inr fresh ↦ rw (lookup_token, same, e, fresh) (live-fresh now entry fresh)
        ]
      ]
