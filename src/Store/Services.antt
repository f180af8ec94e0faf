-- ===== src/Store/Services.antt =====
-- What internal/store calls: JSON, bbolt and time are parameters; its own types stand here too.
use tokenomics.Base.{
  String, Bool, true, List, [], ◌∷◌, Option, none, some, Result, ok, if◌then◌else◌, ◌≡◌,
}
use tokenomics.Base.Eq.{string_eq, ◌==◌}
use tokenomics.Base.Dict.{Dict, lookup}
use tokenomics.Policy.Regex.{Regex}
use tokenomics.Policy.Resolve.{Policy}
use tokenomics.Store.Crypto.{Crypto, CryptoLaws}

-- `boltRecord`
pub record BoltRecord : Type 0 where
  pub policy_json : String
  pub encrypted : String
  pub created_at : String
  pub expires_at : String

pub record Services (re : Regex) : Type 1 where
  pub crypto : Crypto
  -- `json.Unmarshal` into a policy.
  pub unmarshal_policy : String → Option (Policy re.Regexp)
  -- `time.Time`, its zero value, `t.After(u)` and `time.Parse(time.RFC3339, s)`.
  pub Time : Type 0
  pub zero_time : Time
  pub is_zero : Time → Bool
  pub after : Time → Time → Bool
  pub parse_time : String → Option Time
  -- `json.Marshal` and `json.Unmarshal` of a record.
  pub Data : Type 0
  pub marshal : BoltRecord → Option Data
  pub unmarshal : Data → Option BoltRecord
  -- A bbolt bucket: a transaction that gives an error leaves it as it was.
  pub Db : Type 0
  pub DbError : Type 0
  pub get : Db → String → Option Data
  pub put : Db → String → Data → Result DbError Db
  pub remove : Db → String → Result DbError Db
  pub entries : Db → Result DbError (List (String × Data))

-- No key stands twice.
abbrev pub IsDistinct {ℓ} : {A : Type ℓ} → Dict String A → Type ℓ
IsDistinct [] = Unit
IsDistinct ((k, a) ∷ m) = (lookup k m ≡ none) × IsDistinct m

-- What the packages document.
pub record ServiceLaws {re : Regex} (svc : Services re) : Type 0 where
  pub crypto : CryptoLaws svc.crypto
  pub zero : svc.is_zero svc.zero_time ≡ true
  pub unmarshal-marshal :
      (r : BoltRecord) (d : svc.Data) → svc.marshal r ≡ some d → svc.unmarshal d ≡ some r
  pub get-put :
      (b b' : svc.Db) (k j : String) (d : svc.Data)
      → svc.put b k d ≡ ok b'
      → svc.get b' j ≡ (if k == j then some d else svc.get b j)
  pub get-remove :
      (b b' : svc.Db) (k j : String)
      → svc.remove b k ≡ ok b'
      → svc.get b' j ≡ (if k == j then none else svc.get b j)
  pub entries-IsDistinct :
      (b : svc.Db) (es : List (String × svc.Data)) → svc.entries b ≡ ok es → IsDistinct es
  pub entries_lem :
      (b : svc.Db) (es : List (String × svc.Data)) (k : String)
      → svc.entries b ≡ ok es
      → lookup k es ≡ svc.get b k
