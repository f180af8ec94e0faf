-- ===== src/Store/Samples.antt =====
-- A store of one token, with ciphers that seal nothing.
use tokenomics.Base.{
  String, ◌≡◌, refl, none, some, arith, List, [], ◌∷◌, Option, true, false, Result, ok, err,
  if◌then◌else◌, length, ap, sym,
}
use text.Mathlib.TextBridge.{to_list, of_list, to_list-of_list, of_list-to_list}
use Prim.Native.Char.{Char}
use tokenomics.Base.Eq.{string_eq, ◌==◌, ==_iff}
use tokenomics.Base.Dict.{lookup}
use tokenomics.Policy.Samples.{literal, raw_policy, ready_policy}
use tokenomics.Store.Crypto.{Crypto, CryptoLaws}
use tokenomics.Store.Services.{BoltRecord, Services, ServiceLaws, IsDistinct}
use tokenomics.Store.Bolt.{delete, delete_tx, commit, reload, cache_entries, BoltStore}

abbrev pub open_ciphers : Crypto
open_ciphers = record {
  Byte = Char;
  nonce_size = 1;
  cipher_ok = λ key. true;
  gcm_ok = λ key. true;
  seal = λ key nonce s. to_list s;
  open_sealed = λ key nonce bytes. some (of_list bytes);
  encode = of_list;
  decode = λ s. some (to_list s);
  sum256 = to_list;
}

of_list_nonempty : (xs : List Char) → of_list xs ≡ "" → length xs ≡ 0
of_list_nonempty [] e = refl
of_list_nonempty (c ∷ xs) e = absurd (cc)

pub open_ciphers-CryptoLaws : CryptoLaws open_ciphers
open_ciphers-CryptoLaws = record {
  decode-encode = λ xs. ap some (to_list-of_list xs);
  open-seal = λ key nonce s. ap some (of_list-to_list s);
  encode_nonempty = of_list_nonempty;
  nonce_nonempty = omega arith;
}

abbrev pub Slot : Type 0
Slot = Option (String × BoltRecord)

abbrev pub slot_get : Slot → String → Option BoltRecord
slot_get none k = none
slot_get (some (j, r)) k = if j == k then some r else none

abbrev pub slot_put : Slot → String → BoltRecord → Result String Slot
slot_put none k r = ok (some (k, r))
slot_put (some (j, old)) k r = if j == k then ok (some (k, r)) else err "full"

abbrev pub slot_remove : Slot → String → Result String Slot
slot_remove none k = ok none
slot_remove (some (j, r)) k = if j == k then ok none else ok (some (j, r))

abbrev pub slot_entries : Slot → List (String × BoltRecord)
slot_entries none = []
slot_entries (some e) = e ∷ []

-- A bucket with room for one record; times are texts, none of them ever past.
abbrev pub one_slot : Services literal
one_slot = record {
  crypto = open_ciphers;
  unmarshal_policy = λ s. if s == "policy" then some raw_policy else none;
  Time = String;
  zero_time = "";
  is_zero = λ t. t == "";
  after = λ t u. false;
  parse_time = λ s. some s;
  Data = BoltRecord;
  marshal = λ r. some r;
  unmarshal = λ r. some r;
  Db = Slot;
  DbError = String;
  get = slot_get;
  put = slot_put;
  remove = slot_remove;
  entries = λ b. ok (slot_entries b);
}

slot_get-slot_put :
    (b b' : Slot) (k j : String) (r : BoltRecord)
    → slot_put b k r ≡ ok b'
    → slot_get b' j ≡ (if k == j then some r else slot_get b j)
slot_get-slot_put none b' k j r e = ground arith
slot_get-slot_put (some (i, old)) b' k j r e = ground (arith, ==_iff i k, ==_iff i j, ==_iff k j)

slot_get-slot_remove :
    (b b' : Slot) (k j : String)
    → slot_remove b k ≡ ok b'
    → slot_get b' j ≡ (if k == j then none else slot_get b j)
slot_get-slot_remove none b' k j e = ground arith
slot_get-slot_remove (some (i, old)) b' k j e = ground (arith, ==_iff i k, ==_iff i j, ==_iff k j)

slot_entries-IsDistinct :
    (b : Slot) (es : List (String × BoltRecord)) → one_slot.entries b ≡ ok es → IsDistinct es
unfolding lookup
slot_entries-IsDistinct none es e = ground arith
slot_entries-IsDistinct (some (k, r)) es e = ground arith

lookup-slot_entries :
    (b : Slot) (es : List (String × BoltRecord)) (k : String)
    → one_slot.entries b ≡ ok es
    → lookup k es ≡ slot_get b k
unfolding lookup
lookup-slot_entries none es k e = ground arith
lookup-slot_entries (some (j, r)) es k e = ground arith

pub one_slot-ServiceLaws : ServiceLaws one_slot
one_slot-ServiceLaws = record {
  crypto = open_ciphers-CryptoLaws;
  zero = refl;
  unmarshal-marshal = λ r d e. sym e;
  get-put = slot_get-slot_put;
  get-remove = slot_get-slot_remove;
  entries-IsDistinct = slot_entries-IsDistinct;
  entries_lem = lookup-slot_entries;
}

abbrev pub fresh_store : BoltStore one_slot
fresh_store = record { db = none; encryption_key = none; cache = [] }

abbrev pub holding : BoltRecord
holding = record { policy_json = "policy"; encrypted = ""; created_at = "now"; expires_at = "" }

abbrev pub full_store : BoltStore one_slot
full_store = record {
  db = some ("a", holding);
  encryption_key = none;
  cache = ("a", record { policy = ready_policy; expires_at = "" }) ∷ [];
}

pub deleted : delete one_slot full_store "a" ≡ (fresh_store, ok tt)
unfolding delete delete_tx commit reload cache_entries
deleted = refl
