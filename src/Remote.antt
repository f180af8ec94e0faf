-- ===== src/Remote.antt =====
-- internal/remote/remote.go: the server that hands out the tokens of a store, and the client that copies
-- them into its own. Both work on the interface `TokenStore` of internal/store/store.go.
pub mod Additive
pub mod Bolt
pub mod Registry
pub mod Receiver
pub mod Clients
mod Tests
use tokenomics.Base.{
  String, Bool, true, false, not, ◌&&◌, ◌||◌, ℕ, suc, List, [], ◌∷◌, map, Option, none, some,
  Result, ok, err, ltb, if◌then◌else◌,
}
use Prim.Native.String.{len, slice}
use text.Mathlib.Text.{starts_with}
use tokenomics.Base.Eq.{string_eq, ◌==◌}

-- What a caller reads of a `store.TokenRecord`.
pub record Token : Type 0 where
  pub token_hash : String
  pub policy_raw : String
  pub created_at : String
  pub expires_at : String

-- The operations of `TokenStore` that the server and the client call.
pub record TokenStore : Type 1 where
  pub State : Type 0
  pub Error : Type 0
  pub create : State → String → String → String → State × Result Error (Unit {0})
  pub get : State → String → Result Error (Option Token)
  pub update : State → String → String → String → State × Result Error (Unit {0})
  pub list : State → Result Error (List Token)

-- `TokenResponse`
pub record TokenResponse : Type 0 where
  pub token_hash : String
  pub policy : String
  pub created_at : String
  pub expires_at : String

-- The answers of the server; the text of an error is left out.
pub data Answer : Type 0 where
  failed : ℕ → Answer
  tokens : List TokenResponse → Answer
  token : TokenResponse → Answer

unfoldable pub response_of : Token → TokenResponse
response_of t = record {
  token_hash = t.token_hash;
  policy = t.policy_raw;
  created_at = t.created_at;
  expires_at = t.expires_at;
}

-- `authenticate`, on the Authorization header; `none` lets the request through.
unfoldable pub authenticate : String → String → Option ℕ
authenticate api_key auth =
    if api_key == ""
    then none
    else if auth == "" || not (starts_with auth "Bearer ")
    then some 401
    else if slice auth 7 (len auth) == api_key
    then none
    else some 403

module _ (st : TokenStore) where
  abbrev all_tokens : Result st.Error (List Token) → Answer
  all_tokens (err e) = failed 500
  all_tokens (ok ts) = tokens (map response_of ts)

  abbrev one_token : Result st.Error (Option Token) → Answer
  one_token (err e) = failed 500
  one_token (ok none) = failed 404
  one_token (ok (some t)) = token (response_of t)

  abbrev guarded : String → Option ℕ → Answer → Answer
  guarded method (some status) answer = if method == "GET" then failed status else failed 405
  guarded method none answer = if method == "GET" then answer else failed 405

  unfoldable pub handle_tokens : String → st.State → String → String → Answer
  handle_tokens api_key s method auth =
      guarded method (authenticate api_key auth) (all_tokens (st.list s))

  unfoldable pub handle_token_by_hash : String → st.State → String → String → String → Answer
  handle_token_by_hash api_key s method auth path =
      let hash = if starts_with path "/api/v1/tokens/" then slice path 15 (len path) else path in
      guarded method (authenticate api_key auth)
        (if hash == "" then failed 400 else one_token (st.get s hash))

  -- One token of `SyncTo`. The line that is logged for an error takes the first eight bytes of the
  -- hash, so for a shorter one the program panics.
  pub data Outcome : Type 0 where
    synced unchanged skipped panicked : Outcome

  abbrev logged : TokenResponse → Outcome
  logged t = if ltb (len t.token_hash) 8 then panicked else skipped

  abbrev pub after_write :
      TokenResponse → st.State × Result st.Error (Unit {0}) → st.State × Outcome
  after_write t (s, ok u) = (s, synced)
  after_write t (s, err e) = (s, logged t)

  abbrev pub write_token :
      TokenResponse → st.State → Result st.Error (Option Token) → st.State × Outcome
  write_token t s (err e) = (s, logged t)
  write_token t s (ok none) = after_write t (st.create s t.token_hash t.policy t.expires_at)
  write_token t s (ok (some existing)) =
      if not (existing.policy_raw == t.policy) || not (existing.expires_at == t.expires_at)
      then after_write t (st.update s t.token_hash t.policy t.expires_at)
      else (s, unchanged)

  unfoldable pub sync_token : TokenResponse → st.State → st.State × Outcome
  sync_token t s = write_token t s (st.get s t.token_hash)

  -- The number of tokens synced, where the program goes on.
  abbrev pub and_count : st.State × Outcome → (st.State → st.State × Option ℕ) → st.State × Option ℕ
  and_count (s, panicked) rest = (s, none)
  and_count (s, synced) rest =
      let (s', n) = rest s in (s', elim n [ none ↦ none | some k ↦ some (suc k) ])
  and_count (s, unchanged) rest = rest s
  and_count (s, skipped) rest = rest s

  unfoldable pub sync_tokens : List TokenResponse → st.State → st.State × Option ℕ
  sync_tokens [] s = (s, some 0)
  sync_tokens (t ∷ ts) s = and_count (sync_token t s) (sync_tokens ts)

  -- `SyncTo`: a fetch that fails leaves the store as it was.
  unfoldable pub sync_to :
      {E : Type 0} → Result E (List TokenResponse) → st.State → st.State × Result E (Option ℕ)
  sync_to (err e) s = (s, err e)
  sync_to (ok ts) s = let (s', n) = sync_tokens ts s in (s', ok n)
