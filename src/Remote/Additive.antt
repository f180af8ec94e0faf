-- ===== src/Remote/Additive.antt =====
-- What `SyncTo` leaves alone.
use tokenomics.Base.{
  String, ℕ, ◌≡◌, ◌≢◌, refl, ◌∙◌, List, [], ◌∷◌, Option, none, some, Result, ok, err, All,
  Bool-cases, inl, inr, not, ◌||◌,
}
use tokenomics.Base.Eq.{string_eq, ◌==◌}
use tokenomics.Remote.{
  Token, TokenStore, TokenResponse, Outcome, synced, unchanged, skipped, panicked, after_write,
  write_token, sync_token, and_count, sync_tokens, sync_to,
}

-- Writing a token touches no other one, as a caller of `Get` sees it.
pub record Laws (st : TokenStore) : Type 0 where
  pub get-create :
      (s : st.State) (hash policy expires_at other : String)
      → hash ≢ other
      → st.get (st.create s hash policy expires_at).0 other ≡ st.get s other
  pub get-update :
      (s : st.State) (hash policy expires_at other : String)
      → hash ≢ other
      → st.get (st.update s hash policy expires_at).0 other ≡ st.get s other

module _ (st : TokenStore) (laws : Laws st) where
  after_write-state :
      (t : TokenResponse) (r : st.State × Result st.Error (Unit {0})) → (after_write st t r).0 ≡ r.0
  after_write-state t (s, ok u) = refl
  after_write-state t (s, err e) = refl

  write_token-get :
      (t : TokenResponse) (s : st.State) (r : Result st.Error (Option Token)) (other : String)
      → t.token_hash ≢ other
      → st.get (write_token st t s r).0 other ≡ st.get s other
  write_token-get t s (err e) other ne = refl
  write_token-get t s (ok none) other ne =
      rw (after_write-state t (st.create s t.token_hash t.policy t.expires_at))
        (laws.get-create s t.token_hash t.policy t.expires_at other ne)
  write_token-get t s (ok (some x)) other ne =
      elim (Bool-cases (not (x.policy_raw == t.policy) || not (x.expires_at == t.expires_at))) [
        | inl e ↦
            rw (e, after_write-state t (st.update s t.token_hash t.policy t.expires_at))
              (laws.get-update s t.token_hash t.policy t.expires_at other ne)
        | inr e ↦ rw e refl
      ]

  and_count-get :
      (r : st.State × Outcome st) (rest : st.State → st.State × Option ℕ) (s : st.State)
      (other : String)
      → st.get r.0 other ≡ st.get s other
      → ((s' : st.State) → st.get (rest s').0 other ≡ st.get s' other)
      → st.get (and_count st r rest).0 other ≡ st.get s other
  and_count-get (s', panicked) rest s other h k = h
  and_count-get (s', synced) rest s other h k = k s' ∙ h
  and_count-get (s', unchanged) rest s other h k = k s' ∙ h
  and_count-get (s', skipped) rest s other h k = k s' ∙ h

  sync_tokens-get :
      (ts : List TokenResponse) (s : st.State) (other : String)
      → All (λ t. t.token_hash ≢ other) ts
      → st.get (sync_tokens st ts s).0 other ≡ st.get s other
  unfolding sync_tokens sync_token
  sync_tokens-get [] s other h = refl
  sync_tokens-get (t ∷ ts) s other h =
      and_count-get (sync_token st t s) (sync_tokens st ts) s other
        (write_token-get t s (st.get s t.token_hash) other h.0)
        (λ s'. sync_tokens-get ts s' other h.1)

  -- For a store whose writes touch one token each: synchronising with a remote server leaves every
  -- token that the server does not list as it was, whatever fails on the way.
  pub sync_to-get :
      (E : Type 0) (ts : List TokenResponse) (s : st.State) (other : String)
      → All (λ t. t.token_hash ≢ other) ts
      → st.get (sync_to st {E = E} (ok ts) s).0 other ≡ st.get s other
  unfolding sync_to
  sync_to-get E ts s other h = sync_tokens-get ts s other h
