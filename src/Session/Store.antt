-- ===== src/Session/Store.antt =====
-- internal/session/session.go: the interface that the proxy's budget uses. `Laws` is what a store that
-- does not fail promises; the memory store fills it (Session/Memory.antt), and a store over Redis may
-- fail, so the budget's error branches are stated without it.
use tokenomics.Base.{String, ◌≡◌, Result, ok, if◌then◌else◌}
use tokenomics.Base.Eq.{string_eq, ◌==◌}
use tokenomics.Base.Word.{Int64, add64}

pub record SessionStore : Type 1 where
  pub State : Type 0
  pub Error : Type 0
  pub get_usage : State → String → Result Error Int64
  pub add_usage : State → String → Int64 → State × Result Error Int64
  pub reset : State → String → State × Result Error (Unit {0})

-- `usage` is the number on record for a token hash, zero where there is none.
pub record Laws (st : SessionStore) : Type 0 where
  pub usage : st.State → String → Int64
  pub get_lem : (s : st.State) (k : String) → st.get_usage s k ≡ ok (usage s k)
  pub add_result :
      (s : st.State) (k : String) (n : Int64) → (st.add_usage s k n).1 ≡ ok (add64 (usage s k) n)
  pub add_state :
      (s : st.State) (k j : String) (n : Int64)
      → usage (st.add_usage s k n).0 j ≡ (if k == j then add64 (usage s k) n else usage s j)
  pub reset_result : (s : st.State) (k : String) → (st.reset s k).1 ≡ ok tt
  pub reset_state :
      (s : st.State) (k j : String) → usage (st.reset s k).0 j ≡ (if k == j then 0 else usage s j)
