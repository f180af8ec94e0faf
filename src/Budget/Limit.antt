-- ===== src/Budget/Limit.antt =====
-- `reserveInputBudget` branch by branch: what it admits, what it charges, and that a failing store
-- charges nothing.
use tokenomics.Base.{String, ◌≡◌, ◌<◌, ◌≤◌, ◌+◌, none, some, err, arith}
use tokenomics.Base.Word.{Int64, IsNonneg, add64, lt64}
use tokenomics.Base.Eq.{string_eq, ==_refl}
use tokenomics.Session.Store.{SessionStore, Laws}
use tokenomics.Budget.{store_error, budget_exceeded, reserve_input_budget}

module _ (st : SessionStore) where
  -- A store that cannot be read refuses every request, and is left as it was.
  reserve_input_budget-unreadable :
      (s : st.State) (k : String) (input max : Int64) (e : st.Error)
      → st.get_usage s k ≡ err e
      → reserve_input_budget st s k input max ≡ (s, 0, some (store_error e))
  unfolding reserve_input_budget
  reserve_input_budget-unreadable s k input max e h = rw (h, reserve_input_budget)

module _ (st : SessionStore) (laws : Laws st) where
  open laws use {usage}

  -- A request whose input fits under the limit with what is on record is admitted: the usage read
  -- is handed back, and the input is charged, where neither the limit nor the sum is negative as an
  -- int64.
  reserve_input_budget_admits :
      (s : st.State) (k : String) (input max : Int64)
      → IsNonneg max
      → IsNonneg (usage s k + input)
      → usage s k + input ≤ max
      → ((reserve_input_budget st s k input max).2 ≡ none)
        × ((reserve_input_budget st s k input max).1 ≡ usage s k)
        × (usage (reserve_input_budget st s k input max).0 k ≡ usage s k + input)
  unfolding reserve_input_budget lt64 add64
  reserve_input_budget_admits s k input max hm hs le =
      ground
        (arith, laws.get_lem s k, laws.add_result s k input, laws.add_state s k k input, ==_refl k)

  -- A request whose input does not fit under the limit with what is on record is refused with the
  -- budget's error and changes nothing, where neither the limit nor the sum is negative as an int64.
  reserve_input_budget_refuses :
      (s : st.State) (k : String) (input max : Int64)
      → IsNonneg max
      → IsNonneg (usage s k + input)
      → max < usage s k + input
      → reserve_input_budget st s k input max ≡ (s, usage s k, some budget_exceeded)
  unfolding reserve_input_budget lt64 add64
  reserve_input_budget_refuses s k input max hm hs lt = ground (arith, laws.get_lem s k)
