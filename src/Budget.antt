-- ===== src/Budget.antt =====
-- internal/proxy/handler_chat.go: `reserveInputBudget` and `releaseReservedInputBudget`, which run under
-- `budgetMu`, over any session store.
pub mod Limit
pub mod Account
pub mod Invariant
mod Tests
use tokenomics.Base.{String, Bool, true, false, Option, none, some, Result, ok, err, if◌then◌else◌}
use tokenomics.Base.Word.{Int64, add64, neg64, lt64, le64}
use tokenomics.Session.Store.{SessionStore}

pub data BudgetError (E : Type 0) : Type 0 where
  store_error : E → BudgetError E
  budget_exceeded : BudgetError E

module _ (st : SessionStore) where
  open st use {State, Error, get_usage, add_usage}

  abbrev reserve_result :
      Int64 → State × Result Error Int64 → State × Int64 × Option (BudgetError Error)
  reserve_result current (s', ok v) = (s', current, none)
  reserve_result current (s', err e) = (s', current, some (store_error e))

  -- The state after the call, the usage read, and the error. Where the read fails, the Go code hands
  -- back the value that came with the error, zero for every store of the program.
  unfoldable pub reserve_input_budget :
      State → String → Int64 → Int64 → State × Int64 × Option (BudgetError Error)
  reserve_input_budget s token_hash input_tokens max_tokens = elim (get_usage s token_hash) [
    | err e ↦ (s, 0, some (store_error e))
    | ok current ↦
        if lt64 max_tokens (add64 current input_tokens)
        then (s, current, some budget_exceeded)
        else if lt64 0 input_tokens
        then reserve_result current (add_usage s token_hash input_tokens)
        else (s, current, none)
  ]

  unfoldable pub release_reserved_input_budget : State → String → Int64 → State
  release_reserved_input_budget s token_hash reserved =
      if le64 reserved 0 then s else (add_usage s token_hash (neg64 reserved)).0
