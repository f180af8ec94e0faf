-- ===== src/Budget/Tests.antt =====
-- The budget over the memory store, on concrete accounts.
use tokenomics.Base.{refl, ◌+◌, arith, [], ◌∷◌}
use tokenomics.Base.Reach.{here, next}
use tokenomics.Base.Word.{IsNonneg, lt64, add64}
use tokenomics.Base.Dict.{lookup, insert}
use tokenomics.Session.Memory.{
  MemoryStore, memory_sessions, memory_laws, read, add_usage, get_usage,
}
use tokenomics.Budget.{reserve_input_budget}
use tokenomics.Budget.Account.{Account, sum, total, InputStep, reserve, input}
use tokenomics.Budget.Invariant.{IsBalanced, IsWithin, Reach-IsBalanced, Reach-IsWithin}

abbrev used_seven : MemoryStore
used_seven = record { usage = ("a", 7) ∷ [] }

abbrev start : Account MemoryStore
start = record { store = record { usage = [] }; outstanding = []; spent = 0 }

abbrev reserved_three : Account MemoryStore
reserved_three = record {
  store = record { usage = ("a", 3) ∷ [] };
  outstanding = 3 ∷ [];
  spent = 0;
}

one_reservation : InputStep memory_sessions "a" 10 5 start reserved_three
unfolding reserve_input_budget add_usage get_usage read lookup insert lt64 add64
one_reservation = reserve 3 (omega arith) refl refl

small : IsNonneg (10 + 5)
small = omega arith

start-IsWithin : IsWithin memory_sessions memory_laws "a" 10 5 small start
unfolding read lookup sum
start-IsWithin = record { exact = refl; limited = omega arith; counts = tt }

start-IsBalanced : IsBalanced memory_sessions memory_laws "a" 10 5 small start
unfolding read lookup total add64
start-IsBalanced = record { balance = refl; counts = tt }

Reach-IsWithin_example : IsWithin memory_sessions memory_laws "a" 10 5 small reserved_three
Reach-IsWithin_example =
    Reach-IsWithin memory_sessions memory_laws "a" 10 5 small start-IsWithin
      (next here one_reservation)

Reach-IsBalanced_example : IsBalanced memory_sessions memory_laws "a" 10 5 small reserved_three
Reach-IsBalanced_example =
    Reach-IsBalanced memory_sessions memory_laws "a" 10 5 small start-IsBalanced
      (next here (input one_reservation))
