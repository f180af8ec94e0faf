-- ===== src/Budget/Account.antt =====
-- The budget of one token under any interleaving of its requests. `budgetMu` makes each reservation
-- and each release one step; between them other requests reserve, release and finish. An `Account`
-- carries, beside the store, what the requests in flight have reserved and what finished ones spent.
-- `bound` is the largest number of input tokens of a request, which the limit on its body gives.
use tokenomics.Base.{String, ◌≡◌, refl, ◌≤◌, ◌+◌, ◌≢◌, ℕ, none, arith, List, [], ◌∷◌, ◌++◌}
use tokenomics.Base.Word.{Int64, IsWord, IsNonneg, add64, neg64, lt64, le64}
use tokenomics.Base.Eq.{string_eq, ==_refl}
use tokenomics.Session.Store.{SessionStore, Laws}
use tokenomics.Budget.{reserve_input_budget, release_reserved_input_budget}

pub record Account (S : Type 0) : Type 0 where
  pub store : S
  pub outstanding : List Int64
  pub spent : Int64

unfoldable pub total : List Int64 → Int64
total [] = 0
total (n ∷ ns) = add64 n (total ns)

unfoldable pub sum : List ℕ → ℕ
sum [] = 0
sum (n ∷ ns) = n + sum ns

pub total-remove :
    (xs ys : List Int64) (n : Int64) → total (xs ++ n ∷ ys) ≡ add64 n (total (xs ++ ys))
unfolding total add64
total-remove [] ys n = refl
total-remove (x ∷ xs) ys n = omega (arith, total-remove xs ys n)

pub sum-remove : (xs ys : List ℕ) (n : ℕ) → sum (xs ++ n ∷ ys) ≡ n + sum (xs ++ ys)
unfolding sum
sum-remove [] ys n = refl
sum-remove (x ∷ xs) ys n = omega (arith, sum-remove xs ys n)

module _ (st : SessionStore) (k : String) (max bound : Int64) where
  -- A request of the token reserves, is refused, finishes with its reservation kept, or fails and
  -- gives it back (the deferred call in `handleChatCompletions`).
  pub data InputStep (a b : Account st.State) : Type 0 where
    reserve :
        (n : Int64)
        → n ≤ bound
        → (reserve_input_budget st a.store k n max).2 ≡ none
        → b ≡ record {
          store = (reserve_input_budget st a.store k n max).0;
          outstanding = n ∷ a.outstanding;
          spent = a.spent;
        }
        → InputStep a b
    refuse :
        (n : Int64)
        → (reserve_input_budget st a.store k n max).2 ≢ none
        → b ≡ record a { store = (reserve_input_budget st a.store k n max).0 }
        → InputStep a b
    commit :
        (xs ys : List Int64) (n : Int64)
        → a.outstanding ≡ xs ++ n ∷ ys
        → b ≡ record { store = a.store; outstanding = xs ++ ys; spent = add64 n a.spent }
        → InputStep a b
    release :
        (xs ys : List Int64) (n : Int64)
        → a.outstanding ≡ xs ++ n ∷ ys
        → b ≡ record {
          store = release_reserved_input_budget st a.store k n;
          outstanding = xs ++ ys;
          spent = a.spent;
        }
        → InputStep a b

  -- Beside these, the tokens of a response are added with no check, and other tokens are charged.
  pub data Step (a b : Account st.State) : Type 0 where
    input : InputStep a b → Step a b
    output :
        (n : Int64)
        → b ≡ record {
          store = (st.add_usage a.store k n).0;
          outstanding = a.outstanding;
          spent = add64 n a.spent;
        }
        → Step a b
    other :
        (j : String) (n : Int64)
        → j ≢ k
        → b ≡ record a { store = (st.add_usage a.store j n).0 }
        → Step a b

module _ (st : SessionStore) (laws : Laws st) (k : String) (max : Int64) where
  open laws use {usage}

  pub reserve-usage :
      (s : st.State) (n : Int64)
      → IsNonneg n
      → IsWord (usage s k)
      → (reserve_input_budget st s k n max).2 ≡ none
      → usage (reserve_input_budget st s k n max).0 k ≡ add64 n (usage s k)
  unfolding reserve_input_budget lt64 add64
  reserve-usage s n hn hw h =
      ground (arith, laws.get_lem s k, laws.add_result s k n, laws.add_state s k k n, ==_refl k)

  pub refuse-usage :
      (s : st.State) (n : Int64)
      → (reserve_input_budget st s k n max).2 ≢ none
      → usage (reserve_input_budget st s k n max).0 k ≡ usage s k
  unfolding reserve_input_budget
  refuse-usage s n h = ground (arith, laws.get_lem s k, laws.add_result s k n)

  pub release-usage :
      (s : st.State) (n : Int64)
      → IsNonneg n
      → IsWord (usage s k)
      → usage (release_reserved_input_budget st s k n) k ≡ add64 (usage s k) (neg64 n)
  unfolding release_reserved_input_budget le64 add64 neg64
  release-usage s n hn hw = ground (arith, laws.add_state s k k (neg64 n), ==_refl k)
