-- ===== src/Budget/Invariant.antt =====
-- What holds of a token's account after any interleaving of requests.
use tokenomics.Base.{String, ◌≡◌, ◌≤◌, ◌+◌, arith, List, [], ◌∷◌, ◌++◌, All, ap, subst, ◌∙◌, none}
use tokenomics.Base.Word.{Int64, IsWord, IsNonneg, add64, neg64, lt64}
use tokenomics.Base.Eq.{string_eq, ==_iff, ==_refl}
use tokenomics.Base.Reach.{Reach, Reach_inv}
use tokenomics.Session.Store.{SessionStore, Laws}
use tokenomics.Budget.{reserve_input_budget}
use tokenomics.Budget.Account.{
  Account, total, sum, total-remove, sum-remove, InputStep, reserve, refuse, commit, release, Step,
  input, output, other, reserve-usage, refuse-usage, release-usage,
}

All-remove :
    (bound : Int64) (xs ys : List Int64) (n : Int64)
    → All (λ x. x ≤ bound) (xs ++ n ∷ ys)
    → (n ≤ bound) × All (λ x. x ≤ bound) (xs ++ ys)
All-remove bound [] ys n h = h
All-remove bound (x ∷ xs) ys n h = let r = All-remove bound xs ys n h.1 in (r.0, (h.0, r.1))

module _ (st : SessionStore) (laws : Laws st) (k : String) (max bound : Int64)
    (small : IsNonneg (max + bound)) where
  open laws use {usage}

  -- What the store has on record is what is reserved and what is spent, as int64 adds.
  pub record IsBalanced (a : Account st.State) : Type 0 where
    pub balance : usage a.store k ≡ add64 (total a.outstanding) a.spent
    pub counts : All (λ n. n ≤ bound) a.outstanding

  balanced-IsWord : (a : Account st.State) → IsBalanced a → IsWord (usage a.store k)
  unfolding add64
  balanced-IsWord a v = omega (arith, v.balance)

  InputStep-IsBalanced :
      (a b : Account st.State) → InputStep st k max bound a b → IsBalanced a → IsBalanced b
  unfolding total add64
  InputStep-IsBalanced a b (reserve n hn e q) v = rw q (record {
    balance = omega (
      arith,
      reserve-usage st laws k max a.store n (omega arith) (balanced-IsWord a v) e,
      v.balance,
    );
    counts = (hn, v.counts);
  })
  InputStep-IsBalanced a b (refuse n e q) v =
      rw q
        (record { balance = refuse-usage st laws k max a.store n e ∙ v.balance; counts = v.counts })
  InputStep-IsBalanced a b (commit xs ys n o q) v = rw q (record {
    balance = omega (arith, v.balance, ap total o, total-remove xs ys n);
    counts = (All-remove bound xs ys n (subst (All (λ x. x ≤ bound)) o v.counts)).1;
  })
  InputStep-IsBalanced a b (release xs ys n o q) v =
      let (hn, rest) = All-remove bound xs ys n (subst (All (λ x. x ≤ bound)) o v.counts) in
      rw q (record {
        balance =
            unfold neg64 in
            omega (
              arith,
              v.balance,
              ap total o,
              total-remove xs ys n,
              release-usage st laws k max a.store n (omega arith) (balanced-IsWord a v),
            );
        counts = rest;
      })

  Step-IsBalanced : (a b : Account st.State) → Step st k max bound a b → IsBalanced a → IsBalanced b
  unfolding add64
  Step-IsBalanced a b (input s) v = InputStep-IsBalanced a b s v
  Step-IsBalanced a b (output n q) v = rw q (record {
    balance = laws.add_state a.store k k n ∙ rw (==_refl k) (omega (arith, v.balance));
    counts = v.counts;
  })
  Step-IsBalanced a b (other j n ne q) v = rw q (record {
    balance = ground (arith, laws.add_state a.store j k n, ==_iff j k, v.balance);
    counts = v.counts;
  })

  -- For a store that keeps its laws, and requests of at most `bound` tokens where the limit and `bound`
  -- add up within an int64: however a token's requests interleave, with the tokens of responses and
  -- the charges of other tokens, the usage on record stays the wrapped sum of what is reserved and
  -- what is spent.
  pub Reach-IsBalanced :
      {a b : Account st.State} → IsBalanced a → Reach (Step st k max bound) a b → IsBalanced b
  Reach-IsBalanced v r = Reach_inv IsBalanced Step-IsBalanced v r

  -- Without the tokens of responses the record is exact, and within the limit.
  pub record IsWithin (a : Account st.State) : Type 0 where
    pub exact : usage a.store k ≡ sum a.outstanding + a.spent
    pub limited : usage a.store k ≤ max
    pub counts : All (λ n. n ≤ bound) a.outstanding

  admitted-le :
      (s : st.State) (n : Int64)
      → n ≤ bound
      → usage s k ≤ max
      → (reserve_input_budget st s k n max).2 ≡ none
      → (usage (reserve_input_budget st s k n max).0 k ≡ n + usage s k) × (n + usage s k ≤ max)
  unfolding reserve_input_budget lt64 add64
  admitted-le s n hn hu h =
      ground (arith, laws.get_lem s k, laws.add_result s k n, laws.add_state s k k n, ==_refl k)

  InputStep-IsWithin :
      (a b : Account st.State) → InputStep st k max bound a b → IsWithin a → IsWithin b
  unfolding sum add64
  InputStep-IsWithin a b (reserve n hn e q) v =
      let (charged, room) = admitted-le a.store n hn v.limited e in
      rw q (record {
        exact = omega (arith, charged, v.exact);
        limited = omega (arith, charged, room);
        counts = (hn, v.counts);
      })
  InputStep-IsWithin a b (refuse n e q) v =
      let same = refuse-usage st laws k max a.store n e in
      rw q (record {
        exact = same ∙ v.exact;
        limited = omega (arith, same, v.limited);
        counts = v.counts;
      })
  InputStep-IsWithin a b (commit xs ys n o q) v = rw q (record {
    exact = omega (arith, v.exact, v.limited, ap sum o, sum-remove xs ys n);
    limited = v.limited;
    counts = (All-remove bound xs ys n (subst (All (λ x. x ≤ bound)) o v.counts)).1;
  })
  InputStep-IsWithin a b (release xs ys n o q) v =
      let (hn, rest) = All-remove bound xs ys n (subst (All (λ x. x ≤ bound)) o v.counts) in
      let less = release-usage st laws k max a.store n (omega arith) (omega (arith, v.limited)) in
      rw q (record {
        exact =
            unfold neg64 in omega (arith, v.exact, v.limited, ap sum o, sum-remove xs ys n, less);
        limited =
            unfold neg64 in omega (arith, v.exact, v.limited, ap sum o, sum-remove xs ys n, less);
        counts = rest;
      })

  -- For a store that keeps its laws, and requests of at most `bound` tokens where the limit and `bound`
  -- add up within an int64: however the reservations, refusals, ends and releases of a token's
  -- requests interleave, the usage on record stays the exact sum of what is reserved and what is
  -- spent, and within the limit.
  pub Reach-IsWithin :
      {a b : Account st.State} → IsWithin a → Reach (InputStep st k max bound) a b → IsWithin b
  Reach-IsWithin v r = Reach_inv IsWithin InputStep-IsWithin v r
