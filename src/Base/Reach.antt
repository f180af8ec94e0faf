-- ===== src/Base/Reach.antt =====
-- What a system can become by any number of steps of a relation, and the invariant rule.
pub data Reach {ℓ} {A : Type ℓ} (R : A → A → Type ℓ) (a : A) : A → Type ℓ where
  here : Reach R a a
  next : {b c : A} → Reach R a b → R b c → Reach R a c

pub Reach_inv {ℓ κ} :
    {A : Type ℓ} {R : A → A → Type ℓ} (P : A → Type κ) {a b : A}
    → ((x y : A) → R x y → P x → P y)
    → P a
    → Reach R a b
    → P b
Reach_inv P keep h here = h
Reach_inv P keep h (next {b} {c} r st) = keep b c st (Reach_inv P keep h r)
