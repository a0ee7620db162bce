-- ===== src/Exec/Returns.antt =====
-- Total correctness of a run: it neither panics nor runs out of fuel, and its result and final state
-- satisfy a postcondition.
use selected_course_projects.Prelude.{◌≡◌, refl}
use selected_course_projects.Exec.{Run, ok, Exec, and_then}

pub data Returns {S A : Type 0} (P : A → S → Type 0) : Run S A → Type 0 where
  returns : {a : A} {s : S} → P a s → Returns P (ok a s)

module _ {S A : Type 0} {P : A → S → Type 0} where
  pub bind :
      {B : Type 0} {Q : B → S → Type 0} {r : Run S A} {k : A → Exec S B}
      → Returns P r
      → ((a : A) (s : S) → P a s → Returns Q (k a s))
      → Returns Q (and_then r k)
  bind (returns p) next = next _ _ p

  pub weaken :
      {Q : A → S → Type 0} {r : Run S A}
      → Returns P r
      → ((a : A) (s : S) → P a s → Q a s)
      → Returns Q r
  weaken (returns p) f = returns (f _ _ p)

  pub result : {r : Run S A} → Returns P r → (a : A) × (s : S) × (r ≡ ok a s) × P a s
  result (returns p) = (_, _, refl, p)
