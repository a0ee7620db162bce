-- ===== src/Exec/Ends.antt =====
-- Partial correctness of a run: if it ends with a result, the result and the final state satisfy a
-- postcondition.
use selected_course_projects.Prelude.{◌≡◌, refl, Bool, true, false, if◌then◌else◌}
use selected_course_projects.Exec.{Run, ok, panic, out_of_fuel, Exec, and_then}
use selected_course_projects.Exec.Returns.{Returns, returns}

pub data Ends {S A : Type 0} (P : A → S → Type 0) : Run S A → Type 0 where
  ended : {a : A} {s : S} → P a s → Ends P (ok a s)
  panicked : Ends P panic
  ran_out : Ends P out_of_fuel

module _ {S A : Type 0} where
  -- a first step of which nothing is needed
  pub skip :
      {B : Type 0} {Q : B → S → Type 0} (r : Run S A) {k : A → Exec S B}
      → ((a : A) (s : S) → Ends Q (k a s))
      → Ends Q (and_then r k)
  skip (ok a s) next = next a s
  skip panic next = panicked
  skip out_of_fuel next = ran_out

module _ {S A : Type 0} {P : A → S → Type 0} where
  pub bind :
      {B : Type 0} {Q : B → S → Type 0} {r : Run S A} {k : A → Exec S B}
      → Ends P r
      → ((a : A) (s : S) → P a s → Ends Q (k a s))
      → Ends Q (and_then r k)
  bind (ended p) next = next _ _ p
  bind panicked next = panicked
  bind ran_out next = ran_out

  pub weaken :
      {Q : A → S → Type 0} {r : Run S A} → Ends P r → ((a : A) (s : S) → P a s → Q a s) → Ends Q r
  weaken (ended p) f = ended (f _ _ p)
  weaken panicked f = panicked
  weaken ran_out f = ran_out

  -- A run that returns ends with what is shown of its end.
  pub both :
      {Q : A → S → Type 0} {r : Run S A} → Returns P r → Ends Q r → Returns (λ a s. P a s × Q a s) r
  both (returns p) (ended q) = returns (p, q)

  pub at_end : {a : A} {s : S} → Ends P (ok a s) → P a s
  at_end (ended p) = p

  pub branch :
      (b : Bool) (m n : Exec S A) {s : S}
      → (b ≡ true → Ends P (m s))
      → (b ≡ false → Ends P (n s))
      → Ends P ((if b then m else n) s)
  branch true m n f g = f refl
  branch false m n f g = g refl
