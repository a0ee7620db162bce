-- ===== src/Exec.antt =====
-- Go code that changes a shared state and may panic. A run that panics or that exhausts the fuel of
-- a loop has no state to go on from.
pub mod Ends
pub mod Returns

pub data Run (S A : Type 0) : Type 0 where
  ok : A → S → Run S A
  panic : Run S A
  out_of_fuel : Run S A

abbrev pub Exec : Type 0 → Type 0 → Type 0
Exec S A = S → Run S A

module _ {S A B : Type 0} where
  abbrev pub and_then : Run S A → (A → Exec S B) → Run S B
  and_then (ok a s) k = k a s
  and_then panic k = panic
  and_then out_of_fuel k = out_of_fuel

  infixl 5 ◌>>=◌ ◌>>◌
  abbrev pub ◌>>=◌ : Exec S A → (A → Exec S B) → Exec S B
  m >>= k = λ s. and_then (m s) k

  abbrev pub ◌>>◌ : Exec S A → Exec S B → Exec S B
  m >> n = m >>= λ _. n

module _ {S : Type 0} where
  abbrev pub pure : {A : Type 0} → A → Exec S A
  pure a s = ok a s

  abbrev pub gets : {A : Type 0} → (S → A) → Exec S A
  gets f s = ok (f s) s

  abbrev pub stop : {A : Type 0} → Exec S A
  stop s = panic

  abbrev pub no_fuel : {A : Type 0} → Exec S A
  no_fuel s = out_of_fuel
