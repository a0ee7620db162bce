-- ===== src/Prelude/Decimal.antt =====
-- Numbers that are printed and read again: package strconv as the program calls it (Prelude/Number).
use selected_course_projects.Prelude.{
  ℕ, zero, suc, ◌+◌, ◌-◌, ◌*◌, ◌/◌, ◌%◌, ◌≤◌, ◌<◌, ◌≡◌, refl, ap, ◌∙◌, Bool, true, false, some, [],
  ◌∷◌, arith, leb, ltb, ◌==◌, Bool-cases, inl, inr,
}
use selected_course_projects.Prelude.Int.{ℤ, pos, negsuc, ◌≤ℤ◌}
use selected_course_projects.Prelude.Text.{Str, digits_onto}
use selected_course_projects.Prelude.Number.{
  itoa, atoi, parse_int32, parse_signed, read_number, read_digits, in_range, to_int32,
}

-- 10^k
abbrev pub pow10 : ℕ → ℕ
pow10 zero = 1
pow10 (suc k) = 10 * pow10 k

read_digits-digit :
    (acc d : ℕ) (s : Str) → d < 10 → read_digits acc ((48 + d) ∷ s) ≡ read_digits (acc * 10 + d) s
unfolding read_digits
read_digits-digit acc d s lt =
    let lo : leb 48 (48 + d) ≡ true = ground arith in
    let hi : leb (48 + d) 57 ≡ true = ground arith in
    let e : acc * 10 + (48 + d - 48) ≡ acc * 10 + d = omega arith in rw (lo, hi, e) refl

-- The digits of a number are read as the number, in front of what follows.
read_digits-digits_onto :
    (k n : ℕ) (s : Str) → n < pow10 k → read_digits 0 (digits_onto k n s) ≡ read_digits n s
unfolding digits_onto
read_digits-digits_onto zero n s lt = let e : n ≡ 0 = omega arith in rw e refl
read_digits-digits_onto (suc k) n s lt = elim (Bool-cases (ltb n 10)) [
  | inl few ↦
      rw few (read_digits-digit 0 n s (ground arith) ∙ ap (λ a. read_digits a s) (omega arith))
  | inr many ↦ rw many (
      read_digits-digits_onto k (n / 10) ((48 + n % 10) ∷ s) (omega arith)
      ∙ read_digits-digit (n / 10) (n % 10) s (omega arith)
      ∙ ap (λ a. read_digits a s) (omega arith))
]

-- A text that begins with no sign.
abbrev Leads : Str → Type 0
Leads [] = ⊥
Leads (c ∷ s) = 48 ≤ c

digits_onto-Leads_onto : (k n d : ℕ) (s : Str) → 48 ≤ d → Leads (digits_onto k n (d ∷ s))
unfolding digits_onto
digits_onto-Leads_onto zero n d s le = le
digits_onto-Leads_onto (suc k) n d s le = elim (Bool-cases (ltb n 10)) [
  | inl few ↦ rw few (omega arith)
  | inr many ↦ rw many (digits_onto-Leads_onto k (n / 10) (48 + n % 10) (d ∷ s) (omega arith))
]

digits_onto-Leads : (k n : ℕ) (s : Str) → Leads (digits_onto (suc k) n s)
unfolding digits_onto
digits_onto-Leads k n s = elim (Bool-cases (ltb n 10)) [
  | inl few ↦ rw few (omega arith)
  | inr many ↦ rw many (digits_onto-Leads_onto k (n / 10) (48 + n % 10) s (omega arith))
]

read_number-Leads : (s : Str) → Leads s → read_number s ≡ read_digits 0 s
unfolding read_number
read_number-Leads [] l = absurd l
read_number-Leads (c ∷ s) l = refl

parse_signed-Leads :
    (limit : ℕ) (s : Str) → Leads s → parse_signed limit s ≡ in_range limit false (read_number s)
unfolding parse_signed
parse_signed-Leads limit [] l = absurd l
parse_signed-Leads limit (c ∷ s) l =
    let minus : (c == b'-') ≡ false = ground arith in
    let plus : (c == b'+') ≡ false = ground arith in rw (minus, plus) refl

parse_signed-minus :
    (limit : ℕ) (s : Str) → parse_signed limit (b'-' ∷ s) ≡ in_range limit true (read_number s)
unfolding parse_signed
parse_signed-minus limit s = refl

read_number-digits : (n : ℕ) → n < pow10 10 → read_number (digits_onto 10 n []) ≡ some n
unfolding read_digits
read_number-digits n lt =
    read_number-Leads (digits_onto 10 n []) (digits_onto-Leads 9 n [])
    ∙ read_digits-digits_onto 10 n [] lt

-- an int32
abbrev pub IsInt32 : ℤ → Type 0
IsInt32 z = (negsuc 2147483647 ≤ℤ z) × (z ≤ℤ pos 2147483647)

-- An int32 is read back from its text, and there is no error.
parse_signed-itoa :
    (limit : ℕ) (z : ℤ) → 2147483648 ≤ limit → IsInt32 z → parse_signed limit (itoa z) ≡ (z, true)
unfolding itoa
parse_signed-itoa limit (pos n) le r =
    let few : ltb n limit ≡ true = ground arith in
    parse_signed-Leads limit (digits_onto 10 n []) (digits_onto-Leads 9 n [])
    ∙ ap (in_range limit false) (read_number-digits n (omega arith))
    ∙ rw few refl
parse_signed-itoa limit (negsuc n) le r =
    let few : leb (n + 1) limit ≡ true = ground arith in
    parse_signed-minus limit (digits_onto 10 (n + 1) [])
    ∙ ap (in_range limit true) (read_number-digits (n + 1) (ground arith))
    ∙ rw few (ground arith)

pub atoi-itoa : (z : ℤ) → IsInt32 z → atoi (itoa z) ≡ (z, true)
unfolding atoi
atoi-itoa z r = parse_signed-itoa 9223372036854775808 z (omega arith) r

pub parse_int32-itoa : (z : ℤ) → IsInt32 z → parse_int32 (itoa z) ≡ z
unfolding parse_int32
parse_int32-itoa z r = ap (λ (x : ℤ × Bool). x.0) (parse_signed-itoa 2147483648 z (omega arith) r)

pub to_int32-IsInt32 : (z : ℤ) → IsInt32 z → to_int32 z ≡ z
unfolding to_int32
to_int32-IsInt32 (pos n) r = ground arith
to_int32-IsInt32 (negsuc n) r = ground arith
