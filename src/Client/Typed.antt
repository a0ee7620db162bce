-- ===== src/Client/Typed.antt =====
-- A number of the screen that is typed after l or r in the client program (chat_system/client.go).
use selected_course_projects.Prelude.{
  ℕ, zero, suc, ◌+◌, ◌/◌, ◌%◌, ◌≤◌, ◌≡◌, refl, ap, ◌∙◌, true, false, some, [], ◌∷◌, ◌++◌, get_elem?,
  arith, ltb, ◌==◌, Bool-cases, inl, inr,
}
use selected_course_projects.Prelude.Decimal.{IsInt32, atoi-itoa, to_int32-IsInt32}
use selected_course_projects.Prelude.Int.{ℤ, pos, int_eq}
use selected_course_projects.Prelude.Map.{lookup}
use selected_course_projects.Prelude.Number.{itoa}
use selected_course_projects.Prelude.Text.{Str, str, beq_str, length_str, digits_onto}
use selected_course_projects.Groups.{take_str}
use selected_course_projects.Client.{Input, round, command, first_word}
use selected_course_projects.Client.Commands.{
  Client, has_joined, like_line, unlike_line, on_message, split_words, strip_newline,
}

-- A text with no space in it, nor any character below the digits.
abbrev pub Solid : Str → Type 0
Solid [] = Unit {0}
Solid (c ∷ s) = (48 ≤ c) × Solid s

digits_onto-Solid : (k n : ℕ) (s : Str) → Solid s → Solid (digits_onto k n s)
unfolding digits_onto
digits_onto-Solid zero n s o = o
digits_onto-Solid (suc k) n s o = elim (Bool-cases (ltb n 10)) [
  | inl few ↦ rw few (omega arith, o)
  | inr many ↦ rw many (digits_onto-Solid k (n / 10) ((48 + n % 10) ∷ s) (omega arith, o))
]

split_words-Solid : (s : Str) → Solid s → split_words s ≡ s ∷ []
unfolding split_words
split_words-Solid [] o = refl
split_words-Solid (c ∷ s) o =
    let e : (c == b' ') ≡ false = ground arith in rw (e, split_words-Solid s o.1) refl

take_str-init :
    (x : ℕ) (s : Str) (c : ℕ) → take_str (length_str (s ++ c ∷ [])) (x ∷ (s ++ c ∷ [])) ≡ x ∷ s
unfolding take_str
take_str-init x [] c = refl
take_str-init x (y ∷ s) c = ap (◌∷◌ x) (take_str-init y s c)

-- a command with a number and the end of the line
abbrev pub typed : (word : ℕ) → (number : Str) → Str
typed word number = word ∷ b' ' ∷ (number ++ 10 ∷ [])

strip_newline-typed :
    (word : ℕ) (number : Str) → strip_newline (typed word number) ≡ some (word ∷ b' ' ∷ number)
unfolding strip_newline
strip_newline-typed word number = ap some (take_str-init word (b' ' ∷ number) 10)

split_words-typed :
    (word : ℕ) (number : Str)
    → 48 ≤ word
    → Solid number
    → split_words (word ∷ b' ' ∷ number) ≡ (word ∷ []) ∷ number ∷ []
unfolding split_words
split_words-typed word number le o =
    let e : (word == b' ') ≡ false = ground arith in rw (e, split_words-Solid number o) refl

-- A line with one argument is handed to its command.
round_lem :
    (input : Input) (c : Client) (text word argument : Str)
    → strip_newline input.line ≡ some text
    → split_words text ≡ word ∷ argument ∷ []
    → round input c ≡ command input (word ∷ argument ∷ []) c
unfolding round
round_lem input c text word argument e f = rw (round, e, f) refl

pub round-typed :
    (input : Input) (c : Client) (word : ℕ) (number : Str)
    → input.line ≡ typed word number
    → 48 ≤ word
    → Solid number
    → round input c ≡ command input ((word ∷ []) ∷ number ∷ []) c
round-typed input c word number e le o =
    round_lem input c (word ∷ b' ' ∷ number) (word ∷ []) number
      (ap strip_newline e ∙ strip_newline-typed word number) (split_words-typed word number le o)

pub command-like :
    (input : Input) (number : Str) (c : Client)
    → command input (str "l" ∷ number ∷ []) c ≡ like_line number c
unfolding command first_word beq_str get_elem?
command-like input number c = refl

pub command-unlike :
    (input : Input) (number : Str) (c : Client)
    → command input (str "r" ∷ number ∷ []) c ≡ unlike_line number c
unfolding command first_word beq_str get_elem?
command-unlike input number c = refl

module _ (c : Client) (n : ℕ) (id : ℤ) (joined : has_joined c ≡ true) (fits : n ≤ 2147483647)
    (kept : lookup (pos n) c.like_map ≡ some id) where
  pub like_line_lem : like_line (itoa (pos n)) c ≡ on_message (str "l") id c
  unfolding like_line
  like_line_lem =
      let r : IsInt32 (pos n) = (omega arith, omega arith) in
      rw (joined, atoi-itoa (pos n) r, to_int32-IsInt32 (pos n) r, kept) refl

  pub unlike_line_lem : unlike_line (itoa (pos n)) c ≡ on_message (str "r") id c
  unfolding unlike_line
  unlike_line_lem =
      let r : IsInt32 (pos n) = (omega arith, omega arith) in
      rw (joined, atoi-itoa (pos n) r, to_int32-IsInt32 (pos n) r, kept, atoi-itoa (pos n) r) refl

pub itoa-Solid : (n : ℕ) → Solid (itoa (pos n))
unfolding itoa
itoa-Solid n = digits_onto-Solid 10 n [] tt
