-- ===== src/Client/Refused.antt =====
-- The commands of the client program (chat_system/client.go) that read more arguments than a line may
-- have.
use selected_course_projects.Prelude.{
  ◌≡◌, refl, ◌⊎◌, inl, inr, true, false, some, List, [], ◌∷◌, length, ◌==◌, get_elem?, arith,
  Bool-cases, if◌then◌else◌,
}
use selected_course_projects.Prelude.Text.{Str, str, beq_str}
use selected_course_projects.Client.{
  Input, command, test_command, first_word, any_arguments, split_words, strip_newline, round,
}
use selected_course_projects.Client.Commands.{Client, goes_on, panics}

-- like, old and member
abbrev pub ReadsTwo : Str → Type 0
ReadsTwo word = (word ≡ str "like") ⊎ ((word ≡ str "old") ⊎ (word ≡ str "member"))

two_words :
    (input : Input) (c : Client) (word argument : Str)
    → ReadsTwo word
    → command input (word ∷ argument ∷ []) c ≡ panics
unfolding command first_word test_command beq_str get_elem?
two_words input c word argument (inl e) = rw e refl
two_words input c word argument (inr (inl e)) = rw e refl
two_words input c word argument (inr (inr e)) = rw e refl

command-panics :
    (input : Input) (c : Client) (arguments : List Str)
    → ReadsTwo (first_word arguments)
    → (length arguments == 2) ≡ true
    → command input arguments c ≡ panics
unfolding first_word
command-panics input c [] r e = absurd (ground arith)
command-panics input c (w ∷ []) r e = absurd (ground arith)
command-panics input c (w ∷ a ∷ []) r e = two_words input c w a r
command-panics input c (w ∷ a ∷ b ∷ rest) r e = absurd (ground arith)

one_argument : (word : Str) → ReadsTwo word → any_arguments word ≡ false
unfolding any_arguments beq_str
one_argument word (inl e) = rw e refl
one_argument word (inr (inl e)) = rw e refl
one_argument word (inr (inr e)) = rw e refl

-- A line with the command like, old or member is never sent: either it is turned down, with the client
-- as it was, or the client panics, according to whether it has exactly two words.
pub round-ReadsTwo :
    (input : Input) (c : Client) (text : Str)
    → strip_newline input.line ≡ some text
    → ReadsTwo (first_word (split_words text))
    → round input c ≡ (if length (split_words text) == 2 then panics else goes_on c)
unfolding round
round-ReadsTwo input c text e r = elim (Bool-cases (length (split_words text) == 2)) [
  | inl b ↦ rw (round, e, b) (command-panics input c (split_words text) r b)
  | inr b ↦ rw (round, e, b, one_argument (first_word (split_words text)) r) refl
]
