-- ===== src/Client.antt =====
-- The client program, chat_system/client.go: what a line that is typed does, and what a response of
-- the server does. The two run concurrently, and are steps on the variables that they share.
pub mod Agreement
pub mod Chosen
pub mod Commands
pub mod Follow
pub mod Following
pub mod Refused
pub mod Screen
pub mod Typed
pub mod TestCommands
use selected_course_projects.Prelude.{
  ℕ, Bool, true, false, not, ◌&&◌, ◌||◌, Option, none, some, List, [], ◌∷◌, ◌++◌, length, get_elem?,
  ◌==◌, if◌then◌else◌,
}
use selected_course_projects.Prelude.Int.{ℤ, int_eq, pos, negsuc, ◌+ℤ◌, ltb_ℤ, eqb_ℤ}
use selected_course_projects.Prelude.Map.{Map, lookup, insert}
use selected_course_projects.Prelude.Number.{atoi, to_int32}
use selected_course_projects.Prelude.Text.{Str, str, beq_str, push_char, length_str}
use selected_course_projects.Clock.{format_time}
use selected_course_projects.Groups.{take_str}
use selected_course_projects.Data.{Time, ClientRequest, ServerResponse, blank}
use selected_course_projects.Client.Commands.{
  Client, Outcome, goes_on, sends, fatal, panics, start, split_words, strip_newline, with_argument,
  send_now, open_connection, login, join_group, has_joined, append_text, on_message, like_line,
  unlike_line, print_history, quit,
}
use selected_course_projects.Client.TestCommands.{
  test_like, test_member, test_member2, test_insert, test_same, send_name,
}

-- What the client reads from outside at a command: the line, the line after it, whether dialing
-- succeeds, and the clock.
pub record Input : Type 0 where
  pub line : Str
  pub next_line : Str
  pub dialed : Bool
  pub now : Time

-- the first command of which only the name is tested
unfoldable pub first_word : List Str → Str
first_word [] = []
first_word (w ∷ ws) = w

-- The commands that need not have exactly one argument.
unfoldable pub any_arguments : Str → Bool
any_arguments w =
    beq_str w (str "a")
    || beq_str w (str "v")
    || beq_str w (str "p")
    || beq_str w (str "q")
    || beq_str w (str "data")
    || beq_str w (str "222")

-- thirty seconds
abbrev pub old_by : ℤ
old_by = negsuc 29999999999

-- The commands for tests and the default, which prints the commands.
unfoldable pub test_command : Input → List Str → Client → Outcome
unfolding ◌+ℤ◌
test_command input arguments c =
    let is = beq_str (first_word arguments) in
    if is (str "printdata")
    then send_name (str "data") c
    else if is (str "inserttest")
    then test_insert c
    else if is (str "like")
    then test_like input.now arguments c
    else if is (str "old")
    then test_like (input.now +ℤ old_by) arguments c
    else if is (str "member")
    then test_member arguments c
    else if is (str "member2")
    then test_member2 arguments c
    else if is (str "sendSame")
    then test_same c
    else if is (str "data")
    then send_name (str "data") c
    else if is (str "send")
    then send_name (str "Entropy") c
    else if is (str "000")
    then send_name (str "000") c
    else if is (str "111")
    then send_name (str "InspectMap") c
    else if is (str "222")
    then send_name (str "Entropy") c
    else goes_on c

-- The switch of the loop.
unfoldable pub command : Input → List Str → Client → Outcome
unfolding login join_group append_text like_line unlike_line print_history quit test_command
command input arguments c =
    let is = beq_str (first_word arguments) in
    if is (str "c")
    then (with_argument arguments 1
        λ address. if input.dialed then goes_on (open_connection c) else fatal)
    else if is (str "u")
    then (if c.connection then (with_argument arguments 1 λ name. login name c) else goes_on c)
    else if is (str "j")
    then (with_argument arguments 1 λ group. join_group group c)
    else if is (str "a")
    then (if has_joined c
        then elim (strip_newline input.next_line) [ none ↦ panics | some text ↦ append_text text c ]
        else goes_on c)
    else if is (str "l")
    then (with_argument arguments 1 λ number. like_line number c)
    else if is (str "r")
    then (with_argument arguments 1 λ number. unlike_line number c)
    else if is (str "p")
    then print_history c
    else if is (str "q")
    then quit c
    else if is (str "v")
    then send_name (str "v") c
    else test_command input arguments c

-- One round of the loop.
unfoldable pub round : Input → Client → Outcome
unfolding strip_newline split_words any_arguments command first_word
round input c = elim (strip_newline input.line) [
  | none ↦ panics
  | some text ↦
      let arguments = split_words text in
      if not (length arguments == 2) && not (any_arguments (first_word arguments))
      then goes_on c
      else command input arguments c
]

-- One round of `receiving`, and whether it goes on receiving.
unfoldable pub receive : ServerResponse → Client → Client × Bool
receive resp c =
    let is = beq_str resp.request in
    if is (str "print")
    then (c, true)
    else if is (str "login")
    then (
      record c {
        user_id = resp.user_id;
        current_state = if eqb_ℤ c.current_state (pos 0) then pos 1 else c.current_state;
      },
      true,
    )
    else if is (str "store")
    then (record c { like_map = insert resp.local_message resp.msg_id c.like_map }, true)
    else (c, not (is (str "bye")))
