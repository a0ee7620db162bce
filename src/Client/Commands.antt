-- ===== src/Client/Commands.antt =====
-- The variables of the client program, chat_system/client.go, and its commands one by one.
use selected_course_projects.Prelude.{
  ℕ, Bool, true, false, not, ◌&&◌, ◌||◌, Option, none, some, List, [], ◌∷◌, get_elem?, ◌==◌,
  if◌then◌else◌,
}
use selected_course_projects.Prelude.Int.{ℤ, int_eq, pos, negsuc, ltb_ℤ, eqb_ℤ}
use selected_course_projects.Prelude.Map.{Map, lookup}
use selected_course_projects.Prelude.Number.{atoi, to_int32}
use selected_course_projects.Prelude.Text.{Str, str, beq_str, push_char, length_str}
use selected_course_projects.Groups.{take_str}
use selected_course_projects.Data.{ClientRequest, blank}

-- The variables of `main` and the global ones. `connection` also says whether `stream` is set.
pub record Client : Type 0 where
  pub user_id : ℤ
  pub current_state : ℤ
  pub like_map : Map ℤ ℤ
  pub username : Str
  pub current_group : Str
  pub new_group : Str
  pub request : Str
  pub connection : Bool

abbrev pub start : Client
start = record {
  user_id = negsuc 0;
  current_state = pos 0;
  like_map = [];
  username = [];
  current_group = [];
  new_group = [];
  request = [];
  connection = false;
}

-- What a line leads to: the next round of the loop, or a request that is sent first, or the end of
-- the program by `log.Fatal`, or a panic. An error of Send is fatal too.
pub data Outcome : Type 0 where
  goes_on : Client → Outcome
  sends : ClientRequest → Client → Outcome
  fatal : Outcome
  panics : Outcome

-- strings.Split(s, " ")
unfoldable pub split_words : Str → List Str
split_words [] = [] ∷ []
split_words (c ∷ s) = let rest = split_words s in if c == b' ' then [] ∷ rest else push_char c rest

-- `s[:len(s)-1]`, which panics on the empty text
unfoldable pub strip_newline : Str → Option Str
unfolding take_str
strip_newline [] = none
strip_newline (c ∷ s) = some (take_str (length_str s) (c ∷ s))

-- `arguments[1]` and so on: out of range it panics
abbrev pub with_argument : List Str → ℕ → (Str → Outcome) → Outcome
with_argument arguments i f = elim (get_elem? arguments i) [ none ↦ panics | some s ↦ f s ]

-- Send on a stream that is not set panics.
abbrev pub send_now : ClientRequest → Client → Outcome
send_now r c = if c.connection then sends r c else panics

-- A new connection; the dialing has succeeded.
abbrev pub open_connection : Client → Client
open_connection c =
    if c.connection
    then record c { user_id = negsuc 0; current_group = []; current_state = pos 0 }
    else record c { connection = true }

unfoldable pub login : (name : Str) → Client → Outcome
login name c =
    if not c.connection
    then goes_on c
    else sends
        (record (blank (if eqb_ℤ c.user_id (negsuc 0) then str "u" else str "change")) {
          user_name = name;
          ori_group_name = c.current_group;
          user_id = c.user_id;
        })
        (record c { username = name })

-- The first group is joined, and from then on groups are switched.
unfoldable pub join_group : (group : Str) → Client → Outcome
join_group group c =
    if not c.connection || ltb_ℤ c.current_state (pos 1)
    then goes_on c
    else let switching = not (beq_str c.current_group []) in
      let c1 =
        if switching
        then record c { new_group = group; request = str "s" }
        else record c { current_group = group; request = str "j" } in
      sends
        (record (blank c1.request) {
          user_name = c1.username;
          ori_group_name = c1.current_group;
          new_group_name = c1.new_group;
          user_id = c1.user_id;
        })
        (record c1 {
          current_group = if switching then c1.new_group else c1.current_group;
          current_state = pos 2;
        })

-- the guard of the requests on a group
abbrev pub has_joined : Client → Bool
has_joined c = c.connection && not (ltb_ℤ c.current_state (pos 2))

-- `text` is the line that is read next.
unfoldable pub append_text : (text : Str) → Client → Outcome
append_text text c =
    if has_joined c
    then sends
        (record (blank (str "a")) {
          user_name = c.username;
          content = text;
          user_id = c.user_id;
          ori_group_name = c.current_group;
        })
        c
    else goes_on c

abbrev pub on_message : (request : Str) → (id : ℤ) → Client → Outcome
on_message request id c =
    sends
      (record (blank request) {
        ori_group_name = c.current_group;
        like_number = id;
        user_name = c.username;
        user_id = c.user_id;
      })
      c

-- A text that is no number is fatal.
unfoldable pub like_line : (number : Str) → Client → Outcome
like_line number c =
    let (i, read) = atoi number in
    if not (has_joined c)
    then goes_on c
    else if not read
    then fatal
    else elim (lookup (to_int32 i) c.like_map) [
      | none ↦ goes_on c
      | some id ↦ on_message (str "l") id c
    ]

-- Here the number is looked up before its error is tested.
unfoldable pub unlike_line : (number : Str) → Client → Outcome
unlike_line number c =
    let (i, read) = atoi number in
    if not (has_joined c) then goes_on c else elim (lookup (to_int32 i) c.like_map) [
      | none ↦ goes_on c
      | some id ↦ if read then on_message (str "r") id c else fatal
    ]

unfoldable pub print_history : Client → Outcome
print_history c =
    if has_joined c
    then sends (record (blank (str "p")) { ori_group_name = c.current_group }) c
    else goes_on c

-- After a request to quit the client waits for the farewell; `current_state` of 3 ends the loop.
unfoldable pub quit : Client → Outcome
quit c =
    if not c.connection
    then goes_on c
    else if eqb_ℤ c.current_state (pos 0)
    then goes_on (record c { current_state = pos 3 })
    else sends
        (record (blank (str "q")) {
          user_name = c.username;
          user_id = c.user_id;
          ori_group_name = c.current_group;
        })
        (record c { current_state = pos 3 })
