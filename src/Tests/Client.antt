-- ===== src/Tests/Client.antt =====
-- The theorems on the client program at inputs where their hypotheses hold.
use selected_course_projects.Prelude.{
  inl, arith, ◌==◌, if◌then◌else◌, ◌≡◌, refl, true, false, none, some, ℕ, ◌≤◌, ◌<◌, suc, List, [],
  ◌∷◌, length, get_elem?,
}
use selected_course_projects.Prelude.Int.{pos, int_eq}
use selected_course_projects.Prelude.Map.{lookup, insert}
use selected_course_projects.Prelude.Text.{Str, str, str_eq, beq_str, fields, contains}
use selected_course_projects.Exec.{ok}
use selected_course_projects.Exec.Returns.{Returns}
use selected_course_projects.Data.{ClientRequest, ServerResponse, response, blank, Group, Message}
use selected_course_projects.Network.Broadcast.{Calm}
use selected_course_projects.ChatRoom.{handle}
use selected_course_projects.ChatRoom.Handlers.{new_session}
use selected_course_projects.ChatRoom.Harmless.{handle-Calm}
use selected_course_projects.ChatServer.{screen}
use selected_course_projects.ChatServer.Screen.{screen_of, from_node}
use selected_course_projects.Groups.{
  create_group, other_replicas, no_information, name_merge, take_str,
}
use selected_course_projects.Client.{Input, command, first_word, receive, round}
use selected_course_projects.Client.Refused.{round-ReadsTwo}
use selected_course_projects.Client.Agreement.{
  System, asks, connects, hears, Reach, here, then_step, Agrees, reach-Agrees,
}
use selected_course_projects.Client.Commands.{
  Client, start, open_connection, join_group, sends, split_words, strip_newline, goes_on, panics,
  on_message, has_joined,
}
use selected_course_projects.Client.Screen.{receive_all, receive_all-screen}
use selected_course_projects.LinkedList.Cells.{messages}
use selected_course_projects.Client.Chosen.{round-screen}
use selected_course_projects.Client.Typed.{typed}
use selected_course_projects.Likes.{find_message}
use selected_course_projects.Prelude.Number.{itoa}
use selected_course_projects.Tests.{second_message, two_messages, heap, cells, list-IsList}
use selected_course_projects.Tests.Sync.{Log, delivering, world}

abbrev system : Client → List ClientRequest → System Log
system c sent = record { client = c; session = new_session; sent = sent; world = world }

abbrev answer : ServerResponse
answer = record (response (str "login") (str "Amy") []) { user_id = pos 4 }

abbrev logged_in : Client
logged_in = (receive answer (open_connection start)).0

abbrev joined : Client
joined = record logged_in { current_group = str "g"; request = str "j"; current_state = pos 2 }

abbrev joining : ClientRequest
joining = record (blank (str "j")) { ori_group_name = str "g"; user_id = pos 4 }

abbrev input : Input
input = record { line = str "j g "; next_line = []; dialed = false; now = pos 0 }

not_same : beq_str (first_word (str "j" ∷ str "g" ∷ [])) (str "sendSame") ≡ false
unfolding first_word beq_str
not_same = refl

joins : command input (str "j" ∷ str "g" ∷ []) logged_in ≡ sends joining joined
unfolding command first_word beq_str join_group get_elem? receive
joins = refl

run : Reach delivering 9 (system start []) (system joined (joining ∷ []))
run =
    then_step (then_step (then_step here connects) (hears answer))
      (asks input (str "j" ∷ str "g" ∷ []) joining joined not_same joins)

reach-Agrees_example : Agrees (system joined (joining ∷ []))
reach-Agrees_example = reach-Agrees delivering 9 world (system joined (joining ∷ [])) run

-- two messages in a group in which Amy takes part
abbrev pub with_amy : Group
with_amy = record two_messages {
  replica_info =
      insert (str "2") (record no_information { user_list = str " Amy " })
        two_messages.replica_info;
}

pub names_amy : name_merge with_amy ≡ some (str "Amy")
unfolding name_merge create_group other_replicas lookup insert beq_str fields contains
names_amy = refl

receive_all-screen_example :
    (screen with_amy heap ≡ ok (screen_of with_amy (str "Amy") cells) heap)
    × (length (screen_of with_amy (str "Amy") cells) ≤ 12)
    × ((j : ℕ) (m : Message) (c : Client)
        → get_elem? (messages (from_node with_amy.message_list.ten_start cells)) j ≡ some m
        → j < 10
        → lookup (pos (suc j)) (receive_all (screen_of with_amy (str "Amy") cells) c).like_map
          ≡ some m.msg_id)
receive_all-screen_example =
    receive_all-screen with_amy heap cells (str "Amy") list-IsList refl names_amy

abbrev like_line : Input
like_line = record { line = str "like 3 1 1 "; next_line = []; dialed = false; now = pos 0 }

abbrev like_text : Str
like_text = str "like 3 1 1"

read_line : strip_newline like_line.line ≡ some like_text
unfolding strip_newline take_str
read_line = refl

is_like : first_word (split_words like_text) ≡ str "like"
unfolding first_word split_words
is_like = refl

round-ReadsTwo_example :
    round like_line joined
    ≡ (if length (split_words like_text) == 2 then panics else goes_on joined)
round-ReadsTwo_example = round-ReadsTwo like_line joined like_text read_line (inl is_like)

-- a client asks which servers there are
handle-Calm_example :
    Returns
      (λ s' w'. (s' ≡ new_session) × Calm world w')
      (handle delivering 9 (blank (str "v")) new_session world)
handle-Calm_example = handle-Calm delivering 9 (blank (str "v")) new_session world (inl refl)

-- the second message of the screen is chosen
abbrev like_second : Input
like_second = record {
  line = typed b'l' (itoa (pos 2));
  next_line = [];
  dialed = false;
  now = pos 0;
}

abbrev unlike_second : Input
unlike_second = record like_second { line = typed b'r' (itoa (pos 2)) }

second_shown :
    get_elem? (from_node with_amy.message_list.ten_start cells) 1 ≡ some (2, (none, second_message))
unfolding get_elem? from_node
second_shown = refl

abbrev after_screen : Client
after_screen = receive_all (screen_of with_amy (str "Amy") cells) joined

is_joined : has_joined joined ≡ true
unfolding receive beq_str
is_joined = refl

round-screen_example :
    (screen with_amy heap ≡ ok (screen_of with_amy (str "Amy") cells) heap)
    × (round like_second after_screen ≡ on_message (str "l") (pos 2) after_screen)
    × (round unlike_second after_screen ≡ on_message (str "r") (pos 2) after_screen)
    × (find_message 3 (pos 2) 1 heap ≡ ok 2 heap)
round-screen_example =
    round-screen with_amy heap cells (str "Amy") joined 1 2 (none, second_message) like_second
      unlike_second list-IsList refl (refl, (refl, tt)) names_amy is_joined second_shown
      (omega arith) refl refl
