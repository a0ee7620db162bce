-- ===== src/Tests.antt =====
-- Runs of the model at small inputs, and the theorems at inputs where their hypotheses hold.
pub mod Groups
pub mod Inspecting
pub mod Interleave
pub mod Likes
pub mod Replica
pub mod Sync
pub mod Client
pub mod Start
pub mod Saying
use selected_course_projects.Prelude.{◌≡◌, refl, none, some, List, [], ◌∷◌, false}
use selected_course_projects.Prelude.Int.{pos, ◌<ℤ◌}
use selected_course_projects.Prelude.Text.{str, fields, replace_all}
use selected_course_projects.Data.{Group, ClientRequest}
use selected_course_projects.Clock.{parse_time, format_time}
use selected_course_projects.Groups.{create_group, name_merge}
use selected_course_projects.Prelude.{inl, ◌==◌, if◌then◌else◌, arith}
use selected_course_projects.Prelude.Map.{lookup}
use selected_course_projects.Prelude.Text.{beq_str, str_eq}
use selected_course_projects.Data.{nil, LinkedList, Message}
use selected_course_projects.Exec.Returns.{Returns}
use selected_course_projects.Heap.{Heap}
use selected_course_projects.LinkedList.{new_message}
use selected_course_projects.LinkedList.Cells.{message_node, Cells}
use selected_course_projects.LinkedList.IsList.{IsList}
use selected_course_projects.Placement.{insertion_message, update_group_lamport}
use mathlib.Core.List.{Permᴰ}
use selected_course_projects.Prelude.{true, not, ◌||◌}
use selected_course_projects.Data.{Information}
use selected_course_projects.Groups.{no_information, other_replicas}
use selected_course_projects.Prelude.Map.{insert}
use selected_course_projects.Placement.Converge.{merge_all}
use selected_course_projects.Placement.Fresh.{Fresh}
use selected_course_projects.Placement.Stands.{Stands}
use selected_course_projects.Placement.Deliver.{
  NoneOvertakes, deliver, deliver-merge_all, deliver-perm, insertion_message-twice,
}
use selected_course_projects.Placement.Merge.{known, insert_message, update}
use selected_course_projects.Placement.Represents.{overtakes}
use selected_course_projects.ChatServer.{append_message}
use selected_course_projects.ChatServer.Order.{Spoken, append_message-Ascending}
use selected_course_projects.ChatServer.Lost.{Lost, merge_then_append, merged_message-Lost}
use selected_course_projects.Placement.Merge.{merge}
use selected_course_projects.Placement.Refines.{Merges, insertion_message-merge}

time_text : format_time (parse_time (str "2023-03-08T14:05:59+01:00")) ≡ str "2023-03-08T13:05:59Z"
unfolding parse_time format_time
time_text = refl

words : fields (str "  Amy   Bob ") ≡ str "Amy" ∷ str "Bob" ∷ []
unfolding fields
words = refl

replaced_words : replace_all (str " Amy  Bob  Amy ") (str " Amy ") (str " ") ≡ str "  Bob  "
unfolding replace_all
replaced_words = refl

abbrev group : Group
group = create_group (pos 2) (str "2") (str "g") (pos 0)

no_names : name_merge group ≡ none
unfolding name_merge create_group lookup beq_str fields
no_names = refl

abbrev request : ClientRequest
request = record {
  request = str "UpdateMsg";
  user_id = pos 0;
  user_name = str "Amy";
  ori_group_name = str "g";
  new_group_name = [];
  like_number = pos 0;
  content = str "hi";
  replica = pos 2;
  timestamp = pos 1;
  group_timestamp = pos 0;
  from_server = str "2";
  map_index = pos 1;
}

-- Two messages in a heap, the first with a timestamp of 1 and the second with one of 3.
abbrev first_message : Message
first_message = record (new_message (pos 1) (pos 1) (str "Bob") (str "a") (pos 0)) {
  msg_id = pos 1;
}

abbrev pub second_message : Message
second_message = record (new_message (pos 3) (pos 1) (str "Bob") (str "b") (pos 0)) {
  msg_id = pos 2;
}

abbrev cells : Cells
cells = (1, (none, first_message)) ∷ (2, (none, second_message)) ∷ []

abbrev heap : Heap
heap = record {
  cell = λ p.
      if p == 1
      then some (message_node (none, first_message) 2)
      else if p == 2
      then some (message_node (none, second_message) nil)
      else none;
  fresh = 3;
}

abbrev list : LinkedList
list = record { head = 1; tail = 2; ten_start = 1; count = pos 2 }

abbrev two_messages : Group
two_messages = record group { message_list = list; max_lamport = pos 3 }

list-IsList : IsList heap list cells
list-IsList = record {
  chain = (omega arith, omega arith, refl, refl, (omega arith, omega arith, refl, refl, tt));
  head = refl;
  count = refl;
  fits = omega arith;
  room = omega arith;
  window = refl;
}

insertion_message-merge_example :
    Returns (Merges request two_messages cells) (insertion_message false request two_messages heap)
insertion_message-merge_example =
    insertion_message-merge false request two_messages heap cells list-IsList refl
      ((refl, tt), (tt, tt)) (inl refl) (omega arith)

-- a message from another replica, with a timestamp that is free
abbrev other : ClientRequest
other = record request { timestamp = pos 2; content = str "there"; map_index = pos 2 }

-- a message that overtakes the second
abbrev overtaking : ClientRequest
overtaking = record request { timestamp = pos 3 }

abbrev two : List Message
two = first_message ∷ second_message ∷ []

knows_two : (i : Information) × (lookup (str "2") two_messages.replica_info ≡ some i)
unfolding create_group other_replicas lookup insert beq_str
knows_two = (no_information, refl)

pub two-Stands : Stands two two_messages heap
two-Stands = record {
  cells = cells;
  list = list-IsList;
  tail = refl;
  stands = refl;
  ascending = ((refl, tt), (tt, tt));
}

other_free : (known other two || not (overtakes other two)) ≡ true
unfolding known overtakes
other_free = refl

none_overtake : NoneOvertakes (request ∷ other ∷ []) two
unfolding known overtakes merge insert_message update
none_overtake = (refl, (refl, tt))

none_overtake' : NoneOvertakes (other ∷ request ∷ []) two
unfolding known overtakes merge insert_message update
none_overtake' = (refl, (refl, tt))

acknowledges_none : lookup (str "2") two_messages.replica_info ≡ some no_information
unfolding create_group other_replicas lookup insert beq_str
acknowledges_none = refl

request-Fresh : Fresh request two_messages
request-Fresh = (no_information, acknowledges_none, omega arith, refl)

other-Fresh : Fresh other two_messages
other-Fresh = (no_information, acknowledges_none, omega arith, refl)

deliver-merge_all_example :
    Returns
      (Stands (merge_all (request ∷ other ∷ []) two))
      (deliver (request ∷ other ∷ []) two_messages heap)
deliver-merge_all_example =
    deliver-merge_all (request ∷ other ∷ []) two two_messages heap two-Stands
      (request-Fresh, (other-Fresh, tt)) (((λ _. refl), tt), (tt, tt)) none_overtake (omega arith)

insertion_message-twice_example :
    Returns
      (λ out k.
        Stands (merge other two) out.group k
        × Returns
            (λ again k'. Stands (merge other two) again.group k' × (again.group ≡ out.group))
            (insertion_message true other out.group k))
      (insertion_message true other two_messages heap)
insertion_message-twice_example =
    insertion_message-twice other two two_messages heap two-Stands other-Fresh other_free
      (omega arith)

deliver-perm_example :
    (ns : List Message) × Returns (Stands ns) (deliver (request ∷ other ∷ []) two_messages heap)
    × Returns (Stands ns) (deliver (other ∷ request ∷ []) two_messages heap)
deliver-perm_example =
    deliver-perm (request ∷ other ∷ []) (other ∷ request ∷ []) two two_messages two_messages heap
      heap (Permᴰ.swap refl refl) ((inl refl, tt), (tt, tt)) two-Stands two-Stands
      (request-Fresh, (other-Fresh, tt)) (other-Fresh, (request-Fresh, tt))
      (((λ _. refl), tt), (tt, tt)) (((λ _. refl), tt), (tt, tt)) none_overtake none_overtake'
      (omega arith) (omega arith)

append_message-Ascending_example :
    Returns
      (Spoken (pos 2) request two_messages cells)
      (append_message (pos 2) (str "2") request two_messages heap)
append_message-Ascending_example =
    append_message-Ascending (pos 2) (str "2") request two_messages heap cells list-IsList refl
      ((refl, tt), (tt, tt)) (omega arith, (omega arith, tt)) (omega arith) (omega arith) knows_two

unknown : known overtaking two ≡ false
unfolding known
unknown = refl

over : overtakes overtaking two ≡ true
unfolding overtakes
over = refl

below : (update_group_lamport two_messages (pos 3)).max_lamport <ℤ pos 2147483647
unfolding update_group_lamport
below = omega arith

merged_message-Lost_example :
    Returns
      (Lost overtaking cells)
      (merge_then_append false overtaking two_messages (pos 2) (str "2") request heap)
merged_message-Lost_example =
    merged_message-Lost overtaking two_messages (pos 2) (str "2") request heap false cells
      list-IsList refl ((refl, tt), (tt, tt)) (inl refl) (omega arith) unknown over below knows_two
