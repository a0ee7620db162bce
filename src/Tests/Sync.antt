-- ===== src/Tests/Sync.antt =====
-- The theorems on the exchange between replicas at inputs where their hypotheses hold, with a network
-- that delivers everything and keeps what was sent.
use selected_course_projects.Prelude.{
  ℕ, zero, suc, Option, ◌≡◌, refl, true, false, none, some, List, [], ◌∷◌, ◌++◌, arith, ◌==◌,
  if◌then◌else◌,
}
use selected_course_projects.Prelude.Int.{pos, inc32, int_eq}
use selected_course_projects.Prelude.Map.{lookup, insert}
use selected_course_projects.Prelude.Number.{itoa}
use selected_course_projects.Prelude.Text.{Str, str, str_eq, beq_str}
use selected_course_projects.Exec.Returns.{Returns}
use selected_course_projects.Data.{nil, Message, Information, Group, ClientRequest}
use selected_course_projects.Groups.{create_group, no_information, other_replicas}
use selected_course_projects.Heap.{Heap, load, load_message, need}
use selected_course_projects.LinkedList.{new_message}
use selected_course_projects.LinkedList.Cells.{message_node}
use selected_course_projects.Network.{Transport, Config, World, replica_set_up}
use selected_course_projects.Network.Broadcast.{new_config, replica_set_up-Returns}
use selected_course_projects.Network.Sending.{send_list}
use selected_course_projects.Placement.{insertion_message}
use selected_course_projects.Placement.CatchUp.{AllNew, insertion_message-unacknowledged}
use selected_course_projects.Replica.CatchUp.{Caught, merge_messages}
use selected_course_projects.Placement.Converge.{merge_all}
use selected_course_projects.Placement.Stands.{Stands}
use selected_course_projects.Placement.Merge.{known, merge}
use selected_course_projects.Placement.Represents.{overtakes}
use selected_course_projects.ChatServer.{append_message}
use selected_course_projects.ChatServer.Logged.{append_message-Owed}
use selected_course_projects.Replica.{Server}
use selected_course_projects.Sync.{my_saving, update_msg, check_for_merge}
use selected_course_projects.Sync.Exchange.{check_for_merge_catches_up}
use selected_course_projects.Sync.Answer.{all_owed, marked_online}
use selected_course_projects.Sync.Owed.{Owed, HasMessage, requests}
use selected_course_projects.Tests.{
  request, cells, list-IsList, heap, two, two_messages, two-Stands,
}

abbrev pub Log : Type 0
Log = List (ℕ × ClientRequest)

abbrev pub delivering : Transport Log
delivering = record {
  send = λ stream r w. (true, w ++ (stream, r) ∷ []);
  reply = λ stream r w. (true, w);
  open_stream = λ server w. (none, w);
  now = λ w. (pos 0, w);
}

-- server 1 has one message of server 3
abbrev third : Message
third = new_message (pos 2) (pos 3) (str "Eve") (str "c") (pos 0)

abbrev third_info : Information
third_info = record no_information { msg_timestamp = pos 1; message_lamport = (pos 1, 1) ∷ [] }

abbrev third_heap : Heap
third_heap = record {
  cell = λ p. if p == 1 then some (message_node (none, third) nil) else none;
  fresh = 2;
}

abbrev third_group : Group
third_group = record (create_group (pos 1) (str "1") (str "g") (pos 2)) {
  replica_info = (str "3", third_info) ∷ [];
}

abbrev config : Config
config = record { stream = 7; last_time = pos 0; is_online = pos 0 }

abbrev pub world : World Log
world = record {
  server = record {
    heap = third_heap;
    group_map = (str "g", third_group) ∷ [];
    me = pos 1;
    string_me = str "1";
    user_count = pos 0;
  };
  stream_set = (str "2", config) ∷ [];
  net = [];
}

asker_info : lookup (str "3") two_messages.replica_info ≡ some no_information
unfolding create_group other_replicas lookup insert beq_str
asker_info = refl

has_group : lookup two_messages.group_name world.server.group_map ≡ some third_group
unfolding create_group lookup beq_str
has_group = refl

has_config : lookup (itoa (pos 2)) world.stream_set ≡ some config
unfolding lookup beq_str itoa
has_config = refl

has_info : lookup (str "3") third_group.replica_info ≡ some third_info
unfolding lookup beq_str
has_info = refl

has_third : HasMessage third_heap third_info (inc32 (pos 0)) third
unfolding lookup inc32 load_message load need
has_third = (1, refl, refl)

none_left : inc32 (pos 0) ≡ pos 1
unfolding inc32
none_left = refl

third_new : AllNew (requests (update_msg third_group (str "3")) (pos 0) (third ∷ [])) two
unfolding known overtakes
third_new = (refl, refl, tt)

abbrev asking : Server
asking = record {
  heap = heap;
  group_map = (str "g", two_messages) ∷ [];
  me = pos 2;
  string_me = str "2";
  user_count = pos 0;
}

abbrev third_request : List ClientRequest
third_request = requests (update_msg third_group (str "3")) (pos 0) (third ∷ [])

same_name : third_group.group_name ≡ two_messages.group_name
unfolding create_group
same_name = refl

asks_in : lookup two_messages.group_name asking.group_map ≡ some two_messages
unfolding create_group lookup beq_str
asks_in = refl

check_for_merge_catches_up_example :
    (check_for_merge delivering (my_saving (pos 2) two_messages (str "3") no_information) world
      ≡ send_list delivering
          (itoa (pos 2))
          7
          (all_owed
            (my_saving (pos 2) two_messages (str "3") no_information)
            third_group
            third_info
            (third ∷ [])
            [])
          (marked_online (itoa (pos 2)) config world))
    × Returns
        (λ _. Caught two_messages.group_name (str "3") 1 (merge_all third_request two) asking)
        (merge_messages third_request false asking)
check_for_merge_catches_up_example =
    check_for_merge_catches_up delivering asking two_messages two no_information (str "3") 0 1
      third_group third_info config world (third ∷ []) [] asks_in two-Stands asker_info refl
      has_group same_name has_config has_info refl (omega arith) (omega arith)
      (refl, has_third, rw none_left refl) refl (omega arith) (omega arith) third_new (omega arith)

-- a message of server 3 that server 2 has already, by its timestamp and replica
abbrev again : ClientRequest
again = record request { replica = pos 1; from_server = str "3" }

again_known : known again two ≡ true
unfolding known
again_known = refl

insertion_message-unacknowledged_example :
    Returns
      (λ out k. Stands (merge again two) two_messages k × (out.group ≡ two_messages))
      (insertion_message true again two_messages heap)
insertion_message-unacknowledged_example =
    insertion_message-unacknowledged again two two_messages heap no_information two-Stands
      asker_info refl again_known (omega arith)

-- a network in which the first attempts to connect fail: its state is the number of those to come
abbrev refusing : Transport ℕ
refusing = record {
  send = λ stream r w. (false, w);
  reply = λ stream r w. (false, w);
  open_stream =
      λ server w. elim w as (λ _. Option ℕ × ℕ) [ zero ↦ (some 5, 0) | suc n ↦ (none, n) ];
  now = λ w. (pos 0, w);
}

abbrev early : World ℕ
early = record { server = world.server; stream_set = []; net = 2 }

replica_set_up-Returns_example :
    Returns
      (λ _ w'.
        (w'.server ≡ early.server)
        × (lookup (str "4") w'.stream_set ≡ some (new_config refusing 5))
        × ((s : Str)
            → beq_str (str "4") s ≡ false
            → lookup s w'.stream_set ≡ lookup s early.stream_set)
        × (w'.net ≡ 0))
      (replica_set_up refusing 10 (str "4") early)
replica_set_up-Returns_example =
    replica_set_up-Returns refusing (str "4") 2 10 early (refl, (refl, (5, refl))) (omega arith)

own_info : lookup (str "2") two_messages.replica_info ≡ some no_information
unfolding create_group other_replicas lookup insert beq_str
own_info = refl

append_message-Owed_example :
    Returns
      (λ out k.
        (info : Information) × (lookup (str "2") out.0.replica_info ≡ some info)
        × Owed (HasMessage k info) info.msg_timestamp (pos 0) (out.1 ∷ []))
      (append_message (pos 2) (str "2") request two_messages heap)
append_message-Owed_example =
    append_message-Owed (pos 2) (str "2") request two_messages heap cells no_information list-IsList
      refl ((refl, tt), (tt, tt)) (omega arith, (omega arith, tt)) (omega arith) (omega arith)
      own_info (omega arith)
