-- ===== src/Inspect.antt =====
-- What a server prints of its data: PrintData and InspectMap of chat_system/chat/HelperFunction.go,
-- and Display of chat_system/chat/data.go. A run gives the calls of println and Printf in their
-- order.
pub mod Printed
pub mod Missing
use selected_course_projects.Prelude.{
  ℕ, zero, suc, ◌+◌, Option, none, some, List, [], ◌∷◌, ◌++◌, ◌==◌, if◌then◌else◌,
}
use selected_course_projects.Prelude.Int.{ℤ, int_eq, pos, pos_part, leb_ℤ, inc32}
use selected_course_projects.Prelude.Map.{Map, lookup}
use selected_course_projects.Prelude.Text.{Str, str, str_eq}
use selected_course_projects.Clock.{format_time}
use selected_course_projects.Exec.{Exec, pure, no_fuel, ◌>>=◌, ◌>>◌}
use selected_course_projects.Data.{
  Ptr, nil, LinkedList, Activity, Message, User, Information, Group,
}
use selected_course_projects.Heap.{Heap, need, load, load_message, load_activity}

-- an argument of println or of Printf
pub data Value : Type 0 where
  text : Str → Value
  number : ℤ → Value

pub data Print : Type 0 where
  println : List Value → Print
  printf : (format : Str) → List Value → Print

abbrev pub say : Str → Print
say s = println (text s ∷ [])

-- Display, and the walk that PrintData makes along a list of activities
abbrev pub activity_line : Activity → Print
activity_line a = printf (str "%v : %v,\n") (text a.user_name ∷ number a.like ∷ [])

abbrev pub like_line : Activity → Print
like_line a =
    printf (str "Time: %v      User: %v  Like: %v\n")
      (text (format_time a.actual_time) ∷ text a.user_name ∷ number a.like ∷ [])

unfoldable pub print_activities : ℕ → (Activity → Print) → (node : Ptr) → Exec Heap (List Print)
print_activities zero line node = no_fuel
print_activities (suc k) line node = if node == nil then pure [] else do
  a ← load_activity node
  n ← load node
  rest ← print_activities k line n.next
  pure (line a ∷ rest)

unfoldable pub display : LinkedList → Exec Heap (List Print)
unfolding print_activities
display l = do
  lines ← (λ h. print_activities h.fresh activity_line l.head h)
  pure (say (str "display the list") ∷ (lines ++ say [] ∷ []))

-- What PrintData prints of a message, around the lines of its activities. The text of the message is
-- given to Printf as the format.
abbrev pub message_block : Message → (activities : List Print) → List Print
message_block m activities =
    say (str "-----------------------------")
    ∷ printf (str "%vth msg, Lamport:%v Server:%v          ")
        (number m.msg_id ∷ number m.lamport ∷ number m.replica ∷ [])
    ∷ printf (m.creator ++ (str ": " ++ m.content)) []
    ∷ printf (str "          like: %v\n") (number m.total_like ∷ [])
    ∷ say []
    ∷ say (str "showing activity:")
    ∷ (activities ++ say (str "------------------------------") ∷ [])

unfoldable pub print_messages : ℕ → (msg_node : Ptr) → Exec Heap (List Print)
unfolding print_activities need
print_messages zero node = no_fuel
print_messages (suc k) node = if node == nil then pure [] else do
  m ← load_message node
  l ← need m.activity_list
  lines ← (λ h. print_activities h.fresh like_line l.head h)
  n ← load node
  rest ← print_messages k n.next
  pure (message_block m lines ++ rest)

unfoldable pub print_users : Map ℤ User → List Print
print_users [] = []
print_users ((id, client) ∷ rest) =
    println (text (str "Name: ") ∷ text client.user_name ∷ []) ∷ print_users rest

-- What PrintData prints of a group, in front of its messages.
abbrev pub group_head : (group_name : Str) → Group → List Print
unfolding print_users
group_head group_name g =
    printf (str "Group: %v \n") (text group_name ∷ [])
    ∷ printf (str "Users list: \n") []
    ∷ (print_users g.user_list
        ++ say []
          ∷ printf (str "Messages list: %v messages\n") (number g.message_list.count ∷ [])
          ∷ [])

unfoldable pub print_groups : List (Str × Group) → Exec Heap (List Print)
unfolding print_messages print_users
print_groups [] = pure []
print_groups ((name, g) ∷ rest) = do
  lines ← (λ h. print_messages h.fresh g.message_list.head h)
  others ← print_groups rest
  pure (group_head name g ++ (lines ++ others))

unfoldable pub print_data : (me : ℤ) → Map Str Group → Exec Heap (List Print)
unfolding print_groups
print_data me groups = do
  lines ← print_groups groups
  pure (
      println (text (str "Printing the data on server: ") ∷ number me ∷ [])
      ∷ (lines ++ say (str "PrintData() done\n") ∷ []))

abbrev pub inspected_message : Message → Print
inspected_message m =
    printf (str "Lamport: %v Replica %v Message: %v\n")
      (number m.lamport ∷ number m.replica ∷ text m.content ∷ [])

abbrev pub inspected_like : Activity → Print
inspected_like a =
    printf (str "Like Name: %v, like: %v， likeMessage Replica: %v, likeMessage Lamport: %v\n")
      (text a.user_name ∷ number a.like ∷ number a.msg_replica ∷ number a.msg_lamport ∷ [])

-- The loops of InspectMap from an index up to a timestamp; a missing entry of the map is nil.
module _ {A : Type 0} (read : Ptr → Exec Heap A) (line : A → Print) where
  unfoldable pub inspect_entries : ℕ → Map ℤ Ptr → (timestamp i : ℤ) → Exec Heap (List Print)
  unfolding need
  inspect_entries zero entries timestamp i = no_fuel
  inspect_entries (suc k) entries timestamp i =
      let rest = inspect_entries k entries timestamp (inc32 i) in
      if leb_ℤ i timestamp
      then (do p ← need (lookup i entries); a ← read p; lines ← rest; pure (line a ∷ lines))
      else pure []

-- the rounds of such a loop, with the last test
abbrev pub rounds_to : (timestamp : ℤ) → ℕ
rounds_to timestamp = suc (pos_part timestamp)

-- What InspectMap prints of another server: all its messages, and as many of its likes as this server
-- has of its own.
unfoldable pub inspect_server :
    (string_me : Str) → Group → (st_s : Str) → Information → Exec Heap (List Print)
unfolding inspect_entries need
inspect_server string_me g st_s info = do
  messages ←
      inspect_entries load_message inspected_message (rounds_to info.msg_timestamp)
        info.message_lamport info.msg_timestamp (pos 1)
  own ← need (lookup string_me g.replica_info)
  likes ←
      inspect_entries load_activity inspected_like (rounds_to own.like_timestamp)
        info.like_event_lamport own.like_timestamp (pos 1)
  pure (
      printf (str "%v Inspecting saved Server: %v\n") (text string_me ∷ text st_s ∷ [])
      ∷ (messages ++ likes))

unfoldable pub inspect_servers :
    (string_me : Str) → Group → List (Str × Information) → Exec Heap (List Print)
unfolding inspect_server
inspect_servers string_me g [] = pure []
inspect_servers string_me g ((st_s, info) ∷ rest) = do
  lines ← inspect_server string_me g st_s info
  others ← inspect_servers string_me g rest
  pure (lines ++ others)

unfoldable pub inspect_map : (string_me : Str) → List (Str × Group) → Exec Heap (List Print)
unfolding inspect_servers
inspect_map string_me [] = pure []
inspect_map string_me ((name, g) ∷ rest) = do
  lines ← inspect_servers string_me g g.replica_info
  others ← inspect_map string_me rest
  pure (
      println (text (str "Group: ") ∷ text name ∷ [])
      ∷ printf (str "Printing server: %v all messages: \n") (text string_me ∷ [])
      ∷ (lines ++ others))
