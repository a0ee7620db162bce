-- ===== src/Tests/Likes.antt =====
-- The theorems on likes at inputs where their hypotheses hold.
use selected_course_projects.Prelude.{
  ◌≡◌, refl, none, some, true, false, List, [], ◌∷◌, inl, inr, ℕ, ◌==◌, if◌then◌else◌, arith,
}
use selected_course_projects.Prelude.Int.{ℤ, pos, negsuc}
use selected_course_projects.Prelude.Map.{lookup}
use selected_course_projects.Prelude.Text.{str, beq_str, str_eq}
use selected_course_projects.Exec.Returns.{Returns}
use selected_course_projects.Data.{nil, ClientRequest, LinkedList, Activity, Message, Node}
use selected_course_projects.Heap.{Heap}
use selected_course_projects.Heap.Chain.{Chain}
use selected_course_projects.LinkedList.{no_nodes}
use selected_course_projects.LinkedList.Cells.{message_node}
use selected_course_projects.Likes.{calculate_like, like_message, unlike_message, out_of_bounds}
use selected_course_projects.Likes.TakenBack.{Restored, unlike_message-like_message}
use selected_course_projects.Likes.Calculate.{
  activity_node, Activities, Calculated, calculate_like-likers,
}
use selected_course_projects.Likes.Find.{find_cell}
use selected_course_projects.Likes.Twice.{
  Names, HasActivities, MayLike, TurnedDown, like_message-twice,
}
use selected_course_projects.Tests.{
  request, first_message, cells, heap, list-IsList, two_messages, knows_two,
}

-- Amy likes the first message, which is Bob's.
abbrev like_request : ClientRequest
like_request = record request { like_number = pos 1 }

found : find_cell (pos 1) cells ≡ some (1, (none, first_message))
unfolding find_cell
found = refl

bounds : out_of_bounds like_request two_messages ≡ false
unfolding out_of_bounds
bounds = refl

names : Names like_request two_messages heap cells 1 (none, first_message)
names = record {
  chain = list-IsList.chain;
  head = refl;
  room = list-IsList.room;
  bounds = bounds;
  found = found;
}

may_like : MayLike (str "Amy") first_message
unfolding lookup beq_str
may_like = record { other = refl; none_stands = inl refl }

no_activities : HasActivities first_message heap cells no_nodes []
no_activities = record {
  list = refl;
  chain = tt;
  head = refl;
  tail = inl (refl, refl);
  apart = λ q i. refl;
}

like_message-twice_example :
    Returns
      (λ out k.
        (out.success ≡ true)
        × Returns
            (TurnedDown out.group k)
            (like_message (str "2") like_request out.group (pos 7) k))
      (like_message (str "2") like_request two_messages (pos 5) heap)
like_message-twice_example =
    like_message-twice (str "2") like_request two_messages heap cells 1 (none, first_message)
      no_nodes [] (pos 5) (pos 7) knows_two.0 names no_activities may_like knows_two.1

-- A message that Amy liked, and Bob liked and then did not.
abbrev pub activity : (name : List ℕ) → ℤ → Activity
activity name like = record {
  user_name = name;
  actual_time = pos 1;
  like = like;
  msg_lamport = pos 1;
  msg_replica = pos 1;
}

abbrev pub acts : Activities
acts =
    (2, (activity (str "Amy") (pos 1), none))
    ∷ (3, (activity (str "Bob") (pos 1), none))
    ∷ (4, (activity (str "Bob") (negsuc 0), none))
    ∷ []

abbrev pub liked_list : LinkedList
liked_list = record { head = 2; tail = 4; ten_start = nil; count = pos 3 }

abbrev pub liked_message : Message
liked_message = record first_message { activity_list = some liked_list }

abbrev pub liked_node : Node
liked_node = message_node (none, liked_message) nil

abbrev pub liked_heap : Heap
liked_heap = record {
  cell = λ p.
      if p == 1
      then some liked_node
      else if p == 2
      then some (activity_node (activity (str "Amy") (pos 1), none) 3)
      else if p == 3
      then some (activity_node (activity (str "Bob") (pos 1), none) 4)
      else if p == 4
      then some (activity_node (activity (str "Bob") (negsuc 0), none) nil)
      else none;
  fresh = 5;
}

pub acts-Chain : Chain activity_node liked_heap acts
acts-Chain = (
  omega arith,
  omega arith,
  refl,
  refl,
  (omega arith, omega arith, refl, refl, (omega arith, omega arith, refl, refl, tt)),
)

calculate_like-likers_example :
    Returns (Calculated liked_heap 1 liked_node liked_message acts) (calculate_like 1 liked_heap)
calculate_like-likers_example =
    calculate_like-likers liked_heap 1 liked_node liked_message liked_list acts (omega arith) refl
      refl refl acts-Chain refl (inl refl, (inl refl, (inr refl, tt))) (omega arith) (omega arith)

-- Amy likes Bob's message, and takes it back.
unlike_message-like_message_example :
    Returns
      (λ out k.
        (out.success ≡ true)
        × Returns
            (Restored like_request two_messages cells 1 (none, first_message))
            (unlike_message (str "2") like_request out.group (pos 7) k))
      (like_message (str "2") like_request two_messages (pos 5) heap)
unlike_message-like_message_example =
    unlike_message-like_message (str "2") like_request two_messages heap cells 1
      (none, first_message) no_nodes [] (pos 5) (pos 7) knows_two.0 names no_activities may_like
      knows_two.1 (omega arith) (omega arith)
