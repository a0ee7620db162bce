-- ===== src/Tests/Inspecting.antt =====
-- What a server prints of its data, at inputs where the theorems' hypotheses hold.
use selected_course_projects.Prelude.{◌≡◌, refl, none, some, List, [], ◌∷◌, ◌++◌, arith}
use selected_course_projects.Prelude.Int.{pos, int_eq}
use selected_course_projects.Prelude.Map.{lookup}
use selected_course_projects.Prelude.Text.{Str, str, str_eq, beq_str}
use selected_course_projects.Exec.{ok}
use selected_course_projects.Exec.Returns.{Returns}
use selected_course_projects.Data.{Group, Information, blank}
use selected_course_projects.Groups.{create_group, no_information}
use selected_course_projects.Network.{World}
use selected_course_projects.Inspect.{text, number, println, say, print_data}
use selected_course_projects.Inspect.Printed.{Entry, GroupsHold, groups_report, print_data_complete}
use selected_course_projects.Inspect.Missing.{LikeMissing}
use selected_course_projects.ChatRoom.{handle}
use selected_course_projects.ChatRoom.Handlers.{new_session}
use selected_course_projects.ChatRoom.Inspecting.{handle_data-unchanged, handle_inspect-LikeMissing}
use selected_course_projects.Likes.Calculate.{activities}
use selected_course_projects.Tests.Likes.{acts, acts-Chain, liked_heap, liked_message, liked_list}
use selected_course_projects.Tests.Sync.{Log, delivering, world}

-- a group with a message that three likes and dislikes are kept of
abbrev liked_group : Group
liked_group = record (create_group (pos 2) (str "2") (str "g") (pos 0)) {
  message_list = record { head = 1; tail = 1; ten_start = 1; count = pos 1 };
}

abbrev entries : List Entry
entries = (liked_message, activities acts) ∷ []

abbrev groups : List (Str × Group)
groups = (str "g", liked_group) ∷ []

groups-GroupsHold : GroupsHold liked_heap groups (entries ∷ [])
groups-GroupsHold = (
  record {
    cells = (1, (none, liked_message)) ∷ [];
    chain = (omega arith, omega arith, refl, refl, tt);
    head = refl;
    room = omega arith;
    entries = (
      refl,
      (
        liked_list,
        refl,
        record { cells = acts; chain = acts-Chain; head = refl; room = omega arith; are = refl },
      ),
      tt,
    );
  },
  tt,
)

print_data_complete_example :
    print_data (pos 2) groups liked_heap
    ≡ ok
        (println (text (str "Printing the data on server: ") ∷ number (pos 2) ∷ [])
          ∷ (groups_report groups (entries ∷ []) ++ say (str "PrintData() done\n") ∷ []))
        liked_heap
print_data_complete_example =
    print_data_complete (pos 2) liked_heap groups (entries ∷ []) groups-GroupsHold

abbrev inspected : World Log
inspected = record world { server = record world.server { heap = liked_heap; group_map = groups } }

handle_data-unchanged_example :
    Returns
      (λ s' w'. (s' ≡ new_session) × (w' ≡ inspected))
      (handle delivering 9 (blank (str "data")) new_session inspected)
handle_data-unchanged_example =
    handle_data-unchanged delivering 9 (blank (str "data")) new_session inspected (entries ∷ [])
      refl groups-GroupsHold

-- server 1 has one like of its own, and none of server 2
abbrev own : Information
own = record no_information { like_timestamp = pos 1; like_event_lamport = (pos 1, 2) ∷ [] }

abbrev lopsided : Group
lopsided = record liked_group { replica_info = (str "1", own) ∷ (str "2", no_information) ∷ [] }

abbrev lopsided_world : World Log
lopsided_world = record inspected {
  server = record inspected.server { group_map = (str "g", lopsided) ∷ [] };
}

own_known : lookup (str "1") lopsided.replica_info ≡ some own
unfolding lookup beq_str
own_known = refl

other_known : lookup (str "2") lopsided.replica_info ≡ some no_information
unfolding lookup beq_str
other_known = refl

group_known : lookup (str "g") lopsided_world.server.group_map ≡ some lopsided
unfolding lookup beq_str
group_known = refl

no_like : lookup (pos 1) no_information.like_event_lamport ≡ none
unfolding lookup
no_like = refl

lopsided-LikeMissing : LikeMissing (str "1") lopsided no_information
lopsided-LikeMissing = record {
  own = own;
  known = own_known;
  likes = 1;
  stamp = refl;
  fits = omega arith;
  index = 1;
  above = omega arith;
  below = omega arith;
  missing = no_like;
}

handle_inspect-LikeMissing_example :
    ¬ Returns
      (λ _ _. Unit {0})
      (handle delivering 9 (blank (str "InspectMap")) new_session lopsided_world)
handle_inspect-LikeMissing_example =
    handle_inspect-LikeMissing delivering 9 (blank (str "InspectMap")) new_session lopsided_world
      (str "g") (str "2") lopsided no_information refl group_known other_known lopsided-LikeMissing
