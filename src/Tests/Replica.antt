-- ===== src/Tests/Replica.antt =====
-- The theorems on merging at inputs where their hypotheses hold.
use selected_course_projects.Prelude.{◌≡◌, refl, false, some, [], ◌∷◌, inl, arith}
use selected_course_projects.Prelude.Int.{pos}
use selected_course_projects.Prelude.Map.{lookup, insert}
use selected_course_projects.Prelude.Text.{str, beq_str, str_eq}
use selected_course_projects.Exec.{ok}
use selected_course_projects.Exec.Returns.{Returns}
use selected_course_projects.Data.{ClientRequest}
use selected_course_projects.Groups.{create_group, no_information, other_replicas}
use selected_course_projects.Replica.{Server, Flag, insertion}
use selected_course_projects.Replica.Members.{members_twice, newest, members_twice_comm}
use selected_course_projects.Replica.Messages.{Merged, insertion-Merged}
use selected_course_projects.Tests.{request, cells, heap, list-IsList, two_messages}

-- two versions of the participants of server 3
abbrev amy : ClientRequest
amy = record request { from_server = str "3"; content = str " Amy " }

abbrev bob : ClientRequest
bob = record request { from_server = str "3"; content = str " Amy  Bob "; timestamp = pos 2 }

knows_three : lookup (str "3") two_messages.replica_info ≡ some no_information
unfolding create_group other_replicas lookup insert beq_str
knows_three = refl

members_twice_comm_example :
    (members_twice amy bob two_messages heap ≡ ok (newest amy bob no_information two_messages) heap)
    × (members_twice bob amy two_messages heap
        ≡ ok (newest amy bob no_information two_messages) heap)
members_twice_comm_example =
    members_twice_comm amy bob two_messages heap no_information knows_three refl refl

abbrev server : Server
server = record {
  heap = heap;
  group_map = (str "g", two_messages) ∷ [];
  me = pos 2;
  string_me = str "2";
  user_count = pos 0;
}

has_group : lookup (str "g") server.group_map ≡ some two_messages
unfolding lookup beq_str
has_group = refl

insertion-Merged_example :
    Returns
      (Merged request server two_messages cells)
      (insertion Flag.message_flag false request server)
insertion-Merged_example =
    insertion-Merged false request server two_messages cells has_group list-IsList refl
      ((refl, tt), (tt, tt)) (inl refl) (omega arith)
