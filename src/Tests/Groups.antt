-- ===== src/Tests/Groups.antt =====
-- The theorems on groups at inputs where their hypotheses hold.
use selected_course_projects.Prelude.{◌≡◌, refl, none, some, arith, []}
use selected_course_projects.Prelude.Int.{pos, ◌<ℤ◌}
use selected_course_projects.Prelude.Map.{lookup, insert}
use selected_course_projects.Prelude.Text.{Str, str, str_eq, beq_str}
use selected_course_projects.Data.{nil, Group, ClientRequest, blank}
use selected_course_projects.Groups.{
  add_username, create_group, delete_username, other_replicas, replicas, name_merge, trim_ends,
}
use selected_course_projects.Groups.Created.{Named, HaveEmpty, create_group-HaveEmpty}
use selected_course_projects.Groups.Listed.{
  Listed, Joined, count_of, create_group-Listed, add_username-Joined,
}
use selected_course_projects.Groups.Removed.{delete_username-add_username}
use selected_course_projects.Groups.Names.{HasServers, Complete, name_merge-Complete}
use selected_course_projects.Exec.Returns.{Returns}
use selected_course_projects.Heap.{empty}
use selected_course_projects.Replica.{Server}
use selected_course_projects.ChatServer.{join}
use selected_course_projects.ChatServer.Members.{AllListed, found_group, Entered, join-Entered}
use selected_course_projects.Tests.{group}

group-Listed : Listed (str "2") group
group-Listed = create_group-Listed (pos 2) (str "2") (str "g") (pos 0)

is_second : Named (pos 2) (str "2") replicas
is_second = ((λ e. cc), ((λ e. refl), ((λ e. cc), ((λ e. cc), ((λ e. cc), tt)))))

create_group-HaveEmpty_example :
    HaveEmpty replicas (create_group (pos 2) (str "2") (str "g") (pos 0)).replica_info
    × ((create_group (pos 2) (str "2") (str "g") (pos 0)).message_list
        ≡ record { head = nil; tail = nil; ten_start = nil; count = pos 0 })
    × ((create_group (pos 2) (str "2") (str "g") (pos 0)).user_list ≡ [])
    × ((u : Str)
        → lookup u (create_group (pos 2) (str "2") (str "g") (pos 0)).same_user_name_count ≡ none)
    × ((create_group (pos 2) (str "2") (str "g") (pos 0)).max_lamport ≡ pos 0)
    × (name_merge (create_group (pos 2) (str "2") (str "g") (pos 0)) ≡ none)
create_group-HaveEmpty_example =
    create_group-HaveEmpty (pos 2) (str "2") (str "g") (pos 0) is_second

few : count_of group (str "Amy") <ℤ pos 2147483647
unfolding create_group lookup
few = omega arith

add_username-Joined_example :
    (out : Group) × (add_username (str "2") group (str "Amy") ≡ some out)
    × Joined (str "2") group (str "Amy") out
add_username-Joined_example = add_username-Joined (str "2") group (str "Amy") group-Listed few

delete_username-add_username_example :
    (g1 : Group) × (g2 : Group) × (add_username (str "2") group (str "Amy") ≡ some g1)
    × (delete_username (str "2") g1 (str "Amy") ≡ some g2)
    × ((v : Str) → count_of g2 v ≡ count_of group v)
delete_username-add_username_example =
    delete_username-add_username (str "2") group (str "Amy") group-Listed few

all_known : HasServers group replicas
unfolding create_group other_replicas lookup insert beq_str
all_known = ((_, refl), ((_, refl), ((_, refl), ((_, refl), ((_, refl), tt)))))

name_merge-Complete_example :
    (s : Str) × (name_merge group ≡ trim_ends s) × Complete group replicas s
name_merge-Complete_example = name_merge-Complete group all_known

-- a server without groups
abbrev server : Server
server = record {
  heap = empty;
  group_map = [];
  me = pos 2;
  string_me = str "2";
  user_count = pos 0;
}

abbrev joining : ClientRequest
joining = record (blank (str "j")) {
  ori_group_name = str "g";
  user_name = str "Amy";
  user_id = pos 1;
}

none_yet : count_of (found_group server (str "g")) (str "Amy") <ℤ pos 2147483647
unfolding create_group lookup
none_yet = omega arith

no_groups : AllListed server
unfolding lookup
no_groups n g e = cc

join-Entered_example : Returns (Entered joining 9 server) (join joining 9 server)
join-Entered_example = join-Entered joining 9 server no_groups none_yet
