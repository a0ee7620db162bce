-- ===== src/Tests/Saying.antt =====
-- The theorems on the requests a and UpdateMsg at inputs where their hypotheses hold.
use selected_course_projects.Prelude.{◌≡◌, refl, some, false, ℕ, [], ◌∷◌, arith, inr}
use selected_course_projects.Prelude.Int.{pos}
use selected_course_projects.Prelude.Map.{lookup, insert}
use selected_course_projects.Prelude.Text.{Str, str, str_eq, beq_str}
use selected_course_projects.Exec.Returns.{Returns}
use selected_course_projects.Data.{ClientRequest, Information, Group}
use selected_course_projects.Groups.{create_group, other_replicas, no_information}
use selected_course_projects.Placement.Merge.{known}
use selected_course_projects.Placement.Represents.{overtakes}
use selected_course_projects.Network.{World}
use selected_course_projects.ChatServer.Events.{Sound, hear, spoken, received}
use selected_course_projects.ChatServer.Together.{InStep}
use selected_course_projects.ChatRoom.{handle}
use selected_course_projects.ChatRoom.Handlers.{new_session}
use selected_course_projects.ChatRoom.Holding.{Holds, Spares}
use selected_course_projects.ChatRoom.Saying.{handle_append-Holds}
use selected_course_projects.ChatRoom.Receiving.{handle_merge-Holds}
use selected_course_projects.ChatRoom.Exchange.{Linked, sent_to, handle_append-Linked}
use selected_course_projects.Tests.{request, other, cells, heap, list-IsList}
use selected_course_projects.Tests.Client.{with_amy, names_amy}
use selected_course_projects.Tests.Interleave.{view, two_is_not_three}
use selected_course_projects.Tests.Sync.{Log, delivering, world}

abbrev saying : ClientRequest
saying = record request { request = str "a" }

-- a server with the group of the two messages
abbrev at_server : (me : ℕ) → Str → World Log
at_server me string_me = record world {
  server = record world.server {
    heap = heap;
    group_map = (str "g", with_amy) ∷ [];
    me = pos me;
    string_me = string_me;
  };
}

abbrev with_name : Information
with_name = record no_information { user_list = str " Amy " }

in_group :
    (me : ℕ) (string_me : Str)
    → lookup (str "g") (at_server me string_me).server.group_map ≡ some with_amy
unfolding lookup beq_str
in_group me string_me = refl

has_second : lookup (str "2") with_amy.replica_info ≡ some with_name
unfolding create_group other_replicas lookup insert beq_str
has_second = refl

has_third : lookup (str "3") with_amy.replica_info ≡ some no_information
unfolding create_group other_replicas lookup insert beq_str
has_third = refl

amy_group : with_amy.group_name ≡ str "g"
unfolding create_group
amy_group = refl

with_amy-Sound :
    (s : Str) (i : Information)
    → lookup s with_amy.replica_info ≡ some i
    → Sound s view with_amy heap
with_amy-Sound s i e = record {
  cells = cells;
  list = list-IsList;
  tail = refl;
  stands = refl;
  stamp = refl;
  ascending = ((refl, tt), (tt, tt));
  under = (omega arith, (omega arith, tt));
  here = (i, e);
}

with_amy-Holds :
    (me : ℕ) (s : Str) (i : Information)
    → lookup s with_amy.replica_info ≡ some i
    → Holds (str "g") (str "Amy") s view with_amy (at_server me s).server
with_amy-Holds me s i e = record {
  entry = in_group me s;
  titled = amy_group;
  sound = with_amy-Sound s i e;
  participants = names_amy;
}

handle_append-Holds_example :
    Returns
      (λ s' w'.
        (s' ≡ new_session)
        × ((g' : Group) × Holds
              (str "g")
              (str "Amy")
              (str "2")
              (hear (pos 2) (spoken saying) view)
              g'
              w'.server)
        × Spares (str "g") (at_server 2 (str "2")) w')
      (handle delivering 4 saying new_session (at_server 2 (str "2")))
handle_append-Holds_example =
    handle_append-Holds delivering 4 saying new_session view (at_server 2 (str "2")) (str "Amy")
      with_amy refl (with_amy-Holds 2 (str "2") with_name has_second) (omega arith) (omega arith)

other_free : (known other view.all ≡ false) × (overtakes other view.all ≡ false)
unfolding known overtakes
other_free = (refl, refl)

handle_merge-Holds_example :
    Returns
      (λ s' w'.
        (s' ≡ new_session)
        × ((g' : Group) × Holds
              (str "g")
              (str "Amy")
              (str "3")
              (hear (pos 3) (received other) view)
              g'
              w'.server)
        × Spares (str "g") (at_server 3 (str "3")) w')
      (handle delivering 4 other new_session (at_server 3 (str "3")))
handle_merge-Holds_example =
    handle_merge-Holds delivering 4 other new_session view (at_server 3 (str "3")) (str "Amy")
      with_amy refl (with_amy-Holds 3 (str "3") no_information has_third)
      (inr (with_name, has_second, refl)) (rw (other_free.0, other_free.1) refl) (omega arith)

knows_of :
    (s : Str) (i : Information)
    → lookup s with_amy.replica_info ≡ some i
    → i.msg_timestamp ≡ pos 0
    → InStep 3 s with_amy with_amy
knows_of s i e z = record {
  own = i;
  owns = e;
  other = i;
  knows = e;
  same = refl;
  bound = rw z (omega arith, omega arith);
}

two_servers :
    Linked 3 (str "g") (str "Amy") (str "Amy") view (at_server 2 (str "2")) (at_server 3 (str "3"))
two_servers = record {
  group = with_amy;
  group' = with_amy;
  here = with_amy-Holds 2 (str "2") with_name has_second;
  there = with_amy-Holds 3 (str "3") no_information has_third;
  together = record {
    first = with_amy-Sound (str "2") with_name has_second;
    second = with_amy-Sound (str "3") no_information has_third;
    order = (refl, (refl, tt));
    lamport = (omega arith, omega arith);
    count = omega arith;
    from_first = knows_of (str "2") with_name has_second refl;
    from_second = knows_of (str "3") no_information has_third refl;
  };
}

handle_append-Linked_example :
    Returns
      (λ s1 w1.
        (s1 ≡ new_session)
        × Spares (str "g") (at_server 2 (str "2")) w1
        × ((q : ClientRequest) × (m : Log) × (w1.net
              ≡ sent_to delivering (at_server 2 (str "2")).stream_set q m)
            × Returns
                (λ s2 w2.
                  (s2 ≡ new_session)
                  × Spares (str "g") (at_server 3 (str "3")) w2
                  × Linked 4
                      (str "g")
                      (str "Amy")
                      (str "Amy")
                      (hear (pos 2) (spoken saying) view)
                      w1
                      w2)
                (handle delivering 5 q new_session (at_server 3 (str "3")))))
      (handle delivering 4 saying new_session (at_server 2 (str "2")))
handle_append-Linked_example =
    handle_append-Linked delivering delivering 4 5 saying new_session new_session 3 (str "Amy")
      (str "Amy") view (at_server 2 (str "2")) (at_server 3 (str "3")) refl two_servers
      (omega arith) two_is_not_three (λ stream q n. refl)
