-- ===== src/Tests/Interleave.antt =====
-- The theorem on events in any order at an input where its hypotheses hold.
use selected_course_projects.Prelude.{◌≡◌, refl, some, false, List, [], ◌∷◌, arith}
use selected_course_projects.Prelude.Map.{lookup, insert}
use selected_course_projects.Groups.{create_group, other_replicas, no_information}
use selected_course_projects.ChatServer.Together.{Together, InStep}
use selected_course_projects.ChatServer.Conversation.{
  Turn, at_first, at_second, converse, heard, converse-Together,
}
use selected_course_projects.Data.{ClientRequest}
use selected_course_projects.Prelude.Int.{pos, inc32}
use selected_course_projects.Prelude.Text.{Str, str, str_eq, beq_str}
use selected_course_projects.Exec.Returns.{Returns}
use selected_course_projects.Placement.Merge.{known, merge, insert_message, update}
use selected_course_projects.Placement.Represents.{overtakes}
use selected_course_projects.ChatServer.Events.{Event, View, Sound, Calm, serve, hear_all}
use selected_course_projects.ChatServer.Interleave.{serve-Sound}
use selected_course_projects.Tests.{
  request, other, two, cells, heap, list-IsList, two_messages, knows_two,
}

abbrev pub view : View
view = record { lamport = pos 3; all = two }

two-Sound : Sound (str "2") view two_messages heap
two-Sound = record {
  cells = cells;
  list = list-IsList;
  tail = refl;
  stands = refl;
  stamp = refl;
  ascending = ((refl, tt), (tt, tt));
  under = (omega arith, (omega arith, tt));
  here = knows_two;
}

-- a message of server 3
abbrev arriving : ClientRequest
arriving = record other { from_server = str "3" }

abbrev events : List Event
events = Event.spoken request ∷ Event.received arriving ∷ Event.spoken request ∷ []

events-Calm : Calm (pos 2) events view
unfolding known overtakes merge insert_message update inc32
events-Calm = (omega arith, (refl, (omega arith, tt)))

-- Servers 2 and 3 have the two messages, and none of their own clients.
knows_second : lookup (str "2") two_messages.replica_info ≡ some no_information
unfolding create_group other_replicas lookup insert beq_str
knows_second = refl

knows_third : lookup (str "3") two_messages.replica_info ≡ some no_information
unfolding create_group other_replicas lookup insert beq_str
knows_third = refl

pub two_is_not_three : beq_str (str "2") (str "3") ≡ false
unfolding beq_str
two_is_not_three = refl

three_is_not_two : beq_str (str "3") (str "2") ≡ false
unfolding beq_str
three_is_not_two = refl

serve-Sound_example :
    Returns
      (Sound (str "2") (hear_all (pos 2) events view))
      (serve (pos 2) (str "2") events two_messages heap)
serve-Sound_example =
    serve-Sound (pos 2) (str "2") events view two_messages heap two-Sound
      ((no_information, knows_third, omega arith, refl), tt) (tt, tt) (two_is_not_three, tt)
      events-Calm (omega arith)

none_sent :
    (s : Str)
    → lookup s two_messages.replica_info ≡ some no_information
    → InStep 3 s two_messages two_messages
none_sent s e = record {
  own = no_information;
  owns = e;
  other = no_information;
  knows = e;
  same = refl;
  bound = (omega arith, omega arith);
}

two-Together : Together 3 (str "2") (str "3") view two_messages heap two_messages heap
two-Together = record {
  first = two-Sound;
  second = record {
    cells = cells;
    list = list-IsList;
    tail = refl;
    stands = refl;
    stamp = refl;
    ascending = ((refl, tt), (tt, tt));
    under = (omega arith, (omega arith, tt));
    here = (no_information, knows_third);
  };
  order = (refl, (refl, tt));
  lamport = (omega arith, omega arith);
  count = omega arith;
  from_first = none_sent (str "2") knows_second;
  from_second = none_sent (str "3") knows_third;
}

abbrev turns : List Turn
turns = at_first request ∷ at_second request ∷ at_first other ∷ []

converse-Together_example :
    Returns
      (λ gs hs.
        Together 6
          (str "2")
          (str "3")
          (heard (pos 2) (pos 3) (str "2") (str "3") turns view)
          gs.0
          hs.0
          gs.1
          hs.1)
      (converse (pos 2) (pos 3) (str "2") (str "3") turns two_messages two_messages (heap, heap))
converse-Together_example =
    converse-Together (pos 2) (pos 3) (str "2") (str "3") turns 3 view two_messages two_messages
      heap heap two-Together (omega arith) two_is_not_three three_is_not_two
