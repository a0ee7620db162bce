-- ===== src/ChatServer/Events.antt =====
-- The events of a group: a client of this server says something, or a message of another server
-- arrives. What the code does with a sequence of them, and what it is to do.
use selected_course_projects.Prelude.{
  ◌≡◌, true, ◌||◌, not, some, List, [], ◌∷◌, ◌++◌, length, if◌then◌else◌,
}
use selected_course_projects.Prelude.Int.{ℤ, pos, inc32, ltb_ℤ, ◌<ℤ◌}
use selected_course_projects.Prelude.Map.{lookup}
use selected_course_projects.Prelude.Text.{Str, str_eq}
use selected_course_projects.Exec.{Exec, pure, ◌>>=◌}
use selected_course_projects.Data.{nil, Message, Information, Group, ClientRequest}
use selected_course_projects.Heap.{Heap}
use selected_course_projects.Heap.Chain.{last_or}
use selected_course_projects.LinkedList.{new_message}
use selected_course_projects.LinkedList.Cells.{Cells, messages}
use selected_course_projects.LinkedList.IsList.{IsList}
use selected_course_projects.Placement.{insertion_message}
use selected_course_projects.Placement.Merge.{known, merge, Ascending}
use selected_course_projects.Placement.Represents.{overtakes}
use selected_course_projects.ChatServer.{append_message}
use selected_course_projects.ChatServer.Order.{Under}

-- A client of this server says something, or a message of another server arrives.
pub data Event : Type 0 where
  spoken : ClientRequest → Event
  received : ClientRequest → Event

-- the messages of other servers among some events
abbrev pub arrivals : List Event → List ClientRequest
arrivals [] = []
arrivals (spoken r ∷ es) = arrivals es
arrivals (received r ∷ es) = r ∷ arrivals es

-- AppendMessage, and Insertion as Merge calls it
unfoldable pub serve : (me : ℤ) → (string_me : Str) → List Event → Group → Exec Heap Group
serve me string_me [] g = pure g
serve me string_me (spoken r ∷ es) g = do
  (g', m) ← append_message me string_me r g
  serve me string_me es g'
serve me string_me (received r ∷ es) g = do
  out ← insertion_message true r g
  serve me string_me es out.group

-- A group's timestamp and its messages.
pub record View : Type 0 where
  pub lamport : ℤ
  pub all : List Message

-- What an event does to them: a message that is spoken gets the next timestamp and the next index
-- and comes last, one that is received is merged.
abbrev pub hear : (me : ℤ) → Event → View → View
hear me (spoken r) v = record {
  lamport = inc32 v.lamport;
  all =
      v.all
      ++ record (new_message (inc32 v.lamport) me r.user_name r.content (pos 0)) {
        msg_id = inc32 (pos (length v.all));
      }
        ∷ [];
}
hear me (received r) v = record {
  lamport =
      if known r v.all
      then v.lamport
      else if ltb_ℤ v.lamport r.timestamp
      then r.timestamp
      else v.lamport;
  all = merge r v.all;
}

abbrev pub hear_all : (me : ℤ) → List Event → View → View
hear_all me [] v = v
hear_all me (e ∷ es) v = hear_all me es (hear me e v)

-- No timestamp is used up, and no message overtakes the last.
abbrev pub Calm : (me : ℤ) → List Event → View → Type 0
Calm me [] v = Unit {0}
Calm me (spoken r ∷ es) v = (v.lamport <ℤ pos 2147483647) × Calm me es (hear me (spoken r) v)
Calm me (received r ∷ es) v =
    ((known r v.all || not (overtakes r v.all)) ≡ true) × Calm me es (hear me (received r) v)

-- The group's list is well formed with the right tail, and its messages and its timestamp are those
-- of the view: ascending, with no timestamp above the group's. The group knows this server.
pub record Sound (string_me : Str) (v : View) (g : Group) (h : Heap) : Type 0 where
  pub cells : Cells
  pub list : IsList h g.message_list cells
  pub tail : g.message_list.tail ≡ last_or nil cells
  pub stands : messages cells ≡ v.all
  pub stamp : g.max_lamport ≡ v.lamport
  pub ascending : Ascending v.all
  pub under : Under v.lamport v.all
  pub here : (i : Information) × (lookup string_me g.replica_info ≡ some i)
