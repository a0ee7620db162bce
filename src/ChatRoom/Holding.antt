-- ===== src/ChatRoom/Holding.antt =====
-- A group of the server that a request of ChatRoom (chat_system/chat/chatserver.go) is for, with what the
-- request needs of it, and what the request leaves alone.
use selected_course_projects.Prelude.{◌≡◌, refl, sym, subst, ap, ◌∙◌, false, some}
use selected_course_projects.Prelude.Map.{lookup, insert, lookup-insert, lookup-insert_self}
use selected_course_projects.Prelude.Text.{Str, str_eq, beq_str}
use selected_course_projects.Data.{Group}
use selected_course_projects.Heap.{Heap}
use selected_course_projects.Groups.{name_merge}
use selected_course_projects.Replica.{Server}
use selected_course_projects.Network.{World}
use selected_course_projects.Network.Sending.{HasConfig}
use selected_course_projects.Network.Broadcast.{Calm}
use selected_course_projects.ChatServer.Events.{View, Sound}

-- The server has a sound group of the name, whose participants can be named.
pub record Holds (name names string_me : Str) (v : View) (g : Group) (s : Server) : Type 0 where
  pub entry : lookup name s.group_map ≡ some g
  pub titled : g.group_name ≡ name
  pub sound : Sound string_me v g s.heap
  pub participants : name_merge g ≡ some names

-- The other groups are as they were, the server too, and no connection is forgotten.
pub record Spares {W : Type 0} (name : Str) (w w' : World W) : Type 0 where
  pub others :
      (s : Str)
      → beq_str name s ≡ false
      → lookup s w'.server.group_map ≡ lookup s w.server.group_map
  pub connections : (s : Str) → HasConfig s w → HasConfig s w'
  pub me : w'.server.me ≡ w.server.me
  pub string_me : w'.server.string_me ≡ w.server.string_me

module _ {W : Type 0} where
  -- the world once a group has been changed
  abbrev pub with_group : (name : Str) → Group → Heap → World W → World W
  with_group name g k w = record w {
    server = record w.server { heap = k; group_map = insert name g w.server.group_map };
  }

  pub Calm-Holds :
      (name names string_me : Str) (v : View) (g : Group) (k : Heap) (w w' : World W)
      → g.group_name ≡ name
      → Sound string_me v g k
      → name_merge g ≡ some names
      → Calm (with_group name g k w) w'
      → Holds name names string_me v g w'.server × Spares name w w'
  Calm-Holds name names string_me v g k w w' titled sound participants (same, kept) = (
    record {
      entry =
          ap (λ (x : Server). lookup name x.group_map) same
          ∙ lookup-insert_self name g w.server.group_map;
      titled = titled;
      sound = subst (λ (x : Server). Sound string_me v g x.heap) (sym same) sound;
      participants = participants;
    },
    record {
      others = λ s b.
          ap (λ (x : Server). lookup s x.group_map) same
          ∙ lookup-insert name s g w.server.group_map
          ∙ rw b refl;
      connections = kept;
      me = ap (λ (x : Server). x.me) same;
      string_me = ap (λ (x : Server). x.string_me) same;
    },
  )
