-- ===== src/ChatRoom/Sending.antt =====
-- What ChatRoom of chat_system/chat/chatserver.go sends to the clients and to the other replicas, and
-- FlushScreen and AllGroup of chat_system/chat/HelperFunction.go.
use selected_course_projects.Prelude.{ℕ, List, [], ◌∷◌}
use selected_course_projects.Prelude.Int.{ℤ, int_eq}
use selected_course_projects.Prelude.Map.{Map, lookup}
use selected_course_projects.Prelude.Text.{Str, str, str_eq}
use selected_course_projects.Exec.{Exec, pure, gets, ◌>>=◌, ◌>>◌}
use selected_course_projects.Data.{
  User, Message, Information, Group, ClientRequest, ServerResponse, blank,
}
use selected_course_projects.Heap.{need}
use selected_course_projects.Likes.{Liked}
use selected_course_projects.Network.{
  Transport, World, on_server, reading, outside, replica_broadcast,
}
use selected_course_projects.Sync.{group_info}
use selected_course_projects.ChatServer.{the_group, client_broadcast, show_history}

-- the new message of a client, for the other replicas
abbrev pub appended :
    (me : ℤ) → (string_me : Str) → ClientRequest → Group → Message → Information → ClientRequest
appended me string_me message g m info = record (blank (str "UpdateMsg")) {
  user_name = message.user_name;
  content = message.content;
  ori_group_name = message.ori_group_name;
  replica = me;
  timestamp = m.lamport;
  from_server = string_me;
  map_index = info.msg_timestamp;
  group_timestamp = g.max_lamport;
}

-- the new like, or the one taken back
abbrev pub liked : (string_me : Str) → ClientRequest → (like : ℤ) → Liked → ClientRequest
liked string_me message like out = record (blank (str "UpdateLike")) {
  user_name = message.user_name;
  content = out.now_string;
  ori_group_name = message.ori_group_name;
  like_number = like;
  replica = out.belong_replica;
  timestamp = out.msg_lamport;
  from_server = string_me;
  map_index = out.index;
  group_timestamp = out.group.max_lamport;
}

module _ {W : Type 0} (t : Transport W) where
  -- the errors of Send to a client are only printed
  unfoldable pub send_all : (ct : ℕ) → List ServerResponse → Exec (World W) (Unit {0})
  send_all ct [] = pure tt
  send_all ct (r ∷ rs) = do done ← outside (t.reply ct r); send_all ct rs

  unfoldable pub send_screens : List (ℕ × List ServerResponse) → Exec (World W) (Unit {0})
  unfolding send_all
  send_screens [] = pure tt
  send_screens ((ct, lines) ∷ rest) = do send_all ct lines; send_screens rest

  unfoldable pub broadcast_to_clients : Group → Exec (World W) (Unit {0})
  unfolding send_screens
  broadcast_to_clients g = do screens ← reading (client_broadcast g); send_screens screens

  unfoldable pub send_history : (group_name : Str) → (ct : ℕ) → Exec (World W) (Unit {0})
  unfolding send_all
  send_history group_name ct = do
    g ← on_server (the_group group_name)
    lines ← reading (show_history g)
    send_all ct lines

  unfoldable pub flush_clients : (group_name : Str) → Map ℤ User → Exec (World W) (Unit {0})
  flush_clients group_name [] = pure tt
  flush_clients group_name ((id, user) ∷ rest) = do
    send_history group_name user.context
    flush_clients group_name rest

  unfoldable pub flush_screen : Group → Exec (World W) (Unit {0})
  unfolding flush_clients
  flush_screen g = flush_clients g.group_name g.user_list

  -- the participants of this server in a group, to the other replicas
  unfoldable pub tell_members : (group_name : Str) → Group → Exec (World W) (Unit {0})
  unfolding need
  tell_members group_name g = do
    me ← gets (λ w. w.server.string_me)
    info ← need (lookup me g.replica_info)
    replica_broadcast t (record (group_info g me info) { ori_group_name = group_name })

  unfoldable pub changed_members : Group → Exec (World W) (Unit {0})
  unfolding tell_members
  changed_members g = do broadcast_to_clients g; tell_members g.group_name g
