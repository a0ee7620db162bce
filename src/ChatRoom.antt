-- ===== src/ChatRoom.antt =====
-- ChatRoom of chat_system/chat/chatserver.go: one connection to the server, of a client or of another
-- replica, from its first request to its end.
pub mod Exchange
pub mod Follow
pub mod Handlers
pub mod Harmless
pub mod Holding
pub mod Inspecting
pub mod Receiving
pub mod Saying
pub mod Sending
pub mod Showing
use selected_course_projects.Prelude.{
  ℕ, Bool, true, false, Option, none, some, List, [], ◌∷◌, ◌++◌, if◌then◌else◌,
}
use selected_course_projects.Prelude.Int.{ℤ, int_eq, pos, negsuc, ◌+ℤ◌, ltb_ℤ}
use selected_course_projects.Prelude.Map.{Map, lookup, insert}
use selected_course_projects.Prelude.Text.{Str, str, str_eq, beq_str}
use selected_course_projects.Exec.{Exec, pure, gets, ◌>>=◌, ◌>>◌}
use selected_course_projects.Data.{
  Time, User, Message, Information, Group, ClientRequest, ServerResponse, response, blank,
}
use selected_course_projects.Heap.{need}
use selected_course_projects.Groups.{create_group, no_information, name_merge}
use selected_course_projects.Likes.{Liked}
use selected_course_projects.Replica.{Server, Flag, merge}
use selected_course_projects.Network.{
  Transport, Config, World, on_server, reading, outside, put_config, replica_broadcast,
}
use selected_course_projects.Sync.{group_info, entropy, check_for_merge}
use selected_course_projects.ChatServer.{
  the_group, check_group, user_login, join, switch, change_identity, quit_session, leave,
  client_broadcast, show_history, request_append, request_like, request_unlike,
}
use selected_course_projects.ChatRoom.Sending.{
  appended, liked, send_all, send_screens, broadcast_to_clients, send_history, flush_clients,
  flush_screen, tell_members, changed_members,
}
use selected_course_projects.ChatRoom.Handlers.{
  Session, handle_change, handle_join, handle_append, handle_like, handle_switch, handle_quit,
  view_of, handle_view, handle_merge, heard_of, send_groups, all_group, has_config,
  handle_all_group, handle_check_group, handle_data, handle_inspect, test_merge, test,
  test_like_merge,
}

module _ {W : Type 0} (t : Transport W) where
  -- the requests that leave the variables of ChatRoom alone
  unfoldable pub handle_other : (ct : ℕ) → ClientRequest → Exec (World W) (Unit {0})
  unfolding handle_append handle_like handle_quit handle_view handle_merge handle_all_group
      handle_check_group handle_data handle_inspect need test_merge test test_like_merge
  handle_other ct message =
      let is = beq_str message.request in
      if is (str "a")
      then handle_append t message
      else if is (str "l")
      then handle_like t ct request_like (pos 1) message
      else if is (str "r")
      then handle_like t ct request_unlike (negsuc 0) message
      else if is (str "p")
      then send_history t message.ori_group_name ct
      else if is (str "q")
      then handle_quit t ct message
      else if is (str "v")
      then handle_view t ct
      else if is (str "UpdateMsg")
      then handle_merge t Flag.message_flag message
      else if is (str "UpdateLike")
      then handle_merge t Flag.like_flag message
      else if is (str "SendGroupInfo")
      then handle_merge t Flag.member_flag message
      else if is (str "Entropy")
      then entropy t
      else if is (str "AllGroup")
      then handle_all_group t ct message
      else if is (str "CheckGroup")
      then handle_check_group t message
      else if is (str "CheckForMerge")
      then check_for_merge t message
      else if is (str "data")
      then handle_data
      else if is (str "EntropyMsg")
      then (do refresh ← on_server (merge message Flag.message_flag); pure tt)
      else if is (str "test")
      then test message
      else if is (str "liketest")
      then test_like_merge message
      else if is (str "000")
      then (do
        me ← gets (λ w. w.server.me)
        string_me ← gets (λ w. w.server.string_me)
        names ← need (test_merge me string_me)
        pure tt)
      else if is (str "InspectMap")
      then handle_inspect
      else pure tt

  -- One round of the loop that receives.
  unfoldable pub handle : (ct : ℕ) → ClientRequest → Session → Exec (World W) Session
  unfolding handle_change handle_join handle_switch handle_other
  handle ct message s =
      let is = beq_str message.request in
      if is (str "u")
      then (do
        (answer, id) ← on_server (user_login message)
        done ← outside (t.reply ct answer)
        pure (record s { this_name = message.user_name; this_user_id = id }))
      else if is (str "change")
      then handle_change t ct message s
      else if is (str "j")
      then handle_join t ct message s
      else if is (str "s")
      then handle_switch t message s
      else if is (str "ReplicaSetUp")
      then pure (record s { replica_name = message.user_name; i_am_a_server = true })
      else (do handle_other ct message; pure s)

  -- The connection has ended.
  unfoldable pub disconnect : Session → Exec (World W) (Unit {0})
  unfolding changed_members need
  disconnect s =
      if s.i_am_a_server
      then (do
        set ← gets (λ w. w.stream_set)
        config ← need (lookup s.replica_name set)
        put_config s.replica_name (record config { is_online = pos 0 }))
      else elim s.this_client_group as (λ _. Exec (World W) (Unit {0})) [
        | none ↦ pure tt
        | some name ↦ do g ← on_server (leave name s.this_user_id s.this_name); changed_members t g
      ]

  -- All that a connection asks, until it ends.
  unfoldable pub chat_room : (ct : ℕ) → List ClientRequest → Session → Exec (World W) (Unit {0})
  unfolding handle disconnect
  chat_room ct [] s = disconnect s
  chat_room ct (message ∷ rest) s = do s' ← handle ct message s; chat_room ct rest s'
