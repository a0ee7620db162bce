-- ===== src/ChatRoom/Handlers.antt =====
-- The requests that ChatRoom of chat_system/chat/chatserver.go handles with several steps, and
-- testMerge of chat_system/chat/TestCase.go.
use selected_course_projects.Prelude.{
  ℕ, Bool, true, false, Option, none, some, List, [], ◌∷◌, ◌++◌, if◌then◌else◌,
}
use selected_course_projects.Prelude.Int.{ℤ, int_eq, pos, ◌+ℤ◌, ltb_ℤ}
use selected_course_projects.Prelude.Map.{lookup, insert}
use selected_course_projects.Prelude.Text.{Str, str, str_eq}
use selected_course_projects.Exec.{Exec, pure, gets, ◌>>=◌, ◌>>◌}
use selected_course_projects.Data.{Time, Information, Group, ClientRequest, response}
use selected_course_projects.Heap.{need}
use selected_course_projects.Groups.{create_group, no_information, name_merge}
use selected_course_projects.Likes.{Liked}
use selected_course_projects.Replica.{Server, Flag, merge}
use selected_course_projects.Network.{
  Transport, Config, World, on_server, reading, outside, put_config, replica_broadcast,
}
use selected_course_projects.Inspect.{print_data, inspect_map}
use selected_course_projects.ChatServer.{
  the_group, check_group, join, switch, change_identity, quit_session, request_append,
}
use selected_course_projects.ChatRoom.Sending.{
  appended, liked, broadcast_to_clients, flush_screen, tell_members, changed_members,
}

-- The variables of ChatRoom. The group is held by its name.
pub record Session : Type 0 where
  pub this_user_id : ℤ
  pub this_name : Str
  pub this_client_group : Option Str
  pub replica_name : Str
  pub i_am_a_server : Bool

abbrev pub new_session : Session
new_session = record {
  this_user_id = pos 0;
  this_name = [];
  this_client_group = none;
  replica_name = [];
  i_am_a_server = false;
}

-- ", s1, s1, s1, s1, " of each replica
abbrev pub test_information : (names : Str) → Information
test_information names = record no_information { user_list = names }

unfoldable pub test_merge : (me : ℤ) → (string_me : Str) → Option Str
unfolding create_group name_merge
test_merge me string_me =
    let g = create_group me string_me (str "test") (pos 0) in
    name_merge (record g {
      replica_info = insert (str "5") (test_information (str ", s5, s5, s5, s5, ")) (
          insert (str "4") (test_information (str ", s4, s4, s4, s4, ")) (
            insert (str "3") (test_information (str ", s3, s3, s3, s3, ")) (
              insert (str "2") (test_information (str ", s2, s2, s2, s2, "))
                (insert (str "1") (test_information (str ", s1, s1, s1, s1, ")) g.replica_info))));
    })

-- three seconds
abbrev pub alive_within : ℤ
alive_within = pos 3000000000

-- `now.Sub(last).Seconds() < 3`
abbrev pub is_alive : (now last : Time) → Bool
unfolding ◌+ℤ◌
is_alive now last = ltb_ℤ now (last +ℤ alive_within)

module _ {W : Type 0} (t : Transport W) where
  -- "change"
  unfoldable pub handle_change : (ct : ℕ) → ClientRequest → Session → Exec (World W) Session
  unfolding changed_members
  handle_change ct message s = do
    (answer, found) ← on_server (change_identity message)
    done ← outside (t.reply ct answer)
    elim found as (λ _. Exec (World W) (Unit {0})) [ none ↦ pure tt | some g ↦ changed_members t g ]
    pure (record s { this_name = message.user_name })

  -- "j"
  unfoldable pub handle_join : (ct : ℕ) → ClientRequest → Session → Exec (World W) Session
  unfolding tell_members
  handle_join ct message s = do
    g ← on_server (join message ct)
    broadcast_to_clients t g
    tell_members t message.ori_group_name g
    pure (record s { this_client_group = some message.ori_group_name })

  -- "a"
  unfoldable pub handle_append : ClientRequest → Exec (World W) (Unit {0})
  unfolding need
  handle_append message = do
    (g, m) ← on_server (request_append message)
    broadcast_to_clients t g
    me ← gets (λ w. w.server.me)
    string_me ← gets (λ w. w.server.string_me)
    info ← need (lookup string_me g.replica_info)
    replica_broadcast t (appended me string_me message g m info)

  -- "l" and "r". The clock is read where the like is performed, so a request that is turned down does
  -- not read it.
  unfoldable pub handle_like :
      (ct : ℕ)
      → (ClientRequest → Time → Exec Server Liked)
      → (like : ℤ) → ClientRequest
      → Exec (World W) (Unit {0})
  handle_like ct f like message = do
    now ← gets (λ w. (t.now w.net).0)
    out ← on_server (f message now)
    if out.success
        then (do
          read ← outside t.now
          broadcast_to_clients t out.group
          string_me ← gets (λ w. w.server.string_me)
          replica_broadcast t (liked string_me message like out))
        else (do done ← outside (t.reply ct (response (str "Denial") [] out.indicator)); pure tt)

  -- "s"
  unfoldable pub handle_switch : ClientRequest → Session → Exec (World W) Session
  unfolding tell_members
  handle_switch message s = do
    on_server (switch message)
    old ← on_server (the_group message.ori_group_name)
    new ← on_server (the_group message.new_group_name)
    broadcast_to_clients t new
    broadcast_to_clients t old
    tell_members t old.group_name old
    tell_members t new.group_name new
    pure (record s { this_client_group = some message.new_group_name })

  -- "q"
  unfoldable pub handle_quit : (ct : ℕ) → ClientRequest → Exec (World W) (Unit {0})
  unfolding changed_members
  handle_quit ct message = do
    (bye, found) ← on_server (quit_session message)
    elim found as (λ _. Exec (World W) (Unit {0})) [ none ↦ pure tt | some g ↦ changed_members t g ]
    done ← outside (t.reply ct (response (str "bye") [] bye))
    pure tt

  -- the servers that were heard of in the last three seconds
  unfoldable pub view_of : List (Str × Config) → (return_s : Str) → Exec (World W) Str
  view_of [] return_s = pure return_s
  view_of ((server, config) ∷ rest) return_s = do
    now ← outside t.now
    view_of rest (
        if is_alive now config.last_time
        then return_s ++ str "Replica." ++ server ++ str " "
        else return_s)

  -- "v"
  unfoldable pub handle_view : (ct : ℕ) → Exec (World W) (Unit {0})
  unfolding view_of
  handle_view ct = do
    set ← gets (λ w. w.stream_set)
    s ← view_of set (str "View: ")
    done ← outside (t.reply ct (response (str "View") [] s))
    pure tt

  -- "UpdateMsg", "UpdateLike" and "SendGroupInfo"
  unfoldable pub handle_merge : Flag → ClientRequest → Exec (World W) (Unit {0})
  unfolding flush_screen
  handle_merge flag message = do
    refresh ← on_server (merge message flag)
    if refresh
        then (do g ← on_server (the_group message.ori_group_name); flush_screen t g)
        else pure tt

  -- `sm.StreamSet[server].LastTime = time`
  unfoldable pub heard_of : (server : Str) → Time → Exec (World W) (Unit {0})
  unfolding need
  heard_of server time = do
    set ← gets (λ w. w.stream_set)
    config ← need (lookup server set)
    put_config server (record config { last_time = time })

  unfoldable pub send_groups : (ct : ℕ) → List (Str × Group) → Exec (World W) (Unit {0})
  send_groups ct [] = pure tt
  send_groups ct ((name, g) ∷ rest) = do
    me ← gets (λ w. w.server.string_me)
    done ← outside (t.reply ct (response (str "CheckGroup") me name))
    send_groups ct rest

  unfoldable pub all_group : (ct : ℕ) → Exec (World W) (Unit {0})
  unfolding send_groups
  all_group ct = do groups ← gets (λ w. w.server.group_map); send_groups ct groups

  -- whether StreamSet has an entry
  abbrev pub has_config : Str → World W → Bool
  has_config server w = elim (lookup server w.stream_set) [ none ↦ false | some c ↦ true ]

  -- "AllGroup"
  unfoldable pub handle_all_group : (ct : ℕ) → ClientRequest → Exec (World W) (Unit {0})
  unfolding heard_of
  handle_all_group ct message = do
    now ← outside t.now
    known ← gets (has_config message.from_server)
    if known then heard_of message.from_server now else pure tt
    all_group ct

  -- "CheckGroup". The entry that is tested is not the one that is written.
  unfoldable pub handle_check_group : ClientRequest → Exec (World W) (Unit {0})
  unfolding heard_of
  handle_check_group message = do
    now ← outside t.now
    known ← gets (has_config message.user_name)
    if known then heard_of message.from_server now else pure tt
    on_server (check_group message.content)

module _ {W : Type 0} where
  -- "data"
  unfoldable pub handle_data : Exec (World W) (Unit {0})
  handle_data = do
    me ← gets (λ w. w.server.me)
    groups ← gets (λ w. w.server.group_map)
    printed ← reading (print_data me groups)
    pure tt

  -- "InspectMap"
  unfoldable pub handle_inspect : Exec (World W) (Unit {0})
  handle_inspect = do
    string_me ← gets (λ w. w.server.string_me)
    groups ← gets (λ w. w.server.group_map)
    printed ← reading (inspect_map string_me groups)
    pure tt

  -- "test"
  unfoldable pub test : ClientRequest → Exec (World W) (Unit {0})
  test message = do refresh ← on_server (merge message Flag.message_flag); pure tt

  -- "liketest"
  unfoldable pub test_like_merge : ClientRequest → Exec (World W) (Unit {0})
  unfolding handle_data
  test_like_merge message = do refresh ← on_server (merge message Flag.like_flag); handle_data
