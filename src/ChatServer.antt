-- ===== src/ChatServer.antt =====
-- The requests of clients (chat_system/chat/chatserver.go) and CheckGroup of
-- chat_system/chat/HelperFunction.go, as steps of the server, and what clients are shown.
pub mod Appending
pub mod Logged
pub mod Lost
pub mod Bounds
pub mod Conversation
pub mod Events
pub mod Interleave
pub mod Latest
pub mod Relay
pub mod Together
pub mod Order
pub mod Members
pub mod Screen
pub mod Window
use selected_course_projects.Prelude.{
  ℕ, zero, suc, ◌+◌, Option, none, some, List, [], ◌∷◌, ◌++◌, ◌==◌, if◌then◌else◌,
}
use selected_course_projects.Prelude.Int.{ℤ, int_eq, pos, negsuc, ltb_ℤ, eqb_ℤ, inc32}
use selected_course_projects.Prelude.Map.{Map, lookup, insert, delete}
use selected_course_projects.Prelude.Number.{itoa}
use selected_course_projects.Prelude.Text.{Str, str, str_eq, digits_onto}
use selected_course_projects.Exec.{Exec, ok, pure, gets, ◌>>=◌, ◌>>◌}
use selected_course_projects.Data.{
  Ptr, nil, Time, Message, User, Group, ClientRequest, ServerResponse, response,
}
use selected_course_projects.Heap.{Heap, need, load, load_message, store_message}
use selected_course_projects.LinkedList.{new_message, append}
use selected_course_projects.Groups.{create_group, add_username, delete_username, name_merge}
use selected_course_projects.Likes.{Liked, like_message, unlike_message}
use selected_course_projects.Replica.{Server, on_heap, put_group}

-- the group of a name; a nil group panics where the code uses it
unfoldable pub the_group : Str → Exec Server Group
unfolding need
the_group name s = need (lookup name s.group_map) s

-- `if !ok { theGroup = sm.CreateGroup(name, 0) ... }`
unfoldable pub find_or_create : Str → Exec Server Group
find_or_create name s = elim (lookup name s.group_map) [
  | some g ↦ ok g s
  | none ↦
      let g = create_group s.me s.string_me name (pos 0) in
      ok g (record s { group_map = insert name g s.group_map })
]

unfoldable pub check_group : Str → Exec Server (Unit {0})
unfolding find_or_create
check_group name = do g ← find_or_create name; pure tt

unfoldable pub user_login : ClientRequest → Exec Server (ServerResponse × ℤ)
user_login message s =
    let id = inc32 s.user_count in
    ok (record (response (str "login") message.user_name []) { user_id = id }, id)
      (record s { user_count = id })

-- The window after a local message.
pub advance_window : Ptr → Group → Exec Heap Group
advance_window p g =
    let l = g.message_list in
    if eqb_ℤ l.count (pos 1)
    then pure (record g { message_list = record l { ten_start = p } })
    else if ltb_ℤ (pos 10) l.count
    then (do
      t ← load l.ten_start
      pure (record g { message_list = record l { ten_start = t.next } }))
    else pure g

unfoldable pub append_message :
    (me : ℤ) → (string_me : Str) → ClientRequest → Group → Exec Heap (Group × Message)
unfolding advance_window need
append_message me string_me message g = do
  let lamport = inc32 g.max_lamport
  (p, l) ← append g.message_list
  info ← need (lookup string_me g.replica_info)
  let stamp = inc32 info.msg_timestamp
  let info' = record info {
    msg_timestamp = stamp;
    message_lamport = insert stamp p info.message_lamport;
  }
  let m = record (new_message lamport me message.user_name message.content (pos 0)) {
    msg_id = l.count;
  }
  store_message p m
  g' ← advance_window p (record g {
    max_lamport = lamport;
    message_list = l;
    replica_info = insert string_me info' g.replica_info;
  })
  pure (g', m)

-- `ct` names the client's stream.
unfoldable pub join : ClientRequest → (ct : ℕ) → Exec Server Group
unfolding need
join message ct = do
  g ← find_or_create message.ori_group_name
  string_me ← gets (λ s. s.string_me)
  let user : User = record { user_name = message.user_name; context = ct }
  g' ← need (
      add_username string_me (record g { user_list = insert message.user_id user g.user_list })
        message.user_name)
  put_group message.ori_group_name g'
  pure g'

-- The user leaves one group and enters another.
unfoldable pub switch : ClientRequest → Exec Server (Unit {0})
unfolding the_group need
switch message = do
  old ← the_group message.ori_group_name
  string_me ← gets (λ s. s.string_me)
  user ← need (lookup message.user_id old.user_list)
  old' ← need (delete_username string_me old user.user_name)
  put_group message.ori_group_name
      (record old' { user_list = delete message.user_id old'.user_list })
  new ← find_or_create message.new_group_name
  new' ← need (
      add_username string_me (record new { user_list = insert message.user_id user new.user_list })
        message.user_name)
  put_group message.new_group_name new'

change_name : ClientRequest → Group → Exec Server Group
unfolding need
change_name message g = do
  string_me ← gets (λ s. s.string_me)
  user ← need (lookup message.user_id g.user_list)
  let renamed = record g {
    user_list = insert message.user_id (record user { user_name = message.user_name }) g.user_list;
  }
  g1 ← need (delete_username string_me renamed user.user_name)
  g2 ← need (add_username string_me g1 message.user_name)
  put_group message.ori_group_name g2
  pure g2

-- A user with no group is only told the name.
unfoldable pub change_identity : ClientRequest → Exec Server (ServerResponse × Option Group)
unfolding change_name
change_identity message = do
  found ← gets (λ s. lookup message.ori_group_name s.group_map)
  g ← elim found as (λ _. Exec Server (Option Group)) [
    | none ↦ pure none
    | some g ↦ do g' ← change_name message g; pure (some g')
  ]
  pure (record (response (str "login") message.user_name []) { user_id = message.user_id }, g)

-- The farewell, and the group to tell, whose participants are printed. The participant is removed when the connection ends.
unfoldable pub quit_session : ClientRequest → Exec Server (Str × Option Group)
unfolding need
quit_session message = do
  string_me ← gets (λ s. s.string_me)
  found ← gets (λ s. lookup message.ori_group_name s.group_map)
  elim found as (λ _. Exec Server (Unit {0})) [
    | none ↦ pure tt
    | some g ↦ do info ← need (lookup string_me g.replica_info); pure tt
  ]
  pure (str "UserID:" ++ (itoa message.user_id ++ str " left session"), found)

-- What ChatRoom does with the group of a client whose connection has ended.
unfoldable pub leave : (group_name : Str) → (user_id : ℤ) → (user_name : Str) → Exec Server Group
unfolding the_group need
leave group_name user_id user_name = do
  g ← the_group group_name
  string_me ← gets (λ s. s.string_me)
  g' ←
      need
        (delete_username string_me (record g { user_list = delete user_id g.user_list }) user_name)
  put_group group_name g'
  pure g'

-- The lines of messages from a node on, at most `k`, the first with the number `i`.
unfoldable pub message_lines : (k : ℕ) → (i : ℕ) → (node : Ptr) → Exec Heap (List ServerResponse)
unfolding itoa
message_lines zero i node = pure []
message_lines (suc k) i node = if node == nil then pure [] else do
  m ← load_message node
  n ← load node
  rest ← message_lines k (i + 1) n.next
  pure (
      record (response (str "store") (itoa (pos i) ++ (str ". " ++ m.creator)) m.content) {
        like = m.total_like;
        msg_id = m.msg_id;
        local_message = pos i;
      }
      ∷ rest)

-- What ClientBroadcast sends to each client of the group.
unfoldable pub screen : Group → Exec Heap (List ServerResponse)
unfolding message_lines need
screen g = do
  names ← need (name_merge g)
  lines ← message_lines 10 1 g.message_list.ten_start
  pure (
      response (str "print") (str "Group") (str "CS2510 " ++ g.group_name)
      ∷ response (str "print") (str "Participants") names
      ∷ lines)

-- The same lines for every client, in the order of the map.
unfoldable pub to_clients : Map ℤ User → List ServerResponse → List (ℕ × List ServerResponse)
to_clients [] lines = []
to_clients ((id, user) ∷ rest) lines = (user.context, lines) ∷ to_clients rest lines

-- With no client nothing is computed.
unfoldable pub client_broadcast : Group → Exec Heap (List (ℕ × List ServerResponse))
unfolding screen to_clients
client_broadcast g = elim g.user_list [
  | [] ↦ pure []
  | c ∷ users ↦ do lines ← screen g; pure (to_clients (c ∷ users) lines)
]

-- What ShowHistory sends: all messages of the list.
unfoldable pub show_history : Group → Exec Heap (List ServerResponse)
unfolding message_lines need
show_history g = do
  names ← need (name_merge g)
  lines ← (λ h. message_lines h.fresh 1 g.message_list.head h)
  pure (
      response (str "print") (str "Group") (str "CS2510 " ++ (g.group_name ++ str " chat history"))
      ∷ response (str "print") (str "Participants") names
      ∷ lines)

abbrev group_like :
    ((string_me : Str) → ClientRequest → Group → (now : Time) → Exec Heap Liked)
    → ClientRequest
    → (now : Time) → Exec Server Liked
group_like f message now = do
  string_me ← gets (λ s. s.string_me)
  g ← the_group message.ori_group_name
  out ← on_heap (f string_me message g now)
  put_group message.ori_group_name out.group
  pure out

-- The requests "a", "l" and "r" of a client, on the group that they name.
unfoldable pub request_append : ClientRequest → Exec Server (Group × Message)
unfolding the_group need
request_append message = do
  string_me ← gets (λ s. s.string_me)
  me ← gets (λ s. s.me)
  g ← the_group message.ori_group_name
  (g', m) ← on_heap (append_message me string_me message g)
  put_group message.ori_group_name g'
  pure (g', m)

unfoldable pub request_like : ClientRequest → (now : Time) → Exec Server Liked
unfolding the_group need
request_like = group_like like_message

unfoldable pub request_unlike : ClientRequest → (now : Time) → Exec Server Liked
unfolding the_group need
request_unlike = group_like unlike_message
