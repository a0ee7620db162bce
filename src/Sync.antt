-- ===== src/Sync.antt =====
-- The exchange of what the replicas have saved (chat_system/chat/replica.go): Entropy, SendMySaving
-- and CheckForMerge.
pub mod Answer
pub mod AntiEntropy
pub mod Exchange
pub mod Owed
pub mod Periodic
use selected_course_projects.Prelude.{
  ℕ, zero, suc, ◌+◌, ◌-◌, none, some, List, [], ◌∷◌, ◌==◌, if◌then◌else◌,
}
use selected_course_projects.Prelude.Int.{ℤ, int_eq, pos, pos_part, neg_part, ltb_ℤ, inc32}
use selected_course_projects.Prelude.Map.{lookup}
use selected_course_projects.Prelude.Text.{Str, str, str_eq}
use selected_course_projects.Prelude.Number.{itoa, parse_int32}
use selected_course_projects.Exec.{Exec, pure, gets, no_fuel, ◌>>=◌, ◌>>◌}
use selected_course_projects.Data.{
  Ptr, nil, Activity, Message, Information, Group, ClientRequest, blank,
}
use selected_course_projects.Heap.{need, load, load_message, load_activity}
use selected_course_projects.Clock.{format_time}
use selected_course_projects.Network.{
  Transport, World, reading, put_config, sending_between_replica, replica_broadcast,
}

-- the request for what a server misses of another's events
abbrev pub my_saving : (me : ℤ) → Group → (replica : Str) → Information → ClientRequest
my_saving me g replica info = record (blank (str "CheckForMerge")) {
  from_server = replica;
  ori_group_name = g.group_name;
  group_timestamp = info.group_name_timestamp;
  timestamp = info.msg_timestamp;
  replica = me;
  like_number = info.like_timestamp;
}

-- the participants of a server
abbrev pub group_info : Group → (from_server : Str) → Information → ClientRequest
group_info g from_server info = record (blank (str "SendGroupInfo")) {
  content = info.user_list;
  ori_group_name = g.group_name;
  from_server = from_server;
  timestamp = info.group_name_timestamp;
  group_timestamp = g.max_lamport;
}

-- a message with its index among those of a server
abbrev pub update_msg : Group → (from_server : Str) → (index : ℤ) → Message → ClientRequest
update_msg g from_server index m = record (blank (str "UpdateMsg")) {
  user_name = m.creator;
  content = m.content;
  ori_group_name = g.group_name;
  like_number = m.total_like;
  replica = m.replica;
  timestamp = m.lamport;
  from_server = from_server;
  map_index = index;
}

-- a like with its index among those of a server
abbrev pub update_like : Group → (from_server : Str) → (index : ℤ) → Activity → ClientRequest
update_like g from_server index a = record (blank (str "UpdateLike")) {
  user_name = a.user_name;
  content = format_time a.actual_time;
  ori_group_name = g.group_name;
  like_number = a.like;
  replica = a.msg_replica;
  timestamp = a.msg_lamport;
  from_server = from_server;
  map_index = index;
}

-- The rounds that a loop from `a` while it is below `b` has, and one for the last test.
abbrev pub rounds : (a b : ℤ) → ℕ
rounds a b = suc (pos_part b + neg_part a - (pos_part a + neg_part b))

module _ {W : Type 0} (t : Transport W) where
  unfoldable pub send_my_saving_to :
      (me : ℤ) → Group → List (Str × Information) → Exec (World W) (Unit {0})
  send_my_saving_to me g [] = pure tt
  send_my_saving_to me g ((replica, info) ∷ rest) = do
    replica_broadcast t (my_saving me g replica info)
    send_my_saving_to me g rest

  unfoldable pub send_my_saving : Group → Exec (World W) (Unit {0})
  unfolding send_my_saving_to
  send_my_saving g = do me ← gets (λ w. w.server.me); send_my_saving_to me g g.replica_info

  unfoldable pub entropy_of : List (Str × Group) → Exec (World W) (Unit {0})
  entropy_of [] = pure tt
  entropy_of ((name, g) ∷ rest) = do send_my_saving g; entropy_of rest

  unfoldable pub entropy : Exec (World W) (Unit {0})
  unfolding entropy_of
  entropy = do groups ← gets (λ w. w.server.group_map); entropy_of groups

  -- The messages of a server after the index `starting`.
  unfoldable pub send_messages :
      ℕ
      → Group
      → (from_server server : Str) → (stream : ℕ) → Information
      → (starting : ℤ) → Exec (World W) (Unit {0})
  unfolding need
  send_messages zero g from_server server stream info starting = no_fuel
  send_messages (suc k) g from_server server stream info starting =
      let index = inc32 starting in
      let rest = send_messages k g from_server server stream info index in
      if ltb_ℤ starting info.msg_timestamp
      then (do
        p ← need (lookup index info.message_lamport)
        m ← reading (load_message p)
        sending_between_replica t server stream (update_msg g from_server index m)
        rest)
      else pure tt

  -- The likes of a server after the index `starting`.
  unfoldable pub send_likes :
      ℕ
      → Group
      → (from_server server : Str) → (stream : ℕ) → Information
      → (starting : ℤ) → Exec (World W) (Unit {0})
  unfolding need
  send_likes zero g from_server server stream info starting = no_fuel
  send_likes (suc k) g from_server server stream info starting =
      let index = inc32 starting in
      let rest = send_likes k g from_server server stream info index in
      if ltb_ℤ starting info.like_timestamp
      then (do
        p ← need (lookup index info.like_event_lamport)
        a ← reading (load_activity p)
        sending_between_replica t server stream (update_like g from_server index a)
        rest)
      else pure tt

  -- What a server that has the group answers.
  unfoldable pub answer : ClientRequest → Group → Exec (World W) (Unit {0})
  unfolding send_messages send_likes need
  answer message g = do
    let server = itoa message.replica
    set ← gets (λ w. w.stream_set)
    config ← need (lookup server set)
    put_config server (record config { is_online = pos 1 })
    info ← need (lookup message.from_server g.replica_info)
    if ltb_ℤ message.group_timestamp info.group_name_timestamp
        then sending_between_replica t server config.stream (group_info g message.from_server info)
        else pure tt
    send_messages (rounds message.timestamp info.msg_timestamp) g message.from_server server
        config.stream info message.timestamp
    send_likes (rounds message.like_number info.like_timestamp) g message.from_server server
        config.stream info message.like_number

  unfoldable pub check_for_merge : ClientRequest → Exec (World W) (Unit {0})
  unfolding answer
  check_for_merge message w = elim (lookup message.ori_group_name w.server.group_map) [
    | none ↦ pure tt w
    | some g ↦ answer message g w
  ]
