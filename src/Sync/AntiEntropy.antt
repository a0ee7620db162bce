-- ===== src/Sync/AntiEntropy.antt =====
-- The older exchange of chat_system/chat/replica.go, which sends everything to everyone: AntiEntropy,
-- SendGroupInfo, SendMessageList and SendLikeList.
use selected_course_projects.Prelude.{ℕ, zero, suc, List, [], ◌∷◌, ◌==◌, if◌then◌else◌}
use selected_course_projects.Prelude.Int.{int_eq}
use selected_course_projects.Prelude.Text.{Str, str, str_eq}
use selected_course_projects.Prelude.Number.{parse_int32}
use selected_course_projects.Exec.{Exec, pure, gets, no_fuel, ◌>>=◌, ◌>>◌}
use selected_course_projects.Data.{Ptr, nil, Message, Information, Group, blank}
use selected_course_projects.Heap.{need, load, load_message, load_activity}
use selected_course_projects.Clock.{format_time}
use selected_course_projects.Network.{Transport, World, reading, replica_broadcast}

module _ {W : Type 0} (t : Transport W) where
  unfoldable pub send_group_info_to : Group → List (Str × Information) → Exec (World W) (Unit {0})
  send_group_info_to g [] = pure tt
  send_group_info_to g ((replica, info) ∷ rest) = do
    elim info.user_list as (λ _. Exec (World W) (Unit {0})) [
      | [] ↦ pure tt
      | c ∷ s ↦ replica_broadcast t (record (blank (str "SendGroupInfo")) {
        content = info.user_list;
        replica = parse_int32 replica;
        timestamp = info.group_name_timestamp;
        ori_group_name = g.group_name;
      })
    ]
    send_group_info_to g rest

  unfoldable pub send_group_info : Group → Exec (World W) (Unit {0})
  unfolding send_group_info_to
  send_group_info g = send_group_info_to g g.replica_info

  unfoldable pub send_like_list : ℕ → Group → Message → (cur : Ptr) → Exec (World W) (Unit {0})
  send_like_list zero g m cur = no_fuel
  send_like_list (suc k) g m cur = if cur == nil then pure tt else do
    a ← reading (load_activity cur)
    n ← reading (load cur)
    replica_broadcast t (record (blank (str "UpdateLike")) {
      ori_group_name = g.group_name;
      content = format_time a.actual_time;
      user_name = a.user_name;
      timestamp = m.lamport;
      replica = m.replica;
      like_number = a.like;
    })
    send_like_list k g m n.next

  unfoldable pub send_message_list : ℕ → Group → (cur : Ptr) → Exec (World W) (Unit {0})
  unfolding need
  send_message_list zero g cur = no_fuel
  send_message_list (suc k) g cur = if cur == nil then pure tt else do
    m ← reading (load_message cur)
    n ← reading (load cur)
    replica_broadcast t (record (blank (str "UpdateMsg")) {
      ori_group_name = g.group_name;
      content = m.content;
      user_name = m.creator;
      timestamp = m.lamport;
      replica = m.replica;
      like_number = m.total_like;
    })
    likes ← need m.activity_list
    (λ w. send_like_list w.server.heap.fresh g m likes.head w)
    send_message_list k g n.next

  unfoldable pub anti_entropy_of : List (Str × Group) → Exec (World W) (Unit {0})
  anti_entropy_of [] = pure tt
  anti_entropy_of ((name, g) ∷ rest) = do
    send_group_info g
    (λ w. send_message_list w.server.heap.fresh g g.message_list.head w)
    anti_entropy_of rest

  unfoldable pub anti_entropy : Exec (World W) (Unit {0})
  unfolding anti_entropy_of
  anti_entropy = do groups ← gets (λ w. w.server.group_map); anti_entropy_of groups
