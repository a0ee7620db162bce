-- ===== src/Replica.antt =====
-- Insertion and Merge of chat_system/chat/replica.go on the server's groups.
pub mod CatchUp
pub mod Members
pub mod Messages
use selected_course_projects.Prelude.{
  ℕ, none, some, Bool, true, false, zero, suc, not, ◌&&◌, ◌==◌, if◌then◌else◌,
}
use selected_course_projects.Prelude.Int.{ℤ, int_eq, pos, ltb_ℤ, leb_ℤ, eqb_ℤ, inc32}
use selected_course_projects.Prelude.Map.{Map, lookup, insert}
use selected_course_projects.Prelude.Text.{Str, str_eq}
use selected_course_projects.Exec.{Run, Exec, ok, panic, out_of_fuel, pure, no_fuel, ◌>>=◌, ◌>>◌}
use selected_course_projects.Data.{Ptr, nil, Information, Group, ClientRequest}
use selected_course_projects.Heap.{
  Heap, need, load, load_message, store_message, load_activity, store_activity,
}
use selected_course_projects.LinkedList.{new_message, append}
use selected_course_projects.Groups.{create_group}
use selected_course_projects.Likes.{insert_like, calculate_like}
use selected_course_projects.Placement.{Inserted, acknowledge, insertion_message}

-- The like events of a replica that were received.
unfoldable pub record_like : ClientRequest → Ptr → Information → Information
record_like message p info = record info {
  like_event_lamport = insert message.map_index p info.like_event_lamport;
  like_timestamp =
      if eqb_ℤ message.map_index (inc32 info.like_timestamp)
      then inc32 info.like_timestamp
      else info.like_timestamp;
}

-- The like of a message: InsertLike, the stamp of the message on the activity, the record of the
-- index and the new total. The result says whether the total has changed.
unfoldable pub add_like : ClientRequest → (node : Ptr) → Group → Exec Heap (Ptr × Bool × Group)
unfolding record_like need
add_like message node g = do
  p ← insert_like node message
  a ← load_activity p
  store_activity p (record a { msg_lamport = message.timestamp; msg_replica = message.replica })
  before ← load_message node
  sum ← calculate_like node
  m ← load_message node
  store_message node (record m { total_like = sum })
  info ← need (lookup message.from_server g.replica_info)
  let g' = record g {
    replica_info = insert message.from_server (record_like message p info) g.replica_info;
  }
  pure (p, not (eqb_ℤ before.total_like sum), g')

-- The node of the message that a like names, or nil.
unfoldable pub find_key : ℕ → ClientRequest → (head : Ptr) → Exec Heap Ptr
find_key zero message head = no_fuel
find_key (suc k) message head = if head == nil then pure nil else do
  m ← load_message head
  n ← load head
  let rest = find_key k message n.next
  if eqb_ℤ m.lamport message.timestamp && eqb_ℤ m.replica message.replica then pure head else rest

-- Insertion with `flag == 1` on a group that exists. A like of an unknown message inserts a message
-- with the like's fields first; its group is not refreshed then.
unfoldable pub insertion_like : ClientRequest → Group → Exec Heap Inserted
unfolding add_like find_key need
insertion_like message g = do
  info ← need (lookup message.from_server g.replica_info)
  if leb_ℤ message.map_index info.like_timestamp
      then pure (record { node = nil; refresh = false; group = g })
      else do
        node ← (λ h. find_key h.fresh message g.message_list.head h)
        if node == nil
            then (do
              inserted ← insertion_message false message g
              (p, changed, g') ← add_like message inserted.node inserted.group
              pure (record { node = p; refresh = false; group = g' }))
            else do
              (p, changed, g') ← add_like message node g
              pure (record { node = p; refresh = changed; group = g' })

-- The participants of another replica, if they are newer.
unfoldable pub insertion_members : ClientRequest → Group → Exec Heap Inserted
unfolding need
insertion_members message g = do
  info ← need (lookup message.from_server g.replica_info)
  if ltb_ℤ info.group_name_timestamp message.timestamp
      then pure (record {
        node = nil;
        refresh = true;
        group = record g {
          replica_info =
              insert message.from_server
                (record info {
                  user_list = message.content;
                  group_name_timestamp = message.timestamp;
                })
                g.replica_info;
        };
      })
      else pure (record { node = nil; refresh = false; group = g })

-- What is merged: `flag` 0, 1 and 2.
pub data Flag : Type 0 where
  message_flag like_flag member_flag : Flag

-- Insertion into a group that was just created: its first message, which keeps the index 0.
insertion_first : (is_like flag2 : Bool) → ClientRequest → Group → Exec Heap Inserted
unfolding add_like
insertion_first is_like flag2 message g = do
  (p, l) ← append g.message_list
  g1 ← acknowledge flag2 message p (record g { message_list = record l { ten_start = p } })
  store_message p
      (new_message message.timestamp message.replica message.user_name message.content (pos 0))
  if is_like
      then (do
        (q, changed, g2) ← add_like message p g1
        pure (record { node = nil; refresh = false; group = g2 }))
      else pure (record { node = nil; refresh = false; group = g1 })

-- The participants of a group that was just created.
insertion_first_members : ClientRequest → Group → Exec Heap Inserted
unfolding need
insertion_first_members message g = do
  info ← need (lookup message.from_server g.replica_info)
  pure (record {
    node = nil;
    refresh = true;
    group = record g {
      replica_info =
          insert message.from_server
            (record info { user_list = message.content; group_name_timestamp = message.timestamp })
            g.replica_info;
    };
  })

insertion_new : Flag → (flag2 : Bool) → ClientRequest → Group → Exec Heap Inserted
unfolding insertion_first insertion_first_members
insertion_new Flag.message_flag flag2 message g = insertion_first false flag2 message g
insertion_new Flag.like_flag flag2 message g = insertion_first true flag2 message g
insertion_new Flag.member_flag flag2 message g = insertion_first_members message g

insertion_old : Flag → (flag2 : Bool) → ClientRequest → Group → Exec Heap Inserted
insertion_old Flag.message_flag flag2 message g = insertion_message flag2 message g
insertion_old Flag.like_flag flag2 message g = insertion_like message g
insertion_old Flag.member_flag flag2 message g = insertion_members message g

-- The part of the server that Insertion reads and writes. Its groups are held by name.
pub record Server : Type 0 where
  pub heap : Heap
  pub group_map : Map Str Group
  pub me : ℤ
  pub string_me : Str
  pub user_count : ℤ

-- the server once a step on the heap has ended
abbrev pub resume : {A : Type 0} → Server → Run Heap A → Run Server A
resume s (ok a h) = ok a (record s { heap = h })
resume s panic = panic
resume s out_of_fuel = out_of_fuel

abbrev pub on_heap : {A : Type 0} → Exec Heap A → Exec Server A
on_heap m s = resume s (m s.heap)

-- `sm.GroupMap[g.GroupName] = g`
abbrev pub put_group : Str → Group → Exec Server (Unit {0})
put_group name g s = ok tt (record s { group_map = insert name g s.group_map })

unfoldable pub insertion : Flag → (flag2 : Bool) → ClientRequest → Exec Server (Ptr × Bool)
unfolding insertion_new insertion_old
insertion flag flag2 message s =
    let step = elim (lookup message.ori_group_name s.group_map) as (λ _. Exec Heap Inserted) [
      | none ↦
          insertion_new flag flag2 message
            (create_group s.me s.string_me message.ori_group_name message.group_timestamp)
      | some g ↦ insertion_old flag flag2 message g
    ] in
    (do
      out ← on_heap step
      put_group message.ori_group_name out.group
      pure (out.node, out.refresh))
      s

-- Merge: the flag says what the caller is to refresh.
unfoldable pub merge : ClientRequest → Flag → Exec Server Bool
merge message flag = do (node, refresh) ← insertion flag true message; pure refresh
