-- ===== src/Placement.antt =====
-- Where a replicated message goes: LamportPlace (chat_system/chat/HelperFunction.go), and
-- UpdateGroupLamport and the message branch of Insertion (chat_system/chat/replica.go).
pub mod Acknowledge
pub mod AtHead
pub mod Behind
pub mod CatchUp
pub mod Commute
pub mod Converge
pub mod Deliver
pub mod Fresh
pub mod Insertion
pub mod Merge
pub mod Represents
pub mod Order
pub mod Overtake
pub mod Place
pub mod Received
pub mod Refines
pub mod Stands
pub mod Walk
use selected_course_projects.Prelude.{
  ℕ, zero, suc, none, some, Bool, true, false, ◌==◌, if◌then◌else◌,
}
use selected_course_projects.Prelude.Int.{ℤ, int_eq, ltb_ℤ, leb_ℤ, eqb_ℤ, inc32}
use selected_course_projects.Prelude.Map.{lookup, insert}
use selected_course_projects.Prelude.Text.{str_eq}
use selected_course_projects.Exec.{Exec, pure, no_fuel, ◌>>=◌, ◌>>◌}
use selected_course_projects.Data.{Ptr, nil, Message, Information, Group, ClientRequest}
use selected_course_projects.Heap.{Heap, alloc, need, load, set_next, load_message, store_message}
use selected_course_projects.LinkedList.{new_message, index_reorder, update_ten_start}

-- The message is there already: its creator, content and total are replaced.
abbrev pub replaced : ClientRequest → Message → Message
replaced message m = record m {
  creator = message.user_name;
  content = message.content;
  total_like = message.like_number;
}

pub replace_information : Ptr → ClientRequest → Exec Heap (Ptr × Bool)
replace_information p message = do
  m ← load_message p
  store_message p (replaced message m)
  pure (nil, false)

-- The walk from the head. `curNode` is a node whose message comes before the new one.
unfoldable pub lamport_walk : ℕ → ClientRequest → (cur : Ptr) → Exec Heap (Ptr × Bool)
unfolding replace_information
lamport_walk zero message cur = no_fuel
lamport_walk (suc k) message cur = do
  c ← load cur
  if c.next == nil then pure (cur, true) else do
    m ← load_message c.next
    let rest = lamport_walk k message c.next
    if eqb_ℤ m.lamport message.timestamp
        then (if eqb_ℤ m.replica message.replica
            then replace_information c.next message
            else if ltb_ℤ message.replica m.replica
            then pure (cur, true)
            else rest)
        else if ltb_ℤ m.lamport message.timestamp
        then rest
        else pure (cur, true)

-- The node to insert after, nil for none. The flag says: with a node, that it is not known to be the
-- tail; with nil, that the message becomes the head (else it was replaced).
unfoldable pub lamport_place : ClientRequest → Group → Exec Heap (Ptr × Bool)
unfolding lamport_walk
lamport_place message g =
    let l = g.message_list in
    let walk = λ (h : Heap). lamport_walk h.fresh message l.head h in
    if l.head == nil then pure (nil, true) else do
      first ← load_message l.head
      if ltb_ℤ message.timestamp first.lamport
          then pure (nil, true)
          else if eqb_ℤ first.lamport message.timestamp
          then (if ltb_ℤ message.replica first.replica
              then pure (nil, true)
              else if eqb_ℤ message.replica first.replica
              then replace_information l.head message
              else walk)
          else do
            last ← load_message l.tail
            if ltb_ℤ last.lamport message.timestamp then pure (l.tail, false) else walk

unfoldable pub update_group_lamport : Group → ℤ → Group
update_group_lamport g lamport =
    if ltb_ℤ g.max_lamport lamport then record g { max_lamport = lamport } else g

-- The messages of a replica that were received: the node is recorded under the index, and the
-- acknowledged index moves on if it is the next.
unfoldable pub record_message : ClientRequest → Ptr → Information → Information
record_message message p info = record info {
  message_lamport = insert message.map_index p info.message_lamport;
  msg_timestamp =
      if eqb_ℤ message.map_index (inc32 info.msg_timestamp)
      then inc32 info.msg_timestamp
      else info.msg_timestamp;
}

-- the record under `flag2 == 1`
pub acknowledge : (flag2 : Bool) → ClientRequest → Ptr → Group → Exec Heap Group
unfolding record_message need
acknowledge false message p g = pure g
acknowledge true message p g = do
  info ← need (lookup message.from_server g.replica_info)
  pure (record g {
    replica_info = insert message.from_server (record_message message p info) g.replica_info;
  })

-- What Insertion returns beside the changed group: a node, and the group to refresh or nil.
pub record Inserted : Type 0 where
  pub node : Ptr
  pub refresh : Bool
  pub group : Group

-- `Insert message after` the node `result`
pub insert_after_node :
    (flag2 : Bool) → ClientRequest → Group → (result : Ptr) → (place : Bool) → Exec Heap Inserted
unfolding acknowledge update_group_lamport
insert_after_node flag2 message g result place = do
  r ← load result
  p ← alloc (record {
    activity = none;
    message = some (
        new_message message.timestamp message.replica message.user_name message.content
          message.like_number);
    next = nil;
  })
  set_next result p
  set_next p r.next
  let g1 = update_group_lamport g message.timestamp
  l ← update_ten_start (record g1.message_list { count = inc32 g1.message_list.count }) p
  index_reorder l
  g2 ← acknowledge flag2 message p (record g1 { message_list = l })
  let l' = if place then g2.message_list else record g2.message_list { tail = p }
  pure (record { node = p; refresh = true; group = record g2 { message_list = l' } })

-- `Insert Message as the head`
pub insert_at_head : (flag2 : Bool) → ClientRequest → Group → Exec Heap Inserted
unfolding acknowledge update_group_lamport
insert_at_head flag2 message g = do
  let l = g.message_list
  p ← alloc (record {
    activity = none;
    message = some (
        new_message message.timestamp message.replica message.user_name message.content
          message.like_number);
    next = l.head;
  })
  let l1 = record l { count = inc32 l.count; tail = if l.head == nil then p else l.tail; head = p }
  l2 ← update_ten_start l1 p
  let g1 = update_group_lamport (record g { message_list = l2 }) message.timestamp
  index_reorder l2
  g2 ← acknowledge flag2 message p g1
  pure (record { node = p; refresh = true; group = g2 })

-- Where LamportPlace has decided.
pub put_message :
    (flag2 : Bool) → ClientRequest → Group → (result : Ptr) → (place : Bool) → Exec Heap Inserted
unfolding insert_after_node insert_at_head
put_message flag2 message g result place =
    if result == nil
    then (if place
        then insert_at_head flag2 message g
        else pure (record { node = nil; refresh = false; group = g }))
    else insert_after_node flag2 message g result place

-- `flag2 == 1` and the index was received before
pub redundant : (flag2 : Bool) → ClientRequest → Group → Exec Heap Bool
unfolding need
redundant false message g = pure false
redundant true message g = do
  info ← need (lookup message.from_server g.replica_info)
  pure (leb_ℤ message.map_index info.msg_timestamp)

-- Insertion with `flag == 0` on a group that exists.
unfoldable pub insertion_message : (flag2 : Bool) → ClientRequest → Group → Exec Heap Inserted
unfolding redundant put_message lamport_place
insertion_message flag2 message g = do
  old ← redundant flag2 message g
  if old
      then pure (record { node = nil; refresh = false; group = g })
      else do (result, place) ← lamport_place message g; put_message flag2 message g result place
