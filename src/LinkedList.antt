-- ===== src/LinkedList.antt =====
-- The linked lists of chat_system/chat/data.go: newMessage, Append, IndexReorder, UpdateTenStart and
-- Delete. A loop runs on fuel, and is given as many rounds as the heap has addresses in use.
pub mod Append
pub mod Cells
pub mod IsList
pub mod Reorder
use selected_course_projects.Prelude.{ℕ, zero, suc, none, some, [], ◌==◌, if◌then◌else◌}
use selected_course_projects.Prelude.Int.{ℤ, pos, leb_ℤ, eqb_ℤ, inc32}
use selected_course_projects.Prelude.Text.{Str}
use selected_course_projects.Exec.{Exec, pure, no_fuel, ◌>>=◌, ◌>>◌}
use selected_course_projects.Data.{Ptr, nil, LinkedList, Activity, Message}
use selected_course_projects.Heap.{Heap, alloc, load, set_next, load_message, store_message}

-- `&List{nil, nil, nil, 0}`
abbrev pub no_nodes : LinkedList
no_nodes = record { head = nil; tail = nil; ten_start = nil; count = pos 0 }

-- `Activity{}`
abbrev pub zero_activity : Activity
zero_activity = record {
  user_name = [];
  actual_time = pos 0;
  like = pos 0;
  msg_lamport = pos 0;
  msg_replica = pos 0;
}

-- `Message{}`
abbrev pub zero_message : Message
zero_message = record {
  msg_id = pos 0;
  lamport = pos 0;
  replica = pos 0;
  creator = [];
  content = [];
  user_like = [];
  activity_list = none;
  total_like = pos 0;
}

abbrev pub new_message : (lamport replica : ℤ) → (creator content : Str) → (like : ℤ) → Message
new_message lamport replica creator content like = record {
  msg_id = pos 0;
  lamport = lamport;
  replica = replica;
  creator = creator;
  content = content;
  user_like = [];
  activity_list = some no_nodes;
  total_like = like;
}

-- `if l.Tail != nil { l.Tail.Next = newNode; l.Tail = newNode }`
pub link_tail : LinkedList → Ptr → Exec Heap LinkedList
link_tail l p = if l.tail == nil then pure l else do set_next l.tail p; pure (record l { tail = p })

-- `if l.Head == nil { l.Head = newNode; l.Tail = newNode }`
pub link_head : LinkedList → Ptr → LinkedList
link_head l p = if l.head == nil then record l { head = p; tail = p } else l

unfoldable pub append : LinkedList → Exec Heap (Ptr × LinkedList)
unfolding link_tail link_head
append l = do
  p ← alloc (record { activity = some zero_activity; message = some zero_message; next = nil })
  l1 ← link_tail l p
  let l2 = link_head l1 p
  pure (p, record l2 { count = inc32 l2.count })

-- The assignment of an index that is not one more than the previous node's.
pub renumber : Ptr → Message → ℤ → Exec Heap (Unit {0})
renumber p m id = if eqb_ℤ m.msg_id id then pure tt else store_message p (record m { msg_id = id })

-- `prev_id` is `prev.Message.MsgId`, which the round before has set or found right.
unfoldable pub index_reorder_loop : ℕ → (prev_id : ℤ) → (cur : Ptr) → Exec Heap (Unit {0})
unfolding renumber
index_reorder_loop zero prev_id cur = no_fuel
index_reorder_loop (suc k) prev_id cur = if cur == nil then pure tt else do
  n ← load cur
  m ← load_message cur
  renumber cur m (inc32 prev_id)
  index_reorder_loop k (inc32 prev_id) n.next

unfoldable pub index_reorder : LinkedList → Exec Heap (Unit {0})
index_reorder l = λ h. index_reorder_loop h.fresh (pos 0) l.head h

unfoldable pub update_ten_start : LinkedList → (insert : Ptr) → Exec Heap LinkedList
update_ten_start l insert =
    if leb_ℤ l.count (pos 10) then pure (record l { ten_start = l.head }) else do
      t ← load l.ten_start
      if t.next == insert then pure (record l { ten_start = insert }) else pure l

-- What Delete's loop ends with: the last node removed, and the list's tail.
unfoldable pub delete_loop : ℕ → (id : ℤ) → (cur found tail : Ptr) → Exec Heap (Ptr × Ptr)
delete_loop zero id cur found tail = no_fuel
delete_loop (suc k) id cur found tail = do
  c ← load cur
  if c.next == nil then pure (found, tail) else do
    n ← load c.next
    m ← load_message c.next
    let unlink = do
      set_next cur n.next
      delete_loop k id cur c.next (if c.next == tail then cur else tail)
    let skip = delete_loop k id c.next found tail
    if eqb_ℤ m.msg_id id then unlink else skip

unfoldable pub delete : LinkedList → ℤ → Exec Heap (Ptr × LinkedList)
delete l id = do
  dummy_head ← alloc (record { activity = none; message = none; next = l.head })
  (found, tail) ← (λ h. delete_loop h.fresh id dummy_head nil l.tail h)
  d ← load dummy_head
  pure (found, record l { head = d.next; tail = tail })
