-- ===== src/Likes.antt =====
-- Likes: InsertLike and CalculateLike (chat_system/chat/replica.go), PerformingLike
-- (chat_system/chat/HelperFunction.go), LikeMessage and UnlikeMessage (chat_system/chat/chatserver.go).
pub mod Calculate
pub mod Counting
pub mod Find
pub mod Grown
pub mod Perform
pub mod TakenBack
pub mod Twice
use selected_course_projects.Prelude.{
  ℕ, zero, suc, none, some, [], Bool, true, false, ◌||◌, ◌==◌, if◌then◌else◌,
}
use selected_course_projects.Prelude.Int.{
  ℤ, int_eq, pos, negsuc, ltb_ℤ, leb_ℤ, eqb_ℤ, inc32, dec32, add32,
}
use selected_course_projects.Prelude.Map.{Map, lookup, insert}
use selected_course_projects.Prelude.Text.{Str, str, str_eq, beq_str}
use selected_course_projects.Exec.{Exec, pure, no_fuel, ◌>>=◌, ◌>>◌}
use selected_course_projects.Data.{
  Ptr, nil, Time, LinkedList, Activity, Message, Group, ClientRequest,
}
use selected_course_projects.Heap.{
  Heap, alloc, need, load, set_next, load_message, store_message, load_activity, store_activity,
}
use selected_course_projects.LinkedList.{no_nodes, append}
use selected_course_projects.Clock.{parse_time, format_time}

-- the activity of a like that another replica has sent
abbrev pub received : ClientRequest → Time → Activity
received message time = record {
  user_name = message.user_name;
  actual_time = time;
  like = message.like_number;
  msg_lamport = pos 0;
  msg_replica = pos 0;
}

-- The walk past the first activity. It gives up, and returns nil, behind the last one.
unfoldable pub insert_like_loop : ℕ → ClientRequest → Time → (cur : Ptr) → Exec Heap Ptr
insert_like_loop zero message time cur = no_fuel
insert_like_loop (suc k) message time cur = if cur == nil then pure nil else do
  a ← load_activity cur
  n ← load cur
  let rest = insert_like_loop k message time n.next
  let put = do
    p ← alloc (record { activity = some (received message time); message = none; next = nil })
    set_next cur p
    set_next p n.next
    pure p
  let look = do b ← load_activity n.next; if ltb_ℤ time b.actual_time then put else rest
  if ltb_ℤ a.actual_time time then (if n.next == nil then put else look) else rest

-- A list that is nil gets its first node from Append; its time stays the zero time.
insert_like_nil : Ptr → Message → ClientRequest → Exec Heap Ptr
insert_like_nil node m message = do
  (p, l) ← append no_nodes
  store_message node (record m { activity_list = some l })
  a ← load_activity p
  store_activity p (record a { like = message.like_number; user_name = message.user_name })
  pure p

insert_like_list : Ptr → Message → LinkedList → ClientRequest → Time → Exec Heap Ptr
unfolding insert_like_loop
insert_like_list node m l message time = do
  let at_head = do
    p ← alloc (record { activity = some (received message time); message = none; next = l.head })
    store_message node (record m { activity_list = some (record l { head = p }) })
    pure p
  if l.head == nil then at_head else do
    first ← load_activity l.head
    if ltb_ℤ time first.actual_time
        then at_head
        else (λ h. insert_like_loop h.fresh message time l.head h)

unfoldable pub insert_like : (msg_to_like : Ptr) → ClientRequest → Exec Heap Ptr
unfolding insert_like_nil insert_like_list
insert_like node message = do
  m ← load_message node
  elim m.activity_list [
    | none ↦ insert_like_nil node m message
    | some l ↦ insert_like_list node m l message (parse_time message.content)
  ]

-- One round of CalculateLike: who likes the message, and the sum.
unfoldable pub count_like : Activity → Map Str ℤ → ℤ → Map Str ℤ × ℤ
count_like a user_like sum = elim (lookup a.user_name user_like) [
  | some like ↦
      if eqb_ℤ like a.like
      then (user_like, sum)
      else (insert a.user_name a.like user_like, add32 sum a.like)
  | none ↦
      if eqb_ℤ a.like (pos 1)
      then (insert a.user_name (pos 1) user_like, inc32 sum)
      else (user_like, sum)
]

unfoldable pub calculate_like_loop : ℕ → (cur : Ptr) → Map Str ℤ → ℤ → Exec Heap (Map Str ℤ × ℤ)
unfolding count_like
calculate_like_loop zero cur user_like sum = no_fuel
calculate_like_loop (suc k) cur user_like sum = if cur == nil then pure (user_like, sum) else do
  a ← load_activity cur
  n ← load cur
  let (user_like', sum') = count_like a user_like sum
  calculate_like_loop k n.next user_like' sum'

unfoldable pub calculate_like : Ptr → Exec Heap ℤ
unfolding calculate_like_loop
calculate_like node = do
  m ← load_message node
  l ← need m.activity_list
  (user_like, sum) ← (λ h. calculate_like_loop h.fresh l.head [] (pos 0) h)
  store_message node (record m { user_like = user_like })
  pure sum

-- `now` is `time.Now()` at the call. The result is the changed group, the formatted time and the
-- index of the like.
unfoldable pub performing_like :
    (string_me : Str)
    → Group
    → (like : ℤ) → (line : Ptr) → (user_name : Str) → (now : Time) → Exec Heap (Group × Str × ℤ)
performing_like string_me g like line user_name now = do
  m ← load_message line
  l ← need m.activity_list
  (p, l') ← append l
  store_message line (record m {
    total_like = if eqb_ℤ like (pos 1) then inc32 m.total_like else dec32 m.total_like;
    user_like = insert user_name like m.user_like;
    activity_list = some l';
  })
  store_activity p (record {
    user_name = user_name;
    actual_time = now;
    like = like;
    msg_lamport = m.lamport;
    msg_replica = m.replica;
  })
  info ← need (lookup string_me g.replica_info)
  let index = inc32 info.like_timestamp
  let info' = record info {
    like_timestamp = index;
    like_event_lamport = insert index p info.like_event_lamport;
  }
  pure (record g { replica_info = insert string_me info' g.replica_info }, format_time now, index)

-- The node whose message has an identifier, or nil.
unfoldable pub find_message : ℕ → ℤ → (head : Ptr) → Exec Heap Ptr
find_message zero id head = no_fuel
find_message (suc k) id head = if head == nil then pure nil else do
  m ← load_message head
  n ← load head
  let rest = find_message k id n.next
  if eqb_ℤ m.msg_id id then pure head else rest

-- What LikeMessage and UnlikeMessage return, beside the changed group.
pub record Liked : Type 0 where
  pub group : Group
  pub indicator : Str
  pub now_string : Str
  pub success : Bool
  pub msg_lamport : ℤ
  pub belong_replica : ℤ
  pub index : ℤ

-- a request that changes nothing
abbrev pub refused : Group → (indicator : Str) → (belong_replica : ℤ) → Liked
refused g indicator belong_replica = record {
  group = g;
  indicator = indicator;
  now_string = [];
  success = false;
  msg_lamport = pos 0;
  belong_replica = belong_replica;
  index = pos 0;
}

pub perform :
    (string_me : Str)
    → ClientRequest
    → Group
    → (now : Time) → (like : ℤ) → Ptr
    → Message
    → Exec Heap Liked
unfolding performing_like
perform string_me message g now like node m = do
  (g', now_string, index) ← performing_like string_me g like node message.user_name now
  pure (record {
    group = g';
    indicator = [];
    now_string = now_string;
    success = true;
    msg_lamport = m.lamport;
    belong_replica = m.replica;
    index = index;
  })

-- the guard that both requests begin with
unfoldable pub out_of_bounds : ClientRequest → Group → Bool
out_of_bounds message g =
    ltb_ℤ g.message_list.count message.like_number || eqb_ℤ message.like_number (pos 0)

unfoldable pub like_message :
    (string_me : Str) → ClientRequest → Group → (now : Time) → Exec Heap Liked
unfolding perform out_of_bounds find_message
like_message string_me message g now =
    if out_of_bounds message g
    then pure (refused g (str "illegal like request: out of bounds") (pos 0))
    else do
      node ← (λ h. find_message h.fresh message.like_number g.message_list.head h)
      if node == nil then pure (refused g [] (pos 0)) else do
        m ← load_message node
        if beq_str m.creator message.user_name
            then pure
                (refused g (str "illegal like request: You can't like your own message") m.replica)
            else elim (lookup message.user_name m.user_like) [
              | some like ↦
                  if leb_ℤ like (pos 0)
                  then perform string_me message g now (pos 1) node m
                  else pure
                      (refused g (str "illegal like request: You have already liked it") m.replica)
              | none ↦ perform string_me message g now (pos 1) node m
            ]

unfoldable pub unlike_message :
    (string_me : Str) → ClientRequest → Group → (now : Time) → Exec Heap Liked
unfolding perform out_of_bounds find_message
unlike_message string_me message g now =
    if out_of_bounds message g
    then pure (refused g (str "illegal unlike request: out of bounds") (pos 0))
    else do
      node ← (λ h. find_message h.fresh message.like_number g.message_list.head h)
      if node == nil then pure (refused g [] (pos 0)) else do
        m ← load_message node
        if beq_str m.creator message.user_name
            then pure (
                refused g (str "illegal like request: You can't unlike your own message") m.replica)
            else elim (lookup message.user_name m.user_like) [
              | some like ↦
                  if eqb_ℤ like (pos 1)
                  then perform string_me message g now (negsuc 0) node m
                  else pure
                      (refused g (str "illegal unlike request: You have not liked it") m.replica)
              | none ↦
                  pure (refused g (str "illegal unlike request: You have not liked it") m.replica)
            ]
