-- ===== src/Data.antt =====
-- The types of chat_system/chat/data.go and the request of chat.proto. A pointer to a node is the
-- node's address in a heap, and 0 is nil.
use selected_course_projects.Prelude.{ℕ, Option, []}
use selected_course_projects.Prelude.Int.{ℤ, pos}
use selected_course_projects.Prelude.Map.{Map}
use selected_course_projects.Prelude.Text.{Str}

abbrev pub Ptr : Type 0
Ptr = ℕ

abbrev pub nil : Ptr
nil = 0

-- The source's `List`. Each belongs to one group or to one message, so it is held there by value.
pub record LinkedList : Type 0 where
  pub head : Ptr
  pub tail : Ptr
  pub ten_start : Ptr
  pub count : ℤ

-- `time.Time`: nanoseconds since the zero time of package time.
abbrev pub Time : Type 0
Time = ℤ

pub record Activity : Type 0 where
  pub user_name : Str
  pub actual_time : Time
  pub like : ℤ
  pub msg_lamport : ℤ
  pub msg_replica : ℤ

pub record Message : Type 0 where
  pub msg_id : ℤ
  pub lamport : ℤ
  pub replica : ℤ
  pub creator : Str
  pub content : Str
  pub user_like : Map Str ℤ
  pub activity_list : Option LinkedList
  pub total_like : ℤ

-- A node owns its activity and its message; `none` is a nil pointer to one.
pub record Node : Type 0 where
  pub activity : Option Activity
  pub message : Option Message
  pub next : Ptr

-- A connected client; its stream is named by a number.
pub record User : Type 0 where
  pub user_name : Str
  pub context : ℕ

pub record Information : Type 0 where
  pub user_list : Str
  pub group_name_timestamp : ℤ
  pub like_timestamp : ℤ
  pub msg_timestamp : ℤ
  pub like_event_lamport : Map ℤ Ptr
  pub message_lamport : Map ℤ Ptr

pub record Group : Type 0 where
  pub group_name : Str
  pub message_list : LinkedList
  pub user_list : Map ℤ User
  pub same_user_name_count : Map Str ℤ
  pub max_lamport : ℤ
  pub replica_info : Map Str Information

pub record ClientRequest : Type 0 where
  pub request : Str
  pub user_id : ℤ
  pub user_name : Str
  pub ori_group_name : Str
  pub new_group_name : Str
  pub like_number : ℤ
  pub content : Str
  pub replica : ℤ
  pub timestamp : ℤ
  pub group_timestamp : ℤ
  pub from_server : Str
  pub map_index : ℤ

pub record ServerResponse : Type 0 where
  pub request : Str
  pub username : Str
  pub content : Str
  pub like : ℤ
  pub msg_id : ℤ
  pub user_id : ℤ
  pub local_message : ℤ

-- a response with the fields that the literal leaves out
abbrev pub response : (request username content : Str) → ServerResponse
response request username content = record {
  request = request;
  username = username;
  content = content;
  like = pos 0;
  msg_id = pos 0;
  user_id = pos 0;
  local_message = pos 0;
}

-- a request with the fields that the literal leaves out
abbrev pub blank : (request : Str) → ClientRequest
blank request = record {
  request = request;
  user_id = pos 0;
  user_name = [];
  ori_group_name = [];
  new_group_name = [];
  like_number = pos 0;
  content = [];
  replica = pos 0;
  timestamp = pos 0;
  group_timestamp = pos 0;
  from_server = [];
  map_index = pos 0;
}
