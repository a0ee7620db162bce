-- ===== src/ChatServer/Relay.antt =====
-- A message of a client at one server (AppendMessage of chat_system/chat/chatserver.go), and at another
-- server that it is sent to (Insertion of chat_system/chat/replica.go).
use selected_course_projects.Prelude.{
  ℕ, ◌<◌, ◌≡◌, refl, sym, subst, ap, ◌∙◌, true, false, some, List, [], ◌∷◌, ◌++◌, arith, length,
  inl, inr, ◌==◌,
}
use selected_course_projects.Prelude.Int.{ℤ, pos, int_eq, inc32, lt-inc32, ltb_ℤ, eqb_ℤ, ◌<ℤ◌}
use selected_course_projects.Prelude.Map.{lookup, insert, lookup-insert, lookup-insert_self}
use selected_course_projects.Prelude.Text.{Str, str_eq, beq_str}
use selected_course_projects.Data.{nil, Message, Information, Group, ClientRequest}
use selected_course_projects.Heap.{Heap}
use selected_course_projects.LinkedList.{new_message}
use selected_course_projects.LinkedList.Cells.{Cells, messages}
use selected_course_projects.LinkedList.Reorder.{with_id}
use selected_course_projects.Placement.{Inserted, record_message}
use selected_course_projects.Placement.Acknowledge.{created, acknowledged}
use selected_course_projects.Placement.Merge.{known}
use selected_course_projects.Placement.Received.{Settles}
use selected_course_projects.Placement.Refines.{Merges, merges}
use selected_course_projects.ChatServer.Events.{View, hear, spoken, received}
use selected_course_projects.ChatServer.Latest.{InOrder, merge-last, known_latest}
use selected_course_projects.ChatServer.Order.{Under}

-- What one server sends of a message that its client has said: the fields that the other reads.
pub record Tells (me : ℤ) (string_me : Str) (r : ClientRequest) (stamp index : ℤ)
    (q : ClientRequest) : Type 0 where
  pub user_name : q.user_name ≡ r.user_name
  pub content : q.content ≡ r.content
  pub like_number : q.like_number ≡ pos 0
  pub replica : q.replica ≡ me
  pub timestamp : q.timestamp ≡ stamp
  pub from_server : q.from_server ≡ string_me
  pub map_index : q.map_index ≡ index

abbrev told : (stamp replica : ℤ) → (name content : Str) → (like id : ℤ) → Message
told stamp replica name content like id = record (new_message stamp replica name content like) {
  msg_id = id;
}

created_lem :
    (me : ℤ) (string_me : Str) (r : ClientRequest) (stamp index id : ℤ) (q : ClientRequest)
    → Tells me string_me r stamp index q
    → with_id id (created q) ≡ told stamp me r.user_name r.content (pos 0) id
created_lem me string_me r stamp index id q t =
    ap (λ x. told x q.replica q.user_name q.content q.like_number id) t.timestamp
    ∙ ap (λ x. told stamp x q.user_name q.content q.like_number id) t.replica
    ∙ ap (λ x. told stamp me x q.content q.like_number id) t.user_name
    ∙ ap (λ x. told stamp me r.user_name x q.like_number id) t.content
    ∙ ap (λ x. told stamp me r.user_name r.content x id) t.like_number

-- The other server hears what the first has heard.
pub hear-Tells :
    (me other : ℤ) (string_me : Str) (r : ClientRequest) (index : ℤ) (q : ClientRequest) (v : View)
    → Tells me string_me r (inc32 v.lamport) index q
    → v.lamport <ℤ pos 2147483647
    → Under v.lamport v.all
    → InOrder 0 v.all
    → length v.all < 2147483647
    → hear other (received q) v ≡ hear me (spoken r) v
hear-Tells me other string_me r index q v t top under order fits =
    let later : v.lamport <ℤ q.timestamp =
      subst (λ x. v.lamport <ℤ x) (sym t.timestamp) (lt-inc32 v.lamport top) in
    let new : known q v.all ≡ false = known_latest q v.lamport later v.all under in
    let up : ltb_ℤ v.lamport q.timestamp ≡ true = ground arith in
    let stamp : (hear other (received q) v).lamport ≡ inc32 v.lamport = rw (new, up) t.timestamp in
    let all : (hear other (received q) v).all ≡ (hear me (spoken r) v).all =
      merge-last q v.lamport later v.all under order fits
      ∙ ap (λ (m : Message). v.all ++ m ∷ [])
          (created_lem me string_me r (inc32 v.lamport) index (inc32 (pos (length v.all))) q t) in
    ap (λ (x : ℤ). record (hear other (received q) v) { lamport = x }) stamp
    ∙ ap (λ (ms : List Message). record (hear me (spoken r) v) { all = ms }) all

acknowledged_info :
    (q : ClientRequest) (p : ℕ) (g : Group) (i : Information)
    → lookup q.from_server g.replica_info ≡ some i
    → (acknowledged true q p g).replica_info
      ≡ insert q.from_server (record_message q p i) g.replica_info
unfolding acknowledged
acknowledged_info q p g i e = rw (acknowledged, e) refl

record_message-next :
    (q : ClientRequest) (p : ℕ) (i : Information)
    → q.map_index ≡ inc32 i.msg_timestamp
    → (record_message q p i).msg_timestamp ≡ inc32 i.msg_timestamp
unfolding record_message
record_message-next q p i e =
    let next : eqb_ℤ q.map_index (inc32 i.msg_timestamp) ≡ true = rw e (ground arith) in
    rw next refl

-- a new message has a node
pub has_node :
    (q : ClientRequest) (g : Group) (cs : Cells) (out : Inserted) (k : Heap)
    → Merges q g cs out k
    → known q (messages cs) ≡ false
    → (out.node == nil) ≡ false
has_node q g cs out k (merges ds l e t servers lamport node keeps) new = node ∙ new

-- One server's record of another's messages after one more of them, which is the next.
pub record Noted (string_me : Str) (index : ℤ) (g : Group) (out : Group) : Type 0 where
  pub info : Information
  pub knows : lookup string_me out.replica_info ≡ some info
  pub stamp : info.msg_timestamp ≡ index
  pub others :
      (s : Str) → beq_str string_me s ≡ false → lookup s out.replica_info ≡ lookup s g.replica_info

pub acknowledged-Noted :
    (string_me : Str) (index : ℤ) (q : ClientRequest) (g : Group) (out : Inserted) (i : Information)
    → Settles true q g out
    → (out.node == nil) ≡ false
    → q.from_server ≡ string_me
    → q.map_index ≡ index
    → lookup string_me g.replica_info ≡ some i
    → inc32 i.msg_timestamp ≡ index
    → Noted string_me index g out.group
acknowledged-Noted string_me index q g out i (inl (n, e)) ne from at known next =
    absurd (ground arith)
acknowledged-Noted string_me index q g out i (inr ack) ne from at known next =
    let known' : lookup q.from_server g.replica_info ≡ some i = rw from known in
    let whole : out.group.replica_info
        ≡ insert string_me (record_message q out.node i) g.replica_info =
      ack.0
      ∙ acknowledged_info q out.node g i known'
      ∙ ap (λ s. insert s (record_message q out.node i) g.replica_info) from in
    record {
      info = record_message q out.node i;
      knows =
          ap (lookup string_me) whole
          ∙ lookup-insert_self string_me (record_message q out.node i) g.replica_info;
      stamp = record_message-next q out.node i (at ∙ sym next) ∙ next;
      others = λ s d.
          ap (lookup s) whole
          ∙ lookup-insert string_me s (record_message q out.node i) g.replica_info
          ∙ rw d refl;
    }
