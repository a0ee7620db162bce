-- ===== src/Likes/Perform.antt =====
-- PerformingLike: what it writes.
use selected_course_projects.Prelude.{
  suc, ◌<◌, ◌≡◌, ◌≢◌, refl, ◌∙◌, true, false, some, [], arith, ◌==◌, ◌⊎◌, if◌then◌else◌,
}
use selected_course_projects.Prelude.Int.{ℤ, pos, inc32, dec32, int_eq, eqb_ℤ}
use selected_course_projects.Prelude.Map.{lookup, insert, lookup-insert_self}
use selected_course_projects.Prelude.Text.{Str, str_eq}
use selected_course_projects.Exec.Returns
use selected_course_projects.Exec.Returns.{Returns, returns}
use selected_course_projects.Data.{
  Ptr, nil, Time, Node, LinkedList, Activity, Message, Information, Group,
}
use selected_course_projects.Heap.{Heap, write}
use selected_course_projects.Heap.Access.{
  need_lem, load_message_lem, store_message_lem, store_activity_lem,
}
use selected_course_projects.Heap.Chain.{Chain, first, has, fresh-not-mem}
use selected_course_projects.LinkedList.{zero_activity, zero_message}
use selected_course_projects.LinkedList.Append.{Appended-new, append_lem, IsShape, zero_node}
use selected_course_projects.Likes.{performing_like}
use selected_course_projects.Likes.Grown.{Grown, Appended-Grown}
use selected_course_projects.Likes.Calculate.{activity_node, Activities}

activity_node-IsShape : IsShape activity_node
activity_node-IsShape = record { relink = λ a e q. refl }

-- The message with the like of a user.
abbrev pub with_like : (user_name : Str) → (like : ℤ) → LinkedList → Message → Message
with_like user_name like l m = record m {
  total_like = if eqb_ℤ like (pos 1) then inc32 m.total_like else dec32 m.total_like;
  user_like = insert user_name like m.user_like;
  activity_list = some l;
}

-- the activity of the like
abbrev pub made : Message → Time → (like : ℤ) → (user_name : Str) → Activity
made m now like user_name = record {
  user_name = user_name;
  actual_time = now;
  like = like;
  msg_lamport = m.lamport;
  msg_replica = m.replica;
}

-- The heap and the group that PerformingLike leaves, when `line` is the node `n` of the message `m`.
pub record Performed (string_me : Str) (g : Group) (h : Heap) (line : Ptr) (n : Node) (m : Message)
    (l : LinkedList) (user_name : Str) (like : ℤ) (now : Time) (acts : Activities)
    (out : Group × Str × ℤ) (k : Heap) : Type 0 where
  pub message_list : out.0.message_list ≡ g.message_list
  pub activities : LinkedList
  pub at : k.cell line ≡ some (record n { message = some (with_like user_name like activities m) })
  pub fresh : k.fresh ≡ suc h.fresh
  pub grown : Grown h l acts (made m now like user_name) activities k
  pub info : Information
  pub known : lookup string_me out.0.replica_info ≡ some info
  pub outside :
      (q : Ptr)
      → has q acts ≡ false
      → (q == h.fresh) ≡ false
      → (q == line) ≡ false
      → k.cell q ≡ h.cell q

pub performing_like_lem :
    (string_me : Str) (g : Group) (like : ℤ) (line : Ptr) (user_name : Str) (now : Time) (h : Heap)
    (n : Node) (m : Message) (l : LinkedList) (acts : Activities) (info : Information)
    → line ≢ nil
    → line < h.fresh
    → h.cell line ≡ some n
    → n.message ≡ some m
    → m.activity_list ≡ some l
    → has line acts ≡ false
    → Chain activity_node h acts
    → l.head ≡ first acts
    → ((acts ≡ []) × (l.tail ≡ nil)) ⊎ (has l.tail acts ≡ true)
    → lookup string_me g.replica_info ≡ some info
    → Returns
        (Performed string_me g h line n m l user_name like now acts)
        (performing_like string_me g like line user_name now h)
unfolding performing_like write
performing_like_lem string_me g like line user_name now h n m l acts info ne lt at em el apart c hd
      tl known =
    rw (load_message_lem h line ne at m em, need_lem m.activity_list l h el)
      (Returns.bind
        (append_lem activity_node activity_node-IsShape (zero_activity, some zero_message) refl h l
          acts (omega arith) c hd tl)
        λ out k a.
          let (e, fr, new, outside) =
            Appended-new activity_node (zero_activity, some zero_message) h l acts out k a in
          let m' = with_like user_name like out.1 m in
          let info' : Information = record info {
            like_timestamp = inc32 info.like_timestamp;
            like_event_lamport = insert (inc32 info.like_timestamp) h.fresh info.like_event_lamport;
          } in
          let k1 = write k line (record n { message = some m' }) in
          let stay : k.cell line ≡ some n = outside line apart (ground arith) ∙ at in
          rw
            (
              e,
              store_message_lem k line ne stay m',
              store_activity_lem k1 h.fresh {n = zero_node} (omega arith) (ground arith)
                  (made m now like user_name),
              need_lem (lookup string_me g.replica_info) info
                  (write k1 h.fresh
                    (record zero_node { activity = some (made m now like user_name) }))
                  known,
            )
            (returns (record {
              message_list = refl;
              activities = out.1;
              at = ground arith;
              fresh = fr;
              grown =
                  Appended-Grown h l acts zero_activity (made m now like user_name) out k
                    (write k1 h.fresh
                      (record zero_node { activity = some (made m now like user_name) }))
                    line a apart (fresh-not-mem activity_node h h.fresh acts c (omega arith))
                    (ground arith) refl (ground arith) (λ q d e'. ground arith);
              info = info';
              known = lookup-insert_self string_me info' g.replica_info;
              outside = λ q o d e'. ground (arith, outside q o d);
            })))
