-- ===== src/ChatServer/Together.antt =====
-- Two servers between which each message is relayed at once: AppendMessage and what ChatRoom then sends
-- (chat_system/chat/chatserver.go), and Insertion at the other server (chat_system/chat/replica.go).
use selected_course_projects.Prelude.{
  ℕ, suc, ◌<◌, ◌≤◌, ◌≡◌, refl, sym, subst, ap, ◌∙◌, true, false, ◌||◌, not, some, arith, length,
  length-append, inr,
}
use selected_course_projects.Prelude.Int.{
  ℤ, pos, int_eq, inc32, inc32-pos, lt-inc32, leb_ℤ, ◌<ℤ◌, ◌≤ℤ◌,
}
use selected_course_projects.Prelude.Map.{lookup}
use selected_course_projects.Prelude.Text.{Str, str_eq, beq_str}
use selected_course_projects.Exec.Returns
use selected_course_projects.Exec.Returns.{Returns, returns}
use selected_course_projects.Exec.Ends.{both}
use selected_course_projects.Data.{Information, Group, ClientRequest}
use selected_course_projects.Heap.{Heap}
use selected_course_projects.LinkedList.Cells.{length-messages}
use selected_course_projects.Placement.{insertion_message}
use selected_course_projects.Placement.Merge.{Ascending, known}
use selected_course_projects.Placement.Received.{insertion_message-Settles}
use selected_course_projects.Placement.Refines.{insertion_message-merge}
use selected_course_projects.Placement.Represents.{overtakes}
use selected_course_projects.ChatServer.{append_message}
use selected_course_projects.ChatServer.Events.{View, hear, spoken, Sound}
use selected_course_projects.ChatServer.Interleave.{received-Sound, step-spoken}
use selected_course_projects.ChatServer.Latest.{
  InOrder, InOrder-snoc, known_latest, overtakes_latest,
}
use selected_course_projects.ChatServer.Logged.{append_message-Logged}
use selected_course_projects.ChatServer.Relay.{
  Tells, hear-Tells, has_node, Noted, acknowledged-Noted,
}
use selected_course_projects.ChatRoom.Sending.{appended}

-- from 0 to `n`
abbrev pub Upto : ℕ → ℤ → Type 0
Upto n x = (pos 0 ≤ℤ x) × (x ≤ℤ pos n)

-- One server has acknowledged all that another has sent of its own messages, `n` at most.
pub record InStep (n : ℕ) (string_me : Str) (g g' : Group) : Type 0 where
  pub own : Information
  pub owns : lookup string_me g.replica_info ≡ some own
  pub other : Information
  pub knows : lookup string_me g'.replica_info ≡ some other
  pub same : other.msg_timestamp ≡ own.msg_timestamp
  pub bound : Upto n own.msg_timestamp

-- Two servers hold the same messages of a group, numbered by their places, and have each acknowledged all
-- that the other has sent. Neither their number nor a timestamp is above `n`.
pub record Together (n : ℕ) (a b : Str) (v : View) (g : Group) (h : Heap) (g' : Group) (h' : Heap)
    : Type 0 where
  pub first : Sound a v g h
  pub second : Sound b v g' h'
  pub order : InOrder 0 v.all
  pub lamport : Upto n v.lamport
  pub count : length v.all ≤ n
  pub from_first : InStep n a g g'
  pub from_second : InStep n b g' g

next_bound : (n : ℕ) (x : ℤ) → Upto n x → n < 2147483646 → Upto (suc n) (inc32 x)
unfolding inc32
next_bound n x le lt = ground arith

module _ (me other : ℤ) (a b : Str) (r : ClientRequest) (n : ℕ) (v : View) (g g' : Group)
    (h h' : Heap) (together : Together n a b v g h g' h') (room : n < 2147483646) where
  top : v.lamport <ℤ pos 2147483647
  top = omega (arith, together.lamport.1)

  fits : suc (length v.all) < 2147483647
  fits = omega (arith, together.count)

  more : together.from_first.own.msg_timestamp <ℤ pos 2147483647
  more = omega (arith, together.from_first.bound.1)

  -- the other server after the message
  insertion-Noted :
      (q : ClientRequest)
      → Tells me a r (inc32 v.lamport) (inc32 together.from_first.own.msg_timestamp) q
      → Returns
          (λ out k.
            Sound b (hear me (spoken r) v) out.group k
            × Noted a (inc32 together.from_first.own.msg_timestamp) g' out.group)
          (insertion_message true q g' h')
  insertion-Noted q t =
      let s = together.second in
      let i = together.from_first in
      let later : v.lamport <ℤ q.timestamp =
        subst (λ x. v.lamport <ℤ x) (sym t.timestamp) (lt-inc32 v.lamport top) in
      let new : known q v.all ≡ false = known_latest q v.lamport later v.all s.under in
      let free : (known q v.all || not (overtakes q v.all)) ≡ true =
        rw (overtakes_latest q v.lamport later v.all s.under) (ground arith) in
      let known' : lookup q.from_server g'.replica_info ≡ some i.other = rw t.from_server i.knows in
      let lt : leb_ℤ q.map_index i.other.msg_timestamp ≡ false =
        rw (t.map_index, i.same) (ground (arith, lt-inc32 i.own.msg_timestamp more)) in
      Returns.weaken
        (both
          (insertion_message-merge true q g' h' s.cells s.list s.tail
            (subst Ascending (sym s.stands) s.ascending) (inr (i.other, known', lt))
            (omega (arith, length-messages s.cells, ap length s.stands)))
          (insertion_message-Settles true q g' h'))
        λ out k (m, settles). (
          subst (λ x. Sound b x out.group k)
              (hear-Tells me other a r (inc32 i.own.msg_timestamp) q v t top s.under together.order
                (omega arith))
              (received-Sound other b v g' h' q out k s free m),
          acknowledged-Noted a (inc32 i.own.msg_timestamp) q g' out i.other settles
              (has_node q g' s.cells out k m (rw s.stands new)) t.from_server t.map_index i.knows
              (ap inc32 i.same),
        )

  said-InOrder : InOrder 0 (hear me (spoken r) v).all
  said-InOrder =
      InOrder-snoc 0 _ v.all together.order
        (inc32-pos (length v.all) (omega arith) ∙ ap pos (omega arith))

  -- A client says a message at one of two servers that are together; the server appends it, and the
  -- request that it then sends is inserted at the other. Both return, and the servers are together again:
  -- both have the message, last and under the same number, and the second has acknowledged it.
  pub append_message-Together :
      beq_str a b ≡ false
      → Returns
          (λ out k.
            (info : Information) × (lookup a out.0.replica_info ≡ some info)
            × Returns
                (λ out' k'. Together (suc n) a b (hear me (spoken r) v) out.0 k out'.group k')
                (insertion_message true (appended me a r out.0 out.1 info) g' h'))
          (append_message me a r g h)
  append_message-Together apart =
      let i = together.from_first in
      let j = together.from_second in
      Returns.weaken
        (both (step-spoken me a v g h r together.first top fits)
          (append_message-Logged me a r g h i.own i.owns))
        λ out k (sound, logged). (
          logged.info,
          logged.known,
          Returns.weaken
              (insertion-Noted (appended me a r out.0 out.1 logged.info) (record {
                user_name = refl;
                content = refl;
                like_number = refl;
                replica = refl;
                timestamp = logged.lamport ∙ ap inc32 together.first.stamp;
                from_server = refl;
                map_index = logged.stamp;
              }))
              λ out' k' (sound', noted). record {
                first = sound;
                second = sound';
                order = said-InOrder;
                lamport = next_bound n v.lamport together.lamport room;
                count = omega (arith, length-append v.all, together.count);
                from_first = record {
                  own = logged.info;
                  owns = logged.known;
                  other = noted.info;
                  knows = noted.knows;
                  same = noted.stamp ∙ sym logged.stamp;
                  bound =
                      subst (Upto (suc n)) (sym logged.stamp)
                        (next_bound n i.own.msg_timestamp i.bound room);
                };
                from_second = record {
                  own = j.own;
                  owns = noted.others b apart ∙ j.owns;
                  other = j.other;
                  knows = logged.others b apart ∙ j.knows;
                  same = j.same;
                  bound = (j.bound.0, omega (arith, j.bound.1));
                };
              },
        )
