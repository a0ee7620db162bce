-- ===== src/ChatServer/Interleave.antt =====
-- The messages of local clients and of other servers, in any order.
use selected_course_projects.Prelude.{
  suc, ◌+◌, ◌<◌, ◌≤◌, ◌≡◌, sym, subst, ap, ◌∙◌, true, false, ◌||◌, not, List, [], ◌∷◌, ◌++◌, arith,
  length, length-append, ==_iff, inl, inr, if◌then◌else◌, Bool-cases,
}
use selected_course_projects.Prelude.Int.{ℤ, pos, inc32, ltb_ℤ, ◌<ℤ◌}
use selected_course_projects.Prelude.Text.{Str, str_eq, beq_str}
use selected_course_projects.Exec.Returns
use selected_course_projects.Exec.Returns.{Returns, returns}
use selected_course_projects.Data.{nil, Message, Information, Group, ClientRequest}
use selected_course_projects.Heap.{Heap}
use selected_course_projects.Heap.Chain.{last_or}
use selected_course_projects.LinkedList.{new_message}
use selected_course_projects.LinkedList.Cells.{messages, length-messages}
use selected_course_projects.Placement.{Inserted, insertion_message, update_group_lamport}
use selected_course_projects.Placement.Merge.{
  known, insert_message, merge, merge-Ascending, Ascending,
}
use selected_course_projects.Placement.Represents.{overtakes}
use selected_course_projects.Placement.Refines.{Merges, merges, insertion_message-merge}
use selected_course_projects.Placement.Stands.{length-merge}
use selected_course_projects.Exec.Ends.{both}
use selected_course_projects.Placement.Fresh.{Fresh, AllFresh, ApartFrom, AllApart, step-AllFresh}
use selected_course_projects.Placement.Received.{Settles, insertion_message-Settles}
use selected_course_projects.ChatServer.Logged.{Logged, append_message-Logged}
use selected_course_projects.ChatServer.{append_message}
use selected_course_projects.ChatServer.Appending.{said}
use selected_course_projects.ChatServer.Order.{Under, Spoken, append_message-Ascending}
use selected_course_projects.ChatServer.Events.{
  Event, spoken, received, arrivals, serve, View, hear, hear_all, Calm, Sound,
}
use selected_course_projects.ChatServer.Bounds.{
  Under-mono, Under-number, Under-update, Under-insert_message,
}

Under-hear :
    (me : ℤ) (r : ClientRequest) (v : View)
    → Under v.lamport v.all
    → Under (hear me (received r) v).lamport (merge r v.all)
unfolding merge
Under-hear me r v u = elim (Bool-cases (known r v.all)) [
  | inl e ↦ rw e (Under-update v.lamport r v.all u)
  | inr e ↦ elim (Bool-cases (ltb_ℤ v.lamport r.timestamp)) [
    | inl f ↦
        rw (e, f)
          (Under-number r.timestamp (pos 0) (insert_message r v.all) (
            Under-insert_message r.timestamp r v.all (omega arith)
              (Under-mono v.lamport r.timestamp v.all (ground arith) u)))
    | inr f ↦
        rw (e, f)
          (Under-number v.lamport (pos 0) (insert_message r v.all)
            (Under-insert_message v.lamport r v.all (ground arith) u))
  ]
]

lamport-update_group_lamport :
    (g : Group) (t : ℤ)
    → (update_group_lamport g t).max_lamport ≡ (if ltb_ℤ g.max_lamport t then t else g.max_lamport)
unfolding update_group_lamport
lamport-update_group_lamport g t = ground arith

module _ (me : ℤ) (string_me : Str) (v : View) (g : Group) (h : Heap) where
  pub received-Sound :
      (r : ClientRequest) (out : Inserted) (k : Heap)
      → (s : Sound string_me v g h) → (known r v.all || not (overtakes r v.all)) ≡ true
      → Merges r g s.cells out k
      → Sound string_me (hear me (received r) v) out.group k
  received-Sound r out k s free (merges ds l e t servers stamp node keeps) = record {
    cells = ds;
    list = l;
    tail = (==_iff out.group.message_list.tail (last_or nil ds)).0 (t ∙ rw s.stands free);
    stands = e ∙ ap (merge r) s.stands;
    stamp =
        stamp
        ∙ ap
            (λ (ms : List Message).
              if known r ms
              then g.max_lamport
              else (update_group_lamport g r.timestamp).max_lamport)
            s.stands
        ∙ ap (λ (x : ℤ). if known r v.all then g.max_lamport else x)
            (lamport-update_group_lamport g r.timestamp)
        ∙ ap
            (λ (x : ℤ). if known r v.all then x else if ltb_ℤ x r.timestamp then r.timestamp else x)
            s.stamp;
    ascending = merge-Ascending r v.all s.ascending;
    under = Under-hear me r v s.under;
    here = servers string_me s.here.0 s.here.1;
  }

  pub spoken-Sound :
      (r : ClientRequest) (out : Group × Message) (k : Heap)
      → (s : Sound string_me v g h) → Spoken me r g s.cells out k
      → Sound string_me (hear me (spoken r) v) out.0 k
  spoken-Sound r out k s w =
      let said_is : said me r g
          ≡ record (new_message (inc32 v.lamport) me r.user_name r.content (pos 0)) {
            msg_id = inc32 (pos (length v.all));
          } =
        ap
          (λ (x : ℤ). record (new_message (inc32 x) me r.user_name r.content (pos 0)) {
            msg_id = inc32 g.message_list.count;
          })
          s.stamp
        ∙ ap
            (λ (x : ℤ). record (new_message (inc32 v.lamport) me r.user_name r.content (pos 0)) {
              msg_id = inc32 x;
            })
            (s.list.count ∙ ap pos (sym (length-messages s.cells) ∙ ap length s.stands)) in
      let whole : messages w.cells ≡ (hear me (spoken r) v).all =
        w.spoken
        ∙ ap (λ (ms : List Message). ms ++ said me r g ∷ []) s.stands
        ∙ ap (λ (m : Message). v.all ++ m ∷ []) said_is in
      let stamp : out.0.max_lamport ≡ inc32 v.lamport = w.lamport ∙ ap inc32 s.stamp in
      record {
        cells = w.cells;
        list = w.list;
        tail = w.tail;
        stands = whole;
        stamp = stamp;
        ascending = subst Ascending whole w.ascending;
        under =
            subst (λ (x : ℤ). Under x (hear me (spoken r) v).all) stamp
              (subst (Under out.0.max_lamport) whole w.under);
        here = w.servers string_me s.here.0 s.here.1;
      }

  pub step-spoken :
      (r : ClientRequest)
      → Sound string_me v g h
      → v.lamport <ℤ pos 2147483647
      → suc (length v.all) < 2147483647
      → Returns
          (λ out k. Sound string_me (hear me (spoken r) v) out.0 k)
          (append_message me string_me r g h)
  step-spoken r s top fits =
      Returns.weaken
        (append_message-Ascending me string_me r g h s.cells s.list s.tail
          (subst Ascending (sym s.stands) s.ascending)
          (subst (Under g.max_lamport) (sym s.stands)
            (subst (λ (x : ℤ). Under x v.all) (sym s.stamp) s.under))
          (subst (λ (x : ℤ). x <ℤ pos 2147483647) (sym s.stamp) top)
          (omega (arith, length-messages s.cells, ap length s.stands)) s.here)
        λ out k w. spoken-Sound r out k s w

  step-received :
      (r : ClientRequest)
      → Sound string_me v g h
      → Fresh r g
      → (known r v.all || not (overtakes r v.all)) ≡ true
      → suc (length v.all) < 2147483647
      → Returns
          (λ out k. Sound string_me (hear me (received r) v) out.group k × Settles true r g out)
          (insertion_message true r g h)
  step-received r s (i, e, z, new) free fits =
      Returns.weaken
        (both
          (insertion_message-merge true r g h s.cells s.list s.tail
            (subst Ascending (sym s.stands) s.ascending) (inr (i, e, new))
            (omega (arith, length-messages s.cells, ap length s.stands)))
          (insertion_message-Settles true r g h))
        λ out k (m, settles). (received-Sound r out k s free m, settles)

length-hear : (me : ℤ) (e : Event) (v : View) → length (hear me e v).all ≤ suc (length v.all)
length-hear me (spoken r) v = omega (arith, length-append v.all)
length-hear me (received r) v = length-merge r v.all

-- None of some requests is from this server.
abbrev pub FromOthers : (string_me : Str) → List ClientRequest → Type 0
FromOthers string_me [] = Unit {0}
FromOthers string_me (q ∷ qs) = (beq_str string_me q.from_server ≡ false) × FromOthers string_me qs

-- A message of this server's client acknowledges nothing to the others.
spoken-AllFresh :
    (string_me : Str) (g : Group) (i : Information) (out : Group × Message) (k : Heap)
    (qs : List ClientRequest)
    → Logged string_me g i out k
    → FromOthers string_me qs
    → AllFresh qs g
    → AllFresh qs out.0
spoken-AllFresh string_me g i out k [] l o f = tt
spoken-AllFresh string_me g i out k (q ∷ qs) l (ne, o) ((j, e, z, new), f) =
    ((j, l.others q.from_server ne ∙ e, z, new), spoken-AllFresh string_me g i out k qs l o f)

-- A message of another server acknowledges its own index at most.
settled-AllFresh :
    (r : ClientRequest) (qs : List ClientRequest) (g : Group) (out : Inserted)
    → Fresh r g
    → ApartFrom r qs
    → Settles true r g out
    → AllFresh qs g
    → AllFresh qs out.group
settled-AllFresh r qs g out f apart (inl (n, same)) = step-AllFresh r qs g out f apart (inl same)
settled-AllFresh r qs g out f apart (inr acks) = step-AllFresh r qs g out f apart (inr acks)

-- Whatever the order in which clients say something and messages of other servers arrive and are inserted
-- as Merge does it, the server handles them all without a panic, and the group's messages and timestamp are
-- what the events make of them. The conditions: each message that arrives comes from a server of which the
-- group has a record; what is acknowledged to it at the start is not negative and below the message's
-- index; no two that arrive have the index of one message, none is of this server, no timestamp is used up,
-- no message overtakes the last that it finds, and the count stays an int32.
pub serve-Sound :
    (me : ℤ) (string_me : Str) (es : List Event) (v : View) (g : Group) (h : Heap)
    → Sound string_me v g h
    → AllFresh (arrivals es) g
    → AllApart (arrivals es)
    → FromOthers string_me (arrivals es)
    → Calm me es v
    → length v.all + length es < 2147483647
    → Returns (Sound string_me (hear_all me es v)) (serve me string_me es g h)
unfolding serve
serve-Sound me string_me [] v g h s fresh apart away calm fits = returns s
serve-Sound me string_me (spoken r ∷ es) v g h s fresh apart away calm fits =
    let (i, here) = s.here in
    Returns.bind
      (both (step-spoken me string_me v g h r s calm.0 (omega arith))
        (append_message-Logged me string_me r g h i here))
      λ out k (t, logged).
        serve-Sound me string_me es (hear me (spoken r) v) out.0 k t
          (spoken-AllFresh string_me g i out k (arrivals es) logged away fresh) apart away calm.1
          (omega (arith, length-hear me (spoken r) v))
serve-Sound me string_me (received r ∷ es) v g h s fresh apart away calm fits =
    Returns.bind (step-received me string_me v g h r s fresh.0 calm.0 (omega arith))
      λ out k (t, settles).
        serve-Sound me string_me es (hear me (received r) v) out.group k t
          (settled-AllFresh r (arrivals es) g out fresh.0 apart.0 settles fresh.1) apart.1 away.1
          calm.1 (omega (arith, length-hear me (received r) v))
