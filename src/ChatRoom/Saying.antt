-- ===== src/ChatRoom/Saying.antt =====
-- The request a of ChatRoom (chat_system/chat/chatserver.go), from the message of a client to what the
-- clients and the other replicas are sent.
use selected_course_projects.Prelude.{
  ℕ, suc, ◌<◌, ◌≡◌, refl, sym, ap, ◌∙◌, false, some, List, [], ◌∷◌, ◌++◌, length, inl, inr,
  Bool-cases, arith, length-append,
}
use selected_course_projects.Prelude.Int.{int_eq, pos, ◌<ℤ◌}
use selected_course_projects.Prelude.Map.{lookup}
use selected_course_projects.Prelude.Text.{Str, str, str_eq, beq_str, beq_str_iff}
use selected_course_projects.Exec.{ok}
use selected_course_projects.Exec.Returns
use selected_course_projects.Exec.Returns.{Returns, returns}
use selected_course_projects.Exec.Ends.{both}
use selected_course_projects.Data.{Message, Information, Group, ClientRequest}
use selected_course_projects.Heap.{Heap, need}
use selected_course_projects.LinkedList.Cells.{Cells, messages}
use selected_course_projects.LinkedList.IsList.{IsList, is_empty}
use selected_course_projects.Groups.{name_merge}
use selected_course_projects.Groups.SameNames.{names_of, SameNames, name_merge-SameNames}
use selected_course_projects.Network.{Transport, World, on_server, replica_broadcast}
use selected_course_projects.Network.Broadcast.{replica_broadcast-Calm}
use selected_course_projects.ChatServer.{the_group, request_append, append_message}
use selected_course_projects.ChatServer.Events.{View, hear, spoken}
use selected_course_projects.ChatServer.Interleave.{step-spoken}
use selected_course_projects.ChatServer.Logged.{Logged, append_message-Logged}
use selected_course_projects.ChatRoom.Holding.{Holds, Spares, with_group, Calm-Holds}
use selected_course_projects.ChatRoom.Showing.{broadcast_to_clients-OnlyShows}
use selected_course_projects.ChatRoom.{handle, handle_other}
use selected_course_projects.ChatRoom.Sending.{appended}
use selected_course_projects.ChatRoom.Handlers.{Session, handle_append}

pub full_lem :
    (cs : Cells) (ms : List Message) (m : Message)
    → messages cs ≡ ms ++ m ∷ []
    → is_empty cs ≡ false
full_lem [] ms m e = absurd (omega (arith, ap length e, length-append ms))
full_lem (c ∷ cs) ms m e = refl

pub Logged-SameNames :
    (string_me : Str) (g : Group) (i : Information) (out : Group × Message) (k : Heap)
    → lookup string_me g.replica_info ≡ some i
    → Logged string_me g i out k
    → SameNames g out.0
Logged-SameNames string_me g i out k e l s = elim (Bool-cases (beq_str string_me s)) [
  | inl b ↦
      rw (sym ((beq_str_iff string_me s).0 b), ap names_of l.known, ap names_of e, l.user_list) refl
  | inr b ↦ ap names_of (l.others s b)
]

module _ {W : Type 0} (t : Transport W) (r : ClientRequest) (w : World W) (g : Group)
    (out : Group × Message) (k : Heap) (found : lookup r.ori_group_name w.server.group_map ≡ some g)
    (run : append_message w.server.me w.server.string_me r g w.server.heap ≡ ok out k) where
  request_append_lem :
      on_server (request_append r) w ≡ ok out (with_group r.ori_group_name out.0 k w)
  unfolding request_append the_group need
  request_append_lem = rw (found, run) refl

  pub handle_append_lem :
      (cs : Cells) (names : Str) (info : Information)
      → IsList k out.0.message_list cs
      → is_empty cs ≡ false
      → name_merge out.0 ≡ some names
      → lookup w.server.string_me out.0.replica_info ≡ some info
      → (n : W) × (handle_append t r w
          ≡ replica_broadcast t
              (appended w.server.me w.server.string_me r out.0 out.1 info)
              (record (with_group r.ori_group_name out.0 k w) { net = n }))
  unfolding handle_append need
  handle_append_lem cs names info is full participants known =
      let (n, shown) =
        broadcast_to_clients-OnlyShows t out.0 (with_group r.ori_group_name out.0 k w) cs names is
          full participants in
      (n, rw (handle_append, request_append_lem, shown, known) refl)

module _ {W : Type 0} (t : Transport W) where
  -- A request a is handled without a panic, whatever the network does: its group has the message, as the
  -- specification of a server's events has it, and can be shown and spoken to again. The session and the
  -- other groups are as they were, and no connection is forgotten, if the numbers stay int32.
  pub handle_append-Holds :
      (ct : ℕ) (r : ClientRequest) (s : Session) (v : View) (w : World W) (names : Str) (g : Group)
      → r.request ≡ str "a"
      → Holds r.ori_group_name names w.server.string_me v g w.server
      → v.lamport <ℤ pos 2147483647
      → suc (length v.all) < 2147483647
      → Returns
          (λ s' w'.
            (s' ≡ s)
            × ((g' : Group) × Holds r.ori_group_name names w.server.string_me
                  (hear w.server.me (spoken r) v)
                  g'
                  w'.server)
            × Spares r.ori_group_name w w')
          (handle t ct r s w)
  unfolding handle handle_other beq_str
  handle_append-Holds ct r s v w names g a h top fits =
      let me = w.server.me in
      let string_me = w.server.string_me in
      let q : ClientRequest = record r { request = str "a" } in
      let (i, here) = h.sound.here in
      let (out, k, run, (sound, logged)) = Returns.result (
        both (step-spoken me string_me v g w.server.heap q h.sound top fits)
          (append_message-Logged me string_me q g w.server.heap i here)) in
      let participants : name_merge out.0 ≡ some names =
        name_merge-SameNames g out.0 (Logged-SameNames string_me g i out k here logged)
        ∙ h.participants in
      let (n, shown) =
        handle_append_lem t q w g out k h.entry run sound.cells names logged.info sound.list
          (full_lem sound.cells v.all _ sound.stands) participants logged.known in
      let w1 : World W = with_group r.ori_group_name out.0 k w in
      rw (handle, handle_other, a, shown)
        (Returns.bind (replica_broadcast-Calm t _ (record w1 { net = n })) λ _ w2 calm.
          let (holds, spares) =
            Calm-Holds r.ori_group_name names string_me (hear me (spoken r) v) out.0 k w w2
              (logged.titled ∙ h.titled) sound participants calm in
          returns (refl, (out.0, holds), spares))
