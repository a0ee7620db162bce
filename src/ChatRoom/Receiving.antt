-- ===== src/ChatRoom/Receiving.antt =====
-- The request UpdateMsg of ChatRoom (chat_system/chat/chatserver.go): a message of another replica, from
-- Merge of chat_system/chat/replica.go to the screens of the clients.
use selected_course_projects.Prelude.{
  ℕ, suc, ◌<◌, ◌≡◌, refl, sym, subst, ap, ◌∙◌, true, ◌||◌, not, some, length, inl, inr, Bool-cases,
  Option-cases, arith,
}
use selected_course_projects.Prelude.Map.{lookup, lookup-insert, lookup-insert_self}
use selected_course_projects.Prelude.Text.{Str, str, str_eq, beq_str, beq_str_iff}
use selected_course_projects.Exec.{ok}
use selected_course_projects.Exec.Returns
use selected_course_projects.Exec.Returns.{Returns, returns}
use selected_course_projects.Exec.Ends.{both}
use selected_course_projects.Data.{Ptr, Group, ClientRequest}
use selected_course_projects.Heap.{Heap, need}
use selected_course_projects.LinkedList.Cells.{Cells, length-messages}
use selected_course_projects.LinkedList.IsList.{IsList}
use selected_course_projects.Groups.{name_merge}
use selected_course_projects.Groups.SameNames.{names_of, SameNames, name_merge-SameNames}
use selected_course_projects.Placement.{Inserted, insertion_message, record_message}
use selected_course_projects.Placement.Acknowledge.{acknowledged}
use selected_course_projects.Placement.Merge.{Ascending, known}
use selected_course_projects.Placement.Received.{Settles, insertion_message-Settles}
use selected_course_projects.Placement.Refines.{IsNew, insertion_message-merge}
use selected_course_projects.Placement.Represents.{overtakes}
use selected_course_projects.Replica.{Flag}
use selected_course_projects.Replica.Messages.{merge_lem}
use selected_course_projects.Network.{Transport, World}
use selected_course_projects.ChatServer.{the_group}
use selected_course_projects.ChatServer.Events.{View, hear, received, Sound}
use selected_course_projects.ChatServer.Interleave.{received-Sound}
use selected_course_projects.ChatRoom.Holding.{Holds, Spares, with_group, Calm-Holds}
use selected_course_projects.ChatRoom.Showing.{flush_screen-OnlyShows}
use selected_course_projects.ChatRoom.{handle, handle_other}
use selected_course_projects.ChatRoom.Handlers.{Session, handle_merge}

-- An acknowledged index leaves the names of the participants alone.
acknowledged-SameNames :
    (r : ClientRequest) (p : Ptr) (g g' : Group)
    → g'.replica_info ≡ (acknowledged true r p g).replica_info
    → SameNames g g'
unfolding acknowledged record_message
acknowledged-SameNames r p g g' e s =
    let same = ap (λ x. names_of (lookup s x)) e in
    elim (Option-cases (lookup r.from_server g.replica_info)) [
      | inl n ↦ same ∙ rw (acknowledged, n) refl
      | inr (i, f) ↦
          let put = lookup-insert r.from_server s (record_message r p i) g.replica_info in
          elim (Bool-cases (beq_str r.from_server s)) [
            | inl b ↦
                let at : lookup s g.replica_info ≡ some i =
                  subst (λ x. lookup x g.replica_info ≡ some i) ((beq_str_iff r.from_server s).0 b)
                    f in
                same ∙ rw (acknowledged, f, put, b, at) refl
            | inr b ↦ same ∙ rw (acknowledged, f, put, b) refl
          ]
    ]

pub Settles-SameNames :
    (r : ClientRequest) (g : Group) (out : Inserted) → Settles true r g out → SameNames g out.group
Settles-SameNames r g out (inl (n, e)) = λ s. rw e refl
Settles-SameNames r g out (inr (e, _)) = acknowledged-SameNames r out.node g out.group e

pub Settles-titled :
    (r : ClientRequest) (g : Group) (out : Inserted)
    → Settles true r g out
    → out.group.group_name ≡ g.group_name
Settles-titled r g out (inl (n, e)) = rw e refl
Settles-titled r g out (inr (_, e)) = e

module _ {W : Type 0} (t : Transport W) where
  -- What handle_merge does with a message once Insertion has returned.
  pub handle_merge_lem :
      (r : ClientRequest) (w : World W) (g : Group) (out : Inserted) (k : Heap) (cs : Cells)
      (names : Str)
      → lookup r.ori_group_name w.server.group_map ≡ some g
      → insertion_message true r g w.server.heap ≡ ok out k
      → IsList k out.group.message_list cs
      → name_merge out.group ≡ some names
      → out.group.group_name ≡ r.ori_group_name
      → (n : W) × (handle_merge t Flag.message_flag r w
          ≡ ok tt (record (with_group r.ori_group_name out.group k w) { net = n }))
  unfolding handle_merge the_group need
  handle_merge_lem r w g out k cs names found run is participants titled =
      let w1 : World W = with_group r.ori_group_name out.group k w in
      let entry = lookup-insert_self r.ori_group_name out.group w.server.group_map in
      let merged = merge_lem r w.server g out k found run in
      let (n, shown) =
        flush_screen-OnlyShows t out.group w1 cs names
          (subst (λ x. lookup x w1.server.group_map ≡ some out.group) (sym titled) entry) is
          participants in
      elim (Bool-cases out.refresh) [
        | inl b ↦ (n, rw (handle_merge, merged, b, entry, shown) refl)
        | inr b ↦ (w.net, rw (handle_merge, merged, b) refl)
      ]

  -- A request UpdateMsg whose index is not acknowledged and whose message does not overtake the last is
  -- handled without a panic, whatever the network does: its group has the message, as the specification
  -- of a server's events has it, and can be shown and spoken to again. The session and the other groups are
  -- as they were, and no connection is forgotten, if the number of messages stays an int32.
  pub handle_merge-Holds :
      (ct : ℕ) (r : ClientRequest) (s : Session) (v : View) (w : World W) (names : Str) (g : Group)
      → r.request ≡ str "UpdateMsg"
      → Holds r.ori_group_name names w.server.string_me v g w.server
      → IsNew true r g
      → (known r v.all || not (overtakes r v.all)) ≡ true
      → suc (length v.all) < 2147483647
      → Returns
          (λ s' w'.
            (s' ≡ s)
            × ((g' : Group) × Holds r.ori_group_name names w.server.string_me
                  (hear w.server.me (received r) v)
                  g'
                  w'.server)
            × Spares r.ori_group_name w w')
          (handle t ct r s w)
  unfolding handle handle_other beq_str
  handle_merge-Holds ct r s v w names g u h new free fits =
      let q : ClientRequest = record r { request = str "UpdateMsg" } in
      let string_me = w.server.string_me in
      let a = h.sound in
      let free' : (known q v.all || not (overtakes q v.all)) ≡ true =
        subst (λ x. (known x v.all || not (overtakes x v.all)) ≡ true)
          (ap (λ x. record r { request = x }) u) free in
      let (out, k, run, (m, settles)) = Returns.result (
        both
          (insertion_message-merge true q g w.server.heap a.cells a.list a.tail
            (subst Ascending (sym a.stands) a.ascending) new
            (omega (arith, length-messages a.cells, ap length a.stands)))
          (insertion_message-Settles true q g w.server.heap)) in
      let sound : Sound string_me (hear w.server.me (received q) v) out.group k =
        received-Sound w.server.me string_me v g w.server.heap q out k a free' m in
      let participants : name_merge out.group ≡ some names =
        name_merge-SameNames g out.group (Settles-SameNames q g out settles) ∙ h.participants in
      let titled : out.group.group_name ≡ r.ori_group_name =
        Settles-titled q g out settles ∙ h.titled in
      let (n, shown) =
        handle_merge_lem q w g out k sound.cells names h.entry run sound.list participants titled in
      let w1 : World W = with_group r.ori_group_name out.group k w in
      let (holds, spares) =
        Calm-Holds r.ori_group_name names string_me (hear w.server.me (received q) v) out.group k w
          (record w1 { net = n }) titled sound participants (refl, λ x c. c) in
      rw (handle, handle_other, u, shown) (returns (refl, (out.group, holds), spares))
