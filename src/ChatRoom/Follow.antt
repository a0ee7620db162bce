-- ===== src/ChatRoom/Follow.antt =====
-- The group that ChatRoom of chat_system/chat/chatserver.go holds for a connection.
use selected_course_projects.Prelude.{◌≡◌, refl, ℕ, true, false, Option, none, some, if◌then◌else◌}
use selected_course_projects.Prelude.Text.{Str, str, beq_str, beq_str_iff}
use selected_course_projects.Exec.{Exec, pure}
use selected_course_projects.Exec.Ends.{Ends, ended, skip, branch}
use selected_course_projects.Data.{ClientRequest}
use selected_course_projects.Network.{Transport, World, on_server, outside}
use selected_course_projects.ChatRoom.{handle, handle_other}
use selected_course_projects.ChatServer.{change_identity, join, switch, the_group, user_login}
use selected_course_projects.ChatRoom.Sending.{broadcast_to_clients, tell_members, changed_members}
use selected_course_projects.ChatRoom.Handlers.{Session, handle_change, handle_join, handle_switch}

-- the group of a connection after a request, from the group before it
unfoldable pub group_after : ClientRequest → Option Str → Option Str
group_after r group =
    if beq_str r.request (str "j")
    then some r.ori_group_name
    else if beq_str r.request (str "s")
    then some r.new_group_name
    else group

-- a request that neither joins nor switches
group_after_other :
    (r : ClientRequest) (word : Str) (group : Option Str)
    → beq_str r.request word ≡ true
    → beq_str word (str "j") ≡ false
    → beq_str word (str "s") ≡ false
    → group ≡ group_after r group
unfolding group_after
group_after_other r word group e j s = rw ((beq_str_iff r.request word).0 e, j, s) refl

group_after_join :
    (r : ClientRequest) (group : Option Str)
    → beq_str r.request (str "j") ≡ true
    → some r.ori_group_name ≡ group_after r group
unfolding group_after
group_after_join r group e = rw e refl

group_after_switch :
    (r : ClientRequest) (group : Option Str)
    → beq_str r.request (str "j") ≡ false
    → beq_str r.request (str "s") ≡ true
    → some r.new_group_name ≡ group_after r group
unfolding group_after
group_after_switch r group j e = rw (j, e) refl

group_after_none :
    (r : ClientRequest) (group : Option Str)
    → beq_str r.request (str "j") ≡ false
    → beq_str r.request (str "s") ≡ false
    → group ≡ group_after r group
unfolding group_after
group_after_none r group j s = rw (j, s) refl

module _ {W : Type 0} (t : Transport W) (r : ClientRequest) (s : Session) where
  -- the connection's group is the one that the request asks for
  abbrev pub Heeds : Session → World W → Type 0
  Heeds s' w = s'.this_client_group ≡ group_after r s.this_client_group

  handle_change-Heeds :
      (ct : ℕ) (w : World W)
      → beq_str r.request (str "change") ≡ true
      → Ends Heeds (handle_change t ct r s w)
  unfolding handle_change beq_str
  handle_change-Heeds ct w e = skip (on_server (change_identity r) w) λ a w1.
      skip (outside (t.reply ct a.0) w1) λ _ w2.
        skip
          (elim a.1 as (λ _. Exec (World W) (Unit {0})) [
            | none ↦ pure tt
            | some g ↦ changed_members t g
          ]
            w2)
          λ _ w3.
            ended {a = record s { this_name = r.user_name }} {s = w3}
              (group_after_other r (str "change") s.this_client_group e refl refl)

  handle_join-Heeds :
      (ct : ℕ) (w : World W)
      → beq_str r.request (str "j") ≡ true
      → Ends Heeds (handle_join t ct r s w)
  unfolding handle_join
  handle_join-Heeds ct w e = skip (on_server (join r ct) w) λ g w1.
      skip (broadcast_to_clients t g w1) λ _ w2.
        skip (tell_members t r.ori_group_name g w2)
          λ _ w3. ended (group_after_join r s.this_client_group e)

  handle_switch-Heeds :
      (w : World W)
      → beq_str r.request (str "j") ≡ false
      → beq_str r.request (str "s") ≡ true
      → Ends Heeds (handle_switch t r s w)
  unfolding handle_switch
  handle_switch-Heeds w j e = skip (on_server (switch r) w) λ _ w1.
      skip (on_server (the_group r.ori_group_name) w1) λ old w2.
        skip (on_server (the_group r.new_group_name) w2) λ new w3.
          skip (broadcast_to_clients t new w3) λ _ w4. skip (broadcast_to_clients t old w4) λ _ w5.
            skip (tell_members t old.group_name old w5) λ _ w6.
              skip (tell_members t new.group_name new w6)
                λ _ w7. ended (group_after_switch r s.this_client_group j e)

  -- Whatever a request does, the connection's group is the one that the request asks for.
  pub handle-Heeds : (ct : ℕ) (w : World W) → Ends Heeds (handle t ct r s w)
  unfolding handle beq_str
  handle-Heeds ct w =
      let is = beq_str r.request in
      branch (is (str "u")) _ _
        (λ e. skip (on_server (user_login r) w) λ a w1. skip (outside (t.reply ct a.0) w1) λ _ w2.
          ended {a = record s { this_name = r.user_name; this_user_id = a.1 }} {s = w2}
            (group_after_other r (str "u") s.this_client_group e refl refl))
        λ _.
          branch (is (str "change")) _ _ (λ e. handle_change-Heeds ct w e)
            λ _.
              branch (is (str "j")) _ _ (λ e. handle_join-Heeds ct w e)
                λ j.
                  branch (is (str "s")) _ _ (λ e. handle_switch-Heeds w j e)
                    λ k.
                      branch (is (str "ReplicaSetUp")) _ _
                        (λ _. ended (group_after_none r s.this_client_group j k))
                        λ _.
                          skip (handle_other t ct r w)
                            λ _ w1. ended (group_after_none r s.this_client_group j k)
