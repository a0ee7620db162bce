-- ===== src/Placement/Acknowledge.antt =====
-- The record that a message of another server was received, and UpdateGroupLamport: what they leave
-- alone.
use selected_course_projects.Prelude.{
  ◌≡◌, refl, Bool, true, false, none, some, inl, inr, arith, ◌⊎◌, Bool-cases, Option-cases,
}
use selected_course_projects.Prelude.Int.{ℤ}
use selected_course_projects.Prelude.Map.{lookup, insert, lookup-insert}
use selected_course_projects.Prelude.Text.{Str, str_eq, beq_str}
use selected_course_projects.Exec.{ok}
use selected_course_projects.Data.{Ptr, LinkedList, Message, Information, Group, ClientRequest}
use selected_course_projects.Heap.{Heap}
use selected_course_projects.LinkedList.{new_message}
use selected_course_projects.Placement.{acknowledge, record_message, update_group_lamport}

-- the message of the new node
abbrev pub created : ClientRequest → Message
created r = new_message r.timestamp r.replica r.user_name r.content r.like_number

-- The server that the request names is known, where the request is to be acknowledged.
abbrev pub KnowsServer : Bool → ClientRequest → Group → Type 0
KnowsServer flag2 r g =
    (flag2 ≡ false) ⊎ ((i : Information) × (lookup r.from_server g.replica_info ≡ some i))

unfoldable pub acknowledged : Bool → ClientRequest → Ptr → Group → Group
acknowledged false r p g = g
acknowledged true r p g = elim (lookup r.from_server g.replica_info) [
  | none ↦ g
  | some i ↦ record g { replica_info = insert r.from_server (record_message r p i) g.replica_info }
]

pub acknowledge_lem :
    (flag2 : Bool) (r : ClientRequest) (p : Ptr) (g : Group) (h : Heap)
    → KnowsServer flag2 r g
    → acknowledge flag2 r p g h ≡ ok (acknowledged flag2 r p g) h
unfolding acknowledge acknowledged
acknowledge_lem false r p g h k = refl
acknowledge_lem true r p g h (inl e) = cc
acknowledge_lem true r p g h (inr (i, e)) = ground arith

pub list-acknowledged :
    (flag2 : Bool) (r : ClientRequest) (p : Ptr) (g : Group)
    → (acknowledged flag2 r p g).message_list ≡ g.message_list
unfolding acknowledged
list-acknowledged flag2 r p g = ground arith

pub list-update_group_lamport :
    (g : Group) (t : ℤ) → (update_group_lamport g t).message_list ≡ g.message_list
unfolding update_group_lamport
list-update_group_lamport g t = ground arith

pub info-update_group_lamport :
    (g : Group) (t : ℤ) → (update_group_lamport g t).replica_info ≡ g.replica_info
unfolding update_group_lamport
info-update_group_lamport g t = ground arith

pub servers-acknowledged :
    (flag2 : Bool) (r : ClientRequest) (p : Ptr) (g : Group) (s : Str) (i : Information)
    → lookup s g.replica_info ≡ some i
    → (j : Information) × (lookup s (acknowledged flag2 r p g).replica_info ≡ some j)
unfolding acknowledged
servers-acknowledged false r p g s i e = (i, e)
servers-acknowledged true r p g s i e = elim (Option-cases (lookup r.from_server g.replica_info)) [
  | inl n ↦ (i, ground arith)
  | inr (j, f) ↦ elim (Bool-cases (beq_str r.from_server s)) [
    | inl b ↦ (
      record_message r p j,
      ground (arith, lookup-insert r.from_server s (record_message r p j) g.replica_info),
    )
    | inr b ↦
        (i, ground (arith, lookup-insert r.from_server s (record_message r p j) g.replica_info))
  ]
]

pub lamport-acknowledged :
    (flag2 : Bool) (r : ClientRequest) (p : Ptr) (g : Group)
    → (acknowledged flag2 r p g).max_lamport ≡ g.max_lamport
unfolding acknowledged
lamport-acknowledged flag2 r p g = ground arith

pub lamport-with_list :
    (g : Group) (t : ℤ) (l : LinkedList)
    → (update_group_lamport (record g { message_list = l }) t).max_lamport
      ≡ (update_group_lamport g t).max_lamport
unfolding update_group_lamport
lamport-with_list g t l = ground arith
