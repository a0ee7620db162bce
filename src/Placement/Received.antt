-- ===== src/Placement/Received.antt =====
-- The record of what was received, after the message branch of Insertion (chat_system/chat/replica.go).
use selected_course_projects.Prelude.{
  ◌≡◌, refl, ap, ◌∙◌, ◌⊎◌, inl, inr, Bool, true, false, none, arith, if◌then◌else◌, Bool-cases,
  Option-cases, ◌==◌,
}
use selected_course_projects.Prelude.Map.{lookup}
use selected_course_projects.Prelude.Text.{str_eq}
use selected_course_projects.Exec.Ends
use selected_course_projects.Exec.Ends.{Ends, ended, panicked, skip}
use selected_course_projects.Data.{Ptr, nil, Group, ClientRequest}
use selected_course_projects.Heap.{Heap, need, load, alloc, set_next}
use selected_course_projects.LinkedList.{update_ten_start, index_reorder}
use selected_course_projects.LinkedList.Cells.{message_node}
use selected_course_projects.Prelude.Int.{ℤ, inc32}
use selected_course_projects.Placement.{
  Inserted, acknowledge, update_group_lamport, insert_after_node, insert_at_head, put_message,
  redundant, insertion_message, lamport_place,
}
use selected_course_projects.Placement.Acknowledge.{
  acknowledged, acknowledge_lem, created, info-update_group_lamport,
}

info-acknowledged :
    (flag2 : Bool) (r : ClientRequest) (p : Ptr) (g g' : Group)
    → g.replica_info ≡ g'.replica_info
    → (acknowledged flag2 r p g).replica_info ≡ (acknowledged flag2 r p g').replica_info
unfolding acknowledged
info-acknowledged flag2 r p g g' e = ground arith

group_name-acknowledged :
    (flag2 : Bool) (r : ClientRequest) (p : Ptr) (g : Group)
    → (acknowledged flag2 r p g).group_name ≡ g.group_name
unfolding acknowledged
group_name-acknowledged flag2 r p g = ground arith

group_name-update_group_lamport :
    (g : Group) (t : ℤ) → (update_group_lamport g t).group_name ≡ g.group_name
unfolding update_group_lamport
group_name-update_group_lamport g t = ground arith

-- The participants and records of a group after a new node: the index is acknowledged for it. The group
-- keeps its name.
abbrev pub Acknowledges : Bool → ClientRequest → Group → Inserted → Type 0
Acknowledges flag2 r g out =
    (out.group.replica_info ≡ (acknowledged flag2 r out.node g).replica_info)
    × (out.group.group_name ≡ g.group_name)

acknowledge-Ends :
    (flag2 : Bool) (r : ClientRequest) (p : Ptr) (g : Group) (h : Heap)
    → Ends (λ g2 _. g2 ≡ acknowledged flag2 r p g) (acknowledge flag2 r p g h)
unfolding acknowledge acknowledged need
acknowledge-Ends false r p g h = ended refl
acknowledge-Ends true r p g h = elim (Option-cases (lookup r.from_server g.replica_info)) [
  | inl n ↦ rw n panicked
  | inr (i, e) ↦ rw (acknowledge_lem true r p g h (inr (i, e))) (ended refl)
]

module _ (flag2 : Bool) (r : ClientRequest) where
  insert_after_node-Acknowledges :
      (g : Group) (q : Ptr) (place : Bool) (h : Heap)
      → Ends (λ out _. Acknowledges flag2 r g out) (insert_after_node flag2 r g q place h)
  unfolding insert_after_node
  insert_after_node-Acknowledges g q place h =
      let g1 = update_group_lamport g r.timestamp in
      skip (load q h) λ n h1. skip (alloc (message_node (none, created r) nil) h1) λ p h2.
        skip (set_next q p h2) λ _ h3. skip (set_next p n.next h3) λ _ h4.
          skip
            (update_ten_start (record g1.message_list { count = inc32 g1.message_list.count }) p h4)
            λ l h5. skip (index_reorder l h5) λ _ h6.
              Ends.bind (acknowledge-Ends flag2 r p _ h6) λ g2 h7 e. ended (
                ap (λ (x : Group). x.replica_info) e
                    ∙ info-acknowledged flag2 r p _ g (info-update_group_lamport g r.timestamp),
                ap (λ (x : Group). x.group_name) e
                    ∙ group_name-acknowledged flag2 r p _
                    ∙ group_name-update_group_lamport g r.timestamp,
              )

  insert_at_head-Acknowledges :
      (g : Group) (h : Heap)
      → Ends (λ out _. Acknowledges flag2 r g out) (insert_at_head flag2 r g h)
  unfolding insert_at_head
  insert_at_head-Acknowledges g h =
      let l0 = g.message_list in
      skip (alloc (message_node (none, created r) l0.head) h) λ p h2.
        skip
          (update_ten_start
            (record l0 {
              count = inc32 l0.count;
              tail = if l0.head == nil then p else l0.tail;
              head = p;
            })
            p h2)
          λ l h5. skip (index_reorder l h5) λ _ h6.
            Ends.bind (acknowledge-Ends flag2 r p _ h6) λ g2 h7 e. ended (
              ap (λ (x : Group). x.replica_info) e
                  ∙ info-acknowledged flag2 r p _ g
                      (info-update_group_lamport (record g { message_list = l }) r.timestamp),
              ap (λ (x : Group). x.group_name) e
                  ∙ group_name-acknowledged flag2 r p _
                  ∙ group_name-update_group_lamport (record g { message_list = l }) r.timestamp,
            )

  -- The group afterwards: unchanged where no node is returned, and else with the acknowledged index.
  abbrev pub Settles : Group → Inserted → Type 0
  Settles g out = ((out.node ≡ nil) × (out.group ≡ g)) ⊎ Acknowledges flag2 r g out

  put_message-Settles :
      (g : Group) (q : Ptr) (place : Bool) (h : Heap)
      → Ends (λ out _. Settles g out) (put_message flag2 r g q place h)
  unfolding put_message
  put_message-Settles g q place h = elim (Bool-cases (q == nil)) [
    | inl e ↦ elim (Bool-cases place) [
      | inl b ↦ rw (e, b) (Ends.weaken (insert_at_head-Acknowledges g h) λ _ _ a. inr a)
      | inr b ↦ rw (e, b) (ended (inl (refl, refl)))
    ]
    | inr e ↦ rw e (Ends.weaken (insert_after_node-Acknowledges g q place h) λ _ _ a. inr a)
  ]

  pub insertion_message-Settles :
      (g : Group) (h : Heap) → Ends (λ out _. Settles g out) (insertion_message flag2 r g h)
  unfolding insertion_message
  insertion_message-Settles g h = skip (redundant flag2 r g h) λ old h1. elim (Bool-cases old) [
    | inl b ↦ rw b (ended (inl (refl, refl)))
    | inr b ↦ rw b (skip (lamport_place r g h1) λ out k. put_message-Settles g out.0 out.1 k)
  ]
