-- ===== src/Placement/Behind.antt =====
-- The insertion of a message behind a node.
use selected_course_projects.Prelude.{
  suc, ◌+◌, ◌<◌, ◌≡◌, sym, ap, ◌∙◌, Bool, true, false, none, some, arith, length, ◌==◌,
  if◌then◌else◌,
}
use selected_course_projects.Prelude.Int.{pos, inc32}
use selected_course_projects.Prelude.Text.{str_eq}
use selected_course_projects.Exec.Returns
use selected_course_projects.Exec.Returns.{Returns, returns}
use selected_course_projects.Data.{Ptr, nil, LinkedList, Group, ClientRequest}
use selected_course_projects.Heap.{Heap, write, alloc}
use selected_course_projects.Heap.Access.{load_lem, set_next_lem}
use selected_course_projects.Heap.Chain.{
  Chain, Chain-at, Chain-insert_after, has, first, insert_after, fresh-not-mem, has-insert_after,
  first-insert_after, ne_of_mem, ne_of_mem_sym,
}
use selected_course_projects.LinkedList.Cells.{Payload, message_node, Cells}
use selected_course_projects.LinkedList.IsList.{IsList}
use selected_course_projects.Placement.{Inserted, update_group_lamport, insert_after_node}
use selected_course_projects.Placement.Acknowledge.{
  created, KnowsServer, acknowledged, list-acknowledged, list-update_group_lamport,
  info-update_group_lamport, servers-acknowledged, lamport-acknowledged,
}
use selected_course_projects.Placement.Insertion.{
  length-insert_after, has-insert_after_of_mem, window_of_mem, inc32-count,
  knows-update_group_lamport, has-insert_after_self, Grown, settle, settled-IsList,
}

-- the group that insertion behind a node returns
abbrev behind_group : Bool → Ptr → Group → Group
behind_group place p g2 = record g2 {
  message_list = if place then g2.message_list else record g2.message_list { tail = p };
}

-- its list, but for the tail that of the group before
behind_group_list :
    (place : Bool) (p : Ptr) (g2 : Group) (l : LinkedList)
    → g2.message_list ≡ l
    → ((behind_group place p g2).message_list.head ≡ l.head)
      × ((behind_group place p g2).message_list.count ≡ l.count)
      × ((behind_group place p g2).message_list.ten_start ≡ l.ten_start)
      × ((behind_group place p g2).message_list.tail ≡ (if place then l.tail else p))
behind_group_list true p g2 l e = ground arith
behind_group_list false p g2 l e = ground arith

module _ (flag2 : Bool) (r : ClientRequest) (g : Group) (h : Heap) (cs : Cells) where
  -- The heap with the new node, once it is behind `q`, and once it is in front of `next`.
  abbrev added : Heap
  added = record (write h h.fresh (message_node (none, created r) nil)) { fresh = suc h.fresh }

  abbrev behind : (q : Ptr) → (a : Payload) → Heap
  behind q a = write added q (message_node a h.fresh)

  abbrev linked : (q : Ptr) → (a : Payload) → (next : Ptr) → Heap
  linked q a next = write (behind q a) h.fresh (message_node (none, created r) next)

  linked-Chain :
      (q : Ptr) (a : Payload) (next : Ptr)
      → Chain message_node h cs
      → has q cs ≡ true
      → h.cell q ≡ some (message_node a next)
      → 0 < h.fresh
      → Chain message_node (linked q a next) (insert_after q (h.fresh, (none, created r)) cs)
  unfolding write
  linked-Chain q a next c mq at pos_fresh =
      let out : has h.fresh cs ≡ false = fresh-not-mem message_node h h.fresh cs c (omega arith) in
      let apart : (q == h.fresh) ≡ false = ne_of_mem_sym h.fresh q cs out mq in
      Chain-insert_after message_node h (linked q a next) q h.fresh (none, created r) cs c mq out
        (omega arith) (ground arith) (ground arith)
        (λ s i d. ground (arith, ne_of_mem_sym h.fresh s cs out i))
        (λ b e at'. (ground arith, ground arith))

  -- Insertion behind a node of the list returns; the new node stands there, and the list is
  -- well formed. Only the tail depends on the flag.
  pub insert_after_node_lem :
      (q : Ptr) (place : Bool)
      → IsList h g.message_list cs
      → KnowsServer flag2 r g
      → has q cs ≡ true
      → suc (length cs) < 2147483647
      → Returns
          (Grown r g h cs
            (insert_after q (h.fresh, (none, created r)) cs)
            (if place then g.message_list.tail else h.fresh))
          (insert_after_node flag2 r g q place h)
  unfolding insert_after_node alloc write
  insert_after_node_lem q place is knows mq fits =
      let (a, next, ne, at) = Chain-at message_node h q cs is.chain mq in
      let out : has h.fresh cs ≡ false =
        fresh-not-mem message_node h h.fresh cs is.chain (omega arith) in
      let apart : (q == h.fresh) ≡ false = ne_of_mem_sym h.fresh q cs out mq in
      let b : Payload = (none, created r) in
      let ds = insert_after q (h.fresh, b) cs in
      let g1 = update_group_lamport g r.timestamp in
      let kept : g1.message_list ≡ g.message_list = list-update_group_lamport g r.timestamp in
      let l1 : LinkedList = record g1.message_list { count = inc32 g1.message_list.count } in
      let len : length ds ≡ length cs + 1 = length-insert_after q (h.fresh, b) cs mq in
      let head : l1.head ≡ first ds =
        ap (λ (l : LinkedList). l.head) kept
        ∙ is.head
        ∙ sym (first-insert_after q (h.fresh, b) cs) in
      let start : has g1.message_list.ten_start cs ≡ true =
        rw kept (window_of_mem q g.message_list.ten_start cs mq is.window) in
      let count : l1.count ≡ pos (length ds) =
        inc32-count g1.message_list.count (length cs) (length ds)
          (ap (λ (l : LinkedList). l.count) kept ∙ is.count) len is.fits in
      rw
        (
          load_lem h q ne at,
          set_next_lem added q {n = message_node a next} ne (ground arith) h.fresh,
          set_next_lem (behind q a) h.fresh {n = message_node b nil} (omega arith) (ground arith)
              next,
        )
        (Returns.weaken
          (settle flag2 r g h cs (linked q a next) ds l1 h.fresh
            (λ l. record g1 { message_list = l })
            (λ g2. record { node = h.fresh; refresh = true; group = behind_group place h.fresh g2 })
            (linked-Chain q a next is.chain mq at (omega arith)) head
            (has-insert_after_self q h.fresh b cs mq)
            (λ _. has-insert_after_of_mem _ q (h.fresh, b) cs start) (omega arith)
            (λ l. knows-update_group_lamport flag2 r g r.timestamp l knows))
          λ o k' (l, w, e, v).
            let g2 = acknowledged flag2 r h.fresh (record g1 { message_list = l }) in
            let (eh, ec, et, tl) =
              behind_group_list place h.fresh g2 l (list-acknowledged flag2 r h.fresh _) in
            let eg : o.group.message_list ≡ (behind_group place h.fresh g2).message_list =
              ap (λ (x : Inserted). x.group.message_list) e in
            record {
              node = ap (λ (x : Inserted). x.node) e;
              refresh = ap (λ (x : Inserted). x.refresh) e;
              list =
                  settled-IsList flag2 r g h cs (linked q a next) k' ds l1 l o.group.message_list w
                    v head count (omega arith) (omega arith)
                    (ap (λ (x : LinkedList). x.head) eg ∙ eh)
                    (ap (λ (x : LinkedList). x.count) eg ∙ ec)
                    (ap (λ (x : LinkedList). x.ten_start) eg ∙ et);
              tail_is =
                  ap (λ (x : LinkedList). x.tail) eg
                  ∙ tl
                  ∙ ap (λ (t : Ptr). if place then t else h.fresh)
                      (w.tail ∙ ap (λ (x : LinkedList). x.tail) kept);
              outside = λ s so sd.
                  v.outside s (has-insert_after s q h.fresh b cs (ground arith) ∙ so)
                  ∙ ground (arith, sd, ne_of_mem s q cs so mq);
              servers = λ t i f.
                  let (j, f') =
                    servers-acknowledged flag2 r h.fresh (record g1 { message_list = l }) t i
                      (rw (info-update_group_lamport g r.timestamp) f) in
                  (j, rw e f');
              lamport =
                  ap (λ (x : Inserted). x.group.max_lamport) e
                  ∙ lamport-acknowledged flag2 r h.fresh (record g1 { message_list = l });
            })
