-- ===== src/Placement/AtHead.antt =====
-- The insertion of a message at the head.
use selected_course_projects.Prelude.{
  suc, ◌<◌, ◌≡◌, refl, ap, ◌∙◌, Bool, true, false, ◌||◌, none, [], ◌∷◌, arith, length, ◌==◌,
  if◌then◌else◌,
}
use selected_course_projects.Prelude.Int.{ℤ, pos, inc32, leb_ℤ}
use selected_course_projects.Prelude.Text.{str_eq}
use selected_course_projects.Exec.Returns
use selected_course_projects.Exec.Returns.{Returns, returns}
use selected_course_projects.Data.{Ptr, nil, LinkedList, Group, ClientRequest}
use selected_course_projects.Heap.{Heap, write, alloc}
use selected_course_projects.Heap.Chain.{Chain, has, first, frame, fresh-not-mem, ne_of_mem_sym}
use selected_course_projects.LinkedList.Cells.{Payload, message_node, Cells}
use selected_course_projects.LinkedList.IsList.{IsList, is_empty}
use selected_course_projects.Placement.{Inserted, update_group_lamport, insert_at_head}
use selected_course_projects.Placement.Acknowledge.{
  created, KnowsServer, list-acknowledged, list-update_group_lamport, info-update_group_lamport,
  servers-acknowledged, lamport-acknowledged, lamport-with_list,
}
use selected_course_projects.Placement.Insertion.{inc32-count, Grown, settle, settled-IsList}

-- The head is nil exactly for an empty list.
pub head_nil :
    (h : Heap) (p : Ptr) (cs : Cells)
    → Chain message_node h cs
    → p ≡ first cs
    → (p == nil) ≡ is_empty cs
head_nil h p [] c e = rw e
head_nil h p ((q, a) ∷ cs) c e = ground arith

-- A list of more than ten messages has had a window.
window_cons :
    (p t : Ptr) (b : Payload) (count : ℤ) (cs : Cells)
    → (is_empty cs || has t cs) ≡ true
    → count ≡ pos (suc (length cs))
    → leb_ℤ count (pos 10) ≡ false
    → has t ((p, b) ∷ cs) ≡ true
window_cons p t b count [] w e many = absurd (ground arith)
window_cons p t b count (c ∷ cs) w e many = ground arith

module _ (flag2 : Bool) (r : ClientRequest) (g : Group) (h : Heap) (cs : Cells) where
  -- Insertion at the head returns; the new node stands there, and the list is well formed.
  pub insert_at_head_lem :
      IsList h g.message_list cs
      → KnowsServer flag2 r g
      → suc (length cs) < 2147483647
      → Returns
          (Grown r g h cs
            ((h.fresh, (none, created r)) ∷ cs)
            (if is_empty cs then h.fresh else g.message_list.tail))
          (insert_at_head flag2 r g h)
  unfolding insert_at_head alloc write
  insert_at_head_lem is knows fits =
      let b : Payload = (none, created r) in
      let ds : Cells = (h.fresh, b) ∷ cs in
      let k : Heap = record (write h h.fresh (message_node b g.message_list.head)) {
        fresh = suc h.fresh;
      } in
      let out : has h.fresh cs ≡ false =
        fresh-not-mem message_node h h.fresh cs is.chain (omega arith) in
      let chain : Chain message_node k ds = (
        omega arith,
        omega arith,
        ground (arith, is.head),
        out,
        frame message_node h k cs is.chain (omega arith)
            λ s i. ground (arith, ne_of_mem_sym h.fresh s cs out i),
      ) in
      let empty_is : (g.message_list.head == nil) ≡ is_empty cs =
        head_nil h g.message_list.head cs is.chain is.head in
      let l1 : LinkedList = record g.message_list {
        head = h.fresh;
        tail = if g.message_list.head == nil then h.fresh else g.message_list.tail;
        count = inc32 g.message_list.count;
      } in
      let count : l1.count ≡ pos (length ds) =
        inc32-count g.message_list.count (length cs) (length ds) is.count (omega arith) is.fits in
      let with_list =
        λ (l : LinkedList). update_group_lamport (record g { message_list = l }) r.timestamp in
      Returns.weaken
        (settle flag2 r g h cs k ds l1 h.fresh with_list
          (λ g2. record { node = h.fresh; refresh = true; group = g2 }) chain refl (ground arith)
          (window_cons h.fresh g.message_list.ten_start b l1.count cs is.window count) (omega arith)
          (λ l. rw (info-update_group_lamport (record g { message_list = l }) r.timestamp) knows))
        λ o k' (l, w, e, v).
          let eg : o.group.message_list ≡ l =
            ap (λ (x : Inserted). x.group.message_list) e
            ∙ list-acknowledged flag2 r h.fresh (with_list l)
            ∙ list-update_group_lamport (record g { message_list = l }) r.timestamp in
          record {
            node = ap (λ (x : Inserted). x.node) e;
            refresh = ap (λ (x : Inserted). x.refresh) e;
            list =
                settled-IsList flag2 r g h cs k k' ds l1 l o.group.message_list w v refl count
                  (omega arith) fits (ap (λ (x : LinkedList). x.head) eg)
                  (ap (λ (x : LinkedList). x.count) eg) (ap (λ (x : LinkedList). x.ten_start) eg);
            tail_is =
                ap (λ (x : LinkedList). x.tail) eg
                ∙ w.tail
                ∙ ap (λ (t : Bool). if t then h.fresh else g.message_list.tail) empty_is;
            outside = λ s so sd. v.outside s (ground arith) ∙ ground arith;
            servers = λ t i f.
                let (j, f') =
                  servers-acknowledged flag2 r h.fresh (with_list l) t i (
                    rw (info-update_group_lamport (record g { message_list = l }) r.timestamp) f) in
                (j, rw e f');
            lamport =
                ap (λ (x : Inserted). x.group.max_lamport) e
                ∙ lamport-acknowledged flag2 r h.fresh (with_list l)
                ∙ lamport-with_list g r.timestamp l;
          }
