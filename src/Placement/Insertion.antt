-- ===== src/Placement/Insertion.antt =====
-- What the two insertions of the message branch of Insertion have in common: the window, the
-- numbering and the record of the index, and what is to be shown of the group afterwards.
use selected_course_projects.Prelude.{
  ℕ, suc, ◌+◌, ◌<◌, ◌≡◌, refl, sym, ap, ◌∙◌, Bool, true, false, ◌||◌, some, [], ◌∷◌, arith, length,
  ◌==◌,
}
use selected_course_projects.Prelude.Int.{ℤ, pos, inc32, inc32-pos, leb_ℤ}
use selected_course_projects.Prelude.Map.{lookup}
use selected_course_projects.Prelude.Text.{Str, str_eq}
use selected_course_projects.Exec.{pure, ◌>>=◌, ◌>>◌}
use selected_course_projects.Exec.Returns
use selected_course_projects.Exec.Returns.{Returns, returns}
use selected_course_projects.Data.{Ptr, LinkedList, Information, Group, ClientRequest}
use selected_course_projects.Heap.{Heap}
use selected_course_projects.Heap.Chain.{Chain, has, first, insert_after}
use selected_course_projects.LinkedList.{update_ten_start, index_reorder}
use selected_course_projects.LinkedList.Cells.{Payload, message_node, Cells}
use selected_course_projects.LinkedList.IsList.{IsList, is_empty, Windowed, update_ten_start_lem}
use selected_course_projects.LinkedList.Reorder.{
  Reordered, number_cells, index_reorder_lem, first-number_cells, has-number_cells,
}
use selected_course_projects.Placement.{Inserted, acknowledge, update_group_lamport}
use selected_course_projects.Placement.Acknowledge.{
  KnowsServer, acknowledged, acknowledge_lem, info-update_group_lamport,
}

pub length-insert_after :
    (q : Ptr) (c : Ptr × Payload) (cs : Cells)
    → has q cs ≡ true
    → length (insert_after q c cs) ≡ length cs + 1
unfolding insert_after
length-insert_after q c [] m = cc
length-insert_after q c ((s, a) ∷ cs) m = ground (arith, length-insert_after q c cs)

pub length-number_cells : (id : ℤ) (cs : Cells) → length (number_cells id cs) ≡ length cs
length-number_cells id [] = refl
length-number_cells id (c ∷ cs) = ap suc (length-number_cells (inc32 id) cs)

pub has-insert_after_of_mem :
    (t q : Ptr) (c : Ptr × Payload) (cs : Cells)
    → has t cs ≡ true
    → has t (insert_after q c cs) ≡ true
unfolding insert_after
has-insert_after_of_mem t q c [] m = m
has-insert_after_of_mem t q c ((s, a) ∷ cs) m = ground (arith, has-insert_after_of_mem t q c cs)

-- The window of a list with a node starts at a node.
pub window_of_mem :
    (q t : Ptr) (cs : Cells) → has q cs ≡ true → (is_empty cs || has t cs) ≡ true → has t cs ≡ true
window_of_mem q t [] m w = m
window_of_mem q t (c ∷ cs) m w = w

pub inc32-count : (c : ℤ) (n m : ℕ) → c ≡ pos n → m ≡ n + 1 → n < 2147483647 → inc32 c ≡ pos m
inc32-count c n m e em lt = ap inc32 e ∙ inc32-pos n lt ∙ ap pos (omega arith)

pub knows-update_group_lamport :
    (flag2 : Bool) (r : ClientRequest) (g : Group) (t : ℤ) (l : LinkedList)
    → KnowsServer flag2 r g
    → KnowsServer flag2 r (record (update_group_lamport g t) { message_list = l })
knows-update_group_lamport flag2 r g t l k = rw (info-update_group_lamport g t) k

pub has-insert_after_self :
    (q p : Ptr) (b : Payload) (cs : Cells)
    → has q cs ≡ true
    → has p (insert_after q (p, b) cs) ≡ true
unfolding insert_after
has-insert_after_self q p b [] m = cc
has-insert_after_self q p b ((s, a) ∷ cs) m = ground (arith, has-insert_after_self q p b cs)

-- The group after a new node: its list, numbered anew, and what else the request leaves alone.
pub record Grown (r : ClientRequest) (g : Group) (h : Heap) (cs ds : Cells) (tail : Ptr)
    (out : Inserted) (k : Heap) : Type 0 where
  pub node : out.node ≡ h.fresh
  pub refresh : out.refresh ≡ true
  pub list : IsList k out.group.message_list (number_cells (pos 0) ds)
  pub tail_is : out.group.message_list.tail ≡ tail
  pub outside : (q : Ptr) → has q cs ≡ false → (q == h.fresh) ≡ false → k.cell q ≡ h.cell q
  pub servers :
      (s : Str) (i : Information)
      → lookup s g.replica_info ≡ some i
      → (j : Information) × (lookup s out.group.replica_info ≡ some j)
  pub lamport : out.group.max_lamport ≡ (update_group_lamport g r.timestamp).max_lamport

module _ (flag2 : Bool) (r : ClientRequest) (g : Group) (h : Heap) (cs : Cells) where
  -- What both insertions end with: the window, the numbering and the record of the index.
  pub settle :
      (k : Heap) (ds : Cells) (l1 : LinkedList) (p : Ptr) (with_list : LinkedList → Group)
      (result : Group → Inserted)
      → Chain message_node k ds
      → l1.head ≡ first ds
      → has p ds ≡ true
      → (leb_ℤ l1.count (pos 10) ≡ false → has l1.ten_start ds ≡ true)
      → length ds < k.fresh
      → ((l : LinkedList) → KnowsServer flag2 r (with_list l))
      → Returns
          (λ out k'.
            (l : LinkedList) × Windowed l1 ds l
            × (out ≡ result (acknowledged flag2 r p (with_list l)))
            × Reordered k (pos 0) ds k')
          ((update_ten_start l1 p >>= λ l.
              index_reorder l >> (acknowledge flag2 r p (with_list l) >>= λ g2. pure (result g2)))
            k)
  settle k ds l1 p with_list result c hd mp old lt knows =
      Returns.bind (update_ten_start_lem k l1 p ds c hd mp old) λ l k1 (same, w). rw same (
        Returns.bind (index_reorder_lem k l ds c (w.head ∙ hd) lt) λ _ k2 v.
          rw (acknowledge_lem flag2 r p (with_list l) k2 (knows l)) (returns (l, w, refl, v)))

  -- the list of the result, from what `settle` says of it
  pub settled-IsList :
      (k k' : Heap) (ds : Cells) (l1 l l' : LinkedList)
      → Windowed l1 ds l
      → Reordered k (pos 0) ds k'
      → l1.head ≡ first ds
      → l1.count ≡ pos (length ds)
      → length ds < k.fresh
      → length ds < 2147483647
      → l'.head ≡ l.head
      → l'.count ≡ l.count
      → l'.ten_start ≡ l.ten_start
      → IsList k' l' (number_cells (pos 0) ds)
  settled-IsList k k' ds l1 l l' w v hd cnt lt fits eh ec et = record {
    chain = v.chain;
    head = eh ∙ w.head ∙ hd ∙ sym (first-number_cells (pos 0) ds);
    count = ec ∙ w.count ∙ cnt ∙ ap pos (sym (length-number_cells (pos 0) ds));
    fits = omega (arith, length-number_cells (pos 0) ds);
    room = omega (arith, length-number_cells (pos 0) ds, v.fresh);
    window = ground (arith, has-number_cells l.ten_start (pos 0) ds, w.window);
  }
