-- ===== src/LinkedList/Reorder.antt =====
-- IndexReorder numbers the messages of a list from 1, and changes nothing else.
use selected_course_projects.Prelude.{
  ℕ, zero, suc, ◌<◌, ◌≡◌, ◌≢◌, refl, ap, ◌∙◌, false, some, inl, inr, List, [], ◌∷◌, arith, length,
  ◌==◌, Bool-cases,
}
use selected_course_projects.Prelude.Int.{ℤ, pos, eqb_ℤ, eqb_ℤ_iff, inc32}
use selected_course_projects.Exec.Returns
use selected_course_projects.Exec.Returns.{Returns, returns}
use selected_course_projects.Data.{Ptr, nil, LinkedList, Message}
use selected_course_projects.Heap.{Heap, write}
use selected_course_projects.Heap.Access.{load_lem, load_message_lem, store_message_lem}
use selected_course_projects.Heap.Chain.{Chain, has, first, last_or, frame, ne_of_mem_sym}
use selected_course_projects.LinkedList.{renumber, index_reorder_loop, index_reorder}
use selected_course_projects.LinkedList.Cells.{Payload, message_node, Cells, messages}

abbrev pub with_id : ℤ → Message → Message
with_id id m = record m { msg_id = id }

-- the indices id + 1, id + 2, …
abbrev pub number : ℤ → List Message → List Message
number id [] = []
number id (m ∷ ms) = with_id (inc32 id) m ∷ number (inc32 id) ms

abbrev pub number_cells : ℤ → Cells → Cells
number_cells id [] = []
number_cells id ((p, (a, m)) ∷ cs) = (p, (a, with_id (inc32 id) m)) ∷ number_cells (inc32 id) cs

pub messages-number_cells :
    (id : ℤ) (cs : Cells) → messages (number_cells id cs) ≡ number id (messages cs)
messages-number_cells id [] = refl
messages-number_cells id ((p, (a, m)) ∷ cs) =
    ap (◌∷◌ (with_id (inc32 id) m)) (messages-number_cells (inc32 id) cs)

pub first-number_cells : (id : ℤ) (cs : Cells) → first (number_cells id cs) ≡ first cs
first-number_cells id [] = refl
first-number_cells id (c ∷ cs) = refl

pub has-number_cells : (q : Ptr) (id : ℤ) (cs : Cells) → has q (number_cells id cs) ≡ has q cs
has-number_cells q id [] = refl
has-number_cells q id ((p, (a, m)) ∷ cs) = ground (arith, has-number_cells q (inc32 id) cs)

pub last-number_cells :
    (o : Ptr) (id : ℤ) (cs : Cells) → last_or o (number_cells id cs) ≡ last_or o cs
last-number_cells o id [] = refl
last-number_cells o id ((p, (a, m)) ∷ cs) = last-number_cells p (inc32 id) cs

pub record Reordered (h : Heap) (id : ℤ) (cs : Cells) (g : Heap) : Type 0 where
  pub chain : Chain message_node g (number_cells id cs)
  pub fresh : g.fresh ≡ h.fresh
  pub outside : (q : Ptr) → has q cs ≡ false → g.cell q ≡ h.cell q

-- the one node that `renumber` writes
record Renumbered (h : Heap) (p : Ptr) (a : Payload) (next : Ptr) (id : ℤ) (g : Heap) : Type 0 where
  at : g.cell p ≡ some (message_node (a.0, with_id id a.1) next)
  fresh : g.fresh ≡ h.fresh
  outside : (q : Ptr) → (q == p) ≡ false → g.cell q ≡ h.cell q

renumber_lem :
    (h : Heap) (p : Ptr) (a : Payload) (next : Ptr) (id : ℤ)
    → p ≢ nil
    → h.cell p ≡ some (message_node a next)
    → Returns (λ _ g. Renumbered h p a next id g) (renumber p a.1 id h)
unfolding renumber write
renumber_lem h p a next id ne e = elim (Bool-cases (eqb_ℤ a.1.msg_id id)) [
  | inl old ↦ rw old (
      returns (record {
        at = ground (arith, eqb_ℤ_iff a.1.msg_id id);
        fresh = refl;
        outside = λ q d. refl;
      }))
  | inr new ↦
      rw (new, store_message_lem h p ne e (with_id id a.1))
        (returns (record { at = ground arith; fresh = refl; outside = λ q d. ground arith }))
]

index_reorder_loop_lem :
    (k : ℕ) (h : Heap) (id : ℤ) (cs : Cells)
    → Chain message_node h cs
    → length cs < k
    → Returns (λ _ g. Reordered h id cs g) (index_reorder_loop k id (first cs) h)
unfolding index_reorder_loop
index_reorder_loop_lem zero h id cs c lt = absurd (omega arith)
index_reorder_loop_lem (suc k) h id [] c lt =
    returns (record { chain = tt; fresh = refl; outside = λ q o. refl })
index_reorder_loop_lem (suc k) h id ((p, a) ∷ cs) c lt =
    let ne : (p == nil) ≡ false = ground arith in
    rw (ne, load_lem h p c.0 c.2, load_message_lem h p c.0 c.2 a.1 refl)
      (Returns.bind (renumber_lem h p a (first cs) (inc32 id) c.0 c.2) λ _ g w.
        let rest : Chain message_node g cs =
          frame message_node h g cs c.4 (omega (arith, w.fresh))
            λ q i. w.outside q (ne_of_mem_sym p q cs c.3 i) in
        Returns.weaken (index_reorder_loop_lem k g (inc32 id) cs rest (omega arith)) λ _ g' v.
          record {
            chain = (
              c.0,
              ground (arith, v.fresh, w.fresh, c.1),
              ground (arith, v.outside p c.3, w.at, first-number_cells (inc32 id) cs),
              ground (arith, has-number_cells p (inc32 id) cs, c.3),
              v.chain,
            );
            fresh = v.fresh ∙ w.fresh;
            outside = λ q o. v.outside q (ground arith) ∙ w.outside q (ground arith);
          })

-- IndexReorder returns: the messages are numbered from 1, and nothing else changes.
pub index_reorder_lem :
    (h : Heap) (l : LinkedList) (cs : Cells)
    → Chain message_node h cs
    → l.head ≡ first cs
    → length cs < h.fresh
    → Returns (λ _ g. Reordered h (pos 0) cs g) (index_reorder l h)
unfolding index_reorder
index_reorder_lem h l cs c hd lt = rw hd (index_reorder_loop_lem h.fresh h (pos 0) cs c lt)
