-- ===== src/ChatServer/Window.antt =====
-- The window of the shown messages, after a local message.
use mathlib.Core.Option.{some-injective}
use selected_course_projects.Prelude.{
  suc, ◌≡◌, sym, ap, ◌∙◌, true, ◌||◌, some, inl, inr, [], ◌∷◌, ◌++◌, arith, subst, length, ◌==◌,
  ==_iff, Bool-cases,
}
use selected_course_projects.Prelude.Int.{ℤ, pos}
use selected_course_projects.Data.{Ptr, Node}
use selected_course_projects.Heap.{Heap}
use selected_course_projects.Heap.Chain.{Chain, first, has}
use selected_course_projects.LinkedList.Cells.{Payload, message_node, Cells}
use selected_course_projects.LinkedList.IsList.{is_empty}
use selected_course_projects.ChatServer.Appending.{WindowMoved}

has-append_last : (q : Ptr) (b : Payload) (cs : Cells) → has q (cs ++ (q, b) ∷ []) ≡ true
has-append_last q b [] = ground (arith, ==_iff q q)
has-append_last q b ((p, a) ∷ cs) = ground (arith, has-append_last q b cs)

has-append_left : (t : Ptr) (cs ds : Cells) → has t cs ≡ true → has t (cs ++ ds) ≡ true
has-append_left t [] ds m = cc
has-append_left t ((p, a) ∷ cs) ds m = ground (arith, has-append_left t cs ds)

has-first_append :
    (q : Ptr) (b : Payload) (cs : Cells)
    → has (first (cs ++ (q, b) ∷ [])) (cs ++ (q, b) ∷ []) ≡ true
has-first_append q b [] = ground (arith, ==_iff q q)
has-first_append q b ((p, a) ∷ cs) = ground (arith, ==_iff p p)

-- Behind each node but the last there is a node.
next-mem :
    (k : Heap) (t q : Ptr) (b : Payload) (n : Node) (cs : Cells)
    → Chain message_node k (cs ++ (q, b) ∷ [])
    → has t cs ≡ true
    → k.cell t ≡ some n
    → has n.next (cs ++ (q, b) ∷ []) ≡ true
next-mem k t q b n [] c m at = cc
next-mem k t q b n ((p, a) ∷ cs) c m at = elim (Bool-cases (p == t)) [
  | inl e ↦
      let nx : n.next ≡ first (cs ++ (q, b) ∷ []) =
        ap (λ (x : Node). x.next)
          (some-injective n (message_node a (first (cs ++ (q, b) ∷ [])))
            (sym at ∙ ap k.cell (sym ((==_iff p t).0 e)) ∙ c.2)) in
      subst (λ (x : Ptr). has x ((p, a) ∷ cs ++ (q, b) ∷ []) ≡ true) (sym nx)
        (ground (arith, has-first_append q b cs))
  | inr e ↦ ground (arith, next-mem k t q b n cs c.4)
]

pub window_moved :
    (k : Heap) (q old new : Ptr) (count : ℤ) (b : Payload) (cs : Cells)
    → Chain message_node k (cs ++ (q, b) ∷ [])
    → (is_empty cs || has old cs) ≡ true
    → count ≡ pos (suc (length cs))
    → WindowMoved q count old new k
    → has new (cs ++ (q, b) ∷ []) ≡ true
window_moved k q old new count b cs c w e (inl s) =
    subst (λ (x : Ptr). has x (cs ++ (q, b) ∷ []) ≡ true) (sym s) (has-append_last q b cs)
window_moved k q old new count b [] c w e (inr (f, s)) = absurd (ground arith)
window_moved k q old new count b (d ∷ cs) c w e (inr (f, inl s)) =
    subst (λ (x : Ptr). has x ((d ∷ cs) ++ (q, b) ∷ []) ≡ true) (sym s)
      (has-append_left old (d ∷ cs) ((q, b) ∷ []) w)
window_moved k q old new count b (d ∷ cs) c w e (inr (f, inr (n, at, s))) =
    subst (λ (x : Ptr). has x ((d ∷ cs) ++ (q, b) ∷ []) ≡ true) (sym s)
      (next-mem k old q b n (d ∷ cs) c w at)
