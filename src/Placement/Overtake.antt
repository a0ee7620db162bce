-- ===== src/Placement/Overtake.antt =====
-- A new message that overtakes the tail: it goes behind the last node, and the tail stays.
use selected_course_projects.Prelude.{
  suc, ◌<◌, ◌≡◌, refl, sym, ◌∙◌, Bool, true, false, not, ◌&&◌, none, [], ◌∷◌, ◌++◌, arith, length,
  ◌==◌,
}
use selected_course_projects.Exec.Returns
use selected_course_projects.Exec.Returns.{Returns, returns}
use selected_course_projects.Data.{Ptr, nil, Group, ClientRequest}
use selected_course_projects.Heap.{Heap}
use selected_course_projects.Heap.Chain.{last_or, ne_of_mem_sym, nil-not-mem}
use selected_course_projects.LinkedList.Cells.{Payload, message_node, Cells, messages}
use selected_course_projects.LinkedList.IsList.{IsList, is_empty}
use selected_course_projects.Placement.{insertion_message, put_message}
use selected_course_projects.Placement.Acknowledge.{KnowsServer, created}
use selected_course_projects.Placement.Behind.{insert_after_node_lem}
use selected_course_projects.Placement.Insertion.{Grown}
use selected_course_projects.Placement.Merge.{known, Ascending}
use selected_course_projects.Placement.Order.{Sorted, holds, place, goes_last, is_late}
use selected_course_projects.Placement.Place.{
  Placed, at_head, walked, at_tail, lamport_place_lem, place-last,
}
use selected_course_projects.Placement.Refines.{IsNew, redundant_lem, knows_of_new}
use selected_course_projects.Placement.Represents.{
  overtakes, overtakes-messages, known-messages, Ascending→Sorted,
}
use selected_course_projects.Placement.Walk.{found, behind}

place-goes_last :
    (r : ClientRequest) (c : Ptr × Payload) (cs : Cells)
    → Sorted cs
    → goes_last r cs ≡ true
    → place r c cs ≡ cs ++ c ∷ []
unfolding place
place-goes_last r c [] s e = refl
place-goes_last r c ((p, a) ∷ cs) s e = (place-last r p a cs c s e).0

module _ (flag2 : Bool) (r : ClientRequest) (g : Group) (h : Heap) (cs : Cells) where
  put_message-overtakes :
      (out : Ptr × Bool) (k : Heap)
      → IsList h g.message_list cs
      → g.message_list.tail ≡ last_or nil cs
      → Sorted cs
      → KnowsServer flag2 r g
      → suc (length cs) < 2147483647
      → holds r cs ≡ false
      → (goes_last r cs && not (is_empty cs) && not (is_late r cs)) ≡ true
      → Placed r h cs out k
      → Returns
          (Grown r g h cs (cs ++ (h.fresh, (none, created r)) ∷ []) (last_or nil cs))
          (put_message flag2 r g out.0 out.1 k)
  unfolding put_message
  put_message-overtakes _ _ is tl s kn fits new over (at_head absent here gl) =
      absurd (ground arith)
  put_message-overtakes _ k is tl s kn fits new over (walked (found f) early) =
      absurd (ground (arith, f.there))
  put_message-overtakes _ _ is tl s kn fits new over (walked (behind {p} b) early) =
      let ne : (p == nil) ≡ false =
        ne_of_mem_sym nil p cs (nil-not-mem message_node h cs is.chain) b.mem in
      let last : goes_last r cs ≡ true = ground arith in
      let c : Ptr × Payload = (h.fresh, (none, created r)) in
      rw (ne, ← tl, ← place-goes_last r c cs s last, ← b.placed c)
        (insert_after_node_lem flag2 r g h cs p true is kn b.mem fits)
  put_message-overtakes _ _ is tl s kn fits new over (at_tail b late) = absurd (ground arith)

  -- In the case of `overtakes` the new node is the last, and the tail is still the node before it.
  pub insertion_message-overtakes :
      IsList h g.message_list cs
      → g.message_list.tail ≡ last_or nil cs
      → Ascending (messages cs)
      → IsNew flag2 r g
      → suc (length cs) < 2147483647
      → known r (messages cs) ≡ false
      → overtakes r (messages cs) ≡ true
      → Returns
          (Grown r g h cs (cs ++ (h.fresh, (none, created r)) ∷ []) (last_or nil cs))
          (insertion_message flag2 r g h)
  unfolding insertion_message
  insertion_message-overtakes is tl asc new fits unknown over =
      let s = Ascending→Sorted cs asc in
      rw (redundant_lem flag2 r g h new) (
        Returns.bind (lamport_place_lem r h g cs is.chain s is.head tl is.room) λ out k p.
          put_message-overtakes out k is tl s (knows_of_new flag2 r g new) fits
            (sym (known-messages r cs) ∙ unknown) (sym (overtakes-messages r cs) ∙ over) p)
