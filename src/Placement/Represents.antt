-- ===== src/Placement/Represents.antt =====
-- The functions on a group's nodes, and those on its messages.
use selected_course_projects.Prelude.{
  ◌≡◌, refl, ap, ◌∙◌, Bool, true, false, not, ◌&&◌, ◌||◌, none, inl, inr, List, [], ◌∷◌, arith,
  length, Bool-cases,
}
use selected_course_projects.Prelude.Int.{pos, eqb_ℤ}
use selected_course_projects.Prelude.Text.{str_eq}
use selected_course_projects.Data.{Ptr, Message, ClientRequest}
use selected_course_projects.Heap.Chain.{has, last_or}
use selected_course_projects.LinkedList.Cells.{Cells, messages}
use selected_course_projects.LinkedList.IsList.{is_empty}
use selected_course_projects.LinkedList.Reorder.{number, number_cells, messages-number_cells}
use selected_course_projects.Placement.Acknowledge.{created}
use selected_course_projects.Placement.Merge.{
  merge, known, update, insert_message, Ascending, IsAbove,
}
use selected_course_projects.Placement.Order.{
  Above, Sorted, holds, place, replace, precedes, same_key, goes_last, is_late, has-replace,
}

-- The functions on nodes, and those on messages.
pub Above→IsAbove : (m : Message) (cs : Cells) → Above m cs → IsAbove m (messages cs)
Above→IsAbove m [] up = tt
Above→IsAbove m ((p, (a, n)) ∷ cs) up = (up.0, Above→IsAbove m cs up.1)

pub IsAbove→Above : (m : Message) (cs : Cells) → IsAbove m (messages cs) → Above m cs
IsAbove→Above m [] up = tt
IsAbove→Above m ((p, (a, n)) ∷ cs) up = (up.0, IsAbove→Above m cs up.1)

pub Ascending→Sorted : (cs : Cells) → Ascending (messages cs) → Sorted cs
Ascending→Sorted [] s = tt
Ascending→Sorted ((p, (a, m)) ∷ cs) s = (IsAbove→Above m cs s.0, Ascending→Sorted cs s.1)

pub known-messages : (r : ClientRequest) (cs : Cells) → known r (messages cs) ≡ holds r cs
unfolding known
known-messages r [] = refl
known-messages r ((p, (a, m)) ∷ cs) = ground (arith, known-messages r cs)

pub messages-replace :
    (r : ClientRequest) (cs : Cells) → messages (replace r cs) ≡ update r (messages cs)
unfolding replace update
messages-replace r [] = refl
messages-replace r ((p, (a, m)) ∷ cs) = ground (arith, messages-replace r cs)

pub messages-place :
    (r : ClientRequest) (p : Ptr) (cs : Cells)
    → messages (place r (p, (none, created r)) cs) ≡ insert_message r (messages cs)
unfolding place insert_message
messages-place r p [] = refl
messages-place r p ((q, (a, m)) ∷ cs) = elim (Bool-cases (precedes m r)) [
  | inl e ↦ rw e (ap (◌∷◌ m) (messages-place r p cs))
  | inr e ↦ rw e
]

pub merge-known :
    (r : ClientRequest) (cs : Cells)
    → holds r cs ≡ true
    → messages (replace r cs) ≡ merge r (messages cs)
unfolding merge
merge-known r cs e = rw (known-messages r cs ∙ e) (messages-replace r cs)

pub merge-new :
    (r : ClientRequest) (p : Ptr) (cs ds : Cells)
    → holds r cs ≡ false
    → ds ≡ place r (p, (none, created r)) cs
    → messages (number_cells (pos 0) ds) ≡ merge r (messages cs)
unfolding merge
merge-new r p cs ds e placed = rw (known-messages r cs ∙ e) (
    messages-number_cells (pos 0) ds
    ∙ ap (number (pos 0)) (ap messages placed ∙ messages-place r p cs))

pub has-replace_last :
    (o : Ptr) (r : ClientRequest) (cs : Cells) → last_or o (replace r cs) ≡ last_or o cs
unfolding replace
has-replace_last o r [] = refl
has-replace_last o r ((p, (a, m)) ∷ cs) = elim (Bool-cases (same_key m r)) [
  | inl e ↦ rw e refl
  | inr e ↦ rw e (has-replace_last p r cs)
]

pub length-replace : (r : ClientRequest) (cs : Cells) → length (replace r cs) ≡ length cs
unfolding replace
length-replace r [] = refl
length-replace r ((p, (a, m)) ∷ cs) = ground (arith, length-replace r cs)

pub window-replace :
    (t : Ptr) (r : ClientRequest) (cs : Cells)
    → (is_empty (replace r cs) || has t (replace r cs)) ≡ (is_empty cs || has t cs)
unfolding replace
window-replace t r [] = refl
window-replace t r ((p, (a, m)) ∷ cs) = ground (arith, has-replace t r cs)

-- A new message that goes behind a last message with its own timestamp, from a lower replica.
unfoldable pub overtakes : ClientRequest → List Message → Bool
overtakes r [] = false
overtakes r (m ∷ []) = precedes m r && eqb_ℤ m.lamport r.timestamp
overtakes r (m ∷ n ∷ ms) = overtakes r (n ∷ ms)

pub overtakes-messages :
    (r : ClientRequest) (cs : Cells)
    → overtakes r (messages cs) ≡ (goes_last r cs && not (is_empty cs) && not (is_late r cs))
unfolding overtakes
overtakes-messages r [] = refl
overtakes-messages r ((p, a) ∷ []) = ground arith
overtakes-messages r ((p, a) ∷ (q, b) ∷ cs) = overtakes-messages r ((q, b) ∷ cs)
