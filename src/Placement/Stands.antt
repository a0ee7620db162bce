-- ===== src/Placement/Stands.antt =====
-- What a group of chat_system/chat/replica.go stands for: its messages, in a list with no pointers.
use selected_course_projects.Prelude.{
  suc, ◌≤◌, ◌≡◌, refl, ap, ◌∙◌, true, ◌||◌, not, List, [], ◌∷◌, arith, length, inl, inr, ==_iff,
  Bool-cases,
}
use selected_course_projects.Prelude.Int.{ℤ, pos, inc32}
use selected_course_projects.Data.{nil, Message, Group, ClientRequest}
use selected_course_projects.Heap.{Heap}
use selected_course_projects.Heap.Chain.{last_or}
use selected_course_projects.LinkedList.Cells.{Cells, messages}
use selected_course_projects.LinkedList.IsList.{IsList}
use selected_course_projects.LinkedList.Reorder.{number}
use selected_course_projects.Placement.{Inserted}
use selected_course_projects.Placement.Merge.{
  known, update, insert_message, merge, merge-Ascending, Ascending,
}
use selected_course_projects.Placement.Refines.{Merges, merges}
use selected_course_projects.Placement.Represents.{overtakes}

-- The group's list is well formed, with the right tail, and stands for the messages, which ascend.
pub record Stands (ms : List Message) (g : Group) (h : Heap) : Type 0 where
  pub cells : Cells
  pub list : IsList h g.message_list cells
  pub tail : g.message_list.tail ≡ last_or nil cells
  pub stands : messages cells ≡ ms
  pub ascending : Ascending ms

length-number : (id : ℤ) (ms : List Message) → length (number id ms) ≡ length ms
length-number id [] = refl
length-number id (m ∷ ms) = ap suc (length-number (inc32 id) ms)

length-update : (r : ClientRequest) (ms : List Message) → length (update r ms) ≡ length ms
unfolding update
length-update r [] = refl
length-update r (m ∷ ms) = ground (arith, length-update r ms)

length-insert_message :
    (r : ClientRequest) (ms : List Message) → length (insert_message r ms) ≡ suc (length ms)
unfolding insert_message
length-insert_message r [] = refl
length-insert_message r (m ∷ ms) = ground (arith, length-insert_message r ms)

pub length-merge : (r : ClientRequest) (ms : List Message) → length (merge r ms) ≤ suc (length ms)
unfolding merge
length-merge r ms = elim (Bool-cases (known r ms)) [
  | inl e ↦ rw e (omega (arith, length-update r ms))
  | inr e ↦
      rw e (omega (arith, length-number (pos 0) (insert_message r ms), length-insert_message r ms))
]

pub Merges-Stands :
    (r : ClientRequest) (g : Group) (cs : Cells) (out : Inserted) (k : Heap)
    → Merges r g cs out k
    → (known r (messages cs) || not (overtakes r (messages cs))) ≡ true
    → Ascending (messages cs)
    → Stands (merge r (messages cs)) out.group k
Merges-Stands r g cs out k (merges ds l e t servers lamport node keeps) free asc = record {
  cells = ds;
  list = l;
  tail = (==_iff out.group.message_list.tail (last_or nil ds)).0 (t ∙ free);
  stands = e;
  ascending = merge-Ascending r (messages cs) asc;
}
