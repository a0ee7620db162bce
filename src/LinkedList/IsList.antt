-- ===== src/LinkedList/IsList.antt =====
-- What it means for a message list in the heap to be well formed, and UpdateTenStart, which keeps
-- the start of the shown window in the list.
use selected_course_projects.Prelude.{
  ◌<◌, ◌≡◌, refl, Bool, true, false, ◌||◌, inl, inr, [], ◌∷◌, arith, length, ◌==◌, Bool-cases,
}
use selected_course_projects.Prelude.Int.{pos, leb_ℤ}
use selected_course_projects.Exec.Returns.{Returns, returns}
use selected_course_projects.Data.{Ptr, LinkedList}
use selected_course_projects.Heap.{Heap}
use selected_course_projects.Heap.Access.{load_lem}
use selected_course_projects.Heap.Chain.{Chain, Chain-at, has, first}
use selected_course_projects.LinkedList.{update_ten_start}
use selected_course_projects.LinkedList.Cells.{message_node, Cells}

abbrev pub is_empty : Cells → Bool
is_empty [] = true
is_empty (c ∷ cs) = false

-- All but the tail, which the program does not keep right (see Placement).
pub record IsList (h : Heap) (l : LinkedList) (cs : Cells) : Type 0 where
  pub chain : Chain message_node h cs
  pub head : l.head ≡ first cs
  pub count : l.count ≡ pos (length cs)
  pub fits : length cs < 2147483647
  pub room : length cs < h.fresh
  pub window : (is_empty cs || has l.ten_start cs) ≡ true

pub record Windowed (l : LinkedList) (cs : Cells) (l' : LinkedList) : Type 0 where
  pub head : l'.head ≡ l.head
  pub tail : l'.tail ≡ l.tail
  pub count : l'.count ≡ l.count
  pub window : has l'.ten_start cs ≡ true

-- After a node was inserted, UpdateTenStart returns; it changes the window's start alone, to a node
-- of the list.
pub update_ten_start_lem :
    (h : Heap) (l : LinkedList) (p : Ptr) (cs : Cells)
    → Chain message_node h cs
    → l.head ≡ first cs
    → has p cs ≡ true
    → (leb_ℤ l.count (pos 10) ≡ false → has l.ten_start cs ≡ true)
    → Returns (λ l' g. (g ≡ h) × Windowed l cs l') (update_ten_start l p h)
unfolding update_ten_start
update_ten_start_lem h l p [] c hd mp old = cc
update_ten_start_lem h l p ((q, a) ∷ cs) c hd mp old = elim (Bool-cases (leb_ℤ l.count (pos 10))) [
  | inl few ↦
      rw few
        (returns (refl, record { head = refl; tail = refl; count = refl; window = ground arith }))
  | inr many ↦
      let (b, next, ne, at) = Chain-at message_node h l.ten_start ((q, a) ∷ cs) c (old many) in
      rw (many, load_lem h l.ten_start ne at)
        (elim (Bool-cases (next == p)) [
          | inl e ↦
              rw e (returns (refl, record { head = refl; tail = refl; count = refl; window = mp }))
          | inr e ↦
              rw e (
                returns
                  (refl, record { head = refl; tail = refl; count = refl; window = old many }))
        ])
]
