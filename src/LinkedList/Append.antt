-- ===== src/LinkedList/Append.antt =====
-- Append: the new node goes behind the tail, and what lay behind the tail is lost.
use selected_course_projects.Prelude.{
  suc, ◌<◌, ◌≡◌, refl, sym, ◌∙◌, true, false, some, inl, inr, List, [], ◌∷◌, ◌++◌, arith, ◌==◌, ◌⊎◌,
  if◌then◌else◌, Bool-cases,
}
use selected_course_projects.Prelude.Int.{inc32}
use selected_course_projects.Exec.Returns.{Returns, returns}
use selected_course_projects.Data.{Ptr, nil, LinkedList, Node}
use selected_course_projects.Heap.{Heap, write, alloc}
use selected_course_projects.Heap.Access.{set_next_lem}
use selected_course_projects.Heap.Chain.{
  Chain, Chain-at, first-ne_nil, ne_of_mem, first, has, fresh-not-mem, ne_of_mem_sym,
}
use selected_course_projects.Heap.Cut.{upto, first-upto, Chain-upto}
use selected_course_projects.LinkedList.{append, zero_activity, zero_message}

abbrev pub zero_node : Node
zero_node = record { activity = some zero_activity; message = some zero_message; next = nil }

-- The heap and the list that Append leaves, and the payload `b` of its new node.
pub data Appended {P : Type 0} (mk : P → Ptr → Node) (b : P) (h : Heap) (l : LinkedList)
    (cs : List (Ptr × P)) : Ptr × LinkedList → Heap → Type 0 where
  appended :
      {l' : LinkedList} {k : Heap}
      → Chain mk k (upto l.tail cs ++ (h.fresh, b) ∷ [])
      → l'.head ≡ first (upto l.tail cs ++ (h.fresh, b) ∷ [])
      → l'.tail ≡ h.fresh
      → l'.ten_start ≡ l.ten_start
      → l'.count ≡ inc32 l.count
      → k.fresh ≡ suc h.fresh
      → ((q : Ptr) → has q cs ≡ false → (q == h.fresh) ≡ false → k.cell q ≡ h.cell q)
      → ((q : Ptr) → has q cs ≡ true → (n : Node) × (k.cell q ≡ some n))
      → k.cell h.fresh ≡ some zero_node
      → Appended mk b h l cs (h.fresh, l') k

-- the new node, and the heap around the list
pub Appended-new :
    {P : Type 0} (mk : P → Ptr → Node) (b : P) (h : Heap) (l : LinkedList) (cs : List (Ptr × P))
    (out : Ptr × LinkedList) (k : Heap)
    → Appended mk b h l cs out k
    → (out.0 ≡ h.fresh)
      × (k.fresh ≡ suc h.fresh)
      × (k.cell h.fresh ≡ some zero_node)
      × ((q : Ptr) → has q cs ≡ false → (q == h.fresh) ≡ false → k.cell q ≡ h.cell q)
Appended-new mk b h l cs _ k (appended chain head tail start count fr outside keep new) =
    (refl, fr, new, outside)

-- the writes to the tail `t` and to the new node `p` take no node away
keeps_cell :
    {P : Type 0} (mk : P → Ptr → Node) (h : Heap) (t p q : Ptr) (n : Node) (cs : List (Ptr × P))
    → Chain mk h cs
    → has p cs ≡ false
    → has q cs ≡ true
    → (m : Node) × ((if q == t then some n else if q == p then some zero_node else h.cell q)
        ≡ some m)
keeps_cell mk h t p q n cs c out i =
    let (a, e, ne, at) = Chain-at mk h q cs c i in
    elim (Bool-cases (q == t)) [
      | inl y ↦ (n, ground arith)
      | inr y ↦ (mk a e, ground (arith, ne_of_mem_sym p q cs out i))
    ]

-- The shape that `mk` must have for a write of `Next`.
pub record IsShape {P : Type 0} (mk : P → Ptr → Node) : Type 0 where
  pub relink : (a : P) (e q : Ptr) → record (mk a e) { next = q } ≡ mk a q

module _ {P : Type 0} (mk : P → Ptr → Node) (shape : IsShape mk) (b : P)
    (new : mk b nil ≡ zero_node) where
  append-empty :
      (h : Heap) (l : LinkedList)
      → 0 < h.fresh
      → l.head ≡ nil
      → l.tail ≡ nil
      → Returns (Appended mk b h l []) (append l h)
  unfolding append alloc write upto
  append-empty h l lt hd tl =
      rw (tl, hd)
        (returns (
          appended (omega arith, omega arith, ground (arith, new), refl, tt) refl refl refl refl
            refl (λ q o d. ground arith) (λ q i. cc) (ground arith)))

  append-cons :
      (h : Heap) (l : LinkedList) (cs : List (Ptr × P))
      → 0 < h.fresh
      → Chain mk h cs
      → l.head ≡ first cs
      → has l.tail cs ≡ true
      → Returns (Appended mk b h l cs) (append l h)
  unfolding append alloc write
  append-cons h l cs lt c hd mt =
      let (a, e, ne, at) = Chain-at mk h l.tail cs c mt in
      let out : has h.fresh cs ≡ false = fresh-not-mem mk h h.fresh cs c (omega arith) in
      let apart : (l.tail == h.fresh) ≡ false = ne_of_mem_sym h.fresh l.tail cs out mt in
      let t : (l.tail == nil) ≡ false = ground arith in
      let hn : (l.head == nil) ≡ false = rw hd (first-ne_nil mk h l.tail cs c mt) in
      let h1 : Heap = record (write h h.fresh zero_node) { fresh = suc h.fresh } in
      let k : Heap = write h1 l.tail (record (mk a e) { next = h.fresh }) in
      rw (t, set_next_lem h1 l.tail {n = mk a e} ne (ground arith) h.fresh, hn)
        (returns (
          appended
            (Chain-upto mk h k l.tail h.fresh b cs c mt out (omega arith) (omega arith)
              (omega arith) (λ q i d. ground (arith, ne_of_mem_sym h.fresh q cs out i))
              (λ a' e' at'. ground (arith, shape.relink a' e' h.fresh)) (ground (arith, new)))
            (hd ∙ sym (first-upto l.tail (h.fresh, b) cs mt)) refl refl refl refl
            (λ q o d. ground (arith, ne_of_mem l.tail q cs))
            (λ q i.
              keeps_cell mk h l.tail h.fresh q (record (mk a e) { next = h.fresh }) cs c out i)
            (ground arith)))

  -- On a list whose tail is a node of it, Append returns; the list is what it was up to the tail,
  -- and then the new node.
  pub append_lem :
      (h : Heap) (l : LinkedList) (cs : List (Ptr × P))
      → 0 < h.fresh
      → Chain mk h cs
      → l.head ≡ first cs
      → ((cs ≡ []) × (l.tail ≡ nil)) ⊎ (has l.tail cs ≡ true)
      → Returns (Appended mk b h l cs) (append l h)
  append_lem h l [] lt c hd (inl (e, tl)) = append-empty h l lt hd tl
  append_lem h l [] lt c hd (inr m) = cc
  append_lem h l (d ∷ cs) lt c hd (inl (e, tl)) = cc
  append_lem h l (d ∷ cs) lt c hd (inr m) = append-cons h l (d ∷ cs) lt c hd m
