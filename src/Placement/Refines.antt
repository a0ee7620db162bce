-- ===== src/Placement/Refines.antt =====
-- The message branch of Insertion implements `merge`, while the group's tail is right.
use selected_course_projects.Prelude.{
  ℕ, suc, ◌<◌, ◌≡◌, refl, sym, ap, ◌∙◌, Bool, true, false, not, ◌||◌, none, some, inl, inr, [], ◌∷◌,
  arith, length, Bool-cases, if◌then◌else◌, ◌==◌, ==_iff, ◌⊎◌,
}
use selected_course_projects.Prelude.Int.{pos, leb_ℤ}
use selected_course_projects.Prelude.Map.{lookup}
use selected_course_projects.Prelude.Text.{Str, str_eq}
use selected_course_projects.Exec.{ok}
use selected_course_projects.Exec.Returns
use selected_course_projects.Exec.Returns.{Returns, returns}
use selected_course_projects.Data.{Ptr, nil, Information, Group, ClientRequest}
use selected_course_projects.Heap.{Heap, need}
use selected_course_projects.Heap.Chain.{
  Chain, has, has-last_or, last_or, ne_of_mem_sym, nil-not-mem, fresh-not-mem,
}
use selected_course_projects.LinkedList.Cells.{message_node, Cells, messages}
use selected_course_projects.LinkedList.IsList.{IsList, is_empty}
use selected_course_projects.LinkedList.Reorder.{number_cells, last-number_cells}
use selected_course_projects.Placement.{
  update_group_lamport, Inserted, insertion_message, redundant, put_message,
}
use selected_course_projects.Placement.Acknowledge.{KnowsServer, created}
use selected_course_projects.Placement.AtHead.{insert_at_head_lem}
use selected_course_projects.Placement.Behind.{insert_after_node_lem}
use selected_course_projects.Placement.Insertion.{Grown}
use selected_course_projects.Placement.Merge.{merge, known, Ascending}
use selected_course_projects.Placement.Order.{
  Sorted, holds, place, replace, goes_last, is_late, first-replace, last-place, last-place_before,
}
use selected_course_projects.Placement.Place.{Placed, at_head, walked, at_tail, lamport_place_lem}
use selected_course_projects.Placement.Walk.{Found, found, behind}
use selected_course_projects.Placement.Represents.{
  Ascending→Sorted, known-messages, merge-known, merge-new, has-replace_last, length-replace,
  window-replace, overtakes, overtakes-messages,
}

-- The list of the group afterwards stands for the merged messages, and its tail is its last node
-- unless a new message has overtaken the tail. The servers that the group knew are still known, and
-- the group's timestamp is at least that of a new message. The node that is returned is nil exactly
-- for a message that was known, and then the group is as it was.
pub data Merges (r : ClientRequest) (g : Group) (cs : Cells) (out : Inserted) (k : Heap)
    : Type 0 where
  merges :
      (ds : Cells)
      → IsList k out.group.message_list ds
      → messages ds ≡ merge r (messages cs)
      → (out.group.message_list.tail == last_or nil ds)
        ≡ (known r (messages cs) || not (overtakes r (messages cs)))
      → ((s : Str) (i : Information)
          → lookup s g.replica_info ≡ some i
          → (j : Information) × (lookup s out.group.replica_info ≡ some j))
      → out.group.max_lamport ≡ (
          if known r (messages cs)
          then g.max_lamport
          else (update_group_lamport g r.timestamp).max_lamport)
      → (out.node == nil) ≡ known r (messages cs)
      → (known r (messages cs) ≡ true → out.group ≡ g)
      → Merges r g cs out k

==_self : (n : ℕ) → (n == n) ≡ true
==_self n = (==_iff n n).1 refl

last-not-fresh :
    (h : Heap) (cs : Cells)
    → Chain message_node h cs
    → is_empty cs ≡ false
    → (last_or nil cs == h.fresh) ≡ false
last-not-fresh h [] c e = cc
last-not-fresh h ((p, a) ∷ cs) c e =
    ne_of_mem_sym h.fresh (last_or p cs) ((p, a) ∷ cs)
      (fresh-not-mem message_node h h.fresh ((p, a) ∷ cs) c (omega arith)) (has-last_or p cs)

not-empty_of_mem : (q : Ptr) (cs : Cells) → has q cs ≡ true → is_empty cs ≡ false
not-empty_of_mem q [] m = cc
not-empty_of_mem q (c ∷ cs) m = refl

goes_last_of_late :
    (r : ClientRequest) (cs : Cells)
    → is_late r cs ≡ true
    → (goes_last r cs ≡ true) × (is_empty cs ≡ false)
goes_last_of_late r [] e = cc
goes_last_of_late r (c ∷ cs) e = (ground arith, refl)

module _ (r : ClientRequest) (g : Group) (h : Heap) (cs : Cells) where
  -- a node in its place
  Grown-Merges :
      (ds : Cells) (tail : Ptr) (out : Inserted) (k : Heap)
      → length cs < h.fresh
      → holds r cs ≡ false
      → ds ≡ place r (h.fresh, (none, created r)) cs
      → (tail == last_or nil (place r (h.fresh, (none, created r)) cs))
        ≡ not (overtakes r (messages cs))
      → Grown r g h cs ds tail out k
      → Merges r g cs out k
  Grown-Merges ds tail out k room e placed t gr =
      merges (number_cells (pos 0) ds) gr.list (merge-new r h.fresh cs ds e placed)
        (rw (gr.tail_is, last-number_cells nil (pos 0) ds, placed, known-messages r cs, e) t)
        gr.servers (rw (known-messages r cs, e) gr.lamport)
        (rw (known-messages r cs, e, gr.node) (ground arith))
        (λ b. absurd (ground (arith, known-messages r cs)))

  Found-Merges :
      (k : Heap)
      → IsList h g.message_list cs
      → g.message_list.tail ≡ last_or nil cs
      → Found r h cs k
      → Merges r g cs (record { node = nil; refresh = false; group = g }) k
  Found-Merges k is tl f =
      merges (replace r cs)
        (record {
          chain = f.chain;
          head = is.head ∙ sym (first-replace r cs);
          count = is.count ∙ ap pos (sym (length-replace r cs));
          fits = omega (arith, length-replace r cs, is.fits);
          room = omega (arith, length-replace r cs, is.room, f.fresh);
          window = window-replace g.message_list.ten_start r cs ∙ is.window;
        })
        (merge-known r cs f.there)
        (rw (tl, has-replace_last nil r cs, known-messages r cs, f.there)
          (==_self (last_or nil cs)))
        (λ s i e. (i, e)) (rw (known-messages r cs, f.there) refl)
        (rw (known-messages r cs, f.there) refl) (λ _. refl)

  -- the tail, case by case
  module _ (is : IsList h g.message_list cs) (s : Sorted cs) where
    abbrev last : Ptr
    last = last_or nil (place r (h.fresh, (none, created r)) cs)

    tail_behind :
        is_empty cs ≡ false
        → is_late r cs ≡ false
        → (last_or nil cs == last) ≡ not (overtakes r (messages cs))
    tail_behind full early = elim (Bool-cases (goes_last r cs)) [
      | inl e ↦ rw (
        overtakes-messages r cs,
        last-place r h.fresh (none, created r) cs e s,
        e,
        full,
        early,
        last-not-fresh h cs is.chain full,
      )
      | inr e ↦
          rw (overtakes-messages r cs, last-place_before r h.fresh (none, created r) cs e, e)
            (==_self (last_or nil cs))
    ]

    tail_at_head :
        goes_last r cs ≡ is_empty cs
        → ((if is_empty cs then h.fresh else last_or nil cs) == last)
          ≡ not (overtakes r (messages cs))
    tail_at_head e = elim (Bool-cases (is_empty cs)) [
      | inl n ↦
          rw (overtakes-messages r cs, last-place r h.fresh (none, created r) cs (e ∙ n) s, e, n)
            (==_self h.fresh)
      | inr n ↦
          rw
            (
              overtakes-messages r cs,
              last-place_before r h.fresh (none, created r) cs (e ∙ n),
              e,
              n,
            )
            (==_self (last_or nil cs))
    ]

    tail_at_tail : is_late r cs ≡ true → (h.fresh == last) ≡ not (overtakes r (messages cs))
    tail_at_tail late =
        let (e, full) = goes_last_of_late r cs late in
        rw (overtakes-messages r cs, last-place r h.fresh (none, created r) cs e s, e, full, late)
          (==_self h.fresh)

  -- What put_message does with what LamportPlace found.
  put_message-Merges :
      (flag2 : Bool) (out : Ptr × Bool) (k : Heap)
      → IsList h g.message_list cs
      → g.message_list.tail ≡ last_or nil cs
      → Sorted cs
      → KnowsServer flag2 r g
      → suc (length cs) < 2147483647
      → Placed r h cs out k
      → Returns (Merges r g cs) (put_message flag2 r g out.0 out.1 k)
  unfolding put_message
  put_message-Merges flag2 _ _ is tl s kn fits (at_head absent here gl) =
      Returns.weaken (insert_at_head_lem flag2 r g h cs is kn fits) λ o k' gr.
        Grown-Merges _ _ o k' is.room absent (sym (here _)) (rw tl (tail_at_head is s gl)) gr
  put_message-Merges flag2 _ k is tl s kn fits (walked (found f) early) =
      returns (Found-Merges k is tl f)
  put_message-Merges flag2 _ _ is tl s kn fits (walked (behind {p} b) early) =
      let ne : (p == nil) ≡ false =
        ne_of_mem_sym nil p cs (nil-not-mem message_node h cs is.chain) b.mem in
      rw ne (
        Returns.weaken (insert_after_node_lem flag2 r g h cs p true is kn b.mem fits) λ o k' gr.
          Grown-Merges _ _ o k' is.room b.absent (b.placed _)
            (rw tl (tail_behind is s (not-empty_of_mem p cs b.mem) (early refl))) gr)
  put_message-Merges flag2 _ _ is tl s kn fits (at_tail b late) =
      let p = last_or nil cs in
      let ne : (p == nil) ≡ false =
        ne_of_mem_sym nil p cs (nil-not-mem message_node h cs is.chain) b.mem in
      rw ne (
        Returns.weaken (insert_after_node_lem flag2 r g h cs p false is kn b.mem fits) λ o k' gr.
          Grown-Merges _ _ o k' is.room b.absent (b.placed _) (tail_at_tail is s late) gr)

-- The request is new to the group: Insertion is not asked to acknowledge it, or its index lies
-- above the last that was acknowledged.
abbrev pub IsNew : Bool → ClientRequest → Group → Type 0
IsNew flag2 r g =
    (flag2 ≡ false)
    ⊎ ((i : Information) × (lookup r.from_server g.replica_info ≡ some i)
        × (leb_ℤ r.map_index i.msg_timestamp ≡ false))

pub redundant_lem :
    (flag2 : Bool) (r : ClientRequest) (g : Group) (h : Heap)
    → IsNew flag2 r g
    → redundant flag2 r g h ≡ ok false h
unfolding redundant need
redundant_lem false r g h n = refl
redundant_lem true r g h (inl e) = cc
redundant_lem true r g h (inr (i, e, lt)) = ground arith

pub knows_of_new :
    (flag2 : Bool) (r : ClientRequest) (g : Group) → IsNew flag2 r g → KnowsServer flag2 r g
knows_of_new flag2 r g (inl e) = inl e
knows_of_new flag2 r g (inr (i, e, lt)) = inr (i, e)

-- On a well-formed group whose list is ascending and whose tail is right, for a request that is not
-- redundant, the message branch of Insertion returns, and the group's list stands for `merge` of the
-- request into the messages that were there. It is well formed again, and its tail is right again
-- except exactly where a new message has overtaken the tail.
pub insertion_message-merge :
    (flag2 : Bool) (r : ClientRequest) (g : Group) (h : Heap) (cs : Cells)
    → IsList h g.message_list cs
    → g.message_list.tail ≡ last_or nil cs
    → Ascending (messages cs)
    → IsNew flag2 r g
    → suc (length cs) < 2147483647
    → Returns (Merges r g cs) (insertion_message flag2 r g h)
unfolding insertion_message
insertion_message-merge flag2 r g h cs is tl asc new fits =
    let s = Ascending→Sorted cs asc in
    rw (redundant_lem flag2 r g h new) (
      Returns.bind (lamport_place_lem r h g cs is.chain s is.head tl is.room) λ out k p.
        put_message-Merges r g h cs flag2 out k is tl s (knows_of_new flag2 r g new) fits p)
