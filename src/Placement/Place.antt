-- ===== src/Placement/Place.antt =====
-- LamportPlace as a whole: it finds the message or its place.
use selected_course_projects.Prelude.{
  ◌<◌, ◌≡◌, refl, sym, ap, ◌∙◌, Bool, true, false, inl, inr, [], ◌∷◌, ◌++◌, arith, length,
  Bool-cases, ◌==◌, ◌⊎◌,
}
use selected_course_projects.Prelude.Int.{eqb_ℤ, ltb_ℤ}
use selected_course_projects.Exec.Returns
use selected_course_projects.Exec.Returns.{Returns, returns}
use selected_course_projects.Data.{Ptr, nil, Group, Message, ClientRequest}
use selected_course_projects.Heap.{Heap}
use selected_course_projects.Heap.Access.{load_message_lem, store_message_lem}
use selected_course_projects.Heap.Chain.{
  Chain, Chain-last, has-last_or, first, last_or, last_payload, insert_after-last,
}
use selected_course_projects.LinkedList.IsList.{is_empty}
use selected_course_projects.Placement.{lamport_place, lamport_walk, replaced}
use selected_course_projects.Placement.Order.{
  Payload, message_node, Cells, precedes, same_key, holds, place, Sorted, holds_of_Above,
  Above-last, goes_last, is_late,
}
use selected_course_projects.Placement.Walk.{
  Found-here, Behind, Walked, found, place-here, lamport_walk_lem,
}

pub data Placed (r : ClientRequest) (h : Heap) (cs : Cells) : Ptr × Bool → Heap → Type 0 where
  -- in front of all messages
  at_head :
      holds r cs ≡ false
      → ((c : Ptr × Payload) → place r c cs ≡ c ∷ cs)
      → goes_last r cs ≡ is_empty cs
      → Placed r h cs (nil, true) h
  -- replaced, or behind a node that is not known to be the last
  walked :
      {out : Ptr × Bool} {g : Heap}
      → Walked r h cs out g
      → (out.1 ≡ true → is_late r cs ≡ false)
      → Placed r h cs out g
  -- behind the last node
  at_tail :
      Behind r cs (last_or nil cs) → is_late r cs ≡ true → Placed r h cs (last_or nil cs, false) h

pub place-last :
    (r : ClientRequest) (p : Ptr) (a : Payload) (cs : Cells) (c : Ptr × Payload)
    → Sorted ((p, a) ∷ cs)
    → precedes (last_payload a cs).1 r ≡ true
    → (place r c ((p, a) ∷ cs) ≡ (p, a) ∷ cs ++ c ∷ []) × (holds r ((p, a) ∷ cs) ≡ false)
unfolding place
place-last r p a [] c s pre = (rw pre, ground arith)
place-last r p a ((q, b) ∷ cs) c s pre =
    let here : precedes a.1 r ≡ true = Above-last r p a ((q, b) ∷ cs) s pre in
    let ih = place-last r q b cs c s.1 pre in (rw here (ap (◌∷◌ (p, a)) ih.0), ground (arith, ih.1))

-- The tests on the head's message, and what they say of its place.
head_cases :
    (m : Message) (r : ClientRequest)
    → ((ltb_ℤ r.timestamp m.lamport ≡ true) × (precedes m r ≡ false) × (same_key m r ≡ false))
      ⊎ ((ltb_ℤ r.timestamp m.lamport ≡ false)
          × (eqb_ℤ m.lamport r.timestamp ≡ true)
          × (ltb_ℤ r.replica m.replica ≡ true)
          × (precedes m r ≡ false)
          × (same_key m r ≡ false))
      ⊎ ((ltb_ℤ r.timestamp m.lamport ≡ false)
          × (eqb_ℤ m.lamport r.timestamp ≡ true)
          × (ltb_ℤ r.replica m.replica ≡ false)
          × (eqb_ℤ r.replica m.replica ≡ true)
          × (same_key m r ≡ true))
      ⊎ ((ltb_ℤ r.timestamp m.lamport ≡ false)
          × (eqb_ℤ m.lamport r.timestamp ≡ true)
          × (ltb_ℤ r.replica m.replica ≡ false)
          × (eqb_ℤ r.replica m.replica ≡ false)
          × (precedes m r ≡ true))
      ⊎ ((ltb_ℤ r.timestamp m.lamport ≡ false)
          × (eqb_ℤ m.lamport r.timestamp ≡ false)
          × (precedes m r ≡ true))
head_cases m r = ground arith

-- a message with a smaller timestamp comes before
precedes_of_lt :
    (m : Message) (r : ClientRequest) → ltb_ℤ m.lamport r.timestamp ≡ true → precedes m r ≡ true
precedes_of_lt m r h = ground arith

not_late_from :
    (r : ClientRequest) (p : Ptr) (a : Payload) (cs : Cells)
    → Sorted ((p, a) ∷ cs)
    → ltb_ℤ a.1.lamport r.timestamp ≡ false
    → ltb_ℤ (last_payload a cs).1.lamport r.timestamp ≡ false
not_late_from r p a [] s e = e
not_late_from r p a ((q, b) ∷ cs) s e = not_late_from r q b cs s.1 (ground (arith, s.0.0))

not_last :
    (r : ClientRequest) (p : Ptr) (a : Payload) (cs : Cells)
    → Sorted ((p, a) ∷ cs)
    → precedes a.1 r ≡ false
    → precedes (last_payload a cs).1 r ≡ false
not_last r p a cs s after = elim (Bool-cases (precedes (last_payload a cs).1 r)) [
  | inl e ↦ cc (Above-last r p a cs s e)
  | inr e ↦ e
]

-- Behind a message with the request's timestamp there is none with a smaller one.
not_late :
    (r : ClientRequest) (p : Ptr) (a : Payload) (cs : Cells)
    → Sorted ((p, a) ∷ cs)
    → eqb_ℤ a.1.lamport r.timestamp ≡ true
    → ltb_ℤ (last_payload a cs).1.lamport r.timestamp ≡ false
not_late r p a cs s e = not_late_from r p a cs s (ground arith)

module _ (r : ClientRequest) (h : Heap) (g : Group) where
  Behind-last :
      (p : Ptr) (a : Payload) (cs : Cells)
      → Chain message_node h ((p, a) ∷ cs)
      → Sorted ((p, a) ∷ cs)
      → precedes (last_payload a cs).1 r ≡ true
      → Behind r ((p, a) ∷ cs) (last_or p cs)
  Behind-last p a cs c s pre = record {
    absent = (place-last r p a cs (p, a) s pre).1;
    mem = has-last_or p cs;
    placed =
        λ c'. insert_after-last message_node h p a c' cs c ∙ sym (place-last r p a cs c' s pre).0;
  }

  -- From a list with the right tail, LamportPlace returns, and finds the message or its place.
  pub lamport_place_lem :
      (cs : Cells)
      → Chain message_node h cs
      → Sorted cs
      → g.message_list.head ≡ first cs
      → g.message_list.tail ≡ last_or nil cs
      → length cs < h.fresh
      → Returns (Placed r h cs) (lamport_place r g h)
  unfolding lamport_place place
  lamport_place_lem [] c s hd tl lt = rw hd (returns (at_head refl (λ c'. refl) refl))
  lamport_place_lem ((p, a) ∷ cs) c s hd tl lt =
      let ne : (p == nil) ≡ false = ground arith in
      let l = Chain-last message_node h p a cs c in
      let walk : precedes a.1 r ≡ true
          → is_late r ((p, a) ∷ cs) ≡ false
          → Returns (Placed r h ((p, a) ∷ cs)) (lamport_walk h.fresh r p h) =
        λ pre early.
          Returns.weaken (lamport_walk_lem r h h.fresh p a cs c s.1 pre (omega arith))
            λ out g' w. walked w (λ _. early) in
      let front : precedes a.1 r ≡ false
          → same_key a.1 r ≡ false
          → Placed r h ((p, a) ∷ cs) (nil, true) h =
        λ after other.
          at_head (ground (arith, holds_of_Above r a.1 cs after other s.0))
            (λ c'. place-here r h p a cs c' after) (not_last r p a cs s after) in
      rw (hd, ne, load_message_lem h p c.0 c.2 a.1 refl)
        (elim (head_cases a.1 r) [
          | inl (t, after, other) ↦ rw t (returns (front after other))
          | inr (inl (t, e, u, after, other)) ↦ rw (t, e, u) (returns (front after other))
          | inr (inr (inl (t, e, u, v, same))) ↦
              rw
                (
                  t,
                  e,
                  u,
                  v,
                  load_message_lem h p c.0 c.2 a.1 refl,
                  store_message_lem h p c.0 c.2 (replaced r a.1),
                )
                (returns (walked (found (Found-here r h p a cs c same)) (λ f. cc)))
          | inr (inr (inr (inl (t, e, u, v, pre)))) ↦
              rw (t, e, u, v) (walk pre (not_late r p a cs s e))
          | inr (inr (inr (inr (t, e, pre)))) ↦
              rw (t, e, tl, load_message_lem h _ l.0 l.1 (last_payload a cs).1 refl)
                (elim (Bool-cases (ltb_ℤ (last_payload a cs).1.lamport r.timestamp)) [
                  | inl lt' ↦ rw lt' (
                      returns (
                        at_tail
                          (Behind-last p a cs c s (precedes_of_lt (last_payload a cs).1 r lt'))
                          lt'))
                  | inr ge ↦ rw ge (walk pre ge)
                ])
        ])
