-- ===== src/Placement/Walk.antt =====
-- The walk of LamportPlace from a node that comes before the request's place.
use selected_course_projects.Prelude.{
  ℕ, zero, suc, ◌<◌, ◌≡◌, refl, ap, Bool, true, false, inl, inr, [], ◌∷◌, arith, length, ◌==◌, ◌⊎◌,
}
use selected_course_projects.Prelude.Int.{eqb_ℤ, ltb_ℤ}
use selected_course_projects.Exec.{ok}
use selected_course_projects.Exec.Returns
use selected_course_projects.Exec.Returns.{Returns, returns}
use selected_course_projects.Data.{Ptr, nil, Message, ClientRequest}
use selected_course_projects.Heap.{Heap, write}
use selected_course_projects.Heap.Access.{load_lem, load_message_lem, store_message_lem}
use selected_course_projects.Heap.Chain.{Chain, has, first, insert_after, frame, ne_of_mem}
use selected_course_projects.Placement.{lamport_walk, replaced}
use selected_course_projects.Placement.Order.{
  Payload, message_node, Cells, precedes, same_key, holds, place, replace, Sorted, first-replace,
  has-replace, holds_of_Above,
}

-- The message was there and was replaced, and no other node changed.
pub record Found (r : ClientRequest) (h : Heap) (cs : Cells) (g : Heap) : Type 0 where
  pub there : holds r cs ≡ true
  pub chain : Chain message_node g (replace r cs)
  pub fresh : g.fresh ≡ h.fresh
  pub outside : (q : Ptr) → has q cs ≡ false → g.cell q ≡ h.cell q

-- Behind the node `p` is the place of the message, which was not there.
pub record Behind (r : ClientRequest) (cs : Cells) (p : Ptr) : Type 0 where
  pub absent : holds r cs ≡ false
  pub mem : has p cs ≡ true
  pub placed : (c : Ptr × Payload) → insert_after p c cs ≡ place r c cs

pub data Walked (r : ClientRequest) (h : Heap) (cs : Cells) : Ptr × Bool → Heap → Type 0 where
  found : {g : Heap} → Found r h cs g → Walked r h cs (nil, false) g
  behind : {p : Ptr} → Behind r cs p → Walked r h cs (p, true) h

pub key_cases :
    (m : Message) (r : ClientRequest)
    → (same_key m r ≡ true)
      ⊎ (precedes m r ≡ true)
      ⊎ ((precedes m r ≡ false) × (same_key m r ≡ false))
key_cases m r = ground arith

-- the tests of the loop at a message that comes before
precedes_cases :
    (m : Message) (r : ClientRequest)
    → precedes m r ≡ true
    → ((eqb_ℤ m.lamport r.timestamp ≡ false) × (ltb_ℤ m.lamport r.timestamp ≡ true))
      ⊎ ((eqb_ℤ m.lamport r.timestamp ≡ true)
          × (eqb_ℤ m.replica r.replica ≡ false)
          × (ltb_ℤ r.replica m.replica ≡ false))
precedes_cases m r h = ground arith

module _ (r : ClientRequest) (h : Heap) where
  -- The node where the replacement happens.
  pub Found-here :
      (p : Ptr) (a : Payload) (cs : Cells)
      → Chain message_node h ((p, a) ∷ cs)
      → same_key a.1 r ≡ true
      → Found r h ((p, a) ∷ cs) (write h p (message_node (a.0, replaced r a.1) (first cs)))
  unfolding replace write
  Found-here p (a, m) cs c k = record {
    there = ground arith;
    chain = rw k (
      c.0,
      c.1,
      ground arith,
      c.3,
      frame message_node h _ cs c.4 (ground arith) λ q i. ground (arith, ne_of_mem p q cs c.3 i),
    );
    fresh = refl;
    outside = λ q o. ground arith;
  }

  -- One more node in front.
  Found-next :
      (p : Ptr) (a : Payload) (cs : Cells) (g : Heap)
      → Chain message_node h ((p, a) ∷ cs)
      → same_key a.1 r ≡ false
      → Found r h cs g
      → Found r h ((p, a) ∷ cs) g
  unfolding replace
  Found-next p (a, m) cs g c k f = record {
    there = ground (arith, f.there);
    chain = rw k (
      c.0,
      ground (arith, f.fresh),
      ground (arith, f.outside p c.3, first-replace r cs),
      ground (arith, has-replace p r cs),
      f.chain,
    );
    fresh = f.fresh;
    outside = λ q o. f.outside q (ground arith);
  }

  Behind-next :
      (p q : Ptr) (a : Payload) (cs : Cells)
      → has p cs ≡ false
      → precedes a.1 r ≡ true
      → Behind r cs q
      → Behind r ((p, a) ∷ cs) q
  unfolding insert_after place
  Behind-next p q (a, m) cs out k b = record {
    absent = ground (arith, b.absent);
    mem = ground (arith, b.mem);
    placed = λ c. rw (k, ne_of_mem p q cs out b.mem) (ap (◌∷◌ (p, (a, m))) (b.placed c));
  }

  -- The place is right behind the first node.
  Behind-here :
      (p : Ptr) (a : Payload) (cs : Cells)
      → precedes a.1 r ≡ true
      → holds r cs ≡ false
      → ((c : Ptr × Payload) → place r c cs ≡ c ∷ cs)
      → Behind r ((p, a) ∷ cs) p
  unfolding insert_after place
  Behind-here p (a, m) cs k absent here = record {
    absent = ground arith;
    mem = ground arith;
    placed = λ c. rw k (ground (arith, here c));
  }

  pub place-here :
      (p : Ptr) (a : Payload) (cs : Cells) (c : Ptr × Payload)
      → precedes a.1 r ≡ false
      → place r c ((p, a) ∷ cs) ≡ c ∷ (p, a) ∷ cs
  unfolding place
  place-here p (a, m) cs c k = rw k refl

  Walked-next :
      (p : Ptr) (a : Payload) (cs : Cells) (out : Ptr × Bool) (g : Heap)
      → Chain message_node h ((p, a) ∷ cs)
      → precedes a.1 r ≡ true
      → Walked r h cs out g
      → Walked r h ((p, a) ∷ cs) out g
  Walked-next p a cs _ g c k (found f) = found (Found-next p a cs g c (ground arith) f)
  Walked-next p a cs _ g c k (behind {p = q} b) = behind (Behind-next p q a cs c.3 k b)

  -- One round of the loop, at a node with a successor.
  module _ (k : ℕ) (p : Ptr) (a : Payload) (q : Ptr) (b : Payload) (cs : Cells) where
    walk-same_key :
        Chain message_node h ((p, a) ∷ (q, b) ∷ cs)
        → same_key b.1 r ≡ true
        → lamport_walk (suc k) r p h
          ≡ ok (nil, false) (write h q (message_node (b.0, replaced r b.1) (first cs)))
    unfolding lamport_walk
    walk-same_key c same =
        let l : eqb_ℤ b.1.lamport r.timestamp ≡ true = ground arith in
        let t : eqb_ℤ b.1.replica r.replica ≡ true = ground arith in
        let ne : (q == nil) ≡ false = ground arith in
        rw (
          load_lem h p c.0 c.2,
          ne,
          load_message_lem h q c.4.0 c.4.2 b.1 refl,
          l,
          t,
          load_message_lem h q c.4.0 c.4.2 b.1 refl,
          store_message_lem h q c.4.0 c.4.2 (replaced r b.1),
        )

    walk-precedes :
        Chain message_node h ((p, a) ∷ (q, b) ∷ cs)
        → precedes b.1 r ≡ true
        → lamport_walk (suc k) r p h ≡ lamport_walk k r q h
    unfolding lamport_walk
    walk-precedes c pre =
        let ne : (q == nil) ≡ false = ground arith in
        rw (load_lem h p c.0 c.2, ne, load_message_lem h q c.4.0 c.4.2 b.1 refl)
          (elim (precedes_cases b.1 r pre) [
            | inl (e, l) ↦ rw (e, l)
            | inr (e, f, l) ↦ rw (e, f, l)
          ])

    walk-stop :
        Chain message_node h ((p, a) ∷ (q, b) ∷ cs)
        → precedes b.1 r ≡ false
        → same_key b.1 r ≡ false
        → lamport_walk (suc k) r p h ≡ ok (p, true) h
    unfolding lamport_walk
    walk-stop c pre same =
        let ne : (q == nil) ≡ false = ground arith in
        rw (load_lem h p c.0 c.2, ne, load_message_lem h q c.4.0 c.4.2 b.1 refl) (ground arith)

  -- With one round for each node, the walk finds the message or its place.
  pub lamport_walk_lem :
      (k : ℕ) (p : Ptr) (a : Payload) (cs : Cells)
      → Chain message_node h ((p, a) ∷ cs)
      → Sorted cs
      → precedes a.1 r ≡ true
      → length cs < k
      → Returns (Walked r h ((p, a) ∷ cs)) (lamport_walk k r p h)
  unfolding lamport_walk place
  lamport_walk_lem zero p a cs c s pre lt = absurd (omega arith)
  lamport_walk_lem (suc k) p a [] c s pre lt =
      rw (load_lem h p c.0 c.2) (returns (behind (Behind-here p a [] pre refl λ c'. refl)))
  lamport_walk_lem (suc k) p a ((q, b) ∷ cs) c s pre lt = elim (key_cases b.1 r) [
    | inl same ↦ rw (walk-same_key k p a q b cs c same) (
        returns
          (found (Found-next p a ((q, b) ∷ cs) _ c (ground arith) (Found-here q b cs c.4 same))))
    | inr (inl before) ↦ rw (walk-precedes k p a q b cs c before) (
        Returns.weaken (lamport_walk_lem k q b cs c.4 s.1 before (omega arith))
          λ out g w. Walked-next p a ((q, b) ∷ cs) out g c pre w)
    | inr (inr (after, other)) ↦ rw (walk-stop k p a q b cs c after other) (
        returns (
          behind (
            Behind-here p a ((q, b) ∷ cs) pre
              (ground (arith, holds_of_Above r b.1 cs after other s.0))
              λ c'. place-here q b cs c' after)))
  ]
