-- ===== src/Heap/Chain.antt =====
-- Chains of nodes: the list that a head pointer leads through, and what writes do to it. The
-- payload of a node is what it holds beside its `Next`.
use selected_course_projects.Prelude.{
  ◌≤◌, ◌<◌, ◌≡◌, ◌≢◌, refl, ap, Bool, true, false, ◌||◌, some, inl, inr, List, [], ◌∷◌, ◌++◌, arith,
  ◌==◌, if◌then◌else◌, Bool-cases, ==_iff,
}
use selected_course_projects.Data.{Ptr, nil, Node}
use selected_course_projects.Heap.{Heap}

module _ {P : Type 0} where
  abbrev pub first : List (Ptr × P) → Ptr
  first [] = nil
  first ((p, _) ∷ cs) = p

  -- the last node, or a given pointer if there is none
  abbrev pub last_or : Ptr → List (Ptr × P) → Ptr
  last_or p [] = p
  last_or p ((q, _) ∷ cs) = last_or q cs

  abbrev pub last_payload : P → List (Ptr × P) → P
  last_payload a [] = a
  last_payload a ((q, b) ∷ cs) = last_payload b cs

  abbrev pub has : Ptr → List (Ptr × P) → Bool
  has q [] = false
  has q ((p, _) ∷ cs) = (p == q) || has q cs

  unfoldable pub insert_after : Ptr → Ptr × P → List (Ptr × P) → List (Ptr × P)
  insert_after r c [] = []
  insert_after r c ((q, a) ∷ cs) =
      let rest = insert_after r c cs in if q == r then (q, a) ∷ c ∷ cs else (q, a) ∷ rest

  -- The payload of a node replaced.
  unfoldable pub set_at : Ptr → (P → P) → List (Ptr × P) → List (Ptr × P)
  set_at r f [] = []
  set_at r f ((q, a) ∷ cs) =
      let rest = set_at r f cs in if q == r then (q, f a) ∷ cs else (q, a) ∷ rest

  pub set_at-append :
      (p : Ptr) (f : P → P) (b : P) (cs : List (Ptr × P))
      → has p cs ≡ false
      → set_at p f (cs ++ (p, b) ∷ []) ≡ cs ++ (p, f b) ∷ []
  unfolding set_at
  set_at-append p f b [] o = ground arith
  set_at-append p f b ((q, a) ∷ cs) o =
      let ne : (q == p) ≡ false = ground arith in
      rw ne (ap (◌∷◌ (q, a)) (set_at-append p f b cs (ground arith)))

  pub first-set_at : (r : Ptr) (f : P → P) (cs : List (Ptr × P)) → first (set_at r f cs) ≡ first cs
  unfolding set_at
  first-set_at r f [] = refl
  first-set_at r f ((q, a) ∷ cs) = ground arith

  pub has-set_at : (q r : Ptr) (f : P → P) (cs : List (Ptr × P)) → has q (set_at r f cs) ≡ has q cs
  unfolding set_at
  has-set_at q r f [] = refl
  has-set_at q r f ((s, a) ∷ cs) = ground (arith, has-set_at q r f cs)

  pub has-last_or :
      (p : Ptr) (cs : List (Ptr × P)) → ((p == last_or p cs) || has (last_or p cs) cs) ≡ true
  has-last_or p [] = ground arith
  has-last_or p ((q, a) ∷ cs) = ground (arith, has-last_or q cs)

  pub ne_of_mem :
      (p q : Ptr) (cs : List (Ptr × P)) → has p cs ≡ false → has q cs ≡ true → (p == q) ≡ false
  ne_of_mem p q cs out mem = elim (Bool-cases (p == q)) [
    | inl e ↦ let p≡q : p ≡ q = (==_iff p q).0 e in cc (ap (λ (s : Ptr). has s cs) p≡q)
    | inr e ↦ e
  ]

  pub ne_of_mem_sym :
      (p q : Ptr) (cs : List (Ptr × P)) → has p cs ≡ false → has q cs ≡ true → (q == p) ≡ false
  ne_of_mem_sym p q cs out mem = ground (arith, ne_of_mem p q cs out mem)

  pub first-insert_after :
      (r : Ptr) (c : Ptr × P) (cs : List (Ptr × P)) → first (insert_after r c cs) ≡ first cs
  unfolding insert_after
  first-insert_after r c [] = refl
  first-insert_after r c ((q, a) ∷ cs) = ground arith

  pub has-insert_after :
      (q r p : Ptr) (b : P) (cs : List (Ptr × P))
      → (p == q) ≡ false
      → has q (insert_after r (p, b) cs) ≡ has q cs
  unfolding insert_after
  has-insert_after q r p b [] h = refl
  has-insert_after q r p b ((s, a) ∷ cs) h = ground (arith, has-insert_after q r p b cs h)

-- `mk` is the node that holds a payload in front of a pointer.
module _ {P : Type 0} (mk : P → Ptr → Node) where
  abbrev pub Chain : Heap → List (Ptr × P) → Type 0
  Chain h [] = Unit {0}
  Chain h ((p, a) ∷ cs) =
      (p ≢ nil)
      × (p < h.fresh)
      × (h.cell p ≡ some (mk a (first cs)))
      × (has p cs ≡ false)
      × Chain h cs

  pub nil-not-mem : (h : Heap) (cs : List (Ptr × P)) → Chain h cs → has nil cs ≡ false
  nil-not-mem h [] c = refl
  nil-not-mem h ((p, a) ∷ cs) c = ground (arith, nil-not-mem h cs c.4)

  pub fresh-not-mem :
      (h : Heap) (q : Ptr) (cs : List (Ptr × P)) → Chain h cs → h.fresh ≤ q → has q cs ≡ false
  fresh-not-mem h q [] c le = refl
  fresh-not-mem h q ((p, a) ∷ cs) c le = ground (arith, fresh-not-mem h q cs c.4 le)

  -- A chain survives a change that spares its nodes.
  pub frame :
      (h g : Heap) (cs : List (Ptr × P))
      → Chain h cs
      → h.fresh ≤ g.fresh
      → ((q : Ptr) → has q cs ≡ true → g.cell q ≡ h.cell q)
      → Chain g cs
  frame h g [] c le same = tt
  frame h g ((p, a) ∷ cs) c le same = (
    c.0,
    omega arith,
    ground (arith, same p),
    c.3,
    frame h g cs c.4 le λ q m. same q (ground arith),
  )

  -- Linking a new node `p` behind the node `r`.
  pub Chain-insert_after :
      (h g : Heap) (r p : Ptr) (b : P) (cs : List (Ptr × P))
      → Chain h cs
      → has r cs ≡ true
      → has p cs ≡ false
      → p ≢ nil
      → p < g.fresh
      → h.fresh ≤ g.fresh
      → ((q : Ptr) → has q cs ≡ true → (q == r) ≡ false → g.cell q ≡ h.cell q)
      → ((a : P) (e : Ptr)
          → h.cell r ≡ some (mk a e)
          → (g.cell r ≡ some (mk a p)) × (g.cell p ≡ some (mk b e)))
      → Chain g (insert_after r (p, b) cs)
  unfolding insert_after
  Chain-insert_after h g r p b [] c mr mp np lp le same at = tt
  Chain-insert_after h g r p b ((q, a) ∷ cs) c mr mp np lp le same at = elim (Bool-cases (q == r)) [
    | inl e ↦
        let q≡r : q ≡ r = (==_iff q r).0 e in
        rw e (
          c.0,
          omega arith,
          ground (arith, at a (first cs)),
          ground arith,
          (
            np,
            lp,
            (at a (first cs) (rw (← q≡r) c.2)).1,
            ground arith,
            frame h g cs c.4 le λ s m. same s (ground arith) (ground arith),
          ),
        )
    | inr e ↦ rw e (
      c.0,
      omega arith,
      ground (arith, same q, first-insert_after r (p, b) cs),
      ground (arith, has-insert_after q r p b cs),
      Chain-insert_after h g r p b cs c.4 (ground arith) (ground arith) np lp le
          (λ s m n. same s (ground arith) n) at,
    )
  ]

  -- Another payload in the node `r`.
  pub Chain-set_at :
      (h g : Heap) (r : Ptr) (f : P → P) (cs : List (Ptr × P))
      → Chain h cs
      → h.fresh ≤ g.fresh
      → ((q : Ptr) → has q cs ≡ true → (q == r) ≡ false → g.cell q ≡ h.cell q)
      → ((a : P) (e : Ptr) → h.cell r ≡ some (mk a e) → g.cell r ≡ some (mk (f a) e))
      → Chain g (set_at r f cs)
  unfolding set_at
  Chain-set_at h g r f [] c le same at = tt
  Chain-set_at h g r f ((q, a) ∷ cs) c le same at = elim (Bool-cases (q == r)) [
    | inl e ↦
        let q≡r : q ≡ r = (==_iff q r).0 e in
        rw e (
          c.0,
          omega arith,
          ground (arith, at a (first cs)),
          c.3,
          frame h g cs c.4 le λ s m. same s (ground arith) (ground arith),
        )
    | inr e ↦ rw e (
      c.0,
      omega arith,
      ground (arith, same q, first-set_at r f cs),
      ground (arith, has-set_at q r f cs),
      Chain-set_at h g r f cs c.4 le (λ s m n. same s (ground arith) n) at,
    )
  ]

  -- Inserting behind the last node appends.
  pub insert_after-last :
      (h : Heap) (p : Ptr) (a : P) (c : Ptr × P) (cs : List (Ptr × P))
      → Chain h ((p, a) ∷ cs)
      → insert_after (last_or p cs) c ((p, a) ∷ cs) ≡ (p, a) ∷ cs ++ c ∷ []
  unfolding insert_after
  insert_after-last h p a c [] w = ground arith
  insert_after-last h p a c ((q, b) ∷ cs) w =
      rw (ne_of_mem p (last_or q cs) ((q, b) ∷ cs) w.3 (has-last_or q cs))
        (ap (◌∷◌ (p, a)) (insert_after-last h q b c cs w.4))

  pub Chain-last :
      (h : Heap) (p : Ptr) (a : P) (cs : List (Ptr × P))
      → Chain h ((p, a) ∷ cs)
      → (last_or p cs ≢ nil) × (h.cell (last_or p cs) ≡ some (mk (last_payload a cs) nil))
  Chain-last h p a [] c = (c.0, c.2)
  Chain-last h p a ((q, b) ∷ cs) c = Chain-last h q b cs c.4

  -- a cell of a chain, by its address
  pub Chain-at :
      (h : Heap) (q : Ptr) (cs : List (Ptr × P))
      → Chain h cs
      → has q cs ≡ true
      → (a : P) × (e : Ptr) × (q ≢ nil) × (h.cell q ≡ some (mk a e))
  Chain-at h q [] c m = cc
  Chain-at h q ((p, a) ∷ cs) c m = elim (Bool-cases (p == q)) [
    | inl e ↦ (a, first cs, ground arith, ground arith)
    | inr e ↦ Chain-at h q cs c.4 (ground arith)
  ]

  pub first-ne_nil :
      (h : Heap) (t : Ptr) (cs : List (Ptr × P))
      → Chain h cs
      → has t cs ≡ true
      → (first cs == nil) ≡ false
  first-ne_nil h t [] c m = cc
  first-ne_nil h t ((p, a) ∷ cs) c m = ground arith
