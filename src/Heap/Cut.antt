-- ===== src/Heap/Cut.antt =====
-- A chain that a write to one node cuts: the nodes behind it are not reached any more.
use selected_course_projects.Prelude.{
  ◌≤◌, ◌<◌, ◌≡◌, ◌≢◌, refl, ap, true, false, some, inl, inr, List, [], ◌∷◌, ◌++◌, arith, ◌==◌,
  if◌then◌else◌, Bool-cases, ==_iff,
}
use selected_course_projects.Data.{Ptr, nil, Node}
use selected_course_projects.Heap.{Heap}
use selected_course_projects.Heap.Chain.{Chain, first, has, last_or, has-last_or, ne_of_mem}

module _ {P : Type 0} where
  -- the nodes up to `t`
  unfoldable pub upto : Ptr → List (Ptr × P) → List (Ptr × P)
  upto t [] = []
  upto t ((q, a) ∷ cs) = let rest = upto t cs in if q == t then (q, a) ∷ [] else (q, a) ∷ rest

  pub first-upto :
      (t : Ptr) (c : Ptr × P) (cs : List (Ptr × P))
      → has t cs ≡ true
      → first (upto t cs ++ c ∷ []) ≡ first cs
  unfolding upto
  first-upto t c [] m = cc
  first-upto t c ((q, a) ∷ cs) m = elim (Bool-cases (q == t)) [
    | inl e ↦ rw e refl
    | inr e ↦ rw e refl
  ]

  pub has-upto :
      (q t p : Ptr) (b : P) (cs : List (Ptr × P))
      → has q cs ≡ false
      → (p == q) ≡ false
      → has q (upto t cs ++ (p, b) ∷ []) ≡ false
  unfolding upto
  has-upto q t p b [] o ne = ground arith
  has-upto q t p b ((s, a) ∷ cs) o ne =
      let ih = has-upto q t p b cs (ground arith) ne in
      elim (Bool-cases (s == t)) [ inl e ↦ rw e (ground arith) | inr e ↦ rw e (ground (arith, ih)) ]

  pub has-upto-false :
      (q t : Ptr) (cs : List (Ptr × P)) → has q cs ≡ false → has q (upto t cs) ≡ false
  unfolding upto
  has-upto-false q t [] o = refl
  has-upto-false q t ((s, a) ∷ cs) o =
      let ih = has-upto-false q t cs (ground arith) in
      elim (Bool-cases (s == t)) [ inl e ↦ rw e (ground arith) | inr e ↦ rw e (ground (arith, ih)) ]

  abbrev pub Distinct : List (Ptr × P) → Type 0
  Distinct [] = Unit {0}
  Distinct ((q, a) ∷ cs) = (has q cs ≡ false) × Distinct cs

  pub upto-Distinct :
      (p : Ptr) (a : P) (cs : List (Ptr × P))
      → Distinct ((p, a) ∷ cs)
      → upto (last_or p cs) ((p, a) ∷ cs) ≡ (p, a) ∷ cs
  unfolding upto
  upto-Distinct p a [] d = ground arith
  upto-Distinct p a ((q, b) ∷ cs) d =
      rw (ne_of_mem p (last_or q cs) ((q, b) ∷ cs) d.0 (has-last_or q cs))
        (ap (◌∷◌ (p, a)) (upto-Distinct q b cs d.1))

  pub upto-append :
      (t : Ptr) (cs ds : List (Ptr × P)) → has t cs ≡ true → upto t (cs ++ ds) ≡ upto t cs
  unfolding upto
  upto-append t [] ds m = cc
  upto-append t ((q, a) ∷ cs) ds m = elim (Bool-cases (q == t)) [
    | inl e ↦ rw e refl
    | inr e ↦ rw e (ap (◌∷◌ (q, a)) (upto-append t cs ds (ground arith)))
  ]

module _ {P : Type 0} (mk : P → Ptr → Node) where
  pub Chain-Distinct : (h : Heap) (cs : List (Ptr × P)) → Chain mk h cs → Distinct cs
  Chain-Distinct h [] c = tt
  Chain-Distinct h ((p, a) ∷ cs) c = (c.3, Chain-Distinct h cs c.4)

  pub Chain-upto :
      (h g : Heap) (t p : Ptr) (b : P) (cs : List (Ptr × P))
      → Chain mk h cs
      → has t cs ≡ true
      → has p cs ≡ false
      → p ≢ nil
      → p < g.fresh
      → h.fresh ≤ g.fresh
      → ((q : Ptr) → has q cs ≡ true → (q == t) ≡ false → g.cell q ≡ h.cell q)
      → ((a : P) (e : Ptr) → h.cell t ≡ some (mk a e) → g.cell t ≡ some (mk a p))
      → g.cell p ≡ some (mk b nil)
      → Chain mk g (upto t cs ++ (p, b) ∷ [])
  unfolding upto
  Chain-upto h g t p b [] c mt mp np lp le same at new = cc
  Chain-upto h g t p b ((q, a) ∷ cs) c mt mp np lp le same at new = elim (Bool-cases (q == t)) [
    | inl e ↦
        let q≡t : q ≡ t = (==_iff q t).0 e in
        rw e
          (c.0, omega arith, ground (arith, at a (first cs)), ground arith, (np, lp, new, refl, tt))
    | inr e ↦ rw e (
      c.0,
      omega arith,
      ground (arith, same q, first-upto t (p, b) cs),
      has-upto q t p b cs c.3 (ground arith),
      Chain-upto h g t p b cs c.4 (ground arith) (ground arith) np lp le
          (λ s m n. same s (ground arith) n) at new,
    )
  ]

  -- A write to the last node cuts nothing.
  pub upto-last :
      (h : Heap) (p : Ptr) (a : P) (cs : List (Ptr × P))
      → Chain mk h ((p, a) ∷ cs)
      → upto (last_or p cs) ((p, a) ∷ cs) ≡ (p, a) ∷ cs
  upto-last h p a cs c = upto-Distinct p a cs (Chain-Distinct h ((p, a) ∷ cs) c)
