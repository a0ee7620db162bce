-- ===== src/Likes/Find.antt =====
-- The search for the message that a like names.
use mathlib.Core.Option.{some-injective}
use selected_course_projects.Prelude.{
  ℕ, zero, suc, ◌<◌, ◌≡◌, ◌≢◌, refl, sym, subst, ◌∙◌, true, false, Option, none, some, [], ◌∷◌,
  arith, length, ◌==◌, ==_iff, if◌then◌else◌, inl, inr, Bool-cases,
}
use selected_course_projects.Prelude.Int.{ℤ, eqb_ℤ}
use selected_course_projects.Exec.{ok}
use selected_course_projects.Data.{Ptr, nil}
use selected_course_projects.Heap.{Heap}
use selected_course_projects.Heap.Access.{load_lem, load_message_lem}
use selected_course_projects.Heap.Chain.{Chain, first, has, set_at, ne_of_mem}
use selected_course_projects.LinkedList.Cells.{Payload, message_node, Cells}
use selected_course_projects.Likes.{find_message}

-- the first node whose message has the identifier
unfoldable pub find_cell : ℤ → Cells → Option (Ptr × Payload)
find_cell id [] = none
find_cell id ((p, a) ∷ cs) =
    let rest = find_cell id cs in if eqb_ℤ a.1.msg_id id then some (p, a) else rest

abbrev pub address : Option (Ptr × Payload) → Ptr
address none = nil
address (some (p, a)) = p

-- The search returns that node, or nil, and changes nothing.
pub find_message_lem :
    (k : ℕ) (id : ℤ) (h : Heap) (cs : Cells)
    → Chain message_node h cs
    → length cs < k
    → find_message k id (first cs) h ≡ ok (address (find_cell id cs)) h
unfolding find_message find_cell
find_message_lem zero id h cs c lt = absurd (omega arith)
find_message_lem (suc k) id h [] c lt = refl
find_message_lem (suc k) id h ((p, a) ∷ cs) c lt =
    let ne : (p == nil) ≡ false = ground arith in
    rw (ne, load_message_lem h p c.0 c.2 a.1 refl, load_lem h p c.0 c.2)
      (elim (Bool-cases (eqb_ℤ a.1.msg_id id)) [
        | inl e ↦ rw e refl
        | inr e ↦ rw e (find_message_lem k id h cs c.4 (omega arith))
      ])

find_cell-cons :
    (id : ℤ) (q : Ptr) (b : Payload) (cs : Cells)
    → find_cell id ((q, b) ∷ cs) ≡ (if eqb_ℤ b.1.msg_id id then some (q, b) else find_cell id cs)
unfolding find_cell
find_cell-cons id q b cs = refl

found_here :
    (id : ℤ) (q : Ptr) (b : Payload) (cs : Cells) (x : Ptr × Payload)
    → eqb_ℤ b.1.msg_id id ≡ true
    → find_cell id ((q, b) ∷ cs) ≡ some x
    → (q, b) ≡ x
found_here id q b cs x y e =
    some-injective (q, b) x (sym (find_cell-cons id q b cs ∙ rw y refl) ∙ e)

found_later :
    (id : ℤ) (q : Ptr) (b : Payload) (cs : Cells) (x : Ptr × Payload)
    → eqb_ℤ b.1.msg_id id ≡ false
    → find_cell id ((q, b) ∷ cs) ≡ some x
    → find_cell id cs ≡ some x
found_later id q b cs x y e = sym (find_cell-cons id q b cs ∙ rw y refl) ∙ e

pub record At (h : Heap) (id : ℤ) (p : Ptr) (a : Payload) (cs : Cells) : Type 0 where
  pub next : Ptr
  pub not_nil : p ≢ nil
  pub low : p < h.fresh
  pub cell : h.cell p ≡ some (message_node a next)
  pub mem : has p cs ≡ true
  pub id_is : eqb_ℤ a.1.msg_id id ≡ true

pub find_cell-At :
    (h : Heap) (id : ℤ) (p : Ptr) (a : Payload) (cs : Cells)
    → Chain message_node h cs
    → find_cell id cs ≡ some (p, a)
    → At h id p a cs
unfolding find_cell
find_cell-At h id p a [] c e = cc
find_cell-At h id p a ((q, b) ∷ cs) c e = elim (Bool-cases (eqb_ℤ b.1.msg_id id)) [
  | inl y ↦
      subst (λ (x : Ptr × Payload). At h id x.0 x.1 ((q, b) ∷ cs)) (found_here id q b cs (p, a) y e)
        (record {
          next = first cs;
          not_nil = c.0;
          low = c.1;
          cell = c.2;
          mem = ground arith;
          id_is = y;
        })
  | inr y ↦
      let t = find_cell-At h id p a cs c.4 (found_later id q b cs (p, a) y e) in
      record {
        next = t.next;
        not_nil = t.not_nil;
        low = t.low;
        cell = t.cell;
        mem = ground arith;
        id_is = t.id_is;
      }
]

here_again :
    (id : ℤ) (q : Ptr) (b : Payload) (f : Payload → Payload) (cs : Cells)
    → eqb_ℤ b.1.msg_id id ≡ true
    → (f b).1.msg_id ≡ b.1.msg_id
    → find_cell id (set_at q f ((q, b) ∷ cs)) ≡ some (q, f b)
unfolding set_at find_cell
here_again id q b f cs y k = rw ((==_iff q q).1 refl, k, y) refl

-- It is found again when its payload has changed but for the identifier.
pub find_cell-set_at :
    (h : Heap) (id : ℤ) (p : Ptr) (a : Payload) (f : Payload → Payload) (cs : Cells)
    → Chain message_node h cs
    → find_cell id cs ≡ some (p, a)
    → ((b : Payload) → (f b).1.msg_id ≡ b.1.msg_id)
    → find_cell id (set_at p f cs) ≡ some (p, f a)
unfolding find_cell set_at
find_cell-set_at h id p a f [] c e keep = cc
find_cell-set_at h id p a f ((q, b) ∷ cs) c e keep = elim (Bool-cases (eqb_ℤ b.1.msg_id id)) [
  | inl y ↦
      subst (λ (x : Ptr × Payload). find_cell id (set_at x.0 f ((q, b) ∷ cs)) ≡ some (x.0, f x.1))
        (found_here id q b cs (p, a) y e) (here_again id q b f cs y (keep b))
  | inr y ↦
      let t = find_cell-At h id p a cs c.4 (found_later id q b cs (p, a) y e) in
      rw (ne_of_mem q p cs c.3 t.mem, y)
        (find_cell-set_at h id p a f cs c.4 (found_later id q b cs (p, a) y e) keep)
]
