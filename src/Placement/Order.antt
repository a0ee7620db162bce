-- ===== src/Placement/Order.antt =====
-- The order that replicated messages are kept in: by Lamport timestamp, then by replica. What
-- LamportPlace and Insertion are for, as functions on the list of messages.
use selected_course_projects.Prelude.{
  ◌≡◌, refl, ◌∙◌, inl, inr, Bool-cases, Bool, true, false, ◌&&◌, ◌||◌, [], ◌∷◌, arith,
  if◌then◌else◌,
}
use selected_course_projects.Prelude.Int.{ltb_ℤ, eqb_ℤ}
pub use selected_course_projects.LinkedList.Cells.{Payload, message_node, Cells}
use selected_course_projects.Data.{Ptr, nil, Message, ClientRequest}
use selected_course_projects.Heap.Chain.{first, has, last_or, last_payload}
use selected_course_projects.Placement.{replaced}

-- the message comes before the request's place
abbrev pub precedes : Message → ClientRequest → Bool
precedes m r =
    ltb_ℤ m.lamport r.timestamp || (eqb_ℤ m.lamport r.timestamp && ltb_ℤ m.replica r.replica)

abbrev pub same_key : Message → ClientRequest → Bool
same_key m r = eqb_ℤ m.lamport r.timestamp && eqb_ℤ m.replica r.replica

abbrev pub key_ltb : Message → Message → Bool
key_ltb a b = ltb_ℤ a.lamport b.lamport || (eqb_ℤ a.lamport b.lamport && ltb_ℤ a.replica b.replica)

abbrev pub holds : ClientRequest → Cells → Bool
holds r [] = false
holds r ((p, (a, m)) ∷ cs) = same_key m r || holds r cs

-- the new node in front of the first that does not come before it
unfoldable pub place : ClientRequest → Ptr × Payload → Cells → Cells
place r c [] = c ∷ []
place r c ((p, (a, m)) ∷ cs) =
    let rest = place r c cs in if precedes m r then (p, (a, m)) ∷ rest else c ∷ (p, (a, m)) ∷ cs

-- the message with the request's key replaced
unfoldable pub replace : ClientRequest → Cells → Cells
replace r [] = []
replace r ((p, (a, m)) ∷ cs) =
    let rest = replace r cs in
    if same_key m r then (p, (a, replaced r m)) ∷ cs else (p, (a, m)) ∷ rest

abbrev pub Above : Message → Cells → Type 0
Above m [] = Unit {0}
Above m ((p, (a, n)) ∷ cs) = (key_ltb m n ≡ true) × Above m cs

-- Strictly ascending keys.
abbrev pub Sorted : Cells → Type 0
Sorted [] = Unit {0}
Sorted ((p, (a, m)) ∷ cs) = Above m cs × Sorted cs

pub first-replace : (r : ClientRequest) (cs : Cells) → first (replace r cs) ≡ first cs
unfolding replace
first-replace r [] = refl
first-replace r ((p, (a, m)) ∷ cs) = ground arith

pub has-replace : (q : Ptr) (r : ClientRequest) (cs : Cells) → has q (replace r cs) ≡ has q cs
unfolding replace
has-replace q r [] = refl
has-replace q r ((p, (a, m)) ∷ cs) = ground (arith, has-replace q r cs)

-- Past the request's place there is no message with its key.
pub holds_of_Above :
    (r : ClientRequest) (m : Message) (cs : Cells)
    → precedes m r ≡ false
    → same_key m r ≡ false
    → Above m cs
    → holds r cs ≡ false
holds_of_Above r m [] h k up = refl
holds_of_Above r m ((p, (a, n)) ∷ cs) h k up = ground (arith, holds_of_Above r m cs)

pub Above-trans : (m n : Message) (cs : Cells) → key_ltb m n ≡ true → Above n cs → Above m cs
Above-trans m n [] h up = tt
Above-trans m n ((p, (a, o)) ∷ cs) h up = (ground arith, Above-trans m n cs h up.1)

-- All messages come before the request's place, as for an empty list.
abbrev pub goes_last : ClientRequest → Cells → Bool
goes_last r [] = true
goes_last r ((p, a) ∷ cs) = precedes (last_payload a cs).1 r

-- The last message has a smaller timestamp: the test that LamportPlace makes at the tail.
abbrev pub is_late : ClientRequest → Cells → Bool
is_late r [] = false
is_late r ((p, a) ∷ cs) = ltb_ℤ (last_payload a cs).1.lamport r.timestamp

-- If the last message comes before the request's place, all do.
pub Above-last :
    (r : ClientRequest) (p : Ptr) (a : Payload) (cs : Cells)
    → Sorted ((p, a) ∷ cs)
    → precedes (last_payload a cs).1 r ≡ true
    → precedes a.1 r ≡ true
Above-last r p a [] s pre = pre
Above-last r p a ((q, b) ∷ cs) s pre =
    let ih : precedes b.1 r ≡ true = Above-last r q b cs s.1 pre in ground (arith, s.0.0, ih)

last_or-place :
    (r : ClientRequest) (q : Ptr) (b : Payload) (p t : Ptr) (d : Payload) (cs : Cells)
    → last_or p (place r (q, b) ((t, d) ∷ cs)) ≡ last_or nil (place r (q, b) ((t, d) ∷ cs))
unfolding place
last_or-place r q b p t d cs = elim (Bool-cases (precedes d.1 r)) [
  | inl k ↦ rw k refl
  | inr k ↦ rw k refl
]

last-place_cons :
    (r : ClientRequest) (q : Ptr) (b : Payload) (p : Ptr) (a : Payload) (cs : Cells)
    → precedes (last_payload a cs).1 r ≡ true
    → Sorted ((p, a) ∷ cs)
    → last_or nil (place r (q, b) ((p, a) ∷ cs)) ≡ q
unfolding place
last-place_cons r q b p a [] e s = rw e refl
last-place_cons r q b p a ((t, d) ∷ cs) e s =
    rw (Above-last r p a ((t, d) ∷ cs) s e)
      (last_or-place r q b p t d cs ∙ last-place_cons r q b t d cs e s.1)

last-place_before_cons :
    (r : ClientRequest) (q : Ptr) (b : Payload) (o p : Ptr) (a : Payload) (cs : Cells)
    → precedes (last_payload a cs).1 r ≡ false
    → last_or o (place r (q, b) ((p, a) ∷ cs)) ≡ last_or p cs
unfolding place
last-place_before_cons r q b o p a [] e = rw e refl
last-place_before_cons r q b o p a ((t, d) ∷ cs) e = elim (Bool-cases (precedes a.1 r)) [
  | inl k ↦ rw k (last-place_before_cons r q b p t d cs e)
  | inr k ↦ rw k refl
]

-- Where the last node is after the insertion.
pub last-place :
    (r : ClientRequest) (q : Ptr) (b : Payload) (cs : Cells)
    → goes_last r cs ≡ true
    → Sorted cs
    → last_or nil (place r (q, b) cs) ≡ q
unfolding place
last-place r q b [] e s = refl
last-place r q b ((p, a) ∷ cs) e s = last-place_cons r q b p a cs e s

pub last-place_before :
    (r : ClientRequest) (q : Ptr) (b : Payload) (cs : Cells)
    → goes_last r cs ≡ false
    → last_or nil (place r (q, b) cs) ≡ last_or nil cs
unfolding place
last-place_before r q b [] e = cc
last-place_before r q b ((p, a) ∷ cs) e = last-place_before_cons r q b nil p a cs e
