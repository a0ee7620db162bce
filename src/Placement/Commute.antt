-- ===== src/Placement/Commute.antt =====
-- The steps of a merge, for two requests.
use selected_course_projects.Prelude.{
  ◌≡◌, refl, ap, Bool, true, false, not, ◌&&◌, List, [], ◌∷◌, arith, inl, inr, Bool-cases,
}
use selected_course_projects.Prelude.Int.{ℤ, inc32, eqb_ℤ}
use selected_course_projects.Data.{Message, ClientRequest}
use selected_course_projects.LinkedList.Reorder.{with_id, number}
use selected_course_projects.Placement.Acknowledge.{created}
use selected_course_projects.Placement.Merge.{known, update, insert_message}
use selected_course_projects.Placement.Order.{precedes, same_key}

-- the requests carry the message with one key
abbrev pub same_message : ClientRequest → ClientRequest → Bool
same_message a b = eqb_ℤ a.timestamp b.timestamp && eqb_ℤ a.replica b.replica

pub number-number : (i j : ℤ) (ms : List Message) → number i (number j ms) ≡ number i ms
number-number i j [] = refl
number-number i j (m ∷ ms) = ap (◌∷◌ (with_id (inc32 i) m)) (number-number (inc32 i) (inc32 j) ms)

pub insert_message-number :
    (r : ClientRequest) (i j : ℤ) (ms : List Message)
    → number i (insert_message r (number j ms)) ≡ number i (insert_message r ms)
unfolding insert_message
insert_message-number r i j [] = refl
insert_message-number r i j (m ∷ ms) = elim (Bool-cases (precedes m r)) [
  | inl e ↦ rw e (ap (◌∷◌ (with_id (inc32 i) m)) (insert_message-number r (inc32 i) (inc32 j) ms))
  | inr e ↦ rw e (ap (◌∷◌ (with_id (inc32 i) (created r))) (number-number (inc32 i) j (m ∷ ms)))
]

pub update-number :
    (r : ClientRequest) (id : ℤ) (ms : List Message)
    → update r (number id ms) ≡ number id (update r ms)
unfolding update
update-number r id [] = refl
update-number r id (m ∷ ms) = elim (Bool-cases (same_key m r)) [
  | inl e ↦ rw e refl
  | inr e ↦ rw e (ap (◌∷◌ (with_id (inc32 id) m)) (update-number r (inc32 id) ms))
]

pub known-number :
    (r : ClientRequest) (id : ℤ) (ms : List Message) → known r (number id ms) ≡ known r ms
unfolding known
known-number r id [] = refl
known-number r id (m ∷ ms) = ground (arith, known-number r (inc32 id) ms)

pub known-update : (r s : ClientRequest) (ms : List Message) → known r (update s ms) ≡ known r ms
unfolding known update
known-update r s [] = refl
known-update r s (m ∷ ms) = ground (arith, known-update r s ms)

pub known-insert_message :
    (r s : ClientRequest) (ms : List Message)
    → same_message r s ≡ false
    → known r (insert_message s ms) ≡ known r ms
unfolding known insert_message
known-insert_message r s [] a = ground arith
known-insert_message r s (m ∷ ms) a = elim (Bool-cases (precedes m s)) [
  | inl e ↦ ground (arith, known-insert_message r s ms a)
  | inr e ↦ ground arith
]

pub known-insert_message_self :
    (r : ClientRequest) (ms : List Message) → known r (insert_message r ms) ≡ true
unfolding known insert_message
known-insert_message_self r [] = ground arith
known-insert_message_self r (m ∷ ms) = ground (arith, known-insert_message_self r ms)

pub same_message_of_key :
    (r s : ClientRequest) (m : Message)
    → same_key m r ≡ true
    → same_message r s ≡ false
    → same_key m s ≡ false
same_message_of_key r s m e a = ground arith

pub same_message-sym : (r s : ClientRequest) → same_message r s ≡ false → same_message s r ≡ false
same_message-sym r s a = ground arith

pub update-update :
    (r s : ClientRequest) (ms : List Message)
    → same_message r s ≡ false
    → update r (update s ms) ≡ update s (update r ms)
unfolding update
update-update r s [] a = refl
update-update r s (m ∷ ms) a = elim (Bool-cases (same_key m r)) [
  | inl e ↦ rw (e, same_message_of_key r s m e a, e) refl
  | inr e ↦ elim (Bool-cases (same_key m s)) [
    | inl f ↦ rw (e, f, e) refl
    | inr f ↦ rw (e, f, e) (ap (◌∷◌ m) (update-update r s ms a))
  ]
]

pub apart_created :
    (r s : ClientRequest) → same_message r s ≡ false → same_key (created s) r ≡ false
apart_created r s a = ground arith

pub update-insert_message :
    (r s : ClientRequest) (ms : List Message)
    → same_message r s ≡ false
    → update r (insert_message s ms) ≡ insert_message s (update r ms)
unfolding update insert_message
update-insert_message r s [] a = rw (apart_created r s a) refl
update-insert_message r s (m ∷ ms) a = elim (Bool-cases (same_key m r)) [
  | inl e ↦ elim (Bool-cases (precedes m s)) [
    | inl f ↦ rw (e, f, e) refl
    | inr f ↦ rw (e, f, apart_created r s a, e) refl
  ]
  | inr e ↦ elim (Bool-cases (precedes m s)) [
    | inl f ↦ rw (e, f, e) (ap (◌∷◌ m) (update-insert_message r s ms a))
    | inr f ↦ rw (e, f, apart_created r s a, e) refl
  ]
]

-- a message that comes before one request's place and not before the other's
pub between_places :
    (r s : ClientRequest) (m : Message)
    → same_message r s ≡ false
    → precedes m r ≡ true
    → precedes m s ≡ false
    → (precedes (created s) r ≡ true) × (precedes (created r) s ≡ false)
between_places r s m a e f = (ground arith, ground arith)

pub one_order :
    (r s : ClientRequest)
    → same_message r s ≡ false
    → precedes (created s) r ≡ not (precedes (created r) s)
one_order r s a = ground arith

pub insert_message-insert_message :
    (r s : ClientRequest) (ms : List Message)
    → same_message r s ≡ false
    → insert_message r (insert_message s ms) ≡ insert_message s (insert_message r ms)
unfolding insert_message
insert_message-insert_message r s [] a = elim (Bool-cases (precedes (created r) s)) [
  | inl f ↦ rw (one_order r s a, f) refl
  | inr f ↦ rw (one_order r s a, f) refl
]
insert_message-insert_message r s (m ∷ ms) a = elim (Bool-cases (precedes m r)) [
  | inl e ↦ elim (Bool-cases (precedes m s)) [
    | inl f ↦ rw (e, f, e) (ap (◌∷◌ m) (insert_message-insert_message r s ms a))
    | inr f ↦ let (x, y) = between_places r s m a e f in rw (e, f, x, e) refl
  ]
  | inr e ↦ elim (Bool-cases (precedes m s)) [
    | inl f ↦ let (x, y) = between_places s r m (same_message-sym r s a) f e in rw (e, f, e, x) refl
    | inr f ↦ elim (Bool-cases (precedes (created r) s)) [
      | inl x ↦ rw (e, f, one_order r s a, x) refl
      | inr x ↦ rw (e, f, one_order r s a, x, e) refl
    ]
  ]
]

pub same_key-created : (r : ClientRequest) → same_key (created r) r ≡ true
same_key-created r = ground arith

pub apart_of_precedes :
    (r : ClientRequest) (m : Message) → precedes m r ≡ true → same_key m r ≡ false
apart_of_precedes r m e = ground arith

pub update-insert_message_self :
    (r : ClientRequest) (id : ℤ) (ms : List Message)
    → known r ms ≡ false
    → update r (number id (insert_message r ms)) ≡ number id (insert_message r ms)
unfolding update insert_message known
update-insert_message_self r id [] k = rw (same_key-created r) refl
update-insert_message_self r id (m ∷ ms) k = elim (Bool-cases (precedes m r)) [
  | inl e ↦
      rw (e, apart_of_precedes r m e)
        (ap (◌∷◌ (with_id (inc32 id) m))
          (update-insert_message_self r (inc32 id) ms (ground arith)))
  | inr e ↦ rw (e, same_key-created r) refl
]

pub update-update_self :
    (r : ClientRequest) (ms : List Message) → update r (update r ms) ≡ update r ms
unfolding update
update-update_self r [] = refl
update-update_self r (m ∷ ms) = elim (Bool-cases (same_key m r)) [
  | inl e ↦ rw (e, e) refl
  | inr e ↦ rw (e, e) (ap (◌∷◌ m) (update-update_self r ms))
]
