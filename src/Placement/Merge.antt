-- ===== src/Placement/Merge.antt =====
-- What the message branch of Insertion does to the list of messages, with no nodes and no pointers:
-- the specification of LamportPlace and Insertion together.
use selected_course_projects.Prelude.{
  ◌≡◌, Bool, true, false, ◌||◌, List, [], ◌∷◌, arith, if◌then◌else◌, inl, inr, Bool-cases,
}
use selected_course_projects.Prelude.Int.{ℤ, pos, inc32}
use selected_course_projects.Data.{Message, ClientRequest}
use selected_course_projects.LinkedList.Reorder.{with_id, number}
use selected_course_projects.Placement.{replaced}
use selected_course_projects.Placement.Acknowledge.{created}
use selected_course_projects.Placement.Order.{precedes, same_key, key_ltb}

unfoldable pub known : ClientRequest → List Message → Bool
known r [] = false
known r (m ∷ ms) = same_key m r || known r ms

unfoldable pub update : ClientRequest → List Message → List Message
update r [] = []
update r (m ∷ ms) = let rest = update r ms in if same_key m r then replaced r m ∷ ms else m ∷ rest

unfoldable pub insert_message : ClientRequest → List Message → List Message
insert_message r [] = created r ∷ []
insert_message r (m ∷ ms) =
    let rest = insert_message r ms in if precedes m r then m ∷ rest else created r ∷ m ∷ ms

-- A known message is replaced; a new one is put in its place and all are numbered again.
unfoldable pub merge : ClientRequest → List Message → List Message
unfolding known update insert_message
merge r ms = if known r ms then update r ms else number (pos 0) (insert_message r ms)

abbrev pub IsAbove : Message → List Message → Type 0
IsAbove m [] = Unit {0}
IsAbove m (n ∷ ms) = (key_ltb m n ≡ true) × IsAbove m ms

-- By Lamport timestamp and then by replica, with no key twice.
abbrev pub Ascending : List Message → Type 0
Ascending [] = Unit {0}
Ascending (m ∷ ms) = IsAbove m ms × Ascending ms

IsAbove-number :
    (m : Message) (j : ℤ) (id : ℤ) (ms : List Message)
    → IsAbove m ms
    → IsAbove (with_id j m) (number id ms)
IsAbove-number m j id [] up = tt
IsAbove-number m j id (n ∷ ms) up = (up.0, IsAbove-number m j (inc32 id) ms up.1)

pub number-Ascending : (id : ℤ) (ms : List Message) → Ascending ms → Ascending (number id ms)
number-Ascending id [] a = tt
number-Ascending id (m ∷ ms) a =
    (IsAbove-number m (inc32 id) (inc32 id) ms a.0, number-Ascending (inc32 id) ms a.1)

IsAbove-trans :
    (m n : Message) (ms : List Message) → key_ltb m n ≡ true → IsAbove n ms → IsAbove m ms
IsAbove-trans m n [] h up = tt
IsAbove-trans m n (o ∷ ms) h up = (ground arith, IsAbove-trans m n ms h up.1)

IsAbove-insert_message :
    (m : Message) (r : ClientRequest) (ms : List Message)
    → precedes m r ≡ true
    → IsAbove m ms
    → IsAbove m (insert_message r ms)
unfolding insert_message
IsAbove-insert_message m r [] h up = (h, tt)
IsAbove-insert_message m r (n ∷ ms) h up = elim (Bool-cases (precedes n r)) [
  | inl e ↦ rw e (up.0, IsAbove-insert_message m r ms h up.1)
  | inr e ↦ rw e (h, up)
]

insert_message-Ascending :
    (r : ClientRequest) (ms : List Message)
    → Ascending ms
    → known r ms ≡ false
    → Ascending (insert_message r ms)
unfolding insert_message known
insert_message-Ascending r [] a k = (tt, tt)
insert_message-Ascending r (m ∷ ms) a k = elim (Bool-cases (precedes m r)) [
  | inl e ↦
      rw e (IsAbove-insert_message m r ms e a.0, insert_message-Ascending r ms a.1 (ground arith))
  | inr e ↦
      let lt : key_ltb (created r) m ≡ true = ground arith in
      rw e ((lt, IsAbove-trans (created r) m ms lt a.0), a)
]

IsAbove-update :
    (m : Message) (r : ClientRequest) (ms : List Message) → IsAbove m ms → IsAbove m (update r ms)
unfolding update
IsAbove-update m r [] up = tt
IsAbove-update m r (n ∷ ms) up = elim (Bool-cases (same_key n r)) [
  | inl e ↦ rw e up
  | inr e ↦ rw e (up.0, IsAbove-update m r ms up.1)
]

IsAbove-replaced :
    (r : ClientRequest) (m : Message) (ms : List Message) → IsAbove m ms → IsAbove (replaced r m) ms
IsAbove-replaced r m [] up = tt
IsAbove-replaced r m (n ∷ ms) up = (up.0, IsAbove-replaced r m ms up.1)

update-Ascending : (r : ClientRequest) (ms : List Message) → Ascending ms → Ascending (update r ms)
unfolding update
update-Ascending r [] a = tt
update-Ascending r (m ∷ ms) a = elim (Bool-cases (same_key m r)) [
  | inl e ↦ rw e (IsAbove-replaced r m ms a.0, a.1)
  | inr e ↦ rw e (IsAbove-update m r ms a.0, update-Ascending r ms a.1)
]

-- A merge keeps the messages in ascending order of timestamp and replica, with no key twice.
pub merge-Ascending :
    (r : ClientRequest) (ms : List Message) → Ascending ms → Ascending (merge r ms)
unfolding merge
merge-Ascending r ms a = elim (Bool-cases (known r ms)) [
  | inl e ↦ rw e (update-Ascending r ms a)
  | inr e ↦
      rw e (number-Ascending (pos 0) (insert_message r ms) (insert_message-Ascending r ms a e))
]
