-- ===== src/ChatServer/Bounds.antt =====
-- The bound on the timestamps of a list of messages, through the steps of a merge.
use selected_course_projects.Prelude.{List, [], ◌∷◌, arith, inl, inr, Bool-cases}
use selected_course_projects.Prelude.Int.{ℤ, inc32, ◌≤ℤ◌}
use selected_course_projects.Prelude.Text.{str_eq}
use selected_course_projects.Data.{Message, ClientRequest}
use selected_course_projects.LinkedList.Reorder.{number}
use selected_course_projects.Placement.Merge.{update, insert_message}
use selected_course_projects.Placement.Order.{same_key, precedes}
use selected_course_projects.ChatServer.Order.{Under}

pub Under-mono : (s t : ℤ) (ms : List Message) → s ≤ℤ t → Under s ms → Under t ms
Under-mono s t [] le u = tt
Under-mono s t (m ∷ ms) le u = (omega arith, Under-mono s t ms le u.1)

pub Under-number : (t id : ℤ) (ms : List Message) → Under t ms → Under t (number id ms)
Under-number t id [] u = tt
Under-number t id (m ∷ ms) u = (u.0, Under-number t (inc32 id) ms u.1)

pub Under-update :
    (t : ℤ) (r : ClientRequest) (ms : List Message) → Under t ms → Under t (update r ms)
unfolding update
Under-update t r [] u = tt
Under-update t r (m ∷ ms) u = elim (Bool-cases (same_key m r)) [
  | inl e ↦ rw e u
  | inr e ↦ rw e (u.0, Under-update t r ms u.1)
]

pub Under-insert_message :
    (t : ℤ) (r : ClientRequest) (ms : List Message)
    → r.timestamp ≤ℤ t
    → Under t ms
    → Under t (insert_message r ms)
unfolding insert_message
Under-insert_message t r [] le u = (le, tt)
Under-insert_message t r (m ∷ ms) le u = elim (Bool-cases (precedes m r)) [
  | inl e ↦ rw e (u.0, Under-insert_message t r ms le u.1)
  | inr e ↦ rw e (le, u)
]
