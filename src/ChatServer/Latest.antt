-- ===== src/ChatServer/Latest.antt =====
-- A message with a timestamp above all others: where Insertion (chat_system/chat/replica.go) puts it.
use selected_course_projects.Prelude.{
  ℕ, suc, ◌+◌, ◌<◌, ◌≡◌, refl, sym, ap, ◌∙◌, true, false, List, [], ◌∷◌, ◌++◌, length, arith,
}
use selected_course_projects.Prelude.Int.{ℤ, pos, inc32, inc32-pos, ◌<ℤ◌}
use selected_course_projects.Data.{Message, ClientRequest}
use selected_course_projects.LinkedList.Reorder.{number, with_id}
use selected_course_projects.Placement.Acknowledge.{created}
use selected_course_projects.Placement.Merge.{known, insert_message, merge}
use selected_course_projects.Placement.Order.{precedes}
use selected_course_projects.Placement.Represents.{overtakes}
use selected_course_projects.ChatServer.Order.{Under}

-- The messages are numbered by their places, behind the first `n`.
abbrev pub InOrder : ℕ → List Message → Type 0
InOrder n [] = Unit {0}
InOrder n (m ∷ ms) = (m.msg_id ≡ pos (suc n)) × InOrder (suc n) ms

number-snoc :
    (n : ℕ) (x : Message) (ms : List Message)
    → InOrder n ms
    → n + length ms < 2147483647
    → number (pos n) (ms ++ x ∷ []) ≡ ms ++ with_id (inc32 (pos (n + length ms))) x ∷ []
number-snoc n x [] o fits = ap (λ k. with_id (inc32 (pos k)) x ∷ []) (omega arith)
number-snoc n x (m ∷ ms) o fits =
    let e : inc32 (pos n) ≡ pos (suc n) = inc32-pos n (omega arith) in
    let k : suc n + length ms ≡ n + suc (length ms) = omega arith in
    let same : with_id (pos (suc n)) m ≡ m = ap (λ i. with_id i m) (sym o.0) in
    rw e (
      ap (λ (y : Message). y ∷ number (pos (suc n)) (ms ++ x ∷ [])) same
      ∙ ap (◌∷◌ m) (
          number-snoc (suc n) x ms o.1 (omega arith)
          ∙ ap (λ j. ms ++ with_id (inc32 (pos j)) x ∷ []) k))

pub InOrder-snoc :
    (n : ℕ) (x : Message) (ms : List Message)
    → InOrder n ms
    → x.msg_id ≡ pos (suc (n + length ms))
    → InOrder n (ms ++ x ∷ [])
InOrder-snoc n x [] o e = (e ∙ ap pos (omega arith), tt)
InOrder-snoc n x (m ∷ ms) o e = (o.0, InOrder-snoc (suc n) x ms o.1 (e ∙ ap pos (omega arith)))

module _ (r : ClientRequest) (t : ℤ) (later : t <ℤ r.timestamp) where
  pub known_latest : (ms : List Message) → Under t ms → known r ms ≡ false
  unfolding known
  known_latest [] u = refl
  known_latest (m ∷ ms) u = ground (arith, known_latest ms u.1)

  insert_message-last :
      (ms : List Message) → Under t ms → insert_message r ms ≡ ms ++ created r ∷ []
  unfolding insert_message
  insert_message-last [] u = refl
  insert_message-last (m ∷ ms) u =
      let before : precedes m r ≡ true = ground arith in
      rw before (ap (◌∷◌ m) (insert_message-last ms u.1))

  -- It comes last, with the next number.
  pub merge-last :
      (ms : List Message)
      → Under t ms
      → InOrder 0 ms
      → length ms < 2147483647
      → merge r ms ≡ ms ++ with_id (inc32 (pos (length ms))) (created r) ∷ []
  unfolding merge
  merge-last ms u o fits =
      rw (known_latest ms u, insert_message-last ms u)
        (number-snoc 0 (created r) ms o (omega arith)
          ∙ ap (λ k. ms ++ with_id (inc32 (pos k)) (created r) ∷ []) (omega arith))

  pub overtakes_latest : (ms : List Message) → Under t ms → overtakes r ms ≡ false
  unfolding overtakes
  overtakes_latest [] u = refl
  overtakes_latest (m ∷ []) u = ground arith
  overtakes_latest (m ∷ n ∷ ms) u = overtakes_latest (n ∷ ms) u.1
