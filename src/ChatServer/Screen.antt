-- ===== src/ChatServer/Screen.antt =====
-- The lines that ClientBroadcast and ShowHistory of chat_system/chat/chatserver.go send to a client.
use selected_course_projects.Prelude.{
  ℕ, zero, suc, ◌+◌, ◌≤◌, ◌≡◌, refl, sym, ap, ◌∙◌, true, false, some, List, [], ◌∷◌, ◌++◌, length,
  arith, ◌==◌, Bool-cases, inl, inr, subst, ==_iff, if◌then◌else◌,
}
use selected_course_projects.Prelude.Int.{pos}
use selected_course_projects.Prelude.Number.{itoa}
use selected_course_projects.Prelude.Text.{Str, str}
use selected_course_projects.Exec.{ok, Exec, pure, and_then}
use selected_course_projects.Data.{Ptr, nil, Message, Group, ServerResponse, response}
use selected_course_projects.Heap.{Heap, need}
use selected_course_projects.Heap.Access.{load_lem, load_message_lem}
use selected_course_projects.Heap.Chain.{Chain, has, first}
use selected_course_projects.LinkedList.Cells.{
  message_node, Payload, Cells, messages, length-messages,
}
use selected_course_projects.LinkedList.IsList.{IsList, is_empty}
use selected_course_projects.Groups.{name_merge}
use selected_course_projects.ChatServer.{message_lines, screen, show_history}

-- a message under its number on the screen
abbrev pub line : (i : ℕ) → Message → ServerResponse
line i m = record (response (str "store") (itoa (pos i) ++ (str ". " ++ m.creator)) m.content) {
  like = m.total_like;
  msg_id = m.msg_id;
  local_message = pos i;
}

-- the lines of the first `k` of some messages, numbered from `i`
unfoldable pub lines_of : (k i : ℕ) → List Message → List ServerResponse
lines_of zero i ms = []
lines_of (suc k) i [] = []
lines_of (suc k) i (m ∷ ms) = line i m ∷ lines_of k (i + 1) ms

pub length-lines_of : (k i : ℕ) (ms : List Message) → length (lines_of k i ms) ≤ k
unfolding lines_of
length-lines_of zero i ms = omega arith
length-lines_of (suc k) i [] = omega arith
length-lines_of (suc k) i (m ∷ ms) = omega (arith, length-lines_of k (i + 1) ms)

pub length-lines_of_all :
    (k i : ℕ) (ms : List Message) → length ms ≤ k → length (lines_of k i ms) ≡ length ms
unfolding lines_of
length-lines_of_all zero i [] le = refl
length-lines_of_all zero i (m ∷ ms) le = absurd (omega arith)
length-lines_of_all (suc k) i [] le = refl
length-lines_of_all (suc k) i (m ∷ ms) le =
    omega (arith, length-lines_of_all k (i + 1) ms (omega arith))

message_lines_lem :
    (k i : ℕ) (h : Heap) (cs : Cells)
    → Chain message_node h cs
    → message_lines k i (first cs) h ≡ ok (lines_of k i (messages cs)) h
unfolding message_lines lines_of
message_lines_lem zero i h cs c = refl
message_lines_lem (suc k) i h [] c = refl
message_lines_lem (suc k) i h ((p, (a, m)) ∷ cs) (ne, lt, at, out, rest) =
    let n : (p == nil) ≡ false = ground arith in
    rw
      (
        n,
        load_message_lem h p {n = message_node (a, m) (first cs)} ne at m refl,
        load_lem h p ne at,
        message_lines_lem k (i + 1) h cs rest,
      )
      refl

-- the nodes from one of them on
unfoldable pub from_node : Ptr → Cells → Cells
from_node t [] = []
from_node t ((p, a) ∷ cs) = let rest = from_node t cs in if p == t then (p, a) ∷ cs else rest

pub from_node-here :
    (t p : Ptr) (a : Payload) (cs : Cells)
    → (p == t) ≡ true
    → from_node t ((p, a) ∷ cs) ≡ (p, a) ∷ cs
unfolding from_node
from_node-here t p a cs e = rw e refl

pub from_node-later :
    (t p : Ptr) (a : Payload) (cs : Cells)
    → (p == t) ≡ false
    → from_node t ((p, a) ∷ cs) ≡ from_node t cs
unfolding from_node
from_node-later t p a cs e = rw e refl

abbrev Starts : Heap → Ptr → Cells → Type 0
Starts h t cs = Chain message_node h cs × (first cs ≡ t)

from_node-Starts :
    (h : Heap) (t : Ptr) (cs : Cells)
    → Chain message_node h cs
    → has t cs ≡ true
    → Starts h t (from_node t cs)
from_node-Starts h t [] c m = cc
from_node-Starts h t ((p, a) ∷ cs) c m = elim (Bool-cases (p == t)) [
  | inl e ↦ subst (Starts h t) (sym (from_node-here t p a cs e)) (c, (==_iff p t).0 e)
  | inr e ↦
      subst (Starts h t) (sym (from_node-later t p a cs e))
        (from_node-Starts h t cs c.4 (ground arith))
]

-- what is sent for a group, with the names of its participants
abbrev pub screen_of : Group → (names : Str) → Cells → List ServerResponse
screen_of g names cs =
    response (str "print") (str "Group") (str "CS2510 " ++ g.group_name)
    ∷ response (str "print") (str "Participants") names
    ∷ lines_of 10 1 (messages (from_node g.message_list.ten_start cs))

abbrev headed : Group → (names : Str) → List ServerResponse → Exec Heap (List ServerResponse)
headed g names lines = pure (
    response (str "print") (str "Group") (str "CS2510 " ++ g.group_name)
    ∷ response (str "print") (str "Participants") names
    ∷ lines)

-- ClientBroadcast sends the messages from the start of the window on, ten at most.
pub screen_lem :
    (g : Group) (h : Heap) (cs : Cells) (names : Str)
    → IsList h g.message_list cs
    → is_empty cs ≡ false
    → name_merge g ≡ some names
    → screen g h ≡ ok (screen_of g names cs) h
unfolding screen need
screen_lem g h cs names is full e =
    let t = g.message_list.ten_start in
    let (c, f) = from_node-Starts h t cs is.chain (ground (arith, is.window)) in
    let lines : message_lines 10 1 t h ≡ ok (lines_of 10 1 (messages (from_node t cs))) h =
      subst (λ p. message_lines 10 1 p h ≡ ok (lines_of 10 1 (messages (from_node t cs))) h) f
        (message_lines_lem 10 1 h (from_node t cs) c) in
    let named : screen g h ≡ and_then (message_lines 10 1 t h) (headed g names) = rw e refl in
    named ∙ ap (λ run. and_then run (headed g names)) lines

-- what is sent for the history of a group
abbrev pub history_of : Group → (names : Str) → (k : ℕ) → Cells → List ServerResponse
history_of g names k cs =
    response (str "print") (str "Group") (str "CS2510 " ++ (g.group_name ++ str " chat history"))
    ∷ response (str "print") (str "Participants") names
    ∷ lines_of k 1 (messages cs)

pub show_history_complete :
    (g : Group) (h : Heap) (cs : Cells) (names : Str)
    → IsList h g.message_list cs
    → name_merge g ≡ some names
    → (show_history g h ≡ ok (history_of g names h.fresh cs) h)
      × (length (history_of g names h.fresh cs) ≡ 2 + length cs)
unfolding show_history need
show_history_complete g h cs names is e = (
  rw (e, is.head, message_lines_lem h.fresh 1 h cs is.chain) refl,
  omega (
    arith,
    length-lines_of_all h.fresh 1 (messages cs) (omega (arith, length-messages cs, is.room)),
    length-messages cs,
  ),
)
