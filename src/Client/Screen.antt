-- ===== src/Client/Screen.antt =====
-- What the client program (chat_system/client.go) keeps of a screen that ClientBroadcast of
-- chat_system/chat/chatserver.go sends: the identifiers of the messages by their numbers.
use selected_course_projects.Prelude.{
  ℕ, zero, suc, ◌+◌, ◌≤◌, ◌<◌, ◌≡◌, refl, subst, ap, ◌∙◌, false, some, List, [], ◌∷◌, length,
  get_elem?, arith,
}
use mathlib.Core.Option
use selected_course_projects.Prelude.Int.{pos, pos_part, int_eq}
use selected_course_projects.Prelude.Map.{lookup, insert, lookup-insert_self, lookup-insert_ne}
use selected_course_projects.Prelude.Text.{Str, beq_str}
use selected_course_projects.Exec.{ok}
use selected_course_projects.Data.{Message, Group, ServerResponse}
use selected_course_projects.Heap.{Heap}
use selected_course_projects.LinkedList.Cells.{Cells, messages}
use selected_course_projects.LinkedList.IsList.{IsList, is_empty}
use selected_course_projects.Groups.{name_merge}
use selected_course_projects.ChatServer.{screen}
use selected_course_projects.ChatServer.Screen.{
  line, lines_of, length-lines_of, from_node, screen_of, screen_lem,
}
use selected_course_projects.Client.{receive}
use selected_course_projects.Client.Commands.{Client}

unfoldable pub receive_all : List ServerResponse → Client → Client
receive_all [] c = c
receive_all (r ∷ rs) c = receive_all rs (receive r c).0

-- the client once it has a line
abbrev noted : (i : ℕ) → Message → Client → Client
noted i m c = record c { like_map = insert (pos i) m.msg_id c.like_map }

receive-line : (i : ℕ) (m : Message) (c : Client) → (receive (line i m) c).0 ≡ noted i m c
unfolding receive beq_str
receive-line i m c = refl

-- Later lines leave the smaller numbers alone.
receive_all-below :
    (n k i : ℕ) (ms : List Message) (c : Client)
    → n < i
    → lookup (pos n) (receive_all (lines_of k i ms) c).like_map ≡ lookup (pos n) c.like_map
unfolding receive_all lines_of
receive_all-below n zero i ms c lt = refl
receive_all-below n (suc k) i [] c lt = refl
receive_all-below n (suc k) i (m ∷ ms) c lt =
    receive_all-below n k (i + 1) ms (receive (line i m) c).0 (omega arith)
    ∙ ap (λ (x : Client). lookup (pos n) x.like_map) (receive-line i m c)
    ∙ lookup-insert_ne (pos i) (pos n) m.msg_id c.like_map (λ e. omega (arith, ap pos_part e))

receive_all-lines_of :
    (j k i : ℕ) (ms : List Message) (m : Message) (c : Client)
    → get_elem? ms j ≡ some m
    → j < k
    → lookup (pos (i + j)) (receive_all (lines_of k i ms) c).like_map ≡ some m.msg_id
unfolding receive_all lines_of get_elem?
receive_all-lines_of j zero i ms m c e lt = absurd (omega arith)
receive_all-lines_of j (suc k) i [] m c e lt = cc
receive_all-lines_of zero (suc k) i (x ∷ ms) m c e lt =
    subst
      (λ n.
        lookup (pos n) (receive_all (lines_of k (i + 1) ms) (receive (line i x) c).0).like_map
        ≡ some m.msg_id)
      (omega arith)
      (receive_all-below i k (i + 1) ms (receive (line i x) c).0 (omega arith)
        ∙ ap (λ (y : Client). lookup (pos i) y.like_map) (receive-line i x c)
        ∙ lookup-insert_self (pos i) x.msg_id c.like_map
        ∙ ap (Option.map (λ (y : Message). y.msg_id)) e)
receive_all-lines_of (suc j) (suc k) i (x ∷ ms) m c e lt =
    subst
      (λ n.
        lookup (pos n) (receive_all (lines_of k (i + 1) ms) (receive (line i x) c).0).like_map
        ≡ some m.msg_id)
      (omega arith) (receive_all-lines_of j k (i + 1) ms m (receive (line i x) c).0 e (omega arith))

-- The screen of a group with messages and participants has twelve lines at most, and when the client
-- has received it, each number that is shown stands for the message shown under it.
pub receive_all-screen :
    (g : Group) (h : Heap) (cs : Cells) (names : Str)
    → IsList h g.message_list cs
    → is_empty cs ≡ false
    → name_merge g ≡ some names
    → (screen g h ≡ ok (screen_of g names cs) h)
      × (length (screen_of g names cs) ≤ 12)
      × ((j : ℕ) (m : Message) (c : Client)
          → get_elem? (messages (from_node g.message_list.ten_start cs)) j ≡ some m
          → j < 10
          → lookup (pos (suc j)) (receive_all (screen_of g names cs) c).like_map ≡ some m.msg_id)
unfolding receive_all receive beq_str
receive_all-screen g h cs names is full e = (
  screen_lem g h cs names is full e,
  omega (arith, length-lines_of 10 1 (messages (from_node g.message_list.ten_start cs))),
  λ j m c at lt.
      subst (λ n. lookup (pos n) (receive_all (screen_of g names cs) c).like_map ≡ some m.msg_id)
        (omega arith) (receive_all-lines_of j 10 1 _ m c at lt),
)
