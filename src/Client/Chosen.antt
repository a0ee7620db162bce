-- ===== src/Client/Chosen.antt =====
-- From the screen back to the message: the number that the client program (chat_system/client.go) shows
-- is typed, and LikeMessage of chat_system/chat/chatserver.go looks for what is then sent.
use mathlib.Core.Option.{some-injective}
use selected_course_projects.Prelude.{
  ℕ, zero, suc, ◌+◌, ◌<◌, ◌≡◌, refl, sym, ap, ◌∙◌, true, false, some, subst, List, [], ◌∷◌,
  get_elem?, arith, ◌==◌, Bool-cases, inl, inr,
}
use selected_course_projects.Prelude.Int.{pos, int_eq, eqb_ℤ}
use selected_course_projects.Prelude.Map.{lookup}
use selected_course_projects.Prelude.Number.{itoa}
use selected_course_projects.Prelude.Text.{Str, str, beq_str}
use selected_course_projects.Exec.{ok}
use selected_course_projects.Data.{Ptr, Message, Group}
use selected_course_projects.Heap.{Heap}
use selected_course_projects.LinkedList.Cells.{Payload, Cells, messages}
use selected_course_projects.LinkedList.IsList.{IsList, is_empty}
use selected_course_projects.Groups.{name_merge}
use selected_course_projects.Likes.{find_message}
use selected_course_projects.Likes.Find.{find_cell, find_message_lem, address}
use selected_course_projects.ChatServer.{screen}
use selected_course_projects.ChatServer.Screen.{
  line, lines_of, from_node, from_node-here, from_node-later, screen_of,
}
use selected_course_projects.Client.{Input, round, receive}
use selected_course_projects.Client.Commands.{Client, has_joined, on_message}
use selected_course_projects.Client.Screen.{receive_all, receive_all-screen}
use selected_course_projects.Client.Typed.{
  typed, round-typed, command-like, command-unlike, like_line_lem, unlike_line_lem, itoa-Solid,
}

-- The messages are numbered by their places, behind the first `n`.
abbrev pub Numbered : ℕ → Cells → Type 0
Numbered n [] = Unit {0}
Numbered n ((p, (a, m)) ∷ cs) = (m.msg_id ≡ pos (suc n)) × Numbered (suc n) cs

Numbered-id :
    (n j : ℕ) (cs : Cells) (p : Ptr) (a : Payload)
    → Numbered n cs
    → get_elem? cs j ≡ some (p, a)
    → a.1.msg_id ≡ pos (n + suc j)
unfolding get_elem?
Numbered-id n j [] p a o e = cc
Numbered-id n zero ((q, b) ∷ cs) p a o e =
    ap (λ (y : Ptr × Payload). y.1.1.msg_id) (sym (some-injective (q, b) (p, a) e))
    ∙ o.0
    ∙ ap pos (omega arith)
Numbered-id n (suc j) ((q, b) ∷ cs) p a o e =
    Numbered-id (suc n) j cs p a o.1 e ∙ ap pos (omega arith)

found_first :
    (q : Ptr) (b : Payload) (cs : Cells) → find_cell b.1.msg_id ((q, b) ∷ cs) ≡ some (q, b)
unfolding find_cell
found_first q b cs = let e : eqb_ℤ b.1.msg_id b.1.msg_id ≡ true = ground arith in rw e refl

-- The message at a place is found by its number.
find_cell-Numbered :
    (n j : ℕ) (cs : Cells) (p : Ptr) (a : Payload)
    → Numbered n cs
    → get_elem? cs j ≡ some (p, a)
    → find_cell a.1.msg_id cs ≡ some (p, a)
unfolding get_elem? find_cell
find_cell-Numbered n j [] p a o e = cc
find_cell-Numbered n zero ((q, b) ∷ cs) p a o e =
    subst (λ (y : Ptr × Payload). find_cell y.1.1.msg_id ((q, b) ∷ cs) ≡ some y)
      (some-injective (q, b) (p, a) e) (found_first q b cs)
find_cell-Numbered n (suc j) ((q, b) ∷ cs) p a o e =
    let later : a.1.msg_id ≡ pos (suc n + suc j) = Numbered-id (suc n) j cs p a o.1 e in
    let differ : eqb_ℤ b.1.msg_id a.1.msg_id ≡ false = rw (later, o.0) (ground arith) in
    rw differ (find_cell-Numbered (suc n) j cs p a o.1 e)

-- A node from `t` on is a node of the list.
from_node-place :
    (t : Ptr) (j : ℕ) (cs : Cells) (x : Ptr × Payload)
    → get_elem? (from_node t cs) j ≡ some x
    → (i : ℕ) × (get_elem? cs i ≡ some x)
unfolding from_node get_elem?
from_node-place t j [] x e = (0, cc)
from_node-place t j ((p, a) ∷ cs) x e = elim (Bool-cases (p == t)) [
  | inl here ↦ (j, sym (ap (λ ds. get_elem? ds j) (from_node-here t p a cs here)) ∙ e)
  | inr later ↦
      let (i, f) =
        from_node-place t j cs x
          (sym (ap (λ ds. get_elem? ds j) (from_node-later t p a cs later)) ∙ e) in
      (suc i, f)
]

get_elem?-messages :
    (cs : Cells) (j : ℕ) (p : Ptr) (a : Payload)
    → get_elem? cs j ≡ some (p, a)
    → get_elem? (messages cs) j ≡ some a.1
unfolding get_elem?
get_elem?-messages [] j p a e = cc
get_elem?-messages ((q, (b, m)) ∷ cs) zero p a e =
    ap (λ (y : Ptr × Payload). some y.1.1) (some-injective (q, (b, m)) (p, a) e)
get_elem?-messages ((q, (b, m)) ∷ cs) (suc j) p a e = get_elem?-messages cs j p a e

-- The lines of a screen leave the client in its group.
receive_all-joined :
    (k i : ℕ) (ms : List Message) (c : Client)
    → has_joined (receive_all (lines_of k i ms) c) ≡ has_joined c
unfolding receive_all lines_of receive beq_str
receive_all-joined zero i ms c = refl
receive_all-joined (suc k) i [] c = refl
receive_all-joined (suc k) i (m ∷ ms) c = receive_all-joined k (i + 1) ms (receive (line i m) c).0

screen-joined :
    (g : Group) (names : Str) (cs : Cells) (c : Client)
    → has_joined (receive_all (screen_of g names cs) c) ≡ has_joined c
unfolding receive_all receive beq_str
screen-joined g names cs c =
    receive_all-joined 10 1 (messages (from_node g.message_list.ten_start cs)) c

-- The client of a user who has joined a group receives a screen of it, in which the messages are
-- numbered by their places. When the number shown with a message is typed after l or r, a request with
-- the message's identifier is sent, and the search that the server makes for the identifier ends at the
-- message.
pub round-screen :
    (g : Group) (h : Heap) (cs : Cells) (names : Str) (c : Client) (j : ℕ) (p : Ptr) (a : Payload)
    (likes unlikes : Input)
    → IsList h g.message_list cs
    → is_empty cs ≡ false
    → Numbered 0 cs
    → name_merge g ≡ some names
    → has_joined c ≡ true
    → get_elem? (from_node g.message_list.ten_start cs) j ≡ some (p, a)
    → j < 10
    → likes.line ≡ typed b'l' (itoa (pos (suc j)))
    → unlikes.line ≡ typed b'r' (itoa (pos (suc j)))
    → (screen g h ≡ ok (screen_of g names cs) h)
      × (round likes (receive_all (screen_of g names cs) c)
          ≡ on_message (str "l") a.1.msg_id (receive_all (screen_of g names cs) c))
      × (round unlikes (receive_all (screen_of g names cs) c)
          ≡ on_message (str "r") a.1.msg_id (receive_all (screen_of g names cs) c))
      × (find_message h.fresh a.1.msg_id g.message_list.head h ≡ ok p h)
round-screen g h cs names c j p a likes unlikes is full numbered e joined at lt typed_l typed_r =
    let c' : Client = receive_all (screen_of g names cs) c in
    let (shown, few, kept) = receive_all-screen g h cs names is full e in
    let joined' : has_joined c' ≡ true = screen-joined g names cs c ∙ joined in
    let k : lookup (pos (suc j)) c'.like_map ≡ some a.1.msg_id =
      kept j a.1 c (get_elem?-messages (from_node g.message_list.ten_start cs) j p a at) lt in
    let (i, place) = from_node-place g.message_list.ten_start j cs (p, a) at in
    (
      shown,
      round-typed likes c' b'l' (itoa (pos (suc j))) typed_l (omega arith) (itoa-Solid (suc j))
          ∙ command-like likes (itoa (pos (suc j))) c'
          ∙ like_line_lem c' (suc j) a.1.msg_id joined' (omega arith) k,
      round-typed unlikes c' b'r' (itoa (pos (suc j))) typed_r (omega arith) (itoa-Solid (suc j))
          ∙ command-unlike unlikes (itoa (pos (suc j))) c'
          ∙ unlike_line_lem c' (suc j) a.1.msg_id joined' (omega arith) k,
      ap (λ q. find_message h.fresh a.1.msg_id q h) is.head
          ∙ find_message_lem h.fresh a.1.msg_id h cs is.chain is.room
          ∙ ap (λ x. ok (address x) h) (find_cell-Numbered 0 i cs p a numbered place),
    )
