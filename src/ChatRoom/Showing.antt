-- ===== src/ChatRoom/Showing.antt =====
-- What ChatRoom of chat_system/chat/chatserver.go shows to the clients of a group, whatever becomes of it:
-- ClientBroadcast, and ShowHistory to each of them by FlushScreen of chat_system/chat/HelperFunction.go.
use selected_course_projects.Prelude.{ℕ, ◌≡◌, refl, false, some, List, [], ◌∷◌}
use selected_course_projects.Prelude.Int.{ℤ, int_eq}
use selected_course_projects.Prelude.Map.{Map, lookup}
use selected_course_projects.Prelude.Text.{Str, str_eq}
use selected_course_projects.Exec.{ok, Exec, pure, ◌>>=◌}
use selected_course_projects.Data.{User, Group, ServerResponse}
use selected_course_projects.Heap.{Heap, need}
use selected_course_projects.LinkedList.Cells.{Cells}
use selected_course_projects.LinkedList.IsList.{IsList, is_empty}
use selected_course_projects.Groups.{name_merge}
use selected_course_projects.Network.{Transport, World}
use selected_course_projects.ChatServer.{the_group, client_broadcast, screen, to_clients}
use selected_course_projects.ChatServer.Screen.{
  screen_of, history_of, screen_lem, show_history_complete,
}
use selected_course_projects.ChatRoom.Sending.{
  send_all, send_screens, broadcast_to_clients, send_history, flush_clients, flush_screen,
}

module _ {W : Type 0} where
  -- a step that returns and changes nothing of the server
  abbrev pub OnlyShows : Exec (World W) (Unit {0}) → World W → Type 0
  OnlyShows m w = (n : W) × (m w ≡ ok tt (record w { net = n }))

-- what ClientBroadcast sends to some users
abbrev shown_to : Group → Map ℤ User → Exec Heap (List (ℕ × List ServerResponse))
shown_to g users = elim users as (λ _. Exec Heap (List (ℕ × List ServerResponse))) [
  | [] ↦ pure []
  | c ∷ us ↦ do lines ← screen g; pure (to_clients (c ∷ us) lines)
]

shown_to-reads :
    (g : Group) (h : Heap) (lines : List ServerResponse) (users : Map ℤ User)
    → screen g h ≡ ok lines h
    → (screens : List (ℕ × List ServerResponse)) × (shown_to g users h ≡ ok screens h)
shown_to-reads g h lines [] e = ([], refl)
shown_to-reads g h lines (c ∷ us) e = (to_clients (c ∷ us) lines, rw e refl)

-- What the clients are shown is only read.
client_broadcast-reads :
    (g : Group) (h : Heap) (cs : Cells) (names : Str)
    → IsList h g.message_list cs
    → is_empty cs ≡ false
    → name_merge g ≡ some names
    → (screens : List (ℕ × List ServerResponse)) × (client_broadcast g h ≡ ok screens h)
unfolding client_broadcast
client_broadcast-reads g h cs names is full e =
    shown_to-reads g h (screen_of g names cs) g.user_list (screen_lem g h cs names is full e)

module _ {W : Type 0} (t : Transport W) where
  send_all-OnlyShows :
      (ct : ℕ) (rs : List ServerResponse) (w : World W) → OnlyShows (send_all t ct rs) w
  unfolding send_all
  send_all-OnlyShows ct [] w = (w.net, refl)
  send_all-OnlyShows ct (r ∷ rs) w =
      send_all-OnlyShows ct rs (record w { net = (t.reply ct r w.net).1 })

  send_screens-OnlyShows :
      (screens : List (ℕ × List ServerResponse)) (w : World W)
      → OnlyShows (send_screens t screens) w
  unfolding send_screens
  send_screens-OnlyShows [] w = (w.net, refl)
  send_screens-OnlyShows ((ct, lines) ∷ rest) w =
      let (n1, first) = send_all-OnlyShows ct lines w in
      let (n2, others) = send_screens-OnlyShows rest (record w { net = n1 }) in
      (n2, rw first others)

  pub broadcast_to_clients-OnlyShows :
      (g : Group) (w : World W) (cs : Cells) (names : Str)
      → IsList w.server.heap g.message_list cs
      → is_empty cs ≡ false
      → name_merge g ≡ some names
      → OnlyShows (broadcast_to_clients t g) w
  unfolding broadcast_to_clients
  broadcast_to_clients-OnlyShows g w cs names is full e =
      let (screens, shown) = client_broadcast-reads g w.server.heap cs names is full e in
      let (n, sent) = send_screens-OnlyShows screens w in (n, rw shown sent)

  send_history-OnlyShows :
      (name : Str) (ct : ℕ) (g : Group) (w : World W) (cs : Cells) (names : Str)
      → lookup name w.server.group_map ≡ some g
      → IsList w.server.heap g.message_list cs
      → name_merge g ≡ some names
      → OnlyShows (send_history t name ct) w
  unfolding send_history the_group need
  send_history-OnlyShows name ct g w cs names found is e =
      let (n, sent) = send_all-OnlyShows ct (history_of g names w.server.heap.fresh cs) w in
      (n, rw (found, (show_history_complete g w.server.heap cs names is e).0) sent)

  flush_clients-OnlyShows :
      (name : Str) (users : Map ℤ User) (g : Group) (w : World W) (cs : Cells) (names : Str)
      → lookup name w.server.group_map ≡ some g
      → IsList w.server.heap g.message_list cs
      → name_merge g ≡ some names
      → OnlyShows (flush_clients t name users) w
  unfolding flush_clients
  flush_clients-OnlyShows name [] g w cs names found is e = (w.net, refl)
  flush_clients-OnlyShows name ((id, user) ∷ users) g w cs names found is e =
      let (n1, first) = send_history-OnlyShows name user.context g w cs names found is e in
      let (n2, others) =
        flush_clients-OnlyShows name users g (record w { net = n1 }) cs names found is e in
      (n2, rw first others)

  pub flush_screen-OnlyShows :
      (g : Group) (w : World W) (cs : Cells) (names : Str)
      → lookup g.group_name w.server.group_map ≡ some g
      → IsList w.server.heap g.message_list cs
      → name_merge g ≡ some names
      → OnlyShows (flush_screen t g) w
  unfolding flush_screen
  flush_screen-OnlyShows g w cs names found is e =
      flush_clients-OnlyShows g.group_name g.user_list g w cs names found is e
