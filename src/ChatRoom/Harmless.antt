-- ===== src/ChatRoom/Harmless.antt =====
-- The requests of ChatRoom (chat_system/chat/chatserver.go) that only ask: View, Entropy and AllGroup.
use selected_course_projects.Prelude.{ℕ, ◌≡◌, refl, ◌⊎◌, inl, inr, [], ◌∷◌, Option-cases}
use selected_course_projects.Prelude.Map.{Map, lookup, insert}
use selected_course_projects.Prelude.Text.{Str, str, str_eq, beq_str}
use selected_course_projects.Exec.Returns
use selected_course_projects.Exec.Returns.{Returns, returns}
use selected_course_projects.Data.{Group, ClientRequest}
use selected_course_projects.Heap.{need}
use selected_course_projects.Network.{Transport, Config, World}
use selected_course_projects.Network.Broadcast.{Calm, Calm-refl, Calm-trans, put_config-Calm}
use selected_course_projects.Sync.Periodic.{entropy-Calm}
use selected_course_projects.ChatRoom.{handle, handle_other}
use selected_course_projects.ChatRoom.Handlers.{
  Session, has_config, view_of, handle_view, heard_of, send_groups, all_group, handle_all_group,
}

module _ {W : Type 0} (t : Transport W) where
  view_of-Calm :
      (m : Map Str Config) (text : Str) (w : World W) → Returns (λ _. Calm w) (view_of t m text w)
  unfolding view_of
  view_of-Calm [] text w = returns (Calm-refl w)
  view_of-Calm ((s, c) ∷ m) text w =
      Returns.weaken (view_of-Calm m _ (record w { net = (t.now w.net).1 })) λ _ _ k. k

  handle_view-Calm : (ct : ℕ) (w : World W) → Returns (λ _. Calm w) (handle_view t ct w)
  unfolding handle_view
  handle_view-Calm ct w =
      Returns.bind (view_of-Calm w.stream_set (str "View: ") w) λ _ w1 k. returns k

  send_groups-Calm :
      (ct : ℕ) (m : Map Str Group) (w : World W) → Returns (λ _. Calm w) (send_groups t ct m w)
  unfolding send_groups
  send_groups-Calm ct [] w = returns (Calm-refl w)
  send_groups-Calm ct ((name, g) ∷ m) w =
      Returns.weaken (send_groups-Calm ct m (record w { net = _ })) λ _ _ k. k

  handle_all_group-Calm :
      (ct : ℕ) (r : ClientRequest) (w : World W) → Returns (λ _. Calm w) (handle_all_group t ct r w)
  unfolding handle_all_group all_group heard_of need
  handle_all_group-Calm ct r w =
      let w1 : World W = record w { net = (t.now w.net).1 } in
      elim (Option-cases (lookup r.from_server w.stream_set)) [
        | inl e ↦ rw (handle_all_group, has_config, e) (send_groups-Calm ct w.server.group_map w1)
        | inr (c, e) ↦
            let c' : Config = record c { last_time = (t.now w.net).0 } in
            let w2 : World W = record w1 { stream_set = insert r.from_server c' w.stream_set } in
            rw (handle_all_group, has_config, e, heard_of, e)
              (Returns.weaken (send_groups-Calm ct w.server.group_map w2)
                λ _ w3 k. Calm-trans w1 w2 w3 (put_config-Calm r.from_server c' w1) k)
      ]

  -- the requests that only ask
  abbrev pub OnlyAsks : Str → Type 0
  OnlyAsks word = (word ≡ str "v") ⊎ ((word ≡ str "Entropy") ⊎ (word ≡ str "AllGroup"))

  -- Such a request is handled without a panic, whatever the network does: the session and the server's
  -- data are as they were, and no connection is forgotten.
  pub handle-Calm :
      (ct : ℕ) (r : ClientRequest) (s : Session) (w : World W)
      → OnlyAsks r.request
      → Returns (λ s' w'. (s' ≡ s) × Calm w w') (handle t ct r s w)
  unfolding handle handle_other beq_str
  handle-Calm ct r s w (inl e) =
      rw (handle, handle_other, e)
        (Returns.bind (handle_view-Calm ct w) λ _ w1 k. returns (refl, k))
  handle-Calm ct r s w (inr (inl e)) =
      rw (handle, handle_other, e) (Returns.bind (entropy-Calm t w) λ _ w1 k. returns (refl, k))
  handle-Calm ct r s w (inr (inr e)) =
      rw (handle, handle_other, e)
        (Returns.bind (handle_all_group-Calm ct (record r { request = str "AllGroup" }) w)
          λ _ w1 k. returns (refl, k))
