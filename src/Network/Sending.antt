-- ===== src/Network/Sending.antt =====
-- What SendingBetweenReplica of chat_system/chat/replica.go leaves alone, for one message and for
-- several in a row.
use selected_course_projects.Prelude.{
  ℕ, ◌≡◌, refl, ◌∙◌, Bool-cases, Option-cases, some, List, [], ◌∷◌, ◌++◌, inl, inr,
}
use selected_course_projects.Prelude.Map.{lookup, insert, lookup-insert_self}
use selected_course_projects.Prelude.Text.{Str, str_eq}
use selected_course_projects.Exec.{Exec, pure, and_then, ◌>>◌}
use selected_course_projects.Exec.Returns
use selected_course_projects.Exec.Returns.{Returns, returns}
use selected_course_projects.Data.{ClientRequest}
use selected_course_projects.Heap.{need}
use selected_course_projects.Network.{Transport, Config, World, reconnect, sending_between_replica}

module _ {W : Type 0} where
  -- StreamSet has an entry for a server.
  abbrev pub HasConfig : Str → World W → Type 0
  HasConfig server w = (c : Config) × (lookup server w.stream_set ≡ some c)

  -- A step that changes nothing of the server but its connections.
  abbrev pub Kept : Str → World W → World W → Type 0
  Kept server w w' = (w'.server ≡ w.server) × HasConfig server w'

  put_config-HasConfig :
      (server : Str) (c : Config) (w : World W)
      → HasConfig server (record w { stream_set = insert server c w.stream_set })
  put_config-HasConfig server c w = (c, lookup-insert_self server c w.stream_set)

module _ {W : Type 0} (t : Transport W) where
  reconnect-Kept :
      (server : Str) (r : ClientRequest) (w : World W)
      → HasConfig server w
      → Returns (λ _. Kept server w) (reconnect t server r w)
  unfolding reconnect need
  reconnect-Kept server r w (c, e) = rw e (elim (Option-cases (t.open_stream server w.net).0) [
    | inl n ↦ rw n (returns (refl, put_config-HasConfig server _ w))
    | inr (s, f) ↦ rw f (returns (refl, put_config-HasConfig server _ w))
  ])

  -- SendingBetweenReplica returns, whatever the connections do, and keeps the server.
  pub sending-Kept :
      (server : Str) (stream : ℕ) (r : ClientRequest) (w : World W)
      → HasConfig server w
      → Returns (λ _. Kept server w) (sending_between_replica t server stream r w)
  unfolding sending_between_replica
  sending-Kept server stream r w k = elim (Bool-cases (t.send stream r w.net).0) [
    | inl e ↦ rw e (returns (refl, k))
    | inr e ↦ rw e (reconnect-Kept server r (record w { net = (t.send stream r w.net).1 }) k)
  ]

  -- messages to one server, one after the other
  unfoldable pub send_list :
      (server : Str) → (stream : ℕ) → List ClientRequest → Exec (World W) (Unit {0})
  send_list server stream [] = pure tt
  send_list server stream (r ∷ rs) = do
    sending_between_replica t server stream r
    send_list server stream rs

  -- Messages to a server all are sent, and keep the server.
  pub send_list-Kept :
      (server : Str) (stream : ℕ) (rs : List ClientRequest) (w : World W)
      → HasConfig server w
      → Returns (λ _. Kept server w) (send_list server stream rs w)
  unfolding send_list
  send_list-Kept server stream [] w k = returns (refl, k)
  send_list-Kept server stream (r ∷ rs) w k =
      Returns.bind (sending-Kept server stream r w k) λ _ w' (e, k').
        Returns.weaken (send_list-Kept server stream rs w' k') λ _ _ (e', k''). (e' ∙ e, k'')

  pub send_list-append :
      (server : Str) (stream : ℕ) (rs qs : List ClientRequest) (w : World W)
      → HasConfig server w
      → send_list server stream (rs ++ qs) w
        ≡ and_then (send_list server stream rs w) (λ _. send_list server stream qs)
  unfolding send_list
  send_list-append server stream [] qs w k = refl
  send_list-append server stream (r ∷ rs) qs w k =
      let (_, w', e, (_, k')) = Returns.result (sending-Kept server stream r w k) in
      rw e (send_list-append server stream rs qs w' k')
