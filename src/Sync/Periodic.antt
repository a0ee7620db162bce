-- ===== src/Sync/Periodic.antt =====
-- Entropy and SendMySaving of chat_system/chat/replica.go: they return, whatever the network does.
use selected_course_projects.Prelude.{[], ◌∷◌}
use selected_course_projects.Prelude.Int.{ℤ}
use selected_course_projects.Prelude.Map.{Map}
use selected_course_projects.Prelude.Text.{Str}
use selected_course_projects.Exec.Returns
use selected_course_projects.Exec.Returns.{Returns, returns}
use selected_course_projects.Data.{Information, Group}
use selected_course_projects.Network.{Transport, World}
use selected_course_projects.Network.Broadcast.{Calm, Calm-refl, Calm-trans, replica_broadcast-Calm}
use selected_course_projects.Sync.{
  my_saving, send_my_saving_to, send_my_saving, entropy_of, entropy,
}

module _ {W : Type 0} (t : Transport W) where
  send_my_saving_to-Calm :
      (me : ℤ) (g : Group) (infos : Map Str Information) (w : World W)
      → Returns (λ _. Calm w) (send_my_saving_to t me g infos w)
  unfolding send_my_saving_to
  send_my_saving_to-Calm me g [] w = returns (Calm-refl w)
  send_my_saving_to-Calm me g ((replica, info) ∷ rest) w =
      Returns.bind (replica_broadcast-Calm t (my_saving me g replica info) w) λ _ w1 k.
        Returns.weaken (send_my_saving_to-Calm me g rest w1) λ _ w2 l. Calm-trans w w1 w2 k l

  entropy_of-Calm :
      (groups : Map Str Group) (w : World W) → Returns (λ _. Calm w) (entropy_of t groups w)
  unfolding entropy_of send_my_saving
  entropy_of-Calm [] w = returns (Calm-refl w)
  entropy_of-Calm ((name, g) ∷ rest) w =
      Returns.bind (send_my_saving_to-Calm w.server.me g g.replica_info w)
        λ _ w1 k. Returns.weaken (entropy_of-Calm rest w1) λ _ w2 l. Calm-trans w w1 w2 k l

  pub entropy-Calm : (w : World W) → Returns (λ _. Calm w) (entropy t w)
  unfolding entropy
  entropy-Calm w = entropy_of-Calm w.server.group_map w
