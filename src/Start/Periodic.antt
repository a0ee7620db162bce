-- ===== src/Start/Periodic.antt =====
-- The periodic work of a server (`main` of chat_system/server.go).
use selected_course_projects.Prelude.{ℕ, zero, suc}
use selected_course_projects.Prelude.Text.{str}
use selected_course_projects.Exec.Returns
use selected_course_projects.Exec.Returns.{Returns, returns}
use selected_course_projects.Data.{blank}
use selected_course_projects.Network.{Transport, World}
use selected_course_projects.Network.Broadcast.{Calm, Calm-refl, Calm-trans, replica_broadcast-Calm}
use selected_course_projects.Start.{ask_all_group, periodic}
use selected_course_projects.Sync.Periodic.{entropy-Calm}

-- However often a server asks the others for their groups and for what it misses, and whatever the
-- network does: the rounds return, without a panic, the server's data are as they were, and no
-- connection is forgotten.
pub periodic-Calm :
    {W : Type 0} (t : Transport W) (n : ℕ) (w : World W) → Returns (λ _. Calm w) (periodic t n w)
unfolding periodic ask_all_group
periodic-Calm t zero w = returns (Calm-refl w)
periodic-Calm t (suc n) w =
    Returns.bind
      (replica_broadcast-Calm t
        (record (blank (str "AllGroup")) { from_server = w.server.string_me }) w)
      λ _ w1 k. Returns.bind (entropy-Calm t w1) λ _ w2 l.
        Returns.weaken (periodic-Calm t n w2)
          λ _ w3 m. Calm-trans w w2 w3 (Calm-trans w w1 w2 k l) m
