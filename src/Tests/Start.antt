-- ===== src/Tests/Start.antt =====
-- The theorems on the start of a server at inputs where their hypotheses hold.
use selected_course_projects.Prelude.{◌≡◌, refl, some, none, true, [], ◌∷◌, arith, if◌then◌else◌}
use selected_course_projects.Prelude.Map.{lookup}
use selected_course_projects.Prelude.Number.{itoa}
use selected_course_projects.Prelude.Text.{str, str_eq}
use selected_course_projects.Network.{Transport}
use selected_course_projects.Start.{new_server, start_server}
use selected_course_projects.Start.Connected.{HaveConfigs, start_server-Connected}
use selected_course_projects.Prelude.Int.{pos}
use selected_course_projects.Exec.Returns.{Returns}
use selected_course_projects.Network.Broadcast.{Calm}
use selected_course_projects.Start.{all_servers, other_servers, periodic}
use selected_course_projects.Start.Others.{is_server, without, other_servers-without}
use selected_course_projects.Start.Periodic.{periodic-Calm}
use selected_course_projects.Tests.Sync.{Log, delivering, world}

other_servers-without_example :
    other_servers (pos 3) ≡ (if is_server (pos 3) then some (without (pos 3) all_servers) else none)
other_servers-without_example = other_servers-without (pos 3)

periodic-Calm_example : Returns (λ _. Calm world) (periodic delivering 3 world)
periodic-Calm_example = periodic-Calm delivering 3 world

-- a network on which every server is there
abbrev open_to_all : Transport Log
open_to_all = record delivering { open_stream = λ server w. (some 7, w) }

start_server-Connected_example :
    Returns
      (λ _ w'.
        (w'.server ≡ new_server (itoa (pos 3)) world.server.heap)
        × (w'.server.me ≡ pos 3)
        × HaveConfigs open_to_all (without (pos 3) all_servers) w'
        × (lookup (itoa (pos 3)) w'.stream_set ≡ none))
      (start_server open_to_all 1 (str "server" ∷ itoa (pos 3) ∷ []) true world)
start_server-Connected_example =
    start_server-Connected open_to_all 1 3 (str "server") [] world (omega arith) (omega arith)
      λ server n. (0, (7, refl), omega arith)
