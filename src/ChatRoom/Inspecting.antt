-- ===== src/ChatRoom/Inspecting.antt =====
-- The requests data and InspectMap of ChatRoom (chat_system/chat/chatserver.go), which print what the
-- server holds.
use selected_course_projects.Prelude.{ℕ, ◌≡◌, refl, some, List}
use selected_course_projects.Prelude.Map.{lookup}
use selected_course_projects.Prelude.Text.{Str, str, str_eq, beq_str}
use selected_course_projects.Exec.{Run}
use selected_course_projects.Exec.Returns.{Returns, returns}
use selected_course_projects.Exec.Ends.{ended, panicked, ran_out}
use selected_course_projects.Data.{Information, Group, ClientRequest}
use selected_course_projects.Heap.{Heap}
use selected_course_projects.Inspect.{inspect_map}
use selected_course_projects.Inspect.Printed.{Entry, GroupsHold, print_data_complete}
use selected_course_projects.Inspect.Missing.{
  LikeMissing, inspect_map-Fails, not-Returns, Fails, fails_first,
}
use selected_course_projects.Network.{Transport, World, read_heap}
use selected_course_projects.ChatRoom.{handle, handle_other}
use selected_course_projects.ChatRoom.Handlers.{Session, handle_data, handle_inspect}

module _ {W : Type 0} (t : Transport W) where
  -- A request data is handled without a panic, and changes nothing, where the groups' lists are well
  -- formed.
  pub handle_data-unchanged :
      (ct : ℕ) (r : ClientRequest) (s : Session) (w : World W) (rest : List (List Entry))
      → r.request ≡ str "data"
      → GroupsHold w.server.heap w.server.group_map rest
      → Returns (λ s' w'. (s' ≡ s) × (w' ≡ w)) (handle t ct r s w)
  unfolding handle handle_other handle_data beq_str
  handle_data-unchanged ct r s w rest e o =
      rw
        (
          handle,
          handle_other,
          e,
          handle_data,
          print_data_complete w.server.me w.server.heap w.server.group_map rest o,
        )
        (returns (refl, refl))

  read_heap-Fails :
      {A : Type 0} (w : World W) (run : Run Heap A) → Fails run → Fails (read_heap w run)
  read_heap-Fails w _ (ended b) = absurd b
  read_heap-Fails w _ panicked = panicked
  read_heap-Fails w _ ran_out = ran_out

  handle_inspect-Fails :
      (w : World W)
      → Fails (inspect_map w.server.string_me w.server.group_map w.server.heap)
      → Fails (handle_inspect w)
  unfolding handle_inspect
  handle_inspect-Fails w f = fails_first _ (read_heap-Fails w _ f)

  -- A request InspectMap stops the server where another server's record, in some group, has no like
  -- under an index up to the number of this server's own likes.
  pub handle_inspect-LikeMissing :
      (ct : ℕ) (r : ClientRequest) (s : Session) (w : World W) (name st_s : Str) (g : Group)
      (info : Information)
      → r.request ≡ str "InspectMap"
      → lookup name w.server.group_map ≡ some g
      → lookup st_s g.replica_info ≡ some info
      → LikeMissing w.server.string_me g info
      → ¬ Returns (λ _ _. Unit {0}) (handle t ct r s w)
  unfolding handle handle_other beq_str
  handle_inspect-LikeMissing ct r s w name st_s g info e f i m =
      rw (handle, handle_other, e)
        (not-Returns _ (
          fails_first _ (
            handle_inspect-Fails w (
              inspect_map-Fails w.server.string_me name g w.server.group_map st_s info w.server.heap
                f i m))))
