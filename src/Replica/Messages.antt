-- ===== src/Replica/Messages.antt =====
-- Insertion of a message on the whole server.
use selected_course_projects.Prelude.{suc, ◌<◌, ◌≡◌, ◌≢◌, refl, ap, ◌∙◌, Bool, true, some, length}
use selected_course_projects.Prelude.Map.{lookup, insert, lookup-insert_self, lookup-insert_ne}
use selected_course_projects.Prelude.Text.{Str, str_eq}
use selected_course_projects.Exec.{Run, ok}
use selected_course_projects.Exec.Returns
use selected_course_projects.Exec.Returns.{Returns, returns}
use selected_course_projects.Data.{Ptr, nil, Group, ClientRequest}
use selected_course_projects.Heap.{Heap}
use selected_course_projects.Heap.Chain.{last_or}
use selected_course_projects.LinkedList.Cells.{Cells, messages}
use selected_course_projects.LinkedList.IsList.{IsList}
use selected_course_projects.Placement.{Inserted, insertion_message}
use selected_course_projects.Placement.Merge.{Ascending}
use selected_course_projects.Placement.Refines.{Merges, IsNew, insertion_message-merge}
use selected_course_projects.Replica.{Server, Flag, resume, merge, insertion, insertion_old}

pub resume-Returns :
    {A : Type 0} {P : A → Heap → Type 0} (s : Server) (run : Run Heap A)
    → Returns P run
    → Returns (λ a s'. P a s'.heap × (s' ≡ record s { heap = s'.heap })) (resume s run)
resume-Returns s _ (returns p) = returns (p, refl)

-- The server after the insertion of a message into a group: the group's entry has the merged
-- messages, and no other group's entry is changed.
pub record Merged (r : ClientRequest) (s : Server) (g : Group) (cs : Cells) (result : Ptr × Bool)
    (s' : Server) : Type 0 where
  pub inserted : Inserted
  pub merges : Merges r g cs inserted s'.heap
  pub result_is : result ≡ (inserted.node, inserted.refresh)
  pub entry : lookup r.ori_group_name s'.group_map ≡ some inserted.group
  pub others : (n : Str) → r.ori_group_name ≢ n → lookup n s'.group_map ≡ lookup n s.group_map

-- Insertion of a message into a group that the server has returns, and merges the message into the
-- group under the request's name, under the conditions of the group's own theorem.
pub insertion-Merged :
    (flag2 : Bool) (r : ClientRequest) (s : Server) (g : Group) (cs : Cells)
    → lookup r.ori_group_name s.group_map ≡ some g
    → IsList s.heap g.message_list cs
    → g.message_list.tail ≡ last_or nil cs
    → Ascending (messages cs)
    → IsNew flag2 r g
    → suc (length cs) < 2147483647
    → Returns (Merged r s g cs) (insertion Flag.message_flag flag2 r s)
unfolding insertion insertion_old
insertion-Merged flag2 r s g cs known is tl asc new fits = rw known (
    Returns.bind
      (resume-Returns s (insertion_message flag2 r g s.heap)
        (insertion_message-merge flag2 r g s.heap cs is tl asc new fits))
      λ out s' (m, e). returns (record {
        inserted = out;
        merges = m;
        result_is = refl;
        entry = lookup-insert_self r.ori_group_name out.group s'.group_map;
        others = λ n ne.
            lookup-insert_ne r.ori_group_name n out.group s'.group_map ne
            ∙ ap (λ (t : Server). lookup n t.group_map) e;
      }))

-- Merge of a message into a group that the server has, from Insertion into the group.
pub merge_lem :
    (r : ClientRequest) (s : Server) (g : Group) (out : Inserted) (k : Heap)
    → lookup r.ori_group_name s.group_map ≡ some g
    → insertion_message true r g s.heap ≡ ok out k
    → merge r Flag.message_flag s
      ≡ ok out.refresh
          (record s { heap = k; group_map = insert r.ori_group_name out.group s.group_map })
unfolding merge insertion insertion_old
merge_lem r s g out k found run = rw (found, run) refl
