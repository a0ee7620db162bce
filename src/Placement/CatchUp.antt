-- ===== src/Placement/CatchUp.antt =====
-- A server that receives the messages of another's events that it misses, as CheckForMerge sends them
-- and Insertion (chat_system/chat/replica.go) receives them.
use selected_course_projects.Prelude.{
  ℕ, suc, ◌<◌, ◌≡◌, refl, ap, subst, ◌∙◌, inl, inr, true, false, some, not, ◌||◌, List, [], ◌∷◌,
  length, arith,
}
use selected_course_projects.Prelude.Int.{pos, inc32-pos, leb_ℤ, int_eq}
use selected_course_projects.Prelude.Map.{lookup, lookup-insert_self}
use selected_course_projects.Prelude.Text.{Str, str_eq}
use selected_course_projects.Exec.Ends.{both}
use selected_course_projects.Exec.Returns
use selected_course_projects.Exec.Returns.{Returns, returns}
use selected_course_projects.Data.{Message, Information, Group, ClientRequest}
use selected_course_projects.Heap.{Heap}
use selected_course_projects.LinkedList.Cells.{Cells, messages, length-messages}
use selected_course_projects.Placement.{Inserted, record_message, insertion_message}
use selected_course_projects.Placement.Acknowledge.{acknowledged}
use selected_course_projects.Placement.Stands.{Stands, Merges-Stands}
use selected_course_projects.Placement.Merge.{known, merge}
use selected_course_projects.Placement.Received.{Settles, Acknowledges, insertion_message-Settles}
use selected_course_projects.Placement.Refines.{Merges, merges, insertion_message-merge}
use selected_course_projects.Placement.Represents.{overtakes}

-- The group keeps its records of a message that it knew, and acknowledges a new one.
abbrev pub Keeps : ClientRequest → List Message → Group → Inserted → Type 0
Keeps r ms g out =
    (known r ms ≡ true → out.group ≡ g) × (known r ms ≡ false → Acknowledges true r g out)

Merges-Keeps :
    (r : ClientRequest) (g : Group) (cs : Cells) (out : Inserted) (k : Heap)
    → Merges r g cs out k
    → Settles true r g out
    → Keeps r (messages cs) g out
Merges-Keeps r g cs out k (merges ds l e t servers lamport node keeps) (inl (n, s)) =
    (keeps, λ b. absurd (ground (arith, node, b, n)))
Merges-Keeps r g cs out k (merges ds l e t servers lamport node keeps) (inr a) = (keeps, λ b. a)

-- A message with an index that was not acknowledged.
pub step-Keeps :
    (r : ClientRequest) (ms : List Message) (g : Group) (h : Heap) (i : Information)
    → Stands ms g h
    → lookup r.from_server g.replica_info ≡ some i
    → leb_ℤ r.map_index i.msg_timestamp ≡ false
    → (known r ms || not (overtakes r ms)) ≡ true
    → suc (length ms) < 2147483647
    → Returns
        (λ out k. Stands (merge r ms) out.group k × Keeps r ms g out)
        (insertion_message true r g h)
step-Keeps r ms g h i s e new free fits =
    Returns.weaken
      (both
        (insertion_message-merge true r g h s.cells s.list s.tail (rw s.stands s.ascending)
          (inr (i, e, new)) (omega (arith, length-messages s.cells, ap length s.stands)))
        (insertion_message-Settles true r g h))
      λ out k (m, settles).
        subst (λ (x : List Message). Stands (merge r x) out.group k × Keeps r x g out) s.stands
          (
            Merges-Stands r g s.cells out k m (rw s.stands free) (rw s.stands s.ascending),
            Merges-Keeps r g s.cells out k m settles,
          )

-- A message that the group has already, with an index that was not acknowledged: Insertion returns,
-- and the index is still not acknowledged, since the group is as it was.
pub insertion_message-unacknowledged :
    (r : ClientRequest) (ms : List Message) (g : Group) (h : Heap) (i : Information)
    → Stands ms g h
    → lookup r.from_server g.replica_info ≡ some i
    → leb_ℤ r.map_index i.msg_timestamp ≡ false
    → known r ms ≡ true
    → suc (length ms) < 2147483647
    → Returns (λ out k. Stands (merge r ms) g k × (out.group ≡ g)) (insertion_message true r g h)
insertion_message-unacknowledged r ms g h i s e new b fits =
    Returns.weaken (step-Keeps r ms g h i s e new (rw b refl) fits)
      λ out k (t, (keeps, _)). (subst (λ x. Stands (merge r ms) x k) (keeps b) t, keeps b)

-- The requests carry the indexes after `n` of a server's messages.
abbrev pub Numbered : Str → ℕ → List ClientRequest → Type 0
Numbered s n [] = Unit {0}
Numbered s n (r ∷ rs) = (r.from_server ≡ s) × (r.map_index ≡ pos (suc n)) × Numbered s (suc n) rs

-- Each message is new when it arrives and does not overtake the last.
abbrev pub AllNew : List ClientRequest → List Message → Type 0
AllNew [] ms = Unit {0}
AllNew (r ∷ rs) ms = (known r ms ≡ false) × (overtakes r ms ≡ false) × AllNew rs (merge r ms)

-- The messages of a server are acknowledged up to an index.
abbrev pub Acked : Str → ℕ → Group → Type 0
Acked s n g = (i : Information) × (lookup s g.replica_info ≡ some i) × (i.msg_timestamp ≡ pos n)

pub Acked-next :
    (s : Str) (n : ℕ) (r : ClientRequest) (g : Group) (out : Inserted)
    → Acked s n g
    → r.from_server ≡ s
    → r.map_index ≡ pos (suc n)
    → suc n < 2147483647
    → Acknowledges true r g out
    → Acked s (suc n) out.group
unfolding acknowledged record_message
Acked-next s n r g out (i, e, t) from ix lt a = (
  record_message r out.node i,
  ap (lookup s) a.0
      ∙ rw (acknowledged, from, e, from)
          (lookup-insert_self s (record_message r out.node i) g.replica_info),
  rw (t, ix, inc32-pos n (omega arith)) (ground arith),
)
