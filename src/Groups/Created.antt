-- ===== src/Groups/Created.antt =====
-- CreateGroup of chat_system/chat/HelperFunction.go: what a new group has.
use selected_course_projects.Prelude.{
  ◌≡◌, refl, true, none, some, List, [], ◌∷◌, inl, inr, Bool-cases,
}
use selected_course_projects.Prelude.Int.{ℤ, pos, eqb_ℤ}
use selected_course_projects.Prelude.Map.{Map, lookup, insert, lookup-insert_self}
use selected_course_projects.Prelude.Text.{Str, str, str_eq, fields}
use selected_course_projects.Data.{nil, Information, Group}
use selected_course_projects.Groups.{
  create_group, other_replicas, no_information, replicas, merge_replicas, merge_names, trim_ends,
  name_merge,
}
use selected_course_projects.Groups.Listed.{known_again, lookup-other_replicas}

-- The text of a replica with this server's number is this server's.
abbrev pub Named : (me : ℤ) → (string_me : Str) → List (ℤ × Str) → Type 0
Named me string_me [] = Unit {0}
Named me string_me ((i, s) ∷ rs) = (eqb_ℤ i me ≡ true → s ≡ string_me) × Named me string_me rs

-- There is an entry for each of some replicas, with no participants and nothing acknowledged.
abbrev pub HaveEmpty : List (ℤ × Str) → Map Str Information → Type 0
HaveEmpty [] m = Unit {0}
HaveEmpty ((i, s) ∷ rs) m = (lookup s m ≡ some no_information) × HaveEmpty rs m

other_replicas-HaveEmpty :
    (me : ℤ) (string_me : Str) (rs : List (ℤ × Str)) (m : Map Str Information)
    → Named me string_me rs
    → lookup string_me m ≡ some no_information
    → HaveEmpty rs (other_replicas me rs m)
unfolding other_replicas
other_replicas-HaveEmpty me string_me [] m n e = tt
other_replicas-HaveEmpty me string_me ((i, s) ∷ rs) m (n, ns) e = elim (Bool-cases (eqb_ℤ i me)) [
  | inl b ↦ rw b (
    rw (n b) (lookup-other_replicas me string_me rs m e),
    other_replicas-HaveEmpty me string_me rs m ns e,
  )
  | inr b ↦ rw b (
    lookup-other_replicas me s rs (insert s no_information m)
        (lookup-insert_self s no_information m),
    other_replicas-HaveEmpty me string_me rs (insert s no_information m) ns
        (known_again s string_me m e),
  )
]

merge_replicas-HaveEmpty :
    (g : Group) (rs : List (ℤ × Str)) (text : Str)
    → HaveEmpty rs g.replica_info
    → merge_replicas g rs text ≡ some text
unfolding merge_replicas merge_names fields
merge_replicas-HaveEmpty g [] text h = refl
merge_replicas-HaveEmpty g ((i, s) ∷ rs) text (e, h) =
    rw (merge_replicas, e) (merge_replicas-HaveEmpty g rs text h)

-- A group that CreateGroup makes on one of the five servers has an entry for each of them, with no
-- participants and nothing acknowledged, no messages, no clients, no counts, and the timestamp that is
-- given. NameMerge panics on it.
pub create_group-HaveEmpty :
    (me : ℤ) (string_me group_name : Str) (timestamp : ℤ)
    → Named me string_me replicas
    → HaveEmpty replicas (create_group me string_me group_name timestamp).replica_info
      × ((create_group me string_me group_name timestamp).message_list
          ≡ record { head = nil; tail = nil; ten_start = nil; count = pos 0 })
      × ((create_group me string_me group_name timestamp).user_list ≡ [])
      × ((u : Str)
          → lookup u (create_group me string_me group_name timestamp).same_user_name_count ≡ none)
      × ((create_group me string_me group_name timestamp).max_lamport ≡ timestamp)
      × (name_merge (create_group me string_me group_name timestamp) ≡ none)
unfolding create_group lookup name_merge trim_ends
create_group-HaveEmpty me string_me group_name timestamp n =
    let g = create_group me string_me group_name timestamp in
    let entries : HaveEmpty replicas g.replica_info =
      other_replicas-HaveEmpty me string_me replicas (insert string_me no_information []) n
        (lookup-insert_self string_me no_information []) in
    (
      entries,
      refl,
      refl,
      (λ u. refl),
      refl,
      rw (merge_replicas-HaveEmpty g replicas (str ", ") entries) refl,
    )
