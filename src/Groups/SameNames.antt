-- ===== src/Groups/SameNames.antt =====
-- NameMerge of chat_system/chat/HelperFunction.go reads the names of the participants alone.
use selected_course_projects.Prelude.{
  ◌≡◌, refl, sym, ap, ◌∙◌, none, some, Option, List, [], ◌∷◌, inl, inr, Option-cases,
}
use mathlib.Core.Option.{some-injective}
use selected_course_projects.Prelude.Int.{ℤ}
use selected_course_projects.Prelude.Map.{lookup}
use selected_course_projects.Prelude.Text.{Str, str, str_eq, fields}
use selected_course_projects.Data.{Information, Group}
use selected_course_projects.Groups.{replicas, merge_replicas, merge_names, name_merge}

-- the participants of a server in a group
abbrev pub names_of : Option Information → Option Str
names_of none = none
names_of (some info) = some info.user_list

abbrev pub SameNames : Group → Group → Type 0
SameNames g g' =
    (s : Str) → names_of (lookup s g'.replica_info) ≡ names_of (lookup s g.replica_info)

merge_replicas-SameNames :
    (g g' : Group) (rs : List (ℤ × Str)) (text : Str)
    → SameNames g g'
    → merge_replicas g' rs text ≡ merge_replicas g rs text
unfolding merge_replicas
merge_replicas-SameNames g g' [] text same = refl
merge_replicas-SameNames g g' ((i, s) ∷ rs) text same =
    let q =
      λ (o o' : Option Information) (e : lookup s g.replica_info ≡ o)
          (e' : lookup s g'.replica_info ≡ o').
        sym (ap names_of e') ∙ same s ∙ ap names_of e in
    elim (Option-cases (lookup s g.replica_info)) [
      | inl e ↦ elim (Option-cases (lookup s g'.replica_info)) [
        | inl e' ↦ rw (merge_replicas, e, e') refl
        | inr (info', e') ↦ let no_names = q none (some info') e e' in absurd (cc)
      ]
      | inr (info, e) ↦ elim (Option-cases (lookup s g'.replica_info)) [
        | inl e' ↦ let no_names = q (some info) none e e' in absurd (cc)
        | inr (info', e') ↦
            let one =
              some-injective info'.user_list info.user_list (q (some info) (some info') e e') in
            rw (merge_replicas, e, e', one)
              (merge_replicas-SameNames g g' rs (merge_names text (fields info.user_list)) same)
      ]
    ]

pub name_merge-SameNames : (g g' : Group) → SameNames g g' → name_merge g' ≡ name_merge g
unfolding name_merge
name_merge-SameNames g g' same = rw (merge_replicas-SameNames g g' replicas (str ", ") same) refl
