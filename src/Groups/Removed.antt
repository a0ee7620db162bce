-- ===== src/Groups/Removed.antt =====
-- DeleteUsername of chat_system/chat/HelperFunction.go takes back what AddUsername has counted.
use selected_course_projects.Prelude.{
  ◌≡◌, refl, ap, ◌∙◌, some, arith, inl, inr, if◌then◌else◌, Bool-cases, Option-cases,
}
use selected_course_projects.Prelude.Int.{ℤ, pos, dec32, dec32-inc32, ◌<ℤ◌, eqb_ℤ}
use selected_course_projects.Prelude.Map.{Map, lookup, insert, lookup-insert}
use selected_course_projects.Prelude.Text.{Str, str_eq, beq_str}
use selected_course_projects.Data.{Information, Group}
use selected_course_projects.Groups.{add_username, delete_username, with_user_list}
use selected_course_projects.Groups.Listed.{
  Listed, or_zero, or_zero-if, count_of, add_username-Joined,
}

-- The group after a deletion: the user is counted once less.
abbrev Removed : Group → Str → Group → Type 0
Removed g u out = out.same_user_name_count ≡ insert u (dec32 (count_of g u)) g.same_user_name_count

delete_username-Removed :
    (string_me : Str) (g : Group) (u : Str) (info : Information)
    → lookup string_me g.replica_info ≡ some info
    → (out : Group) × (delete_username string_me g u ≡ some out) × Removed g u out
unfolding delete_username with_user_list
delete_username-Removed string_me g u info k =
    elim (Option-cases (lookup u g.same_user_name_count)) [
      | inl e ↦ elim (Bool-cases (eqb_ℤ (dec32 (pos 0)) (pos 0))) [
        | inl b ↦ rw (e, b, k) (_, refl, refl)
        | inr b ↦ rw (e, b) (_, refl, refl)
      ]
      | inr (n, e) ↦ elim (Bool-cases (eqb_ℤ (dec32 n) (pos 0))) [
        | inl b ↦ rw (e, b, k) (_, refl, refl)
        | inr b ↦ rw (e, b) (_, refl, refl)
      ]
    ]

count_of-Removed :
    (g out : Group) (u v : Str)
    → Removed g u out
    → count_of out v ≡ (if beq_str u v then dec32 (count_of g u) else count_of g v)
count_of-Removed g out u v e =
    ap (λ (m : Map Str ℤ). or_zero (lookup v m)) e
    ∙ ap or_zero (lookup-insert u v (dec32 (count_of g u)) g.same_user_name_count)
    ∙ or_zero-if (beq_str u v) (dec32 (count_of g u)) (lookup v g.same_user_name_count)

-- A user who joins a group whose participants are listed and leaves it again: neither panics, and
-- every user is counted as often as before.
pub delete_username-add_username :
    (string_me : Str) (g : Group) (u : Str)
    → Listed string_me g
    → count_of g u <ℤ pos 2147483647
    → (g1 : Group) × (g2 : Group) × (add_username string_me g u ≡ some g1)
      × (delete_username string_me g1 u ≡ some g2)
      × ((v : Str) → count_of g2 v ≡ count_of g v)
delete_username-add_username string_me g u w lt =
    let (g1, e1, j) = add_username-Joined string_me g u w lt in
    let (g2, e2, r) = delete_username-Removed string_me g1 u j.whole.info j.whole.known in
    (
      g1,
      g2,
      e1,
      e2,
      λ v. elim (Bool-cases (beq_str u v)) [
        | inl b ↦
            count_of-Removed g1 g2 u v r
            ∙ rw b (
                ap dec32 j.count
                ∙ dec32-inc32 (count_of g u) lt (ground (arith, w.counts u))
                ∙ ap (count_of g) ((str_eq.beq_iff u v).0 b))
        | inr b ↦ count_of-Removed g1 g2 u v r ∙ rw b (j.others v b)
      ],
    )
