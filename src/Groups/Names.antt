-- ===== src/Groups/Names.antt =====
-- NameMerge of chat_system/chat/HelperFunction.go: no participant of any server is left out.
use selected_course_projects.Prelude.{
  ◌≡◌, refl, subst, sym, ap, true, some, List, [], ◌∷◌, ◌++◌, inl, inr, Bool-cases,
}
use selected_course_projects.Prelude.Int.{ℤ}
use selected_course_projects.Prelude.Map.{lookup}
use selected_course_projects.Prelude.Text.{Str, str, str_eq, fields, contains}
use selected_course_projects.Data.{Information, Group}
use selected_course_projects.Groups.{
  listed, merge_names, merge_replicas, replicas, trim_ends, name_merge,
}
use selected_course_projects.Groups.Listed.{contains-append, contains-append_right}

-- `, `
abbrev comma : Str
comma = b',' ∷ b' ' ∷ []

-- a text with a comma at its end
abbrev EndsInComma : Str → Type 0
EndsInComma s = (t : Str) × (s ≡ t ++ comma)

glue : (t name : Str) → (t ++ comma) ++ name ++ comma ≡ t ++ listed name
glue [] name = refl
glue (c ∷ t) name = ap (◌∷◌ c) (glue t name)

-- each of some names is written between commas
abbrev pub AllIn : List Str → Str → Type 0
AllIn [] s = Unit {0}
AllIn (n ∷ ns) s = (contains s (listed n) ≡ true) × AllIn ns s

-- What was written, is still written once more names are merged.
merge_names-keeps :
    (r p : Str) (names : List Str) → contains r p ≡ true → contains (merge_names r names) p ≡ true
unfolding merge_names
merge_names-keeps r p [] e = e
merge_names-keeps r p (n ∷ ns) e = elim (Bool-cases (contains r (listed n))) [
  | inl b ↦ rw b (merge_names-keeps r p ns e)
  | inr b ↦ rw b (
      merge_names-keeps (r ++ n ++ comma) p ns
        (contains-append (r ++ n) comma p (contains-append r n p e)))
]

abbrev Merged : List Str → Str → Type 0
Merged names s = AllIn names s × EndsInComma s

merge_names-Merged :
    (r : Str) (names : List Str) → EndsInComma r → Merged names (merge_names r names)
unfolding merge_names
merge_names-Merged r [] e = (tt, e)
merge_names-Merged r (n ∷ ns) (t, e) = elim (Bool-cases (contains r (listed n))) [
  | inl b ↦
      let (a, end) = merge_names-Merged r ns (t, e) in
      rw b ((merge_names-keeps r (listed n) ns b, a), end)
  | inr b ↦
      let (a, end) = merge_names-Merged (r ++ n ++ comma) ns (r ++ n, refl) in
      let here : contains (r ++ n ++ comma) (listed n) ≡ true =
        subst (λ s. contains (s ++ n ++ comma) (listed n) ≡ true) (sym e)
          (subst (λ s. contains s (listed n) ≡ true) (sym (glue t n))
            (contains-append_right t (listed n))) in
      rw b ((merge_names-keeps (r ++ n ++ comma) (listed n) ns here, a), end)
]

-- The group has the participants of each of some servers.
abbrev pub HasServers : Group → List (ℤ × Str) → Type 0
HasServers g [] = Unit {0}
HasServers g ((i, s) ∷ rs) =
    ((info : Information) × (lookup s g.replica_info ≡ some info)) × HasServers g rs

-- Each participant of each of some servers is written in a text.
abbrev pub Complete : Group → List (ℤ × Str) → Str → Type 0
Complete g [] text = Unit {0}
Complete g ((i, s) ∷ rs) text =
    ((info : Information) × (lookup s g.replica_info ≡ some info)
      × AllIn (fields info.user_list) text)
    × Complete g rs text

-- the texts that grow out of a text and keep what is written in it
abbrev Extends : Str → Str → Type 0
Extends r s = (p : Str) → contains r p ≡ true → contains s p ≡ true

AllIn-Extends : (names : List Str) (r s : Str) → Extends r s → AllIn names r → AllIn names s
AllIn-Extends [] r s f a = tt
AllIn-Extends (n ∷ ns) r s f (e, a) = (f (listed n) e, AllIn-Extends ns r s f a)

merge_replicas-Complete :
    (g : Group) (rs : List (ℤ × Str)) (r : Str)
    → EndsInComma r
    → HasServers g rs
    → (s : Str) × (merge_replicas g rs r ≡ some s) × Extends r s × Complete g rs s
unfolding merge_replicas
merge_replicas-Complete g [] r e h = (r, refl, λ p c. c, tt)
merge_replicas-Complete g ((i, k) ∷ rs) r e ((info, known), h) =
    let names = fields info.user_list in
    let (a, end) = merge_names-Merged r names e in
    let (s, run, ext, all) = merge_replicas-Complete g rs (merge_names r names) end h in
    (
      s,
      rw (merge_replicas, known) run,
      λ p c. ext p (merge_names-keeps r p names c),
      ((info, known, AllIn-Extends names (merge_names r names) s ext a), all),
    )

-- NameMerge, in a group with an entry for each of the five servers: it cuts two characters at each end
-- off a text in which every participant of every server is written between commas. It panics only
-- where that text is too short for the cuts.
pub name_merge-Complete :
    (g : Group)
    → HasServers g replicas
    → (s : Str) × (name_merge g ≡ trim_ends s) × Complete g replicas s
unfolding name_merge
name_merge-Complete g h =
    let (s, run, ext, all) = merge_replicas-Complete g replicas (str ", ") ([], refl) h in
    (s, rw run refl, all)
