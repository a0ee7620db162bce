-- ===== src/Replica/Members.antt =====
-- The participants of other replicas, as they are merged.
use selected_course_projects.Prelude.{
  ◌≡◌, refl, sym, ap, ◌∙◌, true, false, some, [], ◌∷◌, arith, inl, inr, Bool-cases, if◌then◌else◌,
}
use selected_course_projects.Prelude.Int.{eqb_ℤ, ltb_ℤ}
use selected_course_projects.Prelude.Map.{Map, lookup, insert, lookup-insert_self}
use selected_course_projects.Prelude.Text.{Str, str_eq, beq_str}
use selected_course_projects.Exec.{Run, Exec, ok, pure, ◌>>=◌}
use selected_course_projects.Data.{nil, Information, Group, ClientRequest}
use selected_course_projects.Heap.{Heap}
use selected_course_projects.Replica.{insertion_members}

insert-insert :
    (k : Str) (v w : Information) (m : Map Str Information)
    → insert k w (insert k v m) ≡ insert k w m
unfolding insert
insert-insert k v w [] = rw ((str_eq.beq_iff k k).1 refl) refl
insert-insert k v w ((j, x) ∷ m) = elim (Bool-cases (beq_str j k)) [
  | inl b ↦ rw (b, (str_eq.beq_iff k k).1 refl) refl
  | inr b ↦ rw (b, b) (ap (◌∷◌ (j, x)) (insert-insert k v w m))
]

-- the group with the participants that an update brings
abbrev pub informed : ClientRequest → Information → Group → Group
informed r info g = record g {
  replica_info =
      insert r.from_server
        (record info { user_list = r.content; group_name_timestamp = r.timestamp }) g.replica_info;
}

-- Two updates of the participants, one after the other.
unfoldable pub members_twice : ClientRequest → ClientRequest → Group → Exec Heap Group
members_twice a b g = do
  out ← insertion_members a g
  out' ← insertion_members b out.group
  pure out'.group

insertion_members_newer :
    (r : ClientRequest) (g : Group) (h : Heap) (info : Information)
    → lookup r.from_server g.replica_info ≡ some info
    → ltb_ℤ info.group_name_timestamp r.timestamp ≡ true
    → insertion_members r g h
      ≡ ok (record { node = nil; refresh = true; group = informed r info g }) h
unfolding insertion_members
insertion_members_newer r g h info k e = rw (k, e) refl

insertion_members_older :
    (r : ClientRequest) (g : Group) (h : Heap) (info : Information)
    → lookup r.from_server g.replica_info ≡ some info
    → ltb_ℤ info.group_name_timestamp r.timestamp ≡ false
    → insertion_members r g h ≡ ok (record { node = nil; refresh = false; group = g }) h
unfolding insertion_members
insertion_members_older r g h info k e = rw (k, e) refl

abbrev left_with : Group → Heap → Run Heap Group
left_with g h = ok g h

-- what is left of two updates
abbrev pub newest : ClientRequest → ClientRequest → Information → Group → Group
newest a b info g =
    if ltb_ℤ info.group_name_timestamp a.timestamp
    then (if ltb_ℤ a.timestamp b.timestamp then informed b info g else informed a info g)
    else (if ltb_ℤ info.group_name_timestamp b.timestamp then informed b info g else g)

module _ (a b : ClientRequest) (g : Group) (h : Heap) (info : Information) where
  informed_twice :
      a.from_server ≡ b.from_server
      → informed b
          (record info { user_list = a.content; group_name_timestamp = a.timestamp })
          (informed a info g)
        ≡ informed b info g
  informed_twice e =
      ap (λ (m : Map Str Information). record g { replica_info = m })
        (ap
            (λ (k : Str).
              insert b.from_server
                (record info { user_list = b.content; group_name_timestamp = b.timestamp })
                (insert k
                  (record info { user_list = a.content; group_name_timestamp = a.timestamp })
                  g.replica_info))
            e
          ∙ insert-insert b.from_server _ _ g.replica_info)

  members_twice_lem :
      lookup a.from_server g.replica_info ≡ some info
      → a.from_server ≡ b.from_server
      → members_twice a b g h ≡ ok (newest a b info g) h
  unfolding members_twice
  members_twice_lem k e =
      let kb : lookup b.from_server g.replica_info ≡ some info =
        ap (λ (s : Str). lookup s g.replica_info) (sym e) ∙ k in
      let again : lookup b.from_server (informed a info g).replica_info
          ≡ some (record info { user_list = a.content; group_name_timestamp = a.timestamp }) =
        ap (λ (s : Str). lookup s (informed a info g).replica_info) (sym e)
        ∙ lookup-insert_self a.from_server _ g.replica_info in
      elim (Bool-cases (ltb_ℤ info.group_name_timestamp a.timestamp)) [
        | inl x ↦ elim (Bool-cases (ltb_ℤ a.timestamp b.timestamp)) [
          | inl y ↦
              rw
                (
                  insertion_members_newer a g h info k x,
                  insertion_members_newer b (informed a info g) h _ again y,
                  x,
                  y,
                )
                (ap (λ (o : Group). left_with o h) (informed_twice e))
          | inr y ↦
              rw
                (
                  insertion_members_newer a g h info k x,
                  insertion_members_older b (informed a info g) h _ again y,
                  x,
                  y,
                )
                refl
        ]
        | inr x ↦ elim (Bool-cases (ltb_ℤ info.group_name_timestamp b.timestamp)) [
          | inl y ↦
              rw
                (
                  insertion_members_older a g h info k x,
                  insertion_members_newer b g h info kb y,
                  x,
                  y,
                )
                refl
          | inr y ↦
              rw
                (
                  insertion_members_older a g h info k x,
                  insertion_members_older b g h info kb y,
                  x,
                  y,
                )
                refl
        ]
      ]

newest_comm :
    (a b : ClientRequest) (info : Information) (g : Group)
    → eqb_ℤ a.timestamp b.timestamp ≡ false
    → newest a b info g ≡ newest b a info g
newest_comm a b info g d = ground arith

-- Two updates of one server's participants with different versions, in a group that knows the
-- server, leave the same group and the same heap in either order: the newest version that was seen.
pub members_twice_comm :
    (a b : ClientRequest) (g : Group) (h : Heap) (info : Information)
    → lookup a.from_server g.replica_info ≡ some info
    → a.from_server ≡ b.from_server
    → eqb_ℤ a.timestamp b.timestamp ≡ false
    → (members_twice a b g h ≡ ok (newest a b info g) h)
      × (members_twice b a g h ≡ ok (newest a b info g) h)
members_twice_comm a b g h info k e d = (
  members_twice_lem a b g h info k e,
  members_twice_lem b a g h info (ap (λ (s : Str). lookup s g.replica_info) (sym e) ∙ k) (sym e)
      ∙ ap (λ (o : Group). left_with o h) (sym (newest_comm a b info g d)),
)
