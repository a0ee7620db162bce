-- ===== src/Inspect/Printed.antt =====
-- What PrintData and Display of the server's lists print, for lists that are well formed.
use selected_course_projects.Prelude.{
  ℕ, zero, suc, ◌<◌, ◌≡◌, refl, ap, ◌∙◌, false, some, List, [], ◌∷◌, ◌++◌, map, length, arith, ◌==◌,
}
use selected_course_projects.Prelude.Int.{ℤ}
use selected_course_projects.Prelude.Text.{Str, str}
use selected_course_projects.Exec.{ok}
use selected_course_projects.Data.{nil, LinkedList, Activity, Message, Group}
use selected_course_projects.Heap.{Heap, need}
use selected_course_projects.Heap.Access.{load_lem, load_message_lem, load_activity_lem}
use selected_course_projects.Heap.Chain.{Chain, first}
use selected_course_projects.LinkedList.Cells.{message_node, Cells}
use selected_course_projects.Likes.Calculate.{activity_node, Activities, activities}
use selected_course_projects.Inspect.{
  text, number, Print, println, say, like_line, message_block, group_head, print_activities,
  print_messages, print_groups, print_data,
}

-- A list holds some activities.
pub record Holds (h : Heap) (l : LinkedList) (as' : List Activity) : Type 0 where
  pub cells : Activities
  pub chain : Chain activity_node h cells
  pub head : l.head ≡ first cells
  pub room : length cells < h.fresh
  pub are : activities cells ≡ as'

-- A message with the activities of its list.
abbrev pub Entry : Type 0
Entry = Message × List Activity

-- The messages of some nodes have lists that hold some activities.
abbrev pub Entries : Heap → Cells → List Entry → Type 0
Entries h [] [] = Unit {0}
Entries h [] (e ∷ es) = ⊥
Entries h (c ∷ cs) [] = ⊥
Entries h ((p, (a, m)) ∷ cs) ((m', as') ∷ es) =
    (m ≡ m') × ((l : LinkedList) × (m.activity_list ≡ some l) × Holds h l as') × Entries h cs es

-- A group's list of messages, with their activities.
pub record GroupHolds (h : Heap) (g : Group) (es : List Entry) : Type 0 where
  pub cells : Cells
  pub chain : Chain message_node h cells
  pub head : g.message_list.head ≡ first cells
  pub room : length cells < h.fresh
  pub entries : Entries h cells es

-- The groups of a server, with what each holds.
abbrev pub GroupsHold : Heap → List (Str × Group) → List (List Entry) → Type 0
GroupsHold h [] [] = Unit {0}
GroupsHold h [] (e ∷ es) = ⊥
GroupsHold h (g ∷ gs) [] = ⊥
GroupsHold h ((name, g) ∷ gs) (es ∷ rest) = GroupHolds h g es × GroupsHold h gs rest

-- the report on what a group holds
unfoldable pub entries_report : List Entry → List Print
entries_report [] = []
entries_report ((m, as') ∷ es) = message_block m (map like_line as') ++ entries_report es

unfoldable pub groups_report : List (Str × Group) → List (List Entry) → List Print
groups_report [] rest = []
groups_report (g ∷ gs) [] = []
groups_report ((name, g) ∷ gs) (es ∷ rest) =
    group_head name g ++ (entries_report es ++ groups_report gs rest)

print_activities_lem :
    (k : ℕ) (line : Activity → Print) (h : Heap) (cs : Activities)
    → Chain activity_node h cs
    → length cs < k
    → print_activities k line (first cs) h ≡ ok (map line (activities cs)) h
unfolding print_activities
print_activities_lem zero line h cs c lt = absurd (omega arith)
print_activities_lem (suc k) line h [] c lt = refl
print_activities_lem (suc k) line h ((p, (a, m)) ∷ cs) c lt =
    let ne : (p == nil) ≡ false = ground arith in
    rw
      (
        ne,
        load_activity_lem h p c.0 c.2 a refl,
        load_lem h p c.0 c.2,
        print_activities_lem k line h cs c.4 (omega arith),
      )
      refl

print_list_lem :
    (line : Activity → Print) (h : Heap) (l : LinkedList) (as' : List Activity)
    → Holds h l as'
    → print_activities h.fresh line l.head h ≡ ok (map line as') h
print_list_lem line h l as' o =
    ap (λ p. print_activities h.fresh line p h) o.head
    ∙ print_activities_lem h.fresh line h o.cells o.chain o.room
    ∙ ap (λ (x : List Activity). ok (map line x) h) o.are

print_messages_lem :
    (k : ℕ) (h : Heap) (cs : Cells) (es : List Entry)
    → Chain message_node h cs
    → Entries h cs es
    → length cs < k
    → print_messages k (first cs) h ≡ ok (entries_report es) h
unfolding print_messages entries_report need
print_messages_lem zero h cs es c o lt = absurd (omega arith)
print_messages_lem (suc k) h [] [] c o lt = refl
print_messages_lem (suc k) h [] (e ∷ es) c o lt = absurd o
print_messages_lem (suc k) h (x ∷ cs) [] c o lt = absurd o
print_messages_lem (suc k) h ((p, (a, m)) ∷ cs) ((m', as') ∷ es) c (same, (l, e, o), os) lt =
    let ne : (p == nil) ≡ false = ground arith in
    rw
      (
        ne,
        load_message_lem h p {n = message_node (a, m) (first cs)} c.0 c.2 m refl,
        e,
        print_list_lem like_line h l as' o,
        load_lem h p c.0 c.2,
        print_messages_lem k h cs es c.4 os (omega arith),
        same,
      )
      refl

print_groups_lem :
    (h : Heap) (gs : List (Str × Group)) (rest : List (List Entry))
    → GroupsHold h gs rest
    → print_groups gs h ≡ ok (groups_report gs rest) h
unfolding print_groups groups_report
print_groups_lem h [] [] o = refl
print_groups_lem h [] (es ∷ rest) o = absurd o
print_groups_lem h (g ∷ gs) [] o = absurd o
print_groups_lem h ((name, g) ∷ gs) (es ∷ rest) (o, os) =
    rw
      (
        o.head,
        print_messages_lem h.fresh h o.cells es o.chain o.entries o.room,
        print_groups_lem h gs rest os,
      )
      refl

-- PrintData returns where each group has a well-formed list of messages, each with a well-formed list
-- of activities. It changes nothing, and prints every message, with every activity, in their order.
pub print_data_complete :
    (me : ℤ) (h : Heap) (gs : List (Str × Group)) (rest : List (List Entry))
    → GroupsHold h gs rest
    → print_data me gs h
      ≡ ok
          (println (text (str "Printing the data on server: ") ∷ number me ∷ [])
            ∷ (groups_report gs rest ++ say (str "PrintData() done\n") ∷ []))
          h
unfolding print_data
print_data_complete me h gs rest o = rw (print_groups_lem h gs rest o) refl
