-- ===== src/Groups.antt =====
-- Groups and their participants (chat_system/chat/HelperFunction.go): CreateGroup, AddUsername,
-- DeleteUsername and NameMerge.
pub mod Created
pub mod Listed
pub mod Names
pub mod Removed
pub mod SameNames
use selected_course_projects.Prelude.{
  ℕ, zero, suc, ◌-◌, Option, none, some, [], ◌∷◌, ◌++◌, List, leb, if◌then◌else◌,
}
use selected_course_projects.Prelude.Int.{ℤ, pos, eqb_ℤ, inc32, dec32}
use selected_course_projects.Prelude.Map.{Map, lookup, insert}
use selected_course_projects.Prelude.Text.{
  Str, str, str_eq, fields, contains, replace_all, length_str,
}
use selected_course_projects.Data.{Information, Group}
use selected_course_projects.LinkedList.{no_nodes}

abbrev pub no_information : Information
no_information = record {
  user_list = [];
  group_name_timestamp = pos 0;
  like_timestamp = pos 0;
  msg_timestamp = pos 0;
  like_event_lamport = [];
  message_lamport = [];
}

-- strconv.Itoa(i) of the five replicas
abbrev pub replicas : List (ℤ × Str)
replicas =
    (pos 1, str "1")
    ∷ (pos 2, str "2")
    ∷ (pos 3, str "3")
    ∷ (pos 4, str "4")
    ∷ (pos 5, str "5")
    ∷ []

-- the loop over the other replicas
unfoldable pub other_replicas :
    (me : ℤ) → List (ℤ × Str) → Map Str Information → Map Str Information
other_replicas me [] info = info
other_replicas me ((i, s) ∷ rest) info =
    other_replicas me rest (if eqb_ℤ i me then info else insert s no_information info)

unfoldable pub create_group : (me : ℤ) → (string_me group_name : Str) → (timestamp : ℤ) → Group
unfolding other_replicas insert
create_group me string_me group_name timestamp = record {
  group_name = group_name;
  message_list = no_nodes;
  user_list = [];
  same_user_name_count = [];
  max_lamport = timestamp;
  replica_info = other_replicas me replicas (insert string_me no_information []);
}

-- " " + UserName + " "
abbrev pub spaced : Str → Str
spaced name = b' ' ∷ (name ++ b' ' ∷ [])

-- The functions below return `none` where the code panics on a nil entry of ReplicaInfo.
infixl 5 ◌>>=◌
abbrev ◌>>=◌ : {A B : Type 0} → Option A → (A → Option B) → Option B
none >>= f = none
some a >>= f = f a

-- The participants of this server, rewritten, and their version.
with_user_list : (string_me : Str) → Group → (Str → Str) → Option Group
with_user_list string_me g f = do
  info ← lookup string_me g.replica_info
  some (record g {
    replica_info =
        insert string_me
          (record info {
            user_list = f info.user_list;
            group_name_timestamp = inc32 info.group_name_timestamp;
          })
          g.replica_info;
  })

unfoldable pub add_username : (string_me : Str) → Group → (user_name : Str) → Option Group
unfolding with_user_list
add_username string_me g user_name =
    let count = elim (lookup user_name g.same_user_name_count) as (λ _. ℤ) [
      | some number ↦ inc32 number
      | none ↦ pos 1
    ] in
    let g' = record g { same_user_name_count = insert user_name count g.same_user_name_count } in
    if eqb_ℤ count (pos 1)
    then with_user_list string_me g' (λ names. names ++ spaced user_name)
    else some g'

-- A missing count reads as 0.
unfoldable pub delete_username : (string_me : Str) → Group → (user_name : Str) → Option Group
unfolding with_user_list
delete_username string_me g user_name =
    let old = elim (lookup user_name g.same_user_name_count) as (λ _. ℤ) [
      | some number ↦ number
      | none ↦ pos 0
    ] in
    let count = dec32 old in
    let g' = record g { same_user_name_count = insert user_name count g.same_user_name_count } in
    if eqb_ℤ count (pos 0)
    then with_user_list string_me g' (λ names. replace_all names (spaced user_name) (b' ' ∷ []))
    else some g'

-- `, name, `
abbrev pub listed : Str → Str
listed name = b',' ∷ b' ' ∷ (name ++ b',' ∷ b' ' ∷ [])

unfoldable pub merge_names : (return_string : Str) → List Str → Str
merge_names return_string [] = return_string
merge_names return_string (name ∷ names) =
    merge_names
      (if contains return_string (listed name)
        then return_string
        else return_string ++ name ++ b',' ∷ b' ' ∷ [])
      names

unfoldable pub merge_replicas : Group → List (ℤ × Str) → (return_string : Str) → Option Str
unfolding merge_names
merge_replicas g [] return_string = some return_string
merge_replicas g ((i, s) ∷ rest) return_string = elim (lookup s g.replica_info) [
  | none ↦ none
  | some info ↦ merge_replicas g rest (merge_names return_string (fields info.user_list))
]

unfoldable pub drop_str : ℕ → Str → Str
drop_str zero s = s
drop_str (suc n) [] = []
drop_str (suc n) (c ∷ s) = drop_str n s

unfoldable pub take_str : ℕ → Str → Str
take_str zero s = []
take_str (suc n) [] = []
take_str (suc n) (c ∷ s) = c ∷ take_str n s

-- `s[2 : len(s)-2]`, which panics unless 2 <= len(s)-2
unfoldable pub trim_ends : Str → Option Str
unfolding drop_str take_str
trim_ends s =
    if leb 4 (length_str s) then some (drop_str 2 (take_str (length_str s - 2) s)) else none

unfoldable pub name_merge : Group → Option Str
unfolding merge_replicas trim_ends
name_merge g = do s ← merge_replicas g replicas (str ", "); trim_ends s
