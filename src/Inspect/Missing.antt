-- ===== src/Inspect/Missing.antt =====
-- InspectMap of chat_system/chat/HelperFunction.go where an entry is missing.
use selected_course_projects.Prelude.{
  ℕ, zero, suc, ◌≤◌, ◌<◌, ◌≡◌, true, none, some, [], ◌∷◌, arith, List, Bool-cases, inl, inr, ◌==◌,
  ==_iff,
}
use selected_course_projects.Prelude.Int.{ℤ, int_eq, pos, leb_ℤ, inc32-pos}
use selected_course_projects.Prelude.Map.{Map, lookup}
use selected_course_projects.Prelude.Text.{Str, str_eq, beq_str}
use selected_course_projects.Exec.{Run, Exec, and_then}
use selected_course_projects.Exec.Returns.{Returns, returns}
use selected_course_projects.Exec.Ends
use selected_course_projects.Exec.Ends.{Ends, ended, panicked, ran_out, skip}
use selected_course_projects.Data.{Ptr, Information, Group}
use selected_course_projects.Heap.{Heap, need, load_message, load_activity}
use selected_course_projects.Inspect.{
  Print, inspect_entries, inspect_server, inspect_servers, inspect_map, rounds_to,
  inspected_message, inspected_like,
}

-- a run that does not return
abbrev pub Fails : {S A : Type 0} → Run S A → Type 0
Fails r = Ends (λ _ _. ⊥) r

pub fails_first :
    {S A B : Type 0} {Q : B → S → Type 0} {r : Run S A} (k : A → Exec S B)
    → Fails r
    → Ends Q (and_then r k)
fails_first k f = Ends.bind f λ _ _ b. absurd b

pub not-Returns : {S A : Type 0} (r : Run S A) → Fails r → ¬ Returns (λ _ _. Unit {0}) r
not-Returns _ (ended b) (returns t) = absurd b
not-Returns _ panicked t = elim t [ ]
not-Returns _ ran_out t = elim t [ ]

inspect_entries-Fails :
    {A : Type 0} (read : Ptr → Exec Heap A) (line : A → Print) (k : ℕ) (entries : Map ℤ Ptr)
    (n i j : ℕ) (h : Heap)
    → i ≤ j
    → j ≤ n
    → n < 2147483647
    → lookup (pos j) entries ≡ none
    → Fails (inspect_entries read line k entries (pos n) (pos i) h)
unfolding inspect_entries need
inspect_entries-Fails read line zero entries n i j h le le' fits e = ran_out
inspect_entries-Fails read line (suc k) entries n i j h le le' fits e =
    let below : leb_ℤ (pos i) (pos n) ≡ true = ground arith in
    rw below (elim (Bool-cases (i == j)) [
      | inl same ↦ let i≡j : i ≡ j = (==_iff i j).0 same in rw (i≡j, e) panicked
      | inr other ↦ skip (need (lookup (pos i) entries) h) λ p h1. skip (read p h1) λ a h2.
          rw (inc32-pos i (omega arith)) (
            fails_first _
              (inspect_entries-Fails read line k entries n (suc i) j h2 (ground arith) le' fits e))
    ])

-- Another server's likes that this server has are fewer than its own.
pub record LikeMissing (string_me : Str) (g : Group) (info : Information) : Type 0 where
  pub own : Information
  pub known : lookup string_me g.replica_info ≡ some own
  pub likes : ℕ
  pub stamp : own.like_timestamp ≡ pos likes
  pub fits : likes < 2147483647
  pub index : ℕ
  pub above : 1 ≤ index
  pub below : index ≤ likes
  pub missing : lookup (pos index) info.like_event_lamport ≡ none

module _ (string_me : Str) where
  inspect_server-Fails :
      (g : Group) (st_s : Str) (info : Information) (h : Heap)
      → LikeMissing string_me g info
      → Fails (inspect_server string_me g st_s info h)
  unfolding inspect_server need
  inspect_server-Fails g st_s info h m =
      skip
        (inspect_entries load_message inspected_message (rounds_to info.msg_timestamp)
          info.message_lamport info.msg_timestamp (pos 1) h)
        λ messages h1.
          rw (m.known, m.stamp)
            (fails_first _ (
              inspect_entries-Fails load_activity inspected_like (rounds_to (pos m.likes))
                info.like_event_lamport m.likes 1 m.index h1 m.above m.below m.fits m.missing))

  inspect_servers-Fails :
      (g : Group) (st_s : Str) (info : Information) (servers : List (Str × Information)) (h : Heap)
      → lookup st_s servers ≡ some info
      → LikeMissing string_me g info
      → Fails (inspect_servers string_me g servers h)
  unfolding inspect_servers lookup
  inspect_servers-Fails g st_s info [] h e m = cc
  inspect_servers-Fails g st_s info ((s, i) ∷ rest) h e m = elim (Bool-cases (beq_str s st_s)) [
    | inl same ↦
        let here : i ≡ info = ground arith in
        rw here (fails_first _ (inspect_server-Fails g s info h m))
    | inr other ↦
        skip (inspect_server string_me g s i h)
          λ lines h1. fails_first _ (inspect_servers-Fails g st_s info rest h1 (ground arith) m)
  ]

  pub inspect_map-Fails :
      (name : Str) (g : Group) (groups : List (Str × Group)) (st_s : Str) (info : Information)
      (h : Heap)
      → lookup name groups ≡ some g
      → lookup st_s g.replica_info ≡ some info
      → LikeMissing string_me g info
      → Fails (inspect_map string_me groups h)
  unfolding inspect_map lookup
  inspect_map-Fails name g [] st_s info h e f m = cc
  inspect_map-Fails name g ((n, g') ∷ rest) st_s info h e f m = elim (Bool-cases (beq_str n name)) [
    | inl same ↦
        let here : g' ≡ g = ground arith in
        rw here (fails_first _ (inspect_servers-Fails g st_s info g.replica_info h f m))
    | inr other ↦
        skip (inspect_servers string_me g' g'.replica_info h)
          λ lines h1. fails_first _ (inspect_map-Fails name g rest st_s info h1 (ground arith) f m)
  ]

  -- InspectMap does not return where another server's record, in some group, has no like under an index
  -- up to the number of this server's own likes.
  pub inspect_map-LikeMissing :
      (name : Str) (g : Group) (groups : List (Str × Group)) (st_s : Str) (info : Information)
      (h : Heap)
      → lookup name groups ≡ some g
      → lookup st_s g.replica_info ≡ some info
      → LikeMissing string_me g info
      → ¬ Returns (λ _ _. Unit {0}) (inspect_map string_me groups h)
  inspect_map-LikeMissing name g groups st_s info h e f m =
      not-Returns (inspect_map string_me groups h)
        (inspect_map-Fails name g groups st_s info h e f m)
