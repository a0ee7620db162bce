-- ===== src/Start.antt =====
-- The start of a server, `main` of chat_system/server.go: its number, and the four other replicas that
-- it sets connections up to.
pub mod Others
pub mod Connected
pub mod Periodic
use selected_course_projects.Prelude.{
  ℕ, zero, suc, Bool, get_elem?, Option, none, some, List, [], ◌∷◌, ◌++◌, if◌then◌else◌,
}
use selected_course_projects.Prelude.Int.{ℤ, pos, eqb_ℤ}
use selected_course_projects.Prelude.Number.{itoa, atoi, to_int32}
use selected_course_projects.Prelude.Text.{Str, str}
use selected_course_projects.Exec.{Exec, ok, pure, gets, stop, ◌>>=◌, ◌>>◌}
use selected_course_projects.Data.{blank}
use selected_course_projects.Heap.{Heap, need}
use selected_course_projects.Replica.{Server}
use selected_course_projects.Network.{Transport, World, replica_broadcast, replica_set_up}
use selected_course_projects.Sync.{entropy}

-- The address that a server listens on.
unfoldable pub listen_address : (server_str : Str) → Str
listen_address server_str = str "172.30.100.10" ++ server_str ++ str ":12000"

-- NewServer with the number of the server. The groups that CreateGroup makes from group.txt are not
-- kept, so the server has none.
unfoldable pub new_server : (server_str : Str) → Heap → Server
unfolding atoi to_int32
new_server server_str heap = record {
  heap = heap;
  group_map = [];
  me = to_int32 (atoi server_str).0;
  string_me = server_str;
  user_count = pos 0;
}

-- `temp[index] = s`, which panics out of range
unfoldable pub set_elem? : List Str → ℕ → Str → Option (List Str)
set_elem? [] n s = none
set_elem? (x ∷ xs) zero s = some (s ∷ xs)
set_elem? (x ∷ xs) (suc n) s = elim (set_elem? xs n s) [ none ↦ none | some ys ↦ some (x ∷ ys) ]

-- the loop over the numbers of servers
unfoldable pub fill_temp : (me : ℤ) → List ℤ → (index : ℕ) → (temp : List Str) → Option (List Str)
unfolding set_elem? itoa
fill_temp me [] index temp = some temp
fill_temp me (i ∷ rest) index temp =
    if eqb_ℤ i me then fill_temp me rest index temp else elim (set_elem? temp index (itoa i)) [
      | none ↦ none
      | some temp' ↦ fill_temp me rest (suc index) temp'
    ]

abbrev pub all_servers : List ℤ
all_servers = pos 1 ∷ pos 2 ∷ pos 3 ∷ pos 4 ∷ pos 5 ∷ []

unfoldable pub other_servers : (me : ℤ) → Option (List Str)
unfolding fill_temp
other_servers me = fill_temp me all_servers 0 ([] ∷ [] ∷ [] ∷ [] ∷ [])

module _ {W : Type 0} (t : Transport W) where
  -- The goroutine that asks the other replicas for their groups, every half a second.
  unfoldable pub ask_all_group : Exec (World W) (Unit {0})
  ask_all_group = do
    me ← gets (λ w. w.server.string_me)
    replica_broadcast t (record (blank (str "AllGroup")) { from_server = me })

  -- What the two goroutines do in a number of half seconds, one after the other.
  unfoldable pub periodic : ℕ → Exec (World W) (Unit {0})
  unfolding ask_all_group
  periodic zero = pure tt
  periodic (suc n) = do ask_all_group; entropy t; periodic n

  -- The goroutines that set the connections up, one after the other.
  unfoldable pub set_up_all : (rounds : ℕ) → List Str → Exec (World W) (Unit {0})
  set_up_all rounds [] = pure tt
  set_up_all rounds (s ∷ rest) = do replica_set_up t rounds s; set_up_all rounds rest

  -- The object of the server, with no connections yet.
  abbrev pub put_server : (server_str : Str) → Exec (World W) (Unit {0})
  put_server server_str w =
      ok tt (record w { server = new_server server_str w.server.heap; stream_set = [] })

  -- `main` up to the periodic work: `args` are those behind the program's name, and `listens` is whether
  -- net.Listen succeeds.
  unfoldable pub start_server :
      (rounds : ℕ) → (args : List Str) → (listens : Bool) → Exec (World W) (Unit {0})
  unfolding set_up_all need
  start_server rounds args listens = do
    server_str ← need (get_elem? args 1)
    if listens then pure tt else stop
    put_server server_str
    me ← gets (λ w. w.server.me)
    temp ← need (other_servers me)
    set_up_all rounds temp
