-- ===== src/Sync/Exchange.antt =====
-- A round of the exchange between two replicas (chat_system/chat/replica.go): what SendMySaving asks
-- for, CheckForMerge answers, and Insertion receives.
use selected_course_projects.Prelude.{
  ℕ, suc, ◌+◌, ◌<◌, ◌≤◌, ◌≡◌, refl, false, subst, some, List, [], ◌∷◌, length, arith,
}
use selected_course_projects.Prelude.Int.{ℤ, int_eq, pos, negsuc, inc32, inc32-pos, ◌≤ℤ◌}
use selected_course_projects.Prelude.Map.{lookup}
use selected_course_projects.Prelude.Number.{itoa}
use selected_course_projects.Prelude.Text.{Str, str_eq}
use selected_course_projects.Exec.Returns
use selected_course_projects.Exec.Returns.{Returns}
use selected_course_projects.Data.{Message, Activity, Information, Group, ClientRequest}
use selected_course_projects.Heap.{Heap}
use selected_course_projects.Network.{Transport, Config, World}
use selected_course_projects.Network.Sending.{send_list}
use selected_course_projects.Placement.CatchUp.{Numbered, AllNew}
use selected_course_projects.Replica.{Server}
use selected_course_projects.Replica.CatchUp.{
  Caught, ForGroup, merge_messages, merge_messages-Caught,
}
use selected_course_projects.Placement.Converge.{merge_all}
use selected_course_projects.Placement.Stands.{Stands}
use selected_course_projects.Sync.{my_saving, update_msg, check_for_merge}
use selected_course_projects.Sync.Answer.{all_owed, marked_online, check_for_merge-Owed}
use selected_course_projects.Sync.Owed.{Owed, HasMessage, HasLike, requests}

length-requests :
    {A : Type 0} (request : ℤ → A → ClientRequest) (start : ℤ) (xs : List A)
    → length (requests request start xs) ≡ length xs
length-requests request start [] = refl
length-requests request start (x ∷ xs) = omega (arith, length-requests request (inc32 start) xs)

-- The messages that are owed carry the next indexes, up to the last that the sender has.
requests-Numbered :
    (h : Heap) (g : Group) (s : Str) (info : Information) (n m : ℕ) (ms : List Message)
    → info.msg_timestamp ≡ pos m
    → n ≤ m
    → m < 2147483647
    → Owed (HasMessage h info) info.msg_timestamp (pos n) ms
    → Numbered s n (requests (update_msg g s) (pos n) ms) × (n + length ms ≡ m)
requests-Numbered h g s info n m [] t le lt o = (tt, ground (arith, t))
requests-Numbered h g s info n m (x ∷ xs) t le lt (b, a, o) =
    let e : inc32 (pos n) ≡ pos (suc n) = inc32-pos n (omega arith) in
    let (num, end) =
      requests-Numbered h g s info (suc n) m xs t (ground (arith, b, t)) lt (rw (← e) o) in
    ((refl, e, rw e num), omega (arith, end))

requests-ForGroup :
    (name : Str) (g : Group) (s : Str) (start : ℤ) (ms : List Message)
    → g.group_name ≡ name
    → ForGroup name (requests (update_msg g s) start ms)
requests-ForGroup name g s start [] e = tt
requests-ForGroup name g s start (m ∷ ms) e = (e, requests-ForGroup name g s (inc32 start) ms e)

-- A replica asks for the events of a server that it misses in a group, and another answers. The answer
-- is sent as a whole and in order; and when its messages, each of them new to the one that asked and
-- none overtaking the last, are merged, that replica has them all in its group, and has acknowledged
-- the messages of that server as far as the one that answered; its other groups have not changed.
pub check_for_merge_catches_up :
    {W : Type 0} (t : Transport W) (asking : Server) (asker : Group) (all : List Message)
    (missing : Information) (s : Str) (n m : ℕ) (g : Group) (info : Information) (config : Config)
    (w : World W) (ms : List Message) (xs : List Activity)
    → lookup asker.group_name asking.group_map ≡ some asker
    → Stands all asker asking.heap
    → lookup s asker.replica_info ≡ some missing
    → missing.msg_timestamp ≡ pos n
    → lookup asker.group_name w.server.group_map ≡ some g
    → g.group_name ≡ asker.group_name
    → lookup (itoa asking.me) w.stream_set ≡ some config
    → lookup s g.replica_info ≡ some info
    → info.msg_timestamp ≡ pos m
    → n ≤ m
    → m < 2147483647
    → Owed (HasMessage w.server.heap info) info.msg_timestamp (pos n) ms
    → Owed (HasLike w.server.heap info) info.like_timestamp missing.like_timestamp xs
    → negsuc 2147483647 ≤ℤ missing.like_timestamp
    → info.like_timestamp ≤ℤ pos 2147483647
    → AllNew (requests (update_msg g s) (pos n) ms) all
    → length all + length ms < 2147483647
    → (check_for_merge t (my_saving asking.me asker s missing) w
        ≡ send_list t
            (itoa asking.me)
            config.stream
            (all_owed (my_saving asking.me asker s missing) g info ms xs)
            (marked_online (itoa asking.me) config w))
      × Returns
          (λ _.
            Caught asker.group_name s m
              (merge_all (requests (update_msg g s) (pos n) ms) all)
              asking)
          (merge_messages (requests (update_msg g s) (pos n) ms) false asking)
check_for_merge_catches_up t asking asker all missing s n m g info config w ms xs ew st ea et eg en
      ec ei em le lt om ol lo hi new fits =
    let (num, end) = requests-Numbered w.server.heap g s info n m ms em le lt om in
    let len = length-requests (update_msg g s) (pos n) ms in
    let c : Caught asker.group_name s n all asking asking = record {
      group = asker;
      entry = ew;
      stands = st;
      acked = (missing, ea, et);
      others = λ q ne. refl;
    } in
    (
      (check_for_merge-Owed t (my_saving asking.me asker s missing) g info config w ms xs eg ec ei
          (rw et om) ol (rw et (omega arith)) (rw em (omega arith)) lo hi).0,
      Returns.weaken
          (merge_messages-Caught asker.group_name s n (requests (update_msg g s) (pos n) ms) all
            asking asking false c (requests-ForGroup asker.group_name g s (pos n) ms en) num new
            (omega (arith, len)) (omega (arith, len, end)))
          λ _ later c'.
            subst
              (λ x.
                Caught asker.group_name s x (merge_all (requests (update_msg g s) (pos n) ms) all)
                  asking later)
              (omega (arith, len, end)) c',
    )
