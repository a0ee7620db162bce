-- ===== src/Sync/Answer.antt =====
-- The answer of CheckForMerge (chat_system/chat/replica.go) as a whole: the participants, the messages
-- and the likes.
use selected_course_projects.Prelude.{
  ℕ, ◌<◌, ◌≡◌, refl, ◌∙◌, Bool-cases, inl, inr, sym, subst, some, List, [], ◌∷◌, ◌++◌, length,
  if◌then◌else◌,
}
use selected_course_projects.Prelude.Int.{int_eq, pos, negsuc, ltb_ℤ, ◌≤ℤ◌}
use selected_course_projects.Prelude.Map.{lookup, insert, lookup-insert_self}
use selected_course_projects.Prelude.Number.{itoa}
use selected_course_projects.Prelude.Text.{Str, str_eq}
use selected_course_projects.Exec.{Exec, pure, ◌>>◌}
use selected_course_projects.Exec.Returns
use selected_course_projects.Exec.Returns.{Returns, returns}
use selected_course_projects.Data.{Activity, Message, Information, Group, ClientRequest}
use selected_course_projects.Heap.{need}
use selected_course_projects.Network.{Transport, Config, World, sending_between_replica}
use selected_course_projects.Network.Sending.{
  HasConfig, Kept, sending-Kept, send_list, send_list-Kept, send_list-append,
}
use selected_course_projects.Sync.{
  rounds, update_msg, update_like, group_info, send_messages, send_likes, answer, check_for_merge,
}
use selected_course_projects.Sync.Owed.{
  Owed, HasMessage, HasLike, requests, length-Owed, send_messages_lem, send_likes_lem,
}

-- the participants, if they are newer than those that are asked for
abbrev pub newer_members : ClientRequest → Group → Information → List ClientRequest
newer_members message g info =
    if ltb_ℤ message.group_timestamp info.group_name_timestamp
    then group_info g message.from_server info ∷ []
    else []

abbrev pub all_owed :
    ClientRequest → Group → Information → List Message → List Activity → List ClientRequest
all_owed message g info ms xs =
    newer_members message g info
    ++ (requests (update_msg g message.from_server) message.timestamp ms
        ++ requests (update_like g message.from_server) message.like_number xs)

module _ {W : Type 0} where
  -- the server that asks is there
  abbrev pub marked_online : Str → Config → World W → World W
  marked_online server config w = record w {
    stream_set = insert server (record config { is_online = pos 1 }) w.stream_set;
  }

module _ {W : Type 0} (t : Transport W) where
  -- Two steps that send messages to one server, one after the other.
  then_list :
      (server : Str) (stream : ℕ) (m n : Exec (World W) (Unit {0})) (rs qs : List ClientRequest)
      (w : World W)
      → HasConfig server w
      → m w ≡ send_list t server stream rs w
      → ((w' : World W) → Kept server w w' → n w' ≡ send_list t server stream qs w')
      → (m >> n) w ≡ send_list t server stream (rs ++ qs) w
  then_list server stream m n rs qs w c e f =
      let (_, w', d, k) = Returns.result (send_list-Kept t server stream rs w c) in
      rw (e, send_list-append t server stream rs qs w c, d) (f w' k)

  -- the three parts of an answer, once the entries are found
  abbrev members_part : ClientRequest → Group → Information → Str → ℕ → Exec (World W) (Unit {0})
  members_part message g info server stream =
      if ltb_ℤ message.group_timestamp info.group_name_timestamp
      then sending_between_replica t server stream (group_info g message.from_server info)
      else pure tt

  abbrev messages_part : ClientRequest → Group → Information → Str → ℕ → Exec (World W) (Unit {0})
  messages_part message g info server stream =
      send_messages t (rounds message.timestamp info.msg_timestamp) g message.from_server server
        stream info message.timestamp

  abbrev likes_part : ClientRequest → Group → Information → Str → ℕ → Exec (World W) (Unit {0})
  likes_part message g info server stream =
      send_likes t (rounds message.like_number info.like_timestamp) g message.from_server server
        stream info message.like_number

  abbrev parts : ClientRequest → Group → Information → Str → ℕ → Exec (World W) (Unit {0})
  parts message g info server stream = do
    members_part message g info server stream
    messages_part message g info server stream
    likes_part message g info server stream

  members_lem :
      (message : ClientRequest) (g : Group) (info : Information) (server : Str) (stream : ℕ)
      (w : World W)
      → HasConfig server w
      → members_part message g info server stream w
        ≡ send_list t server stream (newer_members message g info) w
  unfolding send_list
  members_lem message g info server stream w c =
      elim (Bool-cases (ltb_ℤ message.group_timestamp info.group_name_timestamp)) [
        | inl e ↦
            let (_, w', d, k) =
              Returns.result
                (sending-Kept t server stream (group_info g message.from_server info) w c) in
            rw (e, d) refl
        | inr e ↦ rw e refl
      ]

  parts_lem :
      (message : ClientRequest) (g : Group) (info : Information) (server : Str) (stream : ℕ)
      (w : World W) (ms : List Message) (xs : List Activity)
      → HasConfig server w
      → Owed (HasMessage w.server.heap info) info.msg_timestamp message.timestamp ms
      → Owed (HasLike w.server.heap info) info.like_timestamp message.like_number xs
      → length ms < rounds message.timestamp info.msg_timestamp
      → length xs < rounds message.like_number info.like_timestamp
      → parts message g info server stream w
        ≡ send_list t server stream (all_owed message g info ms xs) w
  parts_lem message g info server stream w ms xs c om ol lm ll =
      then_list server stream (members_part message g info server stream)
        (messages_part message g info server stream >> likes_part message g info server stream)
        (newer_members message g info) _ w c (members_lem message g info server stream w c)
        λ w2 (s2, c2).
          then_list server stream (messages_part message g info server stream)
            (likes_part message g info server stream) _ _ w2 c2
            (send_messages_lem t _ g message.from_server server stream info message.timestamp ms w2
              lm c2
              (subst (λ v. Owed (HasMessage v.heap info) info.msg_timestamp message.timestamp ms)
                (sym s2) om))
            λ w3 (s3, c3).
              send_likes_lem t _ g message.from_server server stream info message.like_number xs w3
                ll c3
                (subst (λ v. Owed (HasLike v.heap info) info.like_timestamp message.like_number xs)
                  (sym (s3 ∙ s2)) ol)

  pub check_for_merge-Owed :
      (message : ClientRequest) (g : Group) (info : Information) (config : Config) (w : World W)
      (ms : List Message) (xs : List Activity)
      → lookup message.ori_group_name w.server.group_map ≡ some g
      → lookup (itoa message.replica) w.stream_set ≡ some config
      → lookup message.from_server g.replica_info ≡ some info
      → Owed (HasMessage w.server.heap info) info.msg_timestamp message.timestamp ms
      → Owed (HasLike w.server.heap info) info.like_timestamp message.like_number xs
      → negsuc 2147483647 ≤ℤ message.timestamp
      → info.msg_timestamp ≤ℤ pos 2147483647
      → negsuc 2147483647 ≤ℤ message.like_number
      → info.like_timestamp ≤ℤ pos 2147483647
      → (check_for_merge t message w
          ≡ send_list t
              (itoa message.replica)
              config.stream
              (all_owed message g info ms xs)
              (marked_online (itoa message.replica) config w))
        × Returns (λ _. Kept (itoa message.replica) w) (check_for_merge t message w)
  unfolding check_for_merge answer need
  check_for_merge-Owed message g info config w ms xs eg ec ei om ol lom him lol hil =
      let server = itoa message.replica in
      let w1 = marked_online server config w in
      let online = record config { is_online = pos 1 } in
      let c1 : HasConfig server w1 = (online, lookup-insert_self server online w.stream_set) in
      let e : check_for_merge t message w
          ≡ send_list t server config.stream (all_owed message g info ms xs) w1 =
        rw (check_for_merge, eg, answer, ec, ei)
          (parts_lem message g info server config.stream w1 ms xs c1 om ol
            (length-Owed (HasMessage w.server.heap info) _ _ ms lom him om)
            (length-Owed (HasLike w.server.heap info) _ _ xs lol hil ol)) in
      (
        e,
        subst (Returns (λ _. Kept server w)) (sym e)
            (send_list-Kept t server config.stream _ w1 c1),
      )
