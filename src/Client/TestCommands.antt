-- ===== src/Client/TestCommands.antt =====
-- The commands for tests of chat_system/client.go.
use selected_course_projects.Prelude.{List, ◌++◌}
use selected_course_projects.Prelude.Int.{int_eq, pos}
use selected_course_projects.Prelude.Number.{atoi, to_int32}
use selected_course_projects.Prelude.Text.{Str, str}
use selected_course_projects.Clock.{format_time}
use selected_course_projects.Data.{Time, blank}
use selected_course_projects.Client.Commands.{Client, Outcome, with_argument, send_now}

-- the commands for tests, with the arguments that they read
abbrev pub test_like : (time : Time) → List Str → Client → Outcome
test_like time arguments c = with_argument arguments 1 λ lamport.
    with_argument arguments 2 λ replica. with_argument arguments 3 λ like.
      send_now
        (record (blank (str "UpdateLike")) {
          ori_group_name = c.current_group;
          content = format_time time;
          user_name = c.username;
          user_id = c.user_id;
          timestamp = to_int32 (atoi lamport).0;
          replica = to_int32 (atoi replica).0;
          like_number = to_int32 (atoi like).0;
        })
        c

abbrev pub test_member : List Str → Client → Outcome
test_member arguments c = with_argument arguments 1 λ first. with_argument arguments 2 λ second.
    send_now
      (record (blank (str "SendGroupInfo")) {
        ori_group_name = c.current_group;
        content = str ", test1" ++ first ++ str ", test2" ++ first ++ str ", test3" ++ first;
        replica = to_int32 (atoi first).0;
        timestamp = to_int32 (atoi second).0;
      })
      c

abbrev pub test_member2 : List Str → Client → Outcome
test_member2 arguments c = with_argument arguments 1 λ first.
    send_now
      (record (blank (str "SendGroupInfo")) {
        ori_group_name = c.current_group;
        content = str ", test0 ,";
        replica = to_int32 (atoi first).0;
      })
      c

abbrev pub test_insert : Client → Outcome
test_insert c =
    send_now
      (record (blank (str "test")) {
        ori_group_name = c.current_group;
        replica = pos 3;
        timestamp = pos 3;
        user_name = c.username;
        user_id = c.user_id;
        content = str "test";
      })
      c

abbrev pub test_same : Client → Outcome
test_same c =
    let c' = record c { current_group = str "test" } in
    send_now
      (record (blank (str "test")) {
        ori_group_name = str "test";
        content = str "mMysg";
        user_name = c.username;
        user_id = c.user_id;
        timestamp = pos 3;
        replica = pos 4;
        like_number = pos 1;
      })
      c'

-- a request with no more than its name
abbrev pub send_name : Str → Client → Outcome
send_name name c = send_now (blank name) c
