-- ===== src/Client/Following.antt =====
-- The commands of the client program (chat_system/client.go), one by one: none takes the client out of
-- step with what it has sent.
use selected_course_projects.Prelude.{◌≡◌, refl, false, Option, List, arith}
use selected_course_projects.Prelude.Int.{◌+ℤ◌}
use selected_course_projects.Prelude.Text.{Str, str, beq_str}
use selected_course_projects.Data.{Time}
use selected_course_projects.Client.{
  Input, command, test_command, first_word, strip_newline, old_by,
}
use selected_course_projects.Client.Commands.{
  Client, goes_on, fatal, panics, open_connection, append_text, has_joined,
}
use selected_course_projects.Client.Follow.{
  In, Follows, given, pick, with_argument-Follows, send_now-Follows, login-Follows,
  join_group-Follows, append_text-Follows, like_line-Follows, unlike_line-Follows,
  print_history-Follows, quit-Follows, open_connection-Follows,
}
use selected_course_projects.Client.TestCommands.{test_like, test_member, test_member2}

module _ (c : Client) (group : Option Str) where
  test_like-Follows :
      (time : Time) (arguments : List Str) → In c group → Follows group (test_like time arguments c)
  unfolding beq_str
  test_like-Follows time arguments i = with_argument-Follows c group arguments 1 _ λ lamport.
      with_argument-Follows c group arguments 2 _ λ replica.
        with_argument-Follows c group arguments 3 _ λ like. send_now-Follows c group _ refl i

  test_member-Follows :
      (arguments : List Str) → In c group → Follows group (test_member arguments c)
  unfolding beq_str
  test_member-Follows arguments i = with_argument-Follows c group arguments 1 _ λ first.
      with_argument-Follows c group arguments 2 _ λ second. send_now-Follows c group _ refl i

  test_member2-Follows :
      (arguments : List Str) → In c group → Follows group (test_member2 arguments c)
  unfolding beq_str
  test_member2-Follows arguments i =
      with_argument-Follows c group arguments 1 _ λ first. send_now-Follows c group _ refl i

  test_command-Follows :
      (input : Input) (arguments : List Str)
      → beq_str (first_word arguments) (str "sendSame") ≡ false
      → In c group
      → Follows group (test_command input arguments c)
  unfolding test_command beq_str
  test_command-Follows input arguments not_same i =
      let is = beq_str (first_word arguments) in
      let next = pick c group in
      let send = send_now-Follows c group in
      next (is (str "printdata")) _ _ (λ _. send _ refl i)
        λ _.
          next (is (str "inserttest")) _ _ (λ _. send _ refl i)
            λ _.
              next (is (str "like")) _ _ (λ _. test_like-Follows input.now arguments i)
                λ _.
                  next (is (str "old")) _ _
                    (λ _. test_like-Follows (input.now +ℤ old_by) arguments i)
                    λ _.
                      next (is (str "member")) _ _ (λ _. test_member-Follows arguments i)
                        λ _.
                          next (is (str "member2")) _ _ (λ _. test_member2-Follows arguments i)
                            λ _.
                              next (is (str "sendSame")) _ _ (λ e. absurd (ground arith))
                                λ _.
                                  next (is (str "data")) _ _ (λ _. send _ refl i)
                                    λ _.
                                      next (is (str "send")) _ _ (λ _. send _ refl i)
                                        λ _.
                                          next (is (str "000")) _ _ (λ _. send _ refl i)
                                            λ _.
                                              next (is (str "111")) _ _ (λ _. send _ refl i)
                                                λ _.
                                                  next (is (str "222")) _ _ (λ _. send _ refl i)
                                                    λ _. i

  -- A command, except for the test that sets the group without a request, keeps a member in the group
  -- of its connection or sends what brings the connection to the new one.
  pub command-Follows :
      (input : Input) (arguments : List Str)
      → beq_str (first_word arguments) (str "sendSame") ≡ false
      → In c group
      → Follows group (command input arguments c)
  unfolding command beq_str
  command-Follows input arguments not_same i =
      let is = beq_str (first_word arguments) in
      let next = pick c group in
      let argument = with_argument-Follows c group arguments 1 in
      next (is (str "c")) _ _
        (λ _. argument _ λ address.
          next input.dialed (goes_on (open_connection c)) fatal
            (λ _. open_connection-Follows c group i) λ _. tt)
        λ _.
          next (is (str "u")) _ _
            (λ _.
              next c.connection _ _ (λ _. argument _ λ name. login-Follows c group name i) λ _. i)
            λ _.
              next (is (str "j")) _ _ (λ _. argument _ λ g. join_group-Follows g c group i)
                λ _.
                  next (is (str "a")) _ _
                    (λ _.
                      next (has_joined c) _ _
                        (λ _.
                          given c group (strip_newline input.next_line) panics
                            (λ text. append_text text c) tt
                            λ text. append_text-Follows c group text i)
                        λ _. i)
                    λ _.
                      next (is (str "l")) _ _ (λ _. argument _ λ n. like_line-Follows c group n i)
                        λ _.
                          next (is (str "r")) _ _
                            (λ _. argument _ λ n. unlike_line-Follows c group n i)
                            λ _.
                              next (is (str "p")) _ _ (λ _. print_history-Follows c group i)
                                λ _.
                                  next (is (str "q")) _ _ (λ _. quit-Follows c group i)
                                    λ _.
                                      next (is (str "v")) _ _
                                        (λ _. send_now-Follows c group _ refl i)
                                        λ _. test_command-Follows input arguments not_same i
