-- ===== src/ChatServer/Members.antt =====
-- Join of chat_system/chat/chatserver.go: the participants of the groups of a server.
use selected_course_projects.Prelude.{
  ◌≡◌, ◌≢◌, refl, false, subst, ap, ◌∙◌, ℕ, none, some, inl, inr, arith, Bool-cases, Option-cases,
}
use selected_course_projects.Prelude.Int.{ℤ, pos, int_eq, inc32, ◌<ℤ◌}
use selected_course_projects.Prelude.Map.{
  Map, lookup, insert, lookup-insert, lookup-insert_self, lookup-insert_ne,
}
use selected_course_projects.Prelude.Text.{Str, str_eq, beq_str}
use selected_course_projects.Exec.Returns
use selected_course_projects.Exec.Returns.{Returns, returns}
use selected_course_projects.Data.{User, Group, ClientRequest}
use selected_course_projects.Heap.{need}
use selected_course_projects.Groups.{create_group}
use selected_course_projects.Groups.Listed.{
  Listed, KeepsOwn, KeepsServers, count_of, create_group-Listed, add_username-Joined,
}
use selected_course_projects.Replica.{Server}
use selected_course_projects.ChatServer.{find_or_create, join}

-- In every group of the server each user with a count is written among the participants.
abbrev pub AllListed : Server → Type 0
AllListed s = (n : Str) (g : Group) → lookup n s.group_map ≡ some g → Listed s.string_me g

-- the group that a request finds or makes
abbrev pub found_group : Server → Str → Group
found_group s name = elim (lookup name s.group_map) [
  | none ↦ create_group s.me s.string_me name (pos 0)
  | some g ↦ g
]

-- The server once a group is there.
record There (s : Server) (name : Str) (g : Group) (s' : Server) : Type 0 where
  entry : lookup name s'.group_map ≡ some g
  is : g ≡ found_group s name
  listed : AllListed s'
  server : s' ≡ record s { group_map = s'.group_map }
  others : (n : Str) → name ≢ n → lookup n s'.group_map ≡ lookup n s.group_map

AllListed-insert :
    (s : Server) (name : Str) (g : Group)
    → AllListed s
    → Listed s.string_me g
    → AllListed (record s { group_map = insert name g s.group_map })
AllListed-insert s name g a w n x e = elim (Bool-cases (beq_str name n)) [
  | inl b ↦ subst (Listed s.string_me) (ground (arith, lookup-insert name n g s.group_map)) w
  | inr b ↦ a n x (ground (arith, lookup-insert name n g s.group_map))
]

find_or_create-There :
    (name : Str) (s : Server) → AllListed s → Returns (There s name) (find_or_create name s)
unfolding find_or_create
find_or_create-There name s a = elim (Option-cases (lookup name s.group_map)) [
  | inl e ↦
      let g = create_group s.me s.string_me name (pos 0) in
      rw (find_or_create, e)
        (returns (record {
          entry = lookup-insert_self name g s.group_map;
          is = rw (found_group, e) refl;
          listed = AllListed-insert s name g a (create_group-Listed s.me s.string_me name (pos 0));
          server = refl;
          others = λ n ne. lookup-insert_ne name n g s.group_map ne;
        }))
  | inr (g, e) ↦
      rw (find_or_create, e)
        (returns (record {
          entry = e;
          is = rw (found_group, e) refl;
          listed = a;
          server = refl;
          others = λ n ne. refl;
        }))
]

abbrev pub user_of : ClientRequest → (ct : ℕ) → User
user_of message ct = record { user_name = message.user_name; context = ct }

-- The server after a user has joined a group: the group is what was found but for the user under his
-- number, the counts, where his is one higher, and the text and the version of this server's
-- participants; the participants of every group are listed, no other group has changed, and nothing else
-- of the server.
pub record Entered (message : ClientRequest) (ct : ℕ) (s : Server) (g : Group) (s' : Server)
    : Type 0 where
  pub entry : lookup message.ori_group_name s'.group_map ≡ some g
  pub rest : g ≡ record (found_group s message.ori_group_name) {
    user_list =
        insert message.user_id
          (user_of message ct)
          (found_group s message.ori_group_name).user_list;
    replica_info = g.replica_info;
    same_user_name_count = g.same_user_name_count;
  }
  pub own : KeepsOwn s.string_me (found_group s message.ori_group_name) g
  pub servers : KeepsServers s.string_me (found_group s message.ori_group_name) g
  pub counted :
      count_of g message.user_name
      ≡ inc32 (count_of (found_group s message.ori_group_name) message.user_name)
  pub other_counts :
      (u : Str)
      → beq_str message.user_name u ≡ false
      → count_of g u ≡ count_of (found_group s message.ori_group_name) u
  pub server : s' ≡ record s { group_map = s'.group_map }
  pub listed : AllListed s'
  pub others : (n : Str) → message.ori_group_name ≢ n → lookup n s'.group_map ≡ lookup n s.group_map

relisted :
    (string_me : Str) (g : Group) (users : Map ℤ User)
    → Listed string_me g
    → Listed string_me (record g { user_list = users })
relisted string_me g users w = record {
  info = w.info;
  known = w.known;
  counts = w.counts;
  listed = w.listed;
}

-- Join does not panic on a server where the participants of every group are listed, whether the group
-- is there or not, if the user's count was not the largest int32: it is there afterwards, with the user
-- entered and counted once more, and is otherwise what was found; all the groups are listed again, no other
-- group has changed, and nothing else of the server.
pub join-Entered :
    (message : ClientRequest) (ct : ℕ) (s : Server)
    → AllListed s
    → count_of (found_group s message.ori_group_name) message.user_name <ℤ pos 2147483647
    → Returns (Entered message ct s) (join message ct s)
unfolding join need
join-Entered message ct s a lt =
    let name = message.ori_group_name in
    Returns.bind (find_or_create-There name s a) λ g s1 there.
      let users = insert message.user_id (user_of message ct) g.user_list in
      let me : s1.string_me ≡ s.string_me = ap (λ (x : Server). x.string_me) there.server in
      let (out, e, j) =
        add_username-Joined s1.string_me (record g { user_list = users }) message.user_name
          (relisted s1.string_me g users (there.listed name g there.entry)) (rw there.is lt) in
      rw e (
        returns (record {
          entry = lookup-insert_self name out s1.group_map;
          rest =
              j.rest
              ∙ ap
                  (λ (x : Group). record x {
                    user_list = insert message.user_id (user_of message ct) x.user_list;
                    replica_info = out.replica_info;
                    same_user_name_count = out.same_user_name_count;
                  })
                  there.is;
          own =
              subst (λ x. KeepsOwn x (found_group s name) out) me
                (subst (λ (x : Group). KeepsOwn s1.string_me x out) there.is j.own);
          servers =
              subst (λ x. KeepsServers x (found_group s name) out) me
                (subst (λ (x : Group). KeepsServers s1.string_me x out) there.is j.servers);
          counted = j.count ∙ ap (λ (x : Group). inc32 (count_of x message.user_name)) there.is;
          other_counts = λ u ne. j.others u ne ∙ ap (λ (x : Group). count_of x u) there.is;
          server =
              ap (λ (x : Server). record x { group_map = insert name out s1.group_map })
                there.server;
          listed = AllListed-insert s1 name out there.listed j.whole;
          others = λ n ne. lookup-insert_ne name n out s1.group_map ne ∙ there.others n ne;
        }))
