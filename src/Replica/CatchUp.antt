-- ===== src/Replica/CatchUp.antt =====
-- Merge of chat_system/chat/replica.go on the whole server, for the messages of another server's
-- events that this server misses.
use selected_course_projects.Prelude.{
  ℕ, suc, ◌+◌, ◌<◌, ◌≡◌, ◌≢◌, refl, ap, ◌∙◌, subst, Bool, true, false, ◌||◌, some, List, [], ◌∷◌,
  length, arith,
}
use selected_course_projects.Prelude.Int.{pos}
use selected_course_projects.Prelude.Map.{lookup, lookup-insert_self, lookup-insert_ne}
use selected_course_projects.Prelude.Text.{Str, str_eq}
use selected_course_projects.Exec.{Exec, pure, ◌>>=◌}
use selected_course_projects.Exec.Returns
use selected_course_projects.Exec.Returns.{Returns, returns}
use selected_course_projects.Data.{Message, Group, ClientRequest}
use selected_course_projects.Placement.{insertion_message}
use selected_course_projects.Placement.CatchUp.{Numbered, AllNew, Acked, step-Keeps, Acked-next}
use selected_course_projects.Placement.Converge.{merge_all}
use selected_course_projects.Placement.Stands.{Stands, length-merge}
use selected_course_projects.Placement.Merge.{known, merge}
use selected_course_projects.Placement.Represents.{overtakes}
use selected_course_projects.Replica
use selected_course_projects.Replica.{Server, Flag, insertion, insertion_old}
use selected_course_projects.Replica.Messages.{resume-Returns}

-- Merge of several messages, and whether a screen is to be refreshed in the end
unfoldable pub merge_messages : List ClientRequest → (refresh : Bool) → Exec Server Bool
merge_messages [] refresh = pure refresh
merge_messages (r ∷ rs) refresh = do
  more ← Replica.merge r Flag.message_flag
  merge_messages rs (refresh || more)

-- All requests are for one group.
abbrev pub ForGroup : Str → List ClientRequest → Type 0
ForGroup name [] = Unit {0}
ForGroup name (r ∷ rs) = (r.ori_group_name ≡ name) × ForGroup name rs

-- The server's group of a name stands for some messages and has acknowledged another server's up to
-- an index; the other groups are those of `before`.
pub record Caught (name s : Str) (n : ℕ) (ms : List Message) (before now : Server) : Type 0 where
  pub group : Group
  pub entry : lookup name now.group_map ≡ some group
  pub stands : Stands ms group now.heap
  pub acked : Acked s n group
  pub others : (m : Str) → name ≢ m → lookup m now.group_map ≡ lookup m before.group_map

module _ (name s : Str) (n : ℕ) (r : ClientRequest) (ms : List Message) (before now : Server)
    (c : Caught name s n ms before now) (here : r.ori_group_name ≡ name) (from : r.from_server ≡ s)
    (ix : r.map_index ≡ pos (suc n)) (b : known r ms ≡ false) (o : overtakes r ms ≡ false)
    (fits : suc (length ms) < 2147483647) (top : suc n < 2147483647) where
  abbrev Next : Server → Type 0
  Next later = Caught name s (suc n) (merge r ms) before later

  insertion-Caught : Returns (λ _. Next) (insertion Flag.message_flag true r now)
  unfolding insertion insertion_old
  insertion-Caught =
      let (i, e, t) = c.acked in
      let entry : lookup r.ori_group_name now.group_map ≡ some c.group = rw here c.entry in
      rw entry (
        Returns.bind
          (resume-Returns now (insertion_message true r c.group now.heap) (
            step-Keeps r ms c.group now.heap i c.stands (rw from e) (rw (ix, t) (ground arith))
              (rw (b, o) refl) fits))
          λ out s1 ((st, (_, acks)), same). returns (record {
            group = out.group;
            entry = rw here (lookup-insert_self name out.group s1.group_map);
            stands = st;
            acked = Acked-next s n r c.group out c.acked from ix top (acks b);
            others = λ m ne.
                rw here (lookup-insert_ne name m out.group s1.group_map ne)
                ∙ ap (λ (x : Server). lookup m x.group_map) same
                ∙ c.others m ne;
          }))

  merge-Caught : Returns (λ _. Next) (Replica.merge r Flag.message_flag now)
  unfolding Replica.merge
  merge-Caught = Returns.bind insertion-Caught λ _ _ k. returns k

-- A server merges messages with the next indexes of another server, each of them new to the group and
-- none overtaking the last: it returns, the group stands for the merge of them all, the messages are
-- acknowledged up to the last index, and no other group has changed.
pub merge_messages-Caught :
    (name s : Str) (n : ℕ) (rs : List ClientRequest) (ms : List Message) (before now : Server)
    (refresh : Bool)
    → Caught name s n ms before now
    → ForGroup name rs
    → Numbered s n rs
    → AllNew rs ms
    → length ms + length rs < 2147483647
    → n + length rs < 2147483647
    → Returns
        (λ _. Caught name s (n + length rs) (merge_all rs ms) before)
        (merge_messages rs refresh now)
unfolding merge_messages merge_all
merge_messages-Caught name s n [] ms before now refresh c here num new fits top =
    returns (subst (λ x. Caught name s x ms before now) (omega arith) c)
merge_messages-Caught name s n (r ∷ rs) ms before now refresh c (h, here) (from, ix, num)
      (b, o, new) fits top =
    Returns.bind (merge-Caught name s n r ms before now c h from ix b o (omega arith) (omega arith))
      λ more s1 c1.
        Returns.weaken
          (merge_messages-Caught name s (suc n) rs (merge r ms) before s1 (refresh || more) c1 here
            num new (omega (arith, length-merge r ms)) (omega arith))
          λ _ s2 c2.
            subst (λ x. Caught name s x (merge_all rs (merge r ms)) before s2) (omega arith) c2
