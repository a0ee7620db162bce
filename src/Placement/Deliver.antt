-- ===== src/Placement/Deliver.antt =====
-- Several replicated messages that Insertion (chat_system/chat/replica.go) puts into a group, with the
-- flag that Merge gives it: an index that was acknowledged is passed over, and a new one recorded.
use mathlib.Core.List.{Permᴰ}
use selected_course_projects.Prelude.{
  suc, ◌+◌, ◌<◌, ◌≡◌, refl, ap, subst, ◌∙◌, true, false, ◌||◌, not, ◌⊎◌, List, [], ◌∷◌, arith,
  length, inl, inr, Bool-cases, some,
}
use selected_course_projects.Prelude.Int.{leb_ℤ}
use selected_course_projects.Prelude.Map.{lookup}
use selected_course_projects.Prelude.Text.{str_eq}
use selected_course_projects.Exec.{Exec, pure, ok, ◌>>=◌}
use selected_course_projects.Exec.Returns
use selected_course_projects.Exec.Returns.{Returns, returns}
use selected_course_projects.Data.{nil, Message, Information, Group, ClientRequest}
use selected_course_projects.Heap.{Heap, need}
use selected_course_projects.Placement.{Inserted, insertion_message, redundant}
use selected_course_projects.Placement.Acknowledge.{servers-acknowledged}
use selected_course_projects.Placement.CatchUp.{Keeps, step-Keeps}
use selected_course_projects.Placement.Converge.{
  merge_all, merge_all-perm, merge-idempotent, known-merge_self, Consistent,
}
use selected_course_projects.Placement.Fresh.{Fresh, AllFresh, AllApart, step-AllFresh}
use selected_course_projects.Placement.Merge.{known, merge}
use selected_course_projects.Placement.Received.{Acknowledges}
use selected_course_projects.Placement.Represents.{overtakes}
use selected_course_projects.Placement.Stands.{Stands, length-merge}

-- The messages of several requests, as Merge has them inserted.
unfoldable pub deliver : List ClientRequest → Group → Exec Heap Group
deliver [] g = pure g
deliver (r ∷ rs) g = do out ← insertion_message true r g; deliver rs out.group

-- No new message overtakes the last message that is there when it arrives.
abbrev pub NoneOvertakes : List ClientRequest → List Message → Type 0
NoneOvertakes [] ms = Unit {0}
NoneOvertakes (r ∷ rs) ms =
    ((known r ms || not (overtakes r ms)) ≡ true) × NoneOvertakes rs (merge r ms)

Keeps-cases :
    (r : ClientRequest) (ms : List Message) (g : Group) (out : Inserted)
    → Keeps r ms g out
    → (out.group ≡ g) ⊎ Acknowledges true r g out
Keeps-cases r ms g out (same, acks) = elim (Bool-cases (known r ms)) [
  | inl e ↦ inl (same e)
  | inr e ↦ inr (acks e)
]

-- Insertion of the messages of several requests returns, and the group's list stands for the merge
-- of them all, if each comes from a server of which the group has a record, what is acknowledged to it at
-- the start is not negative and below the request's index, no two have the index of one message, none
-- overtakes the last message that it finds, and the count stays an int32.
pub deliver-merge_all :
    (rs : List ClientRequest) (ms : List Message) (g : Group) (h : Heap)
    → Stands ms g h
    → AllFresh rs g
    → AllApart rs
    → NoneOvertakes rs ms
    → length ms + length rs < 2147483647
    → Returns (Stands (merge_all rs ms)) (deliver rs g h)
unfolding deliver merge_all
deliver-merge_all [] ms g h s fresh apart none fits = returns s
deliver-merge_all (r ∷ rs) ms g h s fresh apart none fits =
    let (i, e, z, new) = fresh.0 in
    Returns.bind (step-Keeps r ms g h i s e new none.0 (omega arith)) λ out k (t, keeps).
      deliver-merge_all rs (merge r ms) out.group k t
        (step-AllFresh r rs g out fresh.0 apart.0 (Keeps-cases r ms g out keeps) fresh.1) apart.1
        none.1 (omega (arith, length-merge r ms))

-- Two servers whose lists stand for the same messages insert the same requests in different orders, under
-- the conditions of the theorem above on each, where two different requests never carry one timestamp and
-- replica. Both return, and their lists stand for the same messages again.
pub deliver-perm :
    (rs ss : List ClientRequest) (ms : List Message) (g g' : Group) (h h' : Heap)
    → Permᴰ rs ss
    → Consistent rs
    → Stands ms g h
    → Stands ms g' h'
    → AllFresh rs g
    → AllFresh ss g'
    → AllApart rs
    → AllApart ss
    → NoneOvertakes rs ms
    → NoneOvertakes ss ms
    → length ms + length rs < 2147483647
    → length ms + length ss < 2147483647
    → (ns : List Message) × Returns (Stands ns) (deliver rs g h)
      × Returns (Stands ns) (deliver ss g' h')
deliver-perm rs ss ms g g' h h' p c s s' f f' a a' n n' fits fits' = (
  merge_all rs ms,
  deliver-merge_all rs ms g h s f a n fits,
  rw (merge_all-perm rs ss ms p c) (deliver-merge_all ss ms g' h' s' f' a' n' fits'),
)

-- an acknowledged index is passed over
insertion_message-passed :
    (r : ClientRequest) (g : Group) (h : Heap) (i : Information)
    → lookup r.from_server g.replica_info ≡ some i
    → leb_ℤ r.map_index i.msg_timestamp ≡ true
    → insertion_message true r g h ≡ ok (record { node = nil; refresh = false; group = g }) h
unfolding insertion_message redundant need
insertion_message-passed r g h i e old = rw (e, old) refl

knows-Keeps :
    (r : ClientRequest) (g : Group) (out : Inserted) (i : Information)
    → lookup r.from_server g.replica_info ≡ some i
    → (out.group ≡ g) ⊎ Acknowledges true r g out
    → (j : Information) × (lookup r.from_server out.group.replica_info ≡ some j)
knows-Keeps r g out i e (inl same) = (i, rw same e)
knows-Keeps r g out i e (inr (acks, _)) =
    let (j, f) = servers-acknowledged true r out.node g r.from_server i e in
    (j, ap (lookup r.from_server) acks ∙ f)

-- the second time
insertion_message-again :
    (r : ClientRequest) (ms : List Message) (g : Group) (h : Heap) (i : Information)
    → Stands (merge r ms) g h
    → lookup r.from_server g.replica_info ≡ some i
    → suc (length (merge r ms)) < 2147483647
    → Returns
        (λ out k. Stands (merge r ms) out.group k × (out.group ≡ g))
        (insertion_message true r g h)
insertion_message-again r ms g h i s e fits =
    elim (Bool-cases (leb_ℤ r.map_index i.msg_timestamp)) [
      | inl old ↦ rw (insertion_message-passed r g h i e old) (returns (s, refl))
      | inr new ↦
          Returns.weaken
            (step-Keeps r (merge r ms) g h i s e new (rw (known-merge_self r ms) refl) fits)
            λ out k (t, keeps). (
              subst (λ x. Stands x out.group k) (merge-idempotent r ms) t,
              keeps.0 (known-merge_self r ms),
            )
    ]

-- A message that arrives twice: Insertion returns with the message merged, if it comes from a server of
-- which the group has a record, what is acknowledged to it is not negative and below the message's index,
-- and it does not overtake the last. The same request once more, whether its index is acknowledged by then
-- or not, returns too, and leaves the group and its messages as they were, if the count stays an int32.
pub insertion_message-twice :
    (r : ClientRequest) (ms : List Message) (g : Group) (h : Heap)
    → Stands ms g h
    → Fresh r g
    → (known r ms || not (overtakes r ms)) ≡ true
    → suc (length ms) < 2147483646
    → Returns
        (λ out k.
          Stands (merge r ms) out.group k
          × Returns
              (λ again k'. Stands (merge r ms) again.group k' × (again.group ≡ out.group))
              (insertion_message true r out.group k))
        (insertion_message true r g h)
insertion_message-twice r ms g h s (i, e, z, new) free fits =
    Returns.weaken (step-Keeps r ms g h i s e new free (omega arith)) λ out k (t, keeps).
      let (j, f) = knows-Keeps r g out i e (Keeps-cases r ms g out keeps) in
      (t, insertion_message-again r ms out.group k j t f (omega (arith, length-merge r ms)))
