-- ===== src/ChatServer/Lost.antt =====
-- A replicated message that overtakes the tail is lost with the next local message.
use selected_course_projects.Prelude.{
  suc, ◌<◌, ◌≡◌, refl, sym, ap, ◌∙◌, Bool, true, false, some, inr, List, [], ◌∷◌, ◌++◌, arith,
  subst, length,
}
use selected_course_projects.Prelude.Int.{ℤ, pos, inc32, lt-inc32, ◌<ℤ◌, ◌≤ℤ◌}
use selected_course_projects.Prelude.Map.{lookup}
use selected_course_projects.Prelude.Text.{Str, str_eq}
use selected_course_projects.Exec.{Exec, ◌>>=◌}
use selected_course_projects.Exec.Returns
use selected_course_projects.Exec.Returns.{Returns}
use selected_course_projects.Data.{Ptr, nil, Message, Information, Group, ClientRequest}
use selected_course_projects.Heap.{Heap}
use selected_course_projects.Heap.Chain.{Chain, first, last_or, has, has-last_or}
use selected_course_projects.Heap.Cut.{upto, upto-append, upto-Distinct, Distinct, Chain-Distinct}
use selected_course_projects.LinkedList.{zero_activity}
use selected_course_projects.LinkedList.Cells.{Payload, message_node, Cells, messages}
use selected_course_projects.LinkedList.IsList.{IsList}
use selected_course_projects.LinkedList.Reorder.{
  number, number_cells, has-number_cells, last-number_cells, with_id, messages-number_cells,
}
use selected_course_projects.Placement.{insertion_message, update_group_lamport}
use selected_course_projects.Placement.Commute.{known-number}
use selected_course_projects.Placement.Merge.{known, Ascending}
use selected_course_projects.Placement.Overtake.{insertion_message-overtakes}
use selected_course_projects.Placement.Refines.{IsNew}
use selected_course_projects.Placement.Represents.{overtakes}
use selected_course_projects.ChatServer.{append_message}
use selected_course_projects.ChatServer.Appending.{said, with_said, Said, append_message_lem}
use selected_course_projects.ChatServer.Order.{messages-append}

-- The request of a client, on the group that a replicated message has just changed.
unfoldable pub merge_then_append :
    (flag2 : Bool)
    → ClientRequest
    → Group
    → (me : ℤ) → (string_me : Str) → ClientRequest
    → Exec Heap (Group × Message)
merge_then_append flag2 r g me string_me q = do
  out ← insertion_message flag2 r g
  append_message me string_me q out.group

-- The last number of a longer list, and its numbers before.
number_cells-snoc :
    (p : Ptr) (b : Payload) (id : ℤ) (cs : Cells)
    → (z : Payload) × (number_cells id (cs ++ (p, b) ∷ []) ≡ number_cells id cs ++ (p, z) ∷ [])
number_cells-snoc p b id [] = ((b.0, with_id (inc32 id) b.1), refl)
number_cells-snoc p b id ((q, a) ∷ cs) =
    let (z, e) = number_cells-snoc p b (inc32 id) cs in
    (z, ap (◌∷◌ (q, (a.0, with_id (inc32 id) a.1))) e)

number_cells-Distinct : (id : ℤ) (cs : Cells) → Distinct cs → Distinct (number_cells id cs)
number_cells-Distinct id [] d = tt
number_cells-Distinct id ((q, a) ∷ cs) d =
    (has-number_cells q (inc32 id) cs ∙ d.0, number_cells-Distinct (inc32 id) cs d.1)

-- Cut behind the old last node, the numbered list has lost the new last node.
upto-old_last :
    (q : Ptr) (a : Payload) (p : Ptr) (b : Payload) (id : ℤ) (cs : Cells)
    → Distinct ((q, a) ∷ cs)
    → upto (last_or q cs) (number_cells id ((q, a) ∷ cs ++ (p, b) ∷ []))
      ≡ number_cells id ((q, a) ∷ cs)
upto-old_last q a p b id cs d =
    let (z, e) = number_cells-snoc p b id ((q, a) ∷ cs) in
    ap (upto (last_or q cs)) e
    ∙ upto-append (last_or q cs) (number_cells id ((q, a) ∷ cs)) ((p, z) ∷ [])
        (has-number_cells (last_or q cs) id ((q, a) ∷ cs) ∙ has-last_or q cs)
    ∙ ap (λ (t : Ptr). upto t (number_cells id ((q, a) ∷ cs)))
        (sym (last-number_cells q (inc32 id) cs))
    ∙ upto-Distinct q (a.0, with_id (inc32 id) a.1) (number_cells (inc32 id) cs)
        (number_cells-Distinct id ((q, a) ∷ cs) d)

known-snoc :
    (r : ClientRequest) (m : Message) (ms : List Message)
    → known r ms ≡ false
    → r.timestamp <ℤ m.lamport
    → known r (ms ++ m ∷ []) ≡ false
unfolding known
known-snoc r m [] k lt = ground arith
known-snoc r m (n ∷ ms) k lt = ground (arith, known-snoc r m ms (ground arith) lt)

-- The group's timestamp is at least the request's afterwards.
le-update_group_lamport : (g : Group) (t : ℤ) → t ≤ℤ (update_group_lamport g t).max_lamport
unfolding update_group_lamport
le-update_group_lamport g t = ground arith

before :
    (r : ClientRequest) (g g' : Group)
    → g'.max_lamport ≡ (update_group_lamport g r.timestamp).max_lamport
    → (update_group_lamport g r.timestamp).max_lamport <ℤ pos 2147483647
    → r.timestamp <ℤ inc32 g'.max_lamport
before r g g' e top = rw e (
    ground (
      arith,
      le-update_group_lamport g r.timestamp,
      lt-inc32 (update_group_lamport g r.timestamp).max_lamport top,
    ))

has_of_left : (t : Ptr) (cs ds : Cells) → has t cs ≡ true → has t (cs ++ ds) ≡ true
has_of_left t ((q, a) ∷ cs) ds m = ground (arith, has_of_left t cs ds)
has_of_left t [] ds m = cc

has_tail :
    (p t : Ptr) (a : Payload) (c : Ptr × Payload) (cs : Cells)
    → t ≡ last_or p cs
    → has t (number_cells (pos 0) ((p, a) ∷ cs ++ c ∷ [])) ≡ true
has_tail p t a c cs e =
    has-number_cells t (pos 0) ((p, a) ∷ cs ++ c ∷ [])
    ∙ has_of_left t ((p, a) ∷ cs) (c ∷ [])
        (subst (λ (x : Ptr). has x ((p, a) ∷ cs) ≡ true) (sym e) (has-last_or p cs))

-- The list of the group afterwards has no message with the request's key.
pub record Lost (r : ClientRequest) (cs : Cells) (out : Group × Message) (k : Heap) : Type 0 where
  pub cells : Cells
  pub chain : Chain message_node k cells
  pub head : out.0.message_list.head ≡ first cells
  pub left : messages cells ≡ number (pos 0) (messages cs) ++ out.1 ∷ []
  pub gone : known r (messages cells) ≡ false

module _ (r : ClientRequest) (g : Group) (me : ℤ) (string_me : Str) (q : ClientRequest)
    (h : Heap) where
  -- what the local message leaves of the list in which the new node `b` is last
  append_after :
      (p : Ptr) (a b : Payload) (cs : Cells) (g' : Group) (k : Heap)
      → Distinct ((p, a) ∷ cs)
      → g'.message_list.tail ≡ last_or p cs
      → known r (messages ((p, a) ∷ cs)) ≡ false
      → r.timestamp <ℤ inc32 g'.max_lamport
      → (out : Group × Message) (k' : Heap)
      → Said me q g' k (number_cells (pos 0) ((p, a) ∷ cs ++ (h.fresh, b) ∷ [])) out k'
      → Lost r ((p, a) ∷ cs) out k'
  append_after p a b cs g' k d tl unknown lt out k' s =
      let ds : Cells = (p, a) ∷ cs in
      let cut : upto g'.message_list.tail (number_cells (pos 0) (ds ++ (h.fresh, b) ∷ []))
          ≡ number_cells (pos 0) ds =
        rw tl (upto-old_last p a h.fresh b (pos 0) cs d) in
      let whole : messages (with_said me q g' k (number_cells (pos 0) (ds ++ (h.fresh, b) ∷ [])))
          ≡ number (pos 0) (messages ds) ++ said me q g' ∷ [] =
        ap (λ (x : Cells). messages (x ++ (k.fresh, (some zero_activity, said me q g')) ∷ [])) cut
        ∙ messages-append (number_cells (pos 0) ds)
            ((k.fresh, (some zero_activity, said me q g')) ∷ [])
        ∙ ap (λ (x : List Message). x ++ said me q g' ∷ []) (messages-number_cells (pos 0) ds) in
      record {
        cells = with_said me q g' k (number_cells (pos 0) (ds ++ (h.fresh, b) ∷ []));
        chain = s.chain;
        head = s.head;
        left = whole ∙ ap (λ (x : Message). number (pos 0) (messages ds) ++ x ∷ []) (sym s.message);
        gone = rw whole (
            known-snoc r (said me q g') (number (pos 0) (messages ds))
              (known-number r (pos 0) (messages ds) ∙ unknown) lt);
      }

  -- Two servers have said something with the same timestamp; the message of the higher replica
  -- arrives where the other is last. It goes behind it, and the tail is not moved (as `overtakes`
  -- says). Then the next message of a client of this server is linked behind the tail, and the
  -- replicated message is in the group's list no more.
  pub merged_message-Lost :
      (flag2 : Bool) (cs : Cells)
      → IsList h g.message_list cs
      → g.message_list.tail ≡ last_or nil cs
      → Ascending (messages cs)
      → IsNew flag2 r g
      → suc (length cs) < 2147483647
      → known r (messages cs) ≡ false
      → overtakes r (messages cs) ≡ true
      → (update_group_lamport g r.timestamp).max_lamport <ℤ pos 2147483647
      → ((i : Information) × (lookup string_me g.replica_info ≡ some i))
      → Returns (Lost r cs) (merge_then_append flag2 r g me string_me q h)
  unfolding merge_then_append overtakes
  merged_message-Lost flag2 [] is tl asc new fits unknown over top knows = cc
  merged_message-Lost flag2 ((p, a) ∷ cs) is tl asc new fits unknown over top (i, knows) =
      Returns.bind
        (insertion_message-overtakes flag2 r g h ((p, a) ∷ cs) is tl asc new fits unknown over)
        λ out k gr.
          Returns.weaken
            (append_message_lem me string_me q out.group k _ gr.list
              (inr (has_tail p out.group.message_list.tail a _ cs gr.tail_is))
              (gr.servers string_me i knows))
            λ o k' s.
              append_after p a _ cs out.group k
                (Chain-Distinct message_node h ((p, a) ∷ cs) is.chain) gr.tail_is unknown
                (before r g out.group gr.lamport top) o k' s
