-- ===== src/ChatServer/Order.antt =====
-- A local message in the order of the list.
use selected_course_projects.Prelude.{
  suc, ◌<◌, length, ◌≡◌, refl, sym, ap, ◌∙◌, true, some, inl, inr, List, [], ◌∷◌, ◌++◌, arith,
  subst, ◌⊎◌,
}
use selected_course_projects.Prelude.Int.{ℤ, pos, inc32, inc32-pos, lt-inc32, ◌<ℤ◌, ◌≤ℤ◌}
use selected_course_projects.Prelude.Map.{lookup}
use selected_course_projects.Prelude.Text.{Str, str_eq}
use selected_course_projects.Exec.Returns
use selected_course_projects.Exec.Returns.{Returns}
use selected_course_projects.Data.{Ptr, nil, Message, Information, Group, ClientRequest}
use selected_course_projects.Heap.{Heap}
use selected_course_projects.Heap.Chain.{Chain, first, last_or, has, has-last_or}
use selected_course_projects.Heap.Cut.{upto, upto-last}
use selected_course_projects.LinkedList.{zero_activity}
use selected_course_projects.LinkedList.Cells.{Payload, message_node, Cells, messages}
use selected_course_projects.LinkedList.IsList.{IsList}
use selected_course_projects.Placement.Merge.{Ascending, IsAbove}
use selected_course_projects.Placement.Order.{key_ltb}
use selected_course_projects.ChatServer.{append_message}
use selected_course_projects.ChatServer.Window.{window_moved}
use selected_course_projects.ChatServer.Appending.{Said, said, with_said, append_message_lem}

-- No timestamp lies above the bound.
abbrev pub Under : ℤ → List Message → Type 0
Under t [] = Unit {0}
Under t (m ∷ ms) = (m.lamport ≤ℤ t) × Under t ms

pub messages-append : (cs ds : Cells) → messages (cs ++ ds) ≡ messages cs ++ messages ds
messages-append [] ds = refl
messages-append ((p, (a, m)) ∷ cs) ds = ap (◌∷◌ m) (messages-append cs ds)

IsAbove-snoc :
    (m n : Message) (ms : List Message)
    → IsAbove m ms
    → key_ltb m n ≡ true
    → IsAbove m (ms ++ n ∷ [])
IsAbove-snoc m n [] up lt = (lt, tt)
IsAbove-snoc m n (o ∷ ms) up lt = (up.0, IsAbove-snoc m n ms up.1 lt)

Ascending-snoc :
    (t : ℤ) (n : Message) (ms : List Message)
    → Ascending ms
    → Under t ms
    → t <ℤ n.lamport
    → Ascending (ms ++ n ∷ [])
Ascending-snoc t n [] a u lt = (tt, tt)
Ascending-snoc t n (m ∷ ms) a u lt =
    (IsAbove-snoc m n ms a.0 (ground arith), Ascending-snoc t n ms a.1 u.1 lt)

Under-snoc :
    (t s : ℤ) (n : Message) (ms : List Message)
    → Under t ms
    → t ≤ℤ s
    → n.lamport ≤ℤ s
    → Under s (ms ++ n ∷ [])
Under-snoc t s n [] u le lt = (lt, tt)
Under-snoc t s n (m ∷ ms) u le lt = (omega arith, Under-snoc t s n ms u.1 le lt)

last_or-snoc : (o p : Ptr) (a : Payload) (cs : Cells) → last_or o (cs ++ (p, a) ∷ []) ≡ p
last_or-snoc o p a [] = refl
last_or-snoc o p a ((q, b) ∷ cs) = last_or-snoc q p a cs

upto-tail :
    (h : Heap) (t : Ptr) (cs : Cells)
    → Chain message_node h cs
    → t ≡ last_or nil cs
    → upto t cs ≡ cs
unfolding upto
upto-tail h t [] c e = refl
upto-tail h t ((p, a) ∷ cs) c e =
    subst (λ (s : Ptr). upto s ((p, a) ∷ cs) ≡ (p, a) ∷ cs) (sym e)
      (upto-last message_node h p a cs c)

HasTail-last :
    (t : Ptr) (cs : Cells) → t ≡ last_or nil cs → ((cs ≡ []) × (t ≡ nil)) ⊎ (has t cs ≡ true)
HasTail-last t [] e = inl (refl, e)
HasTail-last t ((p, a) ∷ cs) e =
    inr (subst (λ (s : Ptr). has s ((p, a) ∷ cs) ≡ true) (sym e) (has-last_or p cs))

-- The messages after a local one: those before, and it.
pub record Spoken (me : ℤ) (r : ClientRequest) (g : Group) (cs : Cells) (out : Group × Message)
    (k : Heap) : Type 0 where
  pub cells : Cells
  pub list : IsList k out.0.message_list cells
  pub tail : out.0.message_list.tail ≡ last_or nil cells
  pub spoken : messages cells ≡ messages cs ++ said me r g ∷ []
  pub ascending : Ascending (messages cells)
  pub lamport : out.0.max_lamport ≡ inc32 g.max_lamport
  pub servers :
      (s : Str) (i : Information)
      → lookup s g.replica_info ≡ some i
      → (j : Information) × (lookup s out.0.replica_info ≡ some j)
  pub under : Under out.0.max_lamport (messages cells)

length-snoc : (c : Ptr × Payload) (cs : Cells) → length (cs ++ c ∷ []) ≡ suc (length cs)
length-snoc c [] = refl
length-snoc c (d ∷ cs) = ap suc (length-snoc c cs)

module _ (me : ℤ) (string_me : Str) (r : ClientRequest) (g : Group) (h : Heap) (cs : Cells) where
  abbrev new_cell : Ptr × Payload
  new_cell = (h.fresh, (some zero_activity, said me r g))

  Said-IsList :
      (out : Group × Message) (k : Heap)
      → IsList h g.message_list cs
      → suc (length cs) < 2147483647
      → with_said me r g h cs ≡ cs ++ new_cell ∷ []
      → Said me r g h cs out k
      → IsList k out.0.message_list (cs ++ new_cell ∷ [])
  Said-IsList out k is fits same s =
      let len = length-snoc new_cell cs in
      let chain : Chain message_node k (cs ++ new_cell ∷ []) =
        subst (Chain message_node k) same s.chain in
      let count : out.0.message_list.count ≡ pos (suc (length cs)) =
        s.count ∙ ap inc32 is.count ∙ inc32-pos (length cs) (omega arith) ∙ ap pos (omega arith) in
      record {
        chain = chain;
        head = s.head ∙ ap first same;
        count = count ∙ ap pos (sym len);
        fits = omega (arith, len);
        room = omega (arith, len, s.fresh, is.room);
        window = ground (
          arith,
          window_moved k h.fresh g.message_list.ten_start out.0.message_list.ten_start
              out.0.message_list.count (some zero_activity, said me r g) cs chain is.window count
              s.start,
        );
      }

  -- On a well-formed ascending list with the right tail, in a group whose timestamp no message
  -- exceeds and is not the largest int32, AppendMessage returns, as long as the count stays an
  -- int32. The list is then that before with the message at its end. It is well formed and
  -- ascending, its tail is right, and the group's timestamp is again one that no message exceeds.
  pub append_message-Ascending :
      IsList h g.message_list cs
      → g.message_list.tail ≡ last_or nil cs
      → Ascending (messages cs)
      → Under g.max_lamport (messages cs)
      → g.max_lamport <ℤ pos 2147483647
      → suc (length cs) < 2147483647
      → ((i : Information) × (lookup string_me g.replica_info ≡ some i))
      → Returns (Spoken me r g cs) (append_message me string_me r g h)
  append_message-Ascending is tl asc under top fits knows =
      Returns.weaken (append_message_lem me string_me r g h cs is (HasTail-last _ cs tl) knows)
        λ out k s.
          let lt : g.max_lamport <ℤ inc32 g.max_lamport = lt-inc32 g.max_lamport top in
          let same : with_said me r g h cs ≡ cs ++ new_cell ∷ [] =
            ap (λ (x : Cells). x ++ new_cell ∷ [])
              (upto-tail h g.message_list.tail cs is.chain tl) in
          let whole : messages (with_said me r g h cs) ≡ messages cs ++ said me r g ∷ [] =
            ap (λ (x : Cells). messages (x ++ (h.fresh, (some zero_activity, said me r g)) ∷ []))
              (upto-tail h g.message_list.tail cs is.chain tl)
            ∙ messages-append cs ((h.fresh, (some zero_activity, said me r g)) ∷ []) in
          record {
            cells = with_said me r g h cs;
            list =
                subst (IsList k out.0.message_list) (sym same) (Said-IsList out k is fits same s);
            tail =
                s.tail
                ∙ sym (
                    last_or-snoc nil h.fresh (some zero_activity, said me r g)
                      (upto g.message_list.tail cs));
            spoken = whole;
            ascending =
                rw whole (Ascending-snoc g.max_lamport (said me r g) (messages cs) asc under lt);
            lamport = s.lamport;
            servers = s.servers;
            under =
                rw (whole, s.lamport)
                  (Under-snoc g.max_lamport (inc32 g.max_lamport) (said me r g) (messages cs) under
                    (omega arith) (omega arith));
          }
