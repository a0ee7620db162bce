-- ===== src/ChatServer/Appending.antt =====
-- AppendMessage: a message that a client of this server sends.
use selected_course_projects.Prelude.{
  suc, ◌≡◌, sym, ◌≢◌, refl, ap, subst, ◌∙◌, true, false, some, inl, inr, [], ◌∷◌, ◌++◌, arith, ◌==◌,
  ◌⊎◌, Bool-cases,
}
use selected_course_projects.Prelude.Int.{ℤ, int_eq, pos, inc32, inc32-pos, ltb_ℤ, eqb_ℤ}
use selected_course_projects.Prelude.Map.{Map, lookup, insert, lookup-insert}
use selected_course_projects.Prelude.Text.{Str, str_eq, beq_str}
use selected_course_projects.Exec.{pure, ◌>>=◌, ◌>>◌}
use selected_course_projects.Exec.Returns
use selected_course_projects.Exec.Returns.{Returns, returns}
use selected_course_projects.Data.{
  Ptr, nil, Node, LinkedList, Message, Information, Group, ClientRequest,
}
use selected_course_projects.Heap.{Heap, write, need, store_message}
use selected_course_projects.Heap.Access.{load_lem, store_message_lem}
use selected_course_projects.Heap.Chain.{
  Chain, Chain-at, Chain-set_at, set_at, set_at-append, has, first, fresh-not-mem,
}
use selected_course_projects.Heap.Cut.{upto, has-upto-false}
use selected_course_projects.LinkedList.{new_message, zero_activity, zero_message}
use selected_course_projects.LinkedList.Append.{Appended, appended, zero_node, IsShape, append_lem}
use selected_course_projects.LinkedList.Cells.{Payload, message_node, Cells}
use selected_course_projects.LinkedList.IsList.{IsList}
use selected_course_projects.ChatServer.{append_message, advance_window}

-- the message that a request of a client makes
abbrev pub said : (me : ℤ) → ClientRequest → Group → Message
said me r g = record (new_message (inc32 g.max_lamport) me r.user_name r.content (pos 0)) {
  msg_id = inc32 g.message_list.count;
}

message_node-IsShape : IsShape message_node
message_node-IsShape = record { relink = λ a e q. refl }

-- the nodes after the append
abbrev pub with_said : (me : ℤ) → ClientRequest → Group → Heap → Cells → Cells
with_said me r g h cs =
    upto g.message_list.tail cs ++ (h.fresh, (some zero_activity, said me r g)) ∷ []

-- The new start of the window: the new node, what it was, or the node behind that. The first is
-- so for the first message.
abbrev pub WindowMoved : (p : Ptr) → (count : ℤ) → (old new : Ptr) → Heap → Type 0
WindowMoved p count old new k =
    (new ≡ p)
    ⊎ ((eqb_ℤ count (pos 1) ≡ false)
        × ((new ≡ old) ⊎ ((n : Node) × (k.cell old ≡ some n) × (new ≡ n.next))))

pub record Said (me : ℤ) (r : ClientRequest) (g : Group) (h : Heap) (cs : Cells)
    (out : Group × Message) (k : Heap) : Type 0 where
  pub message : out.1 ≡ said me r g
  pub chain : Chain message_node k (with_said me r g h cs)
  pub head : out.0.message_list.head ≡ first (with_said me r g h cs)
  pub tail : out.0.message_list.tail ≡ h.fresh
  pub count : out.0.message_list.count ≡ inc32 g.message_list.count
  pub lamport : out.0.max_lamport ≡ inc32 g.max_lamport
  pub fresh : k.fresh ≡ suc h.fresh
  pub servers :
      (s : Str) (i : Information)
      → lookup s g.replica_info ≡ some i
      → (j : Information) × (lookup s out.0.replica_info ≡ some j)
  pub start :
      WindowMoved h.fresh out.0.message_list.count g.message_list.ten_start
        out.0.message_list.ten_start k

-- The tail is a node of the list, or the list is empty and has none.
abbrev pub HasTail : LinkedList → Cells → Type 0
HasTail l cs = ((cs ≡ []) × (l.tail ≡ nil)) ⊎ (has l.tail cs ≡ true)

-- The window after a message: only its start may have changed.
record Shown (p : Ptr) (g : Group) (h : Heap) (g' : Group) (k : Heap) : Type 0 where
  heap : k ≡ h
  head : g'.message_list.head ≡ g.message_list.head
  tail : g'.message_list.tail ≡ g.message_list.tail
  count : g'.message_list.count ≡ g.message_list.count
  lamport : g'.max_lamport ≡ g.max_lamport
  info : g'.replica_info ≡ g.replica_info
  start : WindowMoved p g.message_list.count g.message_list.ten_start g'.message_list.ten_start k

advance_window_lem :
    (p : Ptr) (g : Group) (h : Heap)
    → (ltb_ℤ (pos 10) g.message_list.count ≡ true
        → (n : Node) × (g.message_list.ten_start ≢ nil)
          × (h.cell g.message_list.ten_start ≡ some n))
    → Returns (Shown p g h) (advance_window p g h)
unfolding advance_window
advance_window_lem p g h old = elim (Bool-cases (eqb_ℤ g.message_list.count (pos 1))) [
  | inl e ↦ rw e (
      returns (record {
        heap = refl;
        head = refl;
        tail = refl;
        count = refl;
        lamport = refl;
        info = refl;
        start = inl refl;
      }))
  | inr e ↦ rw e (elim (Bool-cases (ltb_ℤ (pos 10) g.message_list.count)) [
    | inl f ↦
        let (n, ne, at) = old f in
        rw (f, load_lem h g.message_list.ten_start ne at)
          (returns (record {
            heap = refl;
            head = refl;
            tail = refl;
            count = refl;
            lamport = refl;
            info = refl;
            start = inr (e, inr (n, at, refl));
          }))
    | inr f ↦ rw f (
        returns (record {
          heap = refl;
          head = refl;
          tail = refl;
          count = refl;
          lamport = refl;
          info = refl;
          start = inr (e, inl refl);
        }))
  ])
]

-- In a list of more than nine messages the start of the window is a node.
window_node :
    (h : Heap) (l : LinkedList) (cs : Cells)
    → IsList h l cs
    → ltb_ℤ (pos 10) (inc32 l.count) ≡ true
    → (has l.ten_start cs ≡ true) × (l.ten_start ≢ nil)
window_node h l [] is many =
    cc (ap (λ (c : ℤ). ltb_ℤ (pos 10) (inc32 c)) is.count, inc32-pos 0 (omega arith))
window_node h l (c ∷ cs) is many =
    let (a, e, ne, at) = Chain-at message_node h l.ten_start (c ∷ cs) is.chain is.window in
    (is.window, ne)

write_keeps :
    (k : Heap) (p : Ptr) (n : Node) (q : Ptr) (x : Node)
    → k.cell q ≡ some x
    → (y : Node) × ((write k p n).cell q ≡ some y)
unfolding write
write_keeps k p n q x e = elim (Bool-cases (q == p)) [
  | inl d ↦ (n, ground arith)
  | inr d ↦ (x, ground arith)
]

first-last :
    (p : Ptr) (a b : Payload) (cs : Cells) → first (cs ++ (p, a) ∷ []) ≡ first (cs ++ (p, b) ∷ [])
first-last p a b [] = refl
first-last p a b (c ∷ cs) = refl

lookup_after :
    (s t : Str) (v i : Information) (m : Map Str Information)
    → lookup t m ≡ some i
    → (j : Information) × (lookup t (insert s v m) ≡ some j)
lookup_after s t v i m e = elim (Bool-cases (beq_str s t)) [
  | inl b ↦ (v, lookup-insert s t v m ∙ rw b refl)
  | inr b ↦ (i, lookup-insert s t v m ∙ rw b e)
]

module _ (me : ℤ) (string_me : Str) (r : ClientRequest) (g : Group) (h : Heap) (cs : Cells) where
  -- what the rest of AppendMessage does with the new node
  after_append :
      (i : Information) (out : Ptr × LinkedList) (k : Heap)
      → IsList h g.message_list cs
      → lookup string_me g.replica_info ≡ some i
      → Appended message_node (some zero_activity, zero_message) h g.message_list cs out k
      → Returns (Said me r g h cs) (
          (do
            info ← need (lookup string_me g.replica_info)
            let stamp = inc32 info.msg_timestamp
            let info' = record info {
              msg_timestamp = stamp;
              message_lamport = insert stamp out.0 info.message_lamport;
            }
            let m = record (new_message (inc32 g.max_lamport) me r.user_name r.content (pos 0)) {
              msg_id = out.1.count;
            }
            store_message out.0 m
            g' ← advance_window out.0 (record g {
              max_lamport = inc32 g.max_lamport;
              message_list = out.1;
              replica_info = insert string_me info' g.replica_info;
            })
            pure (g', m))
            k)
  unfolding need write
  after_append i _ k is knows (appended {l'} chain head tail ten count fresh outside keeps new) =
      let m : Message = record (said me r g) { msg_id = l'.count } in
      let m≡ : m ≡ said me r g = ap (λ (c : ℤ). record (said me r g) { msg_id = c }) count in
      let front = upto g.message_list.tail cs in
      let b : Payload = (some zero_activity, zero_message) in
      let apart : has h.fresh front ≡ false =
        has-upto-false h.fresh g.message_list.tail cs
          (fresh-not-mem message_node h h.fresh cs is.chain (omega arith)) in
      let k1 : Heap = write k h.fresh (message_node (some zero_activity, m) nil) in
      let set = set_at h.fresh (λ (a : Payload). (a.0, m)) (front ++ (h.fresh, b) ∷ []) in
      let same : set ≡ with_said me r g h cs =
        set_at-append h.fresh (λ (a : Payload). (a.0, m)) b front apart
        ∙ ap (λ (x : Message). front ++ (h.fresh, (some zero_activity, x)) ∷ []) m≡ in
      let chain1 : Chain message_node k1 set =
        Chain-set_at message_node k k1 h.fresh (λ (a : Payload). (a.0, m))
          (front ++ (h.fresh, b) ∷ []) chain (omega arith) (λ q o d. ground arith)
          (λ a e at. ground (arith, new)) in
      rw (knows, store_message_lem k h.fresh {n = zero_node} (omega arith) new m)
        (Returns.bind
          (advance_window_lem h.fresh _ _ λ many.
            let (mt, ne) = window_node h g.message_list cs is (rw (← count) many) in
            let (x, cell) = keeps g.message_list.ten_start mt in
            let (y, cell') =
              write_keeps k h.fresh (message_node (some zero_activity, m) nil)
                g.message_list.ten_start x cell in
            (y, rw ten ne, rw ten cell'))
          λ g' k' sh. returns (record {
            message = m≡;
            chain = rw sh.heap (subst (Chain message_node k1) same chain1);
            head = sh.head ∙ head ∙ first-last h.fresh b (some zero_activity, said me r g) front;
            tail = sh.tail ∙ tail;
            count = sh.count ∙ count;
            lamport = sh.lamport;
            fresh = ap (λ (x : Heap). x.fresh) sh.heap ∙ fresh;
            servers = λ t j f.
                subst (λ (x : Map Str Information). (o : Information) × (lookup t x ≡ some o))
                  (sym sh.info) (lookup_after string_me t _ j g.replica_info f);
            start =
                subst
                  (λ (c : ℤ).
                    WindowMoved h.fresh c g.message_list.ten_start g'.message_list.ten_start k')
                  (sym sh.count)
                  (subst (λ (o : Ptr). WindowMoved h.fresh l'.count o g'.message_list.ten_start k')
                    ten sh.start);
          }))

  -- AppendMessage returns on every well-formed list: the list afterwards is what it was up to its
  -- tail, and then the message, with the next timestamp of the group and the next index.
  pub append_message_lem :
      IsList h g.message_list cs
      → HasTail g.message_list cs
      → ((i : Information) × (lookup string_me g.replica_info ≡ some i))
      → Returns (Said me r g h cs) (append_message me string_me r g h)
  unfolding append_message
  append_message_lem is tl (i, knows) =
      Returns.bind
        (append_lem message_node message_node-IsShape (some zero_activity, zero_message) refl h
          g.message_list cs (omega arith) is.chain is.head tl)
        λ out k a. after_append i out k is knows a
