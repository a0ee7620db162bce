-- ===== src/Likes/Twice.antt =====
-- A like, and the same like again.
use mathlib.Core.Option.{some-injective}
use selected_course_projects.LinkedList.{zero_message}
use selected_course_projects.Prelude.{
  ◌<◌, ◌≡◌, refl, sym, ap, ◌∙◌, true, false, Option, none, some, [], ◌∷◌, arith, length, ◌==◌, ◌⊎◌,
  inl, inr, Bool-cases,
}
use selected_course_projects.Prelude.Int.{ℤ, pos, leb_ℤ}
use selected_course_projects.Prelude.Map.{lookup, lookup-insert_self}
use selected_course_projects.Prelude.Text.{Str, str_eq, beq_str}
use selected_course_projects.Exec.{Run, ok}
use selected_course_projects.Exec.Returns
use selected_course_projects.Exec.Returns.{Returns, returns}
use selected_course_projects.Data.{
  Ptr, nil, Time, Node, LinkedList, Message, Information, Group, ClientRequest,
}
use selected_course_projects.Heap.{Heap}
use selected_course_projects.Heap.Access.{load_message_lem}
use selected_course_projects.Heap.Chain.{
  Chain, Chain-set_at, first, has, set_at, first-set_at, fresh-not-mem, ne_of_mem_sym,
}
use selected_course_projects.LinkedList.Cells.{Payload, message_node, Cells}
use selected_course_projects.Likes.{Liked, find_message, like_message, out_of_bounds, perform}
use selected_course_projects.Likes.Calculate.{activity_node, Activities}
use selected_course_projects.Likes.Find.{
  At, address, find_cell, find_cell-At, find_cell-set_at, find_message_lem,
}
use selected_course_projects.Likes.Perform.{Performed, performing_like_lem, with_like}

-- The like or the taking back of a like was turned down, and changed nothing.
pub record TurnedDown (g : Group) (h : Heap) (out : Liked) (k : Heap) : Type 0 where
  pub failed : out.success ≡ false
  pub group : out.group ≡ g
  pub heap : k ≡ h

-- The guard of the request holds, and the message is there.
pub record Names (r : ClientRequest) (g : Group) (h : Heap) (cs : Cells) (p : Ptr) (a : Payload)
    : Type 0 where
  pub chain : Chain message_node h cs
  pub head : g.message_list.head ≡ first cs
  pub room : length cs < h.fresh
  pub bounds : out_of_bounds r g ≡ false
  pub found : find_cell r.like_number cs ≡ some (p, a)

length-set_at : (p : Ptr) (f : Payload → Payload) (cs : Cells) → length (set_at p f cs) ≡ length cs
unfolding set_at
length-set_at p f [] = refl
length-set_at p f (c ∷ cs) = ground (arith, length-set_at p f cs)

abbrev ran : Ptr → Heap → Run Heap Ptr
ran q h = ok q h

pub find_lem :
    (r : ClientRequest) (g : Group) (h : Heap) (cs : Cells) (p : Ptr) (a : Payload)
    → Names r g h cs p a
    → find_message h.fresh r.like_number g.message_list.head h ≡ ok p h
find_lem r g h cs p a n =
    ap (λ (q : Ptr). find_message h.fresh r.like_number q h) n.head
    ∙ find_message_lem h.fresh r.like_number h cs n.chain n.room
    ∙ ap (λ (x : Option (Ptr × Payload)). ran (address x) h) n.found

-- who likes the message already is turned down
like_again :
    (string_me : Str) (r : ClientRequest) (g : Group) (now : Time) (h : Heap) (cs : Cells) (p : Ptr)
    (a : Payload)
    → Names r g h cs p a
    → lookup r.user_name a.1.user_like ≡ some (pos 1)
    → Returns (TurnedDown g h) (like_message string_me r g now h)
unfolding like_message
like_again string_me r g now h cs p a n liked =
    let t = find_cell-At h r.like_number p a cs n.chain n.found in
    let ne : (p == nil) ≡ false = ground (arith, t.not_nil) in
    rw (n.bounds, find_lem r g h cs p a n, ne, load_message_lem h p t.not_nil t.cell a.1 refl)
      (elim (Bool-cases (beq_str a.1.creator r.user_name)) [
        | inl e ↦ rw e (returns (record { failed = refl; group = refl; heap = refl }))
        | inr e ↦ rw (e, liked) (returns (record { failed = refl; group = refl; heap = refl }))
      ])

-- The message's list of activities, apart from the messages.
pub record HasActivities (m : Message) (h : Heap) (cs : Cells) (l : LinkedList) (acts : Activities)
    : Type 0 where
  pub list : m.activity_list ≡ some l
  pub chain : Chain activity_node h acts
  pub head : l.head ≡ first acts
  pub tail : ((acts ≡ []) × (l.tail ≡ nil)) ⊎ (has l.tail acts ≡ true)
  pub apart : (q : Ptr) → has q cs ≡ true → has q acts ≡ false

-- The user may like the message: he is not its creator, and no like of his stands.
pub record MayLike (user_name : Str) (m : Message) : Type 0 where
  pub other : beq_str m.creator user_name ≡ false
  pub none_stands :
      (lookup user_name m.user_like ≡ none)
      ⊎ ((v : ℤ) × (lookup user_name m.user_like ≡ some v) × (leb_ℤ v (pos 0) ≡ true))

abbrev pub liked_payload : Str → ℤ → LinkedList → Payload → Payload
liked_payload u like l a = (a.0, with_like u like l a.1)

abbrev message_or : Option Message → Message
message_or none = zero_message
message_or (some m) = m

abbrev payload : Node → Payload
payload n = (n.activity, message_or n.message)

-- the node of the message with a like
abbrev relike : Str → ℤ → LinkedList → Node → Option Node
relike u like l n = some (message_node (liked_payload u like l (payload n)) n.next)

module _ (string_me : Str) (r : ClientRequest) (g : Group) (h : Heap) (cs : Cells) (p : Ptr)
    (a : Payload) (l : LinkedList) (acts : Activities) where
  same_payload :
      (like : ℤ) (k : Heap) (q : Ptr) (c b : Payload) (next e : Ptr) {l' : LinkedList}
      → k.cell q ≡ some (message_node (liked_payload r.user_name like l' c) next)
      → some (message_node c next) ≡ some (message_node b e)
      → k.cell q ≡ some (message_node (liked_payload r.user_name like l' b) e)
  same_payload like k q c b next e at same =
      at
      ∙ ap (relike r.user_name like _)
          (some-injective (message_node c next) (message_node b e) same)

  -- the heap after a like still has the messages
  pub set_at-Names :
      (like : ℤ) (now : Time) (next : Ptr) (out : Group × Str × ℤ) (k : Heap)
      → Names r g h cs p a
      → HasActivities a.1 h cs l acts
      → At h r.like_number p a cs
      → (s : Performed string_me g h p (message_node a next) a.1 l r.user_name like now acts out k)
      → h.cell p ≡ some (message_node a next)
      → Names r out.0 k
          (set_at p (liked_payload r.user_name like s.activities) cs)
          p
          (liked_payload r.user_name like s.activities a)
  unfolding out_of_bounds
  set_at-Names like now next out k n w t s at = record {
    chain =
        Chain-set_at message_node h k p (liked_payload r.user_name like s.activities) cs n.chain
          (omega (arith, s.fresh))
          (λ q i d.
            s.outside q (w.apart q i)
              (ne_of_mem_sym h.fresh q cs
                (fresh-not-mem message_node h h.fresh cs n.chain (omega arith)) i)
              d)
          (λ b e at'. same_payload like k p a b next e s.at (sym at ∙ at'));
    head =
        ap (λ (x : LinkedList). x.head) s.message_list
        ∙ n.head
        ∙ sym (first-set_at p (liked_payload r.user_name like s.activities) cs);
    room =
        omega (
          arith,
          n.room,
          s.fresh,
          length-set_at p (liked_payload r.user_name like s.activities) cs,
        );
    bounds = rw s.message_list n.bounds;
    found =
        find_cell-set_at h r.like_number p a (liked_payload r.user_name like s.activities) cs
          n.chain n.found (λ b. refl);
  }

  pub may_like :
      {P : Liked → Heap → Type 0} (now : Time)
      → Names r g h cs p a
      → MayLike r.user_name a.1
      → Returns P (perform string_me r g now (pos 1) p a.1 h)
      → Returns P (like_message string_me r g now h)
  unfolding like_message
  may_like now n may run =
      let t = find_cell-At h r.like_number p a cs n.chain n.found in
      let ne : (p == nil) ≡ false = ground (arith, t.not_nil) in
      rw
        (
          n.bounds,
          find_lem r g h cs p a n,
          ne,
          load_message_lem h p t.not_nil t.cell a.1 refl,
          may.other,
        )
        (elim may.none_stands [ inl e ↦ rw e run | inr (v, e, f) ↦ rw (e, f) run ])

  after_like :
      (now later : Time) (info : Information)
      → Names r g h cs p a
      → HasActivities a.1 h cs l acts
      → beq_str a.1.creator r.user_name ≡ false
      → lookup string_me g.replica_info ≡ some info
      → Returns
          (λ out k.
            (out.success ≡ true)
            × Returns (TurnedDown out.group k) (like_message string_me r out.group later k))
          (perform string_me r g now (pos 1) p a.1 h)
  unfolding perform
  after_like now later info n w other known =
      let t = find_cell-At h r.like_number p a cs n.chain n.found in
      Returns.bind
        (performing_like_lem string_me g (pos 1) p r.user_name now h (message_node a t.next) a.1 l
          acts info t.not_nil t.low t.cell refl w.list (w.apart p t.mem) w.chain w.head w.tail
          known)
        λ out k s. returns (
          refl,
          like_again string_me r out.0 later k
              (set_at p (liked_payload r.user_name (pos 1) s.activities) cs) p
              (liked_payload r.user_name (pos 1) s.activities a)
              (set_at-Names (pos 1) now t.next out k n w t s t.cell)
              (lookup-insert_self r.user_name (pos 1) a.1.user_like),
        )

  -- A user who may like the message of his request does: the request succeeds. The same request of
  -- his is turned down after it and changes nothing, whatever the time.
  pub like_message-twice :
      (now later : Time) (info : Information)
      → Names r g h cs p a
      → HasActivities a.1 h cs l acts
      → MayLike r.user_name a.1
      → lookup string_me g.replica_info ≡ some info
      → Returns
          (λ out k.
            (out.success ≡ true)
            × Returns (TurnedDown out.group k) (like_message string_me r out.group later k))
          (like_message string_me r g now h)
  like_message-twice now later info n w may known =
      may_like now n may (after_like now later info n w may.other known)
