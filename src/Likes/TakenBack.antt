-- ===== src/Likes/TakenBack.antt =====
-- A like that is taken back: LikeMessage and then UnlikeMessage (chat_system/chat/chatserver.go).
use selected_course_projects.Prelude.{
  ◌≡◌, refl, sym, ap, ◌∙◌, true, false, some, [], ◌∷◌, arith, ◌==◌, inl, inr, Bool-cases, subst,
}
use selected_course_projects.Prelude.Int.{ℤ, pos, negsuc, ◌<ℤ◌, ◌≤ℤ◌, dec32-inc32}
use selected_course_projects.Prelude.Map.{lookup, insert, lookup-insert_self}
use selected_course_projects.Prelude.Text.{Str, str_eq, beq_str}
use selected_course_projects.Exec.Returns
use selected_course_projects.Exec.Returns.{Returns, returns}
use selected_course_projects.Data.{Ptr, nil, Time, LinkedList, Information, Group, ClientRequest}
use selected_course_projects.Heap.{Heap}
use selected_course_projects.Heap.Access.{load_message_lem}
use selected_course_projects.Heap.Chain.{has, set_at, has-set_at, ne_of_mem_sym, fresh-not-mem}
use selected_course_projects.Heap.Cut.{has-upto}
use selected_course_projects.LinkedList.{zero_message}
use selected_course_projects.LinkedList.Cells.{Payload, message_node, Cells}
use selected_course_projects.Likes.{Liked, like_message, unlike_message, perform}
use selected_course_projects.Likes.Calculate.{Activities}
use selected_course_projects.Likes.Find.{find_cell-At}
use selected_course_projects.Likes.Grown.{grown}
use selected_course_projects.Likes.Perform.{Performed, made, performing_like_lem}
use selected_course_projects.Likes.Twice.{
  Names, HasActivities, MayLike, find_lem, liked_payload, may_like, set_at-Names,
}

-- The server after a like, or after one was taken back: the request still names the message, whose
-- list has grown.
pub record Settled (string_me : Str) (r : ClientRequest) (g : Group) (cs : Cells) (p : Ptr)
    (a : Payload) (like : ℤ) (out : Liked) (k : Heap) : Type 0 where
  pub succeeded : out.success ≡ true
  pub message_list : out.group.message_list ≡ g.message_list
  pub activities : LinkedList
  pub names :
      Names r out.group k
        (set_at p (liked_payload r.user_name like activities) cs)
        p
        (liked_payload r.user_name like activities a)
  pub acts : Activities
  pub owns :
      HasActivities
        (liked_payload r.user_name like activities a).1
        k
        (set_at p (liked_payload r.user_name like activities) cs)
        activities
        acts
  pub info : Information
  pub known : lookup string_me out.group.replica_info ≡ some info

module _ (string_me : Str) (r : ClientRequest) (g : Group) (h : Heap) (cs : Cells) (p : Ptr)
    (a : Payload) (l : LinkedList) (acts : Activities) where
  grown-HasActivities :
      (like : ℤ) (now : Time) (out : Group × Str × ℤ) (k : Heap) (next : Ptr)
      → Names r g h cs p a
      → HasActivities a.1 h cs l acts
      → (s : Performed string_me g h p (message_node a next) a.1 l r.user_name like now acts out k)
      → HasActivities
          (liked_payload r.user_name like s.activities a).1
          k
          (set_at p (liked_payload r.user_name like s.activities) cs)
          s.activities
          (grown h l acts (made a.1 now like r.user_name))
  grown-HasActivities like now out k next n w s = record {
    list = refl;
    chain = s.grown.chain;
    head = s.grown.head;
    tail = inr s.grown.tail;
    apart = λ q i.
        let i' : has q cs ≡ true =
          sym (has-set_at q p (liked_payload r.user_name like s.activities) cs) ∙ i in
        has-upto q l.tail h.fresh (made a.1 now like r.user_name, some zero_message) acts
          (w.apart q i')
          (ground (
            arith,
            ne_of_mem_sym h.fresh q cs
                (fresh-not-mem message_node h h.fresh cs n.chain (omega arith)) i',
          ));
  }

  perform-Settled :
      (like : ℤ) (now : Time) (info : Information)
      → Names r g h cs p a
      → HasActivities a.1 h cs l acts
      → lookup string_me g.replica_info ≡ some info
      → Returns (Settled string_me r g cs p a like) (perform string_me r g now like p a.1 h)
  unfolding perform
  perform-Settled like now info n w known =
      let t = find_cell-At h r.like_number p a cs n.chain n.found in
      Returns.bind
        (performing_like_lem string_me g like p r.user_name now h (message_node a t.next) a.1 l acts
          info t.not_nil t.low t.cell refl w.list (w.apart p t.mem) w.chain w.head w.tail known)
        λ out k s. returns (record {
          succeeded = refl;
          message_list = s.message_list;
          activities = s.activities;
          names = set_at-Names string_me r g h cs p a l acts like now t.next out k n w t s t.cell;
          acts = grown h l acts (made a.1 now like r.user_name);
          owns = grown-HasActivities like now out k t.next n w s;
          info = s.info;
          known = s.known;
        })

  -- who likes a message of another's may take the like back
  unlike_lem :
      (now : Time) (info : Information)
      → Names r g h cs p a
      → HasActivities a.1 h cs l acts
      → beq_str a.1.creator r.user_name ≡ false
      → lookup r.user_name a.1.user_like ≡ some (pos 1)
      → lookup string_me g.replica_info ≡ some info
      → Returns (Settled string_me r g cs p a (negsuc 0)) (unlike_message string_me r g now h)
  unfolding unlike_message
  unlike_lem now info n w other liked known =
      let t = find_cell-At h r.like_number p a cs n.chain n.found in
      let ne : (p == nil) ≡ false = ground (arith, t.not_nil) in
      rw
        (
          n.bounds,
          find_lem r g h cs p a n,
          ne,
          load_message_lem h p t.not_nil t.cell a.1 refl,
          other,
          liked,
        )
        (perform-Settled (negsuc 0) now info n w known)

set_at-set_at :
    (p : Ptr) (f f' : Payload → Payload) (cs : Cells)
    → set_at p f (set_at p f' cs) ≡ set_at p (λ b. f (f' b)) cs
unfolding set_at
set_at-set_at p f f' [] = refl
set_at-set_at p f f' ((q, a) ∷ cs) = elim (Bool-cases (q == p)) [
  | inl e ↦ rw (e, e) refl
  | inr e ↦ rw (e, e) (ap (◌∷◌ (q, a)) (set_at-set_at p f f' cs))
]

-- The server after a like that was taken back: but for the message's map of likes and its activities,
-- the list is as it was, and the user may like the message again.
pub record Restored (r : ClientRequest) (g : Group) (cs : Cells) (p : Ptr) (a : Payload)
    (out : Liked) (k : Heap) : Type 0 where
  pub succeeded : out.success ≡ true
  pub message_list : out.group.message_list ≡ g.message_list
  pub change : Payload → Payload
  pub names : Names r out.group k (set_at p change cs) p (change a)
  pub same : change a ≡ (
    a.0,
    record a.1 { user_like = (change a).1.user_like; activity_list = (change a).1.activity_list },
  )
  pub activities : LinkedList
  pub acts : Activities
  pub owns : HasActivities (change a).1 k (set_at p change cs) activities acts
  pub may_like : MayLike r.user_name (change a).1

abbrev with_total : Payload → LinkedList → Str → ℤ → Payload
with_total a l u total = (
  a.0,
  record a.1 {
    total_like = total;
    user_like = insert u (negsuc 0) (insert u (pos 1) a.1.user_like);
    activity_list = some l;
  },
)

module _ (string_me : Str) (r : ClientRequest) (g : Group) (h : Heap) (cs : Cells) (p : Ptr)
    (a : Payload) (l : LinkedList) (acts : Activities) where
  restored :
      (mid : Liked) (k : Heap) (out : Liked) (k' : Heap)
      → beq_str a.1.creator r.user_name ≡ false
      → a.1.total_like <ℤ pos 2147483647
      → negsuc 2147483647 ≤ℤ a.1.total_like
      → (s : Settled string_me r g cs p a (pos 1) mid k)
      → Settled string_me r mid.group
          (set_at p (liked_payload r.user_name (pos 1) s.activities) cs)
          p
          (liked_payload r.user_name (pos 1) s.activities a)
          (negsuc 0)
          out
          k'
      → Restored r g cs p a out k'
  restored mid k out k' other top bottom s u =
      let f = λ (b : Payload). liked_payload r.user_name (pos 1) s.activities b in
      let f' = λ (b : Payload). liked_payload r.user_name (negsuc 0) u.activities b in
      let e : set_at p f' (set_at p f cs) ≡ set_at p (λ b. f' (f b)) cs = set_at-set_at p f' f cs in
      record {
        succeeded = u.succeeded;
        message_list = u.message_list ∙ s.message_list;
        change = λ b. f' (f b);
        names = subst (λ ds. Names r out.group k' ds p (f' (f a))) e u.names;
        same = ap (with_total a u.activities r.user_name) (dec32-inc32 a.1.total_like top bottom);
        activities = u.activities;
        acts = u.acts;
        owns = subst (λ ds. HasActivities (f' (f a)).1 k' ds u.activities u.acts) e u.owns;
        may_like = record {
          other = other;
          none_stands =
              inr (negsuc 0, lookup-insert_self r.user_name (negsuc 0) (f a).1.user_like, refl);
        };
      }

  -- A user who may like the message of his request likes it, and then takes the like back: both requests
  -- succeed. The list is then as it was, the message's sum of likes too, but for the message's map of
  -- likes and its activities, and the user may like it again, if the sum was not the largest int32.
  pub unlike_message-like_message :
      (now later : Time) (info : Information)
      → Names r g h cs p a
      → HasActivities a.1 h cs l acts
      → MayLike r.user_name a.1
      → lookup string_me g.replica_info ≡ some info
      → a.1.total_like <ℤ pos 2147483647
      → negsuc 2147483647 ≤ℤ a.1.total_like
      → Returns
          (λ out k.
            (out.success ≡ true)
            × Returns (Restored r g cs p a) (unlike_message string_me r out.group later k))
          (like_message string_me r g now h)
  unlike_message-like_message now later info n w may known top bottom =
      may_like string_me r g h cs p a l acts now n may (
        Returns.weaken (perform-Settled string_me r g h cs p a l acts (pos 1) now info n w known)
          λ mid k s. (
            s.succeeded,
            Returns.weaken
                (unlike_lem string_me r mid.group k
                  (set_at p (liked_payload r.user_name (pos 1) s.activities) cs) p
                  (liked_payload r.user_name (pos 1) s.activities a) s.activities s.acts later
                  s.info s.names s.owns may.other
                  (lookup-insert_self r.user_name (pos 1) a.1.user_like) s.known)
                λ out k' u. restored mid k out k' may.other top bottom s u,
          ))
