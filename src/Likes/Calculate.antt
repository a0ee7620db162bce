-- ===== src/Likes/Calculate.antt =====
-- CalculateLike: what it returns and what it writes.
use selected_course_projects.Prelude.{
  ℕ, zero, suc, ◌+◌, ◌<◌, ◌≡◌, ◌≢◌, refl, sym, subst, ap, ◌∙◌, false, Option, none, some, List, [],
  ◌∷◌, arith, length, ◌==◌,
}
use selected_course_projects.Prelude.Int.{ℤ, pos}
use selected_course_projects.Prelude.Map.{Map, lookup}
use selected_course_projects.Prelude.Text.{Str, str_eq}
use selected_course_projects.Exec.Returns
use selected_course_projects.Exec.Returns.{Returns, returns}
use selected_course_projects.Data.{Ptr, nil, Node, LinkedList, Activity, Message}
use selected_course_projects.Heap.{Heap, write}
use selected_course_projects.Heap.Access.{
  need_lem, load_lem, load_message_lem, store_message_lem, load_activity_lem,
}
use selected_course_projects.Heap.Chain.{Chain, first}
use selected_course_projects.Likes.{calculate_like, calculate_like_loop, count_like}
use selected_course_projects.Likes.Counting.{IsLike, likers, AllLikes, opinion, count_like-Counted}

-- A node of an activity list: those that Append made have an empty message.
abbrev pub activity_node : Activity × Option Message → Ptr → Node
activity_node (a, m) next = record { activity = some a; message = m; next = next }

abbrev pub Activities : Type 0
Activities = List (Ptr × (Activity × Option Message))

abbrev pub activities : Activities → List Activity
activities [] = []
activities ((p, (a, m)) ∷ cs) = a ∷ activities cs

abbrev pub LikesOnly : Activities → Type 0
LikesOnly [] = Unit {0}
LikesOnly ((p, (a, m)) ∷ cs) = IsLike a.like × LikesOnly cs

record Summed (h : Heap) (cs : Activities) (m : Map Str ℤ) (out : Map Str ℤ × ℤ) (k : Heap)
    : Type 0 where
  heap : k ≡ h
  sum : out.1 ≡ pos (likers out.0)
  opinions : (u : Str) → lookup u out.0 ≡ opinion u (activities cs) (lookup u m)

calculate_like_loop_lem :
    (k : ℕ) (h : Heap) (cs : Activities) (m : Map Str ℤ) (sum : ℤ)
    → Chain activity_node h cs
    → LikesOnly cs
    → length cs < k
    → AllLikes m
    → sum ≡ pos (likers m)
    → likers m + length cs < 2147483647
    → Returns (Summed h cs m) (calculate_like_loop k (first cs) m sum h)
unfolding calculate_like_loop
calculate_like_loop_lem zero h cs m sum c o lt all s fits = absurd (omega arith)
calculate_like_loop_lem (suc k) h [] m sum c o lt all s fits =
    returns (record { heap = refl; sum = s; opinions = λ u. refl })
calculate_like_loop_lem (suc k) h ((p, (a, b)) ∷ cs) m sum c o lt all s fits =
    let ne : (p == nil) ≡ false = ground arith in
    let t = count_like-Counted a m sum o.0 all s (omega arith) in
    rw (ne, load_activity_lem h p c.0 c.2 a refl, load_lem h p c.0 c.2)
      (Returns.weaken
        (calculate_like_loop_lem k h cs (count_like a m sum).0 (count_like a m sum).1 c.4 o.1
          (omega arith) t.all t.sum (omega (arith, t.bound)))
        λ out g v. record {
          heap = v.heap;
          sum = v.sum;
          opinions = λ u. v.opinions u ∙ ap (opinion u (activities cs)) (t.opinions u);
        })

-- the map that is written, and the number that is returned
pub record Calculated (h : Heap) (p : Ptr) (n : Node) (m : Message) (cs : Activities) (total : ℤ)
    (k : Heap) : Type 0 where
  pub user_like : Map Str ℤ
  pub opinions : (u : Str) → lookup u user_like ≡ opinion u (activities cs) none
  pub heap : k ≡ write h p (record n { message = some (record m { user_like = user_like }) })
  pub sum : total ≡ pos (likers user_like)

-- CalculateLike returns, when the list of the message's activities is well formed and has only
-- likes of 1 and -1. The message's map then holds what each user thinks of it after his activities
-- in the order of the list, nothing else changes, and the result is the number of users whose like
-- stands.
pub calculate_like-likers :
    (h : Heap) (p : Ptr) (n : Node) (m : Message) (l : LinkedList) (cs : Activities)
    → p ≢ nil
    → h.cell p ≡ some n
    → n.message ≡ some m
    → m.activity_list ≡ some l
    → Chain activity_node h cs
    → l.head ≡ first cs
    → LikesOnly cs
    → length cs < h.fresh
    → length cs < 2147483647
    → Returns (Calculated h p n m cs) (calculate_like p h)
unfolding calculate_like lookup
calculate_like-likers h p n m l cs ne at em el c hd o room fits =
    let loop : Returns (Summed h cs []) (calculate_like_loop h.fresh l.head [] (pos 0) h) =
      subst (λ (q : Ptr). Returns (Summed h cs []) (calculate_like_loop h.fresh q [] (pos 0) h))
        (sym hd) (calculate_like_loop_lem h.fresh h cs [] (pos 0) c o room tt refl (omega arith)) in
    rw (load_message_lem h p ne at m em, need_lem m.activity_list l h el)
      (Returns.bind loop λ out k v.
        rw (v.heap, store_message_lem h p ne at (record m { user_like = out.0 }))
          (returns (record { user_like = out.0; opinions = v.opinions; heap = refl; sum = v.sum })))
