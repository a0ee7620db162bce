-- ===== src/Likes/Grown.antt =====
-- The list of activities after PerformingLike (chat_system/chat/HelperFunction.go).
use mathlib.Core.Option.{some-injective}
use selected_course_projects.Prelude.{
  ◌≡◌, refl, sym, ap, ◌∙◌, true, false, Option, some, [], ◌∷◌, ◌++◌, arith, ◌==◌, ==_iff, subst,
}
use selected_course_projects.Data.{Ptr, Node, LinkedList, Activity, Message}
use selected_course_projects.Heap.{Heap}
use selected_course_projects.Heap.Chain.{
  Chain, Chain-set_at, set_at, set_at-append, first, has, ne_of_mem_sym, first-set_at,
}
use selected_course_projects.Heap.Cut.{upto, has-upto, has-upto-false}
use selected_course_projects.LinkedList.{zero_message}
use selected_course_projects.LinkedList.Append.{Appended, appended, zero_node}
use selected_course_projects.Likes.Calculate.{activity_node, Activities}

has-append_last :
    (c : Ptr × (Activity × Option Message)) (cs : Activities) → has c.0 (cs ++ c ∷ []) ≡ true
has-append_last c [] = ground (arith, (==_iff c.0 c.0).1 refl)
has-append_last c (d ∷ cs) = ground (arith, has-append_last c cs)

-- the activities up to the tail, and then one more
abbrev pub grown : Heap → LinkedList → Activities → Activity → Activities
grown h l acts a = upto l.tail acts ++ (h.fresh, (a, some zero_message)) ∷ []

-- the list with the new activity
pub record Grown (h : Heap) (l : LinkedList) (acts : Activities) (a : Activity) (l' : LinkedList)
    (k : Heap) : Type 0 where
  pub chain : Chain activity_node k (grown h l acts a)
  pub head : l'.head ≡ first (grown h l acts a)
  pub tail : has l'.tail (grown h l acts a) ≡ true

-- the payload of the new node, with its activity
abbrev with_activity : Activity → Activity × Option Message → Activity × Option Message
with_activity a b = (a, b.1)

abbrev renewed : Activity → Node → Option Node
renewed a n = some (record n { activity = some a })

-- The list that Append leaves, after the writes to the message's node and to the new activity.
pub Appended-Grown :
    (h : Heap) (l : LinkedList) (acts : Activities) (zero : Activity) (a : Activity)
    (out : Ptr × LinkedList) (k k' : Heap) (line : Ptr)
    → Appended activity_node (zero, some zero_message) h l acts out k
    → has line acts ≡ false
    → has h.fresh acts ≡ false
    → (line == h.fresh) ≡ false
    → k'.fresh ≡ k.fresh
    → k'.cell h.fresh ≡ some (record zero_node { activity = some a })
    → ((q : Ptr) → (q == line) ≡ false → (q == h.fresh) ≡ false → k'.cell q ≡ k.cell q)
    → Grown h l acts a out.1 k'
Appended-Grown h l acts zero a _ k k' line
      (appended chain head tail start count fr outside keep new) apart free ne fr' at same =
    let cs : Activities = upto l.tail acts in
    let moved : set_at h.fresh (with_activity a) (cs ++ (h.fresh, (zero, some zero_message)) ∷ [])
        ≡ grown h l acts a =
      set_at-append h.fresh (with_activity a) (zero, some zero_message) cs
        (has-upto-false h.fresh l.tail acts free) in
    record {
      chain = subst (Chain activity_node k') moved (
          Chain-set_at activity_node k k' h.fresh (with_activity a)
            (cs ++ (h.fresh, (zero, some zero_message)) ∷ []) chain (omega arith)
            (λ q i d.
              same q
                (ne_of_mem_sym line q (cs ++ (h.fresh, (zero, some zero_message)) ∷ [])
                  (has-upto line l.tail h.fresh (zero, some zero_message) acts apart (ground arith))
                  i)
                d)
            (λ b e at'.
              at ∙ ap (renewed a) (some-injective zero_node (activity_node b e) (sym new ∙ at'))));
      head =
          head
          ∙ sym (
              first-set_at h.fresh (with_activity a)
                (cs ++ (h.fresh, (zero, some zero_message)) ∷ []))
          ∙ ap (λ (x : Activities). first x) moved;
      tail = rw tail (has-append_last (h.fresh, (a, some zero_message)) cs);
    }
