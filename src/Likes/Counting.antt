-- ===== src/Likes/Counting.antt =====
-- What one round of CalculateLike does to the map of likes and to the sum.
use selected_course_projects.Prelude.{
  ℕ, suc, ◌+◌, ◌<◌, ◌≤◌, ◌≡◌, refl, sym, ap, subst, ◌∙◌, true, false, Option, none, some, List, [],
  ◌∷◌, arith, inl, inr, ◌⊎◌, Bool-cases, Option-cases, if◌then◌else◌,
}
use selected_course_projects.Prelude.Int.{
  ℤ, pos, negsuc, eqb_ℤ, eqb_ℤ_iff, int_eq, inc32, inc32-pos, add32, wrap32, ◌+ℤ◌,
}
use selected_course_projects.Prelude.Map.{Map, lookup, insert, lookup-insert}
use selected_course_projects.Prelude.Text.{Str, str_eq, beq_str}
use selected_course_projects.Data.{Activity}
use selected_course_projects.Likes.{count_like}

-- A like is 1, and a like taken back is -1.
abbrev pub IsLike : ℤ → Type 0
IsLike v = (v ≡ pos 1) ⊎ (v ≡ negsuc 0)

abbrev pub one : ℤ → ℕ
one v = if eqb_ℤ v (pos 1) then 1 else 0

-- the users whose like stands
abbrev pub likers : Map Str ℤ → ℕ
likers [] = 0
likers ((u, v) ∷ m) = one v + likers m

abbrev pub AllLikes : Map Str ℤ → Type 0
AllLikes [] = Unit {0}
AllLikes ((u, v) ∷ m) = IsLike v × AllLikes m

-- What a user thinks of the message after one more of his activities. It counts from his first like.
abbrev pub reconsider : Activity → Option ℤ → Option ℤ
reconsider a none = if eqb_ℤ a.like (pos 1) then some (pos 1) else none
reconsider a (some v) = some a.like

-- … and after several activities, of his own and of others.
abbrev pub opinion : Str → List Activity → Option ℤ → Option ℤ
opinion u [] o = o
opinion u (a ∷ ls) o = opinion u ls (if beq_str a.user_name u then reconsider a o else o)

lookup_head :
    (u w : Str) (x y : ℤ) (m : Map Str ℤ)
    → beq_str w u ≡ true
    → lookup u ((w, y) ∷ m) ≡ some x
    → y ≡ x
unfolding lookup
lookup_head u w x y m b e = ground arith

lookup_tail :
    (u w : Str) (y : ℤ) (m : Map Str ℤ) → beq_str w u ≡ false → lookup u ((w, y) ∷ m) ≡ lookup u m
unfolding lookup
lookup_tail u w y m b = rw b refl

likers-insert_new :
    (u : Str) (v : ℤ) (m : Map Str ℤ) → lookup u m ≡ none → likers (insert u v m) ≡ one v + likers m
unfolding lookup insert
likers-insert_new u v [] e = refl
likers-insert_new u v ((w, x) ∷ m) e = ground (arith, likers-insert_new u v m)

likers-insert_old :
    (u : Str) (v x : ℤ) (m : Map Str ℤ)
    → lookup u m ≡ some x
    → likers (insert u v m) + one x ≡ one v + likers m
unfolding lookup insert
likers-insert_old u v x [] e = cc
likers-insert_old u v x ((w, y) ∷ m) e = elim (Bool-cases (beq_str w u)) [
  | inl b ↦ rw b (omega (arith, ap one (lookup_head u w x y m b e)))
  | inr b ↦ rw b (omega (arith, likers-insert_old u v x m (sym (lookup_tail u w y m b) ∙ e)))
]

one_le : (v : ℤ) → one v ≤ 1
one_le v = ground arith

AllLikes-insert :
    (u : Str) (v : ℤ) (m : Map Str ℤ) → IsLike v → AllLikes m → AllLikes (insert u v m)
unfolding insert
AllLikes-insert u v [] i a = (i, tt)
AllLikes-insert u v ((w, x) ∷ m) i a = elim (Bool-cases (beq_str w u)) [
  | inl b ↦ rw b (i, a.1)
  | inr b ↦ rw b (a.0, AllLikes-insert u v m i a.1)
]

AllLikes-lookup : (u : Str) (v : ℤ) (m : Map Str ℤ) → lookup u m ≡ some v → AllLikes m → IsLike v
unfolding lookup
AllLikes-lookup u v [] e a = cc
AllLikes-lookup u v ((w, x) ∷ m) e a = elim (Bool-cases (beq_str w u)) [
  | inl b ↦ subst IsLike (lookup_head u w v x m b e) a.0
  | inr b ↦ AllLikes-lookup u v m (sym (lookup_tail u w x m b) ∙ e) a.1
]

add32-like :
    (n m : ℕ) (v x : ℤ)
    → IsLike v
    → IsLike x
    → eqb_ℤ x v ≡ false
    → m + one x ≡ one v + n
    → n < 2147483647
    → add32 (pos n) v ≡ pos m
unfolding add32 wrap32 ◌+ℤ◌
add32-like n m v x (inl i) (inl j) d e lt = absurd (ground arith)
add32-like n m v x (inl i) (inr j) d e lt = ground arith
add32-like n m v x (inr i) (inl j) d e lt = ground arith
add32-like n m v x (inr i) (inr j) d e lt = absurd (ground arith)

-- After one round the map holds what the users think, and the sum is the number of likes in it.
pub record Counted (a : Activity) (m : Map Str ℤ) (out : Map Str ℤ × ℤ) : Type 0 where
  pub sum : out.1 ≡ pos (likers out.0)
  pub all : AllLikes out.0
  pub bound : likers out.0 ≤ suc (likers m)
  pub opinions :
      (u : Str)
      → lookup u out.0 ≡ (if beq_str a.user_name u then reconsider a (lookup u m) else lookup u m)

lookup_same : (u w : Str) (m : Map Str ℤ) → beq_str w u ≡ true → lookup u m ≡ lookup w m
lookup_same u w m b = ap (λ (v : Str). lookup v m) (sym ((str_eq.beq_iff w u).0 b))

-- the opinions, if the round wrote the user's new like, and if it wrote nothing
written :
    (a : Activity) (m : Map Str ℤ) (v : ℤ) (u : Str)
    → reconsider a (lookup a.user_name m) ≡ some v
    → lookup u (insert a.user_name v m)
      ≡ (if beq_str a.user_name u then reconsider a (lookup u m) else lookup u m)
written a m v u e = elim (Bool-cases (beq_str a.user_name u)) [
  | inl b ↦
      lookup-insert a.user_name u v m
      ∙ rw b (sym e ∙ ap (reconsider a) (sym (lookup_same u a.user_name m b)))
  | inr b ↦ lookup-insert a.user_name u v m ∙ rw b refl
]

unwritten :
    (a : Activity) (m : Map Str ℤ) (u : Str)
    → reconsider a (lookup a.user_name m) ≡ lookup a.user_name m
    → lookup u m ≡ (if beq_str a.user_name u then reconsider a (lookup u m) else lookup u m)
unwritten a m u e = elim (Bool-cases (beq_str a.user_name u)) [
  | inl b ↦ rw b (rw (lookup_same u a.user_name m b) (sym e))
  | inr b ↦ rw b refl
]

pub count_like-Counted :
    (a : Activity) (m : Map Str ℤ) (sum : ℤ)
    → IsLike a.like
    → AllLikes m
    → sum ≡ pos (likers m)
    → likers m < 2147483647
    → Counted a m (count_like a m sum)
unfolding count_like
count_like-Counted a m sum i all s lt = elim (Option-cases (lookup a.user_name m)) [
  | inl n ↦ elim (Bool-cases (eqb_ℤ a.like (pos 1))) [
    | inl b ↦
        rw (n, count_like, b)
          (record {
            sum =
                ap inc32 s
                ∙ inc32-pos (likers m) lt
                ∙ ap pos (omega (arith, likers-insert_new a.user_name (pos 1) m n));
            all = AllLikes-insert a.user_name (pos 1) m (inl refl) all;
            bound = omega (arith, likers-insert_new a.user_name (pos 1) m n);
            opinions = λ u. written a m (pos 1) u (rw (n, b) refl);
          })
    | inr b ↦
        rw (n, count_like, b)
          (record {
            sum = s;
            all = all;
            bound = omega arith;
            opinions = λ u. unwritten a m u (rw (n, b) refl);
          })
  ]
  | inr (x, f) ↦ elim (Bool-cases (eqb_ℤ x a.like)) [
    | inl b ↦
        rw (f, count_like, b)
          (record {
            sum = s;
            all = all;
            bound = omega arith;
            opinions = λ u. unwritten a m u (rw f (ap some (sym ((eqb_ℤ_iff x a.like).0 b))));
          })
    | inr b ↦
        let old = likers-insert_old a.user_name a.like x m f in
        rw (f, count_like, b)
          (record {
            sum =
                ap (λ (t : ℤ). add32 t a.like) s
                ∙ add32-like (likers m) (likers (insert a.user_name a.like m)) a.like x i
                    (AllLikes-lookup a.user_name x m f all) b old lt;
            all = AllLikes-insert a.user_name a.like m i all;
            bound = omega (arith, old, one_le a.like);
            opinions = λ u. written a m a.like u (rw f refl);
          })
  ]
]
