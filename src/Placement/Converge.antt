-- ===== src/Placement/Converge.antt =====
-- Merges of several requests: the same request twice, and requests in different orders.
use mathlib.Core.List.{Permᴰ}
use selected_course_projects.Prelude.{
  ◌≡◌, refl, sym, ap, subst, ◌∙◌, true, false, List, [], ◌∷◌, inl, inr, ◌⊎◌, Bool-cases,
}
use selected_course_projects.Prelude.Int.{pos}
use selected_course_projects.Data.{Message, ClientRequest}
use selected_course_projects.LinkedList.Reorder.{number}
use selected_course_projects.Placement.Merge.{known, update, insert_message, merge}
use selected_course_projects.Placement.Commute.{
  same_message, insert_message-number, update-number, known-number, known-update,
  known-insert_message, known-insert_message_self, same_message-sym, update-update,
  update-insert_message, insert_message-insert_message, update-insert_message_self,
  update-update_self,
}

-- A request that is merged a second time changes nothing.
pub merge-idempotent : (r : ClientRequest) (ms : List Message) → merge r (merge r ms) ≡ merge r ms
unfolding merge
merge-idempotent r ms = elim (Bool-cases (known r ms)) [
  | inl e ↦ rw (e, known-update r r ms, e) (update-update_self r ms)
  | inr e ↦
      rw (e, known-number r (pos 0) (insert_message r ms), known-insert_message_self r ms)
        (update-insert_message_self r (pos 0) ms e)
]

-- After a merge the request's message is known.
pub known-merge_self : (r : ClientRequest) (ms : List Message) → known r (merge r ms) ≡ true
unfolding merge
known-merge_self r ms = elim (Bool-cases (known r ms)) [
  | inl e ↦ rw (e, known-update r r ms, e) refl
  | inr e ↦ rw (e, known-number r (pos 0) (insert_message r ms)) (known-insert_message_self r ms)
]

known-merge :
    (r s : ClientRequest) (ms : List Message)
    → same_message r s ≡ false
    → known r (merge s ms) ≡ known r ms
unfolding merge
known-merge r s ms a = elim (Bool-cases (known s ms)) [
  | inl e ↦ rw e (known-update r s ms)
  | inr e ↦ rw e (known-number r (pos 0) (insert_message s ms) ∙ known-insert_message r s ms a)
]

merge_of_known :
    (r : ClientRequest) (ms : List Message) → known r ms ≡ true → merge r ms ≡ update r ms
unfolding merge
merge_of_known r ms e = rw e refl

merge_of_new :
    (r : ClientRequest) (ms : List Message)
    → known r ms ≡ false
    → merge r ms ≡ number (pos 0) (insert_message r ms)
unfolding merge
merge_of_new r ms e = rw e refl

update-merge :
    (r s : ClientRequest) (ms : List Message)
    → same_message r s ≡ false
    → known r ms ≡ true
    → known s ms ≡ false
    → merge r (merge s ms) ≡ merge s (merge r ms)
update-merge r s ms a e f =
    merge_of_known r (merge s ms) (known-merge r s ms a ∙ e)
    ∙ ap (update r) (merge_of_new s ms f)
    ∙ update-number r (pos 0) (insert_message s ms)
    ∙ ap (number (pos 0)) (update-insert_message r s ms a)
    ∙ ap (λ (x : List Message). number (pos 0) (insert_message s x)) (sym (merge_of_known r ms e))
    ∙ sym (merge_of_new s (merge r ms) (known-merge s r ms (same_message-sym r s a) ∙ f))

merge_both_known :
    (r s : ClientRequest) (ms : List Message)
    → same_message r s ≡ false
    → known r ms ≡ true
    → known s ms ≡ true
    → merge r (merge s ms) ≡ update r (update s ms)
merge_both_known r s ms a e f =
    merge_of_known r (merge s ms) (known-merge r s ms a ∙ e) ∙ ap (update r) (merge_of_known s ms f)

merge_both_new :
    (r s : ClientRequest) (ms : List Message)
    → same_message r s ≡ false
    → known r ms ≡ false
    → known s ms ≡ false
    → merge r (merge s ms) ≡ number (pos 0) (insert_message r (insert_message s ms))
merge_both_new r s ms a e f =
    merge_of_new r (merge s ms) (known-merge r s ms a ∙ e)
    ∙ ap (λ (x : List Message). number (pos 0) (insert_message r x)) (merge_of_new s ms f)
    ∙ insert_message-number r (pos 0) (pos 0) (insert_message s ms)

-- Requests for different messages can be merged in either order.
pub merge_comm :
    (r s : ClientRequest) (ms : List Message)
    → same_message r s ≡ false
    → merge r (merge s ms) ≡ merge s (merge r ms)
merge_comm r s ms a =
    let b = same_message-sym r s a in
    elim (Bool-cases (known r ms)) [
      | inl e ↦ elim (Bool-cases (known s ms)) [
        | inl f ↦
            merge_both_known r s ms a e f
            ∙ update-update r s ms a
            ∙ sym (merge_both_known s r ms b f e)
        | inr f ↦ update-merge r s ms a e f
      ]
      | inr e ↦ elim (Bool-cases (known s ms)) [
        | inl f ↦ sym (update-merge s r ms b f e)
        | inr f ↦
            merge_both_new r s ms a e f
            ∙ ap (number (pos 0)) (insert_message-insert_message r s ms a)
            ∙ sym (merge_both_new s r ms b f e)
      ]
    ]

-- the requests, the first of the list first
unfoldable pub merge_all : List ClientRequest → List Message → List Message
merge_all [] ms = ms
merge_all (r ∷ rs) ms = merge_all rs (merge r ms)

-- Two requests with the same key are one request, which may arrive twice.
abbrev pub Agree : ClientRequest → ClientRequest → Type 0
Agree r s = (same_message r s ≡ false) ⊎ (r ≡ s)

abbrev pub AgreeAll : ClientRequest → List ClientRequest → Type 0
AgreeAll r [] = Unit {0}
AgreeAll r (s ∷ rs) = Agree r s × AgreeAll r rs

abbrev pub Consistent : List ClientRequest → Type 0
Consistent [] = Unit {0}
Consistent (r ∷ rs) = AgreeAll r rs × Consistent rs

Agree-sym : (r s : ClientRequest) → Agree r s → Agree s r
Agree-sym r s (inl a) = inl (same_message-sym r s a)
Agree-sym r s (inr e) = inr (sym e)

AgreeAll-perm :
    (r : ClientRequest) (rs ss : List ClientRequest) → Permᴰ rs ss → AgreeAll r rs → AgreeAll r ss
AgreeAll-perm r _ _ Permᴰ.nil g = tt
AgreeAll-perm r _ _ (Permᴰ.cons e p) g = (subst (Agree r) e g.0, AgreeAll-perm r _ _ p g.1)
AgreeAll-perm r _ _ (Permᴰ.swap e f) g = (subst (Agree r) f g.1.0, (subst (Agree r) e g.0, g.1.1))
AgreeAll-perm r _ _ (Permᴰ.trans p q) g = AgreeAll-perm r _ _ q (AgreeAll-perm r _ _ p g)

Consistent-perm : (rs ss : List ClientRequest) → Permᴰ rs ss → Consistent rs → Consistent ss
Consistent-perm _ _ Permᴰ.nil c = tt
Consistent-perm (a ∷ rs) (b ∷ ss) (Permᴰ.cons e p) c = (
  subst (λ (x : ClientRequest). AgreeAll x ss) e (AgreeAll-perm a rs ss p c.0),
  Consistent-perm rs ss p c.1,
)
Consistent-perm _ _ (Permᴰ.swap {a} {b} {a'} {b'} {l} e f) g = (
  (
    subst (Agree a') e (subst (λ (x : ClientRequest). Agree x a) f (Agree-sym a b g.0.0)),
    subst (λ (x : ClientRequest). AgreeAll x l) f g.1.0,
  ),
  (subst (λ (x : ClientRequest). AgreeAll x l) e g.0.1, g.1.1),
)
Consistent-perm _ _ (Permᴰ.trans p q) c = Consistent-perm _ _ q (Consistent-perm _ _ p c)

merge-swap :
    (r s : ClientRequest) (ms : List Message)
    → Agree r s
    → merge r (merge s ms) ≡ merge s (merge r ms)
merge-swap r s ms (inl a) = merge_comm r s ms a
merge-swap r s ms (inr e) =
    ap (λ (x : ClientRequest). merge x (merge s ms)) e
    ∙ ap (λ (x : ClientRequest). merge s (merge x ms)) (sym e)

-- Servers that receive the same requests, in different orders and some perhaps twice, get the same
-- list of messages, if no two different requests carry the message with one timestamp and replica.
pub merge_all-perm :
    (rs ss : List ClientRequest) (ms : List Message)
    → Permᴰ rs ss
    → Consistent rs
    → merge_all rs ms ≡ merge_all ss ms
unfolding merge_all
merge_all-perm _ _ ms Permᴰ.nil c = refl
merge_all-perm (a ∷ rs) (b ∷ ss) ms (Permᴰ.cons e p) c =
    merge_all-perm rs ss (merge a ms) p c.1
    ∙ ap (λ (x : ClientRequest). merge_all ss (merge x ms)) e
merge_all-perm _ _ ms (Permᴰ.swap {a} {b} {a'} {b'} {l} e f) g = ap (merge_all l) (
    merge-swap b a ms (Agree-sym a b g.0.0)
    ∙ ap (λ (x : ClientRequest). merge a (merge x ms)) f
    ∙ ap (λ (x : ClientRequest). merge x (merge a' ms)) e)
merge_all-perm _ _ ms (Permᴰ.trans p q) c =
    merge_all-perm _ _ ms p c ∙ merge_all-perm _ _ ms q (Consistent-perm _ _ p c)
