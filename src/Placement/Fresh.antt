-- ===== src/Placement/Fresh.antt =====
-- The indexes of the messages that a group is still to receive (Insertion of chat_system/chat/replica.go).
use mathlib.Core.Option.{some-injective}
use selected_course_projects.Prelude.{
  ◌≡◌, refl, sym, subst, ap, ◌∙◌, ◌⊎◌, true, false, some, List, [], ◌∷◌, inl, inr, arith,
  Bool-cases,
}
use selected_course_projects.Prelude.Int.{pos, inc32, eqb_ℤ, leb_ℤ, ◌≤ℤ◌}
use selected_course_projects.Prelude.Map.{lookup, lookup-insert}
use selected_course_projects.Prelude.Text.{Str, str_eq, beq_str, beq_str_iff}
use selected_course_projects.Data.{Ptr, Information, Group, ClientRequest}
use selected_course_projects.Placement.{Inserted, record_message}
use selected_course_projects.Placement.Acknowledge.{acknowledged}
use selected_course_projects.Placement.Received.{Acknowledges}

-- The group has a record of the request's server, in which what is acknowledged is not negative and below
-- the request's index.
abbrev pub Fresh : ClientRequest → Group → Type 0
Fresh r g =
    (i : Information) × (lookup r.from_server g.replica_info ≡ some i)
    × (pos 0 ≤ℤ i.msg_timestamp)
    × (leb_ℤ r.map_index i.msg_timestamp ≡ false)

-- Two requests of one server have different indexes.
abbrev pub Apart : ClientRequest → ClientRequest → Type 0
Apart r q = beq_str r.from_server q.from_server ≡ true → eqb_ℤ r.map_index q.map_index ≡ false

-- an index after another one of the same server has been acknowledged
next_fresh :
    (r q : ClientRequest) (p : Ptr) (i : Information)
    → pos 0 ≤ℤ i.msg_timestamp
    → leb_ℤ r.map_index i.msg_timestamp ≡ false
    → leb_ℤ q.map_index i.msg_timestamp ≡ false
    → eqb_ℤ r.map_index q.map_index ≡ false
    → (pos 0 ≤ℤ (record_message r p i).msg_timestamp)
      × (leb_ℤ q.map_index (record_message r p i).msg_timestamp ≡ false)
unfolding record_message inc32
next_fresh r q p i z a b d = ground arith

-- After a message has been acknowledged, the others are still to come.
pub acknowledged-Fresh :
    (r q : ClientRequest) (g : Group) (out : Inserted)
    → Fresh r g
    → Apart r q
    → Acknowledges true r g out
    → Fresh q g
    → Fresh q out.group
unfolding acknowledged
acknowledged-Fresh r q g out (i, e, z, a) apart (acks, _) (j, f, y, b) =
    let i' = record_message r out.node i in
    let whole = λ (s : Str). ap (lookup s) acks in
    let put = lookup-insert r.from_server q.from_server i' g.replica_info in
    elim (Bool-cases (beq_str r.from_server q.from_server)) [
      | inl c ↦
          let f' : lookup q.from_server g.replica_info ≡ some i =
            subst (λ s. lookup s g.replica_info ≡ some i)
              ((beq_str_iff r.from_server q.from_server).0 c) e in
          let b' : leb_ℤ q.map_index i.msg_timestamp ≡ false =
            subst (λ (x : Information). leb_ℤ q.map_index x.msg_timestamp ≡ false)
              (some-injective j i (sym f ∙ f')) b in
          let next = next_fresh r q out.node i z a b' (apart c) in
          (i', whole q.from_server ∙ rw (acknowledged, e, put, c) refl, next.0, next.1)
      | inr c ↦ (j, whole q.from_server ∙ rw (acknowledged, e, put, c) f, y, b)
    ]

-- All of some requests are fresh.
abbrev pub AllFresh : List ClientRequest → Group → Type 0
AllFresh [] g = Unit {0}
AllFresh (q ∷ qs) g = Fresh q g × AllFresh qs g

-- A request is apart from all of some others.
abbrev pub ApartFrom : ClientRequest → List ClientRequest → Type 0
ApartFrom r [] = Unit {0}
ApartFrom r (q ∷ qs) = Apart r q × ApartFrom r qs

-- No two requests have the index of one message of a server.
abbrev pub AllApart : List ClientRequest → Type 0
AllApart [] = Unit {0}
AllApart (r ∷ rs) = ApartFrom r rs × AllApart rs

-- The group afterwards: as it was, or with the index acknowledged.
pub step-Fresh :
    (r q : ClientRequest) (g : Group) (out : Inserted)
    → Fresh r g
    → Apart r q
    → (out.group ≡ g) ⊎ Acknowledges true r g out
    → Fresh q g
    → Fresh q out.group
step-Fresh r q g out f apart (inl same) f' = subst (Fresh q) (sym same) f'
step-Fresh r q g out f apart (inr acks) f' = acknowledged-Fresh r q g out f apart acks f'

pub step-AllFresh :
    (r : ClientRequest) (qs : List ClientRequest) (g : Group) (out : Inserted)
    → Fresh r g
    → ApartFrom r qs
    → (out.group ≡ g) ⊎ Acknowledges true r g out
    → AllFresh qs g
    → AllFresh qs out.group
step-AllFresh r [] g out f apart a fs = tt
step-AllFresh r (q ∷ qs) g out f apart a fs =
    (step-Fresh r q g out f apart.0 a fs.0, step-AllFresh r qs g out f apart.1 a fs.1)
