-- ===== src/Client/Follow.antt =====
-- The group that the client program (chat_system/client.go) is in, against what it has sent.
use selected_course_projects.Prelude.{
  ◌≡◌, refl, ◌∙◌, inl, inr, ℕ, Bool, true, false, not, ◌&&◌, ◌||◌, Option, none, some, List, [],
  arith, if◌then◌else◌, Bool-cases, get_elem?,
}
use selected_course_projects.Prelude.Int.{pos, negsuc, int_eq, ltb_ℤ, eqb_ℤ}
use selected_course_projects.Prelude.Map.{lookup}
use selected_course_projects.Prelude.Number.{atoi, to_int32}
use selected_course_projects.Prelude.Text.{Str, str, beq_str}
use selected_course_projects.Data.{ClientRequest}
use selected_course_projects.ChatRoom.Follow.{group_after}
use selected_course_projects.Client.Commands.{
  Client, Outcome, goes_on, sends, fatal, panics, open_connection, login, join_group, append_text,
  like_line, unlike_line, print_history, quit, with_argument, send_now, has_joined, on_message,
}

-- The client has joined a group and goes on.
abbrev pub is_member : Client → Bool
is_member c = eqb_ℤ c.current_state (pos 2)

-- For a member, the group is the client's, and there is a connection.
abbrev pub In : Client → Option Str → Type 0
In c group = is_member c ≡ true → (group ≡ some c.current_group) × (c.connection ≡ true)

-- What a round leads to keeps the client in its group, or sends what brings it there.
abbrev pub Follows : (group : Option Str) → Outcome → Type 0
Follows group (goes_on c) = In c group
Follows group (sends r c) = In c (group_after r group)
Follows group fatal = Unit {0}
Follows group panics = Unit {0}

-- a request that neither joins nor switches
abbrev pub plain : Str → Bool
plain word = not (beq_str word (str "j")) && not (beq_str word (str "s"))

plain_lem :
    (r : ClientRequest) (group : Option Str) → plain r.request ≡ true → group_after r group ≡ group
unfolding group_after
plain_lem r group e = ground arith

pub join_group-Follows :
    (g : Str) (c : Client) (group : Option Str) → In c group → Follows group (join_group g c)
unfolding join_group group_after beq_str
join_group-Follows g c group i =
    elim (Bool-cases (not c.connection || ltb_ℤ c.current_state (pos 1))) [
      | inl e ↦ rw e i
      | inr e ↦ elim (Bool-cases (not (beq_str c.current_group []))) [
        | inl b ↦ rw (e, b) (λ _. (refl, ground arith))
        | inr b ↦ rw (e, b) (λ _. (refl, ground arith))
      ]
    ]

module _ (c : Client) (group : Option Str) where
  pub sends-Follows :
      (r : ClientRequest) (c' : Client)
      → plain r.request ≡ true
      → In c' group
      → Follows group (sends r c')
  sends-Follows r c' p i m = (plain_lem r group p ∙ (i m).0, (i m).1)

  pub pick :
      (b : Bool) (x y : Outcome)
      → (b ≡ true → Follows group x)
      → (b ≡ false → Follows group y)
      → Follows group (if b then x else y)
  pick true x y f g = f refl
  pick false x y f g = g refl

  pub send_now-Follows :
      (r : ClientRequest) → plain r.request ≡ true → In c group → Follows group (send_now r c)
  send_now-Follows r p i = pick c.connection _ _ (λ _. sends-Follows r c p i) λ _. tt

  -- a value that may be missing
  pub given :
      {A : Type 0} (o : Option A) (x : Outcome) (f : A → Outcome)
      → Follows group x
      → ((a : A) → Follows group (f a))
      → Follows group (elim o as (λ _. Outcome) [ none ↦ x | some a ↦ f a ])
  given none x f h k = h
  given (some a) x f h k = k a

  pub with_argument-Follows :
      (arguments : List Str) (n : ℕ) (f : Str → Outcome)
      → ((s : Str) → Follows group (f s))
      → Follows group (with_argument arguments n f)
  with_argument-Follows arguments n f k = given (get_elem? arguments n) panics f tt k

  pub login-Follows : (name : Str) → In c group → Follows group (login name c)
  unfolding login beq_str
  login-Follows name i =
      pick (not c.connection) _ _ (λ _. i)
        λ _. elim (Bool-cases (eqb_ℤ c.user_id (negsuc 0))) [
          | inl e ↦ rw e (sends-Follows _ (record c { username = name }) refl i)
          | inr e ↦ rw e (sends-Follows _ (record c { username = name }) refl i)
        ]

  pub append_text-Follows : (text : Str) → In c group → Follows group (append_text text c)
  unfolding append_text beq_str
  append_text-Follows text i = pick (has_joined c) _ _ (λ _. sends-Follows _ c refl i) λ _. i

  pub print_history-Follows : In c group → Follows group (print_history c)
  unfolding print_history beq_str
  print_history-Follows i = pick (has_joined c) _ _ (λ _. sends-Follows _ c refl i) λ _. i

  pub quit-Follows : In c group → Follows group (quit c)
  unfolding quit beq_str
  quit-Follows i =
      pick (not c.connection) _ _ (λ _. i)
        λ _.
          pick (eqb_ℤ c.current_state (pos 0)) _ _ (λ _ m. absurd (ground arith))
            λ _ m. absurd (ground arith)

  pub like_line-Follows : (number : Str) → In c group → Follows group (like_line number c)
  unfolding like_line beq_str
  like_line-Follows number i =
      pick (not (has_joined c)) _ _ (λ _. i)
        λ _.
          pick (not (atoi number).1) _ _ (λ _. tt)
            λ _.
              given (lookup (to_int32 (atoi number).0) c.like_map) (goes_on c)
                (λ id. on_message (str "l") id c) i λ id. sends-Follows _ c refl i

  pub unlike_line-Follows : (number : Str) → In c group → Follows group (unlike_line number c)
  unfolding unlike_line beq_str
  unlike_line-Follows number i =
      pick (not (has_joined c)) _ _ (λ _. i)
        λ _.
          given (lookup (to_int32 (atoi number).0) c.like_map) (goes_on c)
            (λ id. if (atoi number).1 then on_message (str "r") id c else fatal) i
            λ id. pick (atoi number).1 _ _ (λ _. sends-Follows _ c refl i) λ _. tt

  pub open_connection-Follows : In c group → Follows group (goes_on (open_connection c))
  open_connection-Follows i = elim (Bool-cases c.connection) [
    | inl e ↦ rw e (λ m. absurd (ground arith))
    | inr e ↦ rw e (λ m. ((i m).0, refl))
  ]
