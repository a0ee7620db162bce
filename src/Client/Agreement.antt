-- ===== src/Client/Agreement.antt =====
-- The client program (chat_system/client.go) and its connection in ChatRoom
-- (chat_system/chat/chatserver.go): the two agree on the group.
use selected_course_projects.Prelude.{
  ◌≡◌, refl, subst, inl, inr, ℕ, Bool, true, false, Option, List, [], ◌∷◌, ◌++◌, arith,
  if◌then◌else◌, Bool-cases,
}
use selected_course_projects.Prelude.Int.{pos, eqb_ℤ}
use selected_course_projects.Prelude.Text.{Str, str, beq_str}
use selected_course_projects.Exec.{ok}
use selected_course_projects.Exec.Ends.{Ends, at_end}
use selected_course_projects.Data.{ClientRequest, ServerResponse}
use selected_course_projects.Network.{Transport, World}
use selected_course_projects.ChatRoom.{handle}
use selected_course_projects.ChatRoom.Handlers.{Session, new_session}
use selected_course_projects.ChatRoom.Follow.{group_after, handle-Heeds, Heeds}
use selected_course_projects.Client.{Input, command, first_word, receive}
use selected_course_projects.Client.Commands.{Client, start, goes_on, sends, open_connection}
use selected_course_projects.Client.Follow.{is_member, In, Follows}
use selected_course_projects.Client.Following.{command-Follows}

-- the group of a connection once the server has handled some requests
unfoldable pub pending : List ClientRequest → Option Str → Option Str
pending [] group = group
pending (r ∷ rs) group = pending rs (group_after r group)

pending-append :
    (rs : List ClientRequest) (r : ClientRequest) (group : Option Str)
    → pending (rs ++ r ∷ []) group ≡ group_after r (pending rs group)
unfolding pending
pending-append [] r group = refl
pending-append (q ∷ rs) r group = pending-append rs r (group_after q group)

-- A client, its connection's session on the server, the requests that are under way, and the server.
pub record System (W : Type 0) : Type 0 where
  pub client : Client
  pub session : Session
  pub sent : List ClientRequest
  pub world : World W

-- A command that sends a request, one that does not, a new connection, a response, the handling of
-- the request that was sent first, and whatever the other connections do on the server.
pub data Step {W : Type 0} (t : Transport W) (ct : ℕ) : System W → System W → Type 0 where
  asks :
      {s : System W} (input : Input) (arguments : List Str) (r : ClientRequest) (c : Client)
      → beq_str (first_word arguments) (str "sendSame") ≡ false
      → command input arguments s.client ≡ sends r c
      → Step t ct s (record s { client = c; sent = s.sent ++ r ∷ [] })
  goes :
      {s : System W} (input : Input) (arguments : List Str) (c : Client)
      → beq_str (first_word arguments) (str "sendSame") ≡ false
      → beq_str (first_word arguments) (str "c") ≡ false
      → command input arguments s.client ≡ goes_on c
      → Step t ct s (record s { client = c })
  connects :
      {s : System W}
      → Step t ct s
          (record s { client = open_connection s.client; session = new_session; sent = [] })
  hears :
      {s : System W} (resp : ServerResponse)
      → Step t ct s (record s { client = (receive resp s.client).0 })
  handles :
      {s : System W} (r : ClientRequest) (rest : List ClientRequest) (session : Session)
      (w : World W)
      → s.sent ≡ r ∷ rest
      → handle t ct r s.session s.world ≡ ok session w
      → Step t ct s (record s { session = session; sent = rest; world = w })
  elsewhere : {s : System W} (w : World W) → Step t ct s (record s { world = w })

pub data Reach {W : Type 0} (t : Transport W) (ct : ℕ) (s : System W) : System W → Type 0 where
  here : Reach t ct s s
  then_step : {s1 s2 : System W} → Reach t ct s s1 → Step t ct s1 s2 → Reach t ct s s2

-- the client is in the group in which the server will have it once all that was sent is handled
abbrev pub Agrees : {W : Type 0} → System W → Type 0
Agrees s = In s.client (pending s.sent s.session.this_client_group)

In-if :
    (group : Option Str) (b : Bool) (x y : Client × Bool)
    → In x.0 group
    → In y.0 group
    → In (if b then x else y).0 group
In-if group true x y i j = i
In-if group false x y i j = j

receive-In :
    (resp : ServerResponse) (c : Client) (group : Option Str)
    → In c group
    → In (receive resp c).0 group
unfolding receive
receive-In resp c group i = In-if group (beq_str resp.request (str "print")) _ _ i (
    In-if group (beq_str resp.request (str "login")) _ _
      (elim (Bool-cases (eqb_ℤ c.current_state (pos 0))) [
        | inl e ↦ rw e (λ m. absurd (ground arith))
        | inr e ↦ rw e i
      ])
      (In-if group (beq_str resp.request (str "store")) _ _ i i))

-- A client with a new connection is in no group.
open_connection-not_member :
    (c : Client) (group : Option Str) → In c group → is_member (open_connection c) ≡ false
open_connection-not_member c group i = elim (Bool-cases c.connection) [
  | inl e ↦ rw e refl
  | inr e ↦ elim (Bool-cases (is_member c)) [
    | inl m ↦ absurd (ground (arith, e, (i m).1))
    | inr n ↦ rw e n
  ]
]

module _ {W : Type 0} (t : Transport W) (ct : ℕ) where
  Step-Agrees : (s s' : System W) → Agrees s → Step t ct s s' → Agrees s'
  unfolding pending
  Step-Agrees s _ i (asks input arguments r c ns e) =
      rw (pending-append s.sent r s.session.this_client_group) (
        subst (Follows (pending s.sent s.session.this_client_group)) e
          (command-Follows s.client _ input arguments ns i))
  Step-Agrees s _ i (goes input arguments c ns nc e) =
      subst (Follows (pending s.sent s.session.this_client_group)) e
        (command-Follows s.client _ input arguments ns i)
  Step-Agrees s _ i connects =
      λ m. absurd (ground (arith, m, open_connection-not_member s.client _ i))
  Step-Agrees s _ i (hears resp) = receive-In resp s.client _ i
  Step-Agrees s _ i (handles r rest session w q e) =
      let f : session.this_client_group ≡ group_after r s.session.this_client_group =
        at_end (subst (Ends (Heeds t r s.session)) e (handle-Heeds t r s.session ct s.world)) in
      rw f (subst (λ sent. In s.client (pending sent s.session.this_client_group)) q i)
  Step-Agrees s _ i (elsewhere w) = i

  -- However the client's commands, the responses to it, the requests that the server handles and the
  -- other connections interleave, a client that has joined a group is in the group in which the server
  -- has it once what was sent is handled, and there is a connection.
  pub reach-Agrees :
      (world : World W) (s : System W)
      → Reach t ct (record { client = start; session = new_session; sent = []; world = world }) s
      → Agrees s
  unfolding pending
  reach-Agrees world _ here = λ m. absurd (ground arith)
  reach-Agrees world _ (then_step r step) = Step-Agrees _ _ (reach-Agrees world _ r) step
