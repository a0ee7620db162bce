-- ===== src/ChatServer/Conversation.antt =====
-- A conversation at two servers (chat_system/chat/chatserver.go and replica.go), of which each sends what
-- its clients say to the other, and nothing is lost or overtaken.
use selected_course_projects.Prelude.{
  ℕ, suc, ◌+◌, ◌<◌, ◌≡◌, refl, sym, subst, true, false, List, [], ◌∷◌, length, arith,
}
use selected_course_projects.Prelude.Int.{ℤ}
use selected_course_projects.Prelude.Map.{lookup}
use selected_course_projects.Prelude.Text.{Str, str_eq, beq_str}
use selected_course_projects.Exec.{Run, ok, panic, out_of_fuel, Exec, pure, ◌>>=◌}
use selected_course_projects.Exec.Returns
use selected_course_projects.Exec.Returns.{Returns, returns}
use selected_course_projects.Data.{Group, ClientRequest}
use selected_course_projects.Heap.{Heap, need}
use selected_course_projects.Placement.{insertion_message}
use selected_course_projects.ChatServer.{append_message}
use selected_course_projects.ChatServer.Events.{View, hear, spoken}
use selected_course_projects.ChatServer.Together.{Together, append_message-Together}
use selected_course_projects.ChatRoom.Sending.{appended}

-- the heaps of the two servers
abbrev pub Heaps : Type 0
Heaps = Heap × Heap

module _ {A : Type 0} where
  abbrev on_left : Heap → Run Heap A → Run Heaps A
  on_left h' (ok a k) = ok a (k, h')
  on_left h' panic = panic
  on_left h' out_of_fuel = out_of_fuel

  abbrev on_right : Heap → Run Heap A → Run Heaps A
  on_right h (ok a k) = ok a (h, k)
  on_right h panic = panic
  on_right h out_of_fuel = out_of_fuel

  on_left-Returns :
      {P : A → Heap → Type 0} (h' : Heap) {run : Run Heap A}
      → Returns P run
      → Returns (λ a k. P a k.0 × (k.1 ≡ h')) (on_left h' run)
  on_left-Returns h' (returns p) = returns (p, refl)

  on_right-Returns :
      {P : A → Heap → Type 0} (h : Heap) {run : Run Heap A}
      → Returns P run
      → Returns (λ a k. P a k.1 × (k.0 ≡ h)) (on_right h run)
  on_right-Returns h (returns p) = returns (p, refl)

-- A client says a message at one server, whose request is inserted at the other.
unfoldable pub relay :
    (me : ℤ) → (string_me : Str) → ClientRequest → Group → Group → Exec Heaps (Group × Group)
unfolding need
relay me string_me r g g' = do
  (g1, m) ← (λ h. on_left h.1 (append_message me string_me r g h.0))
  info ← need (lookup string_me g1.replica_info)
  out ← (λ h. on_right h.0 (insertion_message true (appended me string_me r g1 m info) g' h.1))
  pure (g1, out.group)

-- the two servers in the other order
abbrev turned : Run Heaps (Group × Group) → Run Heaps (Group × Group)
turned (ok g h) = ok (g.1, g.0) (h.1, h.0)
turned panic = panic
turned out_of_fuel = out_of_fuel

turned-Returns :
    {P : Group × Group → Heaps → Type 0} {run : Run Heaps (Group × Group)}
    → Returns P run
    → Returns (λ g h. P (g.1, g.0) (h.1, h.0)) (turned run)
turned-Returns (returns p) = returns p

-- what is said, and at which of the servers
pub data Turn : Type 0 where
  at_first : ClientRequest → Turn
  at_second : ClientRequest → Turn

Together-sym :
    {n : ℕ} {a b : Str} {v : View} {g g' : Group} {h h' : Heap}
    → Together n a b v g h g' h'
    → Together n b a v g' h' g h
Together-sym t = record {
  first = t.second;
  second = t.first;
  order = t.order;
  lamport = t.lamport;
  count = t.count;
  from_first = t.from_second;
  from_second = t.from_first;
}

relay-Together :
    (me other : ℤ) (a b : Str) (r : ClientRequest) (n : ℕ) (v : View) (g g' : Group) (h h' : Heap)
    → Together n a b v g h g' h'
    → n < 2147483646
    → beq_str a b ≡ false
    → Returns
        (λ gs hs. Together (suc n) a b (hear me (spoken r) v) gs.0 hs.0 gs.1 hs.1)
        (relay me a r g g' (h, h'))
unfolding relay need
relay-Together me other a b r n v g g' h h' t room apart =
    Returns.bind
      (on_left-Returns h' (append_message-Together me other a b r n v g g' h h' t room apart))
      λ out hs ((info, known, inserted), same).
        let v' : View = hear me (spoken r) v in
        let q : ClientRequest = appended me a r out.0 out.1 info in
        let inserted' : Returns (λ o k. Together (suc n) a b v' out.0 hs.0 o.group k)
            (insertion_message true q g' hs.1) =
          subst
            (λ x.
              Returns (λ o k. Together (suc n) a b v' out.0 hs.0 o.group k)
                (insertion_message true q g' x))
            (sym same) inserted in
        rw known (
          Returns.bind (on_right-Returns hs.0 inserted') λ o ks (together, same').
            returns
              (subst (λ x. Together (suc n) a b v' out.0 x o.group ks.1) (sym same') together))

module _ (me other : ℤ) (a b : Str) where
  unfoldable pub converse : List Turn → Group → Group → Exec Heaps (Group × Group)
  unfolding relay
  converse [] g g' = pure (g, g')
  converse (at_first r ∷ ts) g g' = do (g1, g2) ← relay me a r g g'; converse ts g1 g2
  converse (at_second r ∷ ts) g g' = do
    (g1, g2) ← (λ h. turned (relay other b r g' g (h.1, h.0)))
    converse ts g1 g2

  -- what both have heard
  abbrev pub heard : List Turn → View → View
  heard [] v = v
  heard (at_first r ∷ ts) v = heard ts (hear me (spoken r) v)
  heard (at_second r ∷ ts) v = heard ts (hear other (spoken r) v)

  longer :
      (v : View) (ts : List Turn) (n : ℕ) {run : Run Heaps (Group × Group)}
      → Returns (λ gs hs. Together (suc n + length ts) a b (heard ts v) gs.0 hs.0 gs.1 hs.1) run
      → Returns (λ gs hs. Together (n + suc (length ts)) a b (heard ts v) gs.0 hs.0 gs.1 hs.1) run
  longer v ts n {run} =
      subst (λ k. Returns (λ gs hs. Together k a b (heard ts v) gs.0 hs.0 gs.1 hs.1) run)
        (omega arith)

  -- The servers stay together through a conversation, whatever is said and whoever says it: nothing panics,
  -- and both have all that was said, in one order and under the same numbers, as long as the numbers stay
  -- int32.
  pub converse-Together :
      (ts : List Turn) (n : ℕ) (v : View) (g g' : Group) (h h' : Heap)
      → Together n a b v g h g' h'
      → n + length ts < 2147483647
      → beq_str a b ≡ false
      → beq_str b a ≡ false
      → Returns
          (λ gs hs. Together (n + length ts) a b (heard ts v) gs.0 hs.0 gs.1 hs.1)
          (converse ts g g' (h, h'))
  unfolding converse
  converse-Together [] n v g g' h h' t room apart apart' =
      returns (subst (λ k. Together k a b v g h g' h') (omega arith) t)
  converse-Together (at_first r ∷ ts) n v g g' h h' t room apart apart' =
      Returns.bind (relay-Together me other a b r n v g g' h h' t (omega arith) apart) λ gs hs t'.
        longer (hear me (spoken r) v) ts n (
          converse-Together ts (suc n) (hear me (spoken r) v) gs.0 gs.1 hs.0 hs.1 t' (omega arith)
            apart apart')
  converse-Together (at_second r ∷ ts) n v g g' h h' t room apart apart' =
      Returns.bind
        (turned-Returns
          (relay-Together other me b a r n v g' g h' h (Together-sym t) (omega arith) apart'))
        λ gs hs t'. longer (hear other (spoken r) v) ts n (
          converse-Together ts (suc n) (hear other (spoken r) v) gs.0 gs.1 hs.0 hs.1
            (Together-sym t') (omega arith) apart apart')
