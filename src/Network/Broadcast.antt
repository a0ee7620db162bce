-- ===== src/Network/Broadcast.antt =====
-- ReplicaBroadcast and ReplicaSetUp of chat_system/chat/replica.go: that they return, and what they
-- leave alone.
use selected_course_projects.Prelude.{
  ℕ, zero, suc, ◌<◌, ◌≡◌, refl, ◌∙◌, false, Bool-cases, Option-cases, some, none, [], ◌∷◌, inl, inr,
  arith,
}
use selected_course_projects.Prelude.Int.{pos}
use selected_course_projects.Prelude.Map.{Map, lookup, insert, lookup-insert, lookup-insert_self}
use selected_course_projects.Prelude.Text.{Str, str, str_eq, beq_str}
use selected_course_projects.Exec.Returns
use selected_course_projects.Exec.{ok}
use selected_course_projects.Exec.Returns.{Returns, returns}
use selected_course_projects.Data.{ClientRequest, blank}
use selected_course_projects.Heap.{need}
use selected_course_projects.Network.{
  Transport, Config, World, reconnect, sending_between_replica, broadcast_to, replica_broadcast,
  connect, replica_set_up,
}
use selected_course_projects.Network.Sending.{HasConfig}

module _ {W : Type 0} where
  -- A step that changes nothing of the server but its connections, and forgets none of them.
  abbrev pub Calm : World W → World W → Type 0
  Calm w w' = (w'.server ≡ w.server) × ((s : Str) → HasConfig s w → HasConfig s w')

  pub Calm-refl : (w : World W) → Calm w w
  Calm-refl w = (refl, λ s k. k)

  pub Calm-trans : (u v w : World W) → Calm u v → Calm v w → Calm u w
  Calm-trans u v w (e, k) (f, l) = (f ∙ e, λ s c. l s (k s c))

  pub put_config-Calm :
      (server : Str) (c : Config) (w : World W)
      → Calm w (record w { stream_set = insert server c w.stream_set })
  put_config-Calm server c w = (
    refl,
    λ s (d, e). elim (Bool-cases (beq_str server s)) [
      | inl b ↦ (c, lookup-insert server s c w.stream_set ∙ rw b refl)
      | inr b ↦ (d, lookup-insert server s c w.stream_set ∙ rw b e)
    ],
  )

  -- all the servers of some connections are in StreamSet
  abbrev pub AllKnown : Map Str Config → World W → Type 0
  AllKnown [] w = Unit {0}
  AllKnown ((s, c) ∷ m) w = HasConfig s w × AllKnown m w

  AllKnown-Calm : (m : Map Str Config) (w w' : World W) → Calm w w' → AllKnown m w → AllKnown m w'
  AllKnown-Calm [] w w' k a = tt
  AllKnown-Calm ((s, c) ∷ m) w w' k (h, a) = (k.1 s h, AllKnown-Calm m w w' k a)

  AllKnown-cons :
      (s : Str) (c : Config) (m n : Map Str Config) (w : World W)
      → AllKnown m (record w { stream_set = n })
      → AllKnown m (record w { stream_set = (s, c) ∷ n })
  unfolding lookup
  AllKnown-cons s c [] n w a = tt
  AllKnown-cons s c ((r, d) ∷ m) n w ((e, h), a) = (
    elim (Bool-cases (beq_str s r)) [ inl b ↦ rw b (c, refl) | inr b ↦ rw b (e, h) ],
    AllKnown-cons s c m n w a,
  )

  stream_set-AllKnown :
      (m : Map Str Config) (w : World W) → AllKnown m (record w { stream_set = m })
  unfolding lookup
  stream_set-AllKnown [] w = tt
  stream_set-AllKnown ((s, c) ∷ m) w = (
    (c, rw ((str_eq.beq_iff s s).1 refl) refl),
    AllKnown-cons s c m m w (stream_set-AllKnown m w),
  )

module _ {W : Type 0} (t : Transport W) where
  reconnect-Calm :
      (server : Str) (r : ClientRequest) (w : World W)
      → HasConfig server w
      → Returns (λ _. Calm w) (reconnect t server r w)
  unfolding reconnect need
  reconnect-Calm server r w (c, e) = rw e (elim (Option-cases (t.open_stream server w.net).0) [
    | inl n ↦ rw n (returns (put_config-Calm server _ w))
    | inr (s, f) ↦ rw f (returns (put_config-Calm server _ w))
  ])

  sending-Calm :
      (server : Str) (stream : ℕ) (r : ClientRequest) (w : World W)
      → HasConfig server w
      → Returns (λ _. Calm w) (sending_between_replica t server stream r w)
  unfolding sending_between_replica
  sending-Calm server stream r w k = elim (Bool-cases (t.send stream r w.net).0) [
    | inl e ↦ rw e (returns (Calm-refl w))
    | inr e ↦ rw e (reconnect-Calm server r (record w { net = (t.send stream r w.net).1 }) k)
  ]

  broadcast_to-Calm :
      (m : Map Str Config) (r : ClientRequest) (w : World W)
      → AllKnown m w
      → Returns (λ _. Calm w) (broadcast_to t m r w)
  unfolding broadcast_to
  broadcast_to-Calm [] r w a = returns (Calm-refl w)
  broadcast_to-Calm ((s, c) ∷ m) r w (h, a) = Returns.bind (sending-Calm s c.stream r w h) λ _ w1 k.
      Returns.weaken (broadcast_to-Calm m r w1 (AllKnown-Calm m w w1 k a))
        λ _ w2 l. Calm-trans w w1 w2 k l

  -- ReplicaBroadcast returns, whatever the network does.
  pub replica_broadcast-Calm :
      (r : ClientRequest) (w : World W) → Returns (λ _. Calm w) (replica_broadcast t r w)
  unfolding replica_broadcast
  replica_broadcast-Calm r w =
      broadcast_to-Calm w.stream_set r w (stream_set-AllKnown w.stream_set w)

  -- The attempt after `k` failures opens a stream.
  abbrev pub OpensAfter : (server : Str) → ℕ → W → Type 0
  OpensAfter server zero n = (s : ℕ) × ((t.open_stream server n).0 ≡ some s)
  OpensAfter server (suc k) n =
      ((t.open_stream server n).0 ≡ none) × OpensAfter server k (t.open_stream server n).1

  -- the stream that the attempt opens
  abbrev pub opened : (server : Str) (k : ℕ) (n : W) → OpensAfter server k n → ℕ
  opened server zero n (s, e) = s
  opened server (suc k) n (e, o) = opened server k (t.open_stream server n).1 o

  -- the world outside after the attempts
  abbrev pub after_attempts : (server : Str) → (k : ℕ) → W → W
  after_attempts server zero n = (t.open_stream server n).1
  after_attempts server (suc k) n = after_attempts server k (t.open_stream server n).1

  connect_lem :
      (server : Str) (k rounds : ℕ) (w : World W) (o : OpensAfter server k w.net)
      → k < rounds
      → connect t rounds server w
        ≡ ok (opened server k w.net o) (record w { net = after_attempts server k w.net })
  unfolding connect
  connect_lem server k zero w o lt = absurd (omega arith)
  connect_lem server zero (suc r) w (s, e) lt = rw e refl
  connect_lem server (suc k) (suc r) w (e, o) lt =
      rw e
        (connect_lem server k r (record w { net = (t.open_stream server w.net).1 }) o (omega arith))

  -- the connection that is kept
  abbrev pub new_config : (stream : ℕ) → Config
  new_config stream = record { stream = stream; last_time = pos 0; is_online = pos 0 }

  -- the request that tells the other server who this one is
  abbrev pub set_up_request : (string_me : Str) → ClientRequest
  set_up_request string_me = record (blank (str "ReplicaSetUp")) { user_name = string_me }

  replica_set_up_lem :
      (server : Str) (k rounds : ℕ) (w : World W) (o : OpensAfter server k w.net)
      → k < rounds
      → replica_set_up t rounds server w
        ≡ ok tt (record w {
          stream_set = insert server (new_config (opened server k w.net o)) w.stream_set;
          net =
              (t.send
                (opened server k w.net o)
                (set_up_request w.server.string_me)
                (after_attempts server k w.net)).1;
        })
  unfolding replica_set_up
  replica_set_up_lem server k rounds w o lt = rw (connect_lem server k rounds w o lt) refl

  -- ReplicaSetUp returns once the other server is there, if the loop has as many rounds as there are failures
  -- and one more. The stream that was opened is then kept under the name of the other server, the request
  -- ReplicaSetUp with this server's name has been sent on it, and nothing else has changed.
  pub replica_set_up-Returns :
      (server : Str) (k rounds : ℕ) (w : World W)
      → (o : OpensAfter server k w.net) → k < rounds
      → Returns
          (λ _ w'.
            (w'.server ≡ w.server)
            × (lookup server w'.stream_set ≡ some (new_config (opened server k w.net o)))
            × ((s : Str)
                → beq_str server s ≡ false
                → lookup s w'.stream_set ≡ lookup s w.stream_set)
            × (w'.net
                ≡ (t.send
                    (opened server k w.net o)
                    (set_up_request w.server.string_me)
                    (after_attempts server k w.net)).1))
          (replica_set_up t rounds server w)
  replica_set_up-Returns server k rounds w o lt = rw (replica_set_up_lem server k rounds w o lt) (
      returns (
        refl,
        lookup-insert_self server (new_config (opened server k w.net o)) w.stream_set,
        λ q b.
            lookup-insert server q (new_config (opened server k w.net o)) w.stream_set ∙ rw b refl,
        refl,
      ))
