-- ===== src/Network.antt =====
-- The connections to the other replicas: ServerConfig of chat_system/chat/data.go, and
-- ReplicaBroadcast, SendingBetweenReplica and ReplicaSetUp of chat_system/chat/replica.go. The
-- generated gRPC code is a parameter.
pub mod Broadcast
pub mod Sending
use selected_course_projects.Prelude.{
  ℕ, zero, suc, Bool, Option, none, some, List, [], ◌∷◌, if◌then◌else◌,
}
use selected_course_projects.Prelude.Int.{ℤ, pos}
use selected_course_projects.Prelude.Map.{Map, lookup, insert}
use selected_course_projects.Prelude.Text.{Str, str, str_eq}
use selected_course_projects.Exec.{
  Run, ok, panic, out_of_fuel, Exec, pure, gets, no_fuel, ◌>>=◌, ◌>>◌,
}
use selected_course_projects.Data.{Time, ClientRequest, ServerResponse, blank}
use selected_course_projects.Heap.{Heap, need}
use selected_course_projects.Replica.{Server}

-- What the program uses of gRPC and of the clock, on a state `W` outside of the program. A stream is
-- named by a number. `send` and `reply` are the two directions of Send, and tell whether there was
-- no error; `open` is `Client.ChatRoom(Context)` to a server, with no stream for an error.
pub record Transport (W : Type 0) : Type 0 where
  pub send : ℕ → ClientRequest → W → Bool × W
  pub reply : ℕ → ServerResponse → W → Bool × W
  pub open_stream : Str → W → Option ℕ × W
  pub now : W → Time × W

-- `ServerConfig`. Its client and context are those of the server under whose name it is kept.
pub record Config : Type 0 where
  pub stream : ℕ
  pub last_time : Time
  pub is_online : ℤ

-- The server with its connections, and the world outside of it.
pub record World (W : Type 0) : Type 0 where
  pub server : Server
  pub stream_set : Map Str Config
  pub net : W

module _ {W : Type 0} where
  -- the world once a step of the server has ended
  abbrev pub resume_world : {A : Type 0} → World W → Run Server A → Run (World W) A
  resume_world w (ok a s) = ok a (record w { server = s })
  resume_world w panic = panic
  resume_world w out_of_fuel = out_of_fuel

  abbrev pub on_server : {A : Type 0} → Exec Server A → Exec (World W) A
  on_server m w = resume_world w (m w.server)

  -- the world once a step of the heap has ended
  abbrev pub read_heap : {A : Type 0} → World W → Run Heap A → Run (World W) A
  read_heap w (ok a h) = ok a (record w { server = record w.server { heap = h } })
  read_heap w panic = panic
  read_heap w out_of_fuel = out_of_fuel

  abbrev pub reading : {A : Type 0} → Exec Heap A → Exec (World W) A
  reading m w = read_heap w (m w.server.heap)

  abbrev pub outside : {A : Type 0} → (W → A × W) → Exec (World W) A
  outside f w = let (a, n) = f w.net in ok a (record w { net = n })

  -- `sm.StreamSet[server].… = …`
  abbrev pub put_config : Str → Config → Exec (World W) (Unit {0})
  put_config server c w = ok tt (record w { stream_set = insert server c w.stream_set })

module _ {W : Type 0} (t : Transport W) where
  -- the reconnection after an error
  unfoldable pub reconnect : (server : Str) → ClientRequest → Exec (World W) (Unit {0})
  unfolding need
  reconnect server message = do
    set ← gets (λ w. w.stream_set)
    config ← need (lookup server set)
    stream ← outside (t.open_stream server)
    elim stream as (λ _. Exec (World W) (Unit {0})) [
      | none ↦ put_config server (record config { is_online = pos 0 })
      | some s ↦ do
        put_config server (record config { is_online = pos 1; stream = s })
        done ← outside (t.send s message)
        pure tt
    ]

  -- Send; after an error, one attempt to reconnect and one more Send, whose error is only printed.
  unfoldable pub sending_between_replica :
      (server : Str) → (stream : ℕ) → ClientRequest → Exec (World W) (Unit {0})
  unfolding reconnect
  sending_between_replica server stream message = do
    done ← outside (t.send stream message)
    if done then pure tt else reconnect server message

  unfoldable pub broadcast_to : List (Str × Config) → ClientRequest → Exec (World W) (Unit {0})
  broadcast_to [] message = pure tt
  broadcast_to ((server, config) ∷ rest) message = do
    sending_between_replica server config.stream message
    broadcast_to rest message

  -- A step changes no other entry of StreamSet than its own, so the streams are those at the start.
  unfoldable pub replica_broadcast : ClientRequest → Exec (World W) (Unit {0})
  unfolding broadcast_to
  replica_broadcast message w = broadcast_to w.stream_set message w

  -- The loop that asks for a stream until there is one. The code sets no limit to its rounds.
  unfoldable pub connect : (rounds : ℕ) → (server : Str) → Exec (World W) ℕ
  connect zero server = no_fuel
  connect (suc k) server = do
    stream ← outside (t.open_stream server)
    elim stream as (λ _. Exec (World W) ℕ) [ none ↦ connect k server | some s ↦ pure s ]

  unfoldable pub replica_set_up : (rounds : ℕ) → (server : Str) → Exec (World W) (Unit {0})
  unfolding connect
  replica_set_up rounds server = do
    s ← connect rounds server
    put_config server (record { stream = s; last_time = pos 0; is_online = pos 0 })
    me ← gets (λ w. w.server.string_me)
    done ← outside (t.send s (record (blank (str "ReplicaSetUp")) { user_name = me }))
    pure tt
