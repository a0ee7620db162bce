-- ===== src/Sync/Owed.antt =====
-- What CheckForMerge of chat_system/chat/replica.go sends: all that a server has of another's events
-- after those that the request names.
use selected_course_projects.Prelude.{
  ℕ, zero, suc, ◌<◌, ◌≡◌, refl, sym, subst, true, false, some, List, [], ◌∷◌, length, arith,
}
use selected_course_projects.Prelude.Int.{ℤ, int_eq, pos, negsuc, inc32, ltb_ℤ, ◌≤ℤ◌}
use selected_course_projects.Prelude.Map.{lookup}
use selected_course_projects.Prelude.Text.{Str, str_eq}
use selected_course_projects.Exec.{ok}
use selected_course_projects.Exec.Returns
use selected_course_projects.Exec.Returns.{Returns, returns}
use selected_course_projects.Data.{Ptr, Activity, Message, Information, Group, ClientRequest}
use selected_course_projects.Heap.{Heap, need, load_message, load_activity}
use selected_course_projects.Network.{Transport, World}
use selected_course_projects.Network.Sending.{HasConfig, sending-Kept, send_list}
use selected_course_projects.Sync.{rounds, update_msg, update_like, send_messages, send_likes}

-- The events after the index `start` up to `stamp`, in order; `Holds` says which event has an index.
abbrev pub Owed : {A : Type 0} → (Holds : ℤ → A → Type 0) → (stamp start : ℤ) → List A → Type 0
Owed Holds stamp start [] = ltb_ℤ start stamp ≡ false
Owed Holds stamp start (a ∷ as') =
    (ltb_ℤ start stamp ≡ true) × Holds (inc32 start) a × Owed Holds stamp (inc32 start) as'

-- A loop over the events has enough rounds.
pub length-Owed :
    {A : Type 0} (Holds : ℤ → A → Type 0) (stamp start : ℤ) (xs : List A)
    → negsuc 2147483647 ≤ℤ start
    → stamp ≤ℤ pos 2147483647
    → Owed Holds stamp start xs
    → length xs < rounds start stamp
unfolding inc32
length-Owed Holds stamp start [] lo hi o = omega arith
length-Owed Holds stamp start (x ∷ xs) lo hi o =
    let ih = length-Owed Holds stamp (inc32 start) xs (ground arith) hi o.2 in ground arith

-- the events with their indexes, as requests
abbrev pub requests :
    {A : Type 0} → (request : ℤ → A → ClientRequest) → (start : ℤ) → List A → List ClientRequest
requests request start [] = []
requests request start (x ∷ xs) = request (inc32 start) x ∷ requests request (inc32 start) xs

-- a server has a message under an index
abbrev pub HasMessage : Heap → Information → ℤ → Message → Type 0
HasMessage h info i m =
    (p : Ptr) × (lookup i info.message_lamport ≡ some p) × (load_message p h ≡ ok m h)

abbrev pub HasLike : Heap → Information → ℤ → Activity → Type 0
HasLike h info i a =
    (p : Ptr) × (lookup i info.like_event_lamport ≡ some p) × (load_activity p h ≡ ok a h)

module _ {W : Type 0} (t : Transport W) where
  pub send_messages_lem :
      (k : ℕ) (g : Group) (from_server server : Str) (stream : ℕ) (info : Information) (start : ℤ)
      (ms : List Message) (w : World W)
      → length ms < k
      → HasConfig server w
      → Owed (HasMessage w.server.heap info) info.msg_timestamp start ms
      → send_messages t k g from_server server stream info start w
        ≡ send_list t server stream (requests (update_msg g from_server) start ms) w
  unfolding send_messages send_list need
  send_messages_lem zero g from_server server stream info start ms w lt k o = ground arith
  send_messages_lem (suc k) g from_server server stream info start [] w lt c o = rw o refl
  send_messages_lem (suc k) g from_server server stream info start (m ∷ ms) w lt c
        (b, (p, e, f), o) =
      let (_, w', d, (s, c')) =
        Returns.result
          (sending-Kept t server stream (update_msg g from_server (inc32 start) m) w c) in
      rw (b, e, f, d)
        (send_messages_lem k g from_server server stream info (inc32 start) ms w' (omega arith) c' (
          subst (λ v. Owed (HasMessage v.heap info) info.msg_timestamp (inc32 start) ms) (sym s) o))

  pub send_likes_lem :
      (k : ℕ) (g : Group) (from_server server : Str) (stream : ℕ) (info : Information) (start : ℤ)
      (xs : List Activity) (w : World W)
      → length xs < k
      → HasConfig server w
      → Owed (HasLike w.server.heap info) info.like_timestamp start xs
      → send_likes t k g from_server server stream info start w
        ≡ send_list t server stream (requests (update_like g from_server) start xs) w
  unfolding send_likes send_list need
  send_likes_lem zero g from_server server stream info start xs w lt c o = ground arith
  send_likes_lem (suc k) g from_server server stream info start [] w lt c o = rw o refl
  send_likes_lem (suc k) g from_server server stream info start (a ∷ xs) w lt c (b, (p, e, f), o) =
      let (_, w', d, (s, c')) =
        Returns.result
          (sending-Kept t server stream (update_like g from_server (inc32 start) a) w c) in
      rw (b, e, f, d)
        (send_likes_lem k g from_server server stream info (inc32 start) xs w' (omega arith) c'
          (subst (λ v. Owed (HasLike v.heap info) info.like_timestamp (inc32 start) xs) (sym s) o))
