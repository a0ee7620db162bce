-- ===== src/ChatRoom/Exchange.antt =====
-- Two servers as ChatRoom of chat_system/chat/chatserver.go runs them: the request a of a client at one,
-- ReplicaBroadcast of chat_system/chat/replica.go, and the request UpdateMsg at the other.
use selected_course_projects.Prelude.{ℕ, suc, ◌<◌, ◌≡◌, refl, ◌∙◌, true, false, some, List, [], ◌∷◌}
use selected_course_projects.Prelude.Int.{ℤ}
use selected_course_projects.Prelude.Map.{lookup}
use selected_course_projects.Prelude.Text.{Str, str, str_eq, beq_str}
use selected_course_projects.Exec.{ok}
use selected_course_projects.Exec.Returns
use selected_course_projects.Exec.Returns.{Returns, returns}
use selected_course_projects.Exec.Ends.{both}
use selected_course_projects.Data.{Message, Information, Group, ClientRequest}
use selected_course_projects.Heap.{Heap}
use selected_course_projects.Groups.{name_merge}
use selected_course_projects.Groups.SameNames.{name_merge-SameNames}
use selected_course_projects.Placement.{Inserted, insertion_message}
use selected_course_projects.Placement.Received.{insertion_message-Settles}
use selected_course_projects.Network.{
  Transport, Config, World, sending_between_replica, broadcast_to, replica_broadcast,
}
use selected_course_projects.ChatServer.{append_message}
use selected_course_projects.ChatServer.Events.{View, hear, spoken}
use selected_course_projects.ChatServer.Logged.{append_message-Logged}
use selected_course_projects.ChatServer.Together.{Together, append_message-Together}
use selected_course_projects.ChatRoom.Holding.{Holds, Spares, with_group, Calm-Holds}
use selected_course_projects.ChatRoom.Receiving.{
  Settles-SameNames, Settles-titled, handle_merge_lem,
}
use selected_course_projects.ChatRoom.Saying.{full_lem, Logged-SameNames, handle_append_lem}
use selected_course_projects.ChatRoom.Sending.{appended}
use selected_course_projects.ChatRoom.{handle, handle_other}
use selected_course_projects.ChatRoom.Handlers.{Session}

module _ {W : Type 0} (t : Transport W) where
  -- no Send to another replica has an error
  abbrev pub Reliable : Type 0
  Reliable = (stream : ℕ) (q : ClientRequest) (n : W) → (t.send stream q n).0 ≡ true

  -- the network once a request has been sent on some streams
  abbrev pub sent_to : List (Str × Config) → ClientRequest → W → W
  sent_to [] q n = n
  sent_to ((s, c) ∷ rest) q n = sent_to rest q (t.send c.stream q n).1

  broadcast_to-sent :
      (set : List (Str × Config)) (q : ClientRequest) (w : World W)
      → Reliable
      → broadcast_to t set q w ≡ ok tt (record w { net = sent_to set q w.net })
  unfolding broadcast_to sending_between_replica
  broadcast_to-sent [] q w good = refl
  broadcast_to-sent ((s, c) ∷ rest) q w good =
      rw (good c.stream q w.net)
        (broadcast_to-sent rest q (record w { net = (t.send c.stream q w.net).1 }) good)

  replica_broadcast-sent :
      (q : ClientRequest) (w : World W)
      → Reliable
      → replica_broadcast t q w ≡ ok tt (record w { net = sent_to w.stream_set q w.net })
  unfolding replica_broadcast
  replica_broadcast-sent q w good = broadcast_to-sent w.stream_set q w good

-- Two servers have a group of one name, and are together in it.
pub record Linked {W W' : Type 0} (n : ℕ) (name names names' : Str) (v : View) (w : World W)
    (w' : World W') : Type 0 where
  pub group : Group
  pub group' : Group
  pub here : Holds name names w.server.string_me v group w.server
  pub there : Holds name names' w'.server.string_me v group' w'.server
  pub together :
      Together n w.server.string_me w'.server.string_me v group w.server.heap group' w'.server.heap

-- What becomes of a message on the way: the two groups and heaps afterwards, and what is sent.
record Passed (me : ℤ) (n : ℕ) (a b names names' : Str) (r : ClientRequest) (v : View) (g : Group)
    (h : Heap) (g' : Group) (h' : Heap) : Type 0 where
  out : Group × Message
  heap : Heap
  info : Information
  said : append_message me a r g h ≡ ok out heap
  owns : lookup a out.0.replica_info ≡ some info
  inserted : Inserted
  heap' : Heap
  merged : insertion_message true (appended me a r out.0 out.1 info) g' h' ≡ ok inserted heap'
  together : Together (suc n) a b (hear me (spoken r) v) out.0 heap inserted.group heap'
  titled : out.0.group_name ≡ g.group_name
  titled' : inserted.group.group_name ≡ g'.group_name
  participants : name_merge out.0 ≡ some names
  participants' : name_merge inserted.group ≡ some names'

pass :
    (me other : ℤ) (a b names names' : Str) (r : ClientRequest) (n : ℕ) (v : View) (g g' : Group)
    (h h' : Heap)
    → Together n a b v g h g' h'
    → n < 2147483646
    → beq_str a b ≡ false
    → name_merge g ≡ some names
    → name_merge g' ≡ some names'
    → Passed me n a b names names' r v g h g' h'
pass me other a b names names' r n v g g' h h' t room apart e e' =
    let (i, known) = t.first.here in
    let (out, k, run, ((info, owns, next), logged)) = Returns.result (
      both (append_message-Together me other a b r n v g g' h h' t room apart)
        (append_message-Logged me a r g h i known)) in
    let q : ClientRequest = appended me a r out.0 out.1 info in
    let (out', k', run', (two, settles)) =
      Returns.result (both next (insertion_message-Settles true q g' h')) in
    record {
      out = out;
      heap = k;
      info = info;
      said = run;
      owns = owns;
      inserted = out';
      heap' = k';
      merged = run';
      together = two;
      titled = logged.titled;
      titled' = Settles-titled q g' out' settles;
      participants = name_merge-SameNames g out.0 (Logged-SameNames a g i out k known logged) ∙ e;
      participants' = name_merge-SameNames g' out'.group (Settles-SameNames q g' out' settles) ∙ e';
    }

module _ {W W' : Type 0} (t : Transport W) (t' : Transport W') where
  -- A client says a message at one of two servers that are linked by a network without errors. The request a
  -- is handled, one request is sent to all replicas, and the other server handles it: neither panics, the
  -- servers are linked again, with the message, and their other groups are as they were, as long as the
  -- numbers stay int32.
  pub handle_append-Linked :
      (ct ct' : ℕ) (r : ClientRequest) (s s' : Session) (n : ℕ) (names names' : Str) (v : View)
      (w : World W) (w' : World W')
      → r.request ≡ str "a"
      → Linked n r.ori_group_name names names' v w w'
      → n < 2147483646
      → beq_str w.server.string_me w'.server.string_me ≡ false
      → Reliable t
      → Returns
          (λ s1 w1.
            (s1 ≡ s)
            × Spares r.ori_group_name w w1
            × ((q : ClientRequest) × (m : W) × (w1.net ≡ sent_to t w.stream_set q m)
                × Returns
                    (λ s2 w2.
                      (s2 ≡ s')
                      × Spares r.ori_group_name w' w2
                      × Linked
                          (suc n)
                          r.ori_group_name
                          names
                          names'
                          (hear w.server.me (spoken r) v)
                          w1
                          w2)
                    (handle t' ct' q s' w')))
          (handle t ct r s w)
  unfolding handle handle_other beq_str
  handle_append-Linked ct ct' r s s' n names names' v w w' a l room apart good =
      let q : ClientRequest = record r { request = str "a" } in
      let me = w.server.me in
      let name = r.ori_group_name in
      let p =
        pass me w'.server.me w.server.string_me w'.server.string_me names names' q n v l.group
          l.group' w.server.heap w'.server.heap l.together room apart l.here.participants
          l.there.participants in
      let two = p.together in
      let v' : View = hear me (spoken q) v in
      let sent : ClientRequest = appended me w.server.string_me q p.out.0 p.out.1 p.info in
      let (m, shown) =
        handle_append_lem t q w l.group p.out p.heap l.here.entry p.said two.first.cells names
          p.info two.first.list (full_lem two.first.cells v.all _ two.first.stands) p.participants
          p.owns in
      let u : World W = with_group name p.out.0 p.heap w in
      let w1 : World W = record u { net = sent_to t w.stream_set sent m } in
      let (m', shown') =
        handle_merge_lem t' sent w' l.group' p.inserted p.heap' two.second.cells names'
          l.there.entry p.merged two.second.list p.participants' (p.titled' ∙ l.there.titled) in
      let u' : World W' = with_group name p.inserted.group p.heap' w' in
      let w2 : World W' = record u' { net = m' } in
      let (here, spares) =
        Calm-Holds name names w.server.string_me v' p.out.0 p.heap w w1 (p.titled ∙ l.here.titled)
          two.first p.participants (refl, λ x c. c) in
      let (there, spares') =
        Calm-Holds name names' w'.server.string_me v' p.inserted.group p.heap' w' w2
          (p.titled' ∙ l.there.titled) two.second p.participants' (refl, λ x c. c) in
      let linked : Linked (suc n) name names names' v' w1 w2 = record {
        group = p.out.0;
        group' = p.inserted.group;
        here = here;
        there = there;
        together = two;
      } in
      rw (handle, handle_other, a, shown, replica_broadcast-sent t sent (record u { net = m }) good)
        (returns (
          refl,
          spares,
          (sent, m, refl, rw (handle, handle_other, shown') (returns (refl, spares', linked))),
        ))
