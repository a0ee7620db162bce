-- ===== src/ChatServer/Logged.antt =====
-- AppendMessage of chat_system/chat/chatserver.go keeps the record that CheckForMerge of
-- chat_system/chat/replica.go reads.
use selected_course_projects.Prelude.{
  suc, false, ◌<◌, length, ◌≡◌, refl, sym, ap, subst, ◌∙◌, some, [], ◌∷◌, inl, inr, arith, ==_iff,
  Bool-cases, Option-cases, ◌==◌,
}
use selected_course_projects.Prelude.Int.{ℤ, int_eq, pos, inc32, lt-inc32, ltb_ℤ, eqb_ℤ, ◌<ℤ◌}
use selected_course_projects.Prelude.Map.{lookup, insert, lookup-insert, lookup-insert_self}
use selected_course_projects.Prelude.Text.{Str, str_eq, beq_str}
use selected_course_projects.Exec.{ok}
use selected_course_projects.Exec.Ends
use selected_course_projects.Exec.Returns
use selected_course_projects.Exec.Returns.{Returns}
use selected_course_projects.Exec.Ends.{Ends, both, ended, panicked, skip, branch}
use selected_course_projects.Data.{Ptr, nil, Message, Information, Group, ClientRequest}
use selected_course_projects.Heap.{Heap, write, need, load, load_message, store, store_message}
use selected_course_projects.Heap.Chain.{last_or}
use selected_course_projects.LinkedList.Cells.{Cells, messages}
use selected_course_projects.LinkedList.IsList.{IsList}
use selected_course_projects.Placement.Merge.{Ascending}
use selected_course_projects.ChatServer.Order.{Under, append_message-Ascending}
use selected_course_projects.LinkedList.{append, new_message}
use selected_course_projects.ChatServer.{append_message, advance_window}
use selected_course_projects.Sync.Owed.{Owed, HasMessage}

-- What is stored can be read back.
load_message-store_message :
    (p : Ptr) (m : Message) (h : Heap)
    → Ends (λ _ h'. load_message p h' ≡ ok m h') (store_message p m h)
unfolding store_message load load_message need store write
load_message-store_message p m h = elim (Bool-cases (p == nil)) [
  | inl e ↦ rw e panicked
  | inr e ↦ elim (Option-cases (h.cell p)) [
    | inl n ↦ rw (e, n) panicked
    | inr (n, f) ↦ rw (e, f) (ended (rw ((==_iff p p).1 refl) refl))
  ]
]

load-keeps : (p : Ptr) (h : Heap) → Ends (λ _ h'. h' ≡ h) (load p h)
unfolding load need
load-keeps p h = elim (Bool-cases (p == nil)) [
  | inl e ↦ rw e panicked
  | inr e ↦ elim (Option-cases (h.cell p)) [
    | inl n ↦ rw (e, n) panicked
    | inr (n, f) ↦ rw (e, f) (ended refl)
  ]
]

-- The window is moved by reading alone.
advance_window-keeps :
    (p : Ptr) (g : Group) (h : Heap)
    → Ends
        (λ g' h'. (h' ≡ h) × (g'.replica_info ≡ g.replica_info) × (g'.group_name ≡ g.group_name))
        (advance_window p g h)
unfolding advance_window load need
advance_window-keeps p g h =
    branch (eqb_ℤ g.message_list.count (pos 1)) _ _ (λ _. ended (refl, refl, refl))
      λ _.
        branch (ltb_ℤ (pos 10) g.message_list.count) _ _
          (λ _. Ends.bind (load-keeps g.message_list.ten_start h) λ n h' e. ended (e, refl, refl))
          λ _. ended (refl, refl, refl)

-- The server's own record after a message: it has the message under the next index, and nothing
-- beyond.
pub record Logged (string_me : Str) (g : Group) (i : Information) (out : Group × Message) (k : Heap)
    : Type 0 where
  pub info : Information
  pub known : lookup string_me out.0.replica_info ≡ some info
  pub stamp : info.msg_timestamp ≡ inc32 i.msg_timestamp
  pub has_message : HasMessage k info (inc32 i.msg_timestamp) out.1
  pub lamport : out.1.lamport ≡ inc32 g.max_lamport
  pub user_list : info.user_list ≡ i.user_list
  pub titled : out.0.group_name ≡ g.group_name
  pub others :
      (s : Str)
      → beq_str string_me s ≡ false
      → lookup s out.0.replica_info ≡ lookup s g.replica_info

pub append_message-Logged :
    (me : ℤ) (string_me : Str) (r : ClientRequest) (g : Group) (h : Heap) (i : Information)
    → lookup string_me g.replica_info ≡ some i
    → Ends (Logged string_me g i) (append_message me string_me r g h)
unfolding append_message need
append_message-Logged me string_me r g h i e = skip (append g.message_list h) λ (p, l) h1.
    let stamp = inc32 i.msg_timestamp in
    let i' : Information = record i {
      msg_timestamp = stamp;
      message_lamport = insert stamp p i.message_lamport;
    } in
    let m : Message = record (new_message (inc32 g.max_lamport) me r.user_name r.content (pos 0)) {
      msg_id = l.count;
    } in
    let g1 : Group = record g {
      max_lamport = inc32 g.max_lamport;
      message_list = l;
      replica_info = insert string_me i' g.replica_info;
    } in
    rw e (
      Ends.bind (load_message-store_message p m h1) λ _ h2 st.
        Ends.bind (advance_window-keeps p g1 h2) λ g2 h3 (same, kept, titled). ended (record {
          info = i';
          known = ap (lookup string_me) kept ∙ lookup-insert_self string_me i' g.replica_info;
          stamp = refl;
          has_message = (
            p,
            lookup-insert_self stamp p i.message_lamport,
            subst (λ k. load_message p k ≡ ok m k) (sym same) st,
          );
          lamport = refl;
          user_list = refl;
          titled = titled;
          others =
              λ s ne. ap (lookup s) kept ∙ lookup-insert string_me s i' g.replica_info ∙ rw ne refl;
        }))

-- AppendMessage returns, under the conditions of its theorem on the list. A replica that has
-- acknowledged all that this server had sent before is then owed exactly the new message.
pub append_message-Owed :
    (me : ℤ) (string_me : Str) (r : ClientRequest) (g : Group) (h : Heap) (cs : Cells)
    (i : Information)
    → IsList h g.message_list cs
    → g.message_list.tail ≡ last_or nil cs
    → Ascending (messages cs)
    → Under g.max_lamport (messages cs)
    → g.max_lamport <ℤ pos 2147483647
    → suc (length cs) < 2147483647
    → lookup string_me g.replica_info ≡ some i
    → i.msg_timestamp <ℤ pos 2147483647
    → Returns
        (λ out k.
          (info : Information) × (lookup string_me out.0.replica_info ≡ some info)
          × Owed (HasMessage k info) info.msg_timestamp i.msg_timestamp (out.1 ∷ []))
        (append_message me string_me r g h)
append_message-Owed me string_me r g h cs i is tl asc under top fits known lt =
    Returns.weaken
      (both (append_message-Ascending me string_me r g h cs is tl asc under top fits (i, known))
        (append_message-Logged me string_me r g h i known))
      λ out k (spoken, logged). (
        logged.info,
        logged.known,
        rw logged.stamp
            (ground (arith, lt-inc32 i.msg_timestamp lt), logged.has_message, ground arith),
      )
