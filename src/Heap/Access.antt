-- ===== src/Heap/Access.antt =====
-- Reads and writes through a pointer to a node.
use selected_course_projects.Prelude.{◌≡◌, refl, ◌≢◌, Option, some, arith}
use selected_course_projects.Exec.{ok}
use selected_course_projects.Data.{Ptr, nil, Activity, Message, Node}
use selected_course_projects.Heap.{
  Heap, write, need, load, set_next, load_message, store_message, load_activity, store_activity,
}

pub need_lem : {S A : Type 0} (o : Option A) (a : A) (s : S) → o ≡ some a → need o s ≡ ok a s
unfolding need
need_lem o a s e = rw e refl

module _ (h : Heap) (p : Ptr) {n : Node} (ne : p ≢ nil) (holds : h.cell p ≡ some n) where
  pub load_lem : load p h ≡ ok n h
  unfolding load
  load_lem = ground arith

  pub set_next_lem : (q : Ptr) → set_next p q h ≡ ok tt (write h p (record n { next = q }))
  unfolding set_next
  set_next_lem q = ground arith

  pub load_message_lem : (m : Message) → n.message ≡ some m → load_message p h ≡ ok m h
  unfolding load_message
  load_message_lem m e = ground arith

  pub store_message_lem :
      (m : Message) → store_message p m h ≡ ok tt (write h p (record n { message = some m }))
  unfolding store_message
  store_message_lem m = ground arith

  pub load_activity_lem : (a : Activity) → n.activity ≡ some a → load_activity p h ≡ ok a h
  unfolding load_activity
  load_activity_lem a e = ground arith

  pub store_activity_lem :
      (a : Activity) → store_activity p a h ≡ ok tt (write h p (record n { activity = some a }))
  unfolding store_activity
  store_activity_lem a = ground arith
