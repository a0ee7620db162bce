-- ===== src/Heap.antt =====
-- The nodes that the server has allocated, and the reads and writes through a pointer. A nil
-- pointer or a pointer to no node panics.
pub mod Access
pub mod Chain
pub mod Cut
use selected_course_projects.Prelude.{ℕ, zero, suc, ◌+◌, Option, none, some, ◌==◌, if◌then◌else◌}
use selected_course_projects.Exec.{Exec, ok, pure, stop, ◌>>=◌, ◌>>◌}
use selected_course_projects.Data.{Ptr, nil, Activity, Message, Node}

-- `fresh` is the address that the next `&Node{…}` returns.
pub record Heap : Type 0 where
  pub cell : Ptr → Option Node
  pub fresh : Ptr

abbrev pub empty : Heap
empty = record { cell = λ _. none; fresh = 1 }

unfoldable pub write : Heap → Ptr → Node → Heap
write h p n = record h { cell = λ q. if q == p then some n else h.cell q }

-- `&Node{…}`
unfoldable pub alloc : Node → Exec Heap Ptr
unfolding write
alloc n h = ok h.fresh (record (write h h.fresh n) { fresh = suc h.fresh })

-- a pointer that may be nil, dereferenced
unfoldable pub need : {S A : Type 0} → Option A → Exec S A
need none = stop
need (some a) = pure a

unfoldable pub load : Ptr → Exec Heap Node
unfolding need
load p h = if p == nil then stop h else need (h.cell p) h

unfoldable pub store : Ptr → Node → Exec Heap (Unit {0})
unfolding write
store p n h = ok tt (write h p n)

-- `p.Next = q`
unfoldable pub set_next : Ptr → Ptr → Exec Heap (Unit {0})
unfolding load store
set_next p q = do n ← load p; store p (record n { next = q })

-- `*p.Message`
unfoldable pub load_message : Ptr → Exec Heap Message
unfolding load need
load_message p = do n ← load p; need n.message

-- `p.Message` with its fields assigned
unfoldable pub store_message : Ptr → Message → Exec Heap (Unit {0})
unfolding load store
store_message p m = do n ← load p; store p (record n { message = some m })

-- `*p.Activity`
unfoldable pub load_activity : Ptr → Exec Heap Activity
unfolding load need
load_activity p = do n ← load p; need n.activity

unfoldable pub store_activity : Ptr → Activity → Exec Heap (Unit {0})
unfolding load store
store_activity p a = do n ← load p; store p (record n { activity = some a })
