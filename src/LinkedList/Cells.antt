-- ===== src/LinkedList/Cells.antt =====
-- The nodes of a message list, with their addresses.
use selected_course_projects.Prelude.{Option, some, List, [], ◌∷◌, length, ◌≡◌, refl, ap, suc}
use selected_course_projects.Data.{Ptr, Activity, Message, Node}

-- What a node of a message list holds.
abbrev pub Payload : Type 0
Payload = Option Activity × Message

abbrev pub message_node : Payload → Ptr → Node
message_node (a, m) next = record { activity = a; message = some m; next = next }

abbrev pub Cells : Type 0
Cells = List (Ptr × Payload)

-- What the list stands for.
abbrev pub messages : Cells → List Message
messages [] = []
messages ((p, (a, m)) ∷ cs) = m ∷ messages cs

pub length-messages : (cs : Cells) → length (messages cs) ≡ length cs
length-messages [] = refl
length-messages (c ∷ cs) = ap suc (length-messages cs)
