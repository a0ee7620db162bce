-- ===== src/Lib.antt =====
-- The replicated group chat of Robust_Group_Chat_System/chat_system: five servers, each of which
-- keeps every chat group in memory, serves clients over a stream of requests, and sends what its
-- clients do to the other four. All paths below are under that directory.
--
-- Parts and files
--   * Data: the types of chat/data.go and the request of chat/chat.proto.
--   * Heap: the nodes that the lists are made of. A pointer is an address and nil is 0; a read or a
--     write through nil or to no node panics. Heap/Access has the reads and writes as equations,
--     Heap/Chain the predicate that addresses are a linked list of given contents and its laws,
--     Heap/Cut the part of such a list up to a node.
--   * Exec: code that changes a state and may panic or run out of the fuel of a loop. Exec/Returns
--     is total correctness: neither happens, and the result satisfies a postcondition. Exec/Ends is
--     partial correctness, and joins what is shown in the two ways.
--   * LinkedList: newMessage, Append, IndexReorder, UpdateTenStart and Delete of chat/data.go, with
--     what they do to a list (LinkedList/Append, Reorder, IsList).
--   * Placement: LamportPlace (chat/HelperFunction.go), UpdateGroupLamport and the message branch of
--     Insertion (chat/replica.go). Placement/Order has the order by timestamp and replica; Walk and
--     Place treat LamportPlace; Acknowledge the record of what was received; Insertion, Behind and
--     AtHead the two insertions; Merge the specification, a function on the list of messages with no
--     pointers; Represents, Refines and Stands that the code implements it; Commute, Converge and
--     Deliver sequences of requests; Received, Fresh and CatchUp the indexes that are acknowledged;
--     Overtake the case in which the tail goes wrong.
--   * Groups: CreateGroup, AddUsername, DeleteUsername and NameMerge (chat/HelperFunction.go), with
--     what a new group has in Groups/Created, the participants and their counts in Groups/Listed and
--     Removed, and their names in Names and SameNames.
--   * Likes: InsertLike and CalculateLike (chat/replica.go), PerformingLike (chat/HelperFunction.go),
--     LikeMessage and UnlikeMessage (chat/chatserver.go). Likes/Counting and Calculate treat the
--     sum, Find, Perform and Grown the steps of a like, Twice a like that is repeated, TakenBack one
--     that is taken back.
--   * Clock: the parsing and formatting of times that InsertLike and PerformingLike use, RFC 3339.
--   * Replica: Insertion with its three flags, and Merge, on the server's map of groups.
--     Replica/Messages treats a message, Replica/CatchUp the messages that were missed,
--     Replica/Members the participants of other servers.
--   * Network: ServerConfig (chat/data.go), ReplicaBroadcast, SendingBetweenReplica and ReplicaSetUp
--     (chat/replica.go), over a record of the operations of gRPC and of the clock. Network/Sending
--     and Broadcast have what a sending leaves alone.
--   * Sync: Entropy, SendMySaving and CheckForMerge, and in Sync/AntiEntropy the older AntiEntropy,
--     SendGroupInfo, SendMessageList and SendLikeList (chat/replica.go). Sync/Owed and Answer have
--     what CheckForMerge sends,
--     Sync/Exchange a round of the exchange, with the replica that receives the answer, and
--     Sync/Periodic that the asking always returns.
--   * ChatServer: the handlers of chat/chatserver.go, with AppendMessage in ChatServer/Appending,
--     Window and Order, and its meeting with Insertion in ChatServer/Events, Bounds, Interleave and
--     Lost. ChatServer/Latest, Relay, Together and Conversation treat two servers, each of which sends
--     what its clients say to the other. ChatServer/Screen has the lines that a client is sent,
--     ChatServer/Members the participants of a server's groups, ChatServer/Logged the record of its
--     own messages.
--   * ChatRoom: the function ChatRoom of chat/chatserver.go, which takes each request of a connection
--     to its handler and sends what follows from it to the clients and the replicas, in
--     ChatRoom/Handlers and Sending, with FlushScreen, AllGroup (chat/HelperFunction.go) and the
--     handlers of chat/TestCase.go. ChatRoom/Follow treats the group of a
--     connection, ChatRoom/Harmless the requests that only ask, ChatRoom/Inspecting those that print.
--     ChatRoom/Showing has what the clients are shown, Holding what a request needs of its group, and
--     Saying, Receiving and Exchange a message at the server of its client, at another server, and on
--     its way from the one to the other.
--   * Inspect: PrintData and InspectMap (chat/HelperFunction.go) and Display (chat/data.go), as the
--     calls of println and Printf that they make; Inspect/Printed has what is printed of well-formed
--     lists, Inspect/Missing the panic of InspectMap.
--   * Client: client.go, with its commands in Client/Commands and TestCommands. Client/Follow,
--     Following and Agreement treat the client and its connection on the server as one system of steps,
--     Client/Screen what the client keeps of a screen, Typed and Chosen what a number of it leads to,
--     Client/Refused three commands that cannot be used.
--   * Start: the start of a server, server.go, with the choice of its peers in Start/Others,
--     the connections that it has then in Start/Connected, and
--     the periodic work in Start/Periodic.
--   * Prelude: shared names, int32 (Prelude/Int), maps (Prelude/Map), texts (Prelude/Text), and the
--     parts of strconv that are called (Prelude/Number, with what is printed read again in
--     Prelude/Decimal).
--   * Tests: small runs, and the theorems at inputs where their hypotheses hold.
--
-- How the code is modelled
--   * A handler is a function from the group, or the server, and the heap to a result, the changed
--     group and the changed heap. Groups are held by name, as GroupMap holds them; a LinkedList is
--     held by value by the one group or message that owns it.
--   * int32 is an integer that is brought back into its range after each sum (Prelude/Int). A text
--     is a list of code points. A map is an association list (Prelude/Map).
--   * A walk along a list runs on fuel. It is given the number of addresses that the heap has used,
--     and the nodes of a list have different addresses, so this is enough for a list that is not
--     cyclic; the theorems show that the walks return under the hypothesis that a list has fewer
--     nodes than addresses were used.
--   * gRPC and the clock are a parameter, Network.Transport: operations on a state of which nothing
--     is known, so the theorems hold for every network and every clock. A stream is a number. In the
--     handlers of ChatServer the time is an argument.
--   * The loops of CheckForMerge are given the difference of their bounds as fuel, which is enough
--     for int32 indexes. The loop of ReplicaSetUp that asks for a connection has no bound in the code,
--     and is given a number of rounds.
--   * Requests are handled one after the other: the code holds its lock for parts of a request only.
--
-- Not modelled: the other printing (traces, showCommand), the generated gRPC code, the
-- locks and goroutines, the listener, the file group.txt (its groups are dropped by the code), and
-- Trying of chat/TestCase.go, which nothing calls. The maps of Go are walked in the order of their
-- entries in the model.
pub mod Prelude
pub mod Exec
pub mod Data
pub mod Heap
pub mod Clock
pub mod LinkedList
pub mod Placement
pub mod Groups
pub mod Likes
pub mod Replica
pub mod Network
pub mod Sync
pub mod ChatServer
pub mod Inspect
pub mod ChatRoom
pub mod Client
pub mod Start
pub mod Tests
