-- ===== src/Lib.antt =====
-- muti: a private cloud storage. A monitor process keeps the map of the cluster: which object services
-- there are, on which host and port, their statuses, and which bsets each of them stores. Object
-- services and clients fetch the map from the monitor, and each object service reports its status to
-- it every few seconds and follows the answer. All of them talk over connections on which requests and
-- responses are structs in little-endian byte order, matched by sequence numbers.
--
-- Files and the code that they model:
-- - Common: shared names, the Boolean tests, lists over the native numbers, `Outcome` (how a call of
--   the C code ends: with a result, with false or NULL, or by an assert, an exit or an access out of
--   bounds), and the masks of powers of two.
-- - HashMap: corecode/util/MapHashLinked.c. `get`, `put`, `remove`, `clear` and the initialisation, by
--   their names there (`_remove` is `remove`). HashMap/Chains is about one slot, HashMap/Laws and /Whole about
--   the map as a partial function. The key comparison and the hash are parameters of the map, as in
--   the code; `IsLawful` is what their users owe, and ClusterMap/Index has it for those of the object service map.
-- - Wire: the fields of the binary messages; Wire/Laws reads back what was written; Wire/Long is about
--   the 64-bit fields of the status response.
-- - ClusterMap: libs/cluster/ClusterMap.h and ClusterMap.c. ClusterMap/Index is the hash map from ids
--   to services, ClusterMap/Codec the dump and the parser, with ClusterMap/Codec/Encoding (the bytes of
--   a map, well-formed maps), /RoundTrip and /Sound. ClusterMap/Shared is the reference count of a
--   shared map as a step relation.
-- - Monitor: services/mon/server/cluster/ClusterHandler.c, the actions and the status tables;
--   Monitor/Doc has the table of the comment there, Monitor/Laws the keep-alive.
-- - Messages: services/mon/share/Cluster.h, services/mon/client/cluster/ClusterSender.c,
--   h/client/RequestSender.h, the encoders and decoders of ClusterHandler.c, and the steps of
--   corecode/server/Server.c on one request (`serve` in Messages/Exchange). Messages/Answers and
--   Messages/KeepAlive are about each request from end to end.
-- - Agent: libs/cluster/ClusterMapObjectService.c, the keep-alive of an object service; Agent/System
--   has its runs as a step relation, Agent/Joining puts it together with the monitor, Agent/Starting is
--   the start with the file of the map.
-- - Client: corecode/client/Client.c, the requests that wait and the loop over what was read;
--   Client/Waiting is the table of requests, Client/Delivery the way of a request, Client/Reports
--   that of a report. Client/Handlers has the handlers of a connection with their reference counts and
--   counters, and Client/Runs all of them in any order as a relation: Client/Runs/Waits is about the lists, /Holders about who holds the read
--   buffers, /Accounts, /Sends, /Written and /Steps about where each request is, /Sound puts these
--   together, and /Close is what a caller can rely on.
-- - ThreadPool: corecode/util/ThreadPool1.c as a step relation (ThreadPool/Runs, ThreadPool/Drain) and
--   corecode/util/ThreadPool2.c (ThreadPool/Choice).
-- - HouseKeeping: corecode/util/HouseKeeping.c, when a worker runs (HouseKeeping/Ticks) and its
--   callbacks (HouseKeeping/Lifecycle).
-- - Server: corecode/server/Server.c, the callbacks of one connection with its read buffers.
--   Server/Rounds and /Stream are about the decoding loop, Server/Cluster has the monitor's decoders
--   for it.
--   Server/Buffers has the callbacks in any order as a relation, with the holders of the buffers
--   (Server/Buffers/Sound, /Fresh, /Steps), the tally of the requests (/Tallies), the room in a buffer
--   (/Room) and what follows for all runs (/Runs); Common/Live counts the buffers.
-- - InitialMap: libs/cluster/ClusterMapMon.c, the spread of the bsets over the object services;
--   InitialMap/Rounds is about one round of its loops, /Shares about their ends, /Spread about the
--   whole, and /Sums has the sums. InitialMap/Config is the parser of the configuration and the start
--   of the monitor; /Described says what a configuration describes, /Kept, /Ids and /Filled are about
--   the map that comes of it, and /Start about the first start and those after it.
-- - Objects: services/os/share/Object.h, services/os/client/object/ObjectSender.c and
--   services/os/server/object/ObjectHandler.c, the requests; Objects/Answers has the responses and the
--   actions, Objects/RoundTrip and /Lists read back what was written, and Objects/Wrapped is about a
--   put whose length overflows.
-- - Connection: corecode/network/ConnectionLinux.c and the jobs of corecode/network/SocketLinux.c that
--   read and write. Connection/Writes and /Reads are about one job, Connection/Order about the writes
--   over any calls and jobs. What read(2) and write(2) answer is an argument. Connection/Sides has the
--   steps by which jobs of one direction come to the thread pool, with each access to a shared field a
--   step of its own, and Connection/Lifetime the references and the closing; Connection/Alive says
--   what holds of both at any time, Connection/Released is about when a connection is freed,
--   Connection/Scheduling about whether a job that waits is taken up.
-- - Tests: small inputs at which the theorems are applied.
--
-- Conventions: an unsigned integer of w bits is a number, with `% 2 ^ w` where the code can wrap
-- around; a signed one is its bit pattern. An intrusive list is a list of its items. A pointer is
-- a place or an id. What a lock protects from its first access to its last is one step. The loop
-- for the slot size has the width of an int as its fuel, which is enough up to 2 ^ 30 services.
-- The loop of the client over its buffer has fuel for each response and one more; each round takes
-- at least 8 bytes off the buffer, and the handler of a connection gives fuel for each byte. The
-- decoding loop of the server has fuel for each byte and one more, which is enough for decoders
-- that take a byte at least; Objects/Wrapped is about one that does not.
--
-- Not modelled: the set-up of sockets, the list of the connections of a socket and its
-- destruction, the connections on Windows, how files are read and written, the command line, and
-- the JSON library, whose functions are parameters of InitialMap/Config; the release of memory,
-- other than that of the read buffers of the server and the client, of the client's entries for
-- requests, and of shared maps; what a thread does in `clientSendRequest` while the connection
-- closes; reads of the server that fail to start, in the relation of its callbacks, since the code
-- then frees a buffer too often; threads that run callbacks of one server connection at the same
-- time; and the example service.
pub mod Common
pub mod HashMap
pub mod Wire
pub mod ClusterMap
pub mod Monitor
pub mod Messages
pub mod ThreadPool
pub mod HouseKeeping
pub mod Agent
pub mod Client
pub mod Server
pub mod InitialMap
pub mod Objects
pub mod Connection
mod Tests
