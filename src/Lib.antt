-- ===== src/Lib.antt =====
-- A chat server on IO completion ports: from the bytes of a socket to the packets of its users.
--
-- The parts and how they meet:
-- * RingBuffer.h and RingBuffer.cpp are Ring.antt, one function per member function. A session has
--   one ring for receiving and one for sending. The array, its length, `front`, `rear` and
--   `fillSize` are the fields of the record Ring. An unsigned int is a number below 2^32, an int
--   is its 32-bit pattern, and every addition and subtraction of the code is written with its
--   wrap-around. Fifo.antt is what the ring promises: a bounded queue of bytes.
-- * CPacket.h, CPacket.cpp and NetProtocol.h are Packet.antt. `hidden_buf` is the whole
--   allocation, with the five bytes of header room in front of the payload. Packet/Codec.antt and
--   Packet/Wire.antt say what Encode puts on the wire and what Decode makes of it, and
--   Packet/Fields.antt is about sequences of << and >>.
-- * CNetServer.cpp is Net.antt. Net/Receive.antt is the branch of runIoThread for a completed
--   receive: the loop over the ring, with the calls of OnRecv and disconnect as a list of events.
--   Ring/Segments.antt has the buffers that recvPost and sendPost hand to WSARecv and WSASend.
--   Net/Send.antt is the way of the packets from the send queue over the ring to WSASend.
-- * PacketMaker.cpp is Maker.antt: the answers of the server.
-- * Sector.h and Sector.cpp are Sector.antt: the cells around a sector, and the order of their
--   locks. A coordinate is the 32-bit pattern of an int.
-- * User.h and User.cpp are User.antt; ChatServer.h and ChatServer.cpp are Chat.antt, and
--   ProcPacket.cpp with OnRecv is Chat/Proc.antt. The state of the server is the record Server: a
--   heap of users by pointer, the maps of users and accounts as lists, and the list of each
--   sector. A handler is one step, from a state to a crash, or to its result, a new state and its
--   calls of SendPacket and DisconnectSession in order.
-- * TextParser.h and TextParser.cpp are TextParser.antt: the lookups in Config.ini, over the text
--   that LoadFile has read. A read behind the buffer is a result of its own.
-- * CLanClient.cpp is Lan.antt: the loop over the ring of the client of the monitor server, and in
--   Lan/Send.antt its sends, which go out from the packets themselves. Lan/Life.antt is one access
--   at a time of its threads to the flags and counts of the connection, and Lan/Connect.antt its
--   worker threads under Connect and Disconnect.
-- * MonitorClient.cpp and SendMonitor of ChatServer.cpp are Monitor.antt: the reports to the
--   monitor server.
-- * session.h and the functions of CNetServer.cpp that share a session between threads are
--   Session.antt. Session/Run.antt is one access to the shared fields at a time, for updateIOCount,
--   releasePend, disconnect, recvPost, sendPend, trySend, sendPost, release, runAcceptThread,
--   SendPacket, DisconnectSession, runTimeoutThread and runIoThread. Session/System.antt
--   interleaves any number of such threads. The bytes and the packets are left out there: what
--   Net.antt does with the ring stands between two accesses.
-- * LockFreeStack.h is Stack.antt: Push and Pop, one access to the shared memory at a time, with the
--   tag of the top beside its address. Stack/History.antt interleaves any number of threads, and
--   replays what they did on a list.
-- * MemoryPoolTls.h is Pool.antt: the lists of nodes of each thread, linked through the nodes, and
--   the common stack of lists, on which a Push or Pop of LockFreeStack is one step.
-- * BufferAllocator.h and BufferAllocator.cpp are Buffer.antt: where the arrays of the rings lie.
--   Buffer/Sequence.antt has the calls of Alloc, and Buffer/Twice.antt a call of Free before one.
-- Sector/Deadlock.antt has the locks that ProcSectorMove and LockSectorAround take, and
-- Chat/Reach.antt the states that the handlers lead to.
-- Base.antt has the lists, tests, words and lemmas that the parts share.
--
-- Bounds and fuel: the receive loop runs on fuel, one more than the fill size of the ring. Each
-- round but the last takes at least the six bytes of a frame, so that the loop ends before the
-- fuel does. The loop of the LAN client runs on fuel, and one more than the number of whole frames
-- in the ring is enough. The loop over the words of a text runs on fuel, one more than the text has
-- characters; each word takes at least one. Nothing else needs fuel.
--
-- The tag of Stack.antt counts all changes of the top, and the comparison looks at its last 17
-- bits, as those above an address of 47 bits; a thread is assumed to see fewer than 2^17 changes
-- between its read and its exchange.
--
-- The interleavings of Session/Reach.antt and of Lan/Life/System.antt are those in which fewer
-- than 2^31 references to a session are held at a time, so that the 32 bits of io_count do not
-- wrap around. A reference is a thread's, a request's or a post's, and the system has no room for
-- as many.
--
-- Parameters: the socket calls (Ring/Segments.antt, the record SocketIo: WSARecv fills its buffers
-- in order, WSASend sends them in order), the packet that the pool gives, the byte of rand, and
-- the memory that the code reads without having written it (Maker.antt, the record Env;
-- Chat/Proc.antt, the record Call), the pointer that the pool of users gives,
-- the addresses of the heap (Pool.antt, `malloc`) and of VirtualAlloc (Buffer.antt, `region`).
--
-- Not modelled: Start and Stop of the server; CancelIoEx, which only makes requests complete
-- sooner; LockFreeQueue and LockFreePool, whose operations are single steps where others use
-- them; ObjectPool, which nothing uses; logging, profiling and performance counters, which do not
-- influence the protocol; cpp_redis, a third-party library.
pub mod Base
pub mod Fifo
pub mod Ring
pub mod Packet
pub mod Net
pub mod Maker
pub mod Sector
pub mod User
pub mod Chat
pub mod Monitor
pub mod Session
pub mod Buffer
pub mod Lan
pub mod Pool
pub mod Stack
pub mod TextParser
