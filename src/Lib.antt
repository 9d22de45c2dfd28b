-- ===== src/Lib.antt =====
-- iocp-netlib: a network library over I/O completion ports, with the pools and queues it is built on.
--
-- The program. An acceptor (Netlib/TcpAcceptor.cpp) keeps AcceptEx requests in flight and turns each
-- accepted one into a TcpClient (Netlib/TcpClient.cpp) of its TcpService (Netlib/TcpService.cpp). Worker
-- threads (Netlib/NetCoreIOCP.cpp) hand each completed request to OnCompleteOperation of its client,
-- which cuts the received bytes into packets, calls the application, posts the next receive, and ends
-- the connection with its last request. The service maps ids to clients, sends, closes, and times
-- silent clients out. A NetService (Netlib/NetService.cpp) is what applications hold of a TcpService; the
-- assist thread of the core calls the services that have started and not stopped. The HTTP service
-- (Netlib/HttpServiceImplementer.cpp) is an application whose packets are requests. Contexts and packets
-- come from the memory pools of include/tool; applications pass packets between threads through
-- PackageQueue and MessageQueue (Baselib), and objects through FixedObjectPool. SuperSocket is a
-- blocking socket for clients, apart from all this. Counters (Baselib/SnmpStatistic.cpp) are logged once
-- a round by the service, and a log line (Baselib/LogManager.cpp) goes through a PackageQueue to the
-- thread that writes the files.
--
-- The files.
--   Base            shared names, Boolean tests on the native numbers, list, block and Perm lemmas;
--                   Texts is texts as lists of codes
--   Config          include/Config.h: NetServiceErr
--   Memory          the words and bytes that pools and queues share
--   FixedPool       include/tool/FixedMemoryPool.h: create, alloc_raw, free_raw. Chain is the free list,
--                   Laws the invariant, Writes what clients write, Clients their steps in any order, Shape what
--                   only the constructor sets
--   DynamicPool     include/tool/DynamicMemoryPool.h: create, free, clear. Heap is what operator new has
--                   given and operator delete not taken
--   Semaphore       include/tool/Semaphore.h: create, wait, post
--   ObjectPool      include/tool/FixedObjectPool.h: construct, acquire, release. Shared is the threads that
--                   take and give back, in any interleaving
--   Buffer          include/tool/Buffer.h. Growth is the doubling loop, Refine reads a buffer as its bytes
--   Packet          PacketWrite and PacketRead of Baselib/PackageQueue.cpp: attach, write. Append is
--                   writes one after another
--   PackageQueue    Baselib/PackageQueue.cpp. Handoff is its steps in any interleaving, Restart is Init
--                   after Uninit, Alloc an allocation and a write that have room
--   MessageQueue    Baselib/MessageQueue.cpp. Refine reads the queue in memory as a list of messages;
--                   Drain is Front, Pop and Clear; Calls is calls one after another, Fifo that they
--                   act as a bounded queue, Shape the sizes of the pool
--   Framing         TcpClient::SplitPacket. Stream is the relation Frames between a stream and the packets
--                   in it, Drain and Loop the inner and the outer loop, Promise what a call
--                   promises and Refine that it does, Chunks a sequence of calls, Roundtrip packets
--                   that are sent and received
--   Client          TcpClient with the requests that the system holds for it and the calls that the
--                   application has seen. Post is PostRecv, PostSend, PostSpecial and CheckRelease;
--                   Complete is OnCompleteOperation and its handlers; Life is the invariant of an
--                   accepted connection and its steps; Special is two paths that lose a connection;
--                   Connect is PostConnect and PostSendHttp
--   Acceptor        TcpAcceptor: PostAccept, AcceptConnection, OnCompleteOperation. Life joins it to
--                   Client.Life
--   Service         TcpService: the map, FindClient, Send, CloseSocket, RemoveClient, AllocTcpClient,
--                   checkStatus, GetConnectionCount. Connect is ConnectServer, Connecting its client
--                   before the wait, Server the whole of it
--   CompletionPort  Netlib/NetCoreIOCP.cpp: Initialize, UnInitialize, the services and the ids. Workers is
--                   IOCPWorkProc with the packets that the workers share, Stop and Threads what they and
--                   UnInitialize do together, Startup the whole of Initialize, Ids the ids of clients,
--                   Assist the assist thread
--   Lifecycle       StartNetService and StopNetService of Netlib/TcpService.cpp, and Netlib/NetService.cpp.
--                   Entries is the core's map of services, Entered what starts and stops do to it,
--                   Dangling the services that the core calls
--   Http            ParseHttpHeaders of Netlib/TcpClientHttp.cpp. Bounds is what it reads; Fields is
--                   GetContentLength, IsConnectionClose and HttpHeaders::Find; Split is SplitHttpPacket,
--                   Drained and Returns that it ends; Response is the text that PostSendHttp writes, with Numbers,
--                   Lines and Answer for what the parser makes of it; Router is SetRoute and OnHttpPacket
--                   of Netlib/HttpServiceImplementer.cpp, Requests what a handler gets; Queue is its
--                   OnReceived and ProcessMsg, Held the packet between them and Handover both together
--   Socket          Netlib/SuperSocket.cpp: WaitEvent, Recv, Create, Connect, SetBlocking, Close. Transfer
--                   is RecvAll and SendAll, Promise what they need of the system, Deadline and Sending
--                   what they do in time, Handles the socket handles
--   Timer           CTimer and GetMsInterval of include/tool/util.h
--   Statistics      Baselib/SnmpStatistic.cpp, and logStats of Netlib/TcpService.cpp. Rounds is logStats
--                   between the counts of other threads, Exact what its texts hold
--   Log             Baselib/LogManager.cpp: WriteV, Write, ThreadProc. Cells is the bytes of a LogCell,
--                   Passing WriteV and ThreadProc together; Files is SetLogLevel, _write and UnInit, Table
--                   the search by name, Owned the invariant of the table and its FILEs
-- Each Tests module, and Http.Runs, Http.QueueRuns and Service.ConnectTests, runs the definitions on
-- small inputs and applies the theorems to them.
--
-- State and effects. A handler takes the state and the answers of the system's calls (WSARecv, WSASend,
-- PostQueuedCompletionStatus, malloc, operator new, the tick count) as arguments, and gives the new
-- state with its result. Session.io and Session.events record the requests that the system has taken
-- and the calls of the application. SplitPacket and the application's callback are an interface of the
-- connection (Splitter) and of the framing (RecvOps). A handler is one step: what other threads do
-- while it runs is a step before or after it, except for PackageQueue::Pop and
-- FixedObjectPool::Acquire, whose wait and part under the lock are two steps, for AcceptConnection, whose
-- OnConnected is a step of its own behind the posting of the first receive, and for ConnectServer, whose
-- wait the other threads' work fills. The memory behind a block
-- that the code may read past its end is an argument. The system of SuperSocket is a parameter (Os):
-- a state with a tick count, and select, recv and send on it; what it promises is a hypothesis
-- (Socket.Promise).
--
-- Bounds. Numbers are ℕ; size_t wraps at 2 ^ 64, long and int at 2 ^ 32, with the wrap written out.
-- Addresses are those of a 64-bit build and 0 is null; within a block of memory they do not wrap.
-- The loops of SplitPacket run on fuel: one more than the bytes at hand, since each round of the inner loop takes a packet of at least four bytes and
-- each round of the outer one at least one byte; Framing.Refine shows that this is enough. The loop of
-- ParseHttpHeaders runs on one more than the offset of the blank line, since each line takes at least
-- two bytes; Http.Bounds shows that this is enough. The loops of SplitHttpPacket run on one more than the
-- bytes and one more than the chunk, which Http.Returns shows to be enough; those of RecvAll and SendAll
-- on one more than the length, since each round moves at least one byte, and the doubling of a buffer on
-- 64 rounds, with Socket.Deadline, Socket.Sending and Buffer.Growth for it. A number printed by %u has at
-- most 10 digits, one by %llu at most 20; a log line is cut to 10238 bytes. All other loops are structural.
--
-- Not modelled. Of the log, Init with its directories and the macros that lead to Write; the log calls
-- of the other components, which change no state of theirs; exceptions out of a callback (operator new
-- that fails, the catch of OnCompleteOperation); what a request completes on whose client checkStatus has
-- freed; the set-up of sockets and threads and the Windows
-- service (Netlib/SocketHelper.cpp, Baselib/Thread.cpp, Baselib/ServiceInstance.cpp), which are
-- calls of the system; of TcpService, SendHttpResponse and MakeLog; of the HTTP service, its Start,
-- Stop and SendResponse; of SuperSocket, the members that are one call of the system; of util.h, the
-- path, time and code-page helpers. Baselib/Markup.cpp is a third-party library,
-- Baselib/AdoDatabase.cpp calls COM, and TestServer and TestClient are examples.
pub mod Base
pub mod Config
pub mod Framing
pub mod Memory
pub mod DynamicPool
pub mod FixedPool
pub mod Semaphore
pub mod ObjectPool
pub mod Packet
pub mod PackageQueue
pub mod MessageQueue
pub mod Buffer
pub mod CompletionPort
pub mod Client
pub mod Acceptor
pub mod Service
pub mod Lifecycle
pub mod Http
pub mod Timer
pub mod Socket
pub mod Statistics
pub mod Log
