-- ===== src/Lib.antt =====
-- Verification library of xweb, a C++ network core in the style of one event loop per thread,
-- with a buffered logger.
--
-- Network side. An EventLoop (net/event_loop.cpp) polls descriptors and calls the handlers of
-- their Channels (net/channel.h), which the Epoller (net/linux/epoller.cpp) watches; other
-- threads hand it functors. A TcpConnection (net/tcp_connection.cpp) owns a Channel and two
-- Buffers (net/buffer.h), and calls back into its owner. A ThreadPool (net/thread_pool.cpp)
-- hands out the loops of worker threads in turn. base/rio.cpp reads lines and blocks for the
-- HTTP side. An Acceptor (net/acceptor.cpp) hands new descriptors to a TcpServer
-- (net/tcp_server.cpp), which names its connections and keeps them in a map.
-- Logging side. A Logger (base/logger.cpp) is one statement. Its LogStream (base/log_stream.h)
-- formats into a fixed array; AsyncLogging (base/async_logging.cpp) collects lines in such
-- arrays, and one backend thread writes them out to a LogFile (base/log_file.cpp) that rolls.
--
-- Files.
--   Prelude          lists, partial results, slices of a list, size_t arithmetic.
--   Buffer           every method of Buffer in net/buffer.h but internalCapacity: appendInt64 and its
--                    kin are Buffer.Words, findCRLF and findEOL Buffer.Search, readFd, shrink
--                    and toStringPiece Buffer.Transfer.
--   Channel          the masks and handleEvent.
--   TcpConnection    sendInLoop, send, handleRead, handleWrite, handleClose, shutdown and the
--                    states; a method is the function of its name in snake_case. The state and
--                    the effects are TcpConnection.Core; TcpConnection.Run has sequences of all of them.
--                    TcpConnection.Run.Peers joins two connections by what TCP promises, an ordered
--                    stream that ends with the shutdown of the write side. TcpConnection.Watch
--                    hands the effects to the Epoller, and Run.Watched does so for whole runs.
--   EventLoop        loop, doPendingFunctors, queueInLoop (from a handler, from a functor and from other
--                    threads), wakeup and quit as steps of a relation;
--                    runAfter, runEvery and cancel are EventLoop.Timers, the thread-local pointer of the
--                    constructor is EventLoop.Threads.
--   Epoller          update, remove and poll; Epoller.Kernel has what epoll watches as a replay of the
--                    calls, Epoller.Registry its invariant, Epoller.Events the handlers that follow a poll;
--                    Epoller.Descriptors has wakeup over the calls of an eventfd, the timer
--                    descriptors and the destructor.
--   KqueuePoller     the same over kqueue: KqueuePoller.Filters has what the kernel makes of its changes.
--   Socket           every method of net/socket.cpp, as the system calls that it makes.
--   InetAddress      net/inet_address.h over an inet_ntoa and an ntohs that are arguments.
--   Acceptor         the constructor, listen, handleConn and the destructor.
--   TcpServer        newConnection, removeConnection and the destructor, with what happens to the
--                    connections in between; TcpServer.Serve has whole runs of a server.
--   ThreadPool       start and getNextLoop.
--   Rio              rio_read, rio_readlineb, rio_readn and rio_writen.
--   HttpData         net/http_data.cpp: the headers of a request are HttpData.Headers, the file that is
--                    served is HttpData.Static.
--   HttpServer       the constructor, start and handNewConn of net/http_server.cpp; HttpServer.Deal is the way
--                    from the constructors to the loop of a connection.
--   EventLoopThread  startLoop and run of net/event_loop_thread.cpp as steps of a relation.
--   LogStream        FixedBuffer, convert, convertHex and every operator<<; LogStream.Abstract is the buffer up
--                    to what lies behind its text, a quotient.
--   LogFile          AppendFile, rollFile, append and flush of base/log_file.cpp and base/file_util.cpp; the
--                    names of the files are LogFile.Names.
--   ProcessInfo      hostname of base/process_info.cpp.
--   CountDownLatch   wait and countDown of base/countdown_latch.cpp as steps of a relation.
--   Logger           the macros, constructors and destructor of base/logger.h and base/logger.cpp; their
--                    lines are Logger.Lines, what a program logs is Logger.Program.
--   AsyncLogging     append and threadFunc, interleaved by a list of events; AsyncLogging.Life adds start, stop
--                    and the latch.
--   Pipeline         Logger and AsyncLogging put together by setOutput, for one thread that logs.
--
-- State is passed on explicitly. A byte is a number, and size_t sums wrap at 2^64. `none` is a
-- failed assert (the build keeps them), an exception, or an access out of an array; a call that
-- blocks for ever in Rio is `none` too. What a system call returns is an argument. A
-- connection's calls of its socket, its loop and the user's callbacks are a list of effects, so
-- a callback that calls back into the connection appears as a further operation after this one;
-- a high water mark callback that does so, in the middle of sendInLoop, is not modelled.
--
-- Fuel. The digit loops of LogStream get one unit more than the number they convert, which has
-- fewer digits. The loops of HttpData get turns: its theorems say how many are enough. The other
-- loops recur on a list or on the count of the turns they have left.
--
-- Not modelled: strerror_tl, pid, stateToString, the getters and the setters of callbacks, and the
-- programs in test/.
-- base/StringPiece.h and base/Types.h are copies of Google's.
pub mod Acceptor
pub mod AsyncLogging
pub mod Buffer
pub mod Channel
pub mod CountDownLatch
pub mod Epoller
pub mod EventLoop
pub mod EventLoopThread
pub mod HttpData
pub mod HttpServer
pub mod InetAddress
pub mod KqueuePoller
pub mod LogFile
pub mod LogStream
pub mod Logger
pub mod Pipeline
pub mod Prelude
pub mod ProcessInfo
pub mod Rio
pub mod Socket
pub mod TcpConnection
pub mod TcpServer
pub mod ThreadPool
