-- ===== src/Lib.antt =====
-- UglyFF is a small framework for TCP servers (include/) with a management server built on it
-- (superserver/). A connection is a zTCPTask over a zSocket. Commands are framed by a PACK_HEAD and
-- queued in a ByteBuffer; an epoll thread fills the socket's receive queue; and the threads of a
-- zTCPTaskPool take a connection through verification, synchronisation, its main loop and recycling.
--
-- Which file models what:
--   Base, Memory              words of 64 bits, lists, blocks of bytes
--   Buffer                    ByteBuffer, t_BufferCmdQueue, t_StackCmdQueue (include/engine.h)
--   Packet                    PACK_HEAD, packetAppend, packetUnpack (include/engine.h, include/zSocket.cpp)
--   Socket                    zSocket's state, life cycle and polls; Socket/Send: sendCmd, sync;
--                             Socket/Receive: RecvByte, RecvData, recvToCmd (include/zSocket.cpp)
--   Time                      zRTime, zTime, Timer (include/engine.h)
--   Task                      zTCPTask: states, test signal, ListeningRecv (include/zTCPTask.cpp)
--   Thread                    zThread, zThreadGroup (include/zThread.cpp)
--   TaskPool                  zTCPTaskPool and its threads (include/zTCPTaskPool.cpp)
--   Epoll                     zEpoll (include/zEpoll.cpp), zEpollRecvThread (include/engine.h)
--   Server                    ServerTask (superserver/ServerTask.cpp); Server/Login: its verification
--                             of a connection from end to end; Server/Manager: ServerManager
--                             (superserver/ServerManager.cpp)
--   Text                      stringtok, the case conversions, Parse, zProperties (include/engine.h)
--   Analysis                  CmdAnalysis (include/engine.h)
--   Commands                  the commands and entries of servers, the game zone (include/csCommon.h)
--   Listener                  zTCPServer (include/zTCPServer.cpp), zAcceptThread (include/engine.h)
--   Service                   zService (include/zService.cpp), zNetService (include/zNetService.cpp)
--   Client                    zTCPClient, zTCPBufferClient (include/zTCPClient.cpp)
--   SubNet                    zSubNetService and SuperClient (include/zSubNetService.cpp)
--   Super                     SuperService (superserver/superserver.cpp)
--   Delivery                  both ends of a connection together
--   Tests                     concrete inputs
--
-- How the parts interact. A service runs zService::main. zNetService starts the epoll thread, the
-- listening socket and the accept thread, which hands each connection to newTCPTask; SuperService puts
-- it into the pool. A zSubNetService connects to the management server as a client and waits for its
-- answer before it starts its own network.
--
-- How the code is modelled. State is a record and an operation a function on it. Each call holds the
-- object's mutex, so it is one step. The kernel is an argument: how many bytes it takes or hands
-- over, which errno it sets, what the clock says. A write or read outside a block, and a call through
-- a null pointer, is `none`. A DWORD is `unsigned long`, 64 bits on Linux, with its wrap-around; an
-- `int` made of it keeps the low 32. A text is the list of its bytes.
-- The array into which ListeningRecv copies a command is not initialised: what stands behind a
-- command of one byte is an argument, the same in each round of a call.
--
-- Loops on fuel: the loop behind the label `ret` of RecvData has fuel 2, which is enough since its
-- second test fails; stringtok has one round more than the text has bytes, since each round moves on;
-- the loops of ListeningRecv and of zService::main have their fuel as an argument, and the theorems
-- say how much is enough. The loops that wait for others run over the list of what they find.
--
-- Not modelled: the locks (wrappers of pthread calls), sleeping, the logging (log4cplus is another
-- project), the functions that are empty in the source, and the programs for trying the library.
pub mod Base
pub mod Memory
pub mod Buffer
pub mod Packet
pub mod Socket
pub mod Time
pub mod Task
pub mod Delivery
pub mod Epoll
pub mod Thread
pub mod TaskPool
pub mod Server
pub mod Text
pub mod Analysis
pub mod Listener
pub mod Commands
pub mod Service
pub mod Client
pub mod SubNet
pub mod Super
pub mod Tests
