-- ===== src/Lib.antt =====
-- FTP over UDP: a file server and its clients, which transfer files in packets of at most 256 bytes
-- over datagrams that may be lost, repeated or late.
--
-- The parts of the program, and where they are modelled:
--
--   FtpOverUdp/Common/Common.h         Message: the message, its types, the views of its buffer
--   FtpOverUdp/Common/Receiver.cpp     Receiver: handle_msg is Receiver::handleMsg, get_payload is
--                                      Receiver::getPayload, and so on, one function per method
--   FtpOverUdp/Common/Sender.cpp       Sender: initialize_payload, send, process_ack; a SenderThread is
--                                      a number in Workers, and run_pass one pass of its loop
--   FtpOverUdp/UdpServer/ServerThread.cpp  ServerThread: Defs has the state, Requests the handlers,
--                                      Run the loop of ServerThread::run
--   FtpOverUdp/Common/AsyncLock.cpp    AsyncLock: the flag; Exchange: how FtpServer and a ServerThread
--                                      pass messages by it
--   FtpOverUdp/UdpServer/FtpServer.cpp     FtpServer: the maps of clients and threads, and which thread
--                                      gets which message
--   FtpOverUdp/UdpClient/FtpClient.cpp     FtpClient: Defs has the state, Transfers performGet, performList
--                                      and performUpload, Rename performRename, Menu the handshakes and
--                                      showMenu
--   FtpOverUdp/UdpClientMuxer          Muxer: listen_client is one pass of ClientListener::run, and
--                                      listen_router one of RouterListener::run
--   FtpOverUdp/UdpClient/FtpClient.cpp, FtpOverUdp/UdpServer/FtpServer.cpp
--                                      Wire: the bytes of a message, as msgSend sends them and as
--                                      msgGet and getMessage read them
--   FtpOverUdp/Router/Router.cpp       Router: step is one pass of the loop of Router::Run
--
-- A client talks to the multiplexer, which passes its messages on to the router, and the router to the
-- server; answers come back the same way. FtpServer hands each message to the ServerThread of its
-- client. ServerThread and FtpClient each own a Sender and a Receiver and call them on the messages that
-- come. Link joins a Sender at one end and a Receiver at the other by a network that loses messages, as a
-- step relation: the workers of the sender, the network and the two ends take steps in any order. The
-- theorems about a Link rest on an invariant of each end (Sender.Ack, Receiver.Packet), and on what the
-- channels between them can hold (Link.Flow). The theorems about the client rest on the same two, for
-- messages that come in any order (FtpClient.Downloads, FtpClient.Uploads).
--
-- Whole transfers are put together in Link. A run with both ends is a data type over the steps of the
-- link: Link.Serving.Downloads has what the client's socket gives and what FtpServer hands over to the
-- ServerThread that sends, Link.Saving.Uploads the same for a ServerThread that receives. Link.Served and
-- Link.Stored run ServerThread::run on what it is handed; Link.Session and Link.Get have the client's side
-- of a download, Link.Hearing and Link.Put that of an upload. Link.Download, Link.Upload and Link.Listing
-- join the two for performGet, performUpload and performList. Link.Returns (with Link.Completing) and
-- Link.Ending show that a run that has not ended can go on to an end, since a client that only waits would
-- satisfy the rest. Downloads says how long the client answers: up to its first time-out with a complete
-- receiver. Uploads leaves out runs in which the client, while it sends, gets a second acknowledgement of
-- its request; Link.Asking has the first, and Link.Resent what a second does.
-- Link.Menu, Link.MenuGet and Link.MenuPut start from showMenu: the handshake of syncServer with a new
-- ServerThread, the request, and the transfer.
--
-- Muxer.Service has the abstract view of the multiplexer, Muxer.Handshake the client and the multiplexer
-- together, and FtpClient.Sync, FtpClient.Answers and FtpClient.Renaming the client and a ServerThread.
-- In FtpServer a thread that has read its *isActive as false takes no further message, and a call that
-- waits for it to take one is `waiting`.
--
-- What a client's socket gives is a list of Events: a message, or a time-out. A method of the client takes
-- the events that it needs; when the list ends while it waits, the result is `blocked`. So a theorem that
-- speaks of Finally says what holds when the method returns, and what while it waits, and that it does
-- not fail; one that speaks of Returns says that the method returns, and what holds then.
--
-- Conventions. Numbers are natural numbers. A sequence number and a length are ints that no code makes
-- negative; lengths of payloads are assumed below 2 ^ 31 where that matters, and the router's counters
-- wrap as written. Identifiers are integers, since -1 stands for none. An access outside an array,
-- which C++ leaves undefined, is a value of its own (Status.out_of_bounds, Outcome.crashed, or `none`
-- of process_ack), and so is a thrown exception. A method that returns nothing gives the new state.
-- Memory that the code does not initialise is a parameter (raw).
--
-- Fuel. The loop in Receiver::handleMsg that moves the window has SEQUENCE_RANGE passes, which is
-- enough from any state (Receiver.Normalize). The loops of Sender run at most WINDOW_SIZE times, as
-- written. The loop of ServerThread::saveFile that looks for a free name has fuel of the caller's
-- choice: a thread that finds no free name gives no result, and ServerThread.Files says when it does.
-- The loop of FtpServer::createServerThread goes on for as long as there are random draws in its list,
-- and FtpServer.Threads says which draws end it; so does the loop of ClientListener::run that draws an id.
--
-- What the program takes from Windows and from the C++ library for files and paths is a parameter,
-- FileApi. Nothing is assumed about it but what a theorem's hypotheses say.
--
-- Not modelled: sockets and addresses (a message that is handed to sendto is in a list; failures of the
-- socket calls end the program, and are left out but where said otherwise), the logs, the console but for
-- what the user types, threads and condition variables of the operating system (an AsyncLock passes one
-- message at a time to a ServerThread, whose model takes the messages in that order; the two threads of
-- the multiplexer take turns, one datagram at a time, and whether RouterListener's sendto fails is an
-- input), the programs' main functions, memory that is not
-- freed. The link keeps the order of what it does not lose; the overtaking by one packet that the router
-- brings is modelled at the router alone.
pub mod Base
pub mod Message
pub mod Receiver
pub mod Sender
pub mod Link
pub mod ServerThread
pub mod Router
pub mod FtpServer
pub mod AsyncLock
pub mod FtpClient
pub mod Wire
pub mod Muxer
