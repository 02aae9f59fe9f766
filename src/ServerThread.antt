-- ===== src/ServerThread.antt =====
-- FtpOverUdp/UdpServer/ServerThread.cpp and ServerThread.h: the thread that serves one client. Its
-- model is in the children: Defs has the state and what a thread sends, Requests the handlers, Run
-- the loop over the messages that FtpServer hands over. The other children prove.
pub mod Defs
pub mod Requests
pub mod Run
pub mod Files
pub mod Replies
pub mod Transitions
pub mod Endings
pub mod Saving
pub mod Serving
mod Tests
