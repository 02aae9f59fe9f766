-- ===== src/FtpClient.antt =====
-- FtpOverUdp/UdpClient/FtpClient.cpp and FtpClient.h: the client program. Its model is in the children:
-- Defs has the state, the waits and the requests, Transfers get, list and upload, Rename the rename, and
-- Menu the handshakes and showMenu. The other children prove.
pub mod Defs
pub mod Transfers
pub mod Rename
pub mod Renaming
pub mod Menu
pub mod Endings
pub mod Responses
pub mod Downloads
pub mod Retrieval
pub mod Returns
pub mod Sync
pub mod Answers
pub mod Uploads
mod Tests
