-- ===== src/Link/Ending.antt =====
-- FtpClient::performUpload returns: from every point of an upload, some continuation ends it.
use comp6461_assignment.Sender.{Sender}
use comp6461_assignment.Receiver.{Receiver}
use comp6461_assignment.FtpClient.Defs.{FtpClient}
use comp6461_assignment.Link.{Link}
