-- ===== src/Link/Returns.antt =====
-- FtpClient::performGet and performList return, and the ServerThread that serves them: from every point of
-- a download or a listing, some continuation ends it.
use comp6461_assignment.Sender.{Sender, Job}
use comp6461_assignment.Sender
use comp6461_assignment.Receiver.{Receiver}
use comp6461_assignment.FtpClient.Defs.{FtpClient}
use comp6461_assignment.FtpClient.Endings.{Returns}
use comp6461_assignment.Link.{Link}
