-- ===== src/Link/Upload.antt =====
-- A whole upload: FtpClient::performUpload, the ServerThread that stores the file, and the network between
-- them.
use comp6461_assignment.Sender.{Sender}
use comp6461_assignment.Receiver.{Receiver}
use comp6461_assignment.Receiver
use comp6461_assignment.FtpClient.Defs.{FtpClient}
use comp6461_assignment.Link.{Link}
