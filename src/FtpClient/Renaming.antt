-- ===== src/FtpClient/Renaming.antt =====
-- FtpClient::performRename, and the ServerThread that waits for the new name.
use comp6461_assignment.Base.{◌+◌, length}
use comp6461_assignment.Message.{Msg, MsgType}
use comp6461_assignment.Sender.{thread_msg, start_thread}
use comp6461_assignment.ServerThread.Defs.{FileApi}
use comp6461_assignment.ServerThread.Requests
use comp6461_assignment.FtpClient.Defs.{FtpClient, acknowledge}
use comp6461_assignment.FtpClient.Rename.{Typed}

module _ (api : FileApi) where
  -- The client when the server has accepted the old name by the message `a`.
  abbrev pub renaming_client : FtpClient api → Typed → Msg → FtpClient api
  renaming_client c old a =
      record (acknowledge api c.requests.next (record c {
        requests = start_thread c.requests (
            thread_msg c.server_identifier c.client_identifier MsgType.put c.sequence_number
              old.name (length old.name));
        server_msg = a;
      })) { sequence_number = c.sequence_number + 1 }
