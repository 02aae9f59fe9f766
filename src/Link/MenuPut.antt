-- ===== src/Link/MenuPut.antt =====
-- The third choice of FtpClient::showMenu from end to end: the handshake with a new ServerThread, and an
-- upload to it.
use comp6461_assignment.Base.{ℕ, ◌≡◌, ◌⊎◌, List, [], length}
use comp6461_assignment.Base.Int.{pos}
use comp6461_assignment.Message.{Msg, MsgType}
use comp6461_assignment.Sender.{Sender}
use comp6461_assignment.Receiver.{Receiver}
use comp6461_assignment.Receiver
use comp6461_assignment.ServerThread.Defs.{FileApi, Thread, receiving, padded}
use comp6461_assignment.ServerThread.Saving.{Saves}
use comp6461_assignment.FtpClient.Defs.{FtpClient}
use comp6461_assignment.Link.{Link}
use comp6461_assignment.Link.Menu.{synced}

module _ (api : FileApi) where
  open api use {Disk}

  -- The acknowledgement of the request.
  abbrev pub accept : ℕ → FtpClient api → Msg
  accept id c = record {
    client_id = c.client_identifier;
    server_id = pos id;
    type = MsgType.ack;
    length = 0;
    sequence_number = (synced api id c).sequence_number;
    buffer = padded api [];
  }

  -- At the end of the run, from the disk d: the file is stored, or still coming in.
  abbrev pub Stores : List ℕ → Link → Disk → Thread api → Type 0
  Stores bytes l' d t =
      Saves api bytes (Receiver.final_sequence_number l'.receiver) d t
      ⊎ ((t.current_state ≡ receiving) × (t.disk ≡ d))
