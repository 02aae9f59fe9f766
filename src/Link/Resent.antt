-- ===== src/Link/Resent.antt =====
-- What a repeated request does to FtpClient::performUpload.
use comp6461_assignment.Base.{ℕ, ◌<◌, ◌≡◌, ◌⊎◌, some}
use comp6461_assignment.Message.{Msg}
use comp6461_assignment.Sender.{Sender, Job, run_pass, packet_msg, eof_msg}
use comp6461_assignment.Receiver.{Receiver}
use comp6461_assignment.FtpClient.Defs.{FtpClient}

-- No worker sends packet 0: what one sends is a later packet, or the EOF message.
abbrev pub Dropped : Job → Sender → Type 0
Dropped job s =
    (f : ℕ) (m : Msg)
    → f < s.next
    → run_pass s.workers f ≡ some m
    → ((j : ℕ) × (0 < j) × (m ≡ packet_msg job j)) ⊎ (m ≡ eof_msg job)
