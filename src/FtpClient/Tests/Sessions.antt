-- ===== src/FtpClient/Tests/Sessions.antt =====
-- The client and a thread of the server.
use comp6461_assignment.Base.{false, ℕ, ◌≡◌, refl, none, some, List, [], ◌∷◌, arith}
use comp6461_assignment.Base.Int.{pos}
use comp6461_assignment.Message.{Msg, MsgType, int_bytes}
use comp6461_assignment.Sender.{run_pass, start_thread, thread_msg}
use comp6461_assignment.ServerThread.Defs.{Thread, renaming, waiting_for_request, ok}
use comp6461_assignment.ServerThread.Requests.{send_file}
use comp6461_assignment.FtpClient.Defs.{Event, got, silent, FtpClient, gave_up}
use comp6461_assignment.FtpClient.Menu.{sync_server}
use comp6461_assignment.FtpClient.Transfers.{perform_get}
use comp6461_assignment.FtpClient.Endings.{Finally}
use comp6461_assignment.FtpClient.Sync.{Synced, Unsynced, sync_server_fresh}
use comp6461_assignment.FtpClient.Answers.{perform_get_missing}
use comp6461_assignment.FtpClient.Rename.{Typed}
use comp6461_assignment.FtpClient.Rename
use comp6461_assignment.FtpClient.Renaming.{renaming_client}
use comp6461_assignment.FtpClient.Tests.{api, message, idle_sender, idle_receiver, client}

-- An answer to an older handshake, and the one that thread 5 gives.
abbrev answers : List Event
answers =
    got (message MsgType.resp 0 [])
    ∷ silent
    ∷ got (record (message MsgType.handshake 3 (int_bytes 3)) { server_id = pos 5 })
    ∷ got (record (message MsgType.handshake 3 (int_bytes 4)) { server_id = pos 5 })
    ∷ []

sync_server_fresh_example :
    Finally (Synced api (pos 2) 4) (Unsynced api (pos 2)) (sync_server api answers client)
sync_server_fresh_example = sync_server_fresh api answers client

abbrev handshake : Msg
handshake = message MsgType.handshake 6 (int_bytes 3)

abbrev thread : Thread api
thread = record {
  server_id = 5;
  files_directory = [];
  current_state = waiting_for_request;
  current_msg = handshake;
  sender = some idle_sender;
  receiver = some idle_receiver;
  filename = [];
  sequence_number = 6;
  disk = [];
  outbox = [];
}

-- The client asks for the file to rename with the last number.
abbrev asking : FtpClient api
asking = record client { sequence_number = 6 }

abbrev new_name : List ℕ
new_name = b'b' ∷ []

abbrev old_name : Typed
old_name = record { name = b'a' ∷ []; again = false }

abbrev allowed : Msg
allowed = message MsgType.ack 6 []

abbrev asked : FtpClient api
asked = record (renaming_client api asking old_name allowed) {
  requests =
      start_thread (renaming_client api asking old_name allowed).requests
        (thread_msg (pos 2) (pos 1) MsgType.resp 7 new_name 1);
}

abbrev renaming_thread : Thread api
renaming_thread = record thread {
  current_state = renaming;
  current_msg = thread_msg (pos 2) (pos 1) MsgType.resp 7 new_name 1;
}

abbrev asked_for_file : Thread api
asked_for_file = record thread { server_id = 2; current_msg = message MsgType.get_file 6 new_name }

perform_get_missing_example :
    (m : Msg) × (t' : Thread api) × (c' : FtpClient api) × (send_file api asked_for_file ≡ ok t')
    × (t'.outbox ≡ m ∷ [])
    × (perform_get api new_name (got m ∷ silent ∷ []) client ≡ gave_up c' (silent ∷ []))
    × (c'.disk ≡ [])
    × (run_pass c'.requests 0 ≡ none)
perform_get_missing_example =
    perform_get_missing api asked_for_file client new_name (silent ∷ []) (omega arith) (omega arith)
      refl refl refl
