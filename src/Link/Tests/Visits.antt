-- ===== src/Link/Tests/Visits.antt =====
-- The transfers of two bytes as visits of a client that chooses them in its menu.
use comp6461_assignment.Base.{◌≡◌, refl, some, [], ◌∷◌, arith}
use comp6461_assignment.Base.Int.{pos}
use comp6461_assignment.Sender.{Sender, new_sender, initialize_payload}
use comp6461_assignment.Sender
use comp6461_assignment.ServerThread.Defs.{Thread, ok, initializing, new_thread}
use comp6461_assignment.ServerThread.Run.{run}
use comp6461_assignment.ServerThread.Endings.{actives}
use comp6461_assignment.FtpClient.Defs.{got, silent, FtpClient}
use comp6461_assignment.FtpClient.Menu.{get, show_menu}
use comp6461_assignment.FtpClient.Endings.{Finally}
use comp6461_assignment.Link.Get.{get_request}
use comp6461_assignment.Link.Download.{ThreadEnds}
use comp6461_assignment.Link.Menu.{handshake, echo, synced}
use comp6461_assignment.Link.MenuGet.{menu_get_served}
use comp6461_assignment.Link.Tests.{blank, bytes, raw_sender, sender, receiver, finished}
use comp6461_assignment.Link.Tests.Download.{api, client, filename, acks, Downloads-started}
use comp6461_assignment.Link.Tests.Download
use comp6461_assignment.Link.Tests.Upload

-- A client that has been with server thread 1.
abbrev visitor : FtpClient api
visitor = record client { server_identifier = pos 1; sequence_number = 4 }

abbrev raw_thread : Thread api
raw_thread = record {
  server_id = 0;
  files_directory = [];
  current_state = initializing;
  current_msg = blank;
  sender = some raw_sender;
  receiver = some receiver;
  filename = [];
  sequence_number = 0;
  disk = [];
  outbox = [];
}

menu_get_served_example :
    (t' : Thread api) × (run api 1 raw_sender receiver
        (actives (
          handshake api visitor
          ∷ handshake api visitor
          ∷ get_request api (synced api 2 visitor) filename
          ∷ acks))
        (new_thread api 2 blank raw_thread)
      ≡ some (ok t'))
    × ThreadEnds api sender finished [] t'
    × Finally
        (λ (c : FtpClient api).
          (c.disk ≡ (b'd' ∷ b'a' ∷ [], bytes) ∷ [])
          × (c.sequence_number ≡ Sender.final_sequence_number sender))
        (λ (c : FtpClient api). (c.disk ≡ []) × (c.printed ≡ []))
        (show_menu api
          (get filename)
          (got blank ∷ silent ∷ got (echo api 2 visitor) ∷ Download.events)
          visitor)
unfolding initialize_payload new_sender
menu_get_served_example =
    menu_get_served api 1 raw_sender receiver 2 blank raw_thread visitor sender 1 filename bytes
      (blank ∷ []) Download.events acks finished (λ f a. refl) (omega arith) (λ e. cc (e))
      (omega arith) refl refl (omega arith) (omega arith) refl Downloads-started
