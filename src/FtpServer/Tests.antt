-- ===== src/FtpServer/Tests.antt =====
-- A server with one client, and the theorems about it at some of its states.
use comp6461_assignment.Base.{ℕ, ◌≡◌, ◌≢◌, refl, false, none, some, [], ◌∷◌, ◌++◌, update}
use comp6461_assignment.Base.Int.{ℤ, pos, negsuc}
use comp6461_assignment.Message.{Msg, MsgType}
use comp6461_assignment.FtpServer.{
  FtpServer, ok, new_server, put, start_server_thread, create_server_thread, handover, handed,
  hand_over, wait_to_forget, handle_message, get_server_id, admit_client, restart_client,
  dispatch_message,
}
use comp6461_assignment.FtpServer.Clients.{IsValid, handle_message-IsValid}
use comp6461_assignment.FtpServer.Running.{Running}
use comp6461_assignment.FtpServer.Dispatch.{restart_reconnects}

abbrev client : ℤ
client = pos 9

abbrev message : MsgType → ℤ → Msg
message type server = record {
  client_id = client;
  server_id = server;
  type = type;
  length = 0;
  sequence_number = 3;
  buffer = [];
}

abbrev fresh : FtpServer
fresh = new_server false

fresh-IsValid : IsValid fresh
unfolding new_server
fresh-IsValid = record {
  served = λ c i e. cc (e);
  ranged = λ c i e. cc (e);
  distinct = λ c d i e f. cc (e);
  remembered = λ c i e. cc (e);
}

-- The client has been given thread 5 by its handshake, in which no id was known yet.
abbrev serving : FtpServer
serving = handed 5 (message MsgType.handshake (negsuc 0)) (record (start_server_thread 5 fresh) {
  client_ids = put (λ _. none) client 5;
  past_server_ids = put (λ _. none) client 5;
})

serving-admitted :
    handle_message (261 ∷ []) (message MsgType.handshake (negsuc 0)) fresh ≡ ok serving
unfolding new_server handle_message get_server_id admit_client create_server_thread dispatch_message
    hand_over
serving-admitted = refl

serving-IsValid : IsValid serving
serving-IsValid =
    handle_message-IsValid (message MsgType.handshake (negsuc 0)) (261 ∷ []) fresh serving
      fresh-IsValid serving-admitted

-- Thread 5 has ended, and its id is free again.
abbrev left : FtpServer
left = record fresh { is_thread_active = update (λ _. none) 5 (some false) }

abbrev restarted : FtpServer
restarted =
    record (start_server_thread 6 (
      handed 5 (message MsgType.handshake (pos 5)) (record serving {
        past_server_ids = put serving.past_server_ids client 5;
        is_thread_active = update serving.is_thread_active 5 (some false);
      }))) { client_ids = put serving.client_ids client 6 }

restart_reconnects_example :
    (id : ℕ) × (s'' : FtpServer) × (id ≢ 5)
    × (restarted.client_ids client ≡ some id)
    × (handle_message [] (message MsgType.handshake (pos 5)) restarted ≡ ok s'')
    × (s''.handed_over
        ≡ restarted.handed_over ++ handover id (message MsgType.handshake (pos 5)) restarted ∷ [])
unfolding new_server handle_message get_server_id restart_client create_server_thread
    dispatch_message hand_over wait_to_forget
restart_reconnects_example =
    restart_reconnects (message MsgType.handshake (pos 5)) 5 refl refl serving serving-IsValid refl
      refl (6 ∷ []) [] restarted refl
