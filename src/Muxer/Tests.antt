-- ===== src/Muxer/Tests.antt =====
-- A multiplexer whose addresses are numbers, and the theorems about it at some of its states.
use comp6461_assignment.Base.{
  ℕ, true, false, ◌≡◌, ◌≢◌, refl, none, some, List, [], ◌∷◌, ◌++◌, arith,
}
use comp6461_assignment.Base.Int.{pos, negsuc}
use comp6461_assignment.Message.{Msg, MsgType, int_bytes}
use comp6461_assignment.Wire.{msg_bytes, int32_at, get_message, msg_get}
use comp6461_assignment.Wire.Layout.{IsSendable, cleared}
use comp6461_assignment.ServerThread.Defs.{FileApi}
use comp6461_assignment.FtpClient.Defs.{FtpClient}
use comp6461_assignment.FtpClient.Menu.{new_client, muxer_request, perform_muxer_handshake}
use comp6461_assignment.Muxer.{
  Muxer, Input, from_client, went, searching, ◌then◌, new_muxer, draw_id, register_client,
  listen_client, listen_router, on_input, run,
}
use comp6461_assignment.Muxer.Registry.{Registered}
use comp6461_assignment.Muxer.Admission.{Asks, Full, admitted, ids_distinct, registration_searches}
use comp6461_assignment.Muxer.Routing.{replies_reach_client, requests_reach_router}
use comp6461_assignment.Muxer.Handshake.{muxer_handshake_agrees}
use comp6461_assignment.Muxer.Service.{Trace, view, run_refines}

reply_msg : Msg
reply_msg = record {
  client_id = pos 44;
  server_id = pos 3;
  type = MsgType.resp;
  length = 2;
  sequence_number = 6;
  buffer = 7 ∷ 9 ∷ [];
}

-- A file system without files.
abbrev api : FileApi
api = record {
  Disk = Unit;
  path_file_exists = λ disk path. false;
  read = λ disk path. none;
  file_names = λ disk directory. [];
  write = λ disk path bytes. disk;
  rename = λ disk from to. disk;
  path_find_extension = λ path. [];
  path_remove_extension = λ path. path;
}

abbrev client : FtpClient api
client = record {
  client_identifier = pos 0;
  server_identifier = pos 0;
  sequence_number = 6;
  sync_count = 0;
  files_directory = [];
  receiver = record {
    server_id = pos 0;
    client_id = pos 0;
    completed_set = [];
    total_payload_size = 0;
    current_window = λ _. none;
    sequence_seed = 0;
    window_origin = 0;
    is_complete = false;
  };
  sender = record {
    job = record {
      server_id = pos 0;
      client_id = pos 0;
      complete_payload = [];
      number_of_packets = 0;
      payload_size = 0;
      sequence_seed = 0;
    };
    is_complete = true;
    current_window = λ _. none;
    window_state = λ _. none;
    current_window_origin = 0;
    workers = record { next = 0; is_acked = λ _. true; msg = λ _. reply_msg };
  };
  requests = record { next = 0; is_acked = λ _. true; msg = λ _. reply_msg };
  server_msg = reply_msg;
  disk = tt;
  outbox = [];
  printed = [];
}

-- What performMuxerHandshake sends: the id -1.
abbrev id_request : List ℕ
id_request = 255 ∷ 255 ∷ 255 ∷ 255 ∷ []

abbrev empty : Muxer ℕ
unfolding new_muxer
empty = new_muxer [] []

-- The client at address 8 is given the id 44, and that at address 9 the id 5.
abbrev one_client : Muxer ℕ
unfolding empty
one_client = admitted 44 8 id_request empty

abbrev two_clients : Muxer ℕ
unfolding one_client
two_clients = admitted 5 9 id_request one_client

abbrev later : List (Input ℕ)
later = from_client (44 ∷ 5 ∷ []) 9 id_request ∷ []

id_request-Asks : Asks id_request empty
unfolding empty new_muxer int32_at
id_request-Asks = record { fits = omega arith; null = refl }

first_drawn : draw_id (300 ∷ []) empty.client_map ≡ some 44
unfolding empty new_muxer draw_id
first_drawn = refl

ran : (listen_client (300 ∷ []) 8 id_request empty then run 0 later) ≡ went two_clients
unfolding empty new_muxer one_client two_clients listen_client register_client draw_id run on_input
    int32_at
ran = refl

second_drawn : draw_id (44 ∷ 5 ∷ []) one_client.client_map ≡ some 5
unfolding empty new_muxer one_client draw_id
second_drawn = refl

third_drawn : draw_id (5 ∷ 44 ∷ 6 ∷ []) two_clients.client_map ≡ some 6
unfolding empty new_muxer one_client two_clients draw_id
third_drawn = refl

ids_distinct_example : ◌≢◌ {A = ℕ} 44 6
ids_distinct_example =
    ids_distinct 0 (300 ∷ []) (5 ∷ 44 ∷ 6 ∷ []) 8 id_request later empty two_clients 44 6
      id_request-Asks first_drawn ran third_drawn

reply_msg-IsSendable : IsSendable reply_msg
unfolding reply_msg
reply_msg-IsSendable = record {
  client = omega arith;
  server = omega arith;
  typed = tt;
  fits = omega arith;
  filled = omega arith;
  numbered = omega arith;
}

named : reply_msg.client_id ≡ pos 44
unfolding reply_msg
named = refl

replies_reach_client_example :
    (told told' : Muxer ℕ) × (listen_client (300 ∷ []) 8 id_request empty ≡ went told)
    × (told.to_clients ≡ empty.to_clients ++ (8, int_bytes 44) ∷ [])
    × (listen_router 0 false (msg_bytes reply_msg) two_clients ≡ went told')
    × (told'.to_clients ≡ two_clients.to_clients ++ (8, msg_bytes reply_msg) ∷ [])
    × (msg_get reply_msg (msg_bytes reply_msg) ≡ some (cleared reply_msg))
replies_reach_client_example =
    replies_reach_client 0 (300 ∷ []) 8 id_request later empty two_clients 44 reply_msg reply_msg
      id_request-Asks first_drawn ran reply_msg-IsSendable named

known : reply_msg.client_id ≢ negsuc 0
unfolding reply_msg
known e = cc (e)

requests_reach_router_example :
    (s' : Muxer ℕ) × (listen_client [] 8 (msg_bytes reply_msg) one_client ≡ went s')
    × (s'.to_router ≡ one_client.to_router ++ msg_bytes reply_msg ∷ [])
    × (s'.client_map ≡ one_client.client_map)
    × (s'.to_clients ≡ one_client.to_clients)
    × (get_message [] (msg_bytes reply_msg) ≡ some (cleared reply_msg))
requests_reach_router_example =
    requests_reach_router [] 8 one_client reply_msg [] reply_msg-IsSendable known

no_client : empty.client_map (pos 44) ≡ none
unfolding empty new_muxer
no_client = refl

-- No id is free.
crowded : Muxer ℕ
unfolding empty
crowded = record empty { client_map = λ id. some 7 }

crowded-Full : Full crowded
unfolding crowded
crowded-Full id small = (7, refl)

crowded-Asks : Asks id_request crowded
unfolding crowded empty new_muxer int32_at
crowded-Asks = record { fits = omega arith; null = refl }

nothing_ran : run 0 [] crowded ≡ went crowded
unfolding run
nothing_ran = refl

registration_searches_example : listen_client (1 ∷ 2 ∷ []) 9 id_request crowded ≡ searching
registration_searches_example =
    registration_searches 0 [] crowded crowded (1 ∷ 2 ∷ []) 9 id_request crowded-Full nothing_ran
      crowded-Asks

requests : List (Input ℕ)
requests = from_client (300 ∷ []) 8 id_request ∷ later

requests_ran : run 0 requests empty ≡ went two_clients
unfolding requests empty new_muxer one_client two_clients listen_client register_client draw_id run
    on_input int32_at
requests_ran = refl

run_refines_example : Trace ℕ 0 (view empty) requests (view two_clients)
run_refines_example = run_refines 0 requests empty two_clients requests_ran

muxer_handshake_agrees_example :
    (s' : Muxer ℕ) × (response : List ℕ) × (listen_client
        (44 ∷ 5 ∷ [])
        9
        (muxer_request api (new_client api client))
        one_client
      ≡ went s')
    × (s'.to_clients ≡ one_client.to_clients ++ (9, response) ∷ [])
    × (perform_muxer_handshake api response (new_client api client)
        ≡ some (record (new_client api client) { client_identifier = pos 5 }))
    × Registered (pos 5) 9 s'
muxer_handshake_agrees_example =
    muxer_handshake_agrees api client (44 ∷ 5 ∷ []) 9 one_client 5 second_drawn
