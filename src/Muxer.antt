-- ===== src/Muxer.antt =====
-- The client multiplexer: ClientListener::run and RouterListener::run (FtpOverUdp/UdpClientMuxer), and the
-- map from client ids to addresses that they share. An address (sockaddr_in) is the sockets library's: a
-- type, with the cleared address that operator[] of std::map inserts. The two threads are taken to run one
-- datagram at a time. The log is left out.
pub mod Registry
pub mod Admission
pub mod Routing
pub mod Service
pub mod Handshake
mod Tests
use comp6461_assignment.Base.{
  ℕ, ◌+◌, ◌%◌, Bool, true, false, Option, none, some, List, [], ◌∷◌, ◌++◌, ltb, length, drop,
  is_some, if◌then◌else◌,
}
use comp6461_assignment.Base.Int.{ℤ, pos, ◌==ℤ◌}
use comp6461_assignment.Message.{null_client_id, buffer_length, msg_header_size, int_bytes}
use comp6461_assignment.Wire.{int32_at}
use comp6461_assignment.FtpServer.{put, keep}

abbrev pub rcv_buffer_size : ℕ
rcv_buffer_size = 512

-- A Msg has this many bytes.
abbrev pub msg_size : ℕ
msg_size = msg_header_size + buffer_length

-- What a buffer holds, once a datagram has been written to its start.
abbrev pub overwrite : List ℕ → List ℕ → List ℕ
overwrite datagram memory = datagram ++ drop (length datagram) memory

-- How handling a datagram ends: the thread goes on to the next, it has drawn all that rand gives without
-- finding a free id, recvfrom has failed on a datagram that is longer than the buffer and the program
-- exits, or so has RouterListener's sendto, or memcpy writes behind the Msg.
pub data Passed (S : Type 0) : Type 0 where
  went : S → Passed S
  searching : Passed S
  exited : Passed S
  crashed : Passed S

infixl 5 ◌then◌
abbrev pub ◌then◌ : {S : Type 0} → Passed S → (S → Passed S) → Passed S
went s then f = f s
searching then f = searching
exited then f = exited
crashed then f = crashed

module _ (Address : Type 0) where
  -- `client_buffer` is ClientListener's `buffer`, and `msg` the bytes of RouterListener's `msg`; the
  -- datagrams that are sent are listed, the first one first.
  pub record Muxer : Type 0 where
    pub client_map : ℤ → Option Address
    pub client_buffer : List ℕ
    pub msg : List ℕ
    pub to_clients : List (Address × List ℕ)
    pub to_router : List (List ℕ)

  -- A datagram comes from a client, where `draws` is what rand gives, or from the router.
  pub data Input : Type 0 where
    from_client : (draws : List ℕ) → Address → List ℕ → Input
    -- With whether sendto fails to pass it on.
    from_router : (fails : Bool) → List ℕ → Input

module _ {Address : Type 0} where
  -- Before the first datagram; what the two buffers hold then is what the memory held.
  unfoldable pub new_muxer : List ℕ → List ℕ → Muxer Address
  new_muxer buffer msg = record {
    client_map = λ _. none;
    client_buffer = buffer;
    msg = msg;
    to_clients = [];
    to_router = [];
  }

  -- `do clientId = rand() % 256 while (clientMap.find(clientId) != clientMap.end())`
  unfoldable pub draw_id : List ℕ → (ℤ → Option Address) → Option ℕ
  draw_id [] clients = none
  draw_id (draw ∷ draws) clients =
      let more = draw_id draws clients in
      let id = draw % 256 in if is_some (clients (pos id)) then more else some id

  -- The branch `clientId == NULL_CLIENT_ID`.
  unfoldable pub register_client : List ℕ → Address → Muxer Address → Passed (Muxer Address)
  register_client draws address s = elim (draw_id draws s.client_map) [
    | none ↦ searching
    | some id ↦ went (record s {
      client_map = put s.client_map (pos id) (keep (s.client_map (pos id)) address);
      to_clients = s.to_clients ++ (address, int_bytes id) ∷ [];
    })
  ]

  -- The other branch.
  unfoldable pub forward : List ℕ → Muxer Address → Passed (Muxer Address)
  forward datagram s =
      if ltb msg_size (length datagram)
      then crashed
      else went (record s { to_router = s.to_router ++ datagram ∷ [] })

  -- One pass of the loop in ClientListener::run.
  unfoldable pub listen_client : List ℕ → Address → List ℕ → Muxer Address → Passed (Muxer Address)
  listen_client draws address datagram s =
      let s' = record s { client_buffer = overwrite datagram s.client_buffer } in
      if ltb rcv_buffer_size (length datagram)
      then exited
      else if int32_at s'.client_buffer ==ℤ null_client_id
      then register_client draws address s'
      else forward datagram s'

  -- One pass of the loop in RouterListener::run: `(*clients)[msg.clientId]` inserts a cleared address for an
  -- id that is not there. The program exits if sendto fails, as it does for an address that it cannot send
  -- to.
  unfoldable pub listen_router :
      Address → (fails : Bool) → List ℕ → Muxer Address → Passed (Muxer Address)
  listen_router blank fails datagram s =
      let msg = overwrite datagram s.msg in
      let id = int32_at msg in
      let address = keep (s.client_map id) blank in
      if ltb rcv_buffer_size (length datagram)
      then exited
      else if ltb msg_size (length datagram)
      then crashed
      else if fails
      then exited
      else went (record s {
        msg = msg;
        client_map = put s.client_map id address;
        to_clients = s.to_clients ++ (address, datagram) ∷ [];
      })

  unfoldable pub on_input : Address → Input Address → Muxer Address → Passed (Muxer Address)
  on_input blank (from_client draws address datagram) s = listen_client draws address datagram s
  on_input blank (from_router fails datagram) s = listen_router blank fails datagram s

  -- Datagrams, in the order in which the threads take them.
  unfoldable pub run : Address → List (Input Address) → Muxer Address → Passed (Muxer Address)
  run blank [] s = went s
  run blank (input ∷ inputs) s = on_input blank input s then λ s'. run blank inputs s'
