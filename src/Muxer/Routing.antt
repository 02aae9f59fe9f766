-- ===== src/Muxer/Routing.antt =====
-- Messages through the multiplexer, from the bytes that one end sends to the Msg that the other reads.
use comp6461_assignment.Base.{
  false, ℕ, ◌≡◌, ◌≢◌, refl, ap, ◌∙◌, Option, some, List, [], ◌∷◌, ◌++◌, arith, le→ltb, length,
  if◌then◌else◌,
}
use comp6461_assignment.Base.Int.{pos, ≢→==ℤ}
use comp6461_assignment.Message.{Msg, null_client_id, int_bytes}
use comp6461_assignment.Wire.{msg_bytes, get_message, msg_get}
use comp6461_assignment.Wire.Layout.{
  IsSendable, cleared, msg_bytes_arrive, length-msg_bytes, client_at,
}
use comp6461_assignment.FtpServer.{put, keep}
use comp6461_assignment.Muxer.{
  Muxer, Input, went, ◌then◌, overwrite, rcv_buffer_size, msg_size, draw_id, forward, listen_client,
  listen_router, run,
}
use comp6461_assignment.Muxer.Admission.{Asks, admitted, listen_client-drawn, given-Registered}

module _ {Address : Type 0} where
  -- The multiplexer, having passed a message on to an address.
  passed_on : Address → Msg → Muxer Address → Muxer Address
  passed_on address m s = record s {
    msg = overwrite (msg_bytes m) s.msg;
    client_map = put s.client_map m.client_id address;
    to_clients = s.to_clients ++ (address, msg_bytes m) ∷ [];
  }

  listen_router-msg :
      (blank : Address) (m : Msg) (s : Muxer Address)
      → IsSendable m
      → listen_router blank false (msg_bytes m) s
        ≡ went (passed_on (keep (s.client_map m.client_id) blank) m s)
  unfolding listen_router passed_on
  listen_router-msg blank m s ok =
      rw
        (
          le→ltb rcv_buffer_size (length (msg_bytes m))
              (omega (arith, length-msg_bytes m ok, ok.fits)),
          le→ltb msg_size (length (msg_bytes m)) (omega (arith, length-msg_bytes m ok, ok.fits)),
          client_at m ok,
        )
        refl

  -- A client is served. It asks for an id and is given `id`; then it is told that id, and whatever comes
  -- after, a message that the router passes to that id, where sendto does not fail, goes to the client's
  -- address, as it is, and the client's msgGet reads it.
  pub replies_reach_client :
      (blank : Address) (draws : List ℕ) (address : Address) (datagram : List ℕ)
      (inputs : List (Input Address)) (s s' : Muxer Address) (id : ℕ) (m old : Msg)
      → Asks datagram s
      → draw_id draws s.client_map ≡ some id
      → (listen_client draws address datagram s then run blank inputs) ≡ went s'
      → IsSendable m
      → m.client_id ≡ pos id
      → (told told' : Muxer Address) × (listen_client draws address datagram s ≡ went told)
        × (told.to_clients ≡ s.to_clients ++ (address, int_bytes id) ∷ [])
        × (listen_router blank false (msg_bytes m) s' ≡ went told')
        × (told'.to_clients ≡ s'.to_clients ++ (address, msg_bytes m) ∷ [])
        × (msg_get old (msg_bytes m) ≡ some (cleared m))
  unfolding passed_on
  replies_reach_client blank draws address datagram inputs s s' id m old asks drawn ran ok named = (
    admitted id address datagram s,
    passed_on (keep (s'.client_map m.client_id) blank) m s',
    listen_client-drawn draws address datagram s id asks drawn,
    refl,
    listen_router-msg blank m s' ok,
    ap (λ (a : Address). s'.to_clients ++ (a, msg_bytes m) ∷ [])
        (ap (λ (o : Option Address). keep o blank)
          (ap s'.client_map named
            ∙ given-Registered blank draws address datagram inputs s s' id asks drawn ran)),
    (msg_bytes_arrive m ok [] old).1,
  )

  -- A message of a client that has an id goes to the router as it is, and the server's getMessage reads it;
  -- the map of the clients stays as it is.
  pub requests_reach_router :
      (draws : List ℕ) (address : Address) (s : Muxer Address) (m : Msg) (memory : List ℕ)
      → IsSendable m
      → m.client_id ≢ null_client_id
      → (s' : Muxer Address) × (listen_client draws address (msg_bytes m) s ≡ went s')
        × (s'.to_router ≡ s.to_router ++ msg_bytes m ∷ [])
        × (s'.client_map ≡ s.client_map)
        × (s'.to_clients ≡ s.to_clients)
        × (get_message memory (msg_bytes m) ≡ some (cleared m))
  unfolding listen_client forward
  requests_reach_router draws address s m memory ok known = (
    record s {
      client_buffer = overwrite (msg_bytes m) s.client_buffer;
      to_router = s.to_router ++ msg_bytes m ∷ [];
    },
    rw
        (
          le→ltb rcv_buffer_size (length (msg_bytes m))
              (omega (arith, length-msg_bytes m ok, ok.fits)),
          client_at m ok,
          ≢→==ℤ m.client_id null_client_id known,
          forward,
          le→ltb msg_size (length (msg_bytes m)) (omega (arith, length-msg_bytes m ok, ok.fits)),
        )
        refl,
    refl,
    refl,
    refl,
    (msg_bytes_arrive m ok memory m).0,
  )
