-- ===== src/Muxer/Handshake.antt =====
-- A client's first datagram, and the multiplexer's answer: FtpClient::performMuxerHandshake and the branch of
-- ClientListener::run for a client without an id.
use comp6461_assignment.Base.{ℕ, ◌<◌, ◌≡◌, refl, ap, some, List, [], ◌∷◌, ◌++◌, arith, drop}
use comp6461_assignment.Base.Int.{ℤ, pos}
use comp6461_assignment.Message.{int_bytes, null_client_id}
use comp6461_assignment.Wire.{int32_word}
use comp6461_assignment.Wire.Layout.{int32_at-int32_word}
use comp6461_assignment.ServerThread.Defs.{FileApi}
use comp6461_assignment.FtpClient.Defs.{FtpClient}
use comp6461_assignment.FtpClient.Menu.{new_client, muxer_request, perform_muxer_handshake}
use comp6461_assignment.Muxer.{Muxer, went, draw_id, listen_client}
use comp6461_assignment.Muxer.Registry.{Registered, draw_id-free}
use comp6461_assignment.Muxer.Admission.{Asks, admitted, listen_client-drawn, admitted-Registered}

module _ (api : FileApi) where
  answer_taken :
      (id : ℕ) (c : FtpClient api)
      → id < 256
      → perform_muxer_handshake api (int_bytes id) c
        ≡ some (record c { client_identifier = pos id })
  unfolding perform_muxer_handshake int32_word
  answer_taken id c small =
      ap (λ (i : ℤ). some (record c { client_identifier = i }))
        (int32_at-int32_word (pos id) [] (omega arith))

module _ (api : FileApi) {Address : Type 0} where
  muxer_request-Asks :
      (raw : FtpClient api) (s : Muxer Address) → Asks (muxer_request api (new_client api raw)) s
  unfolding muxer_request new_client
  muxer_request-Asks raw s = record {
    fits = omega arith;
    null = int32_at-int32_word null_client_id (drop 4 s.client_buffer) (omega arith);
  }

  -- The handshake of a new client with the multiplexer. rand gives an id that no client has; then the
  -- multiplexer sends one datagram to the client, the client takes from it exactly that id, and under the
  -- id the multiplexer knows the client's address.
  pub muxer_handshake_agrees :
      (raw : FtpClient api) (draws : List ℕ) (address : Address) (s : Muxer Address) (id : ℕ)
      → draw_id draws s.client_map ≡ some id
      → (s' : Muxer Address) × (response : List ℕ) × (listen_client draws address
            (muxer_request api (new_client api raw))
            s
          ≡ went s')
        × (s'.to_clients ≡ s.to_clients ++ (address, response) ∷ [])
        × (perform_muxer_handshake api response (new_client api raw)
            ≡ some (record (new_client api raw) { client_identifier = pos id }))
        × Registered (pos id) address s'
  muxer_handshake_agrees raw draws address s id drawn =
      let asked = muxer_request api (new_client api raw) in
      let (free, small) = draw_id-free draws s.client_map id drawn in
      (
        admitted id address asked s,
        int_bytes id,
        listen_client-drawn draws address asked s id (muxer_request-Asks raw s) drawn,
        refl,
        answer_taken api id (new_client api raw) small,
        admitted-Registered id address asked s free,
      )
