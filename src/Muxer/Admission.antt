-- ===== src/Muxer/Admission.antt =====
-- A client that asks for an id.
use mathlib.Core.Path.{subst}
use comp6461_assignment.Base.{
  ℕ, ◌%◌, ◌≤◌, ◌<◌, ◌≡◌, ◌≢◌, refl, sym, ap, ◌∙◌, Option, none, some, List, [], ◌∷◌, ◌++◌, arith,
  le→ltb, length, is_some, Bool-cases, inl, inr, if◌then◌else◌,
}
use comp6461_assignment.Base.Int.{ℤ, pos}
use comp6461_assignment.Message.{null_client_id, int_bytes}
use comp6461_assignment.Wire.{int32_at}
use comp6461_assignment.FtpServer.{put, keep}
use comp6461_assignment.Muxer.{
  Muxer, Input, went, searching, ◌then◌, overwrite, rcv_buffer_size, draw_id, register_client,
  listen_client, run,
}
use comp6461_assignment.Muxer.Registry.{
  Onward, Onward-then, Onward-went, Registered, put_first, draw_id-free, run-Registered,
}

module _ {Address : Type 0} where
  -- A datagram that asks for an id: its length fits the buffer, and -1 stands at its start.
  pub record Asks (datagram : List ℕ) (s : Muxer Address) : Type 0 where
    pub fits : length datagram ≤ rcv_buffer_size
    pub null : int32_at (overwrite datagram s.client_buffer) ≡ null_client_id

  -- The multiplexer with a new client.
  abbrev pub admitted : ℕ → Address → List ℕ → Muxer Address → Muxer Address
  admitted id address datagram s = record s {
    client_buffer = overwrite datagram s.client_buffer;
    client_map = put s.client_map (pos id) (keep (s.client_map (pos id)) address);
    to_clients = s.to_clients ++ (address, int_bytes id) ∷ [];
  }

  pub listen_client-drawn :
      (draws : List ℕ) (address : Address) (datagram : List ℕ) (s : Muxer Address) (id : ℕ)
      → Asks datagram s
      → draw_id draws s.client_map ≡ some id
      → listen_client draws address datagram s ≡ went (admitted id address datagram s)
  unfolding listen_client register_client
  listen_client-drawn draws address datagram s id asks drawn =
      rw (le→ltb rcv_buffer_size (length datagram) asks.fits, asks.null)
        (rw (drawn, register_client) refl)

  pub listen_client-searching :
      (draws : List ℕ) (address : Address) (datagram : List ℕ) (s : Muxer Address)
      → Asks datagram s
      → draw_id draws s.client_map ≡ none
      → listen_client draws address datagram s ≡ searching
  unfolding listen_client register_client
  listen_client-searching draws address datagram s asks drawn =
      rw (le→ltb rcv_buffer_size (length datagram) asks.fits, asks.null)
        (rw (drawn, register_client) refl)

  pub admitted-Registered :
      (id : ℕ) (address : Address) (datagram : List ℕ) (s : Muxer Address)
      → s.client_map (pos id) ≡ none
      → Registered (pos id) address (admitted id address datagram s)
  admitted-Registered id address datagram s free =
      put_first s.client_map (pos id) _ ∙ ap (λ (o : Option Address). some (keep o address)) free

  -- A client that has been given an id has its address under it, whatever comes after.
  pub given-Registered :
      (blank : Address) (draws : List ℕ) (address : Address) (datagram : List ℕ)
      (inputs : List (Input Address)) (s s' : Muxer Address) (id : ℕ)
      → Asks datagram s
      → draw_id draws s.client_map ≡ some id
      → (listen_client draws address datagram s then run blank inputs) ≡ went s'
      → Registered (pos id) address s'
  given-Registered blank draws address datagram inputs s s' id asks drawn ran =
      Onward-went (Registered (pos id) address) _ s'
        (Onward-then (Registered (pos id) address) (Registered (pos id) address) (run blank inputs)
          _
          (subst (Onward (Registered (pos id) address))
            (sym (listen_client-drawn draws address datagram s id asks drawn))
            (admitted-Registered id address datagram s
              (draw_id-free draws s.client_map id drawn).0))
          (run-Registered (pos id) address blank inputs))
        ran

  pub Registered-apart :
      (draws : List ℕ) (a : Address) (s : Muxer Address) (id id' : ℕ)
      → Registered (pos id) a s
      → draw_id draws s.client_map ≡ some id'
      → id ≢ id'
  Registered-apart draws a s id id' kept drawn same = ground (
    arith,
    kept,
    (draw_id-free draws s.client_map id' drawn).0,
    ap (λ (k : ℕ). s.client_map (pos k)) same,
  )

  -- No two clients get the same id. A client asks, and is given an id; then the id that another client is
  -- given later, whatever has come in between, is a different one.
  pub ids_distinct :
      (blank : Address) (draws draws' : List ℕ) (address : Address) (datagram : List ℕ)
      (inputs : List (Input Address)) (s s' : Muxer Address) (id id' : ℕ)
      → Asks datagram s
      → draw_id draws s.client_map ≡ some id
      → (listen_client draws address datagram s then run blank inputs) ≡ went s'
      → draw_id draws' s'.client_map ≡ some id'
      → id ≢ id'
  ids_distinct blank draws draws' address datagram inputs s s' id id' asks drawn ran drawn' =
      Registered-apart draws' address s' id id'
        (given-Registered blank draws address datagram inputs s s' id asks drawn ran) drawn'

  -- Every id that rand can give has a client.
  abbrev pub Full : Muxer Address → Type 0
  Full s = (id : ℕ) → id < 256 → (a : Address) × Registered (pos id) a s

  draw_id-Full : (draws : List ℕ) (s : Muxer Address) → Full s → draw_id draws s.client_map ≡ none
  unfolding draw_id
  draw_id-Full [] s full = refl
  draw_id-Full (draw ∷ draws) s full =
      let (a, taken) = full (draw % 256) (omega arith) in rw taken (draw_id-Full draws s full)

  -- Ids are never given back. Once all 256 have a client, whatever comes after, a client that asks for an
  -- id makes the loop of ClientListener::run search for ever: no draws of rand end it.
  pub registration_searches :
      (blank : Address) (inputs : List (Input Address)) (s s' : Muxer Address) (draws : List ℕ)
      (address : Address) (datagram : List ℕ)
      → Full s
      → run blank inputs s ≡ went s'
      → Asks datagram s'
      → listen_client draws address datagram s' ≡ searching
  registration_searches blank inputs s s' draws address datagram full ran asks =
      listen_client-searching draws address datagram s' asks (
        draw_id-Full draws s' λ id small.
          let (a, taken) = full id small in
          (
            a,
            Onward-went (Registered (pos id) a) (run blank inputs s) s'
                (run-Registered (pos id) a blank inputs s taken) ran,
          ))

  -- Registration ends as soon as rand gives an id that no client has.
  draw_id-ends :
      (before after : List ℕ) (draw : ℕ) (m : ℤ → Option Address)
      → m (pos (draw % 256)) ≡ none
      → (id : ℕ) × (draw_id (before ++ draw ∷ after) m ≡ some id)
  unfolding draw_id
  draw_id-ends [] after draw m free = (draw % 256, ground (arith, free))
  draw_id-ends (other ∷ before) after draw m free =
      elim (Bool-cases (is_some (m (pos (other % 256))))) [
        | inl taken ↦
            let (id, e) = draw_id-ends before after draw m free in (id, ground (arith, taken, e))
        | inr idle ↦ (other % 256, ground (arith, idle))
      ]
