-- ===== src/Muxer/Service.antt =====
-- What the multiplexer promises: a directory of clients, to which datagrams are passed. The buffers of the
-- two threads do not appear, and which id is drawn is left open.
use mathlib.Core.Path.{subst, fun_ext}
use comp6461_assignment.Base.{
  false, ℕ, ◌≤◌, ◌<◌, ◌≡◌, ◌≢◌, refl, sym, ap, ◌∙◌, Option, none, some, List, [], ◌∷◌, ◌++◌, arith,
  ltb, length, Option-cases, Bool-cases, inl, inr,
}
use comp6461_assignment.Base.Int.{ℤ, pos, ◌==ℤ◌, ==ℤ_iff}
use comp6461_assignment.Message.{null_client_id, int_bytes}
use comp6461_assignment.Wire.{int32_at}
use comp6461_assignment.FtpServer.{put, keep}
use comp6461_assignment.Muxer.{
  Muxer, Input, from_client, from_router, went, overwrite, rcv_buffer_size, msg_size, draw_id,
  register_client, forward, listen_client, listen_router, on_input, run,
}
use comp6461_assignment.Muxer.Registry.{Onward, Onward-then, Onward-map, Onward-went, draw_id-free}

-- The datagram is about the id: it stands at its start, where the datagram is long enough.
abbrev pub IsAbout : List ℕ → ℤ → Type 0
IsAbout datagram id = 4 ≤ length datagram → int32_at datagram ≡ id

overwrite-IsAbout :
    (datagram memory : List ℕ) → IsAbout datagram (int32_at (overwrite datagram memory))
unfolding int32_at
overwrite-IsAbout [] memory h = absurd (omega arith)
overwrite-IsAbout (a ∷ []) memory h = absurd (omega arith)
overwrite-IsAbout (a ∷ b ∷ []) memory h = absurd (omega arith)
overwrite-IsAbout (a ∷ b ∷ c ∷ []) memory h = absurd (omega arith)
overwrite-IsAbout (a ∷ b ∷ c ∷ d ∷ rest) memory h = refl

module _ (Address : Type 0) where
  pub record View : Type 0 where
    pub directory : ℤ → Option Address
    pub to_clients : List (Address × List ℕ)
    pub to_router : List (List ℕ)

  -- What may happen on a datagram.
  pub data Serves (blank : Address) (v : View) : Input Address → View → Type 0 where
    registers :
        (draws : List ℕ) (address : Address) (datagram : List ℕ) (id : ℕ)
        → IsAbout datagram null_client_id
        → id < 256
        → v.directory (pos id) ≡ none
        → Serves blank v (from_client draws address datagram) (record v {
          directory = put v.directory (pos id) address;
          to_clients = v.to_clients ++ (address, int_bytes id) ∷ [];
        })
    forwards :
        (draws : List ℕ) (address : Address) (datagram : List ℕ) (id : ℤ)
        → IsAbout datagram id
        → id ≢ null_client_id
        → Serves blank v
            (from_client draws address datagram)
            (record v { to_router = v.to_router ++ datagram ∷ [] })
    delivers :
        (datagram : List ℕ) (id : ℤ) (address : Address)
        → IsAbout datagram id
        → v.directory id ≡ some address
        → Serves blank v
            (from_router false datagram)
            (record v { to_clients = v.to_clients ++ (address, datagram) ∷ [] })
    strays :
        (datagram : List ℕ) (id : ℤ)
        → IsAbout datagram id
        → v.directory id ≡ none
        → Serves blank v (from_router false datagram) (record v {
          directory = put v.directory id blank;
          to_clients = v.to_clients ++ (blank, datagram) ∷ [];
        })

  pub data Trace (blank : Address) : View → List (Input Address) → View → Type 0 where
    ended : (v : View) → Trace blank v [] v
    served :
        (v v' v'' : View) (input : Input Address) (inputs : List (Input Address))
        → Serves blank v input v'
        → Trace blank v' inputs v''
        → Trace blank v (input ∷ inputs) v''

module _ {Address : Type 0} where
  abbrev pub view : Muxer Address → View Address
  view s = record { directory = s.client_map; to_clients = s.to_clients; to_router = s.to_router }

  -- Entering what is there changes nothing.
  put_same : (m : ℤ → Option Address) (i : ℤ) (a : Address) → m i ≡ some a → put m i a ≡ m
  put_same m i a e = fun_ext λ j. elim (Bool-cases (i ==ℤ j)) [
    | inl same ↦ rw same (sym e ∙ ap m ((==ℤ_iff i j).0 same))
    | inr other ↦ rw other refl
  ]

  module _ (blank : Address) where
    register_client-Serves :
        (draws : List ℕ) (address : Address) (datagram : List ℕ) (s : Muxer Address)
        → IsAbout datagram null_client_id
        → Onward
            (λ s'. Serves Address blank (view s) (from_client draws address datagram) (view s'))
            (register_client draws address s)
    unfolding register_client
    register_client-Serves draws address datagram s about =
        elim (Option-cases (draw_id draws s.client_map)) [
          | inl none_free ↦ rw (none_free, Onward) tt
          | inr (id, drawn) ↦
              let (free, small) = draw_id-free draws s.client_map id drawn in
              rw (drawn, Onward, free) (registers draws address datagram id about small free)
        ]

    forward-Serves :
        (draws : List ℕ) (address : Address) (datagram : List ℕ) (s : Muxer Address) (id : ℤ)
        → IsAbout datagram id
        → id ≢ null_client_id
        → Onward
            (λ s'. Serves Address blank (view s) (from_client draws address datagram) (view s'))
            (forward datagram s)
    unfolding forward
    forward-Serves draws address datagram s id about known =
        elim (Bool-cases (ltb msg_size (length datagram))) [
          | inl long ↦ rw long tt
          | inr fits ↦ rw fits (forwards draws address datagram id about known)
        ]

    -- What listen_router leaves.
    abbrev passed_on : List ℕ → ℤ → Muxer Address → Muxer Address
    passed_on datagram id s = record s {
      msg = overwrite datagram s.msg;
      client_map = put s.client_map id (keep (s.client_map id) blank);
      to_clients = s.to_clients ++ (keep (s.client_map id) blank, datagram) ∷ [];
    }

    passed_on-Serves :
        (datagram : List ℕ) (id : ℤ) (s : Muxer Address)
        → IsAbout datagram id
        → Serves Address blank
            (view s)
            (from_router false datagram)
            (view (passed_on datagram id s))
    passed_on-Serves datagram id s about = elim (Option-cases (s.client_map id)) [
      | inl stray ↦ rw stray (strays datagram id about stray)
      | inr (address, known) ↦ rw known (
          subst
            (λ (m : ℤ → Option Address).
              Serves Address blank (view s) (from_router false datagram) (record (view s) {
                directory = m;
                to_clients = s.to_clients ++ (address, datagram) ∷ [];
              }))
            (sym (put_same s.client_map id address known))
            (delivers datagram id address about known))
    ]

    on_input-Serves :
        (input : Input Address) (s : Muxer Address)
        → Onward (λ s'. Serves Address blank (view s) input (view s')) (on_input blank input s)
    unfolding on_input listen_client listen_router
    on_input-Serves (from_client draws address datagram) s =
        let s' = record s { client_buffer = overwrite datagram s.client_buffer } in
        let about = overwrite-IsAbout datagram s.client_buffer in
        elim (Bool-cases (ltb rcv_buffer_size (length datagram))) [
          | inl long ↦ rw long tt
          | inr fits ↦ rw fits (elim (Bool-cases (int32_at s'.client_buffer ==ℤ null_client_id)) [
            | inl asks ↦ rw asks (
                register_client-Serves draws address datagram s'
                  λ h. about h ∙ (==ℤ_iff _ null_client_id).0 asks)
            | inr knows ↦ rw knows (
                forward-Serves draws address datagram s' _ about
                  λ e. ground (arith, ==ℤ_iff (int32_at s'.client_buffer) null_client_id, e))
          ])
        ]
    on_input-Serves (from_router fails datagram) s =
        elim (Bool-cases (ltb rcv_buffer_size (length datagram))) [
          | inl long ↦ rw long tt
          | inr fits ↦ rw fits (elim (Bool-cases (ltb msg_size (length datagram))) [
            | inl long ↦ rw long tt
            | inr fits ↦ rw fits (elim (Bool-cases fails) [
              | inl failed ↦ rw failed tt
              | inr sent ↦
                  rw sent (passed_on-Serves datagram _ s (overwrite-IsAbout datagram s.msg))
            ])
          ])
        ]

    run-Trace :
        (inputs : List (Input Address)) (s : Muxer Address)
        → Onward (λ s'. Trace Address blank (view s) inputs (view s')) (run blank inputs s)
    unfolding run
    run-Trace [] s = ended (view s)
    run-Trace (input ∷ inputs) s =
        Onward-then (λ s'. Serves Address blank (view s) input (view s'))
          (λ s'. Trace Address blank (view s) (input ∷ inputs) (view s')) (run blank inputs)
          (on_input blank input s) (on_input-Serves input s)
          (λ s' first.
            Onward-map (λ s''. Trace Address blank (view s') inputs (view s''))
              (λ s''. Trace Address blank (view s) (input ∷ inputs) (view s''))
              (run blank inputs s')
              (λ s'' rest. served (view s) (view s') (view s'') input inputs first rest)
              (run-Trace inputs s'))

    -- The two loops of the multiplexer implement the directory. Whatever comes, if they go on, then what they
    -- have done is a run of the directory on the same datagrams, in their order: each is a registration under
    -- an id below 256 that no client had, a message passed on to the router, or a message passed on to the
    -- address of its id, for which a cleared address is entered if there is none.
    pub run_refines :
        (inputs : List (Input Address)) (s s' : Muxer Address)
        → run blank inputs s ≡ went s'
        → Trace Address blank (view s) inputs (view s')
    run_refines inputs s s' =
        Onward-went (λ s'. Trace Address blank (view s) inputs (view s')) _ s' (run-Trace inputs s)
