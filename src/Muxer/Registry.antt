-- ===== src/Muxer/Registry.antt =====
-- The client ids: which one a new client is given, and that it keeps it.
use mathlib.Core.Path.{subst}
use comp6461_assignment.Base.{
  Bool, ℕ, ◌%◌, ◌<◌, ◌≡◌, refl, ap, ◌∙◌, false, Option, none, some, List, [], ◌∷◌, arith, ltb,
  length, is_some, Option-cases, Bool-cases, inl, inr, if◌then◌else◌,
}
use comp6461_assignment.Base.Int.{ℤ, pos, ◌==ℤ◌, ==ℤ_iff}
use comp6461_assignment.Message.{null_client_id}
use comp6461_assignment.Wire.{int32_at}
use comp6461_assignment.FtpServer.{put, keep}
use comp6461_assignment.Muxer.{
  Muxer, Input, from_client, from_router, Passed, went, searching, exited, crashed, ◌then◌,
  overwrite, rcv_buffer_size, msg_size, draw_id, register_client, forward, listen_client,
  listen_router, on_input, run,
}

-- If the multiplexer goes on, its state has the property.
abbrev pub Onward : {S : Type 0} → (S → Type 0) → Passed S → Type 0
Onward P (went s) = P s
Onward P _ = Unit

pub Onward-then :
    {S : Type 0} (P Q : S → Type 0) (next : S → Passed S) (out : Passed S)
    → Onward P out
    → ((s : S) → P s → Onward Q (next s))
    → Onward Q (out then next)
Onward-then P Q next (went s) p later = later s p
Onward-then P Q next searching p later = tt
Onward-then P Q next exited p later = tt
Onward-then P Q next crashed p later = tt

pub Onward-map :
    {S : Type 0} (P Q : S → Type 0) (out : Passed S)
    → ((s : S) → P s → Q s)
    → Onward P out
    → Onward Q out
Onward-map P Q (went s) f p = f s p
Onward-map P Q searching f p = tt
Onward-map P Q exited f p = tt
Onward-map P Q crashed f p = tt

pub Onward-went :
    {S : Type 0} (P : S → Type 0) (out : Passed S) (s : S) → Onward P out → out ≡ went s → P s
Onward-went P out s p e = subst (Onward P) e p

module _ {Address : Type 0} where
  -- The client with the id has the address.
  abbrev pub Registered : ℤ → Address → Muxer Address → Type 0
  Registered id address s = s.client_map id ≡ some address

  pub put_first : (m : ℤ → Option Address) (i : ℤ) (a : Address) → put m i a i ≡ some a
  put_first m i a = rw ((==ℤ_iff i i).1 refl) refl

  is_some-false : {o : Option Address} → is_some o ≡ false → o ≡ none
  is_some-false {o = none} h = refl
  is_some-false {o = some a} h = cc (h)

  -- An entry that is there is not replaced.
  put-keep :
      (m : ℤ → Option Address) (i j : ℤ) (a b : Address)
      → m j ≡ some a
      → put m i (keep (m i) b) j ≡ some a
  put-keep m i j a b e = elim (Bool-cases (i ==ℤ j)) [
    | inl same ↦ rw same (
        ap some (
          ap (λ (k : ℤ). keep (m k) b) ((==ℤ_iff i j).0 same)
          ∙ ap (λ (o : Option Address). keep o b) e))
    | inr other ↦ rw other e
  ]

  pub draw_id-free :
      (draws : List ℕ) (m : ℤ → Option Address) (id : ℕ)
      → draw_id draws m ≡ some id
      → (m (pos id) ≡ none) × (id < 256)
  unfolding draw_id
  draw_id-free [] m id e = cc (e)
  draw_id-free (draw ∷ draws) m id e = elim (Bool-cases (is_some (m (pos (draw % 256))))) [
    | inl taken ↦ draw_id-free draws m id (ground (arith, taken, e))
    | inr free ↦
        let q : draw % 256 ≡ id = ground (arith, free, e) in
        (subst (λ (k : ℕ). m (pos k) ≡ none) q (is_some-false free), omega (arith, q))
  ]

  module _ (id : ℤ) (address blank : Address) where
    register_client-Registered :
        (draws : List ℕ) (from : Address) (s : Muxer Address)
        → Registered id address s
        → Onward (Registered id address) (register_client draws from s)
    unfolding register_client
    register_client-Registered draws from s h = elim (Option-cases (draw_id draws s.client_map)) [
      | inl none_free ↦ rw (none_free, Onward) tt
      | inr (fresh, drawn) ↦
          rw (drawn, Onward) (put-keep s.client_map (pos fresh) id address from h)
    ]

    forward-Registered :
        (datagram : List ℕ) (s : Muxer Address)
        → Registered id address s
        → Onward (Registered id address) (forward datagram s)
    unfolding forward
    forward-Registered datagram s h = elim (Bool-cases (ltb msg_size (length datagram))) [
      | inl long ↦ rw long tt
      | inr fits ↦ rw fits h
    ]

    listen_client-Registered :
        (draws : List ℕ) (from : Address) (datagram : List ℕ) (s : Muxer Address)
        → Registered id address s
        → Onward (Registered id address) (listen_client draws from datagram s)
    unfolding listen_client
    listen_client-Registered draws from datagram s h =
        let s' = record s { client_buffer = overwrite datagram s.client_buffer } in
        elim (Bool-cases (ltb rcv_buffer_size (length datagram))) [
          | inl long ↦ rw long tt
          | inr fits ↦ rw fits (elim (Bool-cases (int32_at s'.client_buffer ==ℤ null_client_id)) [
            | inl asks ↦ rw asks (register_client-Registered draws from s' h)
            | inr knows ↦ rw knows (forward-Registered datagram s' h)
          ])
        ]

    listen_router-Registered :
        (fails : Bool) (datagram : List ℕ) (s : Muxer Address)
        → Registered id address s
        → Onward (Registered id address) (listen_router blank fails datagram s)
    unfolding listen_router
    listen_router-Registered fails datagram s h =
        elim (Bool-cases (ltb rcv_buffer_size (length datagram))) [
          | inl long ↦ rw long tt
          | inr fits ↦ rw fits (elim (Bool-cases (ltb msg_size (length datagram))) [
            | inl long ↦ rw long tt
            | inr fits ↦ rw fits (elim (Bool-cases fails) [
              | inl failed ↦ rw failed tt
              | inr sent ↦
                  rw sent
                    (put-keep s.client_map (int32_at (overwrite datagram s.msg)) id address blank h)
            ])
          ])
        ]

    on_input-Registered :
        (input : Input Address) (s : Muxer Address)
        → Registered id address s
        → Onward (Registered id address) (on_input blank input s)
    unfolding on_input
    on_input-Registered (from_client draws from datagram) s h =
        listen_client-Registered draws from datagram s h
    on_input-Registered (from_router fails datagram) s h =
        listen_router-Registered fails datagram s h

    -- A client keeps its address, whatever comes.
    pub run-Registered :
        (inputs : List (Input Address)) (s : Muxer Address)
        → Registered id address s
        → Onward (Registered id address) (run blank inputs s)
    unfolding run
    run-Registered [] s h = h
    run-Registered (input ∷ inputs) s h =
        Onward-then (Registered id address) (Registered id address) (run blank inputs)
          (on_input blank input s) (on_input-Registered input s h) (run-Registered inputs)
