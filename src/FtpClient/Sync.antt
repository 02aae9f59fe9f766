-- ===== src/FtpClient/Sync.antt =====
-- FtpClient::syncServer, and the ServerThread that answers it.
use mathlib.Core.Path.{subst}
use mathlib.Core.Bool.{true≢false}
use comp6461_assignment.Base.{
  ℕ, ◌+◌, ◌%◌, ◌^◌, ◌<◌, ◌≡◌, ◌≢◌, refl, sym, true, inl, inr, ◌&&◌, List, [], ◌∷◌, ◌++◌, arith,
  take, replicate, ◌==◌, Bool-cases,
}
use comp6461_assignment.Base.Int.{ℤ, pos, ==ℤ_iff}
use comp6461_assignment.Message.{Msg, MsgType, int_bytes, int_at, int_at-int_bytes, sequence_range}
use comp6461_assignment.ServerThread.Defs.{FileApi, Thread, ok, reply, send_msg}
use comp6461_assignment.ServerThread.Requests.{start_handshake}
use comp6461_assignment.FtpServer.{is_handshake}
use comp6461_assignment.FtpClient.Defs.{
  Event, got, silent, FtpClient, done, request, acknowledge, clear_queue,
}
use comp6461_assignment.FtpClient.Menu.{is_sync_answer, await_sync, shake_hands, sync_server}
use comp6461_assignment.FtpClient.Endings.{Finally, Finally-bind}

handshake_typed : (type : MsgType) → is_handshake type ≡ true → type ≡ MsgType.handshake
handshake_typed MsgType.handshake h = refl
handshake_typed MsgType.get_list h = absurd (true≢false (sym h))
handshake_typed MsgType.get_file h = absurd (true≢false (sym h))
handshake_typed MsgType.put h = absurd (true≢false (sym h))
handshake_typed MsgType.post h = absurd (true≢false (sym h))
handshake_typed MsgType.resp h = absurd (true≢false (sym h))
handshake_typed MsgType.resp_err h = absurd (true≢false (sym h))
handshake_typed MsgType.ack h = absurd (true≢false (sym h))
handshake_typed MsgType.terminate h = absurd (true≢false (sym h))
handshake_typed (MsgType.other k) h = absurd (true≢false (sym h))

module _ (api : FileApi) where
  -- The client has taken the id of another thread, from the HANDSHAKE message that answers its last one.
  abbrev pub Synced : ℤ → ℕ → FtpClient api → Type 0
  Synced old count c =
      (c.server_identifier ≢ old)
      × (c.server_msg.type ≡ MsgType.handshake)
      × (c.server_msg.server_id ≡ c.server_identifier)
      × (int_at c.server_msg.buffer ≡ count)
      × (c.sync_count ≡ count)

  abbrev pub Unsynced : ℤ → FtpClient api → Type 0
  Unsynced old c = c.server_identifier ≡ old

  await_sync-Finally :
      (f : ℕ) (old : ℤ) (count : ℕ) (es : List Event) (c : FtpClient api)
      → c.server_identifier ≡ old
      → c.sync_count ≡ count
      → Finally (Synced old count) (Unsynced old) (await_sync api f es c)
  unfolding await_sync is_sync_answer
  await_sync-Finally f old count [] c same counted = same
  await_sync-Finally f old count (silent ∷ es) c same counted =
      await_sync-Finally f old count es c same counted
  await_sync-Finally f old count (got m ∷ es) c same counted =
      elim (Bool-cases (is_sync_answer api m c && int_at m.buffer == c.sync_count)) [
        | inl yes_ ↦ rw yes_ (
          λ e. ground (arith, ==ℤ_iff m.server_id c.server_identifier, e),
          handshake_typed m.type (ground (arith, yes_)),
          refl,
          ground arith,
          counted,
        )
        | inr no_ ↦
            rw no_ (await_sync-Finally f old count es (record c { server_msg = m }) same counted)
      ]

  clear_queue-Finally :
      (es : List Event) (c : FtpClient api)
      → Finally (λ c'. c' ≡ c) (Unsynced c.server_identifier) (clear_queue api es c)
  unfolding clear_queue
  clear_queue-Finally [] c = refl
  clear_queue-Finally (silent ∷ es) c = refl
  clear_queue-Finally (got m ∷ es) c = clear_queue-Finally es c

  counted : FtpClient api → FtpClient api
  counted c = record c { sync_count = c.sync_count + 1 }

  shake_hands-Finally :
      (c : FtpClient api) (es : List Event)
      → Finally
          (Synced c.server_identifier (c.sync_count + 1))
          (Unsynced c.server_identifier)
          (shake_hands api c es)
  unfolding shake_hands request
  shake_hands-Finally c es =
      await_sync-Finally c.requests.next c.server_identifier (c.sync_count + 1) es _ refl refl

  -- syncServer never fails. When it returns, the client has taken the id of another thread than before,
  -- from a HANDSHAKE message that bears the count of its own last one; while it waits, it keeps its old
  -- one.
  pub sync_server_fresh :
      (es : List Event) (c : FtpClient api)
      → Finally
          (Synced c.server_identifier (c.sync_count + 1))
          (Unsynced c.server_identifier)
          (sync_server api es c)
  unfolding sync_server
  sync_server_fresh es c =
      Finally-bind api (λ c'. c' ≡ c) _ (Unsynced c.server_identifier) _ _
        (clear_queue-Finally es c)
        (λ c' es' e.
          subst
            (λ d.
              Finally (Synced c.server_identifier (c.sync_count + 1)) (Unsynced c.server_identifier)
                (shake_hands api d es'))
            (sym e) (shake_hands-Finally c es'))

  -- The two ends of a handshake fit. A ServerThread with a new id that is given the handshake of a client
  -- sends one message, and that is the answer that the client's syncServer waits for.
  sync_server_answered :
      (f : ℕ) (t : Thread api) (c : FtpClient api) (rest : List ℕ) (es : List Event)
      → t.current_msg.length ≡ 4
      → t.current_msg.buffer ≡ int_bytes c.sync_count ++ rest
      → c.sync_count < 2 ^ 32
      → pos t.server_id ≢ c.server_identifier
      → (m : Msg) × (t' : Thread api) × (start_handshake api t ≡ ok t')
        × (t'.outbox ≡ t.outbox ++ m ∷ [])
        × (await_sync api f (got m ∷ es) c
            ≡ done
                (acknowledge api f
                  (record c { server_msg = m; server_identifier = pos t.server_id }))
                es)
  unfolding start_handshake await_sync is_sync_answer
  sync_server_answered f t c rest es size text small other = (
    echo,
    send_msg api echo t,
    ground (arith, size),
    refl,
    ground (arith, ==ℤ_iff (pos t.server_id) c.server_identifier, echoed),
  )
    where
      echo : Msg
      echo =
          reply api t MsgType.handshake t.current_msg.length (t.server_id % sequence_range)
            (take t.current_msg.length t.current_msg.buffer)

      echoed : int_at echo.buffer ≡ c.sync_count
      echoed = rw (size, text) (int_at-int_bytes c.sync_count (replicate 252 0) small)
