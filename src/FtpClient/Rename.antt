-- ===== src/FtpClient/Rename.antt =====
-- FtpClient::performRename. What the user types is a list: a name, and whether 1 is the answer to the
-- question that follows a refusal.
use comp6461_assignment.Base.{ℕ, ◌+◌, Bool, ◌&&◌, none, some, List, [], ◌∷◌, ◌==◌, if◌then◌else◌}
use comp6461_assignment.Base.Int.{◌==ℤ◌}
use comp6461_assignment.Message.{Msg, MsgType, null_server_id, strcmp_eq, fae_text}
use comp6461_assignment.Receiver.{is_resp_err}
use comp6461_assignment.ServerThread.Defs.{FileApi}
use comp6461_assignment.ServerThread.Run.{is_ack}
use comp6461_assignment.FtpClient.Defs.{
  Event, got, silent, FtpClient, Ended, done, gave_up, blocked, crashed, ◌>>=◌, request,
  acknowledge,
}

pub record Typed : Type 0 where
  pub name : List ℕ
  pub again : Bool

abbrev pub is_fae : Msg → Bool
is_fae m = is_resp_err m.type && strcmp_eq m.buffer fae_text

module _ (api : FileApi) where
  -- The test of the two inner loops: serverResponse is an answer to the request.
  unfoldable pub is_answer : Msg → FtpClient api → Bool
  is_answer m c = m.server_id ==ℤ c.server_identifier && m.sequence_number == c.sequence_number

  -- `while (… ) msgGet(&serverResponse)`, which tests what it holds first.
  unfoldable pub await_answer : List Event → FtpClient api → Ended api
  unfolding is_answer
  await_answer [] c = if is_answer c.server_msg c then done c [] else blocked c
  await_answer (silent ∷ es) c =
      let more = await_answer es c in
      if is_answer c.server_msg c then done c (silent ∷ es) else more
  await_answer (got m ∷ es) c =
      let more = await_answer es (record c { server_msg = m }) in
      if is_answer c.server_msg c then done c (got m ∷ es) else more

  -- One request for a name and its answer, up to `*isFilenameAccepted = true`.
  unfoldable pub ask : MsgType → List ℕ → List Event → FtpClient api → Ended api
  ask type name es c = elim (request api type name c) [
    | none ↦ crashed
    | some c' ↦ await_answer es c' >>= (λ c'' es. done (acknowledge api c.requests.next c'') es)
  ]

  -- The second loop: the new name. It returns after an ACK, or when the user does not go on.
  unfoldable pub ask_new_name : List Typed → List Event → FtpClient api → Ended api
  ask_new_name [] es c = blocked c
  ask_new_name (typed ∷ rest) es c = ask MsgType.resp typed.name es c >>= (λ c es.
      let more = ask_new_name rest es (record c { sequence_number = c.sequence_number + 1 }) in
      if is_ack c.server_msg.type then done c es else if typed.again then more else gave_up c es)

  -- The first loop: the file to rename. An answer that is neither ACK nor FAE ends it like an ACK, since
  -- the flag that the loop tests has been set.
  unfoldable pub ask_old_name : List Typed → List Typed → List Event → FtpClient api → Ended api
  ask_old_name [] news es c = blocked c
  ask_old_name (typed ∷ rest) news es c = ask MsgType.put typed.name es c >>= (λ c es.
      let c' = record c { sequence_number = c.sequence_number + 1 } in
      let more = ask_old_name rest news es c' in
      if is_ack c'.server_msg.type
      then ask_new_name news es c'
      else if is_fae c'.server_msg
      then if typed.again then more else gave_up c' es
      else ask_new_name news es c')

  unfoldable pub perform_rename : List Typed → List Typed → List Event → FtpClient api → Ended api
  perform_rename olds news es c =
      ask_old_name olds news es
        (record c { server_msg = record c.server_msg { server_id = null_server_id } })
