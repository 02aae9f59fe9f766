-- ===== src/Link/Listing.antt =====
-- A whole listing: FtpClient::performList, the ServerThread that sends the names of its files, and the
-- network between them.
use comp6461_assignment.Base.{
  Bool, true, ℕ, ◌+◌, ◌%◌, ◌^◌, ◌<◌, ◌≡◌, refl, sym, ap, ◌∙◌, false, some, List, [], ◌∷◌, ◌++◌,
  arith, length, ≢→==,
}
use comp6461_assignment.Message.{Msg, MsgType, sequence_range}
use comp6461_assignment.Sender.{Sender, initialize_payload, initialized, send, thread_msg}
use comp6461_assignment.Sender.Passes.{Quiet}
use comp6461_assignment.Receiver.{Receiver, drain}
use comp6461_assignment.Receiver.Inv.{chunks_below}
use comp6461_assignment.ServerThread.Defs.{FileApi, Thread, ok, waiting_for_request}
use comp6461_assignment.ServerThread.Requests.{
  send_list, start_sender, begin_sending, has_long_name, names_length, fill_names,
}
use comp6461_assignment.ServerThread.Files.{IsName, AllNames, joined, fill_names-joined}
use comp6461_assignment.ServerThread.Run.{on_request, run}
use comp6461_assignment.ServerThread.Endings.{actives}
use comp6461_assignment.ServerThread.Saving.{pass-waiting}
use comp6461_assignment.FtpClient.Defs.{Event, FtpClient}
use comp6461_assignment.FtpClient.Transfers.{print_listing, perform_list}
use comp6461_assignment.FtpClient.Endings.{Finally, Finally-map}
use comp6461_assignment.FtpClient.Retrieval.{perform_list_exact}
use comp6461_assignment.Link.{Link, start_link}
use comp6461_assignment.Link.Packets.{chunk, packet_size-pos}
use comp6461_assignment.Link.Safety.{IsGiven, formed}
use comp6461_assignment.Link.Get.{fed_client, all_bytes}
use comp6461_assignment.Link.Serving.{Downloads, Downloads-Feeds}
use comp6461_assignment.Link.Download.{ThreadEnds, sending_ends}

-- The names, each on a line of its own.
abbrev pub lines : List (List ℕ) → List ℕ
lines [] = []
lines (name ∷ names) = name ++ 10 ∷ lines names

print_listing-name :
    (name rest : List ℕ)
    → IsName name
    → print_listing (name ++ 0 ∷ rest) ≡ name ++ 10 ∷ print_listing rest
unfolding print_listing
print_listing-name [] rest h = refl
print_listing-name (b ∷ name) rest (ne, h) =
    rw (≢→== b 0 ne) (ap (◌∷◌ b) (print_listing-name name rest h))

print_listing-joined :
    (names : List (List ℕ)) → AllNames names → print_listing (joined names) ≡ lines names
unfolding print_listing joined
print_listing-joined [] h = refl
print_listing-joined (name ∷ names) (h, hs) =
    print_listing-name name (joined names) h
    ∙ ap (λ (rest : List ℕ). name ++ 10 ∷ rest) (print_listing-joined names hs)

-- The message of performList's request.
abbrev pub list_request : {api : FileApi} → FtpClient api → Msg
list_request c =
    thread_msg c.server_identifier c.client_identifier MsgType.get_list c.sequence_number [] 0

same-some : {bytes bytes' : List ℕ} → some bytes ≡ some bytes' → bytes ≡ bytes'
same-some e = cc (e)

module _ (api : FileApi) (fuel : ℕ) (raw_sender : Sender) (raw_receiver : Receiver) where
  open api use {file_names}

  send_list-reads :
      (t : Thread api) (old s : Sender) (bytes : List ℕ)
      → has_long_name (file_names t.disk t.files_directory) ≡ false
      → fill_names
          (names_length (file_names t.disk t.files_directory))
          0
          (file_names t.disk t.files_directory)
        ≡ some bytes
      → t.sender ≡ some old
      → initialize_payload old (some bytes) (length bytes) t.current_msg.sequence_number
        ≡ initialized s
      → send_list api t ≡ ok (record (begin_sending api t) { sender = some (send s) })
  unfolding send_list start_sender
  send_list-reads t old s bytes short filled mine given = ground (arith, short, filled, mine, given)

  -- A listing from end to end. A ServerThread that waits for a request is given that of a client's
  -- performList; its directory holds at least one file, all names are shorter than 20 bytes and hold no
  -- NUL, and the listing is shorter than 2 ^ 31; the client is synchronised with that thread, and no
  -- worker of an earlier transmission of the thread is left. Then in every run over a network that
  -- loses messages but keeps their order, neither end fails. The thread either still sends, or waits
  -- for a request again with the client's receiver complete. And when performList returns, it has
  -- printed the names of the server's files, in order and each on a line of its own, and written
  -- nothing; its sequence number is that of the EOF message plus 1, which is SEQUENCE_RANGE where it
  -- ought to wrap to 0. While it waits, it has printed nothing.
  pub list_served :
      (t : Thread api) (old s : Sender) (c : FtpClient api) (bytes : List ℕ) (es : List Event)
      (ms : List Msg) (l' : Link) {answers : Bool}
      → t.current_state ≡ waiting_for_request
      → t.current_msg ≡ list_request c
      → has_long_name (file_names t.disk t.files_directory) ≡ false
      → AllNames (file_names t.disk t.files_directory)
      → fill_names
          (names_length (file_names t.disk t.files_directory))
          0
          (file_names t.disk t.files_directory)
        ≡ some bytes
      → t.sender ≡ some old
      → Quiet old
      → 0 < length bytes
      → length bytes < 2 ^ 31
      → initialize_payload old (some bytes) (length bytes) c.sequence_number ≡ initialized s
      → c.server_identifier ≡ s.server_id
      → Downloads s.server_id true (start_link s c.receiver) es ms l' answers
      → (t' : Thread api) × (run api fuel raw_sender raw_receiver (actives ms) t ≡ some (ok t'))
        × ThreadEnds api s l' t.disk t'
        × Finally
            (λ c'.
              (c'.printed ≡ c.printed ++ lines (file_names t.disk t.files_directory))
              × (c'.disk ≡ c.disk)
              × (c'.sequence_number
                  ≡ (s.number_of_packets + c.sequence_number) % sequence_range + 1))
            (λ c'. (c'.disk ≡ c.disk) × (c'.printed ≡ c.printed))
            (perform_list api es c)
  unfolding on_request
  list_served t old s c bytes es ms l' w asked short plain filled mine quiet some_byte small given
        same downloads =
      let (t', ran, at_end) =
        sending_ends api fuel raw_sender raw_receiver t bytes c.sequence_number s c.receiver es ms
          l' g
          (pass-waiting api fuel raw_sender raw_receiver t w
            ∙ ap (λ (ty : MsgType). some (on_request api ty t)) (ap (λ (m : Msg). m.type) asked)
            ∙ ap some (
                send_list-reads t old s bytes short filled mine (
                  ap
                    (λ (m : Msg).
                      initialize_payload old (some bytes) (length bytes) m.sequence_number)
                    asked
                  ∙ given)))
          downloads in
      (
        t',
        ran,
        at_end,
        Finally-map _ _ _ _ (perform_list api es c)
            (λ c' (printed, kept, number). (printed ∙ ap (c.printed ++◌) on_lines, kept, number))
            (λ c' h. h)
            (perform_list_exact s.number_of_packets (chunk s.job)
              (packet_size-pos s.job (formed bytes c.sequence_number s g c.receiver)) api es c
              (fed_client api s c bytes g es (Downloads-Feeds downloads) same)),
      )
    where
      g : IsGiven bytes c.sequence_number s
      g = record { before = old; quiet = quiet; given = given; nonempty = some_byte; small = small }

      names : List (List ℕ)
      names = file_names t.disk t.files_directory

      on_lines :
          print_listing (drain (chunks_below (chunk s.job) s.number_of_packets)) ≡ lines names
      on_lines =
          ap print_listing (
            all_bytes api s c bytes g es (Downloads-Feeds downloads)
            ∙ same-some (sym filled ∙ fill_names-joined (names_length names) 0 names (omega arith)))
          ∙ print_listing-joined names plain
