-- ===== src/FtpClient/Retrieval.antt =====
-- What FtpClient::performGet writes, and what performList prints.
use mathlib.Core.Path.{subst, ap₂}
use comp6461_assignment.Base.{
  ℕ, ◌+◌, ◌%◌, ◌≤◌, ◌<◌, ◌≡◌, refl, sym, ap, ◌∙◌, Bool, true, false, List, [], ◌++◌, arith, length,
}
use comp6461_assignment.Message.{MsgType, Payload, sequence_range, buffer_length}
use comp6461_assignment.Sender.{start_thread, thread_msg}
use comp6461_assignment.Receiver.{Receiver, start_new_payload, get_payload, assembled, drain}
use comp6461_assignment.Receiver.Inv.{chunks_below}
use comp6461_assignment.Receiver.Completion.{Complete, get_payload-Complete}
use comp6461_assignment.ServerThread.Defs.{FileApi}
use comp6461_assignment.FtpClient.Defs.{Event, FtpClient, done, ◌>>=◌, request, answer_eof}
use comp6461_assignment.FtpClient.Transfers.{
  receive_loop, fetch, write_payload, perform_get, print_listing, list_payload, perform_list,
}
use comp6461_assignment.FtpClient.Endings.{
  Finally, Finally-bind, Finally-map, Keeps, answer_eof-Finally,
}
use comp6461_assignment.FtpClient.Downloads.{Fed, Received, start-Proceeds, receive_loop-Finally}

module _ (api : FileApi) where
  open api use {write}

  pub write_payload-eq :
      (filename : List ℕ) (c : FtpClient api) (es : List Event) (payload : Payload) (r : Receiver)
      → get_payload c.receiver ≡ assembled payload r
      → write_payload api filename c es
        ≡ done
            (record c {
              receiver = r;
              disk = write c.disk (c.files_directory ++ filename) payload.contents;
            })
            es
  unfolding write_payload
  write_payload-eq filename c es payload r e = ground (arith, e)

  pub list_payload-eq :
      (c : FtpClient api) (es : List Event) (payload : Payload) (r : Receiver)
      → get_payload c.receiver ≡ assembled payload r
      → list_payload api c es ≡ (
          answer_eof api es (record c { receiver = r }) >>= (λ c es.
            done (record c { printed = c.printed ++ print_listing payload.contents }) es))
  unfolding list_payload
  list_payload-eq c es payload r e = ground (arith, e)

  pub perform_get-eq :
      (filename : List ℕ) (es : List Event) (c : FtpClient api)
      → length filename < 20
      → perform_get api filename es c ≡ (
          fetch api MsgType.get_file filename true es c
          >>= (λ c es.
              answer_eof api es (record c {
                sequence_number = (c.server_msg.sequence_number + 1) % sequence_range;
              }))
          >>= write_payload api filename)
  unfolding perform_get
  perform_get-eq filename es c short = ground (arith, short)

module _ (n : ℕ) (chunk : ℕ → Payload) (positive : (j : ℕ) → j < n → 0 < (chunk j).length)
    (api : FileApi) where
  open api use {Disk, write}

  -- The client with its request on the way.
  unfoldable pub requested : MsgType → List ℕ → FtpClient api → FtpClient api
  requested type bytes c = record c {
    receiver = start_new_payload c.receiver c.sequence_number;
    requests = start_thread c.requests (
        thread_msg c.server_identifier c.client_identifier type c.sequence_number bytes
          (length bytes));
  }

  module _ (es : List Event) (c : FtpClient api)
      (fed : Fed n c.sequence_number chunk c.server_identifier es
        (start_new_payload c.receiver c.sequence_number)) where
    abbrev pub Fetched : FtpClient api → Type 0
    Fetched = Received n c.sequence_number chunk c

    pub fetch-eq :
        (type : MsgType) (bytes : List ℕ) (catches : Bool)
        → length bytes ≤ buffer_length
        → fetch api type bytes catches es c
          ≡ receive_loop api c.requests.next catches es (requested type bytes c)
    unfolding fetch request requested
    fetch-eq type bytes catches small = ground (arith, small)

    pub fetch-Finally :
        (type : MsgType) (bytes : List ℕ) (catches : Bool)
        → length bytes ≤ buffer_length
        → Finally Fetched (Keeps api c) (fetch api type bytes catches es c)
    unfolding requested
    fetch-Finally type bytes catches small =
        subst (Finally Fetched (Keeps api c)) (sym (fetch-eq type bytes catches small)) (
          receive_loop-Finally n c.sequence_number chunk positive api c.requests.next catches c es
            (requested type bytes c)
            (record {
              server = refl;
              client = refl;
              number = refl;
              directory = refl;
              disk = refl;
              printed = refl;
            })
            (start-Proceeds n c.sequence_number chunk c.receiver c.server_msg) fed)

    -- The payload as it is in the queue.
    abbrev pub bytes_of : List ℕ
    bytes_of = drain (chunks_below chunk n)

    -- Before the file is written or the listing printed.
    pub record Ready (c' : FtpClient api) : Type 0 where
      pub disk : c'.disk ≡ c.disk
      pub directory : c'.files_directory ≡ c.files_directory
      pub printed : c'.printed ≡ c.printed
      pub complete : Complete n c.sequence_number chunk c'.receiver

    abbrev pub ReadyWith : ℕ → FtpClient api → Type 0
    ReadyWith number c' = Ready c' × (c'.sequence_number ≡ number)

    abbrev pub Untouched : FtpClient api → Type 0
    Untouched c' = (c'.disk ≡ c.disk) × (c'.printed ≡ c.printed)

    abbrev pub number_after : ℕ
    number_after = (n + c.sequence_number + 1) % sequence_range

    write_payload-Finally :
        (filename : List ℕ) (c' : FtpClient api) (es' : List Event)
        → Ready c'
        → c'.sequence_number ≡ number_after
        → Finally
            (λ c''.
              (c''.disk ≡ write c.disk (c.files_directory ++ filename) bytes_of)
              × (c''.sequence_number ≡ number_after))
            Untouched
            (write_payload api filename c' es')
    write_payload-Finally filename c' es' r number =
        subst (Finally _ Untouched)
          (sym (
            write_payload-eq api filename c' es' _ _
              (get_payload-Complete n c.sequence_number chunk c'.receiver r.complete)))
          (
            ap₂ (λ (d : Disk) (dir : List ℕ). write d (dir ++ filename) bytes_of) r.disk
                r.directory,
            number,
          )

    -- The end of a fetch: the number of what comes next, and the repeated EOF messages.
    pub settle-Finally :
        (c' : FtpClient api) (es' : List Event) (number : ℕ)
        → Fetched c'
        → Finally
            (ReadyWith number)
            Untouched
            (answer_eof api es' (record c' { sequence_number = number }))
    settle-Finally c' es' number (k, complete, last) =
        Finally-map
          (λ d. Keeps api (record c' { sequence_number = number }) d × (d.receiver ≡ c'.receiver))
          (ReadyWith number) (Keeps api (record c' { sequence_number = number })) Untouched _
          (λ d (l, same). (
            record {
              disk = l.disk ∙ k.disk;
              directory = l.directory ∙ k.directory;
              printed = l.printed ∙ k.printed;
              complete = subst (Complete n c.sequence_number chunk) (sym same) complete;
            },
            l.number,
          ))
          (λ d l. (l.disk ∙ k.disk, l.printed ∙ k.printed))
          (answer_eof-Finally api es' (record c' { sequence_number = number }))

    -- A download is exact. The packets that come are not empty and fit the receiver's window, in any order
    -- and number, and the EOF message may come early; then performGet does not fail, and when it returns,
    -- the file holds the bytes of the packets in order, and the sequence number is that behind the EOF
    -- message; while it waits, nothing is written.
    pub perform_get_exact :
        (filename : List ℕ)
        → length filename < 20
        → Finally
            (λ c'.
              (c'.disk ≡ write c.disk (c.files_directory ++ filename) bytes_of)
              × (c'.sequence_number ≡ number_after))
            Untouched
            (perform_get api filename es c)
    perform_get_exact filename short =
        subst (Finally _ Untouched) (sym (perform_get-eq api filename es c short)) (
          Finally-bind api (ReadyWith number_after) _ Untouched _ _
            (Finally-bind api Fetched (ReadyWith number_after) Untouched _ _
              (Finally-map Fetched Fetched (Keeps api c) Untouched _ (λ c' h. h)
                (λ c' k. (k.disk, k.printed))
                (fetch-Finally MsgType.get_file filename true (omega arith)))
              (λ c' es' h.
                Finally-map (ReadyWith ((c'.server_msg.sequence_number + 1) % sequence_range))
                  (ReadyWith number_after) Untouched Untouched _
                  (λ d (r, e). (r, e ∙ omega (arith, h.2))) (λ d w. w)
                  (settle-Finally c' es' ((c'.server_msg.sequence_number + 1) % sequence_range) h)))
            (λ c' es' (r, number). write_payload-Finally filename c' es' r number))

    print-Finally :
        (c' : FtpClient api) (es' : List Event)
        → Fetched c'
        → Finally
            (λ c''.
              (c''.printed ≡ c.printed ++ print_listing bytes_of)
              × (c''.disk ≡ c.disk)
              × (c''.sequence_number ≡ (n + c.sequence_number) % sequence_range + 1))
            Untouched
            (list_payload api
              (record c' { sequence_number = c'.server_msg.sequence_number + 1 })
              es')
    print-Finally c' es' (k, complete, last) =
        subst (Finally _ Untouched)
          (sym (
            list_payload-eq api _ es' _ _
              (get_payload-Complete n c.sequence_number chunk c'.receiver complete)))
          (Finally-bind api (λ d. Keeps api emptied d) _ Untouched _ _
            (Finally-map (λ d. Keeps api emptied d × (d.receiver ≡ emptied.receiver))
              (Keeps api emptied) (Keeps api emptied) Untouched _ (λ d l. l.0)
              (λ d l. (l.disk ∙ k.disk, l.printed ∙ k.printed))
              (answer_eof-Finally api es' emptied))
            (λ d es'' l. (
              ap (◌++ print_listing bytes_of) (l.printed ∙ k.printed),
              l.disk ∙ k.disk,
              l.number ∙ ap (◌+ 1) last,
            )))
      where
        emptied : FtpClient api
        emptied = record c' {
          sequence_number = c'.server_msg.sequence_number + 1;
          receiver = record c'.receiver { completed_set = [] };
        }

    -- A listing is exact, in the same way: when performList returns, it has printed the bytes of the
    -- packets in order, with a line end for each NUL, and written nothing; its sequence number is that of
    -- the EOF message plus 1, which is SEQUENCE_RANGE where it ought to wrap to 0.
    pub perform_list_exact :
        Finally
          (λ c'.
            (c'.printed ≡ c.printed ++ print_listing bytes_of)
            × (c'.disk ≡ c.disk)
            × (c'.sequence_number ≡ (n + c.sequence_number) % sequence_range + 1))
          Untouched
          (perform_list api es c)
    unfolding perform_list
    perform_list_exact =
        Finally-bind api Fetched _ Untouched _ _
          (Finally-map Fetched Fetched (Keeps api c) Untouched _ (λ c' h. h)
            (λ c' k. (k.disk, k.printed)) (fetch-Finally MsgType.get_list [] false (omega arith)))
          (λ c' es' h. print-Finally c' es' h)
