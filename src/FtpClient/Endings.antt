-- ===== src/FtpClient/Endings.antt =====
-- What holds when a method of the client returns, and when it waits.
use comp6461_assignment.Base.{◌≡◌, refl, ◌∙◌, List, [], ◌∷◌, Bool-cases, inl, inr}
use comp6461_assignment.Message.{Msg, MsgType}
use comp6461_assignment.ServerThread.Defs.{FileApi}
use comp6461_assignment.FtpClient.Defs.{
  Event, got, silent, FtpClient, Ended, done, gave_up, threw, blocked, crashed, ◌>>=◌, answer_eof,
  msg_send, client_msg, is_eof,
}

-- The call returns with P, or it still waits with Q: it neither fails nor gives up.
abbrev pub Finally :
    {api : FileApi} → (FtpClient api → Type 0) → (FtpClient api → Type 0) → Ended api → Type 0
Finally Returned Waits (done c es) = Returned c
Finally Returned Waits (blocked c) = Waits c
Finally Returned Waits _ = ⊥

-- The call returns, and with P: it does not wait either.
abbrev pub Returns : {api : FileApi} → (FtpClient api → List Event → Type 0) → Ended api → Type 0
Returns P (done c es) = P c es
Returns P _ = ⊥

pub Returns-bind :
    {api : FileApi} (P Q : FtpClient api → List Event → Type 0) (e : Ended api)
    (f : FtpClient api → List Event → Ended api)
    → Returns P e
    → ((c : FtpClient api) (es : List Event) → P c es → Returns Q (f c es))
    → Returns Q (e >>= f)
Returns-bind P Q (done c es) f now later = later c es now
Returns-bind P Q (blocked c) f now later = absurd now
Returns-bind P Q (gave_up c es) f now later = absurd now
Returns-bind P Q (threw x c) f now later = absurd now
Returns-bind P Q crashed f now later = absurd now

-- A call that cannot be waiting returns.
pub Finally-never :
    {api : FileApi} (First Waits : FtpClient api → Type 0) (e : Ended api)
    → ((c : FtpClient api) → Waits c → ⊥)
    → Finally First Waits e
    → Returns (λ c es. First c) e
Finally-never First Waits (done c es) n h = h
Finally-never First Waits (blocked c) n h = n c h
Finally-never First Waits (gave_up c es) n h = h
Finally-never First Waits (threw x c) n h = h
Finally-never First Waits crashed n h = h

-- What holds if a call returns, and that it does.
pub Finally-Returns :
    {api : FileApi} (First Waits : FtpClient api → Type 0)
    (P Q : FtpClient api → List Event → Type 0) (e : Ended api)
    → ((c : FtpClient api) (es : List Event) → First c → P c es → Q c es)
    → Finally First Waits e
    → Returns P e
    → Returns Q e
Finally-Returns First Waits P Q (done c es) g h p = g c es h p
Finally-Returns First Waits P Q (blocked c) g h p = p
Finally-Returns First Waits P Q (gave_up c es) g h p = p
Finally-Returns First Waits P Q (threw x c) g h p = p
Finally-Returns First Waits P Q crashed g h p = p

module _ (api : FileApi) (First Last Waits : FtpClient api → Type 0) where
  pub Finally-bind :
      (e : Ended api) (f : FtpClient api → List Event → Ended api)
      → Finally First Waits e
      → ((c : FtpClient api) (es : List Event) → First c → Finally Last Waits (f c es))
      → Finally Last Waits (e >>= f)
  Finally-bind (done c es) f now later = later c es now
  Finally-bind (blocked c) f now later = now
  Finally-bind (gave_up c es) f now later = absurd now
  Finally-bind (threw x c) f now later = absurd now
  Finally-bind crashed f now later = absurd now

pub Finally-map :
    {api : FileApi} (First Last Waits Waits' : FtpClient api → Type 0) (e : Ended api)
    → ((c : FtpClient api) → First c → Last c)
    → ((c : FtpClient api) → Waits c → Waits' c)
    → Finally First Waits e
    → Finally Last Waits' e
Finally-map First Last Waits Waits' (done c es) g w h = g c h
Finally-map First Last Waits Waits' (blocked c) g w h = w c h
Finally-map First Last Waits Waits' (gave_up c es) g w h = h
Finally-map First Last Waits Waits' (threw x c) g w h = h
Finally-map First Last Waits Waits' crashed g w h = h

module _ (api : FileApi) where
  -- The fields that a transfer leaves alone while messages come.
  pub record Keeps (c c' : FtpClient api) : Type 0 where
    pub server : c'.server_identifier ≡ c.server_identifier
    pub client : c'.client_identifier ≡ c.client_identifier
    pub number : c'.sequence_number ≡ c.sequence_number
    pub directory : c'.files_directory ≡ c.files_directory
    pub disk : c'.disk ≡ c.disk
    pub printed : c'.printed ≡ c.printed

  pub Keeps-refl : (c : FtpClient api) → Keeps c c
  Keeps-refl c = record {
    server = refl;
    client = refl;
    number = refl;
    directory = refl;
    disk = refl;
    printed = refl;
  }

  pub Keeps-trans : {a b c : FtpClient api} → Keeps a b → Keeps b c → Keeps a c
  Keeps-trans k l = record {
    server = l.server ∙ k.server;
    client = l.client ∙ k.client;
    number = l.number ∙ k.number;
    directory = l.directory ∙ k.directory;
    disk = l.disk ∙ k.disk;
    printed = l.printed ∙ k.printed;
  }

  pub received-Keeps : (c : FtpClient api) (m : Msg) → Keeps c (record c { server_msg = m })
  received-Keeps c m = record {
    server = refl;
    client = refl;
    number = refl;
    directory = refl;
    disk = refl;
    printed = refl;
  }

  answer_eof_from :
      (es : List Event) (base c : FtpClient api)
      → Keeps base c
      → c.receiver ≡ base.receiver
      → Finally
          (λ c'. Keeps base c' × (c'.receiver ≡ base.receiver))
          (Keeps base)
          (answer_eof api es c)
  unfolding answer_eof msg_send
  answer_eof_from [] base c k e = k
  answer_eof_from (silent ∷ es) base c k e = (k, e)
  answer_eof_from (got m ∷ es) base c k e = elim (Bool-cases (is_eof m)) [
    | inl again ↦ rw again (
        answer_eof_from es base
          (msg_send api (client_msg api c MsgType.ack m.sequence_number [])
            (record c { server_msg = m }))
          (Keeps-trans k (record {
            server = refl;
            client = refl;
            number = refl;
            directory = refl;
            disk = refl;
            printed = refl;
          }))
          e)
    | inr other ↦ rw other (
        answer_eof_from es base (record c { server_msg = m }) (Keeps-trans k (received-Keeps c m))
          e)
  ]

  -- Repeated EOF messages change only the outbox.
  pub answer_eof-Finally :
      (es : List Event) (c : FtpClient api)
      → Finally (λ c'. Keeps c c' × (c'.receiver ≡ c.receiver)) (Keeps c) (answer_eof api es c)
  answer_eof-Finally es c = answer_eof_from es c c (Keeps-refl c) refl
