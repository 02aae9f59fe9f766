-- ===== src/FtpServer/Clients.antt =====
-- Which thread serves which client: an invariant of FtpServer's maps.
use native.Mathlib.Decide.{ℕ_discrete}
use mathlib.Core.Path.{subst}
use comp6461_assignment.Base.{
  ℕ, ◌<◌, ◌≡◌, ◌≢◌, ◌⊎◌, refl, sym, ap, ◌∙◌, Bool, true, false, Option, none, some, List, arith,
  is_some, update, Option-cases, Bool-cases, inl, inr, update_ne, ◌&&◌,
}
use comp6461_assignment.Base.Int.{ℤ, pos, ◌==ℤ◌, ==ℤ_iff}
use comp6461_assignment.Message.{Msg}
use comp6461_assignment.FtpServer.{
  FtpServer, ok, put, keep, hand_over, dispatch_message, admit_client, forget_thread,
  restart_client, wait_to_forget, is_handshake, reconnect_client, get_server_id, handle_message,
}
use comp6461_assignment.FtpServer.Threads.{
  Gives, Gives-then, Gives-ok, Opened, create_server_thread-Opened,
}

-- Each client has an id below 256 that is a key of threadLocks, and an entry in pastServerIds; no two
-- clients have the same id.
pub record Tables (clients past : ℤ → Option ℕ) (locks : ℕ → Bool) : Type 0 where
  pub served : (c : ℤ) (i : ℕ) → clients c ≡ some i → locks i ≡ true
  pub ranged : (c : ℤ) (i : ℕ) → clients c ≡ some i → i < 256
  pub distinct : (c d : ℤ) (i : ℕ) → clients c ≡ some i → clients d ≡ some i → c ≡ d
  pub remembered : (c : ℤ) (i : ℕ) → clients c ≡ some i → is_some (past c) ≡ true

abbrev pub IsValid : FtpServer → Type 0
IsValid s = Tables s.client_ids s.past_server_ids s.thread_locks

pub put_self : (m : ℤ → Option ℕ) (c : ℤ) (i : ℕ) → put m c i c ≡ some i
put_self m c i = rw ((==ℤ_iff c c).1 refl) refl

pub put_ne : (m : ℤ → Option ℕ) (c d : ℤ) (i : ℕ) → c ≢ d → put m c i d ≡ m d
put_ne m c d i ne = ground (arith, ==ℤ_iff c d)

pub put_cases :
    (m : ℤ → Option ℕ) (c d : ℤ) (i j : ℕ)
    → put m c i d ≡ some j
    → ((c ≡ d) × (i ≡ j)) ⊎ ((c ≢ d) × (m d ≡ some j))
put_cases m c d i j e = elim (Bool-cases (c ==ℤ d)) [
  | inl same ↦ inl ((==ℤ_iff c d).0 same, ground arith)
  | inr other ↦ inr (λ q. ground (arith, (==ℤ_iff c d).1 q), ground arith)
]

put-is_some :
    (m : ℤ → Option ℕ) (c d : ℤ) (i : ℕ) → is_some (m d) ≡ true → is_some (put m c i d) ≡ true
put-is_some m c d i h = elim (Bool-cases (c ==ℤ d)) [ inl e ↦ rw e refl | inr e ↦ rw e h ]

put_past :
    (clients past : ℤ → Option ℕ) (locks : ℕ → Bool) (c : ℤ) (i : ℕ)
    → Tables clients past locks
    → Tables clients (put past c i) locks
put_past clients past locks c i v = record {
  served = v.served;
  ranged = v.ranged;
  distinct = v.distinct;
  remembered = λ d j e. put-is_some past c d i (v.remembered d j e);
}

-- A client is given the thread with a free id, where its own old thread may be gone.
give_thread :
    (clients past : ℤ → Option ℕ) (locks locks' : ℕ → Bool) (c : ℤ) (id : ℕ)
    → Tables clients past locks
    → ((d : ℤ) (i : ℕ) → c ≢ d → clients d ≡ some i → locks' i ≡ true)
    → is_some (past c) ≡ true
    → locks' id ≡ false
    → id < 256
    → Tables (put clients c id) past (update locks' id true)
give_thread clients past locks locks' c id v others known free small = record {
  served = λ d i e. elim (put_cases clients c d id i e) [
    | inl (same, q) ↦ ground (arith, q)
    | inr (other, q) ↦ ground (arith, others d i other q)
  ];
  ranged = λ d i e. elim (put_cases clients c d id i e) [
    | inl (same, q) ↦ omega arith
    | inr (other, q) ↦ v.ranged d i q
  ];
  distinct = λ d f i e g. elim (put_cases clients c d id i e) [
    | inl (same, q) ↦ elim (put_cases clients c f id i g) [
      | inl (same', q') ↦ sym same ∙ same'
      | inr (other', q') ↦ ground (arith, others f i other' q', q)
    ]
    | inr (other, q) ↦ elim (put_cases clients c f id i g) [
      | inl (same', q') ↦ ground (arith, others d i other q, q')
      | inr (other', q') ↦ v.distinct d f i q q'
    ]
  ];
  remembered = λ d i e. elim (put_cases clients c d id i e) [
    | inl (same, q) ↦ rw (← same) known
    | inr (other, q) ↦ v.remembered d i q
  ];
}

module _ (m : Msg) where
  abbrev Keeps : Option ℕ × FtpServer → Type 0
  Keeps (id, s) = IsValid s

  hand_over-IsValid : (id : ℕ) (s : FtpServer) → IsValid s → Gives IsValid (hand_over id m s)
  unfolding hand_over
  hand_over-IsValid id s v = elim (Bool-cases (s.thread_locks id)) [
    | inl e ↦ elim (Bool-cases (s.unread id)) [
      | inl stuck ↦ rw (e, stuck) tt
      | inr free ↦ rw (e, free) v
    ]
    | inr e ↦ rw e tt
  ]

  dispatch_message-IsValid :
      (id : Option ℕ) (s : FtpServer) → IsValid s → Gives IsValid (dispatch_message id m s)
  unfolding dispatch_message
  dispatch_message-IsValid none s v = v
  dispatch_message-IsValid (some id) s v = hand_over-IsValid id s v

  admit_client-Keeps :
      (draws : List ℕ) (s : FtpServer)
      → IsValid s
      → s.client_ids m.client_id ≡ none
      → Gives Keeps (admit_client draws m s)
  unfolding admit_client
  admit_client-Keeps draws s v new =
      Gives-then (Opened s) Keeps _ _ (create_server_thread-Opened draws s)
        (λ (id, s') (free, small, e).
          subst
            (λ t.
              Tables (put t.client_ids m.client_id id)
                (put t.past_server_ids m.client_id (keep (t.past_server_ids m.client_id) id))
                t.thread_locks)
            (sym e)
            (give_thread s.client_ids _ s.thread_locks s.thread_locks m.client_id id
              (put_past s.client_ids s.past_server_ids s.thread_locks m.client_id _ v)
              (λ d i ne q. v.served d i q)
              (rw (put_self s.past_server_ids m.client_id (keep (s.past_server_ids m.client_id) id))
                refl)
              free small))

  -- The old thread of the client may be gone; those of the others run.
  record Others (s : FtpServer) (current : ℕ) (t : FtpServer) : Type 0 where
    same : t.client_ids ≡ s.client_ids
    past : t.past_server_ids ≡ put s.past_server_ids m.client_id current
    run : (d : ℤ) (i : ℕ) → m.client_id ≢ d → s.client_ids d ≡ some i → t.thread_locks i ≡ true

  abbrev Told : FtpServer → ℕ → FtpServer → Type 0
  Told s current t =
      (t.client_ids ≡ s.client_ids)
      × (t.past_server_ids ≡ put s.past_server_ids m.client_id current)
      × (t.thread_locks ≡ s.thread_locks)

  forget_thread-Others :
      (current : ℕ) (s t : FtpServer)
      → IsValid s
      → s.client_ids m.client_id ≡ some current
      → Told s current t
      → Others s current (forget_thread current t)
  forget_thread-Others current s t v old (a, b, c) = elim (Bool-cases t.are_server_ids_reused) [
    | inl e ↦ rw e (record {
      same = a;
      past = b;
      run = λ d i ne q. elim (ℕ_discrete current i) [
        | yes clash ↦ absurd (ne (v.distinct m.client_id d i (old ∙ ap some clash) q))
        | no apart ↦
            update_ne t.thread_locks current i false apart
            ∙ ap (λ (f : ℕ → Bool). f i) c
            ∙ v.served d i q
      ];
    })
    | inr e ↦ rw e (record {
      same = a;
      past = b;
      run = λ d i ne q. ap (λ (f : ℕ → Bool). f i) c ∙ v.served d i q;
    })
  ]

  hand_over-Told :
      (current : ℕ) (s : FtpServer)
      → Gives (Told s current) (
          hand_over current m (record s {
            past_server_ids = put s.past_server_ids m.client_id current;
            is_thread_active = update s.is_thread_active current (some false);
          }))
  unfolding hand_over
  hand_over-Told current s = elim (Bool-cases (s.thread_locks current)) [
    | inl e ↦ elim (Bool-cases (s.unread current)) [
      | inl stuck ↦ rw (e, stuck) tt
      | inr free ↦ rw (e, free) (refl, refl, refl)
    ]
    | inr e ↦ rw e tt
  ]

  wait_to_forget-Told :
      (current : ℕ) (s t : FtpServer)
      → Told s current t
      → Gives (Told s current) (wait_to_forget current t)
  unfolding wait_to_forget
  wait_to_forget-Told current s t h =
      elim (Bool-cases (t.are_server_ids_reused && t.unread current)) [
        | inl stuck ↦ rw stuck tt
        | inr free ↦ rw free h
      ]

  restart_client-Keeps :
      (draws : List ℕ) (current : ℕ) (s : FtpServer)
      → IsValid s
      → s.client_ids m.client_id ≡ some current
      → Gives Keeps (restart_client draws current m s)
  unfolding restart_client
  restart_client-Keeps draws current s v old =
      Gives-then (Told s current) Keeps _ _
        (Gives-then (Told s current) (Told s current) _ _ (hand_over-Told current s)
          (λ told q. wait_to_forget-Told current s told q))
        (λ told q.
          let o = forget_thread-Others current s told v old q in
          Gives-then (Opened (forget_thread current told)) Keeps _ _
            (create_server_thread-Opened draws (forget_thread current told))
            (λ (id, s') (free, small, e).
              subst (λ t. Tables (put t.client_ids m.client_id id) t.past_server_ids t.thread_locks)
                (sym e)
                (rw (o.same, o.past)
                  (give_thread s.client_ids _ s.thread_locks _ m.client_id id
                    (put_past s.client_ids s.past_server_ids s.thread_locks m.client_id current v)
                    o.run (rw (put_self s.past_server_ids m.client_id current) refl) free small))))

  reconnect_client-Keeps :
      (current : ℕ) (s : FtpServer) → IsValid s → Keeps (reconnect_client current m s)
  unfolding reconnect_client
  reconnect_client-Keeps current s v = put_past s.client_ids s.past_server_ids s.thread_locks _ _ v

  get_server_id-Keeps :
      (draws : List ℕ) (s : FtpServer) → IsValid s → Gives Keeps (get_server_id draws m s)
  unfolding get_server_id
  get_server_id-Keeps draws s v = elim (Option-cases (s.client_ids m.client_id)) [
    | inl new ↦ rw (get_server_id, new) (admit_client-Keeps draws s v new)
    | inr (current, old) ↦ elim (Bool-cases (is_handshake m.type)) [
      | inr other ↦ rw (get_server_id, old, other) v
      | inl shakes ↦ elim (Bool-cases (m.server_id ==ℤ pos current)) [
        | inl again ↦
            rw (get_server_id, old, shakes, again) (restart_client-Keeps draws current s v old)
        | inr late ↦ rw (get_server_id, old, shakes, late) (reconnect_client-Keeps current s v)
      ]
    ]
  ]

  -- A message that is handled, whoever sends it and whatever it says, keeps the invariant of the maps:
  -- each client has an id below 256 that is a key of threadLocks, and an entry in pastServerIds, and no
  -- two clients have the same id. (That the thread of the id still runs is not part of it.)
  pub handle_message-IsValid :
      (draws : List ℕ) (s s' : FtpServer)
      → IsValid s
      → handle_message draws m s ≡ ok s'
      → IsValid s'
  unfolding handle_message
  handle_message-IsValid draws s s' v e =
      Gives-ok IsValid _ s'
        (Gives-then Keeps IsValid _ _ (get_server_id-Keeps draws s v)
          (λ (id, t) w. dispatch_message-IsValid id t w))
        e
