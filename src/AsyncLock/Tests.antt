-- ===== src/AsyncLock/Tests.antt =====
-- One message that is passed from the writer to the reader.
use comp6461_assignment.Base.{◌≡◌, ◌⊎◌, refl, [], ◌∷◌, ◌++◌}
use comp6461_assignment.Base.Int.{pos}
use comp6461_assignment.Message.{Msg, MsgType}
use comp6461_assignment.AsyncLock.{
  new_lock, may_consume, finalize_consumption, may_signal, finalize_signalling,
}
use comp6461_assignment.AsyncLock.Exchange.{
  Exchange, outside, copied, working, waiting, start, enter, copy, leave, finish, take_up, Reach,
  here, next, exchange_exact,
}

abbrev blank : Msg
blank = record {
  client_id = pos 0;
  server_id = pos 0;
  type = MsgType.other 0;
  length = 0;
  sequence_number = 0;
  buffer = [];
}

abbrev message : Msg
message = record blank { type = MsgType.get_list; sequence_number = 3 }

abbrev ready : Exchange
ready = record (start blank) { reader = waiting; lock = finalize_consumption (start blank).lock }

abbrev inside : Exchange
inside = record ready { writer = copied; slot = message; sent = message ∷ [] }

abbrev passed : Exchange
passed = record inside {
  writer = outside;
  reader = working;
  lock = finalize_signalling inside.lock;
  taken = message ∷ [];
}

reach-inside : Reach (start blank) inside
unfolding start new_lock may_signal finalize_consumption
reach-inside = next (next (next here (finish refl)) (enter refl refl)) (copy message refl)

reach-passed : Reach (start blank) passed
unfolding start may_consume finalize_signalling
reach-passed = next (next reach-inside (leave refl)) (take_up refl refl)

exchange_exact_example :
    (passed.sent ≡ passed.taken) ⊎ (passed.sent ≡ passed.taken ++ passed.slot ∷ [])
exchange_exact_example = exchange_exact blank reach-passed
