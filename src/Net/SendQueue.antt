-- ===== src/Net/SendQueue.antt =====
-- `TSocket::Send`, `DoWrite` and the completion of a write (common/TSocket.cpp), with asio's
-- events as steps.
use oldpart.Base.{
  ℕ, ◌+◌, ◌≡◌, refl, ap, sym, ◌∙◌, append_assoc, Bool, true, false, List, [], ◌∷◌, ◌++◌, arith,
  length, length-append,
}
use oldpart.Message.{OMessage}

-- The outcome of an `async_write`: no error, `operation_aborted`, any other error.
pub data ErrorCode : Type 0 where
  success operation_aborted failure : ErrorCode

-- The fields of a socket that sending reads or writes. `given` are the messages that `Send` was
-- called with, `posted` those whose handlers wait in the context of the socket, `in_flight` are the `async_write`s that
-- have begun and are not complete, `begun` all that ever began, and `stops` counts the calls
-- `mManager.lock()->Stop(shared_from_this())`.
pub record Socket : Type 0 where
  pub pending_messages : List OMessage
  pub is_in_sending : Bool
  pub given : List OMessage
  pub posted : List OMessage
  pub in_flight : List OMessage
  pub begun : List OMessage
  pub stops : ℕ

unfoldable pub do_write : OMessage → Socket → Socket
do_write m s = record s {
  is_in_sending = true;
  in_flight = s.in_flight ++ (m ∷ []);
  begun = s.begun ++ (m ∷ []);
}

send_on : List OMessage → OMessage → Socket → Socket
send_on [] m s = do_write m s
send_on (p ∷ ps) m s = record s { pending_messages = (p ∷ ps) ++ (m ∷ []) }

-- `Send`, which posts a handler
unfoldable pub send : OMessage → Socket → Socket
send m s = record s { given = s.given ++ (m ∷ []); posted = s.posted ++ (m ∷ []) }

-- the handler that `Send` has posted
unfoldable pub on_posted : OMessage → Socket → Socket
unfolding send_on
on_posted m s = send_on s.pending_messages m s

next_on : List OMessage → Socket → Socket
next_on [] s = record s { is_in_sending = false }
next_on (p ∷ ps) s = do_write p (record s { pending_messages = ps })

-- the two `if`s of the completion handler
unfoldable pub on_written : ErrorCode → Socket → Socket
unfolding next_on
on_written success s = let t = next_on s.pending_messages s in record t { stops = t.stops + 1 }
on_written operation_aborted s = s
on_written failure s = record s { stops = s.stops + 1 }

abbrev pub start : Socket
start = record {
  pending_messages = [];
  is_in_sending = false;
  given = [];
  posted = [];
  in_flight = [];
  begun = [];
  stops = 0;
}

-- whether a completion is none of an aborted write, as a number; and the other way round
abbrev pub finished : ErrorCode → ℕ
finished success = 1
finished operation_aborted = 0
finished failure = 1

abbrev pub given_up : ErrorCode → ℕ
given_up success = 0
given_up operation_aborted = 1
given_up failure = 0

-- The context of a socket runs what was posted to it in order, on one thread. States that are reached with `done` writes completed by success or failure, and `aborted` ones
-- that were aborted.
pub data Reach : ℕ → ℕ → Socket → Type 0 where
  begin : Reach 0 0 start
  sent :
      {done aborted : ℕ} {s : Socket} (m : OMessage)
      → Reach done aborted s
      → Reach done aborted (send m s)
  handled :
      {done aborted : ℕ} {s : Socket} (m : OMessage) (later : List OMessage)
      → s.posted ≡ m ∷ later
      → Reach done aborted s
      → Reach done aborted (on_posted m (record s { posted = later }))
  completed :
      {done aborted : ℕ} {s : Socket} (before : List OMessage) (m : OMessage)
      (after : List OMessage) (ec : ErrorCode)
      → s.in_flight ≡ before ++ (m ∷ after)
      → Reach done aborted s
      → Reach
          (done + finished ec)
          (aborted + given_up ec)
          (on_written ec (record s { in_flight = before ++ after }))

-- What holds of every state: no message waits in the queue, what was given has begun to be written
-- or its handler waits, each completion that is not aborted has stopped the connection, and each
-- write that began is in flight or complete.
record Inv (done aborted : ℕ) (s : Socket) : Type 0 where
  idle : s.pending_messages ≡ []
  ordered : s.given ≡ s.begun ++ s.posted
  stopped : s.stops ≡ done
  counted : length s.begun ≡ length s.in_flight + done + aborted

on_posted-do_write :
    (s : Socket) (m : OMessage) → s.pending_messages ≡ [] → on_posted m s ≡ do_write m s
unfolding on_posted
on_posted-do_write s m h = ap (λ l. send_on l m s) h

on_posted-Inv :
    {done aborted : ℕ} (s : Socket) (m : OMessage) (later : List OMessage)
    → s.posted ≡ m ∷ later
    → Inv done aborted s
    → Inv done aborted (on_posted m (record s { posted = later }))
unfolding do_write
on_posted-Inv s m later e v =
    rw (on_posted-do_write (record s { posted = later }) m v.idle) (record {
      idle = v.idle;
      ordered = v.ordered ∙ ap (λ p. s.begun ++ p) e ∙ sym (append_assoc s.begun (m ∷ []) later);
      stopped = v.stopped;
      counted =
          omega
            (arith, v.counted, length-append s.begun (m ∷ []), length-append s.in_flight (m ∷ []));
    })

on_written-Inv :
    (done aborted : ℕ) (s : Socket) (ec : ErrorCode)
    → s.pending_messages ≡ []
    → s.stops ≡ done
    → length s.begun ≡ length s.in_flight + 1 + done + aborted
    → s.given ≡ s.begun ++ s.posted
    → Inv (done + finished ec) (aborted + given_up ec) (on_written ec s)
unfolding on_written
on_written-Inv done aborted s success i t c o =
    rw (i, next_on)
      (record { idle = refl; ordered = o; stopped = omega arith; counted = omega arith })
on_written-Inv done aborted s operation_aborted i t c o = record {
  idle = i;
  ordered = o;
  stopped = omega arith;
  counted = omega arith;
}
on_written-Inv done aborted s failure i t c o = record {
  idle = i;
  ordered = o;
  stopped = omega arith;
  counted = omega arith;
}

Reach-Inv : {done aborted : ℕ} {s : Socket} → Reach done aborted s → Inv done aborted s
unfolding send
Reach-Inv begin = record { idle = refl; ordered = refl; stopped = refl; counted = refl }
Reach-Inv (sent {s = s} m r) =
    let v = Reach-Inv r in
    record {
      idle = v.idle;
      ordered = ap (λ g. g ++ (m ∷ [])) v.ordered ∙ append_assoc s.begun s.posted (m ∷ []);
      stopped = v.stopped;
      counted = v.counted;
    }
Reach-Inv (handled {s = s} m later e r) = on_posted-Inv s m later e (Reach-Inv r)
Reach-Inv (completed {done = done} {aborted = aborted} {s = s} before m after ec e r) =
    let v = Reach-Inv r in
    on_written-Inv done aborted (record s { in_flight = before ++ after }) ec v.idle v.stopped
      (omega (
        arith,
        v.counted,
        ap length e,
        length-append before (m ∷ after),
        length-append before after,
      ))
      v.ordered

-- Whatever is sent, and however the handlers that are posted and the completions of writes take
-- turns: writes begin in the order of the calls of `Send`, one for each, for the calls whose handlers
-- have run; the other handlers wait, in that order; and the queue of pending messages stays empty, so
-- a handler begins a write at once, also while others are in flight.
pub begun_in_order :
    {done aborted : ℕ} {s : Socket}
    → Reach done aborted s
    → (s.given ≡ s.begun ++ s.posted) × (s.pending_messages ≡ [])
begun_in_order r = let v = Reach-Inv r in (v.ordered, v.idle)

-- The connection is told to stop once for each write that completes without being aborted, with
-- success no less than with an error; every write that began is in flight, complete or aborted.
pub stops_count :
    {done aborted : ℕ} {s : Socket}
    → Reach done aborted s
    → (s.stops ≡ done) × (length s.begun ≡ length s.in_flight + done + aborted)
stops_count r = let v = Reach-Inv r in (v.stopped, v.counted)
