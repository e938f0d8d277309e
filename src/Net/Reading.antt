-- ===== src/Net/Reading.antt =====
-- `TSocket::DoRead`, `Start` and `Stop` (common/TSocket.cpp), with asio's completions as steps.
pub mod Delivery
use oldpart.Base.{
  ℕ, ◌+◌, ◌-◌, ◌^◌, Bool, true, false, Option, none, some, List, [], ◌∷◌, ◌==◌, if◌then◌else◌,
  Outcome, ok, err, fault, assert, deref, ◌>>=◌, ◌>>◌,
}
use oldpart.Message.{OMessage, get_receive_buffer, single}
use oldpart.Serializer.Registry.{ProtoCreator, do_create_proto}
use oldpart.Net.SendQueue.{ErrorCode, success, operation_aborted, failure}

-- The `async_read` that has begun: none, of a head, or of the body that a head announces.
pub data Awaiting : Type 0 where
  idle head : Awaiting
  body : OMessage → Awaiting

-- The fields of a socket that reading uses. `stops` counts the calls of the manager's `Stop`, and
-- `served` is what the message handlers keep. The manager is alive.
pub record Reader (S : Type 0) : Type 0 where
  pub awaiting : Awaiting
  pub is_open : Bool
  pub stops : ℕ
  pub served : S

-- The two forms of `MessageHandler::OnMessage`, and the serializer, or null.
pub record Peers (S P : Type 0) : Type 0 where
  pub on_raw : OMessage → S → Bool × S
  pub on_proto : OMessage → Option P → S → S
  pub serializer : Option (List (ℕ × ProtoCreator P))

module _ {S : Type 0} where
  unfoldable pub do_read : Reader S → Reader S
  do_read r = record r { awaiting = head }

  unfoldable pub start : Reader S → Reader S
  start r = do_read r

  -- `Stop`: the read that has begun completes with `operation_aborted`.
  unfoldable pub stop : Reader S → Reader S
  stop r = record r { is_open = false }

  -- the last branch of both completion handlers
  unfoldable pub on_error : ErrorCode → Reader S → Reader S
  on_error success r = r
  on_error operation_aborted r = r
  on_error failure r = record r { stops = r.stops + 1 }

module _ {S P : Type 0} (peers : Peers S P) where
  -- what the handler of a head does with one that announces no body
  unfoldable pub on_empty : OMessage → Reader S → Outcome (Reader S)
  on_empty m r =
      let (taken, served) = peers.on_raw m r.served in
      let handled : Reader S = record (do_read r) { served = served } in
      let created = deref peers.serializer >>= λ creators. ok (record handled {
        served = peers.on_proto m (do_create_proto m.message_id creators) served;
      }) in
      assert (m.message_sequence_id == single) >> (if taken then ok handled else created)

  unfoldable pub on_head : ErrorCode → OMessage → Reader S → Outcome (Reader S)
  on_head success m r =
      let with_body =
        get_receive_buffer m.body_length >>= λ n. ok (record r { awaiting = body m }) in
      if m.body_length == 0 then on_empty m r else with_body
  on_head operation_aborted m r = ok (on_error operation_aborted r)
  on_head failure m r = ok (on_error failure r)

  -- The handler of a body. Past the first form of `OnMessage` each branch uses `pMessageBody` or
  -- `pMessageSink`, variables of a call of `DoRead` that has returned.
  unfoldable pub on_body : ErrorCode → OMessage → Reader S → Outcome (Reader S)
  on_body success m r =
      let (taken, served) = peers.on_raw m r.served in
      if taken then ok (record (do_read r) { served = served }) else err fault
  on_body operation_aborted m r = ok (on_error operation_aborted r)
  on_body failure m r = ok (on_error failure r)

  -- The completion of the read that has begun: with the head of `m`, or with its body.
  unfoldable pub complete_on : Awaiting → ErrorCode → OMessage → Reader S → Outcome (Reader S)
  complete_on idle ec m r = ok r
  complete_on head ec m r = on_head ec (record m { body = [] }) r
  complete_on (body h) ec m r = on_body ec (record h { body = m.body }) r

  unfoldable pub complete : ErrorCode → OMessage → Reader S → Outcome (Reader S)
  complete ec m r = complete_on r.awaiting ec m (record r { awaiting = idle })

  -- a message that arrives whole
  unfoldable pub arrive : OMessage → Reader S → Outcome (Reader S)
  arrive m r =
      let with_body = complete success m r >>= complete success m in
      if m.body_length == 0 then complete success m r else with_body

  unfoldable pub arrive_all : List OMessage → Reader S → Outcome (Reader S)
  arrive_all [] r = ok r
  arrive_all (m ∷ ms) r = arrive m r >>= arrive_all ms
