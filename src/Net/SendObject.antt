-- ===== src/Net/SendObject.antt =====
-- `TSocket::Send(messageId, requestId, pProto)` (common/TSocket.cpp).
use oldpart.Base.{
  ◌≡◌, refl, sym, ◌∙◌, List, [], ◌∷◌, ◌++◌, append-nil, append_assoc, map, ℕ, Outcome, ok, ◌>>=◌,
}
use oldpart.Message.{OMessage}
use oldpart.Net.SendQueue.{Socket, Reach, sent, send}

-- `pMessage->requestId = requestId`
abbrev pub with_request : ℕ → OMessage → OMessage
with_request id m = record m { request_id = id }

unfoldable pub send_each : ℕ → List OMessage → Socket → Socket
send_each id [] s = s
send_each id (m ∷ ms) s = send_each id ms (send (with_request id m) s)

-- `serialized` is what `OSerializer::Serialize` returns for the object; it is done before the loop.
unfoldable pub send_object : ℕ → Outcome (List OMessage) → Socket → Outcome Socket
send_object id serialized s = serialized >>= λ ms. ok (send_each id ms s)

pub send_each-Reach :
    (id : ℕ) (ms : List OMessage) {done aborted : ℕ} {s : Socket}
    → Reach done aborted s
    → Reach done aborted (send_each id ms s)
unfolding send_each
send_each-Reach id [] r = r
send_each-Reach id (m ∷ ms) r = send_each-Reach id ms (sent (with_request id m) r)

send_each-given :
    (id : ℕ) (ms : List OMessage) (s : Socket)
    → (send_each id ms s).given ≡ s.given ++ map (with_request id) ms
unfolding send_each send
send_each-given id [] s = sym (append-nil s.given)
send_each-given id (m ∷ ms) s =
    send_each-given id ms (send (with_request id m) s)
    ∙ append_assoc s.given (with_request id m ∷ []) (map (with_request id) ms)

-- The messages of an object that is serialized are given to `Send` in order, after all that were
-- given before, each with the number of the request and otherwise as it was serialized, and the
-- state that is left can be reached.
pub send_object-given :
    {done aborted : ℕ} {s : Socket} (id : ℕ) (ms : List OMessage)
    → Reach done aborted s
    → (t : Socket) × (send_object id (ok ms) s ≡ ok t)
      × Reach done aborted t
      × (t.given ≡ s.given ++ map (with_request id) ms)
unfolding send_object
send_object-given {s = s} id ms r =
    (send_each id ms s, refl, send_each-Reach id ms r, send_each-given id ms s)
