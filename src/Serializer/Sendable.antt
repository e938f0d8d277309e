-- ===== src/Serializer/Sendable.antt =====
-- The messages that `MakeMessageFromBuf` (common/OSerializer.cpp) makes, as they go on a stream.
use oldpart.Base.{
  ℕ, ◌+◌, ◌%◌, ◌^◌, ◌<◌, ◌≡◌, Bool, true, false, List, [], ◌∷◌, map, length, length-take, arith,
}
use oldpart.Proto.Types.{All}
use oldpart.Proto.Write.{BufT}
use oldpart.Message.{OMessage, is_compressed, is_encrypted}
use oldpart.Message.Wire.{IsSendable}
use oldpart.Crypto.{Aes, HasKey}
use oldpart.Serializer.Send.{make_message, make_messages, signed_number}
use oldpart.Serializer.Sealed.{IsStamped, IsFilled, Opens}
use oldpart.Serializer.Uncompress.{Inflate}
use oldpart.Serializer.Receive.{decrypt_body}
use oldpart.Net.SendObject.{with_request}

signed_number_fits : (last : Bool) (n : ℕ) → n < 2 ^ 32 → signed_number last n < 2 ^ 32
signed_number_fits true n h = omega arith
signed_number_fits false n h = h

module _ (max message_id method level : ℕ) (small : max < 2 ^ 31) (id_fits : message_id < 2 ^ 32)
    (method_fits : method < 2 ^ 16) (level_fits : level < 256) where
  make_message-IsSendable :
      (sequence number request : ℕ) (p : BufT)
      → number < 2 ^ 32
      → request < 2 ^ 32
      → IsStamped max p
      → IsFilled p
      → IsSendable (with_request request (make_message message_id method level sequence number p))
  unfolding make_message
  make_message-IsSendable sequence number request p few r w f = record {
    fit = (
      omega (arith, w.0.1),
      (
        omega arith,
        (
          omega arith,
          (
            omega arith,
            (
              id_fits,
              (
                signed_number_fits p.is_last number few,
                (r, (method_fits, (level_fits, (w.1, (w.2, tt))))),
              ),
            ),
          ),
        ),
      ),
    );
    same_length = omega (arith, length-take p.buf.buf_len p.buf.buf, w.0.0, w.0.1);
    small = omega (arith, w.0.1);
    alone = λ h. absurd (omega arith);
  }

  -- Stamped buffers that carry bytes become messages that can be sent, for any number of a request.
  pub make_messages-AreSendable :
      (sequence number request : ℕ) (ps : List BufT)
      → number + length ps < 2 ^ 32
      → request < 2 ^ 32
      → All (IsStamped max) ps
      → All IsFilled ps
      → All IsSendable
          (map (with_request request) (make_messages message_id method level sequence number ps))
  unfolding make_messages
  make_messages-AreSendable sequence number request [] few r h f = tt
  make_messages-AreSendable sequence number request (p ∷ ps) few r h f = (
    make_message-IsSendable sequence number request p (omega arith) r h.0 f.0,
    make_messages-AreSendable (sequence + 1) (number + 1) request ps (omega arith) r h.1 f.1,
  )

-- The number of a request is no part of what `Deserialize` looks at.
pub Opens-with_request :
    (aes : Aes) (crc : List ℕ → ℕ) (z : Inflate) (key : List ℕ) (accepted : HasKey aes key)
    (max : ℕ) (blocks : max % 16 ≡ 0) (small : max < 2 ^ 31) (id : ℕ) (ps : List BufT)
    (ms : List OMessage)
    → Opens aes crc z key accepted max blocks small ps ms
    → Opens aes crc z key accepted max blocks small ps (map (with_request id) ms)
unfolding decrypt_body is_encrypted
Opens-with_request aes crc z key accepted max blocks small id [] [] o = tt
Opens-with_request aes crc z key accepted max blocks small id [] (m ∷ ms) o = absurd o
Opens-with_request aes crc z key accepted max blocks small id (p ∷ ps) [] o = absurd o
Opens-with_request aes crc z key accepted max blocks small id (p ∷ ps) (m ∷ ms) o =
    (o.0, Opens-with_request aes crc z key accepted max blocks small id ps ms o.1)

pub is_compressed-with_request :
    (id : ℕ) (b : Bool) (ms : List OMessage)
    → All (λ (m : OMessage). is_compressed m ≡ b) ms
    → All (λ (m : OMessage). is_compressed m ≡ b) (map (with_request id) ms)
unfolding is_compressed
is_compressed-with_request id b [] h = tt
is_compressed-with_request id b (m ∷ ms) h = (h.0, is_compressed-with_request id b ms h.1)
