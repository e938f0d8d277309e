-- ===== src/Serializer/Send.antt =====
-- `Serialize` without compression: `SerializeObject`, `EncryptBuf`, `MakeMessageFromBuf`.
use oldpart.Base.{
  ℕ, ◌+◌, ◌-◌, ◌%◌, ◌^◌, Bool, List, [], ◌∷◌, take, if◌then◌else◌, Outcome, ok, ◌>>=◌, ◌>>◌, assert,
}
use oldpart.Proto.Types.{Fields, Vals}
use oldpart.Proto.Write.{BufT, make_buffer, serialize_object}
use oldpart.Message.{OMessage, method_none, method_encrypt}
use oldpart.Crypto.{Aes, aes_encrypt}

abbrev pub message_major_version : ℕ
message_major_version = 1

abbrev pub message_minor_version : ℕ
message_minor_version = 1

-- The pattern of `isLast ? -n : n` in 32 bits.
abbrev pub signed_number : Bool → ℕ → ℕ
signed_number last n = if last then (2 ^ 32 - n) % 2 ^ 32 else n

-- The message that one buffer becomes. `sequence` is the serializer's counter, `number` the
-- position in the object. The body is what the head announces of the buffer.
unfoldable pub make_message : ℕ → ℕ → ℕ → ℕ → ℕ → BufT → OMessage
make_message message_id method level sequence number p = record {
  body_length = p.buf.buf_len;
  major = message_major_version;
  minor = message_minor_version;
  sequence_id = sequence % 2 ^ 32;
  message_id = message_id;
  message_sequence_id = signed_number p.is_last number;
  request_id = 0;
  body_serialize_method = method;
  compress_level = level;
  encrypt_pad_num = p.pad_num;
  checksum = p.checksum;
  body = take p.buf.buf_len p.buf.buf;
}

-- The loop of `MakeMessageFromBuf`; the counter is `fetch_add`ed for each message.
unfoldable pub make_messages : ℕ → ℕ → ℕ → ℕ → ℕ → List BufT → List OMessage
make_messages message_id method level sequence number [] = []
make_messages message_id method level sequence number (p ∷ ps) =
    make_message message_id method level sequence number p
    ∷ make_messages message_id method level (sequence + 1) (number + 1) ps

unfoldable pub make_message_from_buf : ℕ → ℕ → ℕ → ℕ → List BufT → List OMessage
make_message_from_buf message_id method level sequence ps =
    make_messages message_id method level sequence 1 ps

-- `Serialize(messageId, obj)`
unfoldable pub serialize : ℕ → ℕ → ℕ → (fs : Fields) → Vals fs → Outcome (List OMessage)
serialize max sequence message_id fs vs = do
  ps ← serialize_object max fs vs
  ok (make_message_from_buf message_id method_none 0 sequence ps)

-- `boost::crc_32_type` is the parameter `crc`.
module _ (aes : Aes) (crc : List ℕ → ℕ) where
  unfoldable pub compute_checksum : List ℕ → ℕ
  compute_checksum bs = crc bs % 2 ^ 32

  -- One round of `EncryptBuf`.
  unfoldable pub encrypt_one : ℕ → List ℕ → BufT → Outcome BufT
  encrypt_one max key p = do
    let out = make_buffer max
    s ← aes_encrypt aes out.buf out.buf_len key p.buf.buf p.buf.buf_len 0
    assert s.success
    ok (record {
      buf = record { buf = s.buf; buf_len = s.cipher_len };
      pad_num = s.pad_num;
      checksum = compute_checksum (take p.buf.buf_len p.buf.buf);
      is_last = p.is_last;
    })

  unfoldable pub encrypt_buf : ℕ → List ℕ → List BufT → Outcome (List BufT)
  encrypt_buf max key [] = ok []
  encrypt_buf max key (p ∷ ps) = do
    q ← encrypt_one max key p
    qs ← encrypt_buf max key ps
    ok (q ∷ qs)

  -- `Serialize(messageId, obj, key)`
  unfoldable pub serialize_encrypted :
      ℕ → ℕ → ℕ → List ℕ → (fs : Fields) → Vals fs → Outcome (List OMessage)
  serialize_encrypted max sequence message_id key fs vs = do
    ps ← serialize_object max fs vs
    qs ← encrypt_buf max key ps
    ok (make_message_from_buf message_id method_encrypt 0 sequence qs)
