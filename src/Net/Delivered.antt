-- ===== src/Net/Delivered.antt =====
-- An object from `Serialize` under a key to `Deserialize`, over the bytes of its messages
-- (common/OSerializer.cpp, common/OMessage.cpp, common/TSocket.cpp).
use oldpart.Base.{
  ℕ, suc, ◌+◌, ◌%◌, ◌^◌, ◌≤◌, ◌<◌, ◌≡◌, ◌≢◌, refl, sym, ap, ◌∙◌, true, false, List, [], ◌∷◌, ◌++◌,
  map, length, length-append, length-take, concat, Outcome, ok, ◌>>=◌, arith,
}
use oldpart.Proto.Types.{Fields, Vals, AreWritable, IsNonEmpty, All}
use oldpart.Proto.Write.{BufT}
use oldpart.Proto.Encoding.{encode_fields}
use oldpart.Proto.Emitted.{payload, payloads, IsWide}
use oldpart.Proto.Written.{serialize_object-IsSerialized}
use oldpart.Proto.Marked.{AreSized, serialize_object-IsMarked}
use oldpart.Proto.RoundTrip.{run_serialized, last_has_bytes}
use oldpart.Message.{OMessage, method_encrypt}
use oldpart.Message.Wire.{sent_bytes, receive_all, receive_all-sent_bytes}
use oldpart.Crypto.{Aes, HasKey}
use oldpart.Serializer.Send.{make_message_from_buf, make_messages, serialize_encrypted}
use oldpart.Serializer.Uncompress.{Inflate, idle}
use oldpart.Serializer.Sealed.{
  IsFilled, encrypt_buf-AreSealed, make_messages-is_compressed, All-IsWhole, sealed-ne-nil,
}
use oldpart.Serializer.Sendable.{
  make_messages-AreSendable, Opens-with_request, is_compressed-with_request,
}
use oldpart.Serializer.Receive.{deserialize}
use oldpart.Serializer.Plain.{deserialize-feed}
use oldpart.Serializer.Encrypted.{feed-Opens}
use oldpart.Net.SendObject.{with_request}

map-ne-nil : (id : ℕ) (ms : List OMessage) → ms ≢ [] → map (with_request id) ms ≢ []
map-ne-nil id [] ne e = ne refl
map-ne-nil id (m ∷ ms) ne e = cc

All-IsFilled :
    (w max : ℕ) (front : List BufT) (last : BufT)
    → 0 < w
    → All (IsWide w max) front
    → 0 < length (payload last)
    → All IsFilled (front ++ (last ∷ []))
All-IsFilled w max [] last pos h l = (omega (arith, length-take last.buf.buf_len last.buf.buf), tt)
All-IsFilled w max (p ∷ front) last pos h l = (
  omega (arith, h.0.0, length-take p.buf.buf_len p.buf.buf),
  All-IsFilled w max front last pos h.1 l,
)

-- There are no more buffers than bytes, but for the last.
length-payloads-le :
    (w max : ℕ) (front : List BufT) (last : BufT)
    → 0 < w
    → All (IsWide w max) front
    → length front ≤ length (payloads (front ++ (last ∷ [])))
length-payloads-le w max [] last pos h = omega arith
length-payloads-le w max (p ∷ front) last pos h = omega (
  arith,
  h.0.0,
  length-append (payload p) (payloads (front ++ (last ∷ []))),
  length-payloads-le w max front last pos h.1,
)

-- The messages of an object as the other side has them: with the number of the request, sent as
-- their buffers and received one by one.
abbrev pub across : ℕ → List OMessage → Outcome (List OMessage)
across request ms =
    receive_all (length ms) (concat (map sent_bytes (map (with_request request) ms)))

module _ (aes : Aes) (crc : List ℕ → ℕ) (z : Inflate) (key : List ℕ) (accepted : HasKey aes key)
    (max : ℕ) (blocks : max % 16 ≡ 0) (small : max < 2 ^ 31) where
  -- An object that is serialized under a key is read back from the bytes of its messages: given the
  -- number of a request, put on a stream by `GetSendBuffer`, received by the two reads of `DoRead`,
  -- and handed to `Deserialize`, the messages give true and the object. The key has 15 bytes or more
  -- and AES accepts it, `max` is a multiple of 16 below 2 ^ 31, the id and the number are patterns of
  -- 32 bits; the object has a field and is writable, each POD in it has a byte and each object a
  -- field, its encoding is shorter than 2 ^ 31, `w` is at least 4 and bounds the PODs, and `max` is
  -- at least 2 * `w` - 1. The checksum may be any function.
  pub deserialize-across :
      (w fuel sequence message_id request : ℕ) (fs : Fields) (vs : Vals fs)
      → 4 ≤ w
      → w + w ≤ max + 1
      → message_id < 2 ^ 32
      → request < 2 ^ 32
      → IsNonEmpty fs
      → AreSized fs
      → AreWritable w max fs vs
      → length (encode_fields fs vs) < 2 ^ 31
      → (serialize_encrypted aes crc max sequence message_id key fs vs >>= λ ms.
          across request ms >>= deserialize aes crc z fuel max key fs)
        ≡ ok (true, ok vs)
  unfolding serialize_encrypted make_message_from_buf
  deserialize-across w fuel sequence message_id request fs vs four room id_fits request_fits ne
        sized ok_v short =
      let s = serialize_object-IsSerialized w max four room fs vs ne ok_v in
      let ps = s.front ++ (s.last ∷ []) in
      let marked = serialize_object-IsMarked w max fs vs ps four room ne sized ok_v s.returns in
      let t =
        encrypt_buf-AreSealed aes crc z key accepted max blocks small ps
          (All-IsWhole w max s.front s.last s.wide s.whole) in
      let filled = t.filled (
        All-IsFilled w max s.front s.last (omega arith) s.wide
          (last_has_bytes s.front s.last marked)) in
      let made = make_messages message_id method_encrypt 0 sequence 1 t.sealed in
      let ms = map (with_request request) made in
      let few : 1 + length t.sealed < 2 ^ 32 = omega (
        arith,
        t.same_length,
        length-append s.front (s.last ∷ []),
        length-payloads-le w max s.front s.last (omega arith) s.wide,
        ap length s.bytes,
        short,
      ) in
      let sendable =
        make_messages-AreSendable max message_id method_encrypt 0 small id_fits (omega arith)
          (omega arith) sequence 1 request t.sealed few request_fits t.whole filled in
      let sent : serialize_encrypted aes crc max sequence message_id key fs vs ≡ ok made =
        rw (s.returns, t.returns) in
      ap (λ r. r >>= λ qs. across request qs >>= deserialize aes crc z fuel max key fs) sent
      ∙ ap
          (λ n.
            receive_all n (concat (map sent_bytes ms)) >>= deserialize aes crc z fuel max key fs)
          (sym (length-map made))
      ∙ ap (λ r. r >>= deserialize aes crc z fuel max key fs) (receive_all-sent_bytes ms sendable)
      ∙ deserialize-feed aes crc z fuel max key fs ms (map payload ps)
          (map-ne-nil request made (
            sealed-ne-nil message_id method_encrypt 0 sequence s.front t.sealed s.last
              t.same_length))
          (feed-Opens aes crc z key accepted max blocks small fuel (idle z) ps ms
            (Opens-with_request aes crc z key accepted max blocks small request ps made
              (t.opens message_id method_encrypt 0 sequence 1 refl))
            (is_compressed-with_request request false made (
              make_messages-is_compressed message_id method_encrypt 0 sequence 1 false t.sealed
                refl)))
      ∙ ap (λ r. r >>= λ o. ok (true, o))
          (run_serialized w max four room fs vs s.front s.last ok_v s.wide marked s.bytes)
    where
      length-map : (qs : List OMessage) → length (map (with_request request) qs) ≡ length qs
      length-map [] = refl
      length-map (q ∷ qs) = ap suc (length-map qs)
