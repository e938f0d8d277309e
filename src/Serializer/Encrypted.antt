-- ===== src/Serializer/Encrypted.antt =====
-- `Serialize(messageId, obj, key)` followed by `Deserialize` (common/OSerializer.cpp).
use oldpart.Base.{
  ℕ, ◌+◌, ◌%◌, ◌^◌, ◌≤◌, ◌<◌, ◌≡◌, refl, ap, ◌∙◌, true, false, List, [], ◌∷◌, ◌++◌, map, ok, ◌>>=◌,
}
use oldpart.Proto.Types.{Fields, Vals, AreWritable, IsNonEmpty, All}
use oldpart.Proto.Write.{BufT}
use oldpart.Proto.Emitted.{payload}
use oldpart.Proto.Written.{serialize_object-IsSerialized}
use oldpart.Proto.RoundTrip.{run_serialized}
use oldpart.Proto.Marked.{AreSized, serialize_object-IsMarked}
use oldpart.Message.{OMessage, is_compressed, method_encrypt}
use oldpart.Crypto.{HasKey, Aes}
use oldpart.Serializer.Send.{make_messages, make_message_from_buf, serialize_encrypted}
use oldpart.Serializer.Uncompress.{Inflate, UnCompress, idle}
use oldpart.Serializer.Receive.{feed_body, feed, deserialize}
use oldpart.Serializer.Sealed.{
  Opens, encrypt_buf-AreSealed, make_messages-is_compressed, All-IsWhole, sealed-ne-nil,
}
use oldpart.Serializer.Plain.{deserialize-feed}

module _ (aes : Aes) (crc : List ℕ → ℕ) (z : Inflate) (key : List ℕ) (accepted : HasKey aes key)
    (max : ℕ) (blocks : max % 16 ≡ 0) (small : max < 2 ^ 31) where
  -- Messages that are opened and not compressed hand on what the buffers carry.
  pub feed-Opens :
      (fuel : ℕ) (u : UnCompress z) (ps : List BufT) (ms : List OMessage)
      → Opens aes crc z key accepted max blocks small ps ms
      → All (λ (m : OMessage). is_compressed m ≡ false) ms
      → feed aes crc z fuel max key u ms ≡ ok (true, map payload ps)
  unfolding feed feed_body
  feed-Opens fuel u [] [] o c = refl
  feed-Opens fuel u [] (m ∷ ms) o c = absurd o
  feed-Opens fuel u (p ∷ ps) [] o c = absurd o
  feed-Opens fuel u (p ∷ ps) (m ∷ ms) o c =
      rw (o.0) (rw (c.0) (rw (feed-Opens fuel u ps ms o.1 c.1) refl))

  -- An object that is serialized under a key is deserialized to itself under that key: no buffer
  -- is refused, every checksum agrees, `Deserialize` returns true and the object read is the one
  -- that was written. The key has 15 bytes or more and AES
  -- accepts it, the buffer size `max` is a multiple of 16 below
  -- 2 ^ 31; the object has a field and is writable, each POD in it has a
  -- byte and each object a field, `w` is at least 4 and bounds the sizes of
  -- the PODs, and `max` is at least 2 * `w` - 1. The checksum may be any function.
  pub deserialize-serialize_encrypted :
      (w fuel sequence message_id : ℕ) (fs : Fields) (vs : Vals fs)
      → 4 ≤ w
      → w + w ≤ max + 1
      → IsNonEmpty fs
      → AreSized fs
      → AreWritable w max fs vs
      → (serialize_encrypted aes crc max sequence message_id key fs vs
          >>= deserialize aes crc z fuel max key fs)
        ≡ ok (true, ok vs)
  unfolding serialize_encrypted make_message_from_buf
  deserialize-serialize_encrypted w fuel sequence message_id fs vs four room ne sized ok_v =
      let s = serialize_object-IsSerialized w max four room fs vs ne ok_v in
      let ps = s.front ++ (s.last ∷ []) in
      let t =
        encrypt_buf-AreSealed aes crc z key accepted max blocks small ps
          (All-IsWhole w max s.front s.last s.wide s.whole) in
      let sent : serialize_encrypted aes crc max sequence message_id key fs vs
          ≡ ok (make_messages message_id method_encrypt 0 sequence 1 t.sealed) =
        rw (s.returns, t.returns) in
      ap (λ r. r >>= deserialize aes crc z fuel max key fs) sent
      ∙ deserialize-feed aes crc z fuel max key fs
          (make_messages message_id method_encrypt 0 sequence 1 t.sealed) (map payload ps)
          (sealed-ne-nil message_id method_encrypt 0 sequence s.front t.sealed s.last t.same_length)
          (feed-Opens fuel (idle z) ps
            (make_messages message_id method_encrypt 0 sequence 1 t.sealed)
            (t.opens message_id method_encrypt 0 sequence 1 refl)
            (make_messages-is_compressed message_id method_encrypt 0 sequence 1 false t.sealed
              refl))
      ∙ ap (λ r. r >>= λ o. ok (true, o))
          (run_serialized w max four room fs vs s.front s.last ok_v s.wide
            (serialize_object-IsMarked w max fs vs ps four room ne sized ok_v s.returns) s.bytes)
