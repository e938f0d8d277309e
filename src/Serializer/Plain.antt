-- ===== src/Serializer/Plain.antt =====
-- `Serialize(messageId, obj)` followed by `Deserialize` (common/OSerializer.cpp).
use oldpart.Base.{
  ℕ, ◌+◌, ◌≤◌, ◌≡◌, ◌≢◌, refl, ap, ◌∙◌, true, List, [], ◌∷◌, ◌++◌, map, arith, ok, ◌>>=◌, take-take,
}
use oldpart.Proto.Types.{Fields, Vals, AreWritable, IsNonEmpty}
use oldpart.Proto.Write.{BufT}
use oldpart.Proto.Read.{run_coroutine}
use oldpart.Proto.Emitted.{payload}
use oldpart.Proto.Written.{serialize_object-IsSerialized}
use oldpart.Proto.RoundTrip.{run_serialized}
use oldpart.Proto.Marked.{AreSized, serialize_object-IsMarked}
use oldpart.Message.{OMessage, is_encrypted, is_compressed, method_none}
use oldpart.Crypto.{Aes}
use oldpart.Serializer.Send.{make_message, make_messages, make_message_from_buf, serialize}
use oldpart.Serializer.Uncompress.{Inflate, UnCompress, idle}
use oldpart.Serializer.Receive.{decrypt_body, feed_body, feed, deserialize}

pub make_messages-ne-nil :
    (message_id method sequence : ℕ) (front : List BufT) (last : BufT)
    → make_messages message_id method 0 sequence 1 (front ++ (last ∷ [])) ≢ []
unfolding make_messages
make_messages-ne-nil message_id method sequence [] last e = cc
make_messages-ne-nil message_id method sequence (p ∷ front) last e = cc

module _ (aes : Aes) (crc : List ℕ → ℕ) (z : Inflate) where
  feed-plain :
      (fuel max : ℕ) (key : List ℕ) (u : UnCompress z) (message_id sequence number : ℕ)
      (ps : List BufT)
      → feed aes crc z fuel max key u (make_messages message_id method_none 0 sequence number ps)
        ≡ ok (true, map payload ps)
  unfolding feed make_messages make_message decrypt_body feed_body is_encrypted is_compressed
  feed-plain fuel max key u message_id sequence number [] = refl
  feed-plain fuel max key u message_id sequence number (p ∷ ps) = rw (
    feed-plain fuel max key u message_id (sequence + 1) (number + 1) ps,
    take-take p.buf.buf_len p.buf.buf_len p.buf.buf (omega arith),
  )

  pub deserialize-feed :
      (fuel max : ℕ) (key : List ℕ) (fs : Fields) (ms : List OMessage) (chunks : List (List ℕ))
      → ms ≢ []
      → feed aes crc z fuel max key (idle z) ms ≡ ok (true, chunks)
      → deserialize aes crc z fuel max key fs ms ≡ (run_coroutine fs chunks >>= λ o. ok (true, o))
  unfolding deserialize
  deserialize-feed fuel max key fs [] chunks ne e = absurd (ne refl)
  deserialize-feed fuel max key fs (m ∷ ms) chunks ne e =
      ap (λ r. r >>= λ q. run_coroutine fs q.1 >>= λ o. ok (q.0, o)) e

  -- An object that is serialized in clear is deserialized to itself, whatever AES, the checksum and
  -- zlib do: `Deserialize` returns true and the object read is the one that was written. The
  -- object has a field and is writable, each POD in it has a byte and each object a field, the buffer size `max` is at least 2 * `w` - 1, where `w`
  -- is at least 4 and bounds the sizes of the PODs.
  pub deserialize-serialize :
      (w max fuel sequence message_id : ℕ) (key : List ℕ) (fs : Fields) (vs : Vals fs)
      → 4 ≤ w
      → w + w ≤ max + 1
      → IsNonEmpty fs
      → AreSized fs
      → AreWritable w max fs vs
      → (serialize max sequence message_id fs vs >>= deserialize aes crc z fuel max key fs)
        ≡ ok (true, ok vs)
  unfolding serialize make_message_from_buf
  deserialize-serialize w max fuel sequence message_id key fs vs four room ne sized ok_v =
      let s = serialize_object-IsSerialized w max four room fs vs ne ok_v in
      let ps = s.front ++ (s.last ∷ []) in
      let sent : serialize max sequence message_id fs vs
          ≡ ok (make_messages message_id method_none 0 sequence 1 ps) =
        ap (λ r. r >>= λ qs. ok (make_messages message_id method_none 0 sequence 1 qs)) s.returns in
      ap (λ r. r >>= deserialize aes crc z fuel max key fs) sent
      ∙ deserialize-feed fuel max key fs (make_messages message_id method_none 0 sequence 1 ps)
          (map payload ps) (make_messages-ne-nil message_id method_none sequence s.front s.last)
          (feed-plain fuel max key (idle z) message_id sequence 1 ps)
      ∙ ap (λ r. r >>= λ o. ok (true, o))
          (run_serialized w max four room fs vs s.front s.last ok_v s.wide
            (serialize_object-IsMarked w max fs vs ps four room ne sized ok_v s.returns) s.bytes)
