-- ===== src/Proto/RoundTrip.antt =====
-- `SerializeObject` (common/OSerializer.cpp) followed by `Read`.
use oldpart.Base.{
  ◌<◌, length, arith, ℕ, ◌+◌, ◌≤◌, ◌≡◌, sym, ap, ◌∙◌, List, [], ◌∷◌, ◌++◌, map, append-nil, ok,
  ◌>>=◌,
}
use oldpart.Proto.Types.{Fields, Vals, All, AreWritable, IsNonEmpty}
use oldpart.Proto.Write.{BufT, serialize_object}
use oldpart.Proto.Read.{read_object, run_coroutine}
use oldpart.Proto.Encoding.{encode_fields}
use oldpart.Proto.Emitted.{IsWide, payload, payloads}
use oldpart.Proto.Written.{serialize_object-IsSerialized}
use oldpart.Proto.Chunks.{IsChunked}
use oldpart.Proto.Delivered.{read_object-encode, run_coroutine-encode}
use oldpart.Serializer.Deflated.Bodies.{IsMarked}

pub IsChunked-payloads :
    (w least max : ℕ) (front : List BufT) (last : BufT)
    → All (IsWide w max) front
    → least ≤ length (payload last)
    → IsChunked w least (map payload (front ++ (last ∷ [])))
IsChunked-payloads w least max [] last h k = k
IsChunked-payloads w least max (p ∷ []) last h k = (h.0.0, k)
IsChunked-payloads w least max (p ∷ q ∷ front) last h k =
    (h.0.0, IsChunked-payloads w least max (q ∷ front) last h.1 k)

pub last_has_bytes :
    (front : List BufT) (last : BufT) → IsMarked (front ++ (last ∷ [])) → 0 < length (payload last)
last_has_bytes [] last h = h.1
last_has_bytes (p ∷ []) last h = h.1.1
last_has_bytes (p ∷ q ∷ front) last h = last_has_bytes (q ∷ front) last h.1

module _ (w max : ℕ) (four : 4 ≤ w) (room : w + w ≤ max + 1) where
  pub read_serialized :
      (fs : Fields) (vs : Vals fs) (front : List BufT) (last : BufT)
      → AreWritable w max fs vs
      → All (IsWide w max) front
      → payloads (front ++ (last ∷ [])) ≡ encode_fields fs vs
      → read_object fs (map payload (front ++ (last ∷ []))) ≡ ok vs
  read_serialized fs vs [] last ok_v wide e =
      read_object-encode w 0 max four fs vs (payload last) [] [] ok_v tt
        (e ∙ sym (append-nil (encode_fields fs vs)))
  read_serialized fs vs (p ∷ front) last ok_v wide e =
      read_object-encode w 0 max four fs vs (payload p) (map payload (front ++ (last ∷ []))) [] ok_v
        (IsChunked-payloads w 0 max front last wide.1 (omega arith))
        (e ∙ sym (append-nil (encode_fields fs vs)))

  -- The same as the coroutine reads it, from buffers of which the last has a byte.
  pub run_serialized :
      (fs : Fields) (vs : Vals fs) (front : List BufT) (last : BufT)
      → AreWritable w max fs vs
      → All (IsWide w max) front
      → IsMarked (front ++ (last ∷ []))
      → payloads (front ++ (last ∷ [])) ≡ encode_fields fs vs
      → run_coroutine fs (map payload (front ++ (last ∷ []))) ≡ ok (ok vs)
  run_serialized fs vs [] last ok_v wide marked e =
      run_coroutine-encode w max fs vs (payload last) [] four ok_v tt e
  run_serialized fs vs (p ∷ front) last ok_v wide marked e =
      run_coroutine-encode w max fs vs (payload p) (map payload (front ++ (last ∷ []))) four ok_v
        (IsChunked-payloads w 1 max front last wide.1 (last_has_bytes (p ∷ front) last marked)) e

  -- Writing an object and reading it from the buffers that come out gives the object back. The
  -- object has a field and is writable: `w` bounds its PODs, its lengths fit an `int32_t`, and the
  -- buffer size `max` is at least 2 * `w` - 1, with `w` at least 4.
  pub read_object-serialize_object :
      (fs : Fields) (vs : Vals fs)
      → IsNonEmpty fs
      → AreWritable w max fs vs
      → (serialize_object max fs vs >>= λ ps. read_object fs (map payload ps)) ≡ ok vs
  read_object-serialize_object fs vs ne ok_v =
      let s = serialize_object-IsSerialized w max four room fs vs ne ok_v in
      ap (λ r. r >>= λ ps. read_object fs (map payload ps)) s.returns
      ∙ read_serialized fs vs s.front s.last ok_v s.wide s.bytes
