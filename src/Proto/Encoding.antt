-- ===== src/Proto/Encoding.antt =====
-- The byte layout that `Write` and `Read` (common/OProtoBase.h) share, with no buffers.
use oldpart.Base.{ℕ, List, [], ◌∷◌, ◌++◌, length, le_bytes}
use oldpart.Proto.Types.{Ty, Fields, pod, string, vector, object, stream, end, field, Val, Vals}

unfoldable pub encode_items {ℓ} : {A : Type ℓ} → (A → List ℕ) → List A → List ℕ
encode_items f [] = []
encode_items f (x ∷ xs) = f x ++ encode_items f xs

unfoldable mutual
  pub encode : (t : Ty) → Val t → List ℕ
  encode (pod n) v = le_bytes n v
  encode string v = le_bytes 4 (length v) ++ v
  encode (vector n t) vs = le_bytes 4 (length vs) ++ encode_items (encode t) vs
  encode (object fs) vs = encode_fields fs vs
  encode stream v = le_bytes 4 v.size ++ v.content

  pub encode_fields : (fs : Fields) → Vals fs → List ℕ
  encode_fields end vs = []
  encode_fields (field t fs) vs = encode t vs.0 ++ encode_fields fs vs.1
