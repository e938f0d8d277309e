-- ===== src/Proto/Types.antt =====
-- The field types that `WriteField` and `ReadField` are instantiated at, and their values.
use oldpart.Base.{ℕ, ◌+◌, ◌<◌, ◌≤◌, ◌^◌, ◌≡◌, List, length}

-- `OProtoSerializeHelper<T>` for a POD of so many bytes, for `std::string`, for
-- `std::vector<T>` (with `sizeof(T)`, which the ABI fixes), for a class derived from
-- `OProtoBase` with the fields of its `PROTO_FIELDS`, and for `IOStream`.
mutual
  pub data Ty : Type 0 where
    pod : ℕ → Ty
    string : Ty
    vector : ℕ → Ty → Ty
    object : Fields → Ty
    stream : Ty

  pub data Fields : Type 0 where
    end : Fields
    field : Ty → Fields → Fields

-- `IOStream`: the announced size, and the bytes that the stream delivers or has been given.
pub record IoStream : Type 0 where
  pub size : ℕ
  pub content : List ℕ

-- A POD is the number that its object representation stands for; signed numbers are two's
-- complement patterns. A string is its bytes.
abbrev mutual
  pub Val : Ty → Type 0
  Val (pod n) = ℕ
  Val string = List ℕ
  Val (vector n t) = List (Val t)
  Val (object fs) = Vals fs
  Val stream = IoStream

  pub Vals : Fields → Type 0
  Vals end = Unit {0}
  Vals (field t fs) = Val t × Vals fs

module _ {ℓ κ} {A : Type ℓ} (P : A → Type κ) where
  abbrev pub All : List A → Type κ
  All List.[] = Unit
  All (List.◌∷◌ item items) = P item × All items

-- An object has a field.
abbrev pub IsNonEmpty : Fields → Type 0
IsNonEmpty end = ⊥
IsNonEmpty (field t fs) = Unit

-- What a field must satisfy to go through unchanged: a POD fits its size, a length fits an
-- `int32_t`, and a stream delivers what it announces. `w` bounds the sizes of the PODs, and
-- the elements of a vector leave room for `w` bytes in a buffer of `max`.
module _ (w max : ℕ) where
  abbrev mutual
    pub IsWritable : (t : Ty) → Val t → Type 0
    IsWritable (pod n) v = (n ≤ w) × (v < 256 ^ n)
    IsWritable string v = length v < 2 ^ 31
    IsWritable (vector n t) vs = (n + w ≤ max + 1) × (length vs < 2 ^ 31) × All (IsWritable t) vs
    IsWritable (object fs) vs = IsNonEmpty fs × AreWritable fs vs
    IsWritable stream v = (v.size ≡ length v.content) × (v.size < 2 ^ 31)

    pub AreWritable : (fs : Fields) → Vals fs → Type 0
    AreWritable end vs = Unit
    AreWritable (field t fs) vs = IsWritable t vs.0 × AreWritable fs vs.1
