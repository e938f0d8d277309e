-- ===== src/Proto/Delivered.antt =====
-- The `Read` functions (common/OProtoBase.h, common/OProtoBase.cpp, opp/IOStream.cpp) on encodings
-- cut into chunks.
use oldpart.Base.{
  ==_iff, ◌==◌, true, length-append, concat, drop, append-nil, sym, ℕ, zero, suc, ◌≤◌, ◌<◌, ◌^◌,
  ◌≡◌, refl, ap, ◌∙◌, Option, none, some, List, [], ◌∷◌, ◌++◌, append_assoc, arith, length, Outcome,
  ok, ◌>>=◌, lt→ltb, le_bytes, of_le, length-le_bytes, of_le-le_bytes,
}
use oldpart.Proto.Types.{
  Ty, Fields, pod, string, vector, object, stream, end, field, Val, Vals, IoStream, All, IsWritable,
  AreWritable,
}
use oldpart.Proto.Write.{positive32}
use oldpart.Proto.Read.{
  run_coroutine, settled, Reader, read_pod, read_loop, rounds, read_string, read_stream, read_items,
  fetch_first, read, read_fields, read_object, get,
}
use oldpart.Proto.Encoding.{encode, encode_items, encode_fields}
use oldpart.Proto.Written.{positive32-small}
use oldpart.Proto.Chunks.{left_in, IsChunked, Inv, Reads, IsInside, left, read_bytes-Reads}
use oldpart.Proto.Rounds.{read_loop-Reads}

Reads->>= {ℓ κ} :
    {A : Type ℓ} {B : Type κ} {w least : ℕ} {v : A} {u : B} {mid rest : List ℕ}
    {m : Outcome (A × Reader)} (f : A × Reader → Outcome (B × Reader))
    → Reads w least v mid m
    → ((j : Reader) → Inv w least j → left j ≡ mid → Reads w least u rest (f (v, j)))
    → Reads w least u rest (m >>= f)
Reads->>= f r k =
    let l = k r.out r.inv r.remains in
    record {
      out = l.out;
      returns = ap (λ t. t >>= f) r.returns ∙ l.returns;
      inv = l.inv;
      remains = l.remains;
    }

Reads-done {ℓ} :
    {A : Type ℓ} {w least : ℕ} (v : A) (j : Reader)
    → Inv w least j
    → {rest : List ℕ} → left j ≡ rest
    → Reads w least v rest (ok (v, j))
Reads-done v j i e = record { out = j; returns = refl; inv = i; remains = e }

fetch_first-some :
    (source : List (List ℕ)) (ob : Option (List ℕ)) (offset : ℕ)
    → IsInside ob offset
    → fetch_first (record { source = source; buf = ob; offset = offset })
      ≡ ok (record { source = source; buf = ob; offset = offset })
unfolding fetch_first
fetch_first-some source none offset h = absurd h
fetch_first-some source (some b) offset h = refl

module _ (w least max : ℕ) (four : 4 ≤ w) where
  read_pod-Reads :
      (i : Reader) (n v : ℕ) (rest : List ℕ)
      → n ≤ w
      → v < 256 ^ n
      → Inv w least i
      → left i ≡ le_bytes n v ++ rest
      → Reads w least v rest (read_pod n i)
  unfolding read_pod
  read_pod-Reads i n v rest small fits inv e =
      let r = read_bytes-Reads w least i n (le_bytes n v) rest inv (length-le_bytes n v) small e in
      record {
        out = r.out;
        returns =
            ap (λ t. t >>= λ p. ok (of_le p.0, p.1)) r.returns
            ∙ ap (λ t. ok (t, r.out)) (of_le-le_bytes n v fits);
        inv = r.inv;
        remains = r.remains;
      }

  -- a length or a size, then the bytes that it announces
  announced-Reads :
      (i : Reader) (n : ℕ) (bs rest : List ℕ)
      → length bs ≡ n
      → n < 2 ^ 31
      → Inv w least i
      → left i ≡ (le_bytes 4 n ++ bs) ++ rest
      → Reads w least bs rest
          (read_pod 4 i >>= λ r. read_loop (rounds (positive32 r.0) r.1) (positive32 r.0) [] r.1)
  announced-Reads i n bs rest len small inv e =
      let p : positive32 n ≡ n = positive32-small n small in
      Reads->>= (λ r. read_loop (rounds (positive32 r.0) r.1) (positive32 r.0) [] r.1)
        (read_pod-Reads i 4 n (bs ++ rest) four (omega arith) inv
          (e ∙ append_assoc (le_bytes 4 n) bs rest))
        (λ j k l.
          read_loop-Reads w least (rounds (positive32 n) j) (positive32 n) [] j bs rest
            (omega arith) k (len ∙ sym p) l)

  read_stream-Reads :
      (v : IoStream) (i : Reader) (rest : List ℕ)
      → IsWritable w max stream v
      → Inv w least i
      → left i ≡ (le_bytes 4 v.size ++ v.content) ++ rest
      → Reads w least v rest (read_stream i)
  unfolding read_stream
  read_stream-Reads v i rest ok_v inv e =
      let p : positive32 v.size ≡ v.size = positive32-small v.size ok_v.1 in
      Reads->>= _
        (read_pod-Reads i 4 v.size (v.content ++ rest) four (omega (arith, ok_v.1)) inv
          (e ∙ append_assoc (le_bytes 4 v.size) v.content rest))
        (λ j k l.
          Reads->>= _
            (read_loop-Reads w least (rounds (positive32 v.size) j) (positive32 v.size) [] j
              v.content rest (omega arith) k (sym ok_v.0 ∙ sym p) l)
            (λ j1 k1 l1. Reads-done v j1 k1 l1))

  read_items-Reads {ℓ} :
      {A : Type ℓ} (f : Reader → Outcome (A × Reader)) (enc : A → List ℕ) (P : A → Type 0)
      → ((x : A) (i : Reader) (rest : List ℕ)
          → P x
          → Inv w least i
          → left i ≡ enc x ++ rest
          → Reads w least x rest (f i))
      → (n : ℕ) (xs : List A) (i : Reader) (rest : List ℕ) → n ≡ length xs
      → All P xs
      → Inv w least i
      → left i ≡ encode_items enc xs ++ rest
      → Reads w least xs rest (read_items f n i)
  unfolding read_items encode_items
  read_items-Reads f enc P one zero [] i rest len ps inv e = Reads-done [] i inv e
  read_items-Reads f enc P one zero (x ∷ xs) i rest len ps inv e = absurd (omega arith)
  read_items-Reads f enc P one (suc n) [] i rest len ps inv e = absurd (omega arith)
  read_items-Reads f enc P one (suc n) (x ∷ xs) i rest len ps inv e =
      Reads->>= _
        (one x i (encode_items enc xs ++ rest) ps.0 inv
          (e ∙ append_assoc (enc x) (encode_items enc xs) rest))
        (λ j k l.
          Reads->>= _ (read_items-Reads f enc P one n xs j rest (omega arith) ps.1 k l)
            (λ j1 k1 l1. Reads-done (x ∷ xs) j1 k1 l1))

  mutual
    unfolding read encode read_string read_stream

    read_by_type :
        (t : Ty) (v : Val t) (i : Reader) (rest : List ℕ)
        → IsWritable w max t v
        → Inv w least i
        → left i ≡ encode t v ++ rest
        → Reads w least v rest (read t i)
    read_by_type (pod n) v i rest ok_v inv e = read_pod-Reads i n v rest ok_v.0 ok_v.1 inv e
    read_by_type string v i rest ok_v inv e = announced-Reads i (length v) v rest refl ok_v inv e
    read_by_type (vector n t) vs i rest ok_v inv e =
        Reads->>= _
          (read_pod-Reads i 4 (length vs) (encode_items (encode t) vs ++ rest) four
            (omega (arith, ok_v.1)) inv
            (e ∙ append_assoc (le_bytes 4 (length vs)) (encode_items (encode t) vs) rest))
          (λ j k l. rw (lt→ltb (length vs) (2 ^ 31) ok_v.1) (
            read_items-Reads (read t) (encode t) (IsWritable w max t)
              (λ x i1 r1 p j1 l1. read_by_type t x i1 r1 p j1 l1) (length vs) vs j rest refl ok_v.2
              k l))
    read_by_type (object fs) vs i rest ok_v inv e =
        rw (fetch_first-some i.source i.buf i.offset inv.inside)
          (read_by_fields fs vs i rest ok_v.1 inv e)
    read_by_type stream v i rest ok_v inv e = read_stream-Reads v i rest ok_v inv e

    read_by_fields :
        (fs : Fields) (vs : Vals fs) (i : Reader) (rest : List ℕ)
        → AreWritable w max fs vs
        → Inv w least i
        → left i ≡ encode_fields fs vs ++ rest
        → Reads w least vs rest (read_fields fs i)
    read_by_fields end vs i rest ok_v inv e = Reads-done vs i inv e
    read_by_fields (field t fs) vs i rest ok_v inv e =
        Reads->>= _
          (read_by_type t vs.0 i (encode_fields fs vs.1 ++ rest) ok_v.0 inv
            (e ∙ append_assoc (encode t vs.0) (encode_fields fs vs.1) rest))
          (λ j k l.
            Reads->>= _ (read_by_fields fs vs.1 j rest ok_v.1 k l)
              (λ j1 k1 l1. Reads-done vs j1 k1 l1))

  -- An object is read back from its encoding, however that is cut into chunks, provided that each
  -- chunk but the first and the last holds at least `w` bytes, where `w` bounds the size of the
  -- PODs; bytes that follow the encoding are not touched. `w` is at least 4.
  pub read_object-encode :
      (fs : Fields) (vs : Vals fs) (x : List ℕ) (more : List (List ℕ)) (rest : List ℕ)
      → AreWritable w max fs vs
      → IsChunked w least more
      → concat (x ∷ more) ≡ encode_fields fs vs ++ rest
      → read_object fs (x ∷ more) ≡ ok vs
  unfolding read_object read fetch_first get
  read_object-encode fs vs x more rest ok_v chunked e =
      let r =
        read_by_fields fs vs (record { source = x ∷ more; buf = some x; offset = 0 }) rest ok_v
          (record { inside = omega arith; chunked = chunked }) e in
      ap (λ t. t >>= λ p. ok p.0) r.returns

all_read :
    (w : ℕ) (source : List (List ℕ)) (ob : Option (List ℕ)) (offset : ℕ)
    → 1 ≤ w
    → IsInside ob offset
    → IsChunked w 1 (drop 1 source)
    → left_in ob offset source ≡ []
    → length (drop 1 source) ≡ 0
all_read w source none offset pos inside c e = absurd inside
all_read w source (some b) offset pos inside c e =
    by_chunks (drop 1 source) c
      (omega (arith, ap length e, length-append (drop offset b) (concat (drop 1 source))))
  where
    by_chunks : (cs : List (List ℕ)) → IsChunked w 1 cs → length (concat cs) ≡ 0 → length cs ≡ 0
    by_chunks [] c e = refl
    by_chunks (x ∷ []) c e = absurd (omega (arith, length-append x []))
    by_chunks (x ∷ y ∷ cs) c e = absurd (omega (arith, c.0, length-append x (concat (y ∷ cs))))

-- The coroutine reads an object from its encoding, and is not fed after it has finished, where the
-- last of the chunks has a byte and each but the first and the last holds at least `w`.
pub run_coroutine-encode :
    (w max : ℕ) (fs : Fields) (vs : Vals fs) (x : List ℕ) (more : List (List ℕ))
    → 4 ≤ w
    → AreWritable w max fs vs
    → IsChunked w 1 more
    → concat (x ∷ more) ≡ encode_fields fs vs
    → run_coroutine fs (x ∷ more) ≡ ok (ok vs)
unfolding run_coroutine settled read fetch_first get
run_coroutine-encode w max fs vs x more four ok_v chunked e =
    let r =
      read_by_fields w 1 max four fs vs (record { source = x ∷ more; buf = some x; offset = 0 }) []
        ok_v (record { inside = omega arith; chunked = chunked })
        (e ∙ sym (append-nil (encode_fields fs vs))) in
    let none_left =
      all_read w r.out.source r.out.buf r.out.offset (omega arith) r.inv.inside r.inv.chunked
        r.remains in
    let empty : (length (drop 1 r.out.source) == 0) ≡ true =
      (==_iff (length (drop 1 r.out.source)) 0).1 none_left in
    ap settled r.returns ∙ rw (settled, empty) refl
