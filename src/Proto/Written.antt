-- ===== src/Proto/Written.antt =====
-- `OSerializer::SerializeObject` and the `Write` functions it runs (common/OProtoBase.h), against
-- the layout of `encode`.
use oldpart.Base.{
  ℕ, ◌+◌, ◌≤◌, ◌<◌, ◌≡◌, ◌^◌, refl, sym, ap, ◌∙◌, true, Option, none, some, List, [], ◌∷◌, ◌++◌,
  arith, length, Outcome, ok, ◌>>=◌, le_bytes, inl, inr, ◌⊎◌,
}
use oldpart.Proto.Types.{
  Ty, Fields, pod, string, vector, object, stream, end, field, Val, Vals, All, IsNonEmpty,
  IsWritable, AreWritable,
}
use oldpart.Proto.Write.{
  Buf, BufT, Writer, packet, positive32, write_pod, write_loop, write_string, write_stream,
  write_items, write, write_fields, start, serialize_object, ensure_buffer,
}
use oldpart.Proto.Encoding.{encode, encode_items, encode_fields}
use oldpart.Proto.Emitted.{
  Inv, IsWide, IsWhole, IsCurrent, HasBuf, Adds, Adds-nothing, Adds->>=, Adds-from, payloads,
  payloads-append, pending,
}
use oldpart.Proto.Ensured.{ensure_buffer-Ensured, write_pod-Adds}
use oldpart.Proto.Loop.{write_loop-Adds, HasBuf-some}

pub positive32-small : (n : ℕ) → n < 2 ^ 31 → positive32 n ≡ n
positive32-small n h = ground arith

module _ (w max : ℕ) (four : 4 ≤ w) (room : w + w ≤ max + 1) where
  write_pod_lem :
      (o : Writer) (n v : ℕ)
      → n ≤ w
      → Inv w max o
      → Adds w max o (le_bytes n v) (write_pod max n v o)
  write_pod_lem o n v h i = write_pod-Adds w max o n v (omega arith) (omega arith) i

  -- a length or a size, then the bytes it announces
  announced-Adds :
      (o : Writer) (n : ℕ) (src : List ℕ)
      → length src ≡ n
      → n < 2 ^ 31
      → Inv w max o
      → Adds w max o
          (le_bytes 4 n ++ src)
          (write_pod max 4 n o >>= λ o1. write_loop max (positive32 n) (positive32 n) src o1)
  announced-Adds o n src len small i =
      let p : positive32 n ≡ n = positive32-small n small in
      Adds->>= (le_bytes 4 n) src (write_pod max 4 n o)
        (λ o1. write_loop max (positive32 n) (positive32 n) src o1) (write_pod_lem o 4 n four i)
        (λ o1 j h.
          write_loop-Adds w max (omega arith) (omega arith) (positive32 n) (positive32 n) src o1
            (omega arith) (len ∙ sym p) j h)

  write_items-Adds {ℓ} :
      {A : Type ℓ} (f : A → Writer → Outcome Writer) (enc : A → List ℕ) (P : A → Type 0)
      → ((x : A) (o : Writer) → P x → Inv w max o → Adds w max o (enc x) (f x o))
      → (xs : List A) (o : Writer) → All P xs
      → Inv w max o
      → HasBuf o.buf
      → Adds w max o (encode_items enc xs) (write_items max f xs o)
  unfolding write_items encode_items
  write_items-Adds f enc P one [] o hs i h = Adds-nothing i h
  write_items-Adds f enc P one (x ∷ xs) o hs i h =
      Adds->>= (enc x) (encode_items enc xs) (f x o) (write_items max f xs) (one x o hs.0 i)
        (λ o1 j k. write_items-Adds f enc P one xs o1 hs.1 j k)

  current_IsWhole :
      (ob : Option Buf) (b : Buf) (offset : ℕ)
      → ob ≡ some b
      → IsCurrent max ob offset
      → IsWhole max (packet b offset true)
  current_IsWhole none b offset e c = absurd (ground arith)
  current_IsWhole (some a) b offset e c = ground arith

  mutual
    unfolding write encode write_string write_stream

    write_by_type :
        (t : Ty) (v : Val t) (o : Writer)
        → IsWritable w max t v
        → Inv w max o
        → Adds w max o (encode t v) (write max t v o)
    write_by_type (pod n) v o ok_v i = write_pod_lem o n v ok_v.0 i
    write_by_type string v o ok_v i = announced-Adds o (length v) v refl ok_v i
    write_by_type (vector n t) vs o ok_v i =
        let e = ensure_buffer-Ensured w max o n ok_v.0 (omega arith) i in
        Adds-from {o1 = ensure_buffer max o n} e.same (
          Adds->>= (le_bytes 4 (length vs)) (encode_items (encode t) vs)
            (write_pod max 4 (length vs) (ensure_buffer max o n)) (write_items max (write max t) vs)
            (write_pod_lem (ensure_buffer max o n) 4 (length vs) four e.inv)
            (λ o1 j k.
              write_items-Adds (write max t) (encode t) (IsWritable w max t)
                (λ x o1 p j. write_by_type t x o1 p j) vs o1 ok_v.2 j k))
    write_by_type (object fs) vs o ok_v i = write_by_fields fs vs o (inr ok_v.0) ok_v.1 i
    write_by_type stream v o ok_v i = announced-Adds o v.size v.content (sym ok_v.0) ok_v.1 i

    write_by_fields :
        (fs : Fields) (vs : Vals fs) (o : Writer)
        → HasBuf o.buf ⊎ IsNonEmpty fs
        → AreWritable w max fs vs
        → Inv w max o
        → Adds w max o (encode_fields fs vs) (write_fields max fs vs o)
    write_by_fields end vs o (inl h) ok_v i = Adds-nothing i h
    write_by_fields end vs o (inr h) ok_v i = absurd h
    write_by_fields (field t fs) vs o h ok_v i =
        Adds->>= (encode t vs.0) (encode_fields fs vs.1) (write max t vs.0 o)
          (write_fields max fs vs.1) (write_by_type t vs.0 o ok_v.0 i)
          (λ o1 j k. write_by_fields fs vs.1 o1 (inl k) ok_v.1 j)

  -- What `SerializeObject` yields for a writable object: buffers of at least `w` bytes that are
  -- not the last, then one that is, which together carry the object's encoding.
  pub record IsSerialized (fs : Fields) (vs : Vals fs) (r : Outcome (List BufT)) : Type 0 where
    pub front : List BufT
    pub last : BufT
    pub returns : r ≡ ok (front ++ (last ∷ []))
    pub wide : All (IsWide w max) front
    pub closed : last.is_last ≡ true
    pub whole : IsWhole max last
    pub bytes : payloads (front ++ (last ∷ [])) ≡ encode_fields fs vs

  -- A writable object with a field is serialized: `SerializeObject` returns, its buffers carry the
  -- encoding of the object in order, exactly the last of them is marked as last, and each other
  -- one carries at least `w` bytes. Here `max` is at least 2 * `w` - 1 and `w` at least 4.
  pub serialize_object-IsSerialized :
      (fs : Fields) (vs : Vals fs)
      → IsNonEmpty fs
      → AreWritable w max fs vs
      → IsSerialized fs vs (serialize_object max fs vs)
  unfolding serialize_object
  serialize_object-IsSerialized fs vs ne ok_v =
      let a = write_by_fields fs vs start (inr ne) ok_v (record { current = tt; wide = tt }) in
      let (b, e) = HasBuf-some a.out.buf a.held in
      record {
        front = a.out.sent;
        last = packet b a.out.offset true;
        returns = ground (arith, a.returns, e);
        wide = a.inv.wide;
        closed = refl;
        whole = current_IsWhole a.out.buf b a.out.offset e a.inv.current;
        bytes =
            payloads-append a.out.sent (packet b a.out.offset true)
            ∙ ap (λ ob. payloads a.out.sent ++ pending ob a.out.offset) (sym e)
            ∙ a.bytes;
      }
