-- ===== src/Proto/Loop.antt =====
-- The copying loop of the string's and `IOStream`'s `Write` (common/OProtoBase.cpp,
-- opp/IOStream.cpp).
use oldpart.Base.{
  ℕ, zero, suc, ◌-◌, ◌≤◌, min, ◌≡◌, refl, Option, none, some, List, [], ◌∷◌, arith, length, take,
  drop, ok, ◌==◌, Bool-cases, inl, inr, take-append-drop, length-take, length-drop,
}
use oldpart.Proto.Write.{Buf, Writer, next_buffer, write_round, write_loop}
use oldpart.Proto.Emitted.{
  Inv, IsCurrent, HasBuf, Adds, Adds-nothing, Adds->>=, Adds-bytes, Adds-from,
}
use oldpart.Proto.Ensured.{Ensured, ensure_buffer-Ensured, copy_n-Adds}

pub HasBuf-some : (ob : Option Buf) → HasBuf ob → (b : Buf) × (ob ≡ some b)
HasBuf-some none h = absurd h
HasBuf-some (some b) h = (b, refl)

pub IsCurrent-some :
    (max : ℕ) (ob : Option Buf) (b : Buf) (offset : ℕ)
    → ob ≡ some b
    → IsCurrent max ob offset
    → (b.buf_len ≡ max) × (offset ≤ max)
IsCurrent-some max none b offset e c = absurd (ground arith)
IsCurrent-some max (some a) b offset e c = ground arith

module _ (w max : ℕ) (wide : w ≤ max) (pos : 1 ≤ max) where
  next_buffer-Ensured :
      (o : Writer) (b : Buf)
      → o.buf ≡ some b
      → Inv w max o
      → Ensured w max o 1 (next_buffer max o b)
  unfolding next_buffer
  next_buffer-Ensured o b e v =
      let c = IsCurrent-some max o.buf b o.offset e v.current in
      elim (Bool-cases (o.offset == b.buf_len)) [
        | inl full ↦ rw full (ensure_buffer-Ensured w max o 1 (omega arith) pos v)
        | inr room ↦ rw room (record {
          inv = v;
          same = refl;
          room = record { buffer = b; has = e; room = ground arith };
        })
      ]

  record IsCopied (total : ℕ) (src : List ℕ) (o : Writer) : Type 0 where
    len : ℕ
    out : Writer
    returns : write_round max total src o ≡ ok (len, out)
    some_bytes : 1 ≤ len
    within : len ≤ total
    adds : Adds w max o (take len src) (ok out)

  write_round-IsCopied :
      (total : ℕ) (src : List ℕ) (o : Writer)
      → 1 ≤ total
      → length src ≡ total
      → Inv w max o
      → HasBuf o.buf
      → IsCopied total src o
  unfolding write_round
  write_round-IsCopied total src o many len v h =
      let (b, e) = HasBuf-some o.buf h in
      let n = next_buffer-Ensured o b e v in
      let o1 = next_buffer max o b in
      let c = IsCurrent-some max o1.buf n.room.buffer o1.offset n.room.has n.inv.current in
      let k : ℕ = min total (n.room.buffer.buf_len - o1.offset) in
      let room = n.room.room in
      let a =
        copy_n-Adds w max o1 k (take k src) n.inv
          (record { buffer = n.room.buffer; has = n.room.has; room = omega arith })
          (omega (arith, length-take k src)) in
      record {
        len = k;
        out = a.out;
        returns = ground (arith, e, n.room.has, a.returns);
        some_bytes = omega arith;
        within = omega arith;
        adds =
            Adds-from {o1 = o1} n.same
              (record { out = a.out; returns = refl; inv = a.inv; held = a.held; bytes = a.bytes });
      }

  pub write_loop-Adds :
      (fuel total : ℕ) (src : List ℕ) (o : Writer)
      → total ≤ fuel
      → length src ≡ total
      → Inv w max o
      → HasBuf o.buf
      → Adds w max o src (write_loop max fuel total src o)
  unfolding write_loop
  write_loop-Adds fuel zero [] o enough len v h = Adds-nothing v h
  write_loop-Adds fuel zero (x ∷ src) o enough len v h = absurd (omega arith)
  write_loop-Adds zero (suc total) src o enough len v h = absurd (omega arith)
  write_loop-Adds (suc fuel) (suc total) src o enough len v h =
      let r = write_round-IsCopied (suc total) src o (omega arith) len v h in
      let rest = λ (o1 : Writer) (i : Inv w max o1) (j : HasBuf o1.buf).
        write_loop-Adds fuel (suc total - r.len) (drop r.len src) o1 (omega (arith, r.some_bytes))
          (omega (arith, length-drop r.len src)) i j in
      rw r.returns (
        Adds-bytes (take-append-drop r.len src) (
          Adds->>= (take r.len src) (drop r.len src) (ok r.out)
            (λ o1. write_loop max fuel (suc total - r.len) (drop r.len src) o1) r.adds rest))
