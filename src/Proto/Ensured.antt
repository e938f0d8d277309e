-- ===== src/Proto/Ensured.antt =====
-- `EnsureBuffer` and the writing of PODs (common/OProtoBase.cpp).
use oldpart.Base.{
  ℕ, ◌+◌, ◌≤◌, ◌≡◌, refl, sym, ap, ◌∙◌, false, Option, none, some, List, [], ◌∷◌, ◌++◌, append-nil,
  append_assoc, arith, length, take, splice, ltb, Bool-cases, inl, inr, ltb→lt, ltb→le, le→leb,
  length-take, length-replicate, length-splice, take-splice, length-le_bytes, le_bytes,
}
use oldpart.Proto.Types.{All}
use oldpart.Proto.Write.{
  Buf, BufT, Writer, packet, make_buffer, copy_n, flush_full, allocate, ensure_buffer, write_pod,
}
use oldpart.Proto.Emitted.{
  All-append, payloads, written, payloads-append, IsCurrent, IsWide, Inv, Adds, Adds-from,
}

module _ (w max : ℕ) where
  -- There is a buffer, with room for `size` more bytes.
  pub record Room (o : Writer) (size : ℕ) : Type 0 where
    pub buffer : Buf
    pub has : o.buf ≡ some buffer
    pub room : o.offset + size ≤ max

  pub record Ensured (o : Writer) (size : ℕ) (o1 : Writer) : Type 0 where
    pub inv : Inv w max o1
    pub same : written o1 ≡ written o
    pub room : Room o1 size

  fresh_Ensured :
      (sent : List BufT) (offset size : ℕ)
      → size ≤ max
      → All (IsWide w max) sent
      → Ensured
          (record { sent = sent; buf = none; offset = offset })
          size
          (allocate max (record { sent = sent; buf = none; offset = offset }))
  unfolding allocate
  fresh_Ensured sent offset size fits wide = record {
    inv = record { current = (length-replicate max 0, refl, omega arith); wide = wide };
    same = refl;
    room = record { buffer = make_buffer max; has = refl; room = omega arith };
  }

  kept_Ensured :
      (sent : List BufT) (b : Buf) (offset size : ℕ)
      → Inv w max (record { sent = sent; buf = some b; offset = offset })
      → offset + size ≤ b.buf_len
      → Ensured
          (record { sent = sent; buf = some b; offset = offset })
          size
          (allocate max (record { sent = sent; buf = some b; offset = offset }))
  unfolding allocate
  kept_Ensured sent b offset size v h =
      let c : IsCurrent max (some b) offset = v.current in
      record { inv = v; same = refl; room = record { buffer = b; has = refl; room = omega arith } }

  ensure_by_cases :
      (sent : List BufT) (ob : Option Buf) (offset size : ℕ)
      → size + w ≤ max + 1
      → size ≤ max
      → Inv w max (record { sent = sent; buf = ob; offset = offset })
      → Ensured
          (record { sent = sent; buf = ob; offset = offset })
          size
          (ensure_buffer max (record { sent = sent; buf = ob; offset = offset }) size)
  unfolding ensure_buffer flush_full
  ensure_by_cases sent none offset size fits small v = fresh_Ensured sent offset size small v.wide
  ensure_by_cases sent (some b) offset size fits small v =
      elim (Bool-cases (ltb b.buf_len (offset + size))) [
        | inl full ↦
            let cur : IsCurrent max (some b) offset = v.current in
            let next = fresh_Ensured (sent ++ (packet b offset false ∷ [])) 0 size small (
              All-append (IsWide w max) sent (packet b offset false ∷ []) v.wide (
                (
                  omega (arith, length-take offset b.buf, ltb→lt b.buf_len (offset + size) full),
                  refl,
                  (cur.0, cur.2),
                ),
                tt,
              )) in
            rw full (record {
              inv = next.inv;
              same =
                  next.same
                  ∙ append-nil (payloads (sent ++ (packet b offset false ∷ [])))
                  ∙ payloads-append sent (packet b offset false);
              room = next.room;
            })
        | inr roomy ↦
            rw roomy (kept_Ensured sent b offset size v (ltb→le b.buf_len (offset + size) roomy))
      ]

  -- `EnsureBuffer` leaves a buffer with room for the element, and loses nothing of what was written.
  pub ensure_buffer-Ensured :
      (o : Writer) (size : ℕ)
      → size + w ≤ max + 1
      → size ≤ max
      → Inv w max o
      → Ensured o size (ensure_buffer max o size)
  ensure_buffer-Ensured o size = ensure_by_cases o.sent o.buf o.offset size

  copy_to :
      (sent : List BufT) (ob : Option Buf) (b : Buf) (offset n : ℕ) (src : List ℕ)
      → Inv w max (record { sent = sent; buf = ob; offset = offset })
      → ob ≡ some b
      → length src ≡ n
      → offset + n ≤ max
      → Adds w max
          (record { sent = sent; buf = ob; offset = offset })
          src
          (copy_n src n (record { sent = sent; buf = ob; offset = offset }))
  unfolding copy_n
  copy_to sent none b offset n src v e len fits = absurd (ground arith)
  copy_to sent (some c) b offset n src v e len fits =
      let cur : IsCurrent max (some c) offset = v.current in
      let inside : offset + length src ≤ length c.buf = omega arith in
      rw (le→leb (offset + n) (length c.buf) (omega arith)) (record {
        out = record {
          sent = sent;
          buf = some (record c { buf = splice c.buf offset src });
          offset = offset + n;
        };
        returns = refl;
        inv = record {
          current = (length-splice c.buf offset src inside ∙ cur.0, cur.1, fits);
          wide = v.wide;
        };
        held = tt;
        bytes =
            ap (λ t. payloads sent ++ t)
              (ap (λ k. take (offset + k) (splice c.buf offset src)) (sym len)
                ∙ take-splice c.buf offset src inside)
            ∙ sym (append_assoc (payloads sent) (take offset c.buf) src);
      })

  pub copy_n-Adds :
      (o : Writer) (n : ℕ) (src : List ℕ)
      → Inv w max o
      → Room o n
      → length src ≡ n
      → Adds w max o src (copy_n src n o)
  copy_n-Adds o n src v r len = copy_to o.sent o.buf r.buffer o.offset n src v r.has len r.room

  -- A POD is written as its object representation.
  pub write_pod-Adds :
      (o : Writer) (n v : ℕ)
      → n + w ≤ max + 1
      → n ≤ max
      → Inv w max o
      → Adds w max o (le_bytes n v) (write_pod max n v o)
  unfolding write_pod
  write_pod-Adds o n v fits small inv =
      let e = ensure_buffer-Ensured o n fits small inv in
      Adds-from e.same
        (copy_n-Adds (ensure_buffer max o n) n (le_bytes n v) e.inv e.room (length-le_bytes n v))
