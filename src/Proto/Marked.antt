-- ===== src/Proto/Marked.antt =====
-- The last buffer that `SerializeObject` (common/OSerializer.cpp) yields.
use oldpart.Base.{
  ℕ, zero, suc, ◌+◌, ◌-◌, ◌<◌, ◌≤◌, ◌≡◌, ◌⊎◌, inl, inr, refl, sym, ap, subst, ◌∙◌, min, true,
  Option, none, some, List, [], ◌∷◌, ◌++◌, length, length-take, take, drop, leb, ltb, ◌==◌,
  Bool-cases, Outcome, ok, ◌>>=◌, deref, arith, le_bytes,
}
use oldpart.Proto.Types.{
  Ty, Fields, pod, string, vector, object, stream, end, field, Val, Vals, All, IsNonEmpty,
  AreWritable,
}
use oldpart.Proto.Write.{
  Buf, BufT, Writer, packet, make_buffer, copy_n, flush_full, allocate, ensure_buffer, write_pod,
  next_buffer, write_round, write_loop, write_string, write_stream, write_items, write,
  write_fields, start, serialize_object, positive32,
}
use oldpart.Proto.Emitted.{IsWide, IsWhole}
use oldpart.Proto.Written.{serialize_object-IsSerialized}
use oldpart.Serializer.Returned.{Post, Post-bind, Post-assert}
use oldpart.Serializer.Deflated.Bodies.{IsMarked}

-- Every POD has a byte, and every object inside a field.
abbrev mutual
  IsSized : Ty → Type 0
  IsSized (pod n) = 1 ≤ n
  IsSized string = Unit
  IsSized (vector n t) = IsSized t
  IsSized (object fs) = IsNonEmpty fs × AreSized fs
  IsSized stream = Unit

  pub AreSized : Fields → Type 0
  AreSized end = Unit
  AreSized (field t fs) = IsSized t × AreSized fs

-- The current buffer has a byte.
abbrev IsFilled : Writer → Type 0
IsFilled o = 0 < o.offset

Post-deref :
    {A : Type 0} (Q : A → Type 0) (ob : Option Buf) (f : Buf → Outcome A)
    → ((b : Buf) → ob ≡ some b → Post Q (f b))
    → Post Q (deref ob >>= f)
Post-deref Q none f h = tt
Post-deref Q (some b) f h = h b refl

copy_n-IsFilled :
    (src : List ℕ) (n : ℕ) (o : Writer) → 0 < o.offset + n → Post IsFilled (copy_n src n o)
unfolding copy_n
copy_n-IsFilled src n o h =
    Post-deref IsFilled o.buf _
      (λ b e. Post-assert IsFilled (leb (o.offset + n) (length b.buf)) _ (λ fits. h))

module _ (max : ℕ) (some_room : 1 ≤ max) where
  write_pod-IsFilled : (n v : ℕ) (o : Writer) → 1 ≤ n → Post IsFilled (write_pod max n v o)
  unfolding write_pod
  write_pod-IsFilled n v o h =
      copy_n-IsFilled (le_bytes n v) n (ensure_buffer max o n) (omega arith)

  -- a buffer with a byte, or a fresh one
  abbrev IsReady : Writer → Type 0
  IsReady o = IsFilled o ⊎ ((o.buf ≡ some (make_buffer max)) × (o.offset ≡ 0))

  ensured :
      (sent : List BufT) (ob : Option Buf) (offset : ℕ)
      → 0 < offset
      → IsReady (ensure_buffer max (record { sent = sent; buf = ob; offset = offset }) 1)
  unfolding ensure_buffer flush_full allocate
  ensured sent none offset h = inr (refl, refl)
  ensured sent (some b) offset h = elim (Bool-cases (ltb b.buf_len (offset + 1))) [
    | inl full ↦ rw full (inr (refl, refl))
    | inr room ↦ rw room (inl h)
  ]

  next_buffer-IsReady : (o : Writer) (b : Buf) → IsFilled o → IsReady (next_buffer max o b)
  unfolding next_buffer
  next_buffer-IsReady o b h = elim (Bool-cases (o.offset == b.buf_len)) [
    | inl full ↦ rw full (ensured o.sent o.buf o.offset h)
    | inr room ↦ rw room (inl h)
  ]

  copied :
      (total : ℕ) (o : Writer) (b : Buf)
      → 1 ≤ total
      → o.buf ≡ some b
      → IsReady o
      → 0 < o.offset + min total (b.buf_len - o.offset)
  unfolding make_buffer
  copied total o b pos e (inl h) = omega arith
  copied total o b pos e (inr (fresh, first)) =
      let same : make_buffer max ≡ b = cc in
      let long : b.buf_len ≡ max = sym (ap (λ (c : Buf). c.buf_len) same) in
      omega (arith, long, first)

  write_round-IsFilled :
      (total : ℕ) (src : List ℕ) (o : Writer)
      → 1 ≤ total
      → IsFilled o
      → Post (λ r. IsFilled r.1) (write_round max total src o)
  unfolding write_round
  write_round-IsFilled total src o pos h =
      Post-deref (λ r. IsFilled r.1) o.buf _
        (λ b e.
          let o1 = next_buffer max o b in
          Post-deref (λ r. IsFilled r.1) o1.buf _
            (λ b1 e1.
              let len = min total (b1.buf_len - o1.offset) in
              Post-bind IsFilled (λ r. IsFilled r.1) (copy_n (take len src) len o1) _
                (copy_n-IsFilled (take len src) len o1
                  (copied total o1 b1 pos e1 (next_buffer-IsReady o b h)))
                (λ o2 k. k)))

  write_loop-IsFilled :
      (fuel total : ℕ) (src : List ℕ) (o : Writer)
      → IsFilled o
      → Post IsFilled (write_loop max fuel total src o)
  unfolding write_loop
  write_loop-IsFilled fuel zero src o h = h
  write_loop-IsFilled zero (suc total) src o h = tt
  write_loop-IsFilled (suc fuel) (suc total) src o h =
      Post-bind (λ r. IsFilled r.1) IsFilled (write_round max (suc total) src o) _
        (write_round-IsFilled (suc total) src o (omega arith) h)
        (λ r k. write_loop-IsFilled fuel (suc total - r.0) (drop r.0 src) r.1 k)

  write_items-IsFilled {ℓ} :
      {A : Type ℓ} (f : A → Writer → Outcome Writer) (xs : List A) (o : Writer)
      → ((x : A) (p : Writer) → Post IsFilled (f x p))
      → IsFilled o
      → Post IsFilled (write_items max f xs o)
  unfolding write_items
  write_items-IsFilled f [] o each h = h
  write_items-IsFilled f (x ∷ xs) o each h =
      Post-bind IsFilled IsFilled (f x o) (write_items max f xs) (each x o)
        (λ p k. write_items-IsFilled f xs p each k)

  announced-IsFilled :
      (n : ℕ) (src : List ℕ) (o : Writer)
      → Post IsFilled
          (write_pod max 4 n o >>= λ p. write_loop max (positive32 n) (positive32 n) src p)
  announced-IsFilled n src o =
      Post-bind IsFilled IsFilled (write_pod max 4 n o) _ (write_pod-IsFilled 4 n o (omega arith))
        (λ p k. write_loop-IsFilled (positive32 n) (positive32 n) src p k)

  mutual
    unfolding write write_string write_stream

    write-IsFilled : (t : Ty) (v : Val t) (o : Writer) → IsSized t → Post IsFilled (write max t v o)
    write-IsFilled (pod n) v o s = write_pod-IsFilled n v o s
    write-IsFilled string v o s = announced-IsFilled (length v) v o
    write-IsFilled (vector n t) vs o s =
        Post-bind IsFilled IsFilled (write_pod max 4 (length vs) (ensure_buffer max o n)) _
          (write_pod-IsFilled 4 (length vs) (ensure_buffer max o n) (omega arith))
          (λ p k. write_items-IsFilled (write max t) vs p (λ x q. write-IsFilled t x q s) k)
    write-IsFilled (object fs) vs o s = write_fields-IsFilled fs vs o s.1 (inr s.0)
    write-IsFilled stream v o s = announced-IsFilled v.size v.content o

    write_fields-IsFilled :
        (fs : Fields) (vs : Vals fs) (o : Writer)
        → AreSized fs
        → IsFilled o ⊎ IsNonEmpty fs
        → Post IsFilled (write_fields max fs vs o)
    write_fields-IsFilled end vs o s (inl h) = h
    write_fields-IsFilled end vs o s (inr h) = absurd h
    write_fields-IsFilled (field t fs) vs o s h =
        Post-bind IsFilled IsFilled (write max t vs.0 o) (write_fields max fs vs.1)
          (write-IsFilled t vs.0 o s.0) (λ p k. write_fields-IsFilled fs vs.1 p s.1 (inl k))

  -- The last of these buffers has a byte.
  abbrev IsLastFilled : List BufT → Type 0
  IsLastFilled [] = ⊥
  IsLastFilled (p ∷ []) = 0 < p.buf.buf_len
  IsLastFilled (p ∷ q ∷ ps) = IsLastFilled (q ∷ ps)

  append-IsLastFilled :
      (ps : List BufT) (p : BufT) → 0 < p.buf.buf_len → IsLastFilled (ps ++ (p ∷ []))
  append-IsLastFilled [] p h = h
  append-IsLastFilled (q ∷ []) p h = h
  append-IsLastFilled (q ∷ r ∷ ps) p h = append-IsLastFilled (r ∷ ps) p h

  serialize_object-IsLastFilled :
      (fs : Fields) (vs : Vals fs)
      → IsNonEmpty fs
      → AreSized fs
      → Post IsLastFilled (serialize_object max fs vs)
  unfolding serialize_object
  serialize_object-IsLastFilled fs vs ne sized =
      Post-bind IsFilled IsLastFilled (write_fields max fs vs start) _
        (write_fields-IsFilled fs vs start sized (inr ne))
        (λ o h.
          Post-deref IsLastFilled o.buf _
            (λ b e. append-IsLastFilled o.sent (packet b o.offset true) h))

  append-IsMarked :
      (w : ℕ) (front : List BufT) (last : BufT)
      → All (IsWide w max) front
      → last.is_last ≡ true
      → IsWhole max last
      → IsLastFilled (front ++ (last ∷ []))
      → IsMarked (front ++ (last ∷ []))
  append-IsMarked w [] p wide closed whole h =
      (closed, omega (arith, h, whole.0, whole.1, length-take p.buf.buf_len p.buf.buf))
  append-IsMarked w (q ∷ []) p wide closed whole h =
      (wide.0.1, append-IsMarked w [] p tt closed whole h)
  append-IsMarked w (q ∷ r ∷ front) p wide closed whole h =
      (wide.0.1, append-IsMarked w (r ∷ front) p wide.1 closed whole h)

-- Of the buffers that a writable object is serialized to the last alone is marked, and it has bytes,
-- where every POD has.
pub serialize_object-IsMarked :
    (w max : ℕ) (fs : Fields) (vs : Vals fs) (ps : List BufT)
    → 4 ≤ w
    → w + w ≤ max + 1
    → IsNonEmpty fs
    → AreSized fs
    → AreWritable w max fs vs
    → serialize_object max fs vs ≡ ok ps
    → IsMarked ps
serialize_object-IsMarked w max fs vs ps four room ne sized ok_v e =
    let s = serialize_object-IsSerialized w max four room fs vs ne ok_v in
    let positive : 1 ≤ max = omega arith in
    let filled =
      subst (Post (IsLastFilled max positive)) s.returns
        (serialize_object-IsLastFilled max positive fs vs ne sized) in
    let marked = append-IsMarked max positive w s.front s.last s.wide s.closed s.whole filled in
    subst (Post IsMarked) (sym s.returns ∙ e) marked
