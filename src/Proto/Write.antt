-- ===== src/Proto/Write.antt =====
-- The writing side: `EnsureBuffer`, `MakeBuffer` and the `Write` functions. A coroutine's
-- `yield` appends to the list of what was sent; `offset` is part of the state, since every
-- `Write` takes it and returns it.
use oldpart.Base.{
  ℕ, zero, suc, ◌+◌, ◌-◌, ◌%◌, ◌^◌, min, Bool, true, false, Option, none, some, List, [], ◌∷◌, ◌++◌,
  length, take, drop, replicate, splice, ltb, leb, ◌==◌, if◌then◌else◌, Outcome, ok, err, no_fuel,
  ◌>>=◌, ◌>>◌, assert, deref, le_bytes,
}
use oldpart.Proto.Types.{
  Ty, Fields, pod, string, vector, object, stream, end, field, Val, Vals, IoStream,
}

-- `Buf`: the allocated bytes, and `bufLen`. Uninitialised bytes are shown as 0.
pub record Buf : Type 0 where
  pub buf : List ℕ
  pub buf_len : ℕ

-- `BufT`
pub record BufT : Type 0 where
  pub buf : Buf
  pub pad_num : ℕ
  pub checksum : ℕ
  pub is_last : Bool

-- The state of a writer: what it has yielded, the current `buf` (or `nullptr`) and `offset`.
pub record Writer : Type 0 where
  pub sent : List BufT
  pub buf : Option Buf
  pub offset : ℕ

-- `while (n > 0)` and `i < n` on an `int32_t` whose pattern is `n % 2 ^ 32`: the rounds to go.
abbrev pub positive32 : ℕ → ℕ
positive32 n = if ltb (n % 2 ^ 32) (2 ^ 31) then n % 2 ^ 32 else 0

unfoldable pub make_buffer : ℕ → Buf
make_buffer buf_len = record { buf = replicate buf_len 0; buf_len = buf_len }

-- `{buf, 0, 0, isLast}` after `buf->bufLen = offset`
abbrev pub packet : Buf → ℕ → Bool → BufT
packet b offset last = record {
  buf = record b { buf_len = offset };
  pad_num = 0;
  checksum = 0;
  is_last = last;
}

-- `std::copy_n(src, n, buf->buf + offset); offset += n`, where `src` may hold fewer bytes (a
-- short read of a stream).
unfoldable pub copy_n : List ℕ → ℕ → Writer → Outcome Writer
copy_n src n o = do
  b ← deref o.buf
  assert (leb (o.offset + n) (length b.buf))
  ok (record o { buf = some (record b { buf = splice b.buf o.offset src }); offset = o.offset + n })

module _ (max : ℕ) where
  -- the first `if` of `EnsureBuffer`
  unfoldable pub flush_full : Writer → ℕ → Writer
  flush_full o size = elim o.buf [
    | none ↦ o
    | some b ↦
        if ltb b.buf_len (o.offset + size)
        then record o { sent = o.sent ++ (packet b o.offset false ∷ []); buf = none; offset = 0 }
        else o
  ]

  -- the second `if` of `EnsureBuffer`
  unfoldable pub allocate : Writer → Writer
  unfolding make_buffer
  allocate o = elim o.buf [
    | none ↦ record o { buf = some (make_buffer max); offset = 0 }
    | some b ↦ o
  ]

  unfoldable pub ensure_buffer : Writer → ℕ → Writer
  ensure_buffer o size = allocate (flush_full o size)

  unfoldable pub write_pod : ℕ → ℕ → Writer → Outcome Writer
  write_pod n v o = copy_n (le_bytes n v) n (ensure_buffer o n)

  -- `if(offset == buf->bufLen) buf = EnsureBuffer(yield, buf, offset, 1)`
  unfoldable pub next_buffer : Writer → Buf → Writer
  next_buffer o b = if o.offset == b.buf_len then ensure_buffer o 1 else o

  -- A round of the `while (totalLen > 0)` loop of the string and of `IOStream`, over the bytes
  -- left; with the number of bytes that it accounts for.
  unfoldable pub write_round : ℕ → List ℕ → Writer → Outcome (ℕ × Writer)
  write_round total src o = do
    b ← deref o.buf
    let o1 = next_buffer o b
    b1 ← deref o1.buf
    let len = min total (b1.buf_len - o1.offset)
    o2 ← copy_n (take len src) len o1
    ok (len, o2)

  unfoldable pub write_loop : ℕ → ℕ → List ℕ → Writer → Outcome Writer
  write_loop fuel zero src o = ok o
  write_loop zero (suc total) src o = err no_fuel
  write_loop (suc fuel) (suc total) src o = do
    (len, o1) ← write_round (suc total) src o
    write_loop fuel (suc total - len) (drop len src) o1

  unfoldable pub write_string : List ℕ → Writer → Outcome Writer
  write_string v o = do
    o1 ← write_pod 4 (length v) o
    let total = positive32 (length v)
    write_loop total total v o1

  unfoldable pub write_stream : IoStream → Writer → Outcome Writer
  write_stream v o = do
    o1 ← write_pod 4 v.size o
    let total = positive32 v.size
    write_loop total total v.content o1

  unfoldable pub write_items {ℓ} :
      {A : Type ℓ} → (A → Writer → Outcome Writer) → List A → Writer → Outcome Writer
  write_items f [] o = ok o
  write_items f (x ∷ xs) o = f x o >>= write_items f xs

  -- `WriteField<T>`, and the `Write` that `PROTO_IMPLEMENTATION` generates.
  unfoldable mutual
    pub write : (t : Ty) → Val t → Writer → Outcome Writer
    write (pod n) v o = write_pod n v o
    write string v o = write_string v o
    write (vector n t) vs o =
        write_pod 4 (length vs) (ensure_buffer o n) >>= write_items (write t) vs
    write (object fs) vs o = write_fields fs vs o
    write stream v o = write_stream v o

    pub write_fields : (fs : Fields) → Vals fs → Writer → Outcome Writer
    write_fields end vs o = ok o
    write_fields (field t fs) vs o = write t vs.0 o >>= write_fields fs vs.1

abbrev pub start : Writer
start = record { sent = []; buf = none; offset = 0 }

-- `OSerializer::SerializeObject`: the buffers that the coroutine yields.
unfoldable pub serialize_object : ℕ → (fs : Fields) → Vals fs → Outcome (List BufT)
serialize_object max fs vs = do
  o ← write_fields max fs vs start
  b ← deref o.buf
  ok (o.sent ++ (packet b o.offset true ∷ []))
