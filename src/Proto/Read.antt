-- ===== src/Proto/Read.antt =====
-- The reading side: the `Read` functions over the chunks that a coroutine hands on.
use oldpart.Base.{
  fault, starved, thrown, no_fuel, assert, ◌>>◌, ◌==◌, err, ℕ, zero, suc, ◌+◌, ◌-◌, min, Option,
  none, some, List, [], ◌∷◌, ◌++◌, length, take, drop, ltb, leb, if◌then◌else◌, Outcome, ok, ◌>>=◌,
  deref, of_le, ◌^◌,
}
use oldpart.Proto.Types.{
  Ty, Fields, pod, string, vector, object, stream, end, field, Val, Vals, IoStream,
}
use oldpart.Proto.Write.{positive32}

-- A chunk is the `bufLen` bytes of a `Buf`; the head of `source` is what `pull.get()` gives.
pub record Reader : Type 0 where
  pub source : List (List ℕ)
  pub buf : Option (List ℕ)
  pub offset : ℕ

-- `pull.get()`
unfoldable pub get : List (List ℕ) → Outcome (List ℕ)
get [] = err starved
get (x ∷ xs) = ok x

-- `pull(); buf = pull.get().buf`, with the offset at which reading goes on
unfoldable pub pull : Reader → ℕ → Outcome Reader
unfolding get
pull i offset = do
  x ← get (drop 1 i.source)
  ok (record { source = drop 1 i.source; buf = some x; offset = offset })

-- The bytes of a POD of size `n`, which may be split over two chunks.
unfoldable pub read_bytes : ℕ → Reader → Outcome (List ℕ × Reader)
read_bytes n i = do
  b ← deref i.buf
  let readable = length b - i.offset
  if leb n readable
      then ok (take n (drop i.offset b), record i { offset = i.offset + n })
      else (pull i (n - readable) >>= λ j. deref j.buf >>= λ x.
          assert (leb (n - readable) (length x))
          >> ok (drop i.offset b ++ take (n - readable) x, j))

unfoldable pub read_pod : ℕ → Reader → Outcome (ℕ × Reader)
read_pod n i = read_bytes n i >>= λ r. ok (of_le r.0, r.1)

-- A round of the `while (len > 0)` loop of the string and of `IOStream`: the number `readable`,
-- and the bytes that are appended.
unfoldable pub read_round : ℕ → Reader → Outcome (ℕ × List ℕ × Reader)
read_round len i = do
  b ← deref i.buf
  j ← if length b == i.offset then pull i 0 else ok i
  c ← deref j.buf
  let readable = min len (length c - j.offset)
  ok (readable, take readable (drop j.offset c), record j { offset = j.offset + readable })

-- `acc` is what was appended so far.
unfoldable pub read_loop : ℕ → ℕ → List ℕ → Reader → Outcome (List ℕ × Reader)
read_loop fuel zero acc i = ok (acc, i)
read_loop zero (suc len) acc i = err no_fuel
read_loop (suc fuel) (suc len) acc i = do
  (readable, piece, j) ← read_round (suc len) i
  read_loop fuel (suc len - readable) (acc ++ piece) j

-- Each round takes a byte or a chunk.
abbrev pub rounds : ℕ → Reader → ℕ
rounds len i = len + length i.source

unfoldable pub read_string : Reader → Outcome (List ℕ × Reader)
read_string i = do (n, j) ← read_pod 4 i; let len = positive32 n; read_loop (rounds len j) len [] j

unfoldable pub read_stream : Reader → Outcome (IoStream × Reader)
read_stream i = do
  (n, j) ← read_pod 4 i
  let len = positive32 n
  (content, k) ← read_loop (rounds len j) len [] j
  ok (record { size = n; content = content }, k)

unfoldable pub read_items {ℓ} :
    {A : Type ℓ} → (Reader → Outcome (A × Reader)) → ℕ → Reader → Outcome (List A × Reader)
read_items f zero i = ok ([], i)
read_items f (suc n) i = do (x, j) ← f i; (xs, k) ← read_items f n j; ok (x ∷ xs, k)

-- `ReadField<T>`, and the `Read` that `PROTO_IMPLEMENTATION` generates: it fetches the first
-- chunk when `buf` is null.
unfoldable pub fetch_first : Reader → Outcome Reader
unfolding get
fetch_first i = elim i.buf [
  | none ↦ get i.source >>= λ x. ok (record i { buf = some x; offset = 0 })
  | some b ↦ ok i
]

unfoldable mutual
  pub read : (t : Ty) → Reader → Outcome (Val t × Reader)
  read (pod n) i = read_pod n i
  read string i = read_string i
  read (vector n t) i = do
    (size, j) ← read_pod 4 i
    assert (ltb size (2 ^ 31))
    read_items (read t) size j
  read (object fs) i = fetch_first i >>= read_fields fs
  read stream i = read_stream i

  pub read_fields : (fs : Fields) → Reader → Outcome (Vals fs × Reader)
  read_fields end i = ok (tt, i)
  read_fields (field t fs) i = do (v, j) ← read t i; (vs, k) ← read_fields fs j; ok ((v, vs), k)

-- The coroutine that `Deserialize` feeds, on the chunks `source`.
unfoldable pub read_object : (fs : Fields) → List (List ℕ) → Outcome (Vals fs)
read_object fs source = do
  (vs, i) ← read (object fs) (record { source = source; buf = none; offset = 0 })
  ok vs

-- What `Deserialize` has of the coroutine: the object it has read, or `starved` while it waits for
-- more. A chunk that is sunk into a coroutine which has finished is a fault, and what the coroutine
-- raises comes out where it is fed.
unfoldable pub settled {ℓ} : {A : Type ℓ} → Outcome (A × Reader) → Outcome (Outcome A)
settled (ok (v, i)) = assert (length (drop 1 i.source) == 0) >> ok (ok v)
settled (err starved) = ok (err starved)
settled (err fault) = err fault
settled (err thrown) = err thrown
settled (err no_fuel) = err no_fuel

unfoldable pub run_coroutine : (fs : Fields) → List (List ℕ) → Outcome (Outcome (Vals fs))
run_coroutine fs source =
    settled (read (object fs) (record { source = source; buf = none; offset = 0 }))
