-- ===== src/Spsc/Array.antt =====
-- `SPSCArray<T, int32_t, int32_t>`, used by one thread. Positions are non-negative until they
-- reach 2 ^ 31, where the signed increment overflows: such a step is a fault.
use oldpart.Base.{
  ℕ, zero, suc, ◌+◌, ◌-◌, ◌%◌, ◌^◌, Bool, List, [], ◌∷◌, length, get_elem?, set, ltb, ◌==◌,
  if◌then◌else◌, Outcome, ok, err, fault, ◌>>=◌, ◌>>◌, assert, deref,
}

pub record SpscArray {ℓ} (T : Type ℓ) : Type ℓ where
  pub items : List T
  pub capacity : ℕ
  pub write_pos : ℕ
  pub read_pos : ℕ

-- `x++` on an `int32_t`
abbrev pub increment : ℕ → Outcome ℕ
increment x = if ltb (x + 1) (2 ^ 31) then ok (x + 1) else err fault

module _ {ℓ} {T : Type ℓ} where
  -- the constructor and `Init`, on the array that `new T[capacity]` makes
  unfoldable pub init : List T → ℕ → SpscArray T
  init fresh capacity = record { items = fresh; capacity = capacity; write_pos = 0; read_pos = 0 }

  -- `mData[pos % mCapacity]`; the remainder by 0 and an index out of the array are faults.
  unfoldable pub at : SpscArray T → ℕ → Outcome T
  at a pos = do assert (ltb 0 a.capacity); deref (get_elem? a.items (pos % a.capacity))

  -- `mWritePos - mReadPos < mCapacity`, where the difference may be negative
  unfoldable pub push : SpscArray T → T → Outcome (SpscArray T)
  push a x = do
    assert (ltb a.write_pos (a.read_pos + a.capacity))
    assert (ltb 0 a.capacity)
    assert (ltb (a.write_pos % a.capacity) (length a.items))
    w ← increment a.write_pos
    ok (record a { items = set a.items (a.write_pos % a.capacity) x; write_pos = w })

  unfoldable pub first : SpscArray T → ℕ → Outcome T
  first a k = at a (a.read_pos + k)

  -- `mWritePos - mReadPos - k > 0`
  unfoldable pub valid : SpscArray T → ℕ → Bool
  valid a k = ltb (a.read_pos + k) a.write_pos

  unfoldable pub pop : SpscArray T → Outcome (SpscArray T)
  pop a = do r ← increment a.read_pos; ok (record a { read_pos = r })

  unfoldable pub skip : SpscArray T → ℕ → Outcome (SpscArray T)
  skip a k =
      if ltb (a.read_pos + k) (2 ^ 31)
      then ok (record a { read_pos = a.read_pos + k })
      else err fault

  -- `Size()`, where it is not negative
  unfoldable pub size : SpscArray T → ℕ
  size a = a.write_pos - a.read_pos

  unfoldable pub empty : SpscArray T → Bool
  empty a = a.write_pos == a.read_pos

  -- The loop of `consume_all` from `pos` for `n` rounds: what the callback is called with.
  unfoldable pub consume_from : SpscArray T → ℕ → ℕ → Outcome (List T)
  consume_from a pos zero = ok []
  consume_from a pos (suc n) = do x ← at a pos; xs ← consume_from a (pos + 1) n; ok (x ∷ xs)

  -- `consume_all`: the loop runs while `readPos < writePos`, and leaves `readPos` there.
  unfoldable pub consume_all : SpscArray T → Outcome (List T × SpscArray T)
  consume_all a = do
    xs ← consume_from a a.read_pos (a.write_pos - a.read_pos)
    ok (xs, record a { read_pos = a.read_pos + (a.write_pos - a.read_pos) })
