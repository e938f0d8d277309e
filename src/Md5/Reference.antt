-- ===== src/Md5/Reference.antt =====
-- MD5 as RFC 1321 describes it, on words of 32 bits: what common/crypto/Md5.cpp computes.
use Prim.Native.Nat.{bit_and, bit_or, bit_xor}
use oldpart.Base.{
  ℕ, zero, suc, ◌+◌, ◌-◌, ◌*◌, ◌/◌, ◌%◌, ◌^◌, List, [], ◌∷◌, ◌++◌, length, take, drop, get_or,
  le_bytes, of_le, replicate,
}
use oldpart.Md5.Process.{State}
use oldpart.Md5.Update.{initial, put_state}

abbrev pub add32 : ℕ → ℕ → ℕ
add32 x y = (x + y) % 2 ^ 32

abbrev pub complement32 : ℕ → ℕ
complement32 x = 2 ^ 32 - 1 - x

-- `(X << n) | (X >> (32 - n))`
unfoldable pub rotate32 : ℕ → ℕ → ℕ
rotate32 x n = bit_or (x * 2 ^ n % 2 ^ 32) (x / 2 ^ (32 - n))

-- the four auxiliary functions of section 3.4
abbrev pub aux_f : ℕ → ℕ → ℕ → ℕ
aux_f x y z = bit_or (bit_and x y) (bit_and (complement32 x) z)

abbrev pub aux_g : ℕ → ℕ → ℕ → ℕ
aux_g x y z = bit_or (bit_and x z) (bit_and y (complement32 z))

abbrev pub aux_h : ℕ → ℕ → ℕ → ℕ
aux_h x y z = bit_xor (bit_xor x y) z

abbrev pub aux_i : ℕ → ℕ → ℕ → ℕ
aux_i x y z = bit_xor y (bit_or x (complement32 z))

-- `T[i + 1]`, the whole part of 2 ^ 32 times the absolute value of the sine of `i + 1`
abbrev pub sines : List ℕ
sines =
    0xd76aa478 ∷ 0xe8c7b756 ∷ 0x242070db ∷ 0xc1bdceee ∷ 0xf57c0faf ∷ 0x4787c62a ∷ 0xa8304613
    ∷ 0xfd469501 ∷ 0x698098d8 ∷ 0x8b44f7af ∷ 0xffff5bb1 ∷ 0x895cd7be ∷ 0x6b901122 ∷ 0xfd987193
    ∷ 0xa679438e ∷ 0x49b40821 ∷ 0xf61e2562 ∷ 0xc040b340 ∷ 0x265e5a51 ∷ 0xe9b6c7aa ∷ 0xd62f105d
    ∷ 0x02441453 ∷ 0xd8a1e681 ∷ 0xe7d3fbc8 ∷ 0x21e1cde6 ∷ 0xc33707d6 ∷ 0xf4d50d87 ∷ 0x455a14ed
    ∷ 0xa9e3e905 ∷ 0xfcefa3f8 ∷ 0x676f02d9 ∷ 0x8d2a4c8a ∷ 0xfffa3942 ∷ 0x8771f681 ∷ 0x6d9d6122
    ∷ 0xfde5380c ∷ 0xa4beea44 ∷ 0x4bdecfa9 ∷ 0xf6bb4b60 ∷ 0xbebfbc70 ∷ 0x289b7ec6 ∷ 0xeaa127fa
    ∷ 0xd4ef3085 ∷ 0x04881d05 ∷ 0xd9d4d039 ∷ 0xe6db99e5 ∷ 0x1fa27cf8 ∷ 0xc4ac5665 ∷ 0xf4292244
    ∷ 0x432aff97 ∷ 0xab9423a7 ∷ 0xfc93a039 ∷ 0x655b59c3 ∷ 0x8f0ccc92 ∷ 0xffeff47d ∷ 0x85845dd1
    ∷ 0x6fa87e4f ∷ 0xfe2ce6e0 ∷ 0xa3014314 ∷ 0x4e0811a1 ∷ 0xf7537e82 ∷ 0xbd3af235 ∷ 0x2ad7d2bb
    ∷ 0xeb86d391 ∷ []

-- The round of an operation, the word that it reads and the amount that it rotates by.
abbrev pub word_of : ℕ → ℕ → ℕ
word_of zero i = i
word_of (suc zero) i = (1 + 5 * i) % 16
word_of (suc (suc zero)) i = (5 + 3 * i) % 16
word_of (suc (suc (suc r))) i = 7 * i % 16

abbrev pub shifts_of : ℕ → List ℕ
shifts_of zero = 7 ∷ 12 ∷ 17 ∷ 22 ∷ []
shifts_of (suc zero) = 5 ∷ 9 ∷ 14 ∷ 20 ∷ []
shifts_of (suc (suc zero)) = 4 ∷ 11 ∷ 16 ∷ 23 ∷ []
shifts_of (suc (suc (suc r))) = 6 ∷ 10 ∷ 15 ∷ 21 ∷ []

abbrev pub aux_of : ℕ → ℕ → ℕ → ℕ → ℕ
aux_of zero = aux_f
aux_of (suc zero) = aux_g
aux_of (suc (suc zero)) = aux_h
aux_of (suc (suc (suc r))) = aux_i

-- `a = b + ((a + F(b,c,d) + X[k] + T[i]) <<< s)` in round `r`, and the change of roles
unfoldable pub operation : ℕ → ℕ → List ℕ → State → State
unfolding rotate32
operation r i x q =
    let sum =
      add32 (add32 (add32 q.a (aux_of r q.b q.c q.d)) (get_or x (word_of r i) 0))
        (get_or sines (16 * r + i) 0) in
    record {
      a = q.d;
      b = add32 q.b (rotate32 sum (get_or (shifts_of r) (i % 4) 0));
      c = q.b;
      d = q.c;
    }

-- the operations from the `i`-th of a round on
unfoldable pub operations : ℕ → ℕ → ℕ → List ℕ → State → State
unfolding operation
operations zero r i x q = q
operations (suc n) r i x q = operations n r (i + 1) x (operation r i x q)

-- the words of a text, low byte first
unfoldable pub words : ℕ → List ℕ → List ℕ
words zero bytes = []
words (suc n) bytes = of_le (take 4 bytes) ∷ words n (drop 4 bytes)

-- the four rounds on the words of a block, and the sums with the state before
unfoldable pub rounds : List ℕ → State → State
unfolding operations
rounds x q =
    let end =
      operations 16 3 0 x (operations 16 2 0 x (operations 16 1 0 x (operations 16 0 0 x q))) in
    record { a = add32 q.a end.a; b = add32 q.b end.b; c = add32 q.c end.c; d = add32 q.d end.d }

-- a block of 64 bytes
unfoldable pub process32 : State → List ℕ → State
unfolding words rounds of_le
process32 q block = rounds (words 16 block) q

-- so many blocks
unfoldable pub process_all : ℕ → State → List ℕ → State
process_all zero q bytes = q
process_all (suc k) q bytes = process_all k (process32 q (take 64 bytes)) (drop 64 bytes)

-- A bit 1, bits 0 up to 64 bits before the end of a block, and the number of bits in 64 bits.
unfoldable pub padded_text : List ℕ → List ℕ
padded_text m = m ++ (0x80 ∷ replicate ((119 - length m % 64) % 64) 0) ++ le_bytes 8 (8 * length m)

unfoldable pub md5_reference : List ℕ → List ℕ
unfolding process_all padded_text
md5_reference m = put_state (process_all (length (padded_text m) / 64) initial (padded_text m))
