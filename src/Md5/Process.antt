-- ===== src/Md5/Process.antt =====
-- `md5_process`: one block into the state. `uint32` is `unsigned long`, of 64 bits here.
use Prim.Native.Nat.{bit_and, bit_or, bit_xor}
use oldpart.Base.{
  ℕ, zero, suc, ◌+◌, ◌-◌, ◌*◌, ◌/◌, ◌%◌, ◌^◌, List, [], ◌∷◌, get_or, take, drop, of_le,
}

-- `x + y`, `x << n` and `~x` on 64 bits
abbrev pub add : ℕ → ℕ → ℕ
add x y = (x + y) % 2 ^ 64

abbrev pub shl : ℕ → ℕ → ℕ
shl x n = x * 2 ^ n % 2 ^ 64

abbrev pub complement : ℕ → ℕ
complement x = 2 ^ 64 - 1 - x

-- `ctx->state`
pub record State : Type 0 where
  pub a : ℕ
  pub b : ℕ
  pub c : ℕ
  pub d : ℕ

-- `S(x,n)`
unfoldable pub rotate : ℕ → ℕ → ℕ
rotate x n = bit_or (shl x n) (bit_and x 0xffffffff / 2 ^ (32 - n))

-- the four definitions of `F(x,y,z)`
abbrev pub f1 : ℕ → ℕ → ℕ → ℕ
f1 x y z = bit_xor z (bit_and x (bit_xor y z))

abbrev pub f2 : ℕ → ℕ → ℕ → ℕ
f2 x y z = bit_xor y (bit_and z (bit_xor x y))

abbrev pub f3 : ℕ → ℕ → ℕ → ℕ
f3 x y z = bit_xor (bit_xor x y) z

abbrev pub f4 : ℕ → ℕ → ℕ → ℕ
f4 x y z = bit_xor y (bit_or x (complement z))

-- `k`, `s` and `t` of a line `P(a, b, c, d, k, s, t)`
abbrev pub Step : Type 0
Step = ℕ × ℕ × ℕ

-- `P`, and the change of roles from each line to the next: (A, B, C, D), (D, A, B, C), …
unfoldable pub apply_step : (ℕ → ℕ → ℕ → ℕ) → List ℕ → Step → State → State
unfolding rotate
apply_step f x (k, s, t) r =
    let sum = add r.a (add (add (f r.b r.c r.d) (get_or x k 0)) t) in
    record { a = r.d; b = add (rotate sum s) r.b; c = r.b; d = r.c }

unfoldable pub apply_steps : (ℕ → ℕ → ℕ → ℕ) → List ℕ → List Step → State → State
unfolding apply_step
apply_steps f x [] r = r
apply_steps f x (s ∷ ss) r = apply_steps f x ss (apply_step f x s r)

abbrev pub steps1 : List Step
steps1 =
    (0, 7, 0xd76aa478)
    ∷ (1, 12, 0xe8c7b756)
    ∷ (2, 17, 0x242070db)
    ∷ (3, 22, 0xc1bdceee)
    ∷ (4, 7, 0xf57c0faf)
    ∷ (5, 12, 0x4787c62a)
    ∷ (6, 17, 0xa8304613)
    ∷ (7, 22, 0xfd469501)
    ∷ (8, 7, 0x698098d8)
    ∷ (9, 12, 0x8b44f7af)
    ∷ (10, 17, 0xffff5bb1)
    ∷ (11, 22, 0x895cd7be)
    ∷ (12, 7, 0x6b901122)
    ∷ (13, 12, 0xfd987193)
    ∷ (14, 17, 0xa679438e)
    ∷ (15, 22, 0x49b40821)
    ∷ []

abbrev pub steps2 : List Step
steps2 =
    (1, 5, 0xf61e2562)
    ∷ (6, 9, 0xc040b340)
    ∷ (11, 14, 0x265e5a51)
    ∷ (0, 20, 0xe9b6c7aa)
    ∷ (5, 5, 0xd62f105d)
    ∷ (10, 9, 0x02441453)
    ∷ (15, 14, 0xd8a1e681)
    ∷ (4, 20, 0xe7d3fbc8)
    ∷ (9, 5, 0x21e1cde6)
    ∷ (14, 9, 0xc33707d6)
    ∷ (3, 14, 0xf4d50d87)
    ∷ (8, 20, 0x455a14ed)
    ∷ (13, 5, 0xa9e3e905)
    ∷ (2, 9, 0xfcefa3f8)
    ∷ (7, 14, 0x676f02d9)
    ∷ (12, 20, 0x8d2a4c8a)
    ∷ []

abbrev pub steps3 : List Step
steps3 =
    (5, 4, 0xfffa3942)
    ∷ (8, 11, 0x8771f681)
    ∷ (11, 16, 0x6d9d6122)
    ∷ (14, 23, 0xfde5380c)
    ∷ (1, 4, 0xa4beea44)
    ∷ (4, 11, 0x4bdecfa9)
    ∷ (7, 16, 0xf6bb4b60)
    ∷ (10, 23, 0xbebfbc70)
    ∷ (13, 4, 0x289b7ec6)
    ∷ (0, 11, 0xeaa127fa)
    ∷ (3, 16, 0xd4ef3085)
    ∷ (6, 23, 0x04881d05)
    ∷ (9, 4, 0xd9d4d039)
    ∷ (12, 11, 0xe6db99e5)
    ∷ (15, 16, 0x1fa27cf8)
    ∷ (2, 23, 0xc4ac5665)
    ∷ []

abbrev pub steps4 : List Step
steps4 =
    (0, 6, 0xf4292244)
    ∷ (7, 10, 0x432aff97)
    ∷ (14, 15, 0xab9423a7)
    ∷ (5, 21, 0xfc93a039)
    ∷ (12, 6, 0x655b59c3)
    ∷ (3, 10, 0x8f0ccc92)
    ∷ (10, 15, 0xffeff47d)
    ∷ (1, 21, 0x85845dd1)
    ∷ (8, 6, 0x6fa87e4f)
    ∷ (15, 10, 0xfe2ce6e0)
    ∷ (6, 15, 0xa3014314)
    ∷ (13, 21, 0x4e0811a1)
    ∷ (4, 6, 0xf7537e82)
    ∷ (11, 10, 0xbd3af235)
    ∷ (2, 15, 0x2ad7d2bb)
    ∷ (9, 21, 0xeb86d391)
    ∷ []

-- `GET_UINT32`, for so many words
unfoldable pub get_words : ℕ → List ℕ → List ℕ
get_words zero bytes = []
get_words (suc n) bytes = of_le (take 4 bytes) ∷ get_words n (drop 4 bytes)

unfoldable pub md5_process : State → List ℕ → State
unfolding get_words of_le apply_steps
md5_process r block =
    let x = get_words 16 block in
    let r1 = apply_steps f1 x steps1 r in
    let r2 = apply_steps f2 x steps2 r1 in
    let r3 = apply_steps f3 x steps3 r2 in
    let r4 = apply_steps f4 x steps4 r3 in
    record { a = add r.a r4.a; b = add r.b r4.b; c = add r.c r4.c; d = add r.d r4.d }
