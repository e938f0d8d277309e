-- ===== src/Md5/Hex.antt =====
-- `ToString`, `_httoi`, the constructors, `operator+` and `operator==` of common/crypto/Md5.cpp. A digest is
-- its 16 bytes; characters are their codes.
use oldpart.Base.{
  Bool, true, false, ℕ, zero, suc, ◌+◌, ◌*◌, ◌/◌, ◌%◌, ◌^◌, ◌-◌, ◌&&◌, Option, none, some, List, [],
  ◌∷◌, ◌++◌, length, take, drop, replicate, ltb, leb, ◌==◌, if◌then◌else◌, get_or,
}
use Prim.Native.Nat.{bit_xor}

-- a character of `%02x`
abbrev pub hex_char : ℕ → ℕ
hex_char n = if ltb n 10 then 48 + n else 87 + n

-- `ToString`
unfoldable pub to_string : List ℕ → List ℕ
to_string [] = []
to_string (b ∷ bs) = hex_char (b / 16) ∷ hex_char (b % 16) ∷ to_string bs

-- `HexMap`
unfoldable pub hex_value : ℕ → Option ℕ
hex_value c =
    if leb 48 c && ltb c 58
    then some (c - 48)
    else (if leb 97 c && ltb c 103 then some (c - 87) else none)

-- the `while` loop of `_httoi`, up to a character that is no digit; the result is an `int`.
unfoldable pub httoi_loop : ℕ → List ℕ → ℕ
httoi_loop result [] = result
httoi_loop result (c ∷ cs) = elim (hex_value c) [
  | none ↦ result
  | some v ↦ httoi_loop ((result * 16 + v) % 2 ^ 32) cs
]

-- `if (*s == '0' && *(s + 1) == 'X') s += 2`
unfoldable pub skip_prefix : List ℕ → List ℕ
skip_prefix s = if (get_or s 0 0 == 48) && (get_or s 1 0 == 88) then drop 2 s else s

unfoldable pub httoi : List ℕ → ℕ
httoi s = httoi_loop 0 (skip_prefix s)

-- The loop of `MD5(const char*)`. `strncpy` copies two characters into `buf` and no terminator
-- behind them: what `_httoi` reads there is `stack`, whatever the array held.
unfoldable pub parse_bytes : List ℕ → ℕ → List ℕ → List ℕ
parse_bytes stack zero src = []
parse_bytes stack (suc n) src = httoi (take 2 src ++ stack) % 256 ∷ parse_bytes stack n (drop 2 src)

-- `MD5(const char*)`
unfoldable pub of_string : List ℕ → List ℕ → List ℕ
of_string stack src = if length src == 0 then replicate 16 0 else parse_bytes stack 16 src

-- `MD5()`
unfoldable pub zero_digest : List ℕ
zero_digest = replicate 16 0

-- `MD5(unsigned long*)`, on the bytes at the pointer
unfoldable pub of_bytes : List ℕ → List ℕ
of_bytes src = take 16 src

-- the loop of `operator+`, on the bytes of the two
unfoldable pub xor_bytes : List ℕ → List ℕ → List ℕ
xor_bytes [] ys = []
xor_bytes (x ∷ xs) [] = []
xor_bytes (x ∷ xs) (y ∷ ys) = bit_xor x y ∷ xor_bytes xs ys

unfoldable pub add : List ℕ → List ℕ → List ℕ
add d e = of_bytes (xor_bytes d e)

-- whether `memcmp` on two arrays of the same size is 0
unfoldable pub same_bytes : List ℕ → List ℕ → Bool
same_bytes [] ys = true
same_bytes (x ∷ xs) [] = false
same_bytes (x ∷ xs) (y ∷ ys) = (x == y) && same_bytes xs ys

-- `operator==`
unfoldable pub is_equal : List ℕ → List ℕ → Bool
is_equal d e = same_bytes (take 16 e) (take 16 d)
