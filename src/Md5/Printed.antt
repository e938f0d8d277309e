-- ===== src/Md5/Printed.antt =====
-- `ToString` followed by the constructor from a string (common/crypto/Md5.cpp).
use oldpart.Base.{
  ℕ, ◌+◌, ◌*◌, ◌/◌, ◌%◌, ◌<◌, ◌≡◌, ◌^◌, refl, ap, ap₂, ◌∙◌, false, none, some, List, [], ◌∷◌,
  length, ◌==◌, arith, get_or,
}
use oldpart.Proto.Types.{All}
use oldpart.Md5.Hex.{
  hex_char, to_string, hex_value, httoi_loop, skip_prefix, httoi, parse_bytes, of_string,
}

hex_value-hex_char : (n : ℕ) → n < 16 → hex_value (hex_char n) ≡ some n
unfolding hex_value
hex_value-hex_char n h = ground arith

skip_prefix-hex_char :
    (m n : ℕ) (rest : List ℕ) → n < 16 → skip_prefix (m ∷ hex_char n ∷ rest) ≡ m ∷ hex_char n ∷ rest
unfolding skip_prefix
skip_prefix-hex_char m n rest h = ground arith

httoi_loop_stops :
    (r : ℕ) (stack : List ℕ) → hex_value (get_or stack 0 0) ≡ none → httoi_loop r stack ≡ r
unfolding httoi_loop
httoi_loop_stops r [] h = refl
httoi_loop_stops r (c ∷ cs) h = rw (httoi_loop, h) refl

httoi_loop_digit :
    (r c v : ℕ) (cs : List ℕ)
    → hex_value c ≡ some v
    → httoi_loop r (c ∷ cs) ≡ httoi_loop ((r * 16 + v) % 2 ^ 32) cs
unfolding httoi_loop
httoi_loop_digit r c v cs h = rw (httoi_loop, h) refl

-- two digits, then the rest of the array
httoi-two_digits :
    (b : ℕ) (rest : List ℕ)
    → b < 256
    → httoi (hex_char (b / 16) ∷ hex_char (b % 16) ∷ rest) ≡ httoi_loop b rest
unfolding httoi
httoi-two_digits b rest h =
    ap (httoi_loop 0) (skip_prefix-hex_char (hex_char (b / 16)) (b % 16) rest (omega arith))
    ∙ httoi_loop_digit 0 (hex_char (b / 16)) (b / 16) (hex_char (b % 16) ∷ rest)
        (hex_value-hex_char (b / 16) (omega arith))
    ∙ httoi_loop_digit ((0 * 16 + b / 16) % 2 ^ 32) (hex_char (b % 16)) (b % 16) rest
        (hex_value-hex_char (b % 16) (omega arith))
    ∙ ap (λ r. httoi_loop r rest) (omega arith)

httoi-byte :
    (b : ℕ) (stack : List ℕ)
    → b < 256
    → hex_value (get_or stack 0 0) ≡ none
    → httoi (hex_char (b / 16) ∷ hex_char (b % 16) ∷ stack) % 256 ≡ b
httoi-byte b stack h s = omega (arith, httoi-two_digits b stack h, httoi_loop_stops b stack s)

parse_bytes-to_string :
    (stack d : List ℕ)
    → hex_value (get_or stack 0 0) ≡ none
    → All (λ b. b < 256) d
    → parse_bytes stack (length d) (to_string d) ≡ d
unfolding parse_bytes to_string
parse_bytes-to_string stack [] s h = refl
parse_bytes-to_string stack (b ∷ bs) s h =
    ap₂ ◌∷◌ (httoi-byte b stack h.0 s) (parse_bytes-to_string stack bs s h.1)

length-to_string-ne-zero : (d : List ℕ) → length d ≡ 16 → (length (to_string d) == 0) ≡ false
unfolding to_string
length-to_string-ne-zero [] h = absurd (omega arith)
length-to_string-ne-zero (b ∷ bs) h = ground arith

-- A digest of sixteen bytes that `ToString` prints is parsed back by the constructor from a
-- string, provided that the array which `strncpy` leaves unterminated does not happen to go on
-- with a hexadecimal digit.
pub of_string-to_string :
    (stack d : List ℕ)
    → hex_value (get_or stack 0 0) ≡ none
    → length d ≡ 16
    → All (λ b. b < 256) d
    → of_string stack (to_string d) ≡ d
unfolding of_string
of_string-to_string stack d s len h =
    rw (length-to_string-ne-zero d len) (
      ap (λ n. parse_bytes stack n (to_string d)) (omega arith) ∙ parse_bytes-to_string stack d s h)

-- Where the array goes on with a hexadecimal digit `c` and then with none, the byte that is parsed
-- is made of the second digit of the two and of `c`: the first digit is lost.
pub unterminated_byte :
    (b c v : ℕ) (stack : List ℕ)
    → b < 256
    → hex_value c ≡ some v
    → v < 16
    → hex_value (get_or stack 0 0) ≡ none
    → parse_bytes (c ∷ stack) 1 (to_string (b ∷ [])) ≡ ((b % 16 * 16 + v) ∷ [])
unfolding parse_bytes to_string
unterminated_byte b c v stack h e small s =
    ap (λ k. k ∷ [])
      (omega (
        arith,
        httoi-two_digits b (c ∷ stack) h,
        httoi_loop_digit b c v stack e,
        httoi_loop_stops ((b * 16 + v) % 2 ^ 32) stack s,
      ))
