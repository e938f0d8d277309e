-- ===== src/Md5/Agree.antt =====
-- The macros `F` and `S` of common/crypto/Md5.cpp, on words of 64 bits, against the functions of
-- RFC 1321 on the low 32 bits of the words.
use Prim.Native.Nat.{max, bit_and, bit_or, bit_xor, differ}
use native.Mathlib.Nat.{add-mul, mul_assoc}
use oldpart.Base.{
  ℕ, zero, suc, ◌+◌, ◌-◌, ◌*◌, ◌/◌, ◌%◌, ◌^◌, ◌<◌, min, ◌≡◌, refl, sym, ap, ap₂, ◌∙◌, inl, inr,
  arith,
}
use oldpart.Md5.Digits.{
  IsSame, IsOpposite, bit_and-low, bit_and-half, bit_or-low, bit_or-half, bit_xor-low, bit_xor-half,
  mod-IsSame, IsSame-mod, self-IsSame, complement-IsOpposite, IsOpposite-IsSame, bit_and-mask,
  digit,
}
use oldpart.Md5.Process.{shl, complement, rotate, f1, f2, f3, f4}
use oldpart.Md5.Reference.{rotate32, complement32, aux_f, aux_g, aux_h, aux_i}

-- Functions that are the same on all digits.
abbrev Table : (ℕ → ℕ → ℕ → ℕ) → (ℕ → ℕ → ℕ → ℕ) → Type 0
Table f g =
    ((f 0 0 0 ≡ g 0 0 0) × (f 0 0 1 ≡ g 0 0 1) × (f 0 1 0 ≡ g 0 1 0) × (f 0 1 1 ≡ g 0 1 1))
    × ((f 1 0 0 ≡ g 1 0 0) × (f 1 0 1 ≡ g 1 0 1) × (f 1 1 0 ≡ g 1 1 0) × (f 1 1 1 ≡ g 1 1 1))

by_table :
    (f g : ℕ → ℕ → ℕ → ℕ) (x y z : ℕ)
    → Table f g
    → f (x % 2) (y % 2) (z % 2) ≡ g (x % 2) (y % 2) (z % 2)
by_table f g x y z t = elim (digit x) [
  | inl a ↦ elim (digit y) [
    | inl b ↦ elim (digit z) [ inl c ↦ rw (a, b, c) t.0.0 | inr c ↦ rw (a, b, c) t.0.1 ]
    | inr b ↦ elim (digit z) [ inl c ↦ rw (a, b, c) t.0.2 | inr c ↦ rw (a, b, c) t.0.3 ]
  ]
  | inr a ↦ elim (digit y) [
    | inl b ↦ elim (digit z) [ inl c ↦ rw (a, b, c) t.1.0 | inr c ↦ rw (a, b, c) t.1.1 ]
    | inr b ↦ elim (digit z) [ inl c ↦ rw (a, b, c) t.1.2 | inr c ↦ rw (a, b, c) t.1.3 ]
  ]
]

opposite_digit : (n x : ℕ) → n % 2 + x % 2 ≡ 1 → n % 2 ≡ 1 - x % 2
opposite_digit n x h = omega arith

-- Words whose low digits are those of the reference's words, with the complements that they take:
-- the functions of the four rounds have the same low digits.
f1-IsSame :
    (k n x y z a b c : ℕ)
    → IsOpposite k n a
    → IsSame k x a
    → IsSame k y b
    → IsSame k z c
    → IsSame k (f1 x y z) (bit_or (bit_and a b) (bit_and n c))
f1-IsSame zero n x y z a b c o p q r = tt
f1-IsSame (suc k) n x y z a b c o p q r = (
  simp (bit_xor-low, bit_and-low, bit_or-low, opposite_digit n a o.0, p.0, q.0, r.0)
      (by_table (λ x y z. differ z (min x (differ y z))) (λ x y z. max (min x y) (min (1 - x) z)) a
        b c ((refl, refl, refl, refl), (refl, refl, refl, refl))),
  simp (bit_xor-half, bit_and-half, bit_or-half)
      (f1-IsSame k (n / 2) (x / 2) (y / 2) (z / 2) (a / 2) (b / 2) (c / 2) o.1 p.1 q.1 r.1),
)

f2-IsSame :
    (k n x y z a b c : ℕ)
    → IsOpposite k n c
    → IsSame k x a
    → IsSame k y b
    → IsSame k z c
    → IsSame k (f2 x y z) (bit_or (bit_and a c) (bit_and b n))
f2-IsSame zero n x y z a b c o p q r = tt
f2-IsSame (suc k) n x y z a b c o p q r = (
  simp (bit_xor-low, bit_and-low, bit_or-low, opposite_digit n c o.0, p.0, q.0, r.0)
      (by_table (λ x y z. differ y (min z (differ x y))) (λ x y z. max (min x z) (min y (1 - z))) a
        b c ((refl, refl, refl, refl), (refl, refl, refl, refl))),
  simp (bit_xor-half, bit_and-half, bit_or-half)
      (f2-IsSame k (n / 2) (x / 2) (y / 2) (z / 2) (a / 2) (b / 2) (c / 2) o.1 p.1 q.1 r.1),
)

bit_xor-IsSame :
    (k x y a b : ℕ) → IsSame k x a → IsSame k y b → IsSame k (bit_xor x y) (bit_xor a b)
bit_xor-IsSame zero x y a b p q = tt
bit_xor-IsSame (suc k) x y a b p q = (
  bit_xor-low x y ∙ ap₂ differ p.0 q.0 ∙ sym (bit_xor-low a b),
  rw (bit_xor-half x y, bit_xor-half a b)
      (bit_xor-IsSame k (x / 2) (y / 2) (a / 2) (b / 2) p.1 q.1),
)

bit_or-IsSame : (k x y a b : ℕ) → IsSame k x a → IsSame k y b → IsSame k (bit_or x y) (bit_or a b)
bit_or-IsSame zero x y a b p q = tt
bit_or-IsSame (suc k) x y a b p q = (
  bit_or-low x y ∙ ap₂ max p.0 q.0 ∙ sym (bit_or-low a b),
  rw (bit_or-half x y, bit_or-half a b) (bit_or-IsSame k (x / 2) (y / 2) (a / 2) (b / 2) p.1 q.1),
)

-- A word of 64 bits whose low 32 bits are a word of the reference.
abbrev pub IsLow : ℕ → ℕ → Type 0
IsLow x a = x % 2 ^ 32 ≡ a

low-IsSame : (x a : ℕ) → IsLow x a → IsSame 32 x a
low-IsSame x a h = mod-IsSame 32 x a (omega arith)

-- What one of the four functions has of its reference.
abbrev pub IsAgreeing : (ℕ → ℕ → ℕ → ℕ) → (ℕ → ℕ → ℕ → ℕ) → Type 0
IsAgreeing f g =
    (x y z a b c : ℕ)
    → z < 2 ^ 64
    → IsLow x a
    → IsLow y b
    → IsLow z c
    → f x y z % 2 ^ 32 ≡ g a b c % 2 ^ 32

complemented : (a : ℕ) → a < 2 ^ 32 → IsOpposite 32 (complement32 a) a
complemented a h = complement-IsOpposite 32 32 a (omega arith) h

pub f1-IsAgreeing : IsAgreeing f1 aux_f
f1-IsAgreeing x y z a b c w p q r = IsSame-mod 32 (f1 x y z) (aux_f a b c) (
    f1-IsSame 32 (complement32 a) x y z a b c (complemented a (omega arith)) (low-IsSame x a p)
      (low-IsSame y b q) (low-IsSame z c r))

pub f2-IsAgreeing : IsAgreeing f2 aux_g
f2-IsAgreeing x y z a b c w p q r = IsSame-mod 32 (f2 x y z) (aux_g a b c) (
    f2-IsSame 32 (complement32 c) x y z a b c (complemented c (omega arith)) (low-IsSame x a p)
      (low-IsSame y b q) (low-IsSame z c r))

pub f3-IsAgreeing : IsAgreeing f3 aux_h
f3-IsAgreeing x y z a b c w p q r = IsSame-mod 32 (f3 x y z) (aux_h a b c) (
    bit_xor-IsSame 32 (bit_xor x y) z (bit_xor a b) c
      (bit_xor-IsSame 32 x y a b (low-IsSame x a p) (low-IsSame y b q)) (low-IsSame z c r))

pub f4-IsAgreeing : IsAgreeing f4 aux_i
f4-IsAgreeing x y z a b c w p q r =
    let flipped =
      IsOpposite-IsSame 32 (complement z) z (complement32 c) c
        (complement-IsOpposite 32 64 z (omega arith) w) (complemented c (omega arith))
        (low-IsSame z c r) in
    IsSame-mod 32 (f4 x y z) (aux_i a b c) (
      bit_xor-IsSame 32 y (bit_or x (complement z)) b (bit_or a (complement32 c)) (low-IsSame y b q)
        (bit_or-IsSame 32 x (complement z) a (complement32 c) (low-IsSame x a p) flipped))

-- The low 32 bits of a product.
low_product : (x a m : ℕ) → IsLow x a → x * m % 2 ^ 64 % 2 ^ 32 ≡ a * m % 2 ^ 32
low_product x a m h =
    let q = x / 2 ^ 32 in
    let whole : x * m ≡ a * m + 2 ^ 32 * (q * m) =
      ap (λ t. t * m) (omega arith)
      ∙ add-mul a (2 ^ 32 * q) m
      ∙ ap (λ t. a * m + t) (mul_assoc (2 ^ 32) q m) in
    omega (arith, whole)

-- The macro `S` rotates the low 32 bits.
pub rotate-IsLow : (x a n : ℕ) → IsLow x a → rotate x n % 2 ^ 32 ≡ rotate32 a n % 2 ^ 32
unfolding rotate rotate32
rotate-IsLow x a n h =
    let right : bit_and x 0xffffffff / 2 ^ (32 - n) ≡ a / 2 ^ (32 - n) =
      ap (λ t. t / 2 ^ (32 - n)) (bit_and-mask 32 x ∙ h) in
    IsSame-mod 32 (rotate x n) (rotate32 a n) (
      bit_or-IsSame 32 (shl x n) (bit_and x 0xffffffff / 2 ^ (32 - n)) (a * 2 ^ n % 2 ^ 32)
        (a / 2 ^ (32 - n))
        (mod-IsSame 32 (shl x n) (a * 2 ^ n % 2 ^ 32) (low_product x a (2 ^ n) h ∙ omega arith))
        (rw right (self-IsSame 32 (a / 2 ^ (32 - n)))))
