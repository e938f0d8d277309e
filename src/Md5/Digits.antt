-- ===== src/Md5/Digits.antt =====
-- The binary digits of `bit_and`, `bit_or` and `bit_xor`, which common/crypto/Md5.cpp computes with.
use Prim.Native.Nat.{
  max, bit_and, bit_or, bit_xor, digits, differ, bit_and-bitwise, bit_or-bitwise, bit_xor-bitwise,
}
use native.Mathlib.Nat.{add-mul-mod_self_left, mod-eq_of_lt, mod-lt, div-add-mod, mul_assoc}
use oldpart.Base.{
  ℕ, zero, suc, ◌+◌, ◌-◌, ◌*◌, ◌/◌, ◌%◌, ◌^◌, ◌≤◌, ◌<◌, min, ◌≡◌, refl, sym, ap, ap₂, ◌∙◌, ◌⊎◌, inl,
  inr, arith,
}

module _ (z : ℕ → ℕ) (f : ℕ → ℕ → ℕ) where
  -- A round more than the digits of the first number changes nothing, and no more do several.
  spare_round : (rounds x y : ℕ) → x ≤ rounds → digits z f (suc rounds) x y ≡ digits z f rounds x y
  spare_round zero zero y h = refl
  spare_round (suc rounds) zero y h = refl
  spare_round zero (suc x) y h = absurd (omega arith)
  spare_round (suc rounds) (suc x) y h =
      ap (λ high. high * 2 + f (suc x % 2) (y % 2))
        (spare_round rounds (suc x / 2) (y / 2) (omega arith))

  spare_rounds : (k rounds x y : ℕ) → rounds ≡ x + k → digits z f rounds x y ≡ digits z f x x y
  spare_rounds zero rounds x y e =
      let same : rounds ≡ x = omega arith in ap (λ r. digits z f r x y) same
  spare_rounds (suc k) rounds x y e =
      let more : rounds ≡ suc (x + k) = omega arith in
      ap (λ r. digits z f r x y) more
      ∙ spare_round (x + k) x y (omega arith)
      ∙ spare_rounds k (x + k) x y refl

  -- One step, where what is left when the first number has run out agrees with it.
  lowest_step :
      (x y : ℕ)
      → z y ≡ z (y / 2) * 2 + f 0 (y % 2)
      → digits z f x x y ≡ digits z f (x / 2) (x / 2) (y / 2) * 2 + f (x % 2) (y % 2)
  lowest_step zero y h = h
  lowest_step (suc x) y h =
      ap (λ high. high * 2 + f (suc x % 2) (y % 2))
        (spare_rounds (x - suc x / 2) x (suc x / 2) (y / 2) (omega arith))

pub digit : (a : ℕ) → (a % 2 ≡ 0) ⊎ (a % 2 ≡ 1)
digit a = ground arith

differ_small : (a b : ℕ) → differ (a % 2) (b % 2) < 2
differ_small a b = elim (digit a) [
  | inl p ↦ elim (digit b) [ inl q ↦ rw (p, q) (omega arith) | inr q ↦ rw (p, q) (omega arith) ]
  | inr p ↦ elim (digit b) [ inl q ↦ rw (p, q) (omega arith) | inr q ↦ rw (p, q) (omega arith) ]
]

and_step : (a b : ℕ) → bit_and a b ≡ bit_and (a / 2) (b / 2) * 2 + min (a % 2) (b % 2)
and_step a b =
    bit_and-bitwise a b
    ∙ lowest_step (λ b. 0) min a b (omega arith)
    ∙ ap (λ k. k * 2 + min (a % 2) (b % 2)) (sym (bit_and-bitwise (a / 2) (b / 2)))

or_step : (a b : ℕ) → bit_or a b ≡ bit_or (a / 2) (b / 2) * 2 + max (a % 2) (b % 2)
or_step a b =
    bit_or-bitwise a b
    ∙ lowest_step (λ b. b) max a b (omega arith)
    ∙ ap (λ k. k * 2 + max (a % 2) (b % 2)) (sym (bit_or-bitwise (a / 2) (b / 2)))

xor_step : (a b : ℕ) → bit_xor a b ≡ bit_xor (a / 2) (b / 2) * 2 + differ (a % 2) (b % 2)
xor_step a b =
    bit_xor-bitwise a b
    ∙ lowest_step (λ b. b) differ a b (omega arith)
    ∙ ap (λ k. k * 2 + differ (a % 2) (b % 2)) (sym (bit_xor-bitwise (a / 2) (b / 2)))

-- The lowest digit of a result, and the others.
pub bit_and-low : (a b : ℕ) → bit_and a b % 2 ≡ min (a % 2) (b % 2)
bit_and-low a b = omega (arith, and_step a b)

pub bit_and-half : (a b : ℕ) → bit_and a b / 2 ≡ bit_and (a / 2) (b / 2)
bit_and-half a b = omega (arith, and_step a b)

pub bit_or-low : (a b : ℕ) → bit_or a b % 2 ≡ max (a % 2) (b % 2)
bit_or-low a b = omega (arith, or_step a b)

pub bit_or-half : (a b : ℕ) → bit_or a b / 2 ≡ bit_or (a / 2) (b / 2)
bit_or-half a b = omega (arith, or_step a b)

pub bit_xor-low : (a b : ℕ) → bit_xor a b % 2 ≡ differ (a % 2) (b % 2)
bit_xor-low a b = omega (arith, xor_step a b, differ_small a b)

pub bit_xor-half : (a b : ℕ) → bit_xor a b / 2 ≡ bit_xor (a / 2) (b / 2)
bit_xor-half a b = omega (arith, xor_step a b, differ_small a b)

-- The lowest `k` digits are the same, or opposite.
abbrev pub IsSame : ℕ → ℕ → ℕ → Type 0
IsSame zero a b = Unit
IsSame (suc k) a b = (a % 2 ≡ b % 2) × IsSame k (a / 2) (b / 2)

abbrev pub IsOpposite : ℕ → ℕ → ℕ → Type 0
IsOpposite zero a b = Unit
IsOpposite (suc k) a b = (a % 2 + b % 2 ≡ 1) × IsOpposite k (a / 2) (b / 2)

-- The remainder by an even number, from its half.
mod_double : (a p : ℕ) → 0 < p → a % (2 * p) ≡ a / 2 % p * 2 + a % 2
mod_double a p h =
    let q = a / 2 / p in
    let r = a / 2 % p in
    let small : r < p = mod-lt (a / 2) h in
    let whole : a ≡ r * 2 + a % 2 + 2 * p * q =
      omega (arith, div-add-mod (a / 2) p, mul_assoc 2 p q) in
    ap (λ k. k % (2 * p)) whole
    ∙ add-mul-mod_self_left (r * 2 + a % 2) (2 * p) q
    ∙ mod-eq_of_lt (omega arith)

power_positive : (k : ℕ) → 0 < 2 ^ k
power_positive zero = omega arith
power_positive (suc k) = omega (arith, power_positive k)

mod_suc : (k a : ℕ) → a % 2 ^ suc k ≡ a / 2 % 2 ^ k * 2 + a % 2
mod_suc k a =
    let double : 2 ^ suc k ≡ 2 * 2 ^ k = omega arith in
    ap (λ p. a % p) double ∙ mod_double a (2 ^ k) (power_positive k)

-- Numbers with the same remainder by `2 ^ k` are those with the same lowest digits.
pub mod-IsSame : (k a b : ℕ) → a % 2 ^ k ≡ b % 2 ^ k → IsSame k a b
mod-IsSame zero a b h = tt
mod-IsSame (suc k) a b h =
    let low : a % 2 ≡ b % 2 = omega (arith, mod_suc k a, mod_suc k b) in
    (low, mod-IsSame k (a / 2) (b / 2) (omega (arith, mod_suc k a, mod_suc k b)))

pub IsSame-mod : (k a b : ℕ) → IsSame k a b → a % 2 ^ k ≡ b % 2 ^ k
IsSame-mod zero a b h = omega arith
IsSame-mod (suc k) a b h =
    omega (arith, mod_suc k a, mod_suc k b, h.0, IsSame-mod k (a / 2) (b / 2) h.1)

pub self-IsSame : (k a : ℕ) → IsSame k a a
self-IsSame k a = mod-IsSame k a a refl

-- The complement in at least `k` digits has the opposite ones.
pub complement-IsOpposite : (k w a : ℕ) → k ≤ w → a < 2 ^ w → IsOpposite k (2 ^ w - 1 - a) a
complement-IsOpposite zero w a h small = tt
complement-IsOpposite (suc k) zero a h small = absurd (omega arith)
complement-IsOpposite (suc k) (suc w) a h small =
    let half : (2 ^ suc w - 1 - a) / 2 ≡ 2 ^ w - 1 - a / 2 = omega arith in
    (omega arith, rw half (complement-IsOpposite k w (a / 2) (omega arith) (omega arith)))

-- Numbers whose lowest digits are opposite to the same are the same.
pub IsOpposite-IsSame :
    (k a b c d : ℕ) → IsOpposite k a b → IsOpposite k c d → IsSame k b d → IsSame k a c
IsOpposite-IsSame zero a b c d p q s = tt
IsOpposite-IsSame (suc k) a b c d p q s =
    (omega arith, IsOpposite-IsSame k (a / 2) (b / 2) (c / 2) (d / 2) p.1 q.1 s.1)

-- 0 has no digit in common with any number.
no_digits : (rounds x : ℕ) → digits (λ y. 0) min rounds x 0 ≡ 0
no_digits zero x = refl
no_digits (suc rounds) zero = refl
no_digits (suc rounds) (suc x) = omega (arith, no_digits rounds (suc x / 2))

-- A mask of `k` digits.
pub bit_and-mask : (k a : ℕ) → bit_and a (2 ^ k - 1) ≡ a % 2 ^ k
bit_and-mask zero a = omega (arith, bit_and-bitwise a 0, no_digits a a)
bit_and-mask (suc k) a =
    let half : (2 ^ suc k - 1) / 2 ≡ 2 ^ k - 1 = omega arith in
    let odd : (2 ^ suc k - 1) % 2 ≡ 1 = omega (arith, power_positive k) in
    and_step a (2 ^ suc k - 1)
    ∙ ap₂ (λ h o. bit_and (a / 2) h * 2 + min (a % 2) o) half odd
    ∙ omega (arith, bit_and-mask k (a / 2), mod_suc k a)
