-- ===== src/Md5/Sums.antt =====
-- `operator+` and `operator==` on digests (common/crypto/Md5.cpp).
use Prim.Native.Nat.{bit_xor, differ}
use oldpart.Base.{
  ℕ, zero, suc, ◌+◌, ◌/◌, ◌%◌, ◌≤◌, ◌≡◌, refl, sym, ap, ap₂, ◌∙◌, true, List, [], ◌∷◌, length,
  arith, inl, inr, ◌==◌, ◌&&◌, ==_iff, take, take_all, Bool-cases,
}
use oldpart.Md5.Digits.{digit, bit_xor-low, bit_xor-half}
use oldpart.Md5.Hex.{of_bytes, xor_bytes, add, same_bytes, is_equal}

differ_twice : (a b : ℕ) → differ (differ (a % 2) (b % 2)) (b % 2) ≡ a % 2
differ_twice a b = elim (digit a) [
  | inl p ↦ elim (digit b) [ inl q ↦ rw (p, q) refl | inr q ↦ rw (p, q) refl ]
  | inr p ↦ elim (digit b) [ inl q ↦ rw (p, q) refl | inr q ↦ rw (p, q) refl ]
]

differ_self : (a b : ℕ) → a % 2 ≡ b % 2 → differ (a % 2) (b % 2) ≡ 0
differ_self a b e = elim (digit b) [ inl q ↦ rw (e, q) refl | inr q ↦ rw (e, q) refl ]

xor_twice : (n a b : ℕ) → a ≤ n → b ≤ n → bit_xor (bit_xor a b) b ≡ a
xor_twice zero zero zero h k = refl
xor_twice zero zero (suc b) h k = absurd (omega arith)
xor_twice zero (suc a) b h k = absurd (omega arith)
xor_twice (suc n) a b h k =
    let x = bit_xor a b in
    let low : bit_xor x b % 2 ≡ a % 2 =
      bit_xor-low x b ∙ ap (λ l. differ l (b % 2)) (bit_xor-low a b) ∙ differ_twice a b in
    let half : bit_xor x b / 2 ≡ a / 2 =
      bit_xor-half x b
      ∙ ap (λ l. bit_xor l (b / 2)) (bit_xor-half a b)
      ∙ xor_twice n (a / 2) (b / 2) (omega arith) (omega arith) in
    omega (arith, low, half)

length-xor_bytes : (d e : List ℕ) → length d ≡ length e → length (xor_bytes d e) ≡ length d
unfolding xor_bytes
length-xor_bytes [] e h = refl
length-xor_bytes (x ∷ d) [] h = absurd (omega arith)
length-xor_bytes (x ∷ d) (y ∷ e) h = ap suc (length-xor_bytes d e (omega arith))

xor_bytes_twice : (d e : List ℕ) → length d ≡ length e → xor_bytes (xor_bytes d e) e ≡ d
unfolding xor_bytes
xor_bytes_twice [] e h = refl
xor_bytes_twice (x ∷ d) [] h = absurd (omega arith)
xor_bytes_twice (x ∷ d) (y ∷ e) h =
    ap₂ ◌∷◌ (xor_twice (x + y) x y (omega arith) (omega arith)) (xor_bytes_twice d e (omega arith))

-- Adding a digest and adding it again gives back what was there before.
pub add_twice : (d e : List ℕ) → length d ≡ 16 → length e ≡ 16 → add (add d e) e ≡ d
unfolding add of_bytes
add_twice d e h k =
    let l = length-xor_bytes d e (omega arith) in
    ap (λ b. take 16 (xor_bytes b e)) (take_all 16 (xor_bytes d e) (omega arith))
    ∙ ap (take 16) (xor_bytes_twice d e (omega arith))
    ∙ take_all 16 d (omega arith)

same_bytes_self : (d : List ℕ) → same_bytes d d ≡ true
unfolding same_bytes
same_bytes_self [] = refl
same_bytes_self (x ∷ d) = rw ((==_iff x x).1 refl) (same_bytes_self d)

same_bytes-eq : (d e : List ℕ) → length d ≡ length e → same_bytes d e ≡ true → d ≡ e
unfolding same_bytes
same_bytes-eq [] [] h s = refl
same_bytes-eq [] (y ∷ e) h s = absurd (omega arith)
same_bytes-eq (x ∷ d) [] h s = absurd (omega arith)
same_bytes-eq (x ∷ d) (y ∷ e) h s = elim (Bool-cases (x == y)) [
  | inl same ↦
      ap₂ ◌∷◌ ((==_iff x y).0 same)
        (same_bytes-eq d e (omega arith) (sym (ap (λ b. b && same_bytes d e) same) ∙ s))
  | inr other ↦ absurd (ground (arith, s, other))
]

-- `==` says of two digests whether they are equal.
pub is_equal_iff :
    (d e : List ℕ)
    → length d ≡ 16
    → length e ≡ 16
    → (is_equal d e ≡ true → d ≡ e) × (d ≡ e → is_equal d e ≡ true)
unfolding is_equal
is_equal_iff d e h k =
    let whole = take_all 16 d (omega arith) in
    let whole_e = take_all 16 e (omega arith) in
    (
      λ s.
          sym whole
          ∙ sym (
              same_bytes-eq (take 16 e) (take 16 d)
                (ap length whole_e ∙ k ∙ sym h ∙ sym (ap length whole)) s)
          ∙ whole_e,
      λ same. ap (λ b. same_bytes (take 16 e) (take 16 b)) same ∙ same_bytes_self (take 16 e),
    )
