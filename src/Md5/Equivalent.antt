-- ===== src/Md5/Equivalent.antt =====
-- `md5_process` and `GenerateMD5` (common/crypto/Md5.cpp) against MD5 as RFC 1321 describes it.
use oldpart.Base.{
  ℕ, zero, suc, ◌+◌, ◌-◌, ◌*◌, ◌/◌, ◌%◌, ◌^◌, ◌≤◌, ◌<◌, ◌≡◌, refl, subst, ap, ap₂, ◌∙◌, List, [],
  ◌∷◌, ◌++◌, length, take, drop, replicate, get_or, le_bytes, of_le, arith,
}
use oldpart.Md5.Process.{
  State, Step, apply_step, apply_steps, get_words, md5_process, f1, f2, f3, f4,
}
use oldpart.Md5.Update.{initial, put_state, generate_md5, md5_padding, pad_length}
use oldpart.Md5.Absorb.{absorb}
use oldpart.Md5.Padded.{pad, generate_md5-pad}
use oldpart.Md5.Agree.{
  IsLow, IsAgreeing, f1-IsAgreeing, f2-IsAgreeing, f3-IsAgreeing, f4-IsAgreeing, rotate-IsLow,
}
use oldpart.Md5.Reference.{
  aux_of, word_of, shifts_of, sines, operation, operations, words, process32, rounds, process_all,
  padded_text, md5_reference,
}

-- Words of 64 bits whose low 32 bits are the reference's state.
record IsLowState (r q : State) : Type 0 where
  a : IsLow r.a q.a
  b : IsLow r.b q.b
  c : IsLow r.c q.c
  d : IsLow r.d q.d
  b_small : r.b < 2 ^ 64
  c_small : r.c < 2 ^ 64
  d_small : r.d < 2 ^ 64
  a_small : r.a < 2 ^ 64

-- the line of the code for an operation of the reference
abbrev line : ℕ → ℕ → Step
line r i = (word_of r i, get_or (shifts_of r) (i % 4) 0, get_or sines (16 * r + i) 0)

abbrev lines : ℕ → ℕ → ℕ → List Step
lines zero r i = []
lines (suc n) r i = line r i ∷ lines n r (i + 1)

module _ (f : ℕ → ℕ → ℕ → ℕ) (n : ℕ) (agree : IsAgreeing f (aux_of n)) (x : List ℕ) where
  apply_step-operation :
      (i : ℕ) (r q : State)
      → IsLowState r q
      → IsLowState (apply_step f x (line n i) r) (operation n i x q)
  unfolding apply_step operation
  apply_step-operation i r q v =
      let same = agree r.b r.c r.d q.b q.c q.d v.d_small v.b v.c v.d in
      let word = get_or x (word_of n i) 0 in
      let t = get_or sines (16 * n + i) 0 in
      let s = get_or (shifts_of n) (i % 4) 0 in
      let sum = (r.a + ((f r.b r.c r.d + word) % 2 ^ 64 + t) % 2 ^ 64) % 2 ^ 64 in
      let sum32 = (((q.a + aux_of n q.b q.c q.d) % 2 ^ 32 + word) % 2 ^ 32 + t) % 2 ^ 32 in
      let sums : sum % 2 ^ 32 ≡ sum32 = omega (arith, same, v.a) in
      record {
        a = v.d;
        b = omega (arith, rotate-IsLow sum sum32 s sums, v.b);
        c = v.b;
        d = v.c;
        a_small = v.d_small;
        b_small = omega arith;
        c_small = v.b_small;
        d_small = v.c_small;
      }

  apply_steps-operations :
      (k i : ℕ) (r q : State)
      → IsLowState r q
      → IsLowState (apply_steps f x (lines k n i) r) (operations k n i x q)
  unfolding apply_steps operations
  apply_steps-operations zero i r q v = v
  apply_steps-operations (suc k) i r q v =
      apply_steps-operations k (i + 1) (apply_step f x (line n i) r) (operation n i x q)
        (apply_step-operation i r q v)

get_words-eq : (n : ℕ) (bs : List ℕ) → get_words n bs ≡ words n bs
unfolding get_words words
get_words-eq zero bs = refl
get_words-eq (suc n) bs = ap (λ t. of_le (take 4 bs) ∷ t) (get_words-eq n (drop 4 bs))

-- Below `2 ^ 64` the sums at the end of a block have the low bits of the reference's sums.
sums-IsLowState :
    (r q s t : State)
    → IsLowState r q
    → IsLowState s t
    → IsLowState
        (record {
          a = (r.a + s.a) % 2 ^ 64;
          b = (r.b + s.b) % 2 ^ 64;
          c = (r.c + s.c) % 2 ^ 64;
          d = (r.d + s.d) % 2 ^ 64;
        })
        (record {
          a = (q.a + t.a) % 2 ^ 32;
          b = (q.b + t.b) % 2 ^ 32;
          c = (q.c + t.c) % 2 ^ 32;
          d = (q.d + t.d) % 2 ^ 32;
        })
sums-IsLowState r q s t v w = record {
  a = omega (arith, v.a, w.a);
  b = omega (arith, v.b, w.b);
  c = omega (arith, v.c, w.c);
  d = omega (arith, v.d, w.d);
  a_small = omega arith;
  b_small = omega arith;
  c_small = omega arith;
  d_small = omega arith;
}

-- A block brings words whose low bits are the reference's state to words whose low bits are the
-- state that the four rounds of the reference bring it to.
md5_process-IsLowState :
    (r q : State) (block : List ℕ)
    → IsLowState r q
    → IsLowState (md5_process r block) (process32 q block)
unfolding md5_process process32 rounds
md5_process-IsLowState r q block v =
    let x = get_words 16 block in
    let r1 = apply_steps f1 x (lines 16 0 0) r in
    let r2 = apply_steps f2 x (lines 16 1 0) r1 in
    let r3 = apply_steps f3 x (lines 16 2 0) r2 in
    let q1 = operations 16 0 0 x q in
    let q2 = operations 16 1 0 x q1 in
    let q3 = operations 16 2 0 x q2 in
    let v1 = apply_steps-operations f1 0 f1-IsAgreeing x 16 0 r q v in
    let v2 = apply_steps-operations f2 1 f2-IsAgreeing x 16 0 r1 q1 v1 in
    let v3 = apply_steps-operations f3 2 f3-IsAgreeing x 16 0 r2 q2 v2 in
    let v4 = apply_steps-operations f4 3 f4-IsAgreeing x 16 0 r3 q3 v3 in
    subst (λ w. IsLowState (md5_process r block) (rounds w q)) (get_words-eq 16 block)
      (sums-IsLowState r q (apply_steps f4 x (lines 16 3 0) r3) (operations 16 3 0 x q3) v v4)

absorb-IsLowState :
    (k : ℕ) (r q : State) (bs : List ℕ)
    → IsLowState r q
    → IsLowState (absorb k r bs) (process_all k q bs)
unfolding absorb process_all
absorb-IsLowState zero r q bs v = v
absorb-IsLowState (suc k) r q bs v =
    absorb-IsLowState k (md5_process r (take 64 bs)) (process32 q (take 64 bs)) (drop 64 bs)
      (md5_process-IsLowState r q (take 64 bs) v)

-- The four bytes of a word are those of its low 32 bits.
le_bytes-IsLow : (x a : ℕ) → IsLow x a → le_bytes 4 x ≡ le_bytes 4 a
unfolding le_bytes
le_bytes-IsLow x a h =
    let e0 : x % 256 ≡ a % 256 = omega arith in
    let e1 : x / 256 % 256 ≡ a / 256 % 256 = omega arith in
    let e2 : x / 256 / 256 % 256 ≡ a / 256 / 256 % 256 = omega arith in
    let e3 : x / 256 / 256 / 256 % 256 ≡ a / 256 / 256 / 256 % 256 = omega arith in
    rw (e0, e1, e2, e3) refl

put_state-IsLowState : (r q : State) → IsLowState r q → put_state r ≡ put_state q
unfolding put_state
put_state-IsLowState r q v =
    rw
      (
        le_bytes-IsLow r.a q.a v.a,
        le_bytes-IsLow r.b q.b v.b,
        le_bytes-IsLow r.c q.c v.c,
        le_bytes-IsLow r.d q.d v.d,
      )
      refl

initial-IsLowState : IsLowState initial initial
initial-IsLowState = record {
  a = refl;
  b = refl;
  c = refl;
  d = refl;
  a_small = omega arith;
  b_small = omega arith;
  c_small = omega arith;
  d_small = omega arith;
}

take-replicate : (k n : ℕ) → k ≤ n → take k (replicate n zero) ≡ replicate k zero
take-replicate zero n h = refl
take-replicate (suc k) zero h = absurd (omega arith)
take-replicate (suc k) (suc n) h = ap (λ t. zero ∷ t) (take-replicate k n (omega arith))

padding_eq :
    (r : ℕ) → r < 64 → take (pad_length r) md5_padding ≡ 0x80 ∷ replicate ((119 - r) % 64) 0
padding_eq r h =
    let k = (119 - r) % 64 in
    let whole : pad_length r ≡ suc k = ground arith in
    ap (λ j. take j md5_padding) whole ∙ ap (λ t. 0x80 ∷ t) (take-replicate k 63 (omega arith))

count_eq : (n : ℕ) → n < 2 ^ 32 → le_bytes 4 n ++ le_bytes 4 0 ≡ le_bytes 8 n
unfolding le_bytes
count_eq n h = let zero_from : n / 256 / 256 / 256 / 256 ≡ 0 = omega arith in rw zero_from refl

pad-padded_text : (m : List ℕ) → length m < 2 ^ 29 → pad m ≡ padded_text m
unfolding pad padded_text
pad-padded_text m h =
    ap₂ (λ p c. m ++ p ++ c) (padding_eq (length m % 64) (omega arith))
      (count_eq (8 * length m) (omega arith))

-- `GenerateMD5` on a text of fewer than 2 ^ 29 - 72 bytes is the MD5 of RFC 1321 of that text,
-- though it computes with words of 64 bits whose high halves it does not clear: the reference
-- works on 32 bits, with the auxiliary functions, the order of words, the shifts and the padding
-- of the RFC. What the context's buffer held before does not matter.
pub generate_md5-md5_reference :
    (stack m : List ℕ)
    → length stack ≡ 64
    → length m < 2 ^ 29 - 72
    → generate_md5 stack m ≡ md5_reference m
unfolding md5_reference
generate_md5-md5_reference stack m whole small =
    let k = length (padded_text m) / 64 in
    (generate_md5-pad stack m whole small).1
    ∙ ap (λ t. put_state (absorb (length t / 64) initial t)) (pad-padded_text m (omega arith))
    ∙ put_state-IsLowState (absorb k initial (padded_text m))
        (process_all k initial (padded_text m))
        (absorb-IsLowState k initial initial (padded_text m) initial-IsLowState)
