-- ===== src/Md5/Absorb.antt =====
-- The loop of `md5_update` (common/crypto/Md5.cpp) as a number of blocks.
use oldpart.Base.{
  ℕ, zero, suc, ◌+◌, ◌*◌, ◌/◌, ◌≤◌, ◌≡◌, refl, ap, ◌∙◌, List, ◌++◌, length, take, drop, length-drop,
  drop-drop, take-append_le, drop-append_le, le→leb, lt→leb, arith,
}
use oldpart.Md5.Process.{State, md5_process}
use oldpart.Md5.Update.{process_blocks}

-- the state after the first `k` blocks of 64 bytes
unfoldable pub absorb : ℕ → State → List ℕ → State
absorb zero s xs = s
absorb (suc k) s xs = absorb k (md5_process s (take 64 xs)) (drop 64 xs)

pub process_blocks-absorb :
    (fuel : ℕ) (s : State) (xs : List ℕ) (k : ℕ)
    → k ≤ fuel
    → length xs / 64 ≡ k
    → process_blocks fuel s xs ≡ (absorb k s xs, drop (64 * k) xs)
unfolding process_blocks absorb
process_blocks-absorb zero s xs zero h e = refl
process_blocks-absorb zero s xs (suc k) h e = absurd (omega arith)
process_blocks-absorb (suc fuel) s xs zero h e =
    rw (process_blocks, lt→leb 64 (length xs) (omega arith)) refl
process_blocks-absorb (suc fuel) s xs (suc k) h e =
    rw (process_blocks, le→leb 64 (length xs) (omega arith))
      (process_blocks-absorb fuel (md5_process s (take 64 xs)) (drop 64 xs) k (omega arith)
          (omega (arith, length-drop 64 xs))
        ∙ ap (λ r. (absorb k (md5_process s (take 64 xs)) (drop 64 xs), r))
            (drop-drop 64 (64 * k) (64 * suc k) xs (omega arith)))

pub absorb-add :
    (j k n : ℕ) (s : State) (xs : List ℕ)
    → n ≡ j + k
    → absorb n s xs ≡ absorb k (absorb j s xs) (drop (64 * j) xs)
unfolding absorb
absorb-add zero k n s xs e = let same : n ≡ k = omega arith in ap (λ i. absorb i s xs) same
absorb-add (suc j) k zero s xs e = absurd (omega arith)
absorb-add (suc j) k (suc n) s xs e =
    absorb-add j k n (md5_process s (take 64 xs)) (drop 64 xs) (omega arith)
    ∙ ap (absorb k (absorb j (md5_process s (take 64 xs)) (drop 64 xs)))
        (drop-drop 64 (64 * j) (64 * suc j) xs (omega arith))

pub absorb-append :
    (k : ℕ) (s : State) (xs ys : List ℕ)
    → 64 * k ≤ length xs
    → absorb k s (xs ++ ys) ≡ absorb k s xs
unfolding absorb
absorb-append zero s xs ys h = refl
absorb-append (suc k) s xs ys h =
    rw (take-append_le 64 xs ys (omega arith), drop-append_le 64 xs ys (omega arith))
      (absorb-append k (md5_process s (take 64 xs)) (drop 64 xs) ys
        (omega (arith, length-drop 64 xs)))
