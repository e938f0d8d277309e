-- ===== src/Spsc/Window.antt =====
-- The elements of an `SPSCArray` (common/SPSCArray.h) from one position on.
use oldpart.Base.{
  ℕ, zero, suc, ◌+◌, ◌-◌, ◌%◌, ◌<◌, ◌≤◌, ◌≡◌, ◌≢◌, refl, sym, ap, ap₂, ◌∙◌, some, List, [], ◌∷◌,
  ◌++◌, length, get_elem?, get_or, set, arith, get_or-set_self, get_or-set_ne, drop,
}
use native.Mathlib.Nat.{mod-eq_of_lt, mod-add-mod, mod-eq-sub-mod}
use native.Mathlib.Decide.{dec_lt}
use oldpart.Spsc.Array.{SpscArray}

-- Two positions less than a capacity apart are at different places.
pub mod-ne : (cap p d : ℕ) → 0 < d → d < cap → p % cap ≢ (p + d) % cap
mod-ne cap p d pos h e = elim (dec_lt (p % cap + d) cap) [
  | yes q ↦ omega (arith, shift, mod-eq_of_lt {n = p % cap + d} {m = cap} q)
  | no q ↦ omega (
    arith,
    shift,
    mod-eq-sub-mod {n = p % cap + d} {m = cap} (omega arith),
    mod-eq_of_lt {n = p % cap + d - cap} {m = cap} (omega (arith, below)),
    below,
  )
]
  where
    below : p % cap < cap
    below = omega arith

    shift : (p % cap + d) % cap ≡ (p + d) % cap
    shift = mod-add-mod p cap d

module _ {ℓ} {T : Type ℓ} (dflt : T) where
  -- the elements at `n` positions from `pos` on
  abbrev pub window : List T → ℕ → ℕ → ℕ → List T
  window items cap pos zero = []
  window items cap pos (suc n) = get_or items (pos % cap) dflt ∷ window items cap (pos + 1) n

  abbrev pub contents : SpscArray T → List T
  contents a = window a.items a.capacity a.read_pos (a.write_pos - a.read_pos)

  pub length-window : (items : List T) (cap pos n : ℕ) → length (window items cap pos n) ≡ n
  length-window items cap pos zero = refl
  length-window items cap pos (suc n) = ap suc (length-window items cap (pos + 1) n)

  -- Writing where the window ends extends it, as long as it does not come round to its start.
  pub window-set :
      (items : List T) (cap pos n i : ℕ) (x : T)
      → cap ≤ length items
      → n < cap
      → i ≡ pos + n
      → window (set items (i % cap) x) cap pos (suc n) ≡ window items cap pos n ++ (x ∷ [])
  window-set items cap pos zero i x room h e =
      let at_pos : pos % cap ≡ i % cap = ap (λ k. k % cap) (omega arith) in
      ap (λ t. t ∷ [])
        (ap (λ k. get_or (set items (i % cap) x) k dflt) at_pos
          ∙ get_or-set_self items (i % cap) x dflt (omega arith))
  window-set items cap pos (suc n) i x room h e =
      ap₂ ◌∷◌
        (get_or-set_ne items (i % cap) (pos % cap) x dflt
          (λ q. mod-ne cap pos (suc n) (omega arith) h (sym q ∙ ap (λ k. k % cap) e)))
        (window-set items cap (pos + 1) n i x room (omega arith) (omega arith))

  pub get_elem?-window :
      (items : List T) (cap pos n k i : ℕ)
      → k < n
      → i ≡ pos + k
      → get_elem? (window items cap pos n) k ≡ some (get_or items (i % cap) dflt)
  get_elem?-window items cap pos zero k i h e = absurd (omega arith)
  get_elem?-window items cap pos (suc n) zero i h e =
      ap (λ j. some (get_or items (j % cap) dflt)) (omega arith)
  get_elem?-window items cap pos (suc n) (suc k) i h e =
      get_elem?-window items cap (pos + 1) n k i (omega arith) (omega arith)

  pub drop-window :
      (items : List T) (cap pos m j : ℕ)
      → j ≤ m
      → drop j (window items cap pos m) ≡ window items cap (pos + j) (m - j)
  drop-window items cap pos m zero h = ap₂ (window items cap) (omega arith) (omega arith)
  drop-window items cap pos zero (suc j) h = absurd (omega arith)
  drop-window items cap pos (suc m) (suc j) h =
      drop-window items cap (pos + 1) m j (omega arith)
      ∙ ap₂ (window items cap) (omega arith) (omega arith)
